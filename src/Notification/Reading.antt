-- ===== src/Notification/Reading.antt =====
-- The loops of the two directions, each as one operation on the lists.
use rsb_cpp.Prelude.{
  ℕ, suc, ◌≡◌, refl, ap, sym, ◌∙◌, Bool, true, false, List, [], ◌∷◌, ◌++◌, Option, none, some, ◌==◌,
  Text, append_assoc, append-nil, All,
}
use rsb_cpp.Maps.{Ord, Map, KeySet, find, insert, text_ord}
use rsb_cpp.Maps.Sorted.{put_all, insert_all_new, insert_new}
use rsb_cpp.MetaData.{MetaData}
use rsb_cpp.Event.{Event, EventId, event_id_ord, add_cause}
use rsb_cpp.Notification.{
  WireId, fill_event_id, write_causes, write_entries, read_infos, read_times, read_id, read_causes,
}

pub write_entries-append :
    {V : Type 0} (m : Map Text V) (entries : List (Text × V))
    → write_entries m entries ≡ entries ++ m
unfolding write_entries
write_entries-append [] entries = sym (append-nil entries)
write_entries-append ((key, value) ∷ m) entries =
    write_entries-append m (entries ++ (key, value) ∷ [])
    ∙ append_assoc entries ((key, value) ∷ []) m

module _ {Uuid : Type 0} (data_of : Uuid → Text) where
  abbrev pub wire_ids : KeySet (EventId Uuid) → List WireId
  wire_ids [] = []
  wire_ids ((id, u) ∷ ids) = fill_event_id data_of id ∷ wire_ids ids

  pub write_causes-append :
      (ids : KeySet (EventId Uuid)) (causes : List WireId)
      → write_causes data_of ids causes ≡ causes ++ wire_ids ids
  unfolding write_causes
  write_causes-append [] causes = sym (append-nil causes)
  write_causes-append ((id, u) ∷ ids) causes =
      write_causes-append ids (causes ++ fill_event_id data_of id ∷ [])
      ∙ append_assoc causes (fill_event_id data_of id ∷ []) (wire_ids ids)

module _ {Uuid : Type 0} where
  pub read_infos-put_all :
      (infos : List (Text × Text)) (m : MetaData Uuid)
      → read_infos infos m ≡ record m { user_infos = put_all m.user_infos infos }
  unfolding read_infos put_all
  read_infos-put_all [] m = refl
  read_infos-put_all ((key, value) ∷ infos) m = read_infos-put_all infos _

  pub read_times-put_all :
      (clock : ℕ → ℕ) (i : ℕ) (times : List (Text × ℕ)) (m : MetaData Uuid)
      → All (λ e. (e.1 == 0) ≡ false) times
      → read_times clock i times m ≡ record m { user_times = put_all m.user_times times }
  unfolding read_times put_all
  read_times-put_all clock i [] m h = refl
  read_times-put_all clock i ((key, time) ∷ times) m h =
      rw (h.0) (read_times-put_all clock (suc i) times _ h.1)

module _ {Uuid Payload : Type 0} ⦃o : Ord Uuid⦄ where
  add_cause-insert_new :
      (id : EventId Uuid) (e : Event Uuid Payload)
      → (add_cause id e).0 ≡ record e { causes = insert_new id tt e.causes }
  unfolding add_cause
  add_cause-insert_new id e = split (find id e.causes)
    where
      split :
          (f : Option {0} (Unit {0}))
          → (let r : Event Uuid Payload × Bool = elim f [
            | none ↦ (record e { causes = insert id tt e.causes }, true)
            | some u ↦ (e, false)
          ] in
              r.0)
            ≡ record e { causes = elim f [ none ↦ insert id tt e.causes | some w ↦ e.causes ] }
      split none = refl
      split (some w) = refl

  pub read_causes-insert_all_new :
      (data_of : Uuid → Text) (of_data : Text → Uuid) (back : (u : Uuid) → of_data (data_of u) ≡ u)
      (ids : KeySet (EventId Uuid)) (e : Event Uuid Payload)
      → read_causes of_data (wire_ids data_of ids) e
        ≡ record e { causes = insert_all_new e.causes ids }
  unfolding read_causes insert_all_new
  read_causes-insert_all_new data_of of_data back [] e = refl
  read_causes-insert_all_new data_of of_data back ((id, u) ∷ ids) e =
      let same : (add_cause (read_id of_data (fill_event_id data_of id)) e).0
          ≡ record e { causes = insert_new id tt e.causes } =
        rw (back id.participant_id) (add_cause-insert_new id e) in
      ap (read_causes of_data (wire_ids data_of ids)) same
      ∙ read_causes-insert_all_new data_of of_data back ids
          (record e { causes = insert_new id tt e.causes })
