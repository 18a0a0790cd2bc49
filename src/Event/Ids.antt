-- ===== src/Event/Ids.antt =====
-- EventId: participant and sequence number, and the order of std::set<EventId>.
use rsb_cpp.Prelude.{ℕ, ◌≡◌, arith, Bool, true, false, ◌&&◌, ltb, ◌==◌, if◌then◌else◌}
use rsb_cpp.Maps.{Ord}

pub record EventId (Uuid : Type 0) : Type 0 where
  pub participant_id : Uuid
  pub sequence_number : ℕ

module _ {Uuid : Type 0} ⦃o : Ord Uuid⦄ where
  abbrev pub event_id_eq : EventId Uuid → EventId Uuid → Bool
  event_id_eq a b =
      a.sequence_number == b.sequence_number && o.beq a.participant_id b.participant_id

  abbrev pub event_id_lt : EventId Uuid → EventId Uuid → Bool
  event_id_lt a b =
      if ltb a.sequence_number b.sequence_number
      then true
      else if ltb b.sequence_number a.sequence_number
      then false
      else o.lt a.participant_id b.participant_id

  pub id_refl : (a : EventId Uuid) → event_id_eq a a ≡ true
  id_refl a = ground (arith, o.beq_refl a.participant_id)

  pub id_sym : (a b : EventId Uuid) → event_id_eq a b ≡ event_id_eq b a
  id_sym a b = ground (arith, o.beq_sym a.participant_id b.participant_id)

  pub id_cong : (a b c : EventId Uuid) → event_id_eq a b ≡ true → event_id_eq a c ≡ event_id_eq b c
  id_cong a b c h = ground (arith, o.beq_cong a.participant_id b.participant_id c.participant_id)

  pub id_irrefl : (a b : EventId Uuid) → event_id_eq a b ≡ true → event_id_lt a b ≡ false
  id_irrefl a b h = ground (arith, o.lt_irrefl a.participant_id b.participant_id)

  pub id_trans :
      (a b c : EventId Uuid)
      → event_id_lt a b ≡ true
      → event_id_lt b c ≡ true
      → event_id_lt a c ≡ true
  id_trans a b c h k = ground (arith, o.lt_trans a.participant_id b.participant_id c.participant_id)

  -- operator< orders any two ids that operator== tells apart.
  pub event_id_lt_total :
      (a b : EventId Uuid)
      → event_id_eq a b ≡ false
      → event_id_lt a b ≡ false
      → event_id_lt b a ≡ true
  event_id_lt_total a b h k = ground (
    arith,
    o.lt_total a.participant_id b.participant_id,
    o.beq_sym a.participant_id b.participant_id,
  )

instance abbrev pub event_id_ord : {Uuid : Type 0} ⦃o : Ord Uuid⦄ → Ord (EventId Uuid)
event_id_ord {Uuid} ⦃o⦄ = record {
  beq = event_id_eq ⦃o = o⦄;
  lt = event_id_lt ⦃o = o⦄;
  beq_refl = id_refl ⦃o = o⦄;
  beq_sym = id_sym ⦃o = o⦄;
  beq_cong = id_cong ⦃o = o⦄;
  lt_irrefl = id_irrefl ⦃o = o⦄;
  lt_trans = id_trans ⦃o = o⦄;
  lt_total = event_id_lt_total ⦃o = o⦄;
}
