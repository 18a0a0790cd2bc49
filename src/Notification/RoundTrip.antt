-- ===== src/Notification/RoundTrip.antt =====
-- An event that goes over the wire comes out as it went in, but for the fields that the reader sets.
use rsb_cpp.Prelude.{
  ℕ, ◌≡◌, refl, ap, sym, ◌∙◌, Bool, false, [], ◌∷◌, none, some, ◌==◌, Text, bytes, All, ok,
  if◌then◌else◌, Bool-cases, inl, inr,
}
use rsb_cpp.Maps.{Ord, insert, erase, text_ord}
use rsb_cpp.Maps.Sorted.{IsSorted, put_all-empty, insert_all_new-empty}
use rsb_cpp.Scope.{Scope, parse}
use rsb_cpp.Scope.Syntax.{IsNormal}
use rsb_cpp.Scope.Printing.{parse-render}
use rsb_cpp.MetaData.{MetaData, new_meta_data, set_user_info}
use rsb_cpp.Event.{Event, EventId, event_id_ord, new_event, set_data, set_scope, set_meta_data}
use rsb_cpp.Notification.{
  Notification, blank, event_to_notification, notification_to_event, read_fields, read_causes,
  read_infos, read_times, write_causes, write_entries, fill_event_id, read_meta_data, method_field,
  read_method,
}
use rsb_cpp.Notification.Reading.{
  wire_ids, write_entries-append, write_causes-append, read_infos-put_all, read_times-put_all,
  read_causes-insert_all_new,
}

module _ {Uuid Payload : Type 0} ⦃o : Ord Uuid⦄ where
  -- What the wire can carry: a scope in normal form, maps in order, and no time stamp of zero, which
  -- the reader takes for the current time.
  pub record IsSendable (e : Event Uuid Payload) : Type 0 where
    pub scope : IsNormal e.scope
    pub causes : IsSorted e.causes
    pub infos : IsSorted e.meta_data.user_infos
    pub times : IsSorted e.meta_data.user_times
    pub timed : All (λ t. (t.1 == 0) ≡ false) e.meta_data.user_times
    pub created : (e.meta_data.create_time == 0) ≡ false
    pub sent : (e.meta_data.send_time == 0) ≡ false

pub parse-IsNormal_scope : (s : Scope) → IsNormal s → parse s.scopestring ≡ ok s
parse-IsNormal_scope s h =
    ap parse h.text
    ∙ parse-render s.components h.components
    ∙ ap (λ t. ok (record { scopestring = t; components = s.components })) (sym h.text)

read_method-field :
    {Uuid Payload : Type 0} (method : Text) (e : Event Uuid Payload)
    → e.method ≡ []
    → read_method (method_field method none) e ≡ record e { method = method }
read_method-field [] e h = λ i. record e { method = h i }
read_method-field (c ∷ method) e h = refl

module _ {Uuid Payload : Type 0} ⦃o : Ord Uuid⦄ (data_of : Uuid → Text) where
  -- The notification carries the fields of the event.
  pub record Carries (n : Notification) (e : Event Uuid Payload) : Type 0 where
    pub method : n.method ≡ method_field e.method none
    pub infos : n.user_infos ≡ e.meta_data.user_infos
    pub times : n.user_times ≡ e.meta_data.user_times
    pub causes : n.causes ≡ wire_ids data_of e.causes

module _ {Uuid Other : Type 0} where
  -- Without the fields that read_fields fills.
  abbrev pub cleared : Event Uuid Other → Event Uuid Other
  cleared d = record d {
    method = [];
    causes = [];
    meta_data = record d.meta_data { user_infos = []; user_times = [] };
  }

module _ {Uuid Payload Other : Type 0} ⦃o : Ord Uuid⦄ (data_of : Uuid → Text)
    (of_data : Text → Uuid) where
  -- What the common part of the readers makes of an event that has none of these fields yet.
  pub read_fields-Carries :
      (back : (u : Uuid) → of_data (data_of u) ≡ u) (clock : ℕ → ℕ) (i : ℕ) (n : Notification)
      (e : Event Uuid Payload) (s : Scope) (d : Event Uuid Other)
      → IsSendable e
      → Carries data_of n e
      → read_fields of_data clock i n s (cleared d) ≡ record d {
        scope = s;
        method = e.method;
        causes = e.causes;
        meta_data = record d.meta_data {
          user_infos = e.meta_data.user_infos;
          user_times = e.meta_data.user_times;
        };
      }
  unfolding read_fields
  read_fields-Carries back clock i n e s d h c =
      let dated : MetaData Uuid = record d.meta_data {
        user_infos = e.meta_data.user_infos;
        user_times = e.meta_data.user_times;
      } in
      let told : MetaData Uuid = record d.meta_data {
        user_infos = e.meta_data.user_infos;
        user_times = [];
      } in
      let infos : read_infos e.meta_data.user_infos (cleared d).meta_data ≡ told =
        read_infos-put_all e.meta_data.user_infos (cleared d).meta_data
        ∙ ap (λ m. record d.meta_data { user_infos = m; user_times = [] })
            (put_all-empty e.meta_data.user_infos h.infos) in
      let times : read_times clock i e.meta_data.user_times told ≡ dated =
        read_times-put_all clock i e.meta_data.user_times told h.timed
        ∙ ap (λ m. record told { user_times = m }) (put_all-empty e.meta_data.user_times h.times) in
      let bare : Event Uuid Other = record (cleared d) { scope = s; method = e.method } in
      ap
        (λ m.
          read_causes of_data n.causes
            (read_meta_data clock i n (read_method m (set_scope s (cleared d)))))
        c.method
      ∙ ap (λ f. read_causes of_data n.causes (read_meta_data clock i n f))
          (read_method-field e.method (set_scope s (cleared d)) refl)
      ∙ ap
          (λ m. read_causes of_data n.causes (
            set_meta_data (read_times clock i n.user_times (read_infos m (cleared d).meta_data))
              bare))
          c.infos
      ∙ ap
          (λ m.
            read_causes of_data n.causes (set_meta_data (read_times clock i n.user_times m) bare))
          infos
      ∙ ap (λ m. read_causes of_data n.causes (set_meta_data (read_times clock i m told) bare))
          c.times
      ∙ ap (λ m. read_causes of_data n.causes (set_meta_data m bare)) times
      ∙ ap (λ m. read_causes of_data m (set_meta_data dated bare)) c.causes
      ∙ read_causes-insert_all_new data_of of_data back e.causes (set_meta_data dated bare)
      ∙ ap (λ m. record (set_meta_data dated bare) { causes = m })
          (insert_all_new-empty e.causes h.causes)

module _ {Uuid Payload : Type 0} where
  -- The event that comes out of notificationToEvent for `e`: the payload is the bytes that went over the
  -- wire, the type is empty, the time of receipt is the current one and that of delivery zero.
  abbrev pub received :
      (ℕ → ℕ) → Bool → EventId Uuid → Event Uuid Payload → Text → Text → Event Uuid Text
  received clock expose id e schema content = record {
    id = some id;
    scope = e.scope;
    content = some content;
    type = [];
    method = e.method;
    causes = e.causes;
    meta_data = record e.meta_data {
      sender_id = id.participant_id;
      receive_time = clock 3;
      deliver_time = 0;
      user_infos =
          if expose
          then insert (bytes "rsb.wire-schema") schema
              (erase (bytes "rsb.wire-schema") e.meta_data.user_infos)
          else e.meta_data.user_infos;
    };
  }

module _ {Uuid Payload : Type 0} ⦃o : Ord Uuid⦄ (data_of : Uuid → Text)
    (of_data : Text → Uuid) where
  -- The notification that eventToNotification writes for an event with that id.
  abbrev pub written : EventId Uuid → Event Uuid Payload → Text → Text → Notification
  written id e schema content = record blank {
    event_id = fill_event_id data_of id;
    scope = e.scope.scopestring;
    method = method_field e.method none;
    wire_schema = schema;
    create_time = e.meta_data.create_time;
    send_time = e.meta_data.send_time;
    user_infos = write_entries e.meta_data.user_infos [];
    user_times = write_entries e.meta_data.user_times [];
    causes = write_causes data_of e.causes [];
    payload = content;
  }

  written-Carries :
      (id : EventId Uuid) (e : Event Uuid Payload) (schema content : Text)
      → Carries data_of (written id e schema content) e
  written-Carries id e schema content = record {
    method = refl;
    infos = write_entries-append e.meta_data.user_infos [];
    times = write_entries-append e.meta_data.user_times [];
    causes = write_causes-append data_of e.causes [];
  }

  -- An event with an id, a scope in normal form, maps in order and no time stamp of zero is written, and
  -- what notificationToEvent reads of that is the event, but for the fields that it sets itself: the
  -- payload and the type, the sender, the times of receipt and delivery, and the wire-schema if it is
  -- to be exposed.
  pub notification_to_event-event_to_notification :
      (back : (u : Uuid) → of_data (data_of u) ≡ u) (nil : Uuid) (clock : ℕ → ℕ)
      (e : Event Uuid Payload) (id : EventId Uuid) (schema content : Text) (expose : Bool)
      → IsSendable e
      → e.id ≡ some id
      → (n : Notification) × (event_to_notification data_of blank e schema content ≡ some n)
        × (notification_to_event of_data nil clock n expose
            ≡ ok (received clock expose id e schema content))
  unfolding event_to_notification notification_to_event
  notification_to_event-event_to_notification back nil clock e id schema content expose h known = (
    written id e schema content,
    rw known refl,
    (let times : MetaData Uuid = record (new_meta_data nil (clock 0)) {
      create_time = e.meta_data.create_time;
      send_time = e.meta_data.send_time;
      receive_time = clock 3;
      sender_id = id.participant_id;
    } in
        let begun : Event Uuid Text = record (new_event nil (clock 0)) {
          id = some id;
          meta_data = times;
        } in
        let finish : Event Uuid Text → Event Uuid Text = λ full.
          if expose
          then set_meta_data (set_user_info (bytes "rsb.wire-schema") schema full.meta_data) full
          else full in
        rw
          (
            notification_to_event,
            parse-IsNormal_scope e.scope h.scope,
            h.created,
            h.sent,
            back id.participant_id,
          )
          (ap (λ f. ok (finish (set_data (some content) f)))
              (read_fields-Carries data_of of_data back clock 4 (written id e schema content) e
                e.scope begun h (written-Carries id e schema content))
            ∙ elim (Bool-cases expose) [ inl x ↦ rw x refl | inr x ↦ rw x refl ])),
  )
