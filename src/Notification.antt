-- ===== src/Notification.antt =====
-- src/rsb/transport/socket/Serialization.cpp and src/rsb/protocol/Notification.cpp: events as the
-- notifications that go over the wire. A uuid of the RSC library is written as its bytes by `data_of`
-- and read by `of_data`; `clock i` is the i-th reading of the clock during a call.
pub mod Reading
pub mod RoundTrip
pub mod Header
pub mod Examples
use rsb_cpp.Prelude.{
  ℕ, suc, Bool, true, false, List, [], ◌∷◌, ◌++◌, map, Option, none, some, if◌then◌else◌, is_empty,
  Text, bytes, Result, ok, err,
}
use rsb_cpp.Maps.{Ord, Map, KeySet}
use rsb_cpp.Scope.{Scope, SyntaxError, parse}
use rsb_cpp.MetaData.{
  MetaData, set_create_time, set_send_time, set_receive_time, set_deliver_time, set_user_info,
  set_user_time,
}
use rsb_cpp.Event.{
  Event, EventId, event_id_ord, new_event, set_id, set_scope, set_method, set_type, set_data,
  set_meta_data, add_cause,
}

-- The fields of the generated class protocol::EventId that the code sets and reads.
pub record WireId : Type 0 where
  pub sender_id : Text
  pub sequence_number : ℕ

-- Those of protocol::Notification and of its MetaData.
pub record Notification : Type 0 where
  pub event_id : WireId
  pub scope : Text
  pub method : Option Text
  pub wire_schema : Text
  pub create_time : ℕ
  pub send_time : ℕ
  pub receive_time : ℕ
  pub deliver_time : ℕ
  pub user_infos : List (Text × Text)
  pub user_times : List (Text × ℕ)
  pub causes : List WireId
  pub payload : Text

-- A new notification.
abbrev pub blank : Notification
blank = record {
  event_id = record { sender_id = []; sequence_number = 0 };
  scope = [];
  method = none;
  wire_schema = [];
  create_time = 0;
  send_time = 0;
  receive_time = 0;
  deliver_time = 0;
  user_infos = [];
  user_times = [];
  causes = [];
  payload = [];
}

module _ {Uuid : Type 0} (data_of : Uuid → Text) where
  abbrev pub fill_event_id : EventId Uuid → WireId
  fill_event_id id = record {
    sender_id = data_of id.participant_id;
    sequence_number = id.sequence_number;
  }

  -- The loop over the causes: one more message for each.
  unfoldable pub write_causes : KeySet (EventId Uuid) → List WireId → List WireId
  write_causes [] causes = causes
  write_causes ((id, u) ∷ ids) causes = write_causes ids (causes ++ fill_event_id id ∷ [])

-- The loops over userInfos and userTimes.
unfoldable pub write_entries : {V : Type 0} → Map Text V → List (Text × V) → List (Text × V)
write_entries [] entries = entries
write_entries ((key, value) ∷ m) entries = write_entries m (entries ++ (key, value) ∷ [])

abbrev pub method_field : Text → Option Text → Option Text
method_field method old = if is_empty method then old else some method

module _ {Uuid Payload : Type 0} (data_of : Uuid → Text) where
  -- eventToNotification; `none` is the exception for an event without an id.
  unfoldable pub event_to_notification :
      Notification → Event Uuid Payload → Text → Text → Option Notification
  unfolding write_causes write_entries
  event_to_notification n e schema content = elim e.id [
    | none ↦ none
    | some id ↦ some (record n {
      event_id = fill_event_id data_of id;
      scope = e.scope.scopestring;
      method = method_field e.method n.method;
      wire_schema = schema;
      create_time = e.meta_data.create_time;
      send_time = e.meta_data.send_time;
      user_infos = write_entries e.meta_data.user_infos n.user_infos;
      user_times = write_entries e.meta_data.user_times n.user_times;
      causes = write_causes data_of e.causes n.causes;
      payload = content;
    })
  ]

  -- protocol::fillNotificationId
  unfoldable pub fill_notification_id : Notification → Event Uuid Payload → Option Notification
  fill_notification_id n e = elim e.id [
    | none ↦ none
    | some id ↦ some (record n { event_id = fill_event_id data_of id })
  ]

  -- protocol::fillNotificationHeader
  unfoldable pub fill_notification_header : Notification → Event Uuid Payload → Text → Notification
  unfolding write_causes write_entries
  fill_notification_header n e schema = record n {
    wire_schema = schema;
    scope = e.scope.scopestring;
    method = method_field e.method n.method;
    create_time = e.meta_data.create_time;
    send_time = e.meta_data.send_time;
    receive_time = e.meta_data.receive_time;
    deliver_time = e.meta_data.deliver_time;
    user_infos = write_entries e.meta_data.user_infos n.user_infos;
    user_times = write_entries e.meta_data.user_times n.user_times;
    causes = write_causes data_of e.causes n.causes;
  }

module _ {Uuid : Type 0} where
  -- The loops that read them back; the i-th user time reads the clock at i.
  unfoldable pub read_infos : List (Text × Text) → MetaData Uuid → MetaData Uuid
  read_infos [] m = m
  read_infos ((key, value) ∷ infos) m = read_infos infos (set_user_info key value m)

  unfoldable pub read_times : (ℕ → ℕ) → ℕ → List (Text × ℕ) → MetaData Uuid → MetaData Uuid
  read_times clock i [] m = m
  read_times clock i ((key, time) ∷ times) m =
      read_times clock (suc i) times (set_user_time (clock i) key time m)

module _ {Uuid : Type 0} (of_data : Text → Uuid) where
  abbrev pub read_id : WireId → EventId Uuid
  read_id id = record {
    participant_id = of_data id.sender_id;
    sequence_number = id.sequence_number;
  }

module _ {Uuid Payload : Type 0} where
  abbrev pub read_method : Option Text → Event Uuid Payload → Event Uuid Payload
  read_method none e = e
  read_method (some method) e = set_method method e

  abbrev pub read_meta_data : (ℕ → ℕ) → ℕ → Notification → Event Uuid Payload → Event Uuid Payload
  read_meta_data clock i n e =
      set_meta_data (read_times clock i n.user_times (read_infos n.user_infos e.meta_data)) e

module _ {Uuid Payload : Type 0} ⦃o : Ord Uuid⦄ (of_data : Text → Uuid) where
  unfoldable pub read_causes : List WireId → Event Uuid Payload → Event Uuid Payload
  read_causes [] e = e
  read_causes (id ∷ ids) e = read_causes ids (add_cause (read_id of_data id) e).0

  -- The part behind the scope, which both readers have.
  unfoldable pub read_fields :
      (ℕ → ℕ) → ℕ → Notification → Scope → Event Uuid Payload → Event Uuid Payload
  unfolding read_causes read_infos read_times
  read_fields clock i n s e =
      read_causes n.causes (read_meta_data clock i n (read_method n.method (set_scope s e)))

  -- protocol::fillEvent: the event, which is filled as far as the scope if that is not legal.
  unfoldable pub fill_event :
      (ℕ → ℕ)
      → Event Uuid Payload
      → Notification
      → Option Payload
      → Text
      → Event Uuid Payload × Option SyntaxError
  unfolding read_fields
  fill_event clock e n content data_type =
      let times = set_deliver_time (clock 3) n.deliver_time (
        set_receive_time (clock 2) n.receive_time (
          set_send_time (clock 1) n.send_time
            (set_create_time (clock 0) n.create_time e.meta_data))) in
      let begun =
        set_id (of_data n.event_id.sender_id) n.event_id.sequence_number (set_meta_data times e) in
      elim (parse n.scope) [
        | err x ↦ (begun, some x)
        | ok s ↦ (set_data content (set_type data_type (read_fields clock 4 n s begun)), none)
      ]

-- notificationToEvent: the payload is the text that the notification carries. The event exists only
-- inside, so that nothing is left of it when the scope is not legal.
module _ {Uuid : Type 0} ⦃o : Ord Uuid⦄ (of_data : Text → Uuid) (nil : Uuid) where
  unfoldable pub notification_to_event :
      (ℕ → ℕ) → Notification → Bool → Result SyntaxError (Event Uuid Text)
  unfolding read_fields
  notification_to_event clock n expose =
      let e : Event Uuid Text = new_event nil (clock 0) in
      let times = set_receive_time (clock 3) 0 (
        set_send_time (clock 2) n.send_time
          (set_create_time (clock 1) n.create_time e.meta_data)) in
      let begun =
        set_id (of_data n.event_id.sender_id) n.event_id.sequence_number (set_meta_data times e) in
      elim (parse n.scope) [
        | err x ↦ err x
        | ok s ↦
            let full = set_data (some n.payload) (read_fields of_data clock 4 n s begun) in
            ok (
              if expose
              then set_meta_data
                  (set_user_info (bytes "rsb.wire-schema") n.wire_schema full.meta_data) full
              else full)
      ]
