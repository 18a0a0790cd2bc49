-- ===== src/Collections/RoundTrip.antt =====
-- A map of events that is written with the converter of EventsByScopeMapConverter.cpp and read again.
use rsb_cpp.Prelude.{
  ℕ, suc, ◌+◌, ◌≡◌, refl, ap, sym, ◌∙◌, false, List, [], ◌∷◌, Option, none, some, ◌==◌, length,
  Text, All, Result, ok, err, ◌>>=◌, text_eq_refl,
}
use rsb_cpp.Maps.{Ord, insert}
use rsb_cpp.Maps.Sorted.{
  IsSorted, BelowHead, BelowHead-empty, next_key, insert_all, insert_all-empty,
}
use rsb_cpp.Scope.{Scope, SyntaxError}
use rsb_cpp.Scope.Syntax.{IsNormal}
use rsb_cpp.Scope.Covers.{scope_ord}
use rsb_cpp.MetaData.{checked_time_stamp_set}
use rsb_cpp.Event.{Event, EventId, event_id_ord}
use rsb_cpp.Notification.{Notification, fill_notification_id, fill_notification_header}
use rsb_cpp.Notification.RoundTrip.{IsSendable, parse-IsNormal_scope}
use rsb_cpp.Notification.Header.{header, fill_event-header}
use rsb_cpp.Converters.{Converter}
use rsb_cpp.SocketConnectors.{Strategy}
use rsb_cpp.Collections.Pushing.{push_all, push_all_new}
use rsb_cpp.Collections.{
  ScopeSet, CollectionError, illegal_scope, EventMap, write_event, write_events, write_sets,
  scope_of, push_back, read_notification, read_notifications, read_sets, serialize_map,
  deserialize_map, protocol_buffer_converter, type_name_to_proto_name,
}

module _ {Uuid Payload : Type 0} ⦃o : Ord Uuid⦄ where
  -- The strategies have a writer and a reader for the event, and the reader gives back what the writer
  -- wrote; the id is of the sender, and the event has been received and delivered.
  pub record IsTransferable (get got : Strategy Payload) (e : Event Uuid Payload) : Type 0 where
    pub sendable : IsSendable e
    pub id : EventId Uuid
    pub known : e.id ≡ some id
    pub sender : id.participant_id ≡ e.meta_data.sender_id
    pub received : (e.meta_data.receive_time == 0) ≡ false
    pub delivered : (e.meta_data.deliver_time == 0) ≡ false
    pub writer : Converter (Option Payload)
    pub reader : Converter (Option Payload)
    pub schema : Text
    pub wire : Text
    pub found : get e.type ≡ ok writer
    pub put : writer.serialize (e.type, e.content) ≡ ok (schema, wire)
    pub refound : got schema ≡ ok reader
    pub restored : reader.deserialize schema wire ≡ ok (e.type, e.content)

  -- Each scope is in normal form and has an event, and each event can be carried over.
  abbrev pub Transferable : Strategy Payload → Strategy Payload → EventMap Uuid Payload → Type 0
  Transferable get got = All (λ (s, es).
      IsNormal s
      × ((e : Event Uuid Payload) × (rest : List (Event Uuid Payload)) × (es ≡ e ∷ rest))
      × All (IsTransferable get got) es)

module _ {Uuid Payload : Type 0} ⦃o : Ord Uuid⦄ (data_of : Uuid → Text) (of_data : Text → Uuid)
    (get got : Strategy Payload) where
  abbrev carried : (e : Event Uuid Payload) → IsTransferable get got e → Notification
  carried e t = record (header data_of of_data t.id e t.schema) { payload = t.wire }

  write_event-carried :
      (e : Event Uuid Payload) (t : IsTransferable get got e)
      → write_event data_of get e ≡ ok (carried e t)
  unfolding write_event fill_notification_id fill_notification_header
  write_event-carried e t = rw (t.found, t.put, t.known) refl

  module _ (back : (u : Uuid) → of_data (data_of u) ≡ u) (nil : Uuid) (clock : ℕ → ℕ → ℕ) where
    read_notification-carried :
        (i : ℕ) (s : Scope) (e : Event Uuid Payload) (t : IsTransferable get got e)
        → read_notification of_data nil clock got i s (carried e t) ≡ ok e
    unfolding read_notification
    read_notification-carried i s e t =
        let later : ℕ → ℕ = λ j. clock i (suc j) in
        let receipt : checked_time_stamp_set (later 2) e.meta_data.receive_time
            ≡ e.meta_data.receive_time =
          rw t.received refl in
        let delivery : checked_time_stamp_set (later 3) e.meta_data.deliver_time
            ≡ e.meta_data.deliver_time =
          rw t.delivered refl in
        let settle : Event Uuid Payload × Option SyntaxError
            → Result CollectionError (Event Uuid Payload) =
          λ (x, failed). elim failed [ some f ↦ err (illegal_scope f) | none ↦ ok x ] in
        rw (t.refound, t.restored)
          (ap settle (
              fill_event-header data_of of_data back nil later (clock i 0) e t.id t.schema t.wire
                e.content e.type s e.content e.type t.sendable)
            ∙ (λ k. ok (record e {
              id = sym t.known k;
              meta_data = record e.meta_data {
                sender_id = t.sender k;
                receive_time = receipt k;
                deliver_time = delivery k;
              };
            })))

    write_events-read :
        (s : Scope) (es : List (Event Uuid Payload))
        → All (IsTransferable get got) es
        → (ns : List Notification) × (write_events data_of get es ≡ ok ns)
          × ((i : ℕ) (m : EventMap Uuid Payload)
              → read_notifications of_data nil clock got i s ns m ≡ ok (push_all s es m))
    unfolding write_events read_notifications push_all
    write_events-read s [] h = ([], refl, λ i m. refl)
    write_events-read s (e ∷ es) h =
        let (ns, written, read) = write_events-read s es h.1 in
        (
          carried e h.0 ∷ ns,
          rw (write_event-carried e h.0, written) refl,
          λ i m. rw (read_notification-carried i s e h.0) (read (suc i) (push_back s e m)),
        )

    read_sets-next :
        (i : ℕ) (s : Scope) (ns : List Notification) (sets : List ScopeSet)
        (m next : EventMap Uuid Payload)
        → IsNormal s
        → read_notifications of_data nil clock got i s ns m ≡ ok next
        → read_sets of_data nil clock got i
            (record { scope = s.scopestring; notifications = ns } ∷ sets)
            m
          ≡ read_sets of_data nil clock got (i + length ns) sets next
    unfolding read_sets
    read_sets-next i s ns sets m next normal h =
        let known : scope_of s.scopestring ≡ ok s =
          rw (scope_of, parse-IsNormal_scope s normal) refl in
        ap
          (λ r. r >>= λ t. read_notifications of_data nil clock got i t ns m >>= λ read.
            read_sets of_data nil clock got (i + length ns) sets read)
          known
        ∙ ap (λ r. r >>= λ read. read_sets of_data nil clock got (i + length ns) sets read) h

    write_sets-read :
        (m : EventMap Uuid Payload)
        → IsSorted m
        → Transferable get got m
        → (sets : List ScopeSet) × (write_sets data_of get m ≡ ok sets)
          × ((i : ℕ) (copy : EventMap Uuid Payload)
              → BelowHead copy m
              → read_sets of_data nil clock got i sets copy ≡ ok (insert_all copy m))
    unfolding write_sets read_sets insert_all
    write_sets-read [] sorted h = ([], refl, λ i copy below. refl)
    write_sets-read ((s, es) ∷ m) sorted ((normal, (e, rest, full), all), h) =
        let (ns, written, read) = write_events-read s es all in
        let (sets, others, read_others) = write_sets-read m sorted.1 h in
        (
          record { scope = s.scopestring; notifications = ns } ∷ sets,
          rw (written, others) refl,
          λ i copy below.
              let (new, next) = next_key copy s es m below sorted in
              let pushed : push_all s es copy ≡ insert s es copy =
                ap (λ t. push_all s t copy) full
                ∙ push_all_new s e rest copy new
                ∙ ap (λ t. insert s t copy) (sym full) in
              read_sets-next i s ns sets copy (push_all s es copy) normal (read i copy)
              ∙ ap (read_sets of_data nil clock got (i + length ns) sets) pushed
              ∙ (read_others (i + length ns) (insert s es copy) next),
        )

module _ {Uuid Payload : Type 0} ⦃o : Ord Uuid⦄ (data_of : Uuid → Text) (of_data : Text → Uuid)
    (get got : Strategy Payload) where
  -- A map in order, of scopes in normal form with at least one event each, is written under the name of
  -- the message and read again as it was, if protobuf reads the message that is written as what it was,
  -- the id of each event is of its sender, no time stamp is zero, and the two strategies have converters
  -- for each event of which the reader gives back what the writer wrote.
  pub deserialize_map-serialize_map :
      (back : (u : Uuid) → of_data (data_of u) ≡ u) (nil : Uuid) (clock : ℕ → ℕ → ℕ)
      (data_type message_type : Text) (write_message : List ScopeSet → Text)
      (parse_message : Text → List ScopeSet) (m : EventMap Uuid Payload)
      → IsSorted m
      → Transferable get got m
      → ((sets : List ScopeSet)
          → write_sets data_of get m ≡ ok sets
          → parse_message (write_message sets) ≡ sets)
      → (wire : Text) × (serialize_map data_type
            (protocol_buffer_converter message_type write_message parse_message)
            data_of
            get
            (data_type, m)
          ≡ ok (type_name_to_proto_name message_type, wire))
        × (deserialize_map data_type
              (protocol_buffer_converter message_type write_message parse_message)
              parse_message
              of_data
              nil
              clock
              got
              (type_name_to_proto_name message_type)
              wire
            ≡ ok (data_type, m))
  unfolding serialize_map deserialize_map
  deserialize_map-serialize_map back nil clock data_type message_type write_message parse_message m
        sorted h proto =
      let (sets, written, read) =
        write_sets-read data_of of_data get got back nil clock m sorted h in
      let copied : read_sets of_data nil clock got 0 sets [] ≡ ok m =
        read 0 [] (BelowHead-empty m) ∙ ap ok (insert_all-empty m sorted) in
      (
        write_message sets,
        rw (serialize_map, text_eq_refl data_type, written, text_eq_refl message_type) refl,
        rw
            (
              deserialize_map,
              text_eq_refl (type_name_to_proto_name message_type),
              proto sets written,
              copied,
            )
            refl,
      )
