-- ===== src/SocketConnectors/Delivery.antt =====
-- What an informer's event is when it has gone through the socket connectors of both sides.
use rsb_cpp.Prelude.{ℕ, ◌≡◌, refl, ap, ◌∙◌, true, Option, some, Text, bytes, ok, ◌>>=◌, text_eq}
use rsb_cpp.Maps.{Ord, Map, find, insert, erase, text_ord, find-insert, find-erase, erase-insert}
use rsb_cpp.Maps.Sorted.{insert-IsSorted, erase-IsSorted}
use rsb_cpp.MetaData.{set_send_time, set_user_info}
use rsb_cpp.Event.{Event, EventId, set_meta_data, event_id_ord}
use rsb_cpp.Notification.{Notification, blank, event_to_notification, notification_to_event}
use rsb_cpp.Notification.RoundTrip.{
  IsSendable, received, notification_to_event-event_to_notification,
}
use rsb_cpp.Converters.{
  Converter, Repository, UnambiguousConverterMap, look_up, get_converters_for_serialization,
  get_converters_for_deserialization,
}
use rsb_cpp.Converters.Selection.{admits}
use rsb_cpp.Converters.Registry.{IsRepository, look_up-look_up}
use rsb_cpp.SocketConnectors.{out_handle, in_handle, copy_with, Strategy, wire_data, wire_schema_of}

abbrev schema_key : Text
schema_key = bytes "rsb.wire-schema"

-- The user infos of an event with its wire-schema.
abbrev pub with_schema : Text → Map Text Text → Map Text Text
with_schema schema infos = insert schema_key schema (erase schema_key infos)

find-with_schema :
    (schema : Text) (infos : Map Text Text)
    → find schema_key (with_schema schema infos) ≡ some schema
unfolding text_eq
find-with_schema schema infos = find-insert schema_key schema_key schema (erase schema_key infos)

with_schema-again :
    (schema : Text) (infos : Map Text Text)
    → with_schema schema (with_schema schema infos) ≡ with_schema schema infos
unfolding text_eq
with_schema-again schema infos = ap (insert schema_key schema) (
    erase-insert schema_key schema (erase schema_key infos)
      (find-erase schema_key schema_key infos))

module _ {Uuid Payload : Type 0} where
  -- The event with the time of sending that OutConnector::handle gives it.
  abbrev pub stamped : ℕ → Event Uuid Payload → Event Uuid Payload
  stamped now e = set_meta_data (set_send_time now 0 e.meta_data) e

  -- The event that OutConnector::handle hands to the bus.
  abbrev pub bus_event : ℕ → Text → Text → Event Uuid Payload → Event Uuid Text
  bus_event now schema wire e =
      set_meta_data (set_user_info schema_key schema (stamped now e).meta_data)
        (copy_with (some wire) (stamped now e))

  out_handle-eq :
      (get : Strategy Payload) (now : ℕ) (e : Event Uuid Payload) (c : Converter (Option Payload))
      (schema wire : Text)
      → get e.type ≡ ok c
      → c.serialize (e.type, e.content) ≡ ok (schema, wire)
      → out_handle get now e ≡ ok (stamped now e, bus_event now schema wire e)
  unfolding out_handle
  out_handle-eq get now e c schema wire found put = rw (found, put) refl

  in_handle-eq :
      (get : Strategy Payload) (now : ℕ) (b : Event Uuid Text) (c : Converter (Option Payload))
      (schema wire type : Text) (value : Option Payload)
      → find schema_key b.meta_data.user_infos ≡ some schema
      → b.content ≡ some wire
      → get schema ≡ ok c
      → c.deserialize schema wire ≡ ok (type, value)
      → in_handle get now true b
        ≡ ok (record (copy_with value b) {
          type = type;
          meta_data = record b.meta_data { receive_time = now };
        })
  unfolding in_handle
  in_handle-eq get now b c schema wire type value known full found got =
      let schema_known : wire_schema_of b ≡ ok schema = rw (wire_schema_of, known) refl in
      let wire_known : wire_data b ≡ ok wire = rw (wire_data, full) refl in
      rw (in_handle, schema_known, found, wire_known, got) refl

  -- The event as it arrives: it has new times, and its wire-schema among its user infos.
  abbrev pub arrived : ℕ → ℕ → Text → Event Uuid Payload → Event Uuid Payload
  arrived now later schema e = record e {
    meta_data = record e.meta_data {
      send_time = now;
      receive_time = later;
      user_infos = with_schema schema e.meta_data.user_infos;
    };
  }

  -- As it arrives from another process: the sender's id comes from the id, and the time of delivery is
  -- cleared.
  abbrev pub arrived_remote : EventId Uuid → ℕ → ℕ → Text → Event Uuid Payload → Event Uuid Payload
  arrived_remote id now later schema e = record e {
    id = some id;
    meta_data = record e.meta_data {
      sender_id = id.participant_id;
      send_time = now;
      receive_time = later;
      deliver_time = 0;
      user_infos = with_schema schema e.meta_data.user_infos;
    };
  }

module _ {Uuid Payload : Type 0} where
  -- Within a process: let the repository keep each converter under its own signature, let the
  -- strategies of sender and receiver be built, and let the sender's have a converter for the type of
  -- the event, whose wire-schema the receiver's selection does not give to another type. If that
  -- converter reads what it wrote, the event that an active receiver makes of the sender's is the same
  -- but for the times of sending and receipt and for the wire-schema among its user infos.
  pub in_handle-out_handle :
      (r : Repository (Option Payload)) (sel sel' : Map Text Text) (c : Converter (Option Payload))
      (e : Event Uuid Payload) (now later : ℕ) (wire : Text)
      {m n : UnambiguousConverterMap (Option Payload)}
      → IsRepository r
      → get_converters_for_serialization sel r ≡ ok m
      → get_converters_for_deserialization sel' r ≡ ok n
      → look_up e.type m ≡ ok c
      → admits sel' (c.wire_schema, c.data_type) ≡ true
      → c.serialize (e.type, e.content) ≡ ok (c.wire_schema, wire)
      → c.deserialize c.wire_schema wire ≡ ok (e.type, e.content)
      → (out_handle (λ key. look_up key m) now e >>= λ (sent, b).
          in_handle (λ key. look_up key n) later true b)
        ≡ ok (arrived now later c.wire_schema e)
  in_handle-out_handle r sel sel' c e now later wire {m} {n} ok_r sending receiving found fits put
        got =
      let there = look_up-look_up sel sel' r e.type c ok_r sending receiving found fits in
      let out = out_handle-eq (λ key. look_up key m) now e c c.wire_schema wire found put in
      rw out (
        in_handle-eq (λ key. look_up key n) later (bus_event now c.wire_schema wire e) c
          c.wire_schema wire e.type e.content
          (find-with_schema c.wire_schema e.meta_data.user_infos) refl there got)

module _ {Uuid Payload : Type 0} ⦃o : Ord Uuid⦄ where
  -- What the bus event can be sent as, if the event can, at the time it gets.
  bus_event-IsSendable :
      (now : ℕ) (schema wire : Text) (e : Event Uuid Payload)
      → IsSendable (stamped now e)
      → IsSendable (bus_event now schema wire e)
  bus_event-IsSendable now schema wire e h = record {
    scope = h.scope;
    causes = h.causes;
    infos =
        insert-IsSorted schema_key schema (erase schema_key e.meta_data.user_infos)
          (erase-IsSorted schema_key e.meta_data.user_infos h.infos);
    times = h.times;
    timed = h.timed;
    created = h.created;
    sent = h.sent;
  }

module _ {Uuid Payload : Type 0} ⦃o : Ord Uuid⦄ (data_of : Uuid → Text)
    (of_data : Text → Uuid) where
  -- Between two processes, with repositories, strategies and a converter as within one: an event with an
  -- id that can be sent at the time it is sent is handed to the bus, written to a notification and read
  -- from it, and what an active receiver makes of that is the event with its data, but for the sender
  -- (which comes from the id), the times of sending, receipt and delivery, and the wire-schema among
  -- its user infos.
  pub in_handle-notification :
      (back : (u : Uuid) → of_data (data_of u) ≡ u) (nil : Uuid) (clock : ℕ → ℕ)
      (r : Repository (Option Payload)) (sel sel' : Map Text Text) (c : Converter (Option Payload))
      (e : Event Uuid Payload) (id : EventId Uuid) (now later : ℕ) (wire : Text)
      {m n : UnambiguousConverterMap (Option Payload)}
      → IsSendable (stamped now e)
      → e.id ≡ some id
      → IsRepository r
      → get_converters_for_serialization sel r ≡ ok m
      → get_converters_for_deserialization sel' r ≡ ok n
      → look_up e.type m ≡ ok c
      → admits sel' (c.wire_schema, c.data_type) ≡ true
      → c.serialize (e.type, e.content) ≡ ok (c.wire_schema, wire)
      → c.deserialize c.wire_schema wire ≡ ok (e.type, e.content)
      → (b d : Event Uuid Text) × (note : Notification) × (out_handle (λ key. look_up key m) now e
          ≡ ok (stamped now e, b))
        × (event_to_notification data_of blank b c.wire_schema wire ≡ some note)
        × (notification_to_event of_data nil clock note true ≡ ok d)
        × (in_handle (λ key. look_up key n) later true d
            ≡ ok (arrived_remote id now later c.wire_schema e))
  in_handle-notification back nil clock r sel sel' c e id now later wire {m} {n} sendable known ok_r
        sending receiving found fits put got =
      let there = look_up-look_up sel sel' r e.type c ok_r sending receiving found fits in
      let b = bus_event now c.wire_schema wire e in
      let d = received clock true id b c.wire_schema wire in
      let (note, writing, reading) =
        notification_to_event-event_to_notification data_of of_data back nil clock b id
          c.wire_schema wire true (bus_event-IsSendable now c.wire_schema wire e sendable) known in
      (
        b,
        d,
        note,
        out_handle-eq (λ key. look_up key m) now e c c.wire_schema wire found put,
        writing,
        reading,
        in_handle-eq (λ key. look_up key n) later d c c.wire_schema wire e.type e.content
              (find-with_schema c.wire_schema (with_schema c.wire_schema e.meta_data.user_infos))
              refl there got
            ∙ ap
                (λ infos. ok (record (arrived_remote id now later c.wire_schema e) {
                  meta_data = record (arrived_remote id now later c.wire_schema e).meta_data {
                    user_infos = infos;
                  };
                }))
                (with_schema-again c.wire_schema e.meta_data.user_infos),
      )
