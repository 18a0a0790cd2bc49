-- ===== src/Collections.antt =====
-- src/rsb/converter/ProtocolBufferConverter.h and EventsByScopeMapConverter.cpp: the converter of
-- protobuf messages, and that of events by their scopes, which are written as one message. How protobuf
-- writes a message and reads it is an argument.
pub mod TypeNames
pub mod EventIds
pub mod Pushing
pub mod RoundTrip
pub mod Examples
use rsb_cpp.Prelude.{
  ℕ, suc, ◌+◌, Bool, true, false, List, [], ◌∷◌, ◌++◌, Option, none, some, if◌then◌else◌, ◌==◌,
  length, Text, text_eq, Result, ok, err, ◌>>=◌,
}
use rsb_cpp.Maps.{Ord, Map, find, insert, text_ord}
use rsb_cpp.Scope.{Scope, SyntaxError, parse}
use rsb_cpp.Scope.Covers.{scope_ord}
use rsb_cpp.Event.{Event, EventId, event_id_ord, new_event, set_scope, set_type, set_data}
use rsb_cpp.Notification.{
  Notification, blank, fill_notification_id, fill_notification_header, fill_event,
}
use rsb_cpp.Converters.{Converter, ConverterError}
use rsb_cpp.Converters.Basic.{asserting}
use rsb_cpp.SocketConnectors.{Strategy, annotated}

-- The loop of typeNameToProtoName, whose flag says that one ':' of two has been read.
unfoldable pub proto_name_loop : Bool → Text → Text
proto_name_loop colon [] = []
proto_name_loop colon (c ∷ name) = elim (c == 58) [
  | true ↦ elim colon [ true ↦ proto_name_loop false name | false ↦ 46 ∷ proto_name_loop true name ]
  | false ↦ c ∷ proto_name_loop colon name
]

unfoldable pub type_name_to_proto_name : Text → Text
type_name_to_proto_name name = 46 ∷ proto_name_loop false name

-- ProtocolBufferConverter
abbrev pub protocol_buffer_converter :
    {Message : Type 0} → Text → (Message → Text) → (Text → Message) → Converter Message
protocol_buffer_converter type_name write_message parse_message =
    let schema = type_name_to_proto_name type_name in
    record {
      wire_schema = schema;
      data_type = type_name;
      serialize = λ d. asserting (text_eq d.0 type_name) (ok (schema, write_message d.1));
      deserialize = λ wire_schema wire.
          asserting (text_eq wire_schema schema) (ok (type_name, parse_message wire));
    }

-- protocol::collections::EventsByScopeMap::ScopeSet; the message is a list of them.
pub record ScopeSet : Type 0 where
  pub scope : Text
  pub notifications : List Notification

-- SerializationException, the IllegalStateException of an event without an id, and what scopes and
-- converters throw.
pub data CollectionError : Type 0 where
  serialization_error : CollectionError
  illegal_state : CollectionError
  illegal_scope : SyntaxError → CollectionError
  in_converter : ConverterError → CollectionError

abbrev pub converting {ℓ} : {A : Type ℓ} → Result ConverterError A → Result CollectionError A
converting (ok x) = ok x
converting (err x) = err (in_converter x)

-- The constructor of Scope
abbrev pub scope_of : Text → Result CollectionError Scope
scope_of text = elim (parse text) [ err x ↦ err (illegal_scope x) | ok s ↦ ok s ]

-- EventsByScopeMap
abbrev pub EventMap : Type 0 → Type 0 → Type 0
EventMap Uuid Payload = Map Scope (List (Event Uuid Payload))

module _ {Uuid Payload : Type 0} (data_of : Uuid → Text) (get_converter : Strategy Payload) where
  -- The body of the loop over the events of a scope.
  unfoldable pub write_event : Event Uuid Payload → Result CollectionError Notification
  write_event e = converting (get_converter e.type) >>= λ c.
      converting (c.serialize (annotated e)) >>= λ (schema, wire).
      elim (fill_notification_id data_of blank e) [
        | none ↦ err illegal_state
        | some n ↦ ok (record (fill_notification_header data_of n e schema) { payload = wire })
      ]

  unfoldable pub write_events :
      List (Event Uuid Payload) → Result CollectionError (List Notification)
  write_events [] = ok []
  write_events (e ∷ es) = write_event e >>= λ n. write_events es >>= λ ns. ok (n ∷ ns)

  unfoldable pub write_sets : EventMap Uuid Payload → Result CollectionError (List ScopeSet)
  write_sets [] = ok []
  write_sets ((s, es) ∷ m) = write_events es >>= λ ns.
      write_sets m >>= λ sets. ok (record { scope = s.scopestring; notifications = ns } ∷ sets)

module _ {Uuid Payload : Type 0} where
  -- `map[s].push_back(e)`
  unfoldable pub push_back :
      Scope → Event Uuid Payload → EventMap Uuid Payload → EventMap Uuid Payload
  push_back s e m = elim (find s m) [
    | none ↦ insert s (e ∷ []) m
    | some es ↦ insert s (es ++ e ∷ []) m
  ]

module _ {Uuid Payload : Type 0} ⦃o : Ord Uuid⦄ (of_data : Text → Uuid) (nil : Uuid)
    (clock : ℕ → ℕ → ℕ) (get_converter : Strategy Payload) where
  -- The body of the loop over the notifications of a scope; `clock i` is the clock while the i-th of all
  -- the events is read.
  unfoldable pub read_notification :
      ℕ → Scope → Notification → Result CollectionError (Event Uuid Payload)
  read_notification i s n = converting (get_converter n.wire_schema) >>= λ c.
      converting (c.deserialize n.wire_schema n.payload) >>= λ (type, content).
      (let begun = set_data content (set_type type (set_scope s (new_event nil (clock i 0)))) in
        let (e, failed) = fill_event of_data (λ j. clock i (suc j)) begun n content type in
        elim failed [ some x ↦ err (illegal_scope x) | none ↦ ok e ])

  unfoldable pub read_notifications :
      ℕ
      → Scope
      → List Notification
      → EventMap Uuid Payload
      → Result CollectionError (EventMap Uuid Payload)
  read_notifications i s [] m = ok m
  read_notifications i s (n ∷ ns) m =
      read_notification i s n >>= λ e. read_notifications (suc i) s ns (push_back s e m)

  unfoldable pub read_sets :
      ℕ → List ScopeSet → EventMap Uuid Payload → Result CollectionError (EventMap Uuid Payload)
  read_sets i [] m = ok m
  read_sets i (set ∷ sets) m = scope_of set.scope >>= λ s.
      read_notifications i s set.notifications m >>= λ read.
      read_sets (i + length set.notifications) sets read

module _ {Uuid Payload : Type 0} ⦃o : Ord Uuid⦄ (data_type : Text)
    (converter : Converter (List ScopeSet)) where
  -- EventsByScopeMapConverter::serialize
  unfoldable pub serialize_map :
      (Uuid → Text)
      → Strategy Payload
      → Text × EventMap Uuid Payload
      → Result CollectionError (Text × Text)
  serialize_map data_of get_converter (type, m) =
      if text_eq type data_type
      then (write_sets data_of get_converter m >>= λ sets.
          converting (converter.serialize (converter.data_type, sets)))
      else err serialization_error

  -- EventsByScopeMapConverter::deserialize; the message is parsed as the other converter does it.
  unfoldable pub deserialize_map :
      (Text → List ScopeSet)
      → (Text → Uuid)
      → Uuid
      → (ℕ → ℕ → ℕ)
      → Strategy Payload
      → Text
      → Text
      → Result CollectionError (Text × EventMap Uuid Payload)
  deserialize_map parse_message of_data nil clock get_converter schema wire =
      if text_eq schema converter.wire_schema
      then (read_sets of_data nil clock get_converter 0 (parse_message wire) [] >>= λ m.
          ok (data_type, m))
      else err serialization_error
