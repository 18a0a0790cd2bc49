-- ===== src/Collections/Examples.antt =====
-- The theorems on collections at a map of one event, whose payload is a number.
use rsb_cpp.Prelude.{
  ℕ, ◌≡◌, refl, ap, [], ◌∷◌, Option, none, some, Text, bytes, text_eq, text_lt, Result, ok, err,
  List,
}
use rsb_cpp.Maps.{text_ord}
use rsb_cpp.Scope.Hierarchy.{made}
use rsb_cpp.Scope.Examples.{a, made-a-IsNormal}
use rsb_cpp.MetaData.{MetaData}
use rsb_cpp.Event.{Event, event_id_ord}
use rsb_cpp.Notification.Examples.{id_one, told, event}
use rsb_cpp.Converters.{Converter, ConverterError, undefined}
use rsb_cpp.SocketConnectors.{Strategy}
use rsb_cpp.Collections.{
  ScopeSet, CollectionError, EventMap, write_sets, serialize_map, deserialize_map,
  protocol_buffer_converter, type_name_to_proto_name,
}
use rsb_cpp.Collections.TypeNames.{type_name_to_proto_name-qualified}
use rsb_cpp.Collections.RoundTrip.{IsTransferable, deserialize_map-serialize_map}

abbrev same : Text → Text
same t = t

abbrev clock : ℕ → ℕ → ℕ
clock i j = j

abbrev complete : MetaData Text
complete = record told { receive_time = 30; deliver_time = 40 }

abbrev delivered_event : Event Text ℕ
delivered_event = record event { meta_data = complete }

abbrev write_number : Text × Option ℕ → Result ConverterError (Text × Text)
write_number (type, some n) = ok (bytes "number", n ∷ [])
write_number (type, none) = err undefined

abbrev read_number : Text → Text → Result ConverterError (Text × Option ℕ)
read_number schema [] = err undefined
read_number schema (n ∷ wire) = ok (bytes "int", some n)

abbrev numbers : Converter (Option ℕ)
numbers = record {
  wire_schema = bytes "number";
  data_type = bytes "int";
  serialize = write_number;
  deserialize = read_number;
}

abbrev only_numbers : Strategy ℕ
only_numbers key = ok numbers

abbrev events : EventMap Text ℕ
events = (made a, delivered_event ∷ []) ∷ []

delivered_event-IsTransferable : IsTransferable only_numbers only_numbers delivered_event
unfolding text_eq text_lt
delivered_event-IsTransferable = record {
  sendable = record {
    scope = made-a-IsNormal;
    causes = ((refl, tt), (tt, tt));
    infos = (tt, tt);
    times = (tt, tt);
    timed = (refl, tt);
    created = refl;
    sent = refl;
  };
  id = id_one;
  known = refl;
  sender = refl;
  received = refl;
  delivered = refl;
  writer = numbers;
  reader = numbers;
  schema = bytes "number";
  wire = 3 ∷ [];
  found = refl;
  put = refl;
  refound = refl;
  restored = refl;
}

-- The sets of a result, for a parser that knows one message.
abbrev sets_of : Result CollectionError (List ScopeSet) → List ScopeSet
sets_of (ok sets) = sets
sets_of (err x) = []

abbrev write_message : List ScopeSet → Text
write_message sets = bytes "events"

abbrev parse_message : Text → List ScopeSet
parse_message wire = sets_of (write_sets same only_numbers events)

deserialize_map-serialize_map_example :
    (wire : Text) × (serialize_map
        (bytes "map")
        (protocol_buffer_converter (bytes "rsb::Map") write_message parse_message)
        same
        only_numbers
        (bytes "map", events)
      ≡ ok (type_name_to_proto_name (bytes "rsb::Map"), wire))
    × (deserialize_map
          (bytes "map")
          (protocol_buffer_converter (bytes "rsb::Map") write_message parse_message)
          parse_message
          same
          []
          clock
          only_numbers
          (type_name_to_proto_name (bytes "rsb::Map"))
          wire
        ≡ ok (bytes "map", events))
deserialize_map-serialize_map_example =
    deserialize_map-serialize_map same same only_numbers only_numbers (λ u. refl) [] clock
      (bytes "map") (bytes "rsb::Map") write_message parse_message events (tt, tt)
      ((made-a-IsNormal, (delivered_event, [], refl), (delivered_event-IsTransferable, tt)), tt)
      (λ sets written. ap sets_of written)

type_name_to_proto_name-qualified_example :
    type_name_to_proto_name (bytes "rsb::Map") ≡ bytes ".rsb.Map"
type_name_to_proto_name-qualified_example =
    type_name_to_proto_name-qualified (bytes "rsb") (bytes "Map" ∷ [])
      ((refl, (refl, (refl, tt))), ((refl, (refl, (refl, tt))), tt))
