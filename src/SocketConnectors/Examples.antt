-- ===== src/SocketConnectors/Examples.antt =====
-- The theorems on the socket connectors at an event with a text. A UUID is its own text here.
use rsb_cpp.Prelude.{
  ◌≡◌, refl, true, [], ◌∷◌, some, none, Option, bytes, Text, ok, err, Result, text_eq, text_lt,
}
use rsb_cpp.Maps.{find, insert, text_ord}
use rsb_cpp.Scope.Hierarchy.{made}
use rsb_cpp.Scope.Examples.{a, made-a-IsNormal}
use rsb_cpp.Event.{Event}
use rsb_cpp.Notification.{Notification, blank, event_to_notification, notification_to_event}
use rsb_cpp.Notification.Examples.{id_one, id_two, told}
use rsb_cpp.Converters.{
  Converter, ConverterError, undefined, Repository, UnambiguousConverterMap, look_up,
  get_converters_for_serialization, get_converters_for_deserialization, collect, consider,
  add_converter,
}
use rsb_cpp.SocketConnectors.{out_handle, in_handle}
use rsb_cpp.SocketConnectors.Delivery.{arrived_remote, stamped, in_handle-notification}

abbrev write_text : Text × Option Text → Result ConverterError (Text × Text)
write_text (type, none) = err undefined
write_text (type, some w) = ok (bytes "utf-8-string", w)

abbrev texts : Converter (Option Text)
texts = record {
  wire_schema = bytes "utf-8-string";
  data_type = bytes "string";
  serialize = write_text;
  deserialize = λ schema w. ok (bytes "string", some w);
}

abbrev repository : Repository (Option Text)
repository = ((bytes "utf-8-string", bytes "string"), texts) ∷ []

abbrev serializers : UnambiguousConverterMap (Option Text)
serializers = (bytes "string", texts) ∷ []

abbrev deserializers : UnambiguousConverterMap (Option Text)
deserializers = (bytes "utf-8-string", texts) ∷ []

abbrev event : Event Text Text
event = record {
  id = some id_one;
  scope = made a;
  content = some (bytes "hello");
  type = bytes "string";
  method = [];
  causes = (id_one, tt) ∷ (id_two, tt) ∷ [];
  meta_data = told;
}

in_handle-notification_example :
    (b d : Event Text Text) × (note : Notification) × (out_handle
        (λ key. look_up key serializers)
        30
        event
      ≡ ok (stamped 30 event, b))
    × (event_to_notification (λ u. u) blank b (bytes "utf-8-string") (bytes "hello") ≡ some note)
    × (notification_to_event (λ u. u) [] (λ i. 50) note true ≡ ok d)
    × (in_handle (λ key. look_up key deserializers) 40 true d
        ≡ ok (arrived_remote id_one 30 40 (bytes "utf-8-string") event))
unfolding look_up get_converters_for_serialization get_converters_for_deserialization collect
    consider add_converter find insert text_eq text_lt
in_handle-notification_example =
    in_handle-notification (λ u. u) (λ u. u) (λ u. refl) [] (λ i. 50) repository [] [] texts event
      id_one 30 40 (bytes "hello")
      (record {
        scope = made-a-IsNormal;
        causes = ((refl, tt), (tt, tt));
        infos = (tt, tt);
        times = (tt, tt);
        timed = (refl, tt);
        created = refl;
        sent = refl;
      })
      refl ((tt, tt), (refl, tt)) refl refl refl refl refl refl
