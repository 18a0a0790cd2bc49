-- ===== src/Collections/EventIds.antt =====
-- src/rsb/converter/EventIdConverter.cpp: the converter of event ids, on that of a protobuf message.
use rsb_cpp.Prelude.{◌≡◌, refl, Text, text_eq, text_eq_refl, Result, ok, err, ◌>>=◌, if◌then◌else◌}
use rsb_cpp.Event.{EventId}
use rsb_cpp.Notification.{WireId, fill_event_id, read_id}
use rsb_cpp.Converters.{Converter}
use rsb_cpp.Collections.{
  CollectionError, serialization_error, converting, protocol_buffer_converter,
  type_name_to_proto_name,
}

module _ {Uuid : Type 0} (data_type : Text) (converter : Converter WireId) where
  -- EventIdConverter::serialize
  unfoldable pub serialize_id :
      (Uuid → Text) → Text × EventId Uuid → Result CollectionError (Text × Text)
  serialize_id data_of (type, id) =
      if text_eq type data_type
      then converting (converter.serialize (converter.data_type, fill_event_id data_of id))
      else err serialization_error

  -- EventIdConverter::deserialize
  unfoldable pub deserialize_id :
      (Text → Uuid) → Text → Text → Result CollectionError (Text × EventId Uuid)
  deserialize_id of_data schema wire =
      converting (converter.deserialize schema wire) >>= λ (type, id).
      ok (data_type, read_id of_data id)

module _ {Uuid : Type 0} (data_of : Uuid → Text) (of_data : Text → Uuid) where
  -- An id is written under the name of its message and read again as it was, if protobuf reads what it
  -- wrote.
  pub deserialize_id-serialize_id :
      (back : (u : Uuid) → of_data (data_of u) ≡ u) (data_type message_type : Text)
      (write_message : WireId → Text) (parse_message : Text → WireId) (id : EventId Uuid)
      → ((w : WireId) → parse_message (write_message w) ≡ w)
      → (wire : Text) × (serialize_id data_type
            (protocol_buffer_converter message_type write_message parse_message)
            data_of
            (data_type, id)
          ≡ ok (type_name_to_proto_name message_type, wire))
        × (deserialize_id data_type
              (protocol_buffer_converter message_type write_message parse_message)
              of_data
              (type_name_to_proto_name message_type)
              wire
            ≡ ok (data_type, id))
  unfolding serialize_id deserialize_id
  deserialize_id-serialize_id back data_type message_type write_message parse_message id proto = (
    write_message (fill_event_id data_of id),
    rw (serialize_id, text_eq_refl data_type, text_eq_refl message_type) refl,
    rw
        (
          deserialize_id,
          text_eq_refl (type_name_to_proto_name message_type),
          proto (fill_event_id data_of id),
          back id.participant_id,
        )
        refl,
  )
