-- ===== src/Notification/Header.antt =====
-- The round trip of src/rsb/protocol/Notification.cpp.
use rsb_cpp.Prelude.{ℕ, ◌≡◌, refl, ap, sym, ◌∙◌, [], Option, none, some, Text}
use rsb_cpp.Maps.{Ord, text_ord}
use rsb_cpp.Scope.{Scope, SyntaxError, root}
use rsb_cpp.MetaData.{MetaData, checked_time_stamp_set, new_meta_data}
use rsb_cpp.Event.{Event, EventId, event_id_ord, new_event, set_data, set_type}
use rsb_cpp.Notification.{
  Notification, blank, fill_notification_id, fill_notification_header, fill_event, fill_event_id,
}
use rsb_cpp.Notification.Reading.{write_entries-append, write_causes-append}
use rsb_cpp.Notification.RoundTrip.{IsSendable, read_fields-Carries, written, parse-IsNormal_scope}

module _ {Uuid Payload : Type 0} ⦃o : Ord Uuid⦄ (data_of : Uuid → Text)
    (of_data : Text → Uuid) where
  -- The notification of fillNotificationId and fillNotificationHeader.
  abbrev pub header : EventId Uuid → Event Uuid Payload → Text → Notification
  header id e schema = record (written data_of of_data id e schema []) {
    receive_time = e.meta_data.receive_time;
    deliver_time = e.meta_data.deliver_time;
  }

  -- fillEvent on a new event of any scope, payload and type, which it replaces, and on such a header.
  pub fill_event-header :
      (back : (u : Uuid) → of_data (data_of u) ≡ u) (nil : Uuid) (clock : ℕ → ℕ) (now : ℕ)
      (e : Event Uuid Payload) (id : EventId Uuid) (schema wire : Text) (content : Option Payload)
      (data_type : Text) (s : Scope) (old : Option Payload) (old_type : Text)
      → IsSendable e
      → fill_event of_data clock
          (record (new_event nil now) { scope = s; content = old; type = old_type })
          (record (header id e schema) { payload = wire })
          content
          data_type
        ≡ (
          record e {
            id = some id;
            content = content;
            type = data_type;
            meta_data = record e.meta_data {
              sender_id = id.participant_id;
              receive_time = checked_time_stamp_set (clock 2) e.meta_data.receive_time;
              deliver_time = checked_time_stamp_set (clock 3) e.meta_data.deliver_time;
            };
          },
          none,
        )
  unfolding fill_event
  fill_event-header back nil clock now e id schema wire content data_type s old old_type h =
      let times : MetaData Uuid = record (new_meta_data nil now) {
        create_time = e.meta_data.create_time;
        send_time = e.meta_data.send_time;
        receive_time = checked_time_stamp_set (clock 2) e.meta_data.receive_time;
        deliver_time = checked_time_stamp_set (clock 3) e.meta_data.deliver_time;
        sender_id = id.participant_id;
      } in
      let begun : Event Uuid Payload = record (new_event nil now) {
        id = some id;
        content = old;
        type = old_type;
        meta_data = times;
      } in
      let finish : Event Uuid Payload → Event Uuid Payload × Option SyntaxError =
        λ full. (set_data content (set_type data_type full), none) in
      let n : Notification = record (header id e schema) { payload = wire } in
      rw
        (
          fill_event,
          parse-IsNormal_scope e.scope h.scope,
          h.created,
          h.sent,
          back id.participant_id,
        )
        (ap finish (
          read_fields-Carries data_of of_data back clock 4 n e e.scope begun h (record {
            method = refl;
            infos = write_entries-append e.meta_data.user_infos [];
            times = write_entries-append e.meta_data.user_times [];
            causes = write_causes-append data_of e.causes [];
          })))

  -- fillEvent on a new event and the header of an event with an id, a scope in normal form, maps in order
  -- and no time of creation, of sending or of the user that is zero gives that event, with the given
  -- payload and type and the sender of the id; a time of receipt or of delivery that was zero is the
  -- current time in it.
  pub fill_event-fill_notification_header :
      (back : (u : Uuid) → of_data (data_of u) ≡ u) (nil : Uuid) (clock : ℕ → ℕ) (now : ℕ)
      (e : Event Uuid Payload) (id : EventId Uuid) (schema : Text) (content : Option Payload)
      (data_type : Text)
      → IsSendable e
      → e.id ≡ some id
      → (n : Notification) × (fill_notification_id data_of blank e ≡ some n)
        × (fill_event of_data clock
              (new_event nil now)
              (fill_notification_header data_of n e schema)
              content
              data_type
            ≡ (
              record e {
                content = content;
                type = data_type;
                meta_data = record e.meta_data {
                  sender_id = id.participant_id;
                  receive_time = checked_time_stamp_set (clock 2) e.meta_data.receive_time;
                  deliver_time = checked_time_stamp_set (clock 3) e.meta_data.deliver_time;
                };
              },
              none,
            ))
  unfolding fill_notification_id fill_notification_header fill_event
  fill_event-fill_notification_header back nil clock now e id schema content data_type h known = (
    record blank { event_id = fill_event_id data_of id },
    rw known refl,
    fill_event-header back nil clock now e id schema [] content data_type root none [] h
        ∙ ap
            (λ x. (
              record e {
                id = x;
                content = content;
                type = data_type;
                meta_data = record e.meta_data {
                  sender_id = id.participant_id;
                  receive_time = checked_time_stamp_set (clock 2) e.meta_data.receive_time;
                  deliver_time = checked_time_stamp_set (clock 3) e.meta_data.deliver_time;
                };
              },
              none,
            ))
            (sym known),
  )
