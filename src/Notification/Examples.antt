-- ===== src/Notification/Examples.antt =====
-- The theorems on meta data, events and notifications at a concrete event. A UUID is its own text here.
use rsb_cpp.Prelude.{ℕ, ◌≡◌, refl, true, [], ◌∷◌, some, Text, bytes, text_eq, text_lt, ok}
use rsb_cpp.Maps.{text_ord}
use rsb_cpp.Scope.Hierarchy.{made}
use rsb_cpp.Scope.Examples.{a, made-a-IsNormal}
use rsb_cpp.MetaData.{MetaData}
use rsb_cpp.Event.{Event, EventId, event_id_ord, new_event}
use rsb_cpp.Notification.{Notification, blank, event_to_notification, notification_to_event}
use rsb_cpp.Notification.RoundTrip.{
  IsSendable, received, notification_to_event-event_to_notification,
}

abbrev pub id_one : EventId Text
id_one = record { participant_id = bytes "participant-uuid"; sequence_number = 1 }

abbrev pub id_two : EventId Text
id_two = record { participant_id = bytes "participant-uuid"; sequence_number = 2 }

abbrev pub told : MetaData Text
told = record {
  sender_id = bytes "participant-uuid";
  create_time = 10;
  send_time = 20;
  receive_time = 0;
  deliver_time = 0;
  user_times = (bytes "t", 5) ∷ [];
  user_infos = (bytes "k", bytes "v") ∷ [];
}

abbrev pub event : Event Text ℕ
event = record {
  id = some id_one;
  scope = made a;
  content = some 3;
  type = bytes "int";
  method = bytes "REQUEST";
  causes = (id_one, tt) ∷ (id_two, tt) ∷ [];
  meta_data = told;
}

abbrev fresh : Event Text ℕ
fresh = new_event [] 0

abbrev same : Text → Text
same t = t

abbrev clock : ℕ → ℕ
clock i = i

event-IsSendable : IsSendable event
unfolding text_eq text_lt
event-IsSendable = record {
  scope = made-a-IsNormal;
  causes = ((refl, tt), (tt, tt));
  infos = (tt, tt);
  times = (tt, tt);
  timed = (refl, tt);
  created = refl;
  sent = refl;
}

notification_to_event-event_to_notification_example :
    (n : Notification) × (event_to_notification same blank event (bytes "utf-8-string") (bytes "x")
      ≡ some n)
    × (notification_to_event same [] clock n true
        ≡ ok (received clock true id_one event (bytes "utf-8-string") (bytes "x")))
notification_to_event-event_to_notification_example =
    notification_to_event-event_to_notification same same (λ u. refl) [] clock event id_one
      (bytes "utf-8-string") (bytes "x") true event-IsSendable refl
