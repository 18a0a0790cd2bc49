-- ===== src/Introspection/Examples.antt =====
-- The theorems on introspection at a process with two participants. A UUID is its own text here.
use rsb_cpp.Prelude.{◌≡◌, refl, [], ◌∷◌, List, some, Text, bytes, text_eq}
use rsb_cpp.Maps.{text_ord}
use rsb_cpp.Scope.{root, parse, no_leading_separator, split_loop}
use rsb_cpp.Scope.Hierarchy.{made}
use rsb_cpp.Event.{Event, new_event}
use rsb_cpp.Notification.Examples.{id_one}
use rsb_cpp.Introspection.{
  ParticipantInfo, IntrospectionSender, bad_scope, add_participant, remove_participant,
  handle_query, handle_survey, handle_ping, send_hello, send_bye, tell_all, find_participant,
  erase_participant,
}
use rsb_cpp.Introspection.Listener.{Mirrors}
use rsb_cpp.Introspection.History.{Step, added, removed, asked, run, run-Mirrors}
use rsb_cpp.Introspection.Pings.{handle_ping-throws}

abbrev participant : Text → ParticipantInfo Text
participant id = record {
  kind = bytes "listener";
  id = id;
  parent_id = [];
  scope = root;
  type = bytes "TODO";
  transport_urls = [];
}

abbrev empty_sender : IntrospectionSender Text
empty_sender = record { scope = made []; participants = []; sent = [] }

abbrev survey : Event Text Text
survey = record (new_event [] 10) { id = some id_one; type = bytes "void"; method = bytes "SURVEY" }

abbrev steps : List (Step Text)
steps =
    added (participant (bytes "aa"))
    ∷ added (participant (bytes "bb"))
    ∷ asked survey
    ∷ removed (bytes "aa")
    ∷ []

run-Mirrors_example : Mirrors (run (λ u. u) some (bytes "void") (bytes "string") steps empty_sender)
unfolding add_participant remove_participant handle_query handle_survey send_hello send_bye tell_all
    find_participant erase_participant text_eq parse split_loop
run-Mirrors_example =
    run-Mirrors (λ u. u) some (bytes "void") (bytes "string") steps empty_sender refl refl

abbrev pinged : IntrospectionSender Text
pinged = record empty_sender { participants = participant (bytes "aa") ∷ [] }

handle_ping-throws_example :
    handle_ping (λ u. u) pinged ≡ (pinged, some (bad_scope no_leading_separator))
handle_ping-throws_example =
    handle_ping-throws (λ u. u) pinged (participant (bytes "aa")) [] refl refl
