-- ===== src/Participation/Examples.antt =====
-- The theorems on informers, filters and handlers at concrete ones.
use rsb_cpp.Prelude.{ℕ, ◌≡◌, refl, Bool, true, false, [], ◌∷◌, some, ◌==◌, Text, bytes, text_eq}
use rsb_cpp.Maps.{text_ord}
use rsb_cpp.Scope.{is_super_scope_of, is_sub_scope_of}
use rsb_cpp.Scope.Covers.{covers}
use rsb_cpp.Scope.Hierarchy.{made}
use rsb_cpp.Scope.Examples.{a, made-a-IsNormal, root-IsNormal}
use rsb_cpp.Event.{EventId, event_id_ord, set_id}
use rsb_cpp.Notification.Examples.{event}
use rsb_cpp.ParticipantConfig.{log}
use rsb_cpp.Participation.Filters.{scope_filter, method_filter, matches}
use rsb_cpp.Participation.Receiving.{ReceivingStrategy, handle, handle-called}
use rsb_cpp.Participation.Informer.{
  Informer, is_ok, checked_publish, unchecked_publish, publish_all, checked_publish-is_publishable,
  publish_all-numbered,
}
use rsb_cpp.Participation.EndToEnd.{matches-checked_publish}

-- The UUID of the participant stands for that of the id.
abbrev as_uuid : EventId Text → Text
as_uuid id = id.participant_id

abbrev strategy : ReceivingStrategy Text
strategy = record {
  handlers = 4 ∷ 5 ∷ [];
  filters = (1, scope_filter (made [])) ∷ (2, method_filter (bytes "REQUEST") false) ∷ [];
  error_strategy = log;
}

abbrev four_throws : ℕ → Bool
four_throws h = h == 4

handle-called_example :
    ((handle as_uuid four_throws 30 event strategy).1.called ≡ 4 ∷ 5 ∷ [])
    × ((handle as_uuid four_throws 30 event strategy).1.exited ≡ false)
unfolding handle matches is_sub_scope_of text_eq
handle-called_example = handle-called as_uuid four_throws 30 event strategy refl

-- The last number before it wraps.
abbrev informer : Informer Text
informer = record {
  id = bytes "informer";
  scope = made a;
  type = bytes "int";
  current_sequence_number = 4294967295;
}

checked_publish-is_publishable_example : is_ok (checked_publish event informer) ≡ true
unfolding is_super_scope_of text_eq
checked_publish-is_publishable_example = checked_publish-is_publishable event informer

publish_all-numbered_example :
    publish_all (event ∷ event ∷ []) informer
    ≡ set_id (bytes "informer") 4294967295 event ∷ set_id (bytes "informer") 0 event ∷ []
publish_all-numbered_example = publish_all-numbered (event ∷ event ∷ []) informer 4294967295 refl

accepted : is_ok (checked_publish event informer) ≡ true
unfolding checked_publish is_super_scope_of is_sub_scope_of text_eq
accepted = refl

root-covers : covers (made []) (made a) ≡ true
unfolding is_super_scope_of text_eq
root-covers = refl

matches-checked_publish_example :
    matches as_uuid (scope_filter (made [])) (unchecked_publish event informer).0 ≡ some true
matches-checked_publish_example =
    matches-checked_publish as_uuid (made []) informer event root-IsNormal made-a-IsNormal
      made-a-IsNormal root-covers accepted
