-- ===== src/Introspection/History.antt =====
-- src/rsb/introspection/IntrospectionSender.cpp: participants that come and go and queries in between.
use rsb_cpp.Prelude.{
  ◌≡◌, ap, sym, ◌∙◌, arith, Bool, true, false, not, ◌&&◌, List, [], ◌∷◌, Option, Text, Result, ok,
  err, Result-cases, inl, inr,
}
use rsb_cpp.Maps.{Ord}
use rsb_cpp.Event.{Event}
use rsb_cpp.Introspection.{
  ParticipantInfo, IntrospectionSender, participant_scope, add_participant, remove_participant,
  handle_query,
}
use rsb_cpp.Introspection.Listener.{Mirrors, has, ids}
use rsb_cpp.Introspection.Mirror.{add_participant-Mirrors, remove_participant-Mirrors, query-Keeps}

-- What happens to a sender.
pub data Step (Uuid : Type 0) : Type 0 where
  added : ParticipantInfo Uuid → Step Uuid
  removed : Uuid → Step Uuid
  asked : Event Uuid Text → Step Uuid

abbrev pub made {ℓ κ} : {E : Type ℓ} {A : Type κ} → Result E A → Bool
made (ok a) = true
made (err e) = false

module _ {Uuid : Type 0} ⦃o : Ord Uuid⦄ (print : Uuid → Text) (read : Text → Option Uuid)
    (void_type string_type : Text) where
  abbrev pub step : Step Uuid → IntrospectionSender Uuid → IntrospectionSender Uuid
  step (added p) s = (add_participant print p s).0
  step (removed id) s = (remove_participant print id s).0
  step (asked query) s = (handle_query print read void_type string_type query s).0

  abbrev pub run : List (Step Uuid) → IntrospectionSender Uuid → IntrospectionSender Uuid
  run [] s = s
  run (x ∷ xs) s = run xs (step x s)

  -- A participant that is added has a new id, which spells a scope.
  abbrev pub is_orderly : Step Uuid → IntrospectionSender Uuid → Bool
  is_orderly (added p) s =
      not (has p.id (ids s.participants)) && made (participant_scope print p.id s)
  is_orderly (removed id) s = true
  is_orderly (asked query) s = true

  abbrev pub all_orderly : List (Step Uuid) → IntrospectionSender Uuid → Bool
  all_orderly [] s = true
  all_orderly (x ∷ xs) s = is_orderly x s && all_orderly xs (step x s)

  step-Mirrors :
      (x : Step Uuid) (s : IntrospectionSender Uuid)
      → Mirrors s
      → is_orderly x s ≡ true
      → Mirrors (step x s)
  step-Mirrors (added p) s h fine = elim (Result-cases (participant_scope print p.id s)) [
    | inl (e, failed) ↦ let fine' = rw failed at fine in ground arith
    | inr (scope, told) ↦ add_participant-Mirrors print p s h (ground arith) told
  ]
  step-Mirrors (removed id) s h fine = remove_participant-Mirrors print id s h
  step-Mirrors (asked query) s h fine =
      let kept = query-Keeps print read void_type string_type query s h in
      kept.1 ∙ ap ids (sym kept.0)

  -- Through any history of participants that come, each with a new id that spells a scope, and go, and of
  -- queries of any kind, those that throw included, a listener that follows the hellos and byes from
  -- the start knows exactly the participants that the sender has, in their order.
  pub run-Mirrors :
      (steps : List (Step Uuid)) (s : IntrospectionSender Uuid)
      → Mirrors s
      → all_orderly steps s ≡ true
      → Mirrors (run steps s)
  run-Mirrors [] s h fine = h
  run-Mirrors (x ∷ xs) s h fine =
      run-Mirrors xs (step x s) (step-Mirrors x s h (ground arith)) (ground arith)
