-- ===== src/Participation/Informer.antt =====
-- src/rsb/Informer.cpp: checked publication and the numbering of events. What the out-route does with an
-- event is not part of it: a call returns the event that it hands over.
use rsb_cpp.Prelude.{
  ℕ, suc, ◌+◌, ◌%◌, ◌^◌, ◌≡◌, refl, ap, ◌∙◌, arith, Bool, true, false, not, ◌&&◌, ◌||◌, List, [],
  ◌∷◌, Option, if◌then◌else◌, is_empty, Text, text_eq, text_eq_sym, Result, ok, err,
}
use rsb_cpp.Scope.{Scope, scope_eq, is_sub_scope_of}
use rsb_cpp.Scope.Covers.{covers}
use rsb_cpp.Scope.Hierarchy.{is_sub_scope_of-eq}
use rsb_cpp.Event.{Event, new_event, set_id, set_scope, set_data, set_type}

pub record Informer (Uuid : Type 0) : Type 0 where
  pub id : Uuid
  pub scope : Scope
  pub type : Text
  pub current_sequence_number : ℕ

pub data PublishError : Type 0 where
  empty_type type_mismatch scope_mismatch : PublishError

module _ {Uuid : Type 0} where
  -- `currentSequenceNumber++` on an uint32_t
  unfoldable pub next_sequence_number : Informer Uuid → ℕ × Informer Uuid
  next_sequence_number i = (
    i.current_sequence_number,
    record i { current_sequence_number = (i.current_sequence_number + 1) % 2 ^ 32 },
  )

module _ {Uuid Payload : Type 0} where
  unfoldable pub create_event : Uuid → ℕ → Informer Uuid → Event Uuid Payload
  create_event nil now i = set_scope i.scope (new_event nil now)

  unfoldable pub unchecked_publish :
      Event Uuid Payload → Informer Uuid → Event Uuid Payload × Informer Uuid
  unfolding next_sequence_number
  unchecked_publish e i =
      let (number, next) = next_sequence_number i in (set_id i.id number e, next)

  unfoldable pub checked_publish :
      Event Uuid Payload → Informer Uuid → Result PublishError (Event Uuid Payload × Informer Uuid)
  unfolding unchecked_publish
  checked_publish e i =
      if is_empty e.type
      then err empty_type
      else if not (is_empty i.type) && not (text_eq e.type i.type)
      then err type_mismatch
      else if not (scope_eq e.scope i.scope) && not (is_sub_scope_of e.scope i.scope)
      then err scope_mismatch
      else ok (unchecked_publish e i)

  -- publish of a payload with its type
  unfoldable pub publish :
      Uuid
      → ℕ
      → Option Payload
      → Text
      → Informer Uuid
      → Result PublishError (Event Uuid Payload × Informer Uuid)
  unfolding create_event checked_publish
  publish nil now content type i =
      checked_publish (set_type type (set_data content (create_event nil now i))) i

  -- The event has a type, that of the informer if it has one, and a scope that the informer's covers.
  abbrev pub is_publishable : Event Uuid Payload → Informer Uuid → Bool
  is_publishable e i =
      not (is_empty e.type) && (is_empty i.type || text_eq e.type i.type) && covers i.scope e.scope

  abbrev pub is_ok : Result PublishError (Event Uuid Payload × Informer Uuid) → Bool
  is_ok (ok r) = true
  is_ok (err x) = false

  -- Checked publication accepts exactly the events that have a type, that of the informer if it has
  -- one, and a scope that is the informer's or below it.
  pub checked_publish-is_publishable :
      (e : Event Uuid Payload) (i : Informer Uuid)
      → is_ok (checked_publish e i) ≡ is_publishable e i
  unfolding checked_publish
  checked_publish-is_publishable e i = ground (
    arith,
    is_sub_scope_of-eq e.scope i.scope,
    text_eq_sym e.scope.scopestring i.scope.scopestring,
  )

  -- The events that an informer hands over for a sequence of calls.
  unfoldable pub publish_all : List (Event Uuid Payload) → Informer Uuid → List (Event Uuid Payload)
  publish_all [] i = []
  publish_all (e ∷ es) i = let (d, j) = unchecked_publish e i in d ∷ publish_all es j

  abbrev pub numbered : Uuid → ℕ → List (Event Uuid Payload) → List (Event Uuid Payload)
  numbered id n [] = []
  numbered id n (e ∷ es) = set_id id (n % 2 ^ 32) e ∷ numbered id (suc n) es

  -- The events that an informer publishes have its id and consecutive sequence numbers, from the
  -- current one on, modulo 2 ^ 32.
  pub publish_all-numbered :
      (es : List (Event Uuid Payload)) (i : Informer Uuid) (n : ℕ)
      → i.current_sequence_number ≡ n % 2 ^ 32
      → publish_all es i ≡ numbered i.id n es
  unfolding publish_all unchecked_publish next_sequence_number
  publish_all-numbered [] i n h = refl
  publish_all-numbered (e ∷ es) i n h =
      let next : Informer Uuid = record i {
        current_sequence_number = (i.current_sequence_number + 1) % 2 ^ 32;
      } in
      let wraps : (i.current_sequence_number + 1) % 2 ^ 32 ≡ suc n % 2 ^ 32 = omega arith in
      ap (λ k. set_id i.id k e ∷ publish_all es next) h
      ∙ ap (◌∷◌ (set_id i.id (n % 2 ^ 32) e)) (publish_all-numbered es next (suc n) wraps)
