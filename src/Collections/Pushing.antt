-- ===== src/Collections/Pushing.antt =====
-- EventsByScopeMapConverter.cpp: what the events of one scope become in the map that is read.
use rsb_cpp.Prelude.{
  ◌≡◌, refl, ap, sym, ◌∙◌, List, [], ◌∷◌, ◌++◌, none, some, text_eq_refl, append_assoc, append-nil,
  if◌then◌else◌,
}
use rsb_cpp.Maps.{find, insert, insert-insert, find-insert}
use rsb_cpp.Scope.{Scope}
use rsb_cpp.Scope.Covers.{scope_ord}
use rsb_cpp.Event.{Event}
use rsb_cpp.Collections.{EventMap, push_back}

module _ {Uuid Payload : Type 0} where
  -- The events of a scope are pushed back one by one.
  unfoldable pub push_all :
      Scope → List (Event Uuid Payload) → EventMap Uuid Payload → EventMap Uuid Payload
  push_all s [] m = m
  push_all s (e ∷ es) m = push_all s es (push_back s e m)

  push_back_new :
      (s : Scope) (e : Event Uuid Payload) (m : EventMap Uuid Payload)
      → find s m ≡ none
      → push_back s e m ≡ insert s (e ∷ []) m
  unfolding push_back
  push_back_new s e m h = rw (push_back, h) refl

  push_back-insert :
      (s : Scope) (e : Event Uuid Payload) (done : List (Event Uuid Payload))
      (m : EventMap Uuid Payload)
      → find s m ≡ none
      → push_back s e (insert s done m) ≡ insert s (done ++ e ∷ []) m
  unfolding push_back
  push_back-insert s e done m h =
      let hit : find s (insert s done m) ≡ some done =
        find-insert s s done m
        ∙ ap (λ b. if b then some done else find s m) (text_eq_refl s.scopestring) in
      rw (push_back, hit) (insert-insert s (done ++ e ∷ []) done m h)

  push_all-insert :
      (s : Scope) (es done : List (Event Uuid Payload)) (m : EventMap Uuid Payload)
      → find s m ≡ none
      → push_all s es (insert s done m) ≡ insert s (done ++ es) m
  unfolding push_all
  push_all-insert s [] done m h = ap (λ t. insert s t m) (sym (append-nil done))
  push_all-insert s (e ∷ es) done m h =
      ap (push_all s es) (push_back-insert s e done m h)
      ∙ push_all-insert s es (done ++ e ∷ []) m h
      ∙ ap (λ t. insert s t m) (append_assoc done (e ∷ []) es)

  -- Pushed to a scope that has no entry they are its entry.
  pub push_all_new :
      (s : Scope) (e : Event Uuid Payload) (es : List (Event Uuid Payload))
      (m : EventMap Uuid Payload)
      → find s m ≡ none
      → push_all s (e ∷ es) m ≡ insert s (e ∷ es) m
  unfolding push_all
  push_all_new s e es m h =
      ap (push_all s es) (push_back_new s e m h) ∙ push_all-insert s es (e ∷ []) m h
