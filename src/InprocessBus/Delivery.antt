-- ===== src/InprocessBus/Delivery.antt =====
-- Who gets an event that is put on the bus, after any history of the bus.
use rsb_cpp.Prelude.{
  ℕ, ◌≡◌, refl, ap, ◌∙◌, arith, Bool, true, false, ◌&&◌, List, [], ◌∷◌, ◌==◌, if◌then◌else◌, count,
  Bool-cases, Option-cases, inl, inr, none,
}
use rsb_cpp.Maps.{find, find-All}
use rsb_cpp.Scope.{Scope}
use rsb_cpp.Scope.Syntax.{IsNormal}
use rsb_cpp.Scope.Covers.{scope_ord}
use rsb_cpp.InprocessBus.{
  SinkMap, ensure_entry, lock_all, connectors_at, add_sink, remove_sink, handle,
}
use rsb_cpp.InprocessBus.Invariant.{
  has, eq_of_scope_eq, wants, IsEntry, Inv, Inv-empty, with_sink, without_sink,
}
use rsb_cpp.InprocessBus.Members.{bit}
use rsb_cpp.InprocessBus.Keeping.{ensure_entry-Inv, add_sink-Inv}
use rsb_cpp.InprocessBus.Removing.{remove_sink-Inv}

count-lock_all :
    (alive : ℕ → Bool) (z : ℕ) (l : List ℕ)
    → count z (lock_all alive l) ≡ (if alive z then count z l else 0)
unfolding lock_all
count-lock_all alive z [] = ground arith
count-lock_all alive z (y ∷ ys) = elim (Bool-cases (z == y)) [
  | inl same ↦ let q : y ≡ z = ground arith in ground (arith, count-lock_all alive z ys, ap alive q)
  | inr other ↦ ground (arith, count-lock_all alive z ys)
]

not-has : (s : Scope) (m : SinkMap) → find s m ≡ none → has s m ≡ false
unfolding find
not-has s [] e = refl
not-has s ((t, l) ∷ m) e = ground (arith, not-has s m)

-- A call on the bus, with the pointers that can be locked at that time.
pub data Call : Type 0 where
  adds : ℕ → Call
  removes : (ℕ → Bool) → ℕ → Call
  sends : (ℕ → Bool) → Scope → Call

module _ (scope_of : ℕ → Scope) where
  unfoldable pub step : SinkMap → Call → SinkMap
  step m (adds x) = add_sink scope_of x m
  step m (removes alive x) = remove_sink alive x m
  step m (sends alive s) = (handle alive s m).0

  unfoldable pub run : SinkMap → List Call → SinkMap
  unfolding step
  run m [] = m
  run m (c ∷ cs) = run (step m c) cs

-- The connectors on the bus after the calls, from those before.
abbrev pub members_after : (ℕ → Bool) → List Call → ℕ → Bool
members_after active [] = active
members_after active (adds x ∷ cs) = members_after (with_sink active x) cs
members_after active (removes alive x ∷ cs) = members_after (without_sink active x) cs
members_after active (sends alive s ∷ cs) = members_after active cs

-- How the connectors use the bus: each is added when it is not there, events have a scope in
-- normal form, and when one is removed no pointer to another one dangles.
abbrev pub IsOrderly : (ℕ → Bool) → List Call → Type 0
IsOrderly active [] = Unit
IsOrderly active (adds x ∷ cs) = (active x ≡ false) × IsOrderly (with_sink active x) cs
IsOrderly active (removes alive x ∷ cs) =
    ((z : ℕ) → active z ≡ true → (z == x) ≡ false → alive z ≡ true)
    × IsOrderly (without_sink active x) cs
IsOrderly active (sends alive s ∷ cs) = IsNormal s × IsOrderly active cs

module _ (scope_of : ℕ → Scope) (normal : (z : ℕ) → IsNormal (scope_of z)) where
  handle-Inv :
      (active alive : ℕ → Bool) (s : Scope) (m : SinkMap)
      → IsNormal s
      → Inv scope_of active m
      → Inv scope_of active (handle alive s m).0
  unfolding handle
  handle-Inv active alive s m n v = (ensure_entry-Inv scope_of normal active s m n v).0

  count-connectors_at :
      (active : ℕ → Bool) (s : Scope) (m : SinkMap) (z : ℕ)
      → IsNormal s
      → Inv scope_of active m
      → has s m ≡ true
      → count z (connectors_at s m) ≡ bit (wants scope_of active z s)
  unfolding connectors_at
  count-connectors_at active s m z n v there = elim (Option-cases (find s m)) [
    | inl e ↦ cc (not-has s m e)
    | inr (l, e) ↦
        let (t, same, entry) = find-All (IsEntry scope_of active) s m v.entries e in
        rw (e, connectors_at)
          (entry.members z
            ∙ ap (λ u. bit (wants scope_of active z u)) (eq_of_scope_eq t s entry.key n same))
  ]

  -- handle calls each connector exactly once that is on the bus, can be locked, and has the scope of
  -- the event or a super-scope of it; and it calls no other.
  pub handle-delivers :
      (active alive : ℕ → Bool) (s : Scope) (m : SinkMap) (z : ℕ)
      → IsNormal s
      → Inv scope_of active m
      → count z (handle alive s m).1 ≡ bit (alive z && wants scope_of active z s)
  unfolding handle
  handle-delivers active alive s m z n v =
      let (kept, there) = ensure_entry-Inv scope_of normal active s m n v in
      let m' = ensure_entry s m in
      count-lock_all alive z (connectors_at s m')
      ∙ ground (arith, count-connectors_at active s m' z n kept there)

  run-Inv :
      (active : ℕ → Bool) (m : SinkMap) (cs : List Call)
      → Inv scope_of active m
      → IsOrderly active cs
      → Inv scope_of (members_after active cs) (run scope_of m cs)
  unfolding run
  run-Inv active m [] v h = v
  run-Inv active m (adds x ∷ cs) v h =
      run-Inv (with_sink active x) (add_sink scope_of x m) cs
        (add_sink-Inv scope_of normal active x m h.0 v) h.1
  run-Inv active m (removes alive x ∷ cs) v h =
      run-Inv (without_sink active x) (remove_sink alive x m) cs
        (remove_sink-Inv scope_of normal alive active x m h.0 v) h.1
  run-Inv active m (sends alive s ∷ cs) v h =
      run-Inv active (handle alive s m).0 cs (handle-Inv active alive s m h.0 v) h.1

  -- After any history of a new bus in which no connector is added twice, all scopes are in normal form
  -- and no pointer to another connector dangles when one is removed, an event reaches each connector
  -- that is then on the bus, can be locked and has a covering scope, exactly once, and no other.
  pub run-delivers :
      (cs : List Call) (alive : ℕ → Bool) (s : Scope) (z : ℕ)
      → IsOrderly (λ u. false) cs
      → IsNormal s
      → count z (handle alive s (run scope_of [] cs)).1
        ≡ bit (alive z && wants scope_of (members_after (λ u. false) cs) z s)
  run-delivers cs alive s z h n =
      handle-delivers (members_after (λ u. false) cs) alive s (run scope_of [] cs) z n
        (run-Inv (λ u. false) [] cs (Inv-empty scope_of) h)
