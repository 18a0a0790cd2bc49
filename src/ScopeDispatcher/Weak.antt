-- ===== src/ScopeDispatcher/Weak.antt =====
-- WeakScopeDispatcher of src/rsb/eventprocessing/ScopeDispatcher.h: a sink is the address of its object, which may be gone.
use rsb_cpp.Prelude.{
  ℕ, Bool, true, not, ◌||◌, List, [], ◌∷◌, ◌++◌, none, some, ◌==◌, if◌then◌else◌, Result, ok, err,
}
use rsb_cpp.Maps.{Map, find}
use rsb_cpp.Scope.{Scope, super_scopes}
use rsb_cpp.Scope.Covers.{scope_ord}
use rsb_cpp.ScopeDispatcher.{ScopeDispatcher, LogicError, should_not_happen, under, put_back}

module _ (alive : ℕ → Bool) where
  -- The loop of removeSink: dangling pointers go too.
  clean : ℕ → List ℕ → List ℕ
  clean sink [] = []
  clean sink (x ∷ xs) =
      let rest = clean sink xs in if not (alive x) || x == sink then rest else x ∷ rest

  pub remove_sink : Scope → ℕ → ScopeDispatcher ℕ → Result LogicError (ScopeDispatcher ℕ)
  unfolding clean put_back
  remove_sink scope sink d = elim (find scope d.sinks) [
    | none ↦ err should_not_happen
    | some l ↦ ok (put_back scope (clean sink l) d)
  ]

  unfoldable pub lock : List ℕ → List ℕ
  lock [] = []
  lock (x ∷ xs) = if alive x then x ∷ lock xs else lock xs

  unfoldable pub locked_sinks_of : ScopeDispatcher ℕ → List Scope → List ℕ
  unfolding lock
  locked_sinks_of d [] = []
  locked_sinks_of d (s ∷ ss) = lock (under d s) ++ locked_sinks_of d ss

  unfoldable pub map_sinks : Scope → ScopeDispatcher ℕ → List ℕ
  unfolding locked_sinks_of
  map_sinks scope d = locked_sinks_of d (super_scopes true scope)

  locked_sinks : Map Scope (List ℕ) → List ℕ
  unfolding lock
  locked_sinks [] = []
  locked_sinks ((s, l) ∷ m) = lock l ++ locked_sinks m

  pub map_all_sinks : ScopeDispatcher ℕ → List ℕ
  unfolding locked_sinks
  map_all_sinks d = locked_sinks d.sinks
