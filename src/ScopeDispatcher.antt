-- ===== src/ScopeDispatcher.antt =====
-- src/rsb/eventprocessing/ScopeDispatcher.h: sinks under the scopes that they listen to.
-- A loop that calls a function for each sink is the list of the sinks that it calls, in order.
pub mod Weak
pub mod Routing
mod Examples
use rsb_cpp.Prelude.{
  ℕ, Bool, true, List, [], ◌∷◌, ◌++◌, Option, none, some, is_empty, length, if◌then◌else◌, Result,
  ok, err,
}
use rsb_cpp.Maps.{Map, find, insert, erase}
use rsb_cpp.Scope.{Scope, super_scopes}
use rsb_cpp.Scope.Covers.{scope_ord}

-- std::logic_error("Should not happen")
pub data LogicError : Type 0 where
  should_not_happen : LogicError

pub record ScopeDispatcher {ℓ} (T : Type ℓ) : Type ℓ where
  pub sinks : Map Scope (List T)

module _ {ℓ} {T : Type ℓ} where
  pub empty : ScopeDispatcher T → Bool
  empty d = is_empty d.sinks

  pub size : ScopeDispatcher T → ℕ
  size d = length d.sinks

  abbrev pub or_empty : Option (List T) → List T
  or_empty none = []
  or_empty (some l) = l

  -- The list under a scope, `[]` where there is none.
  abbrev pub under : ScopeDispatcher T → Scope → List T
  under d scope = or_empty (find scope d.sinks)

  -- `sinks[scope].push_back(sink)`
  pub add_sink : Scope → T → ScopeDispatcher T → ScopeDispatcher T
  add_sink scope sink d = record d { sinks = insert scope (under d scope ++ sink ∷ []) d.sinks }

  -- The list after a removal, which goes with its entry when it is empty.
  put_back : Scope → List T → ScopeDispatcher T → ScopeDispatcher T
  put_back scope l d = record d {
    sinks = if is_empty l then erase scope d.sinks else insert scope l d.sinks;
  }

  -- The loop over the scopes in mapSinks.
  sinks_of : ScopeDispatcher T → List Scope → List T
  sinks_of d [] = []
  sinks_of d (s ∷ ss) = under d s ++ sinks_of d ss

  pub map_sinks : Scope → ScopeDispatcher T → List T
  unfolding sinks_of
  map_sinks scope d = sinks_of d (super_scopes true scope)

  all_sinks : Map Scope (List T) → List T
  all_sinks [] = []
  all_sinks ((s, l) ∷ m) = l ++ all_sinks m

  pub map_all_sinks : ScopeDispatcher T → List T
  unfolding all_sinks
  map_all_sinks d = all_sinks d.sinks

-- std::list::remove: every equal element goes.
module _ {ℓ} {T : Type ℓ} (same : T → T → Bool) where
  remove : T → List T → List T
  remove sink [] = []
  remove sink (x ∷ xs) = let rest = remove sink xs in if same x sink then rest else x ∷ rest

  pub remove_sink : Scope → T → ScopeDispatcher T → Result LogicError (ScopeDispatcher T)
  unfolding remove put_back
  remove_sink scope sink d = elim (find scope d.sinks) [
    | none ↦ err should_not_happen
    | some l ↦ ok (put_back scope (remove sink l) d)
  ]
