-- ===== src/InprocessBus/Invariant.antt =====
-- The invariant of the bus: the list of a scope holds each active connector whose scope covers it
-- once, and nothing else, and the scope of every active connector has an entry.
use rsb_cpp.Prelude.{ℕ, ◌≡◌, Bool, true, false, ◌&&◌, ◌||◌, not, ◌==◌, List, [], ◌∷◌, count, All}
use rsb_cpp.Scope.{Scope, scope_eq}
use rsb_cpp.Scope.Syntax.{IsNormal}
use rsb_cpp.Scope.Names.{scope_eq_iff, eq_of_components}
use rsb_cpp.Scope.Covers.{covers}
use rsb_cpp.InprocessBus.{SinkMap}
use rsb_cpp.InprocessBus.Members.{bit}

abbrev pub has : Scope → SinkMap → Bool
has s [] = false
has s ((t, l) ∷ m) = scope_eq t s || has s m

pub eq_of_scope_eq : (s t : Scope) → IsNormal s → IsNormal t → scope_eq s t ≡ true → s ≡ t
eq_of_scope_eq s t hs ht e = eq_of_components hs ht ((scope_eq_iff s t hs ht).0 e)

-- The connectors on the bus with one more, and without one.
abbrev pub with_sink : (ℕ → Bool) → ℕ → ℕ → Bool
with_sink active x z = z == x || active z

abbrev pub without_sink : (ℕ → Bool) → ℕ → ℕ → Bool
without_sink active x z = not (z == x) && active z

module _ (scope_of : ℕ → Scope) where
  -- Connector z is active and is to get the events of s.
  abbrev pub wants : (ℕ → Bool) → ℕ → Scope → Bool
  wants active z s = active z && covers (scope_of z) s

  pub record IsEntry (active : ℕ → Bool) (entry : Scope × List ℕ) : Type 0 where
    pub key : IsNormal entry.0
    pub members : (z : ℕ) → count z entry.1 ≡ bit (wants active z entry.0)

  pub record Inv (active : ℕ → Bool) (m : SinkMap) : Type 0 where
    pub entries : All (IsEntry active) m
    pub keys : (z : ℕ) → active z ≡ true → has (scope_of z) m ≡ true

  pub Inv-empty : Inv (λ z. false) []
  Inv-empty = record { entries = tt; keys = λ z h. h }
