-- ===== src/InprocessBus/Examples.antt =====
-- Tests of the in-process bus on a short history, and its theorems at concrete inputs.
use rsb_cpp.Prelude.{
  ℕ, ◌≡◌, refl, arith, some, Bool, true, false, ◌&&◌, List, [], ◌∷◌, ◌==◌, if◌then◌else◌, count,
  not, text_eq, text_lt,
}
use rsb_cpp.Maps.{find, insert}
use rsb_cpp.Scope.{Scope, is_super_scope_of, is_sub_scope_of}
use rsb_cpp.Scope.Syntax.{IsNormal}
use rsb_cpp.Scope.Hierarchy.{made}
use rsb_cpp.Scope.Covers.{scope_ord}
use rsb_cpp.Scope.Examples.{a, a_b, made-a-IsNormal, made-a_b-IsNormal}
use rsb_cpp.InprocessBus.{SinkMap, add_sink, remove_sink, handle}
use rsb_cpp.InprocessBus.Invariant.{Inv, Inv-empty, wants, with_sink, without_sink}
use rsb_cpp.InprocessBus.Members.{bit, mem}
use rsb_cpp.InprocessBus.Keeping.{add_sink-Inv}
use rsb_cpp.InprocessBus.Removing.{remove_sink-Inv}
use rsb_cpp.InprocessBus.Dangling.{remove_sink_dangling}
use rsb_cpp.InprocessBus.Delivery.{Call, adds, removes, sends, run, members_after, run-delivers}

-- Connector 1 listens on /a/b-2/, all others on /a/.
abbrev scope_of : ℕ → Scope
scope_of z = if z == 1 then made a_b else made a

normal : (z : ℕ) → IsNormal (scope_of z)
normal z = pick (z == 1)
  where
    pick : (b : Bool) → IsNormal (if b then made a_b else made a)
    pick true = made-a_b-IsNormal
    pick false = made-a-IsNormal

abbrev all_alive : ℕ → Bool
all_alive z = true

abbrev nobody : ℕ → Bool
nobody z = false

abbrev history : List Call
history = adds 0 ∷ sends all_alive (made a_b) ∷ adds 1 ∷ adds 2 ∷ removes all_alive 2 ∷ []

history-run : (handle all_alive (made a_b) (run scope_of [] history)).1 ≡ 0 ∷ 1 ∷ []
unfolding run handle add_sink remove_sink is_super_scope_of is_sub_scope_of find insert text_eq
    text_lt
history-run = refl

add_sink-Inv_example : Inv scope_of (with_sink nobody 1) (add_sink scope_of 1 [])
add_sink-Inv_example = add_sink-Inv scope_of normal nobody 1 [] refl (Inv-empty scope_of)

-- Connectors 0 and 1 are on the bus, and the pointer to the latter dangles when it is removed.
abbrev two_active : ℕ → Bool
two_active = with_sink (with_sink nobody 0) 1

abbrev one_dead : ℕ → Bool
one_dead z = not (z == 1)

two_active-Inv : Inv scope_of two_active (add_sink scope_of 1 (add_sink scope_of 0 []))
two_active-Inv =
    add_sink-Inv scope_of normal (with_sink nobody 0) 1 (add_sink scope_of 0 []) refl
      (add_sink-Inv scope_of normal nobody 0 [] refl (Inv-empty scope_of))

others_live : (z : ℕ) → two_active z ≡ true → (z == 1) ≡ false → one_dead z ≡ true
others_live z h other = ground arith

remove_sink-Inv_example :
    Inv scope_of
      (without_sink two_active 1)
      (remove_sink one_dead 1 (add_sink scope_of 1 (add_sink scope_of 0 [])))
remove_sink-Inv_example =
    remove_sink-Inv scope_of normal one_dead two_active 1
      (add_sink scope_of 1 (add_sink scope_of 0 [])) others_live two_active-Inv

run-delivers_example :
    count 1 (handle all_alive (made a_b) (run scope_of [] history)).1
    ≡ bit (true && wants scope_of (members_after nobody history) 1 (made a_b))
run-delivers_example =
    run-delivers scope_of normal history all_alive (made a_b) 1
      (refl, (made-a_b-IsNormal, (refl, (refl, ((λ z h k. refl), tt))))) made-a_b-IsNormal

-- Connector 1 is to go, and the pointer to connector 0 dangles.
abbrev zero_dead : ℕ → Bool
zero_dead z = not (z == 0)

abbrev dangling : SinkMap
dangling = (made a, 2 ∷ []) ∷ (made a_b, 2 ∷ 0 ∷ 1 ∷ []) ∷ []

remove_sink_dangling_example :
    (find (made a_b) (remove_sink zero_dead 1 dangling) ≡ some (2 ∷ 1 ∷ []))
    × (mem 1 (handle zero_dead (made a_b) (remove_sink zero_dead 1 dangling)).1 ≡ true)
unfolding find text_eq text_lt
remove_sink_dangling_example =
    remove_sink_dangling zero_dead zero_dead 1 0 (made a_b) (2 ∷ []) (1 ∷ []) dangling
      ((refl, tt), (tt, tt)) refl (refl, tt) refl refl refl
