-- ===== src/ScopeDispatcher/Examples.antt =====
-- The dispatcher's theorems at concrete inputs.
use rsb_cpp.Prelude.{ℕ, ◌+◌, ◌≡◌, refl, arith, [], ◌∷◌, ◌==◌, count, ok, text_eq}
use rsb_cpp.Maps.{find, insert}
use rsb_cpp.Scope.Hierarchy.{made, is_prefix}
use rsb_cpp.Scope.Examples.{a, a_b, made-a-IsNormal, made-a_b-IsNormal}
use rsb_cpp.ScopeDispatcher.{ScopeDispatcher, map_sinks, remove_sink}
use rsb_cpp.ScopeDispatcher.Routing.{count-map_sinks-remove_sink}

abbrev busy : ScopeDispatcher ℕ
busy = record { sinks = (made a, 3 ∷ 4 ∷ []) ∷ [] }

abbrev less_busy : ScopeDispatcher ℕ
less_busy = record { sinks = (made a, 4 ∷ []) ∷ [] }

removed : remove_sink ◌==◌ (made a) 3 busy ≡ ok less_busy
unfolding remove_sink find insert text_eq
removed = refl

count-map_sinks-remove_sink_example :
    count 3 (map_sinks (made a_b) busy) ≡ count 3 (map_sinks (made a_b) less_busy) + 1
unfolding is_prefix text_eq find
count-map_sinks-remove_sink_example =
    count-map_sinks-remove_sink busy less_busy (made a) (made a_b) 3 3 made-a-IsNormal
      made-a_b-IsNormal (omega arith) removed
