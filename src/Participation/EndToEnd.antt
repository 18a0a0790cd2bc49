-- ===== src/Participation/EndToEnd.antt =====
-- From the informer to the filter of a participant on a scope above.
use rsb_cpp.Prelude.{◌≡◌, ap, ◌∙◌, arith, true, some}
use rsb_cpp.Maps.{Ord}
use rsb_cpp.Scope.{Scope}
use rsb_cpp.Scope.Syntax.{IsNormal}
use rsb_cpp.Scope.Covers.{covers, covers_trans}
use rsb_cpp.Event.{Event, EventId}
use rsb_cpp.Participation.Filters.{matches, scope_filter, matches-scope_filter}
use rsb_cpp.Participation.Informer.{
  Informer, checked_publish, unchecked_publish, is_ok, checked_publish-is_publishable,
}

module _ {Uuid Payload : Type 0} ⦃o : Ord Uuid⦄ (as_uuid : EventId Uuid → Uuid) where
  -- An event that an informer accepts, once published, passes the filter of every scope that is the
  -- informer's or a super-scope of that, for scopes in normal form.
  pub matches-checked_publish :
      (s : Scope) (i : Informer Uuid) (e : Event Uuid Payload)
      → IsNormal s
      → IsNormal i.scope
      → IsNormal e.scope
      → covers s i.scope ≡ true
      → is_ok (checked_publish e i) ≡ true
      → matches as_uuid (scope_filter s) (unchecked_publish e i).0 ≡ some true
  unfolding unchecked_publish
  matches-checked_publish s i e hs hi he above accepted =
      let below : covers i.scope e.scope ≡ true =
        ground (arith, checked_publish-is_publishable e i) in
      matches-scope_filter as_uuid s (unchecked_publish e i).0
      ∙ ap some (covers_trans s i.scope e.scope hs hi he above below)
