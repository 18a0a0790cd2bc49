-- ===== src/Event/Causes.antt =====
-- The set of causes of an event.
use rsb_cpp.Prelude.{◌≡◌, arith, not, ◌&&◌, ◌||◌}
use rsb_cpp.Maps.{Ord, find-insert, find-erase, find-cong}
use rsb_cpp.Event.{Event, EventId, event_id_eq, event_id_ord, is_cause, add_cause, remove_cause}

module _ {Uuid Payload : Type 0} ⦃o : Ord Uuid⦄ where
  -- addCause returns whether the id was new, and then exactly that id is a cause as well.
  pub is_cause-add_cause :
      (e : Event Uuid Payload) (id j : EventId Uuid)
      → ((add_cause id e).1 ≡ not (is_cause id e))
        × (is_cause j (add_cause id e).0 ≡ (event_id_eq id j || is_cause j e))
  unfolding is_cause add_cause
  is_cause-add_cause e id j = ground (arith, find-insert id j tt e.causes, find-cong id j e.causes)

  -- removeCause returns whether the id was a cause, and then exactly that id is none any more.
  pub is_cause-remove_cause :
      (e : Event Uuid Payload) (id j : EventId Uuid)
      → ((remove_cause id e).1 ≡ is_cause id e)
        × (is_cause j (remove_cause id e).0 ≡ (not (event_id_eq id j) && is_cause j e))
  unfolding is_cause remove_cause
  is_cause-remove_cause e id j = ground (arith, find-erase id j e.causes, find-cong id j e.causes)
