-- ===== src/Routes/Pulling.antt =====
-- src/rsb/eventprocessing/PullEventReceivingStrategy.cpp: the first connector that has an event. The
-- connectors are those of src/rsb/transport/socket/InPullConnector.cpp, which are asked without blocking; the
-- filters are kept but never asked, in spite of the documentation.
use rsb_cpp.Prelude.{◌≡◌, refl, arith, List, [], ◌∷◌, ◌++◌, Option, none, some}
use rsb_cpp.Event.{Event}
use rsb_cpp.SocketConnectors.{Connector, raise_event}

-- The head of a list and the rest.
abbrev pub pop {ℓ} : {A : Type ℓ} → List A → Option A × List A
pop [] = (none, [])
pop (x ∷ xs) = (some x, xs)

module _ {Bus Uuid Payload : Type 0} where
  -- PullEventReceivingStrategy::raiseEvent(false)
  unfoldable pub raise_first :
      List (Connector Bus Uuid Payload)
      → Option (Event Uuid Payload) × List (Connector Bus Uuid Payload)
  unfolding raise_event
  raise_first [] = (none, [])
  raise_first (c ∷ cs) =
      let (event, next) = raise_event c in
      let (later, others) = raise_first cs in
      elim event [ some e ↦ (some e, next ∷ cs) | none ↦ (later, next ∷ others) ]

  -- All the events that wait, those of the first connector first.
  abbrev pub waiting : List (Connector Bus Uuid Payload) → List (Event Uuid Payload)
  waiting [] = []
  waiting (c ∷ cs) = c.queue ++ waiting cs

  -- A strategy that pulls without blocking is one queue: it returns the first of all the events that wait
  -- at its connectors, in the order of these, and leaves the others. The filters of the strategy, which
  -- are documented to discard events, have no part in that.
  pub raise_first-pop :
      (cs : List (Connector Bus Uuid Payload))
      → ((raise_first cs).0, waiting (raise_first cs).1) ≡ pop (waiting cs)
  unfolding raise_first raise_event
  raise_first-pop [] = refl
  raise_first-pop (c ∷ cs) = ground (arith, raise_first-pop cs)
