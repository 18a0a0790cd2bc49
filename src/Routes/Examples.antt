-- ===== src/Routes/Examples.antt =====
-- The theorems on routes at two connectors.
use rsb_cpp.Prelude.{ℕ, ◌≡◌, List, [], ◌∷◌, Option, some, Text}
use rsb_cpp.Event.{Event, new_event}
use rsb_cpp.SocketConnectors.{Connector, new_connector}
use rsb_cpp.Routes.Pulling.{raise_first, waiting, raise_first-pop}
use rsb_cpp.Routes.{OutRoute, new_out_route}

abbrev route : OutRoute
route = record new_out_route { connectors = 4 ∷ 2 ∷ [] }

abbrev waiting_event : Event Text Text
waiting_event = new_event [] 10

abbrev idle : Connector ℕ Text Text
idle = new_connector

abbrev filled : Connector ℕ Text Text
filled = record new_connector { queue = waiting_event ∷ [] }

raise_first-pop_example :
    ◌≡◌ {A = Option (Event Text Text) × List (Event Text Text)}
      ((raise_first (idle ∷ filled ∷ [])).0, waiting (raise_first (idle ∷ filled ∷ [])).1)
      (some waiting_event, [])
raise_first-pop_example = raise_first-pop (idle ∷ filled ∷ [])
