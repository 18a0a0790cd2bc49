-- ===== src/Routes.antt =====
-- src/rsb/eventprocessing: OutRouteConfigurator.cpp with DirectEventSendingStrategy.cpp. A connector is its
-- number; what is done to a connector is an argument.
pub mod Publishing
pub mod Pulling
pub mod Examples
use rsb_cpp.Prelude.{
  ℕ, ◌≡◌, refl, Bool, true, false, not, List, [], ◌∷◌, ◌++◌, Option, none, some, if◌then◌else◌,
  ◌==◌, Result, ok, err, map,
}

-- `none` is a strategy that is not there: to process an event then is a null dereference.
pub record OutRoute : Type 0 where
  pub connectors : List ℕ
  pub sending_strategy : Option (List ℕ)
  pub shutdown : Bool

pub data RouteError : Type 0 where
  null_pointer : RouteError

abbrev pub new_out_route : OutRoute
new_out_route = record { connectors = []; sending_strategy = none; shutdown = false }

-- list::remove
unfoldable pub remove_all : ℕ → List ℕ → List ℕ
remove_all x [] = []
remove_all x (y ∷ ys) = let rest = remove_all x ys in if y == x then rest else y ∷ rest

unfoldable pub add_connector : ℕ → OutRoute → OutRoute
add_connector c r = record r { connectors = r.connectors ++ c ∷ [] }

unfoldable pub remove_connector : ℕ → OutRoute → OutRoute
unfolding remove_all
remove_connector c r = record r { connectors = remove_all c r.connectors }

-- The loops that add the connectors to the strategy and take them out again.
unfoldable pub add_each : List ℕ → List ℕ → List ℕ
add_each [] strategy = strategy
add_each (c ∷ cs) strategy = add_each cs (strategy ++ c ∷ [])

-- DirectEventSendingStrategy::process: each connector handles the event in turn.
unfoldable pub process {ℓ} : {State : Type ℓ} → (ℕ → State → State) → List ℕ → State → State
process handle [] state = state
process handle (c ∷ cs) state = process handle cs (handle c state)

-- OutRouteConfigurator::activate: each connector gets the scope and is activated, which is `start`.
unfoldable pub activate {ℓ} :
    {State : Type ℓ} → (ℕ → State → State) → OutRoute → State → OutRoute × State
unfolding add_each process
activate start r state = (
  record r { sending_strategy = some (add_each r.connectors []) },
  process start r.connectors state,
)

-- OutRouteConfigurator::deactivate: the strategy, which no one else has, is released, and each connector
-- is deactivated, which is `stop`.
unfoldable pub deactivate {ℓ} :
    {State : Type ℓ} → (ℕ → State → State) → OutRoute → State → OutRoute × State
unfolding process
deactivate stop r state =
    (record r { sending_strategy = none; shutdown = true }, process stop r.connectors state)

-- OutRouteConfigurator::publish
unfoldable pub publish {ℓ} :
    {State : Type ℓ} → (ℕ → State → State) → OutRoute → State → Result RouteError State
unfolding process
publish handle r state = elim r.sending_strategy [
  | none ↦ err null_pointer
  | some connectors ↦ ok (process handle connectors state)
]
