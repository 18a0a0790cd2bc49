-- ===== src/Socket/Bus.antt =====
-- src/rsb/transport/socket/BusImpl.cpp and BusServerImpl.cpp: sinks and connections of one bus. A
-- connection is a number, like a sink; `works z` says that sendEvent of z does not throw now, and
-- `takes x` that handle of the sink x does not.
use rsb_cpp.Prelude.{
  ℕ, Bool, true, false, List, [], ◌∷◌, ◌++◌, none, some, ◌==◌, if◌then◌else◌, bytes, Result, ok,
  err,
}
use rsb_cpp.Maps.{text_ord}
use rsb_cpp.Scope.{Scope}
use rsb_cpp.MetaData.{get_user_info}
use rsb_cpp.Event.{Event}
use rsb_cpp.ScopeDispatcher.{ScopeDispatcher, LogicError, add_sink}
use rsb_cpp.ScopeDispatcher.Weak.{remove_sink, map_sinks}

pub record Bus : Type 0 where
  pub sinks : ScopeDispatcher ℕ
  pub connections : List ℕ
  pub tcpnodelay : Bool

-- BusImpl::BusImpl
abbrev pub new_bus : Bool → Bus
new_bus tcpnodelay = record {
  sinks = record { sinks = [] };
  connections = [];
  tcpnodelay = tcpnodelay;
}

-- BusImpl::addSink and removeSink, with the scope of the sink.
unfoldable pub add_bus_sink : Scope → ℕ → Bus → Bus
add_bus_sink scope sink b = record b { sinks = add_sink scope sink b.sinks }

unfoldable pub remove_bus_sink : (ℕ → Bool) → Scope → ℕ → Bus → Result LogicError Bus
remove_bus_sink alive scope sink b = elim (remove_sink alive scope sink b.sinks) [
  | ok s ↦ ok (record b { sinks = s })
  | err x ↦ err x
]

-- list::remove
unfoldable pub remove_all : ℕ → List ℕ → List ℕ
remove_all z [] = []
remove_all z (y ∷ ys) = let rest = remove_all z ys in if y == z then rest else y ∷ rest

unfoldable pub add_connection : ℕ → Bus → Bus
add_connection z b = record b { connections = b.connections ++ z ∷ [] }

unfoldable pub remove_connection : ℕ → Bus → Bus
unfolding remove_all
remove_connection z b = record b { connections = remove_all z b.connections }

-- The loop over the sinks: those that were given the event, and whether one of them threw, which ends it.
unfoldable pub give_loop : (ℕ → Bool) → List ℕ → List ℕ × Bool
give_loop takes [] = ([], false)
give_loop takes (x ∷ xs) =
    let (given, threw) = give_loop takes xs in
    if takes x then (x ∷ given, threw) else (x ∷ [], true)

-- The loop that sends: the connections that were given the event and those of them that failed, behind
-- those so far.
unfoldable pub send_loop : (ℕ → Bool) → List ℕ → List ℕ → List ℕ → List ℕ × List ℕ
send_loop works [] given failing = (given, failing)
send_loop works (z ∷ zs) given failing =
    send_loop works zs (given ++ z ∷ []) (if works z then failing else failing ++ z ∷ [])

-- The loop that removes those.
unfoldable pub remove_failing : List ℕ → Bus → Bus
unfolding remove_connection
remove_failing [] b = b
remove_failing (z ∷ zs) b = remove_failing zs (remove_connection z b)

-- What a call did: the sinks and the connections that were given the event, in order. `threw`: a sink did,
-- or getUserInfo found no wire-schema.
pub record Dispatched : Type 0 where
  pub bus : Bus
  pub to_sinks : List ℕ
  pub to_connections : List ℕ
  pub threw : Bool

-- The connections other than the one that the event came from.
unfoldable pub others : ℕ → List ℕ → List ℕ
others origin [] = []
others origin (z ∷ zs) = let rest = others origin zs in if z == origin then rest else z ∷ rest

module _ {Uuid Payload : Type 0} (alive takes works : ℕ → Bool) where
  -- BusImpl::handle
  unfoldable pub handle_outgoing : Event Uuid Payload → Bus → Dispatched
  unfolding give_loop send_loop remove_failing
  handle_outgoing e b =
      let (sinks, threw) = give_loop takes (map_sinks alive e.scope b.sinks) in
      if threw
      then record { bus = b; to_sinks = sinks; to_connections = []; threw = true }
      else elim (get_user_info (bytes "rsb.wire-schema") e.meta_data) [
        | none ↦ record { bus = b; to_sinks = sinks; to_connections = []; threw = true }
        | some schema ↦
            let (given, failing) = send_loop works b.connections [] [] in
            record {
              bus = remove_failing failing b;
              to_sinks = sinks;
              to_connections = given;
              threw = false;
            }
      ]

  -- BusImpl::handleIncoming
  unfoldable pub handle_incoming : Event Uuid Payload → Bus → Dispatched
  unfolding give_loop
  handle_incoming e b =
      let (sinks, threw) = give_loop takes (map_sinks alive e.scope b.sinks) in
      record { bus = b; to_sinks = sinks; to_connections = []; threw = threw }

  -- BusServerImpl::handleIncoming. Without a wire-schema getUserInfo throws for each connection, which is
  -- caught there, so that none is given the event and each counts as failing.
  unfoldable pub serve_incoming : ℕ → Event Uuid Payload → Bus → Dispatched
  unfolding send_loop remove_failing handle_incoming others
  serve_incoming origin e b =
      let first = handle_incoming e b in
      let targets = others origin b.connections in
      if first.threw then first else elim (get_user_info (bytes "rsb.wire-schema") e.meta_data) [
        | none ↦ record first { bus = remove_failing targets b }
        | some schema ↦
            let (given, failing) = send_loop works targets [] [] in
            record first { bus = remove_failing failing b; to_connections = given }
      ]
