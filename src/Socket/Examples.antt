-- ===== src/Socket/Examples.antt =====
-- The theorems on the socket bus at concrete connections, buses and networks.
use rsb_cpp.Prelude.{
  ℕ, ◌≡◌, refl, ◌⊎◌, arith, Bool, true, false, not, List, [], ◌∷◌, none, some, ◌++◌, ◌≤◌, ◌==◌,
  Text, bytes, text_eq,
}
use rsb_cpp.Maps.{find}
use rsb_cpp.Event.{Event}
use rsb_cpp.Notification.Examples.{event, told}
use rsb_cpp.Scope.{super_scopes}
use rsb_cpp.Scope.Covers.{scope_ord}
use rsb_cpp.Scope.Hierarchy.{made}
use rsb_cpp.Scope.Examples.{a}
use rsb_cpp.ScopeDispatcher.Weak.{map_sinks, locked_sinks_of, lock}
use rsb_cpp.Socket.Framing.{frame}
use rsb_cpp.Socket.Connection.{
  Connection, refused, open_both, closed, nothing, read_length, World, Incoming, incoming,
  handle_read_length, receive_loop, shutdown, perform_safe_cleanup, disconnect, leave_bus,
}
use rsb_cpp.Socket.Receiving.{stream, receive_loop-stream, receive_loop_refused}
use rsb_cpp.Socket.Bus.{Bus, give_loop, others, handle_outgoing, handle_incoming, serve_incoming}
use rsb_cpp.Socket.Sending.{handle_outgoing-connections, serve_incoming-connections}
use rsb_cpp.Socket.Factory.{
  Factory, Network, server_auto, get_bus, get_bus_server_for, search_in_map, endpoint_ord,
}
use rsb_cpp.Socket.Sharing.{Suits, get_bus-Suits}
use rsb_cpp.Socket.Server.{
  ServerState, spinning, stopped, under_way, continuing, connected, accept_error, Reachable, starts,
  goes_on, activates, accepts, begins, new_server, activate, accept_one, complete_accept,
  test_shutdown, handle_accept, begin_deactivate,
}
use rsb_cpp.Socket.Server.Shutdown.{
  IsConsistent, Reachable-IsConsistent, accept_steps, shutdown_ends,
}

abbrev fine : World
fine = record {
  bus_alive = true;
  shutdown_works = true;
  close_works = true;
  write_works = true;
  bus_takes = λ i. true;
}

-- A sink throws for the event behind the first two.
abbrev refusing : World
refusing = record fine { bus_takes = λ i. not (i == 2) }

-- A connection that waits for a message; an event is the bytes of its message here.
abbrev waiting : Connection Text
waiting = record {
  active_shutdown = false;
  disconnecting = false;
  socket = open_both;
  pending = read_length;
  on_bus = true;
  written = [];
  dispatched = [];
}

abbrev as_event : ℕ → Text → Incoming Text
as_event i message = incoming message

abbrev two : List (Text × Text)
two = (bytes "first", bytes "first") ∷ (bytes "", bytes "") ∷ []

receive_loop-stream_example : receive_loop as_event fine 5 (stream as_event two) waiting ≡ (
  record waiting {
    active_shutdown = true;
    disconnecting = true;
    socket = closed;
    pending = nothing;
    on_bus = false;
    dispatched = bytes "first" ∷ bytes "" ∷ [];
  },
  none,
)
unfolding handle_read_length shutdown perform_safe_cleanup disconnect leave_bus
receive_loop-stream_example =
    receive_loop-stream as_event two 5 fine waiting (omega arith) refl refl
      (omega arith, refl, refl, (omega arith, refl, refl, tt))

receive_loop_refused_example :
    receive_loop as_event refusing 7
      (stream as_event two ++ (frame (bytes "third") ++ bytes "and more"))
      waiting
    ≡ (
      record waiting {
        pending = nothing;
        dispatched = bytes "first" ∷ bytes "" ∷ bytes "third" ∷ [];
      },
      some refused,
    )
receive_loop_refused_example =
    receive_loop_refused as_event two (bytes "third") (bytes "third") (bytes "and more") 7 refusing
      waiting (omega arith) refl refl (omega arith, refl, refl, (omega arith, refl, refl, tt))
      (omega arith) refl refl

abbrev three : Bus
three = record {
  sinks = record { sinks = (made a, 8 ∷ 9 ∷ []) ∷ [] };
  connections = 1 ∷ 2 ∷ 3 ∷ [];
  tcpnodelay = true;
}

abbrev works : ℕ → Bool
works z = not (z == 2)

abbrev alive : ℕ → Bool
alive z = true

-- An event as it comes from a connector.
abbrev sent : Event Text ℕ
sent = record event {
  meta_data = record told { user_infos = (bytes "rsb.wire-schema", bytes "utf-8-string") ∷ [] };
}

handle_outgoing-connections_example :
    ((handle_outgoing alive alive works sent three).to_connections ≡ 1 ∷ 2 ∷ 3 ∷ [])
    × ((handle_outgoing alive alive works sent three).bus.connections ≡ 1 ∷ 3 ∷ [])
    × ((handle_outgoing alive alive works sent three).threw ≡ false)
unfolding find text_eq super_scopes map_sinks locked_sinks_of lock
handle_outgoing-connections_example =
    handle_outgoing-connections alive alive works sent three (bytes "utf-8-string") refl

serve_incoming-connections_example :
    ((serve_incoming alive alive works 1 sent three).to_connections ≡ 2 ∷ 3 ∷ [])
    × ((serve_incoming alive alive works 1 sent three).bus.connections ≡ 1 ∷ 3 ∷ [])
    × ((serve_incoming alive alive works 1 sent three).threw ≡ false)
unfolding find text_eq super_scopes map_sinks locked_sinks_of lock
serve_incoming-connections_example =
    serve_incoming-connections alive alive works 1 sent three (bytes "utf-8-string") refl

-- With a sink that throws nothing is relayed.
refused_relay : (serve_incoming alive (λ x. not (x == 8)) works 1 sent three).to_connections ≡ []
unfolding find text_eq super_scopes map_sinks locked_sinks_of lock serve_incoming handle_incoming
    give_loop others
refused_relay = refl

abbrev network : Network
network = record {
  alive = alive;
  tcpnodelay = alive;
  resolve = λ host. (host, true) ∷ [];
  can_listen = λ port. true;
  fresh = 7;
}

abbrev unused : Factory
unused = record { clients = []; servers = [] }

abbrev localhost : Text
localhost = bytes "localhost"

get_bus-Suits_example : (◌≡◌ {A = ℕ} 7 7) ⊎ Suits network true 7
unfolding get_bus get_bus_server_for search_in_map find
get_bus-Suits_example = get_bus-Suits network true server_auto localhost 55555 unused 7 refl

abbrev stopping : ServerState
stopping = record (new_server true) {
  active = true;
  accepting = under_way;
  shutdown = true;
  stage = spinning;
}

-- deactivate sets the flag between the test of handleAccept and its next acceptOne.
abbrev raced : ServerState
raced = record stopping { accepting = continuing; connections = 5 ∷ [] }

stopping-Reachable : Reachable stopping
unfolding activate accept_one begin_deactivate
stopping-Reachable =
    goes_on (activate (new_server true)) stopping
      (goes_on (new_server true) (activate (new_server true)) (starts true)
        (activates (new_server true) refl refl))
      (begins (activate (new_server true)) refl refl)

abbrev connecting : ServerState
connecting = handle_accept (connected 5) (activate (new_server true))

raced-Reachable : Reachable raced
unfolding activate accept_one begin_deactivate handle_accept complete_accept test_shutdown
raced-Reachable =
    let first : ServerState = activate (new_server true) in
    let tested : ServerState = handle_accept accept_error connecting in
    goes_on tested raced
      (goes_on connecting tested
        (goes_on first connecting
          (goes_on (new_server true) first (starts true) (activates (new_server true) refl refl))
          (accepts first (connected 5)))
        (accepts connecting accept_error))
      (begins tested refl refl)

Reachable-IsConsistent_example : IsConsistent raced
Reachable-IsConsistent_example = Reachable-IsConsistent raced raced-Reachable

shutdown_ends_example :
    (k : ℕ) × (k ≤ 4)
    × ((accept_steps k (connected 6) raced).shutdown ≡ false)
    × ((accept_steps k (connected 6) raced).accepting ≡ stopped)
shutdown_ends_example = shutdown_ends raced (connected 6) raced-Reachable refl refl refl refl
