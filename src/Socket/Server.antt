-- ===== src/Socket/Server.antt =====
-- src/rsb/transport/socket/BusServerImpl.cpp: accepting connections and shutting down. The thread that
-- runs handleAccept and the one that runs deactivate take turns between any two of their accesses to
-- the flag of the shutdown.
pub mod Shutdown
use rsb_cpp.Prelude.{
  ℕ, ◌≡◌, Bool, true, false, not, ◌&&◌, List, [], ◌∷◌, ◌++◌, if◌then◌else◌, is_empty,
}
use rsb_cpp.Socket.Bus.{remove_all}

-- Where the thread is that runs deactivate: not in it, at the busy wait, or behind that.
pub data Stage : Type 0 where
  idle spinning draining : Stage

-- Where accepting is: no accept is under way; one is; handleAccept is at the test of the shutdown, behind it
-- at the next acceptOne or at the reset; or an exception has left handleAccept.
pub data Accepting : Type 0 where
  stopped under_way handling continuing resetting dead : Accepting

pub record ServerState : Type 0 where
  pub connections : List ℕ
  pub active : Bool
  pub shutdown : Bool
  pub wait_for_client_disconnects : Bool
  pub accepting : Accepting
  pub stage : Stage

-- BusServerImpl::BusServerImpl
abbrev pub new_server : Bool → ServerState
new_server waits = record {
  connections = [];
  active = false;
  shutdown = false;
  wait_for_client_disconnects = waits;
  accepting = stopped;
  stage = idle;
}

unfoldable pub accept_one : ServerState → ServerState
accept_one s = record s { accepting = under_way }

unfoldable pub activate : ServerState → ServerState
unfolding accept_one
activate s = record (accept_one s) { active = true }

-- What an accept ends with: a connection, an error, or a connection whose constructor throws, for the
-- option of the socket or for the handshake.
pub data Completion : Type 0 where
  connected : ℕ → Completion
  accept_error : Completion
  constructor_throws : Completion

abbrev pub is_thrown : Completion → Bool
is_thrown constructor_throws = true
is_thrown _ = false

-- handleAccept up to the test of the shutdown.
unfoldable pub complete_accept : Completion → ServerState → ServerState
complete_accept (connected z) s = record s {
  connections = s.connections ++ z ∷ [];
  accepting = handling;
}
complete_accept accept_error s = record s { accepting = handling }
complete_accept constructor_throws s = record s { accepting = dead }

-- `if (!this->shutdown)`
unfoldable pub test_shutdown : ServerState → ServerState
test_shutdown s = record s { accepting = if not s.shutdown then continuing else resetting }

-- `this->shutdown = false`
unfoldable pub reset_shutdown : ServerState → ServerState
reset_shutdown s = record s { shutdown = false; accepting = stopped }

-- What comes next of an accept and of handleAccept, if the accept completes like that.
unfoldable pub handle_accept : Completion → ServerState → ServerState
unfolding complete_accept test_shutdown accept_one reset_shutdown
handle_accept completion s = elim s.accepting [
  | stopped ↦ s
  | under_way ↦ complete_accept completion s
  | handling ↦ test_shutdown s
  | continuing ↦ accept_one s
  | resetting ↦ reset_shutdown s
  | dead ↦ s
]

-- deactivate up to the busy wait, which the cancelled accept is to end; and its last lines.
unfoldable pub begin_deactivate : ServerState → ServerState
begin_deactivate s = record s { shutdown = true; stage = spinning }

unfoldable pub end_deactivate : ServerState → ServerState
end_deactivate s = record s { active = false; stage = idle }

unfoldable pub remove_client : ℕ → ServerState → ServerState
unfolding remove_all
remove_client z s = record s { connections = remove_all z s.connections }

-- The steps of the threads, in any order. The source does not test that activate is called on a server that
-- is not active, and deactivate on one that is and by one thread only; its callers keep to that.
pub data Step : ServerState → ServerState → Type 0 where
  activates : (s : ServerState) → s.stage ≡ idle → s.active ≡ false → Step s (activate s)
  accepts : (s : ServerState) (completion : Completion) → Step s (handle_accept completion s)
  disconnects : (s : ServerState) (z : ℕ) → Step s (remove_client z s)
  begins : (s : ServerState) → s.stage ≡ idle → s.active ≡ true → Step s (begin_deactivate s)
  leaves :
      (s : ServerState)
      → s.stage ≡ spinning
      → s.shutdown ≡ false
      → Step s (record s { stage = draining })
  ends :
      (s : ServerState)
      → s.stage ≡ draining
      → (s.wait_for_client_disconnects && not (is_empty s.connections)) ≡ false
      → Step s (end_deactivate s)

pub data Reachable : ServerState → Type 0 where
  starts : (waits : Bool) → Reachable (new_server waits)
  goes_on : (s t : ServerState) → Reachable s → Step s t → Reachable t
