-- ===== src/Socket/Server/Shutdown.antt =====
-- src/rsb/transport/socket/BusServerImpl.cpp: the flags of a server at each stage, and the end of a shutdown.
use rsb_cpp.Prelude.{
  ℕ, zero, suc, ◌≤◌, ◌≡◌, refl, arith, Bool, true, false, not, ◌&&◌, if◌then◌else◌,
}
use rsb_cpp.Socket.Server.{
  Stage, idle, spinning, draining, Accepting, stopped, under_way, handling, continuing, resetting,
  dead, ServerState, Completion, connected, accept_error, constructor_throws, is_thrown, activate,
  accept_one, complete_accept, test_shutdown, reset_shutdown, handle_accept, begin_deactivate,
  end_deactivate, remove_client, Step, activates, accepts, disconnects, begins, leaves, ends,
  Reachable, starts, goes_on,
}

abbrev pub is_stopped : Accepting → Bool
is_stopped stopped = true
is_stopped _ = false

abbrev pub is_resetting : Accepting → Bool
is_resetting resetting = true
is_resetting _ = false

abbrev pub is_dead : Accepting → Bool
is_dead dead = true
is_dead _ = false

-- What the flags can be at each stage: active, shutdown, whether accepting is stopped, whether it is at
-- the reset.
abbrev pub expected : Stage → Bool → Bool → Bool → Bool → Bool
expected idle active shutdown ended closing =
    not shutdown && (if active then not ended && not closing else ended)
expected spinning active shutdown ended closing = active && (if shutdown then not ended else ended)
expected draining active shutdown ended closing = active && not shutdown && ended

abbrev pub flags_fit : Stage → Bool → Bool → Accepting → Bool
flags_fit stage active shutdown a = expected stage active shutdown (is_stopped a) (is_resetting a)

abbrev pub IsConsistent : ServerState → Type 0
IsConsistent s = flags_fit s.stage s.active s.shutdown s.accepting ≡ true

-- For any place that accepting is at, and the same of the other fields.
accepted-IsConsistent :
    (a : Accepting) (completion : Completion) (s : ServerState)
    → IsConsistent (record s { accepting = a })
    → IsConsistent (handle_accept completion (record s { accepting = a }))
unfolding handle_accept complete_accept test_shutdown accept_one reset_shutdown
accepted-IsConsistent stopped completion s c = c
accepted-IsConsistent under_way (connected z) s c = c
accepted-IsConsistent under_way accept_error s c = c
accepted-IsConsistent under_way constructor_throws s c = c
accepted-IsConsistent handling completion s c = by_stage s.stage s.active s.shutdown c
  where
    by_stage :
        (stage : Stage) (active shutdown : Bool)
        → flags_fit stage active shutdown handling ≡ true
        → flags_fit stage active shutdown (if not shutdown then continuing else resetting) ≡ true
    by_stage idle active true h = cc
    by_stage idle active false h = h
    by_stage spinning active true h = h
    by_stage spinning active false h = ground arith
    by_stage draining active shutdown h = ground arith
accepted-IsConsistent continuing completion s c = c
accepted-IsConsistent resetting completion s c = by_stage s.stage s.active s.shutdown c
  where
    by_stage :
        (stage : Stage) (active shutdown : Bool)
        → flags_fit stage active shutdown resetting ≡ true
        → flags_fit stage active false stopped ≡ true
    by_stage idle active shutdown h = ground arith
    by_stage spinning active shutdown h = ground arith
    by_stage draining active shutdown h = ground arith
accepted-IsConsistent dead completion s c = c

Step-IsConsistent : (s t : ServerState) → Step s t → IsConsistent s → IsConsistent t
unfolding activate accept_one begin_deactivate end_deactivate remove_client
Step-IsConsistent s t (activates _ h k) c = ground arith
Step-IsConsistent s t (accepts _ completion) c = accepted-IsConsistent s.accepting completion s c
Step-IsConsistent s t (disconnects _ z) c = c
Step-IsConsistent s t (begins _ h k) c = ground arith
Step-IsConsistent s t (leaves _ h k) c = ground arith
Step-IsConsistent s t (ends _ h k) c = ground arith

-- In every state that a server reaches whose callers call activate only while it is not active, and
-- deactivate only while it is and one at a time: outside deactivate, shutdown is not set, and while the server is
-- active an accept is under way, or handled and not at the reset, or an exception has left the handler,
-- and otherwise accepting is stopped; at the busy wait accepting is stopped exactly when shutdown is not
-- set; and behind it shutdown is not set and accepting is stopped.
pub Reachable-IsConsistent : (s : ServerState) → Reachable s → IsConsistent s
Reachable-IsConsistent s (starts waits) = refl
Reachable-IsConsistent s (goes_on r t h k) = Step-IsConsistent r s k (Reachable-IsConsistent r h)

-- That many steps of accepting, each accept of which completes like that.
abbrev pub accept_steps : ℕ → Completion → ServerState → ServerState
accept_steps zero completion s = s
accept_steps (suc k) completion s = accept_steps k completion (handle_accept completion s)

abbrev Finishes : Completion → ServerState → Type 0
Finishes completion s =
    (k : ℕ) × (k ≤ 4)
    × ((accept_steps k completion s).shutdown ≡ false)
    × ((accept_steps k completion s).accepting ≡ stopped)

accept_steps-Finishes :
    (a : Accepting) (completion : Completion) (s : ServerState)
    → s.shutdown ≡ true
    → is_thrown completion ≡ false
    → is_stopped a ≡ false
    → is_dead a ≡ false
    → Finishes completion (record s { accepting = a })
unfolding handle_accept complete_accept test_shutdown accept_one reset_shutdown
accept_steps-Finishes stopped completion s h quiet moving alive = cc
accept_steps-Finishes under_way (connected z) s h quiet moving alive =
    (3, omega arith, rw h refl, rw h refl)
accept_steps-Finishes under_way accept_error s h quiet moving alive =
    (3, omega arith, rw h refl, rw h refl)
accept_steps-Finishes under_way constructor_throws s h quiet moving alive = cc
accept_steps-Finishes handling completion s h quiet moving alive =
    (2, omega arith, rw h refl, rw h refl)
accept_steps-Finishes continuing (connected z) s h quiet moving alive =
    (4, omega arith, rw h refl, rw h refl)
accept_steps-Finishes continuing accept_error s h quiet moving alive =
    (4, omega arith, rw h refl, rw h refl)
accept_steps-Finishes continuing constructor_throws s h quiet moving alive = cc
accept_steps-Finishes resetting completion s h quiet moving alive = (1, omega arith, refl, refl)
accept_steps-Finishes dead completion s h quiet moving alive = cc

-- In a server whose callers call activate only while it is not active, and deactivate only while it is and
-- one at a time: while deactivate waits for the end of the shutdown, and no exception has left
-- handleAccept, at most four steps of accepting in a row reset shutdown, which ends the wait, and leave
-- no accept under way. The accept that has to complete on the way is taken to do so, with a connection
-- or an error and without an exception.
pub shutdown_ends :
    (s : ServerState) (completion : Completion)
    → Reachable s
    → s.stage ≡ spinning
    → s.shutdown ≡ true
    → is_dead s.accepting ≡ false
    → is_thrown completion ≡ false
    → (k : ℕ) × (k ≤ 4)
      × ((accept_steps k completion s).shutdown ≡ false)
      × ((accept_steps k completion s).accepting ≡ stopped)
shutdown_ends s completion r waits h alive quiet =
    let c = Reachable-IsConsistent s r in
    let moving : is_stopped s.accepting ≡ false = let c' = rw (waits, h) at c in ground arith in
    accept_steps-Finishes s.accepting completion s h quiet moving alive
