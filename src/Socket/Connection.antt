-- ===== src/Socket/Connection.antt =====
-- src/rsb/transport/socket/BusConnection.cpp: the handlers of one connection. What the operating system
-- and the bus pointer answer during a call is the World of that call; `bus_takes i` says that
-- handleIncoming of the bus does not throw for the i-th event.
use rsb_cpp.Prelude.{
  ℕ, zero, suc, Bool, true, false, not, ◌||◌, List, [], ◌∷◌, ◌++◌, Option, none, some, leb, ◌==◌,
  if◌then◌else◌, length, take, drop, Text, ok, err,
}
use rsb_cpp.Maps.{Ord}
use rsb_cpp.Scope.{SyntaxError}
use rsb_cpp.Event.{Event}
use rsb_cpp.Notification.{Notification, blank, event_to_notification, notification_to_event}
use rsb_cpp.Socket.Framing.{frame, decode_length}

-- A socket is open until it is closed; shut down, it still receives.
pub data SocketState : Type 0 where
  open_both open_receive closed : SocketState

abbrev pub is_open : SocketState → Bool
is_open closed = false
is_open _ = true

-- The asynchronous read that is under way.
pub data Pending : Type 0 where
  nothing read_length : Pending
  read_body : ℕ → Pending

-- The error code of a completed read.
pub data ReadError : Type 0 where
  success eof failure : ReadError

pub record World : Type 0 where
  pub bus_alive : Bool
  pub shutdown_works : Bool
  pub close_works : Bool
  pub write_works : Bool
  pub bus_takes : ℕ → Bool

-- `on_bus`: the bus lists the connection. `written`: the bytes that went out. `dispatched`: the events
-- given to handleIncoming of the bus.
pub record Connection (E : Type 0) : Type 0 where
  pub active_shutdown : Bool
  pub disconnecting : Bool
  pub socket : SocketState
  pub pending : Pending
  pub on_bus : Bool
  pub written : Text
  pub dispatched : List E

abbrev pub failed : ReadError → Bool
failed success = false
failed _ = true

-- What leaves the handler of a body: the exception of notificationToEvent, or one of a sink of the bus.
pub data ReceiveError : Type 0 where
  illegal_scope : SyntaxError → ReceiveError
  refused : ReceiveError

-- What becomes of a message: ParseFromString fails, notificationToEvent throws, or an event.
pub data Incoming (E : Type 0) : Type 0 where
  unparseable : Incoming E
  rejected : SyntaxError → Incoming E
  incoming : E → Incoming E

-- The receiver stops, with what was thrown, or goes on with the rest of the bytes.
pub data Progress (E : Type 0) : Type 0 where
  stops : Connection E → Option ReceiveError → Progress E
  goes_on : Text → Connection E → Progress E

module _ {E : Type 0} where
  -- Whether the call throws is the second component.
  unfoldable pub shutdown : World → Connection E → Connection E × Bool
  shutdown w c =
      if is_open c.socket
      then (if w.shutdown_works
          then (record c { active_shutdown = true; socket = open_receive }, false)
          else (record c { active_shutdown = true }, true))
      else (record c { active_shutdown = true }, false)

  unfoldable pub disconnect : World → Connection E → Connection E × Bool
  disconnect w c =
      if is_open c.socket
      then (if w.close_works
          then (record c { disconnecting = true; socket = closed }, false)
          else (record c { disconnecting = true }, true))
      else (record c { disconnecting = true }, false)

  unfoldable pub leave_bus : World → Connection E → Connection E
  leave_bus w c = if w.bus_alive then record c { on_bus = false } else c

  unfoldable pub perform_safe_cleanup : World → Connection E → Connection E
  unfolding leave_bus disconnect
  perform_safe_cleanup w c =
      let left = leave_bus w c in if left.disconnecting then left else (disconnect w left).0

  -- receiveEvent and startReceiving
  unfoldable pub receive_event : Connection E → Connection E
  receive_event c = record c { pending = read_length }

  unfoldable pub handle_read_length : World → ReadError → ℕ → Text → Connection E → Connection E
  unfolding shutdown perform_safe_cleanup
  handle_read_length w eof transferred buffer c =
      let d = record c { pending = nothing } in
      perform_safe_cleanup w (if d.active_shutdown then d else (shutdown w d).0)
  handle_read_length w failure transferred buffer c =
      perform_safe_cleanup w (record c { pending = nothing })
  handle_read_length w success transferred buffer c =
      if transferred == 4
      then record c { pending = read_body (decode_length buffer) }
      else perform_safe_cleanup w (record c { pending = nothing })

  -- The rest of handleReadBody, with what the message is. An exception leaves the handler, and no read is
  -- started then.
  unfoldable pub dispatch : World → Incoming E → Connection E → Connection E × Option ReceiveError
  unfolding perform_safe_cleanup receive_event
  dispatch w unparseable c = (perform_safe_cleanup w c, none)
  dispatch w (rejected x) c = (c, some (illegal_scope x))
  dispatch w (incoming e) c =
      if w.bus_alive
      then (let given = record c { dispatched = c.dispatched ++ e ∷ [] } in
          if w.bus_takes (length c.dispatched)
          then (receive_event given, none)
          else (given, some refused))
      else (perform_safe_cleanup w c, none)

  unfoldable pub handle_read_body :
      (Text → Incoming E)
      → World
      → ReadError
      → ℕ
      → ℕ
      → Text
      → Connection E
      → Connection E × Option ReceiveError
  unfolding dispatch
  handle_read_body read_message w error transferred expected buffer c =
      let d = record c { pending = nothing } in
      if failed error || not (transferred == expected)
      then (perform_safe_cleanup w d, none)
      else dispatch w (read_message buffer) d

  -- The handlers on a stream of bytes that then ends: async_read completes when it has all bytes that
  -- it was asked for, or with eof and those that were left. `read_message i` is for the message that
  -- would be the i-th event.
  module _ (read_message : ℕ → Text → Incoming E) (w : World) where
    unfoldable pub after_body : Text → Connection E × Option ReceiveError → Progress E
    after_body input (c, none) = goes_on input c
    after_body input (c, some x) = stops c (some x)

    -- The completion of the read that is under way.
    unfoldable pub complete : Pending → Text → Connection E → Progress E
    unfolding handle_read_length handle_read_body after_body
    complete nothing input c = stops c none
    complete read_length input c =
        if leb 4 (length input)
        then goes_on (drop 4 input) (handle_read_length w success 4 (take 4 input) c)
        else goes_on [] (handle_read_length w eof (length input) input c)
    complete (read_body n) input c =
        let read = read_message (length c.dispatched) in
        if leb n (length input)
        then after_body (drop n input) (handle_read_body read w success n n (take n input) c)
        else after_body [] (handle_read_body read w eof (length input) n input c)

    -- It ends when no read is under way.
    unfoldable pub receive_loop : ℕ → Text → Connection E → Connection E × Option ReceiveError
    unfolding complete
    receive_loop zero input c = (c, none)
    receive_loop (suc fuel) input c = elim (complete c.pending input c) [
      | stops d x ↦ (d, x)
      | goes_on rest d ↦ receive_loop fuel rest d
    ]

-- What sendEvent throws: the event has no id, its payload pointer is null, or the write failed.
pub data SendError : Type 0 where
  no_id no_payload write_failed : SendError

module _ {Uuid E : Type 0} ⦃o : Ord Uuid⦄ (data_of : Uuid → Text)
    (serialize : Notification → Text) where
  -- A write that fails is taken as one that wrote nothing.
  unfoldable pub write_message : World → Text → Connection E → Connection E × Option SendError
  write_message w message c =
      if c.active_shutdown
      then (c, none)
      else if w.write_works
      then (record c { written = c.written ++ frame message }, none)
      else (c, some write_failed)

  unfoldable pub send_event :
      World → Event Uuid Text → Text → Connection E → Connection E × Option SendError
  unfolding write_message
  send_event w e schema c = elim e.content [
    | none ↦ (c, some no_payload)
    | some content ↦ elim (event_to_notification data_of blank e schema content) [
      | none ↦ (c, some no_id)
      | some n ↦ write_message w (serialize n) c
    ]
  ]

module _ {Uuid : Type 0} ⦃o : Ord Uuid⦄ (of_data : Text → Uuid) (nil : Uuid)
    (parse_message : Text → Option Notification) where
  -- What handleReadBody makes of the bytes of a message.
  unfoldable pub read_notification : (ℕ → ℕ) → Text → Incoming (Event Uuid Text)
  read_notification clock buffer = elim (parse_message buffer) [
    | none ↦ unparseable
    | some n ↦ elim (notification_to_event of_data nil clock n true) [
      | err x ↦ rejected x
      | ok e ↦ incoming e
    ]
  ]
