-- ===== src/Socket/Receiving.antt =====
-- What a connection makes of the stream of its peer, and how it ends.
use rsb_cpp.Prelude.{
  ℕ, zero, suc, ◌+◌, ◌*◌, ◌<◌, ◌^◌, ◌≡◌, refl, ap, sym, ◌∙◌, arith, Bool, true, false, not, ◌&&◌,
  ◌||◌, List, [], ◌∷◌, ◌++◌, Option, none, some, leb, ◌==◌, if◌then◌else◌, length, take, drop, Text,
  append_assoc, append-nil, Bool-cases, inl, inr, length-append,
}
use mathlib.Core.Path.{subst}
use rsb_cpp.Socket.Framing.{frame, encode_length, decode_length, decode_length-encode_length}
use rsb_cpp.Socket.Connection.{
  Connection, ReceiveError, refused, stops, nothing, read_length, read_body, ReadError, success,
  eof, failure, World, Incoming, incoming, shutdown, disconnect, leave_bus, perform_safe_cleanup,
  receive_event, handle_read_length, handle_read_body, dispatch, complete, after_body, goes_on,
  receive_loop, failed,
}

take-append : {A : Type 0} (xs ys : List A) → take (length xs) (xs ++ ys) ≡ xs
take-append [] [] = refl
take-append [] (y ∷ ys) = refl
take-append (x ∷ xs) ys = ap (◌∷◌ x) (take-append xs ys)

drop-append : {A : Type 0} (xs ys : List A) → drop (length xs) (xs ++ ys) ≡ ys
drop-append [] [] = refl
drop-append [] (y ∷ ys) = refl
drop-append (x ∷ xs) ys = drop-append xs ys

fits-append : {A : Type 0} (xs ys : List A) → leb (length xs) (length (xs ++ ys)) ≡ true
fits-append xs ys = ground (arith, length-append xs ys)

module _ {E : Type 0} (read_message : ℕ → Text → Incoming E) where
  -- The bytes that the peer writes for these messages.
  abbrev pub stream : List (Text × E) → Text
  stream [] = []
  stream ((m, e) ∷ ms) = frame m ++ stream ms

  -- Each message is short enough for its header, is that event, and the bus takes it without an
  -- exception; i is the number of the first.
  abbrev pub IsReadable : World → ℕ → List (Text × E) → Type 0
  IsReadable w i [] = Unit
  IsReadable w i ((m, e) ∷ ms) =
      (length m < 2 ^ 32)
      × (read_message i m ≡ incoming e)
      × (w.bus_takes i ≡ true)
      × IsReadable w (suc i) ms

  abbrev pub events : List (Text × E) → List E
  events [] = []
  events ((m, e) ∷ ms) = e ∷ events ms

  abbrev loop : World → ℕ → Text → Connection E → Connection E × Option ReceiveError
  loop w = receive_loop read_message w

  loop-goes_on :
      (w : World) (fuel : ℕ) (input rest : Text) (c d : Connection E)
      → complete read_message w c.pending input c ≡ goes_on rest d
      → loop w (suc fuel) input c ≡ loop w fuel rest d
  unfolding receive_loop
  loop-goes_on w fuel input rest c d h = rw (receive_loop, h) refl

  complete-header :
      (w : World) (m rest : Text) (c : Connection E)
      → length m < 2 ^ 32
      → complete read_message w read_length (frame m ++ rest) c
        ≡ goes_on (m ++ rest) (record c { pending = read_body (length m) })
  unfolding complete handle_read_length encode_length decode_length
  complete-header w m rest c short =
      let size : decode_length (encode_length (length m)) ≡ length m =
        decode_length-encode_length (length m) ∙ omega arith in
      let long : leb 4 (length (frame m ++ rest)) ≡ true = ground arith in
      rw long (ap (λ n. goes_on (m ++ rest) (record c { pending = read_body n })) size)

  read_body_one :
      (w : World) (m : Text) (e : E) (c : Connection E)
      → w.bus_alive ≡ true
      → read_message (length c.dispatched) m ≡ incoming e
      → w.bus_takes (length c.dispatched) ≡ true
      → handle_read_body (read_message (length c.dispatched)) w success (length m) (length m) m c
        ≡ (record c { pending = read_length; dispatched = c.dispatched ++ e ∷ [] }, none)
  unfolding handle_read_body dispatch receive_event
  read_body_one w m e c alive read takes =
      let same : (length m == length m) ≡ true = ground arith in rw (same, read, alive, takes) refl

  complete-body :
      (w : World) (m : Text) (e : E) (rest : Text) (c : Connection E)
      → w.bus_alive ≡ true
      → read_message (length c.dispatched) m ≡ incoming e
      → w.bus_takes (length c.dispatched) ≡ true
      → complete read_message w (read_body (length m)) (m ++ rest) c
        ≡ goes_on rest (record c { pending = read_length; dispatched = c.dispatched ++ e ∷ [] })
  unfolding complete after_body
  complete-body w m e rest c alive read takes =
      rw (fits-append m rest, take-append m rest, drop-append m rest)
        (ap (after_body read_message w rest) (read_body_one w m e c alive read takes))

  -- The header and the body of one message take two rounds.
  receive_one :
      (fuel : ℕ) (w : World) (m : Text) (e : E) (rest : Text) (c : Connection E)
      → w.bus_alive ≡ true
      → c.pending ≡ read_length
      → length m < 2 ^ 32
      → read_message (length c.dispatched) m ≡ incoming e
      → w.bus_takes (length c.dispatched) ≡ true
      → loop w (suc (suc fuel)) (frame m ++ rest) c
        ≡ loop w fuel rest (record c { dispatched = c.dispatched ++ e ∷ [] })
  receive_one fuel w m e rest c alive p short read takes =
      let asked : Connection E = record c { pending = read_body (length m) } in
      loop-goes_on w (suc fuel) (frame m ++ rest) (m ++ rest) c asked (
        ap (λ q. complete read_message w q (frame m ++ rest) c) p
        ∙ complete-header w m rest c short)
      ∙ loop-goes_on w fuel (m ++ rest) rest asked
          (record c { pending = read_length; dispatched = c.dispatched ++ e ∷ [] })
          (complete-body w m e rest asked alive read takes)
      ∙ ap (λ q. loop w fuel rest (record c { pending = q; dispatched = c.dispatched ++ e ∷ [] }))
          (sym p)

module _ {E : Type 0} where
  perform_safe_cleanup_lem :
      (w : World) (c : Connection E)
      → ((perform_safe_cleanup w c).pending ≡ c.pending)
        × ((perform_safe_cleanup w c).disconnecting ≡ true)
        × ((perform_safe_cleanup w c).on_bus ≡ (not w.bus_alive && c.on_bus))
  unfolding perform_safe_cleanup leave_bus disconnect
  perform_safe_cleanup_lem w c = (ground arith, ground arith, ground arith)

  shutdown_lem :
      (w : World) (c : Connection E)
      → ((shutdown w c).0.pending ≡ c.pending) × ((shutdown w c).0.on_bus ≡ c.on_bus)
  unfolding shutdown
  shutdown_lem w c = (ground arith, ground arith)

  abbrev shut_once : Bool → World → Connection E → Connection E
  shut_once b w c = if b then c else (shutdown w c).0

  shut_once_lem :
      (b : Bool) (w : World) (c : Connection E)
      → ((shut_once b w c).pending ≡ c.pending) × ((shut_once b w c).on_bus ≡ c.on_bus)
  shut_once_lem true w c = (refl, refl)
  shut_once_lem false w c = shutdown_lem w c

  abbrev IsOver : World → Bool → Connection E → Type 0
  IsOver w listed c =
      (c.pending ≡ nothing) × (c.disconnecting ≡ true) × (c.on_bus ≡ (not w.bus_alive && listed))

  cleanup-IsOver :
      (w : World) (c : Connection E)
      → c.pending ≡ nothing
      → IsOver w c.on_bus (perform_safe_cleanup w c)
  cleanup-IsOver w c h = let (p, d, b) = perform_safe_cleanup_lem w c in (p ∙ h, d, b)

  -- A read of the header that fails, whatever is wrong with it, ends the connection: no read is under
  -- way any more, the connection counts as disconnecting, and it has left the bus if that still exists,
  -- and is listed as before if not.
  pub handle_read_length_fails :
      (w : World) (error : ReadError) (n : ℕ) (buffer : Text) (c : Connection E)
      → (failed error || not (n == 4)) ≡ true
      → ((handle_read_length w error n buffer c).pending ≡ nothing)
        × ((handle_read_length w error n buffer c).disconnecting ≡ true)
        × ((handle_read_length w error n buffer c).on_bus ≡ (not w.bus_alive && c.on_bus))
  unfolding handle_read_length
  handle_read_length_fails w failure n buffer c h =
      cleanup-IsOver w (record c { pending = nothing }) refl
  handle_read_length_fails w success n buffer c h = elim (Bool-cases (n == 4)) [
    | inl e ↦ let h' = rw e at h in cc
    | inr e ↦ rw e (cleanup-IsOver w (record c { pending = nothing }) refl)
  ]
  handle_read_length_fails w eof n buffer c h =
      let d : Connection E = record c { pending = nothing } in
      let (p, o) = shut_once_lem c.active_shutdown w d in
      let (q, x, y) = cleanup-IsOver w (shut_once c.active_shutdown w d) p in
      (q, x, y ∙ ap (λ b. not w.bus_alive && b) o)

module _ {E : Type 0} (read_message : ℕ → Text → Incoming E) where
  complete-empty :
      (w : World) (c : Connection E)
      → complete read_message w read_length [] c ≡ goes_on [] (handle_read_length w eof 0 [] c)
  unfolding complete
  complete-empty w c = refl

  at_end :
      (fuel : ℕ) (w : World) (c : Connection E)
      → c.pending ≡ nothing
      → receive_loop read_message w fuel [] c ≡ (c, none)
  unfolding receive_loop complete
  at_end zero w c h = refl
  at_end (suc fuel) w c h = rw (receive_loop, h) refl

  -- While the bus exists, a connection that waits for a message and reads a stream of whole messages,
  -- each short enough for its header and readable as an event that the bus takes without an exception,
  -- to its end dispatches the event of each, in their order, and then handles the end of the stream.
  -- More rounds than twice the number of messages are enough.
  pub receive_loop-stream :
      (ms : List (Text × E)) (fuel : ℕ) (w : World) (c : Connection E)
      → 2 * length ms < fuel
      → w.bus_alive ≡ true
      → c.pending ≡ read_length
      → IsReadable read_message w (length c.dispatched) ms
      → receive_loop read_message w fuel (stream read_message ms) c ≡ (
        handle_read_length w eof 0 []
            (record c { dispatched = c.dispatched ++ events read_message ms }),
        none,
      )
  receive_loop-stream ms zero w c more alive p readable = ground arith
  receive_loop-stream [] (suc fuel) w c more alive p readable =
      let over = handle_read_length_fails w eof 0 [] c refl in
      loop-goes_on read_message w fuel [] [] c (handle_read_length w eof 0 [] c)
        (ap (λ q. complete read_message w q [] c) p ∙ complete-empty w c)
      ∙ at_end fuel w (handle_read_length w eof 0 [] c) over.0
      ∙ ap (λ d. (handle_read_length w eof 0 [] (record c { dispatched = d }), none))
          (sym (append-nil c.dispatched))
  receive_loop-stream ((m, e) ∷ ms) (suc zero) w c more alive p readable = ground arith
  receive_loop-stream ((m, e) ∷ ms) (suc (suc fuel)) w c more alive p (short, read, takes, rest) =
      let next : Connection E = record c { dispatched = c.dispatched ++ e ∷ [] } in
      let count : suc (length c.dispatched) ≡ length (c.dispatched ++ e ∷ []) =
        omega (arith, length-append c.dispatched (e ∷ [])) in
      receive_one read_message fuel w m e (stream read_message ms) c alive p short read takes
      ∙ receive_loop-stream ms fuel w next (omega arith) alive p
          (subst (λ k. IsReadable read_message w k ms) count rest)
      ∙ ap (λ d. (handle_read_length w eof 0 [] (record c { dispatched = d }), none))
          (append_assoc c.dispatched (e ∷ []) (events read_message ms))

  zero_right : (c : Connection E) → length c.dispatched + 0 ≡ length c.dispatched
  zero_right c = omega arith

  loop-stops :
      (w : World) (fuel : ℕ) (input : Text) (c d : Connection E) (x : Option ReceiveError)
      → complete read_message w c.pending input c ≡ stops d x
      → receive_loop read_message w (suc fuel) input c ≡ (d, x)
  unfolding receive_loop
  loop-stops w fuel input c d x h = rw (receive_loop, h) refl

  body_refused :
      (w : World) (m : Text) (e : E) (later : Text) (c : Connection E)
      → w.bus_alive ≡ true
      → read_message (length c.dispatched) m ≡ incoming e
      → w.bus_takes (length c.dispatched) ≡ false
      → complete read_message w (read_body (length m)) (m ++ later) c
        ≡ stops (record c { pending = nothing; dispatched = c.dispatched ++ e ∷ [] }) (some refused)
  unfolding complete after_body handle_read_body dispatch
  body_refused w m e later c alive read refuses =
      let same : (length m == length m) ≡ true = ground arith in
      let handled : handle_read_body (read_message (length c.dispatched)) w success (length m)
            (length m) m c
          ≡ (record c { pending = nothing; dispatched = c.dispatched ++ e ∷ [] }, some refused) =
        rw (handle_read_body, same, read, alive, refuses) refl in
      rw (fits-append m later, take-append m later, drop-append m later)
        (ap (after_body read_message w later) handled)

  receive_refused :
      (fuel : ℕ) (w : World) (m : Text) (e : E) (later : Text) (c : Connection E)
      → w.bus_alive ≡ true
      → c.pending ≡ read_length
      → length m < 2 ^ 32
      → read_message (length c.dispatched) m ≡ incoming e
      → w.bus_takes (length c.dispatched) ≡ false
      → receive_loop read_message w (suc (suc fuel)) (frame m ++ later) c
        ≡ (record c { pending = nothing; dispatched = c.dispatched ++ e ∷ [] }, some refused)
  receive_refused fuel w m e later c alive p short read refuses =
      let asked : Connection E = record c { pending = read_body (length m) } in
      loop-goes_on read_message w (suc fuel) (frame m ++ later) (m ++ later) c asked (
        ap (λ q. complete read_message w q (frame m ++ later) c) p
        ∙ complete-header read_message w m later c short)
      ∙ loop-stops w fuel (m ++ later) asked
          (record c { pending = nothing; dispatched = c.dispatched ++ e ∷ [] }) (some refused)
          (body_refused w m e later asked alive read refuses)

  -- While the bus exists, the first event that the bus does not take stops a connection that has read the
  -- messages before it, each readable and taken, whatever comes behind it: all these events and that one
  -- have been dispatched, the exception leaves the handler, and no further read is under way, though the
  -- connection stays on the bus with its socket as it was.
  pub receive_loop_refused :
      (ms : List (Text × E)) (m : Text) (e : E) (later : Text) (fuel : ℕ) (w : World)
      (c : Connection E)
      → 2 * length ms + 1 < fuel
      → w.bus_alive ≡ true
      → c.pending ≡ read_length
      → IsReadable read_message w (length c.dispatched) ms
      → length m < 2 ^ 32
      → read_message (length c.dispatched + length ms) m ≡ incoming e
      → w.bus_takes (length c.dispatched + length ms) ≡ false
      → receive_loop read_message w fuel (stream read_message ms ++ (frame m ++ later)) c ≡ (
        record c {
          pending = nothing;
          dispatched = c.dispatched ++ (events read_message ms ++ e ∷ []);
        },
        some refused,
      )
  receive_loop_refused ms m e later zero w c more alive p readable short read refuses = ground arith
  receive_loop_refused ms m e later (suc zero) w c more alive p readable short read refuses =
      ground arith
  receive_loop_refused [] m e later (suc (suc fuel)) w c more alive p readable short read refuses =
      receive_refused fuel w m e later c alive p short (rw (← zero_right c) read)
        (rw (← zero_right c) refuses)
  receive_loop_refused ((n, d) ∷ ms) m e later (suc (suc fuel)) w c more alive p
        (fits, known, takes, rest) short read refuses =
      let next : Connection E = record c { dispatched = c.dispatched ++ d ∷ [] } in
      let count : suc (length c.dispatched) ≡ length (c.dispatched ++ d ∷ []) =
        omega (arith, length-append c.dispatched (d ∷ [])) in
      let behind : length c.dispatched + suc (length ms)
          ≡ length (c.dispatched ++ d ∷ []) + length ms =
        omega (arith, count) in
      ap (λ t. receive_loop read_message w (suc (suc fuel)) t c)
        (append_assoc (frame n) (stream read_message ms) (frame m ++ later))
      ∙ receive_one read_message fuel w n d (stream read_message ms ++ (frame m ++ later)) c alive p
          fits known takes
      ∙ receive_loop_refused ms m e later fuel w next (omega arith) alive p
          (subst (λ k. IsReadable read_message w k ms) count rest) short
          (subst (λ k. read_message k m ≡ incoming e) behind read)
          (subst (λ k. w.bus_takes k ≡ false) behind refuses)
      ∙ ap (λ t. (record c { pending = nothing; dispatched = t }, some refused))
          (append_assoc c.dispatched (d ∷ []) (events read_message ms ++ e ∷ []))
