-- ===== src/Patterns/Correlation.antt =====
-- src/rsb/patterns/RemoteServer.cpp: the requests in progress and the futures that wait for them.
use rsb_cpp.Prelude.{
  ℕ, suc, Text, ◌≡◌, refl, ap, sym, ◌∙◌, arith, false, List, [], ◌∷◌, ◌++◌, none, some, bytes, ok,
  length, set, All, ◌==◌, Option-cases, inl, inr, Result-cases,
}
use mathlib.Core.Path.{subst}
use rsb_cpp.Maps.{Ord, Map, KeySet, find, insert, erase, find-All, insert-All, erase-All}
use rsb_cpp.Maps.Sorted.{IsSorted, insert-IsSorted, erase-IsSorted, insert_new}
use rsb_cpp.Maps.Values.{
  Distinct, length-erase, erase-Distinct, erase-other, insert-Distinct, length-insert,
}
use rsb_cpp.Event.{Event, EventId, event_id_ord, set_scope, set_method, set_id}
use rsb_cpp.Participation.Informer.{
  Informer, checked_publish, unchecked_publish, next_sequence_number,
}
use rsb_cpp.Patterns.Calls.{RemoteMethod, Outcome, pending, call, handle_reply, new_remote_method}
use rsb_cpp.Patterns.Settling.{settled, settle, settle_first, settle_reply, handle_reply-ok}
use rsb_cpp.Patterns.Futures.{
  is_pending, pendings, pendings-append, future, future-append_old, future-append_new, future-below,
  future-set_other, pendings-set,
}

module _ {Uuid Payload : Type 0} ⦃o : Ord Uuid⦄ where
  -- The requests in progress are in the order of their ids, and each waits for a future of its own that
  -- is not done; there are no other futures that are not done.
  pub record IsCorrelated (m : RemoteMethod Uuid Payload) : Type 0 where
    pub sorted : IsSorted m.inprogress
    pub live : All (λ e. future m.futures e.1 ≡ pending) m.inprogress
    pub distinct : Distinct m.inprogress
    pub counted : pendings m.futures ≡ length m.inprogress

  pub new_remote_method-IsCorrelated : (i : Informer Uuid) → IsCorrelated (new_remote_method i)
  new_remote_method-IsCorrelated i = record {
    sorted = tt;
    live = tt;
    distinct = tt;
    counted = refl;
  }

  -- The id of the next request.
  abbrev pub request_id : RemoteMethod Uuid Payload → EventId Uuid
  request_id m = record {
    participant_id = m.informer.id;
    sequence_number = m.informer.current_sequence_number;
  }

  -- The request as it is published.
  abbrev pub request : Event Uuid Payload → RemoteMethod Uuid Payload → Event Uuid Payload
  request e m =
      set_id m.informer.id m.informer.current_sequence_number
        (set_method (bytes "REQUEST") (set_scope m.informer.scope e))

  -- The state behind a call.
  abbrev pub called : RemoteMethod Uuid Payload → RemoteMethod Uuid Payload
  called m = record m {
    informer = (next_sequence_number m.informer).1;
    inprogress = insert_new (request_id m) (length m.futures) m.inprogress;
    futures = m.futures ++ pending ∷ [];
  }

  pub checked_publish-eq :
      (e : Event Uuid Payload) (i : Informer Uuid) {s : Event Uuid Payload × Informer Uuid}
      → checked_publish e i ≡ ok s
      → unchecked_publish e i ≡ s
  unfolding checked_publish
  checked_publish-eq e i done = ground arith

  pub call-eq :
      (e : Event Uuid Payload) (m : RemoteMethod Uuid Payload)
      {r : ℕ × Event Uuid Payload × RemoteMethod Uuid Payload}
      → call e m ≡ ok r
      → (length m.futures, request e m, called m) ≡ r
  unfolding call unchecked_publish next_sequence_number
  call-eq e m {r} done =
      let asked = set_method (bytes "REQUEST") (set_scope m.informer.scope e) in
      elim (Result-cases (checked_publish asked m.informer)) [
        | inl (x, h) ↦ let done' = rw h at done in cc
        | inr (s, h) ↦
            let done' = rw (h, ← checked_publish-eq asked m.informer h) at done in ground arith
      ]

  live-append :
      (xs : List (Outcome Uuid Payload)) (p : Map (EventId Uuid) ℕ)
      → All (λ e. future xs e.1 ≡ pending) p
      → All (λ e. future (xs ++ pending ∷ []) e.1 ≡ pending) p
  live-append xs [] h = tt
  live-append xs (e ∷ p) h = (future-append_old xs pending e.1 h.0, live-append xs p h.1)

  live-new :
      (xs : List (Outcome Uuid Payload)) (p : Map (EventId Uuid) ℕ)
      → All (λ e. future xs e.1 ≡ pending) p
      → All (λ e. (e.1 == length xs) ≡ false) p
  live-new xs [] h = tt
  live-new xs (e ∷ p) h = (future-below xs e.1 h.0, live-new xs p h.1)

  pub called-IsCorrelated :
      (m : RemoteMethod Uuid Payload)
      → IsCorrelated m
      → find (request_id m) m.inprogress ≡ none
      → IsCorrelated (called m)
  called-IsCorrelated m h fresh =
      let grown : insert (request_id m) (length m.futures) m.inprogress
          ≡ insert_new (request_id m) (length m.futures) m.inprogress =
        rw (insert_new, fresh) refl in
      subst (λ p. IsCorrelated (record (called m) { inprogress = p })) grown
        (record {
          sorted = insert-IsSorted (request_id m) (length m.futures) m.inprogress h.sorted;
          live =
              insert-All (λ e. future (m.futures ++ pending ∷ []) e.1 ≡ pending) (request_id m)
                (length m.futures) m.inprogress (future-append_new m.futures pending)
                (λ j w same p. future-append_new m.futures pending)
                (live-append m.futures m.inprogress h.live);
          distinct =
              insert-Distinct (request_id m) (length m.futures) m.inprogress fresh
                (live-new m.futures m.inprogress h.live) h.distinct;
          counted =
              pendings-append m.futures
              ∙ ap suc h.counted
              ∙ sym (length-insert (request_id m) (length m.futures) m.inprogress fresh);
        })

  -- A call keeps the requests in progress correlated with the futures, if no request in progress has the
  -- id that it gives to the new one.
  pub call-IsCorrelated :
      (e : Event Uuid Payload) (m : RemoteMethod Uuid Payload) {f : ℕ} {sent : Event Uuid Payload}
      {next : RemoteMethod Uuid Payload}
      → IsCorrelated m
      → find (request_id m) m.inprogress ≡ none
      → call e m ≡ ok (f, sent, next)
      → IsCorrelated next
  call-IsCorrelated e m {f} {sent} {next} h fresh done =
      let same : called m ≡ next = ap (λ r. r.2) (call-eq e m done) in
      rw (← same) (called-IsCorrelated m h fresh)

  pub settle-eq :
      (e : Event Uuid Payload) (id : EventId Uuid) (m : RemoteMethod Uuid Payload) {f : ℕ}
      → find id m.inprogress ≡ some f
      → settle e id m
        ≡ record m { inprogress = erase id m.inprogress; futures = set m.futures f (settled e) }
  settle-eq e id m h = rw (settle, h) refl

  settled_done : (e : Event Uuid Payload) → is_pending (settled e) ≡ false
  settled_done e = ground arith

  live-set :
      (xs : List (Outcome Uuid Payload)) (f : ℕ) (x : Outcome Uuid Payload)
      (p : Map (EventId Uuid) ℕ)
      → All (λ e. future xs e.1 ≡ pending) p
      → All (λ e. (e.1 == f) ≡ false) p
      → All (λ e. future (set xs f x) e.1 ≡ pending) p
  live-set xs f x [] h other = tt
  live-set xs f x (e ∷ p) h other =
      (future-set_other xs f e.1 x other.0 ∙ h.0, live-set xs f x p h.1 other.1)

  pub live-find :
      (m : RemoteMethod Uuid Payload) (id : EventId Uuid) {f : ℕ}
      → IsCorrelated m
      → find id m.inprogress ≡ some f
      → future m.futures f ≡ pending
  live-find m id h known =
      (find-All (λ e. future m.futures e.1 ≡ pending) id m.inprogress h.live known).2

  with_answer-IsCorrelated :
      (e : Event Uuid Payload) (id : EventId Uuid) (m : RemoteMethod Uuid Payload) {f : ℕ}
      → IsCorrelated m
      → find id m.inprogress ≡ some f
      → IsCorrelated
          (record m { inprogress = erase id m.inprogress; futures = set m.futures f (settled e) })
  with_answer-IsCorrelated e id m {f} h known = record {
    sorted = erase-IsSorted id m.inprogress h.sorted;
    live =
        live-set m.futures f (settled e) (erase id m.inprogress)
          (erase-All (λ e. future m.futures e.1 ≡ pending) id m.inprogress h.live)
          (erase-other id f m.inprogress h.distinct known);
    distinct = erase-Distinct id m.inprogress h.distinct;
    counted =
        let less = pendings-set m.futures f (settled e) (settled_done e) (live-find m id h known) in
        omega (arith, less, h.counted, length-erase id f m.inprogress h.sorted known);
  }

  pub settle-IsCorrelated :
      (e : Event Uuid Payload) (id : EventId Uuid) (m : RemoteMethod Uuid Payload)
      → IsCorrelated m
      → IsCorrelated (settle e id m)
  settle-IsCorrelated e id m h = elim (Option-cases (find id m.inprogress)) [
    | inl unknown ↦ subst IsCorrelated (sym (rw (settle, unknown) refl)) h
    | inr (f, known) ↦
        subst IsCorrelated (sym (settle-eq e id m known)) (with_answer-IsCorrelated e id m h known)
  ]

  pub settle_reply-IsCorrelated :
      (e : Event Uuid Payload) (m : RemoteMethod Uuid Payload)
      → IsCorrelated m
      → IsCorrelated (settle_reply e m)
  unfolding settle_reply
  settle_reply-IsCorrelated e m h = by_causes e.causes
    where
      by_causes : (causes : KeySet (EventId Uuid)) → IsCorrelated (settle_first e causes m)
      by_causes [] = h
      by_causes (entry ∷ rest) = settle-IsCorrelated e entry.0 m h

  -- An event that is received, a reply to a request in progress or not, keeps the requests in progress
  -- correlated with the futures, if its handling returns and does not end in the failed assertion or
  -- the null pointer of an error without a text.
  pub handle_reply-IsCorrelated :
      (string_type : Text) (e : Event Uuid Payload) (m : RemoteMethod Uuid Payload)
      {next : RemoteMethod Uuid Payload}
      → IsCorrelated m
      → handle_reply string_type e m ≡ ok next
      → IsCorrelated next
  handle_reply-IsCorrelated string_type e m h done =
      subst IsCorrelated (handle_reply-ok string_type e m done) (settle_reply-IsCorrelated e m h)
