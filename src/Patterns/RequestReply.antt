-- ===== src/Patterns/RequestReply.antt =====
-- src/rsb/patterns: a call, the reply of the local method and the future of the caller.
use rsb_cpp.Prelude.{
  ℕ, true, ◌≡◌, refl, ap, sym, ◌∙◌, arith, [], ◌∷◌, Option, none, some, if◌then◌else◌, Text, bytes,
  text_eq, text_eq_refl, Result, ok, err, ◌>>=◌, >>=-ok, set, length, ◌==◌, ==_iff, Bool-cases,
  Option-cases, inl, inr, Result-cases,
}
use mathlib.Core.Path.{subst}
use rsb_cpp.Maps.{Ord, KeySet, find, insert, erase, find-insert}
use rsb_cpp.Maps.Sorted.{insert_new}
use rsb_cpp.Event.{Event, EventId, event_id_ord, set_scope, set_method, set_id, add_cause}
use rsb_cpp.Participation.Informer.{Informer, checked_publish, unchecked_publish}
use rsb_cpp.Patterns.Calls.{
  RemoteMethod, Outcome, failed, ReplyError, call, handle_reply, resolve, resolve_first, outcome,
  known_id,
}
use rsb_cpp.Patterns.Settling.{is_flagged, verdict, outcome-verdict}
use rsb_cpp.Patterns.Local.{Callback, handle_request, answer, reply_of, accepts}
use rsb_cpp.Patterns.Futures.{future, future-set_other, future-set_same}
use rsb_cpp.Patterns.Correlation.{
  IsCorrelated, request_id, called, call-eq, checked_publish-eq, live-find, call-IsCorrelated,
}

module _ {Uuid Payload : Type 0} ⦃o : Ord Uuid⦄ where
  abbrev pub first_of : RemoteMethod Uuid Payload → KeySet (EventId Uuid) → Option ℕ
  first_of m [] = none
  first_of m (entry ∷ rest) = find entry.0 m.inprogress

  -- The future of the request that an event is taken for an answer to.
  abbrev pub answered : Event Uuid Payload → RemoteMethod Uuid Payload → Option ℕ
  answered e m = first_of m e.causes

  -- A future once the one with that number, if any, is finished or its reply has ended the process.
  abbrev pub finished :
      ℕ
      → Result ReplyError (Outcome Uuid Payload)
      → Outcome Uuid Payload
      → Option ℕ
      → Result ReplyError (Outcome Uuid Payload)
  finished g new old none = ok old
  finished g new old (some f) = new >>= λ x. ok (if g == f then x else old)

  abbrev pub future_then :
      ℕ → Result ReplyError (RemoteMethod Uuid Payload) → Result ReplyError (Outcome Uuid Payload)
  future_then g handled = handled >>= λ next. ok (future next.futures g)

  future-answered :
      (m : RemoteMethod Uuid Payload) (id : EventId Uuid) (f g : ℕ) (x : Outcome Uuid Payload)
      → IsCorrelated m
      → find id m.inprogress ≡ some f
      → future (set m.futures f x) g ≡ (if g == f then x else future m.futures g)
  future-answered m id f g x h known = elim (Bool-cases (g == f)) [
    | inl here ↦
        let same : g ≡ f = ground arith in
        rw here (rw same (future-set_same m.futures f x (live-find m id h known)))
    | inr other ↦ rw other (future-set_other m.futures f g x other)
  ]

  future-resolve :
      (string_type : Text) (e : Event Uuid Payload) (id : EventId Uuid)
      (m : RemoteMethod Uuid Payload) (g : ℕ)
      → IsCorrelated m
      → future_then g (resolve string_type e id m)
        ≡ finished g (outcome string_type e) (future m.futures g) (find id m.inprogress)
  unfolding resolve
  future-resolve string_type e id m g h = elim (Option-cases (find id m.inprogress)) [
    | inl unknown ↦ rw (resolve, unknown) refl
    | inr (f, known) ↦ elim (Result-cases (outcome string_type e)) [
      | inl (x, failed_so) ↦ rw (resolve, known, failed_so) refl
      | inr (x, done_so) ↦ rw (resolve, known, done_so) (ap ok (future-answered m id f g x h known))
    ]
  ]

  -- Where the requests in progress are correlated with the futures, an event that is received leaves
  -- every future alone if it has no cause or its first is not in progress. Otherwise it finishes the
  -- future of that request and no other: with the reply, or if it is flagged as an error with its
  -- text; a flagged reply of another type ends in the failed assertion, and one without a payload
  -- in a null pointer.
  pub future-handle_reply :
      (string_type : Text) (e : Event Uuid Payload) (m : RemoteMethod Uuid Payload) (g : ℕ)
      → IsCorrelated m
      → future_then g (handle_reply string_type e m)
        ≡ finished g
            (verdict (is_flagged e) (text_eq e.type string_type) e.content e)
            (future m.futures g)
            (answered e m)
  unfolding handle_reply resolve_first
  future-handle_reply string_type e m g h =
      by_causes e.causes
      ∙ ap (λ v. finished g v (future m.futures g) (answered e m)) (outcome-verdict string_type e)
    where
      by_causes :
          (causes : KeySet (EventId Uuid))
          → future_then g (resolve_first string_type e causes m)
            ≡ finished g (outcome string_type e) (future m.futures g) (first_of m causes)
      by_causes [] = refl
      by_causes (entry ∷ rest) = future-resolve string_type e entry.0 m g h

module _ {Uuid Payload : Type 0} ⦃o : Ord Uuid⦄ (nil : Uuid) (now : ℕ) (string_type : Text)
    (boxed : Text → Payload) where
  -- What the local method publishes for an answer without causes.
  abbrev pub posted : EventId Uuid → Informer Uuid → Event Uuid Payload → Event Uuid Payload
  posted id i a =
      set_id i.id i.current_sequence_number
        (record (set_method (bytes "REPLY") (set_scope i.scope a)) { causes = (id, tt) ∷ [] })

  add_cause-plain :
      (id : EventId Uuid) (e : Event Uuid Payload)
      → e.causes ≡ []
      → (add_cause id e).0 ≡ record e { causes = (id, tt) ∷ [] }
  unfolding add_cause find insert
  add_cause-plain id e plain =
      let unknown : find id e.causes ≡ none = rw plain refl in
      rw (add_cause, unknown) (ap (λ c. record e { causes = insert id tt c }) plain)

  pub handle_request-eq :
      (request_type : Option Text) (callback : Callback Uuid Payload) (e : Event Uuid Payload)
      (i j : Informer Uuid) (id : EventId Uuid) (reply : Event Uuid Payload)
      → e.id ≡ some id
      → (answer nil now string_type boxed callback e).causes ≡ []
      → handle_request nil now string_type boxed request_type callback e i ≡ ok (some (reply, j))
      → posted id i (answer nil now string_type boxed callback e) ≡ reply
  unfolding handle_request unchecked_publish
  handle_request-eq request_type callback e i j id reply known plain done =
      let a = answer nil now string_type boxed callback e in
      let ready = set_method (bytes "REPLY") (set_scope i.scope a) in
      let asked : known_id e ≡ ok id = rw (known_id, known) refl in
      elim (Bool-cases (accepts nil now string_type boxed request_type e.type)) [
        | inr other ↦ let done' = rw other at done in cc
        | inl fits ↦ elim (Result-cases (checked_publish (add_cause id ready).0 i)) [
          | inl (x, h) ↦ let done' = rw (fits, asked, h) at done in cc
          | inr (s, h) ↦
              let done' = rw (fits, asked, h) at done in
              let same : s.0 ≡ reply = ground arith in
              ap (λ x. set_id i.id i.current_sequence_number x)
                (sym (add_cause-plain id ready plain))
              ∙ ap (λ x. x.0) (checked_publish-eq (add_cause id ready).0 i h)
              ∙ same
        ]
      ]

  -- What the caller gets: the text of the exception if the callback threw one, and else what its reply
  -- comes to.
  abbrev pub promised :
      Result Text (Event Uuid Payload)
      → Event Uuid Payload
      → Result ReplyError (Outcome Uuid Payload)
  promised (err what) reply = ok (failed (some (boxed what)))
  promised (ok a) reply = verdict (is_flagged a) (text_eq a.type string_type) a.content reply

  outcome-posted :
      (id : EventId Uuid) (i : Informer Uuid) (c : Result Text (Event Uuid Payload))
      → outcome string_type (posted id i (reply_of nil now string_type boxed c))
        ≡ promised c (posted id i (reply_of nil now string_type boxed c))
  unfolding find insert erase text_eq
  outcome-posted id i (ok a) =
      outcome-verdict string_type (posted id i (reply_of nil now string_type boxed (ok a)))
  outcome-posted id i (err what) =
      outcome-verdict string_type (posted id i (reply_of nil now string_type boxed (err what)))
      ∙ ap
          (λ b.
            verdict true b (some (boxed what))
              (posted id i (reply_of nil now string_type boxed (err what))))
          (text_eq_refl string_type)

  find-called :
      (m : RemoteMethod Uuid Payload)
      → find (request_id m) m.inprogress ≡ none
      → find (request_id m) (called m).inprogress ≡ some (length m.futures)
  find-called m fresh =
      let id = request_id m in
      let grown : insert_new id (length m.futures) m.inprogress
          ≡ insert id (length m.futures) m.inprogress =
        rw (insert_new, fresh) refl in
      ap (find id) grown
      ∙ find-insert id id (length m.futures) m.inprogress
      ∙ ap (λ b. if b then some (length m.futures) else find id m.inprogress)
          (event_id_ord.beq_refl id)

  -- From a remote method with its requests and futures correlated, let a call publish a request with an
  -- id that is not in progress, and let the local method publish a reply to it, whose callback
  -- returns no causes of its own. When the reply comes back, the future of the call is finished: with
  -- the text of the exception if the callback threw one, and otherwise with the reply, or with its
  -- text if the callback flagged it as an error; only if it flagged one that is not a text, or is
  -- null, the handling ends in the failed assertion or the null pointer.
  pub handle_reply-handle_request :
      (request_type : Option Text) (callback : Callback Uuid Payload) (e : Event Uuid Payload)
      (m : RemoteMethod Uuid Payload) (i j : Informer Uuid) {f : ℕ}
      {sent reply : Event Uuid Payload} {next : RemoteMethod Uuid Payload}
      → IsCorrelated m
      → find (request_id m) m.inprogress ≡ none
      → call e m ≡ ok (f, sent, next)
      → (answer nil now string_type boxed callback sent).causes ≡ []
      → handle_request nil now string_type boxed request_type callback sent i ≡ ok (some (reply, j))
      → future_then f (handle_reply string_type reply next) ≡ promised (callback sent) reply
  handle_reply-handle_request request_type callback e m i j {f} {sent} {reply} {next} h fresh asked
        plain done =
      let id = request_id m in
      let made = call-eq e m asked in
      let known : sent.id ≡ some id = sym (ap (λ r. r.1.id) made) in
      let same = handle_request-eq request_type callback sent i j id reply known plain done in
      let waiting : answered reply next ≡ some f =
        ap (λ r. answered r next) (sym same)
        ∙ ap (λ r. find id r.2.inprogress) (sym made)
        ∙ find-called m fresh
        ∙ ap (λ r. some r.0) made in
      future-handle_reply string_type reply next f (call-IsCorrelated e m h fresh asked)
      ∙ ap
          (finished f
            (verdict (is_flagged reply) (text_eq reply.type string_type) reply.content reply)
            (future next.futures f))
          waiting
      ∙ ap
          (λ b.
            verdict (is_flagged reply) (text_eq reply.type string_type) reply.content reply >>= λ x.
            ok (if b then x else future next.futures f))
          ((==_iff f f).1 refl)
      ∙ >>=-ok (verdict (is_flagged reply) (text_eq reply.type string_type) reply.content reply)
      ∙ sym (outcome-verdict string_type reply)
      ∙ subst (λ r. outcome string_type r ≡ promised (callback sent) r) same
          (outcome-posted id i (callback sent))
