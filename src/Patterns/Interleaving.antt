-- ===== src/Patterns/Interleaving.antt =====
-- src/rsb/patterns/RemoteServer.cpp: replies that arrive in one order or the other.
use rsb_cpp.Prelude.{
  ℕ, zero, suc, ◌≡◌, refl, ap, sym, ◌∙◌, arith, Bool, true, false, not, List, [], ◌∷◌, none, some,
  if◌then◌else◌, Text, ok, ◌>>=◌, set, ◌==◌, Option-cases, inl, inr,
}
use rsb_cpp.Maps.{Ord, Map, KeySet, find, erase, find-All, find-erase}
use rsb_cpp.Maps.Values.{erase-other}
use rsb_cpp.Event.{Event, EventId, event_id_eq, event_id_ord}
use rsb_cpp.Patterns.Calls.{RemoteMethod, Outcome, handle_reply}
use rsb_cpp.Patterns.Settling.{
  is_readable, settled, settle, settle_first, settle_reply, handle_reply-settle_reply,
}
use rsb_cpp.Patterns.Correlation.{IsCorrelated, settle-eq}

erase_comm :
    {K : Type 0} {V : Type 0} ⦃o : Ord K⦄ (j k : K) (m : Map K V)
    → erase j (erase k m) ≡ erase k (erase j m)
unfolding erase
erase_comm j k [] = refl
erase_comm j k ((i, w) ∷ m) = ground (arith, erase_comm j k m)

set_comm :
    {A : Type 0} (xs : List A) (f g : ℕ) (x y : A)
    → (f == g) ≡ false
    → set (set xs f x) g y ≡ set (set xs g y) f x
set_comm [] f g x y h = refl
set_comm (z ∷ xs) zero zero x y h = ground arith
set_comm (z ∷ xs) zero (suc g) x y h = refl
set_comm (z ∷ xs) (suc f) zero x y h = refl
set_comm (z ∷ xs) (suc f) (suc g) x y h = ap (◌∷◌ z) (set_comm xs f g x y (ground arith))

module _ {Uuid : Type 0} ⦃o : Ord Uuid⦄ where
  -- The first cause of an event is not that of the other.
  abbrev pub answers_other : KeySet (EventId Uuid) → KeySet (EventId Uuid) → Bool
  answers_other [] causes = true
  answers_other (entry ∷ rest) [] = true
  answers_other (entry ∷ rest) (entry' ∷ rest') = not (event_id_eq entry.0 entry'.0)

module _ {Uuid Payload : Type 0} where
  -- A remote method when a future is done and its request is no longer in progress.
  abbrev with_done :
      (Map (EventId Uuid) ℕ → Map (EventId Uuid) ℕ)
      → ℕ
      → Outcome Uuid Payload
      → RemoteMethod Uuid Payload
      → RemoteMethod Uuid Payload
  with_done less f x m = record m { inprogress = less m.inprogress; futures = set m.futures f x }

module _ {Uuid Payload : Type 0} ⦃o : Ord Uuid⦄ where
  find-settle :
      (e : Event Uuid Payload) (a b : EventId Uuid) (m : RemoteMethod Uuid Payload)
      → event_id_eq a b ≡ false
      → find b (settle e a m).inprogress ≡ find b m.inprogress
  find-settle e a b m other = elim (Option-cases (find a m.inprogress)) [
    | inl unknown ↦ rw (settle, unknown) refl
    | inr (f, known) ↦
        rw (settle, known)
          (find-erase a b m.inprogress ∙ ap (λ t. if t then none else find b m.inprogress) other)
  ]

  settle-unknown :
      (e : Event Uuid Payload) (id : EventId Uuid) (m : RemoteMethod Uuid Payload)
      → find id m.inprogress ≡ none
      → settle e id m ≡ m
  settle-unknown e id m unknown = rw (settle, unknown) refl

  -- Two requests in progress wait for different futures.
  futures-differ :
      (m : RemoteMethod Uuid Payload) (a b : EventId Uuid) {f g : ℕ}
      → IsCorrelated m
      → event_id_eq a b ≡ false
      → find a m.inprogress ≡ some f
      → find b m.inprogress ≡ some g
      → (f == g) ≡ false
  futures-differ m a b {f} {g} h other first second =
      let still : find b (erase a m.inprogress) ≡ some g =
        find-erase a b m.inprogress
        ∙ ap (λ t. if t then none else find b m.inprogress) other
        ∙ second in
      let (k, same, apart) =
        find-All (λ e. (e.1 == f) ≡ false) b (erase a m.inprogress)
          (erase-other a f m.inprogress h.distinct first) still in
      ground (arith, apart)

  settle_comm :
      (d e : Event Uuid Payload) (a b : EventId Uuid) (m : RemoteMethod Uuid Payload)
      → IsCorrelated m
      → event_id_eq a b ≡ false
      → settle d a (settle e b m) ≡ settle e b (settle d a m)
  settle_comm d e a b m h other =
      let other' : event_id_eq b a ≡ false = event_id_ord.beq_sym b a ∙ other in
      let seen_a = find-settle e b a m other' in
      let seen_b = find-settle d a b m other in
      elim (Option-cases (find a m.inprogress)) [
        | inl unknown ↦
            settle-unknown d a (settle e b m) (seen_a ∙ unknown)
            ∙ ap (settle e b) (sym (settle-unknown d a m unknown))
        | inr (f, known) ↦ elim (Option-cases (find b m.inprogress)) [
          | inl unknown ↦
              ap (settle d a) (settle-unknown e b m unknown)
              ∙ sym (settle-unknown e b (settle d a m) (seen_b ∙ unknown))
          | inr (g, there) ↦
              settle-eq d a (settle e b m) (seen_a ∙ known)
              ∙ ap (with_done (erase a) f (settled d)) (settle-eq e b m there)
              ∙ (λ i. record m {
                inprogress = erase_comm a b m.inprogress i;
                futures =
                    set_comm m.futures g f (settled e) (settled d)
                      (futures-differ m b a h other' there known) i;
              })
              ∙ ap (with_done (erase b) g (settled e)) (sym (settle-eq d a m known))
              ∙ sym (settle-eq e b (settle d a m) (seen_b ∙ there))
        ]
      ]

  first_comm :
      (d e : Event Uuid Payload) (first second : KeySet (EventId Uuid))
      (m : RemoteMethod Uuid Payload)
      → IsCorrelated m
      → answers_other first second ≡ true
      → settle_first d first (settle_first e second m)
        ≡ settle_first e second (settle_first d first m)
  first_comm d e [] second m h other = refl
  first_comm d e (a ∷ rest) [] m h other = refl
  first_comm d e (a ∷ rest) (b ∷ rest') m h other = settle_comm d e a.0 b.0 m h (ground arith)

  settle_reply_comm :
      (d e : Event Uuid Payload) (m : RemoteMethod Uuid Payload)
      → IsCorrelated m
      → answers_other d.causes e.causes ≡ true
      → settle_reply d (settle_reply e m) ≡ settle_reply e (settle_reply d m)
  unfolding settle_reply
  settle_reply_comm d e m h other = first_comm d e d.causes e.causes m h other

  -- Where the requests in progress are correlated with the futures, two events that do not answer the
  -- same request, each of which has a text if it is flagged as an error, are both handled without an
  -- error, and leave the remote method in the same state whichever is handled first.
  pub handle_reply-handle_reply :
      (string_type : Text) (d e : Event Uuid Payload) (m : RemoteMethod Uuid Payload)
      → IsCorrelated m
      → is_readable string_type d ≡ true
      → is_readable string_type e ≡ true
      → answers_other d.causes e.causes ≡ true
      → (next : RemoteMethod Uuid Payload) × ((handle_reply string_type e m >>= λ n.
            handle_reply string_type d n)
          ≡ ok next)
        × ((handle_reply string_type d m >>= λ n. handle_reply string_type e n) ≡ ok next)
  handle_reply-handle_reply string_type d e m h read_d read_e other = (
    settle_reply d (settle_reply e m),
    rw (handle_reply-settle_reply string_type e m read_e)
        (handle_reply-settle_reply string_type d (settle_reply e m) read_d),
    rw (handle_reply-settle_reply string_type d m read_d) (
        handle_reply-settle_reply string_type e (settle_reply d m) read_e
        ∙ ap ok (sym (settle_reply_comm d e m h other))),
  )
