-- ===== src/Patterns/Completion.antt =====
-- src/rsb/patterns/RemoteServer.cpp: when all the calls of a method are done.
use rsb_cpp.Prelude.{
  ℕ, ◌≡◌, refl, ap, sym, ◌∙◌, Bool, true, false, List, [], ◌∷◌, if◌then◌else◌, length, All, Text,
  Result, ok, ◌>>=◌, Bool-cases, Option-cases, inl, inr,
}
use mathlib.Core.Path.{subst}
use rsb_cpp.Maps.{Ord, Map, KeySet, find, erase, erase-none}
use rsb_cpp.Event.{Event, EventId, event_id_eq, event_id_ord}
use rsb_cpp.Patterns.Calls.{RemoteMethod, ReplyError, handle_reply}
use rsb_cpp.Patterns.Settling.{
  is_readable, settle, settle_first, settle_reply, handle_reply-settle_reply,
}
use rsb_cpp.Patterns.Futures.{pendings}
use rsb_cpp.Patterns.Correlation.{IsCorrelated, settle_reply-IsCorrelated}

none_left : {K : Type 0} (p : Map K ℕ) → All (λ entry. false ≡ true) p → length p ≡ 0
none_left [] h = refl
none_left (entry ∷ p) h = cc (h.0)

module _ {Uuid : Type 0} ⦃o : Ord Uuid⦄ where
  -- The first cause is that id.
  abbrev pub answers : EventId Uuid → KeySet (EventId Uuid) → Bool
  answers id [] = false
  answers id (entry ∷ rest) = event_id_eq id entry.0

module _ {Uuid Payload : Type 0} ⦃o : Ord Uuid⦄ where
  abbrev pub is_answered : EventId Uuid → List (Event Uuid Payload) → Bool
  is_answered id [] = false
  is_answered id (e ∷ es) = if answers id e.causes then true else is_answered id es

  -- The events that arrive, one after the other.
  abbrev pub handle_all :
      Text
      → List (Event Uuid Payload)
      → RemoteMethod Uuid Payload
      → Result ReplyError (RemoteMethod Uuid Payload)
  handle_all string_type [] m = ok m
  handle_all string_type (e ∷ es) m =
      handle_reply string_type e m >>= λ n. handle_all string_type es n

  abbrev AreAnswered : List (Event Uuid Payload) → Map (EventId Uuid) ℕ → Type 0
  AreAnswered es p = All (λ entry. is_answered entry.0 es ≡ true) p

  inprogress-settle :
      (e : Event Uuid Payload) (id : EventId Uuid) (m : RemoteMethod Uuid Payload)
      → (settle e id m).inprogress ≡ erase id m.inprogress
  inprogress-settle e id m = elim (Option-cases (find id m.inprogress)) [
    | inl unknown ↦ rw (settle, unknown) (sym (erase-none id m.inprogress unknown))
    | inr (f, known) ↦ rw (settle, known) refl
  ]

  answered-erase :
      (id : EventId Uuid) (e : Event Uuid Payload) (es : List (Event Uuid Payload))
      (p : Map (EventId Uuid) ℕ)
      → ((j : EventId Uuid) → answers j e.causes ≡ event_id_eq j id)
      → AreAnswered (e ∷ es) p
      → AreAnswered es (erase id p)
  unfolding erase
  answered-erase id e es [] first h = tt
  answered-erase id e es ((j, f) ∷ p) first h = elim (Bool-cases (event_id_eq j id)) [
    | inl hit ↦ rw hit (answered-erase id e es p first h.1)
    | inr miss ↦
        let other : answers j e.causes ≡ false = first j ∙ miss in
        let left = let h' = rw other at h.0 in h' in
        rw miss (left, answered-erase id e es p first h.1)
  ]

  answered-none :
      (e : Event Uuid Payload) (es : List (Event Uuid Payload)) (p : Map (EventId Uuid) ℕ)
      → ((j : EventId Uuid) → answers j e.causes ≡ false)
      → AreAnswered (e ∷ es) p
      → AreAnswered es p
  answered-none e es [] silent h = tt
  answered-none e es ((j, f) ∷ p) silent h =
      let no = silent j in let left = rw no at h.0 in (left, answered-none e es p silent h.1)

  answered-settle_reply :
      (e : Event Uuid Payload) (es : List (Event Uuid Payload)) (m : RemoteMethod Uuid Payload)
      → AreAnswered (e ∷ es) m.inprogress
      → AreAnswered es (settle_reply e m).inprogress
  unfolding settle_reply
  answered-settle_reply e es m h = by_causes e.causes refl
    where
      by_causes :
          (causes : KeySet (EventId Uuid))
          → e.causes ≡ causes
          → AreAnswered es (settle_first e causes m).inprogress
      by_causes [] none_there = answered-none e es m.inprogress (λ j. ap (answers j) none_there) h
      by_causes (entry ∷ rest) there =
          subst (AreAnswered es) (sym (inprogress-settle e entry.0 m))
            (answered-erase entry.0 e es m.inprogress (λ j. ap (answers j) there) h)

  -- From a remote method with its requests and futures correlated, let events arrive, in any order and
  -- with any others in between, such that every request in progress is the first cause of one of them
  -- and each event that is flagged as an error has a text. All are handled without an error, and no
  -- future waits any longer then.
  pub handle_all-pendings :
      (string_type : Text) (es : List (Event Uuid Payload)) (m : RemoteMethod Uuid Payload)
      → IsCorrelated m
      → All (λ e. is_readable string_type e ≡ true) es
      → All (λ entry. is_answered entry.0 es ≡ true) m.inprogress
      → (next : RemoteMethod Uuid Payload) × (handle_all string_type es m ≡ ok next)
        × (pendings next.futures ≡ 0)
  handle_all-pendings string_type [] m h readable answered =
      (m, refl, h.counted ∙ none_left m.inprogress answered)
  handle_all-pendings string_type (e ∷ es) m h readable answered =
      let (next, done, all) =
        handle_all-pendings string_type es (settle_reply e m) (settle_reply-IsCorrelated e m h)
          readable.1 (answered-settle_reply e es m answered) in
      (next, rw (handle_reply-settle_reply string_type e m readable.0) done, all)
