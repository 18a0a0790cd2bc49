-- ===== src/Patterns/Settling.antt =====
-- src/rsb/patterns/RemoteServer.cpp: the replies that handle accepts, and what it then does.
use rsb_cpp.Prelude.{
  ◌≡◌, refl, sym, ◌∙◌, arith, Bool, true, false, not, ◌&&◌, ◌||◌, [], ◌∷◌, Option, none, some,
  if◌then◌else◌, Text, bytes, text_eq, Result, ok, err, set, Option-cases, Bool-cases, Result-cases,
  inl, inr,
}
use rsb_cpp.Maps.{Ord, KeySet, find, erase}
use rsb_cpp.MetaData.{has_user_info}
use rsb_cpp.Event.{Event, EventId, event_id_ord}
use rsb_cpp.Patterns.Calls.{
  RemoteMethod, Outcome, replied, failed, ReplyError, bad_assertion, null_pointer, outcome, resolve,
  resolve_first, handle_reply,
}

abbrev pub is_some {ℓ} : {A : Type ℓ} → Option A → Bool
is_some none = false
is_some (some x) = true

module _ {Uuid Payload : Type 0} where
  abbrev pub is_flagged : Event Uuid Payload → Bool
  is_flagged e = has_user_info (bytes "rsb:error?") e.meta_data

  -- A reply that is flagged as an error has a text.
  abbrev pub is_readable : Text → Event Uuid Payload → Bool
  is_readable string_type e =
      not (is_flagged e) || (text_eq e.type string_type && is_some e.content)

  -- What a reply comes to, by its flag, whether it is of the type of a text, and its payload.
  abbrev pub verdict :
      Bool → Bool → Option Payload → Event Uuid Payload → Result ReplyError (Outcome Uuid Payload)
  verdict false is_text content e = ok (replied e)
  verdict true false content e = err bad_assertion
  verdict true true none e = err null_pointer
  verdict true true (some text) e = ok (failed (some text))

  abbrev pub settled : Event Uuid Payload → Outcome Uuid Payload
  settled e = if is_flagged e then failed e.content else replied e

module _ {Uuid Payload : Type 0} ⦃o : Ord Uuid⦄ where
  pub outcome-verdict :
      (string_type : Text) (e : Event Uuid Payload)
      → outcome string_type e ≡ verdict (is_flagged e) (text_eq e.type string_type) e.content e
  unfolding outcome
  outcome-verdict string_type e = elim (Bool-cases (is_flagged e)) [
    | inr plain ↦ rw (outcome, plain) refl
    | inl flagged ↦ elim (Bool-cases (text_eq e.type string_type)) [
      | inr other ↦ rw (outcome, flagged, other) refl
      | inl text ↦ elim (Option-cases e.content) [
        | inl null ↦ rw (outcome, flagged, text, null) refl
        | inr (t, there) ↦ rw (outcome, flagged, text, there) refl
      ]
    ]
  ]

  outcome-readable :
      (string_type : Text) (e : Event Uuid Payload)
      → is_readable string_type e ≡ true
      → outcome string_type e ≡ ok (settled e)
  unfolding outcome
  outcome-readable string_type e h = elim (Bool-cases (is_flagged e)) [
    | inr plain ↦ rw (outcome, plain) refl
    | inl flagged ↦ elim (Bool-cases (text_eq e.type string_type)) [
      | inr other ↦ let h' = rw (flagged, other) at h in cc
      | inl text ↦ elim (Option-cases e.content) [
        | inl null ↦ let h' = rw (flagged, text, null) at h in cc
        | inr (t, there) ↦ rw (outcome, flagged, text, there) refl
      ]
    ]
  ]

  abbrev pub settle :
      Event Uuid Payload → EventId Uuid → RemoteMethod Uuid Payload → RemoteMethod Uuid Payload
  settle e id m = elim (find id m.inprogress) [
    | none ↦ m
    | some f ↦ record m {
      inprogress = erase id m.inprogress;
      futures = set m.futures f (settled e);
    }
  ]

  abbrev pub settle_first :
      Event Uuid Payload
      → KeySet (EventId Uuid)
      → RemoteMethod Uuid Payload
      → RemoteMethod Uuid Payload
  settle_first e [] m = m
  settle_first e (entry ∷ rest) m = settle e entry.0 m

  -- The remote method once a reply that can be read is handled.
  unfoldable pub settle_reply :
      Event Uuid Payload → RemoteMethod Uuid Payload → RemoteMethod Uuid Payload
  settle_reply e m = settle_first e e.causes m

  resolve-settle :
      (string_type : Text) (e : Event Uuid Payload) (id : EventId Uuid)
      (m : RemoteMethod Uuid Payload)
      → is_readable string_type e ≡ true
      → resolve string_type e id m ≡ ok (settle e id m)
  unfolding resolve
  resolve-settle string_type e id m h = elim (Option-cases (find id m.inprogress)) [
    | inl unknown ↦ rw (resolve, settle, unknown) refl
    | inr (f, known) ↦ rw (resolve, settle, known, outcome-readable string_type e h) refl
  ]

  -- A reply that can be read is handled without an error.
  pub handle_reply-settle_reply :
      (string_type : Text) (e : Event Uuid Payload) (m : RemoteMethod Uuid Payload)
      → is_readable string_type e ≡ true
      → handle_reply string_type e m ≡ ok (settle_reply e m)
  unfolding handle_reply resolve_first settle_reply
  handle_reply-settle_reply string_type e m h = by_causes e.causes
    where
      by_causes :
          (causes : KeySet (EventId Uuid))
          → resolve_first string_type e causes m ≡ ok (settle_first e causes m)
      by_causes [] = refl
      by_causes (entry ∷ rest) = resolve-settle string_type e entry.0 m h

  outcome-ok :
      (string_type : Text) (e : Event Uuid Payload) {x : Outcome Uuid Payload}
      → outcome string_type e ≡ ok x
      → settled e ≡ x
  outcome-ok string_type e {x} done = elim (Bool-cases (is_readable string_type e)) [
    | inl readable ↦ let both = sym (outcome-readable string_type e readable) ∙ done in ground arith
    | inr not_readable ↦ elim (Bool-cases (is_flagged e)) [
      | inr plain ↦ let h = rw plain at not_readable in cc
      | inl flagged ↦
          let known = sym (outcome-verdict string_type e) ∙ done in
          elim (Bool-cases (text_eq e.type string_type)) [
            | inr other ↦ let k = rw (flagged, other) at known in cc
            | inl text ↦ elim (Option-cases e.content) [
              | inl null ↦ let k = rw (flagged, text, null) at known in cc
              | inr (t, there) ↦ let h = rw (flagged, text, there) at not_readable in cc
            ]
          ]
    ]
  ]

  resolve-ok :
      (string_type : Text) (e : Event Uuid Payload) (id : EventId Uuid)
      (m : RemoteMethod Uuid Payload) {next : RemoteMethod Uuid Payload}
      → resolve string_type e id m ≡ ok next
      → settle e id m ≡ next
  unfolding resolve
  resolve-ok string_type e id m done = elim (Option-cases (find id m.inprogress)) [
    | inl unknown ↦ let k = rw (resolve, unknown) at done in rw (settle, unknown) (ground arith)
    | inr (f, known) ↦ elim (Result-cases (outcome string_type e)) [
      | inl (x, failed_so) ↦ let k = rw (resolve, known, failed_so) at done in cc
      | inr (x, done_so) ↦
          let k = rw (resolve, known, done_so) at done in
          let same = outcome-ok string_type e done_so in rw (settle, known, same) (ground arith)
    ]
  ]

  -- What handle leaves when it returns.
  pub handle_reply-ok :
      (string_type : Text) (e : Event Uuid Payload) (m : RemoteMethod Uuid Payload)
      {next : RemoteMethod Uuid Payload}
      → handle_reply string_type e m ≡ ok next
      → settle_reply e m ≡ next
  unfolding handle_reply resolve_first settle_reply
  handle_reply-ok string_type e m {next} = by_causes e.causes
    where
      by_causes :
          (causes : KeySet (EventId Uuid))
          → resolve_first string_type e causes m ≡ ok next
          → settle_first e causes m ≡ next
      by_causes [] done = ground arith
      by_causes (entry ∷ rest) done = resolve-ok string_type e entry.0 m done
