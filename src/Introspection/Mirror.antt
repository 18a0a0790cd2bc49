-- ===== src/Introspection/Mirror.antt =====
-- src/rsb/introspection/IntrospectionSender.cpp: what each operation of the sender does to the view of a
-- listener.
use rsb_cpp.Prelude.{
  ◌≡◌, refl, ap, sym, ◌∙◌, arith, true, false, List, [], ◌∷◌, ◌++◌, Option, none, some,
  if◌then◌else◌, Text, bytes, text_eq, Result, ok, err, ◌>>=◌, >>=-eq-ok, Option-cases, Bool-cases,
  inl, inr,
}
use mathlib.Core.Path.{subst}
use rsb_cpp.Maps.{Ord}
use rsb_cpp.Scope.{Scope, parse, concat}
use rsb_cpp.Event.{Event}
use rsb_cpp.Introspection.{
  ParticipantInfo, Message, hello, bye, pong, SenderError, IntrospectionSender, publish_made,
  cause_of, participant_scope, send_hello, send_bye, send_pong, add_participant, remove_participant,
  find_participant, forget, handle_query, handle_survey, handle_request, handle_ping, requested,
  tell_requested, from_syntax,
}
use rsb_cpp.Introspection.Listener.{
  has, without, see, ids, Mirrors, Keeps, seen-append, ids-append, publish_made-Keeps, found-has,
  without-erase, has-All, tell_all-Keeps,
}

module _ {Uuid : Type 0} ⦃o : Ord Uuid⦄ (print : Uuid → Text) where
  send_hello-Keeps :
      (query : Option (Event Uuid Text)) (ps : List (ParticipantInfo Uuid))
      (p : ParticipantInfo Uuid) (s : IntrospectionSender Uuid)
      → has p.id (ids ps) ≡ true
      → Keeps ps s
      → Keeps ps (send_hello print query p s).0
  unfolding send_hello
  send_hello-Keeps query ps p s there h =
      publish_made-Keeps ps
        (participant_scope print p.id s >>= λ scope.
          cause_of query >>= λ cause. ok (hello p cause scope))
        s h
        (λ m made.
          let (scope, at_scope, rest) =
            >>=-eq-ok (participant_scope print p.id s)
              (λ scope. cause_of query >>= λ cause. ok (hello p cause scope)) made in
          let (cause, at_cause, last) =
            >>=-eq-ok (cause_of query) (λ cause. ok (hello p cause scope)) rest in
          let same : hello p cause scope ≡ m = ground arith in
          subst (λ m. see m (ids ps) ≡ ids ps) same
            (ap (λ b. if b then ids ps else ids ps ++ p.id ∷ []) there))

  send_pong-Keeps :
      (ps : List (ParticipantInfo Uuid)) (p : ParticipantInfo Uuid) (s : IntrospectionSender Uuid)
      → has p.id (ids ps) ≡ true
      → Keeps ps s
      → Keeps ps (send_pong print p s).0
  unfolding send_pong
  send_pong-Keeps ps p s there h =
      publish_made-Keeps ps
        (from_syntax (parse (print p.id)) >>= λ child. ok (pong (concat s.scope child))) s h
        (λ m made.
          let (child, at_child, last) =
            >>=-eq-ok (from_syntax (parse (print p.id))) (λ child. ok (pong (concat s.scope child)))
              made in
          let same : pong (concat s.scope child) ≡ m = ground arith in
          subst (λ m. see m (ids ps) ≡ ids ps) same refl)

  request-Keeps :
      (read : Text → Option Uuid) (asked : Result SenderError Uuid) (query : Event Uuid Text)
      (s : IntrospectionSender Uuid)
      → Keeps s.participants s
      → Keeps s.participants (tell_requested print read asked query s).0
  request-Keeps read (err e) query s same = same
  request-Keeps read (ok id) query s same =
      elim (Option-cases (find_participant id s.participants)) [
        | inl unknown ↦ rw (tell_requested, unknown) same
        | inr (p, found) ↦
            rw (tell_requested, found)
              (send_hello-Keeps (some query) s.participants p s
                (found-has id s.participants found).1 same)
      ]

  -- The answers to queries.
  pub query-Keeps :
      (read : Text → Option Uuid) (void_type string_type : Text) (query : Event Uuid Text)
      (s : IntrospectionSender Uuid)
      → Mirrors s
      → Keeps s.participants (handle_query print read void_type string_type query s).0
  unfolding handle_query handle_survey handle_request handle_ping
  query-Keeps read void_type string_type query s h =
      let same : Keeps s.participants s = (refl, h) in
      elim (Bool-cases (text_eq query.type void_type)) [
        | inl asked ↦ elim (Bool-cases (text_eq query.method (bytes "SURVEY"))) [
          | inl survey ↦
              rw (handle_query, asked, survey)
                (tell_all-Keeps (send_hello print (some query)) s.participants s.participants s
                  (send_hello-Keeps (some query) s.participants) (has-All s.participants) same)
          | inr other ↦ elim (Bool-cases (text_eq query.method (bytes "REQUEST"))) [
            | inl request ↦
                rw (handle_query, asked, other, request)
                  (request-Keeps read (requested read query.scope.components) query s same)
            | inr neither ↦ rw (handle_query, asked, other, neither) same
          ]
        ]
        | inr told ↦ elim (Bool-cases (text_eq query.type string_type)) [
          | inr neither ↦ rw (handle_query, told, neither) same
          | inl text ↦ elim (Option-cases query.content) [
            | inl empty ↦ rw (handle_query, told, text, empty) same
            | inr (content, there) ↦ elim (Bool-cases (text_eq content (bytes "ping"))) [
              | inr other ↦ rw (handle_query, told, text, there, other) same
              | inl ping ↦
                  rw (handle_query, told, text, there, ping)
                    (tell_all-Keeps (send_pong print) s.participants s.participants s
                      (send_pong-Keeps s.participants) (has-All s.participants) same)
            ]
          ]
        ]
      ]

  bye-Mirrors :
      (id : Uuid) (p : ParticipantInfo Uuid) (s : IntrospectionSender Uuid)
      (r : Result SenderError (Message Uuid))
      → Mirrors s
      → o.beq p.id id ≡ true
      → ((m : Message Uuid)
          → r ≡ ok m
          → see m (ids s.participants) ≡ without p.id (ids s.participants))
      → Mirrors (forget id (publish_made r s)).0
  bye-Mirrors id p s (err e) h same said = h
  bye-Mirrors id p s (ok m) h same said =
      seen-append s.sent m []
      ∙ ap (see m) h
      ∙ said m refl
      ∙ without-erase id p.id s.participants same

  pub remove_participant-Mirrors :
      (id : Uuid) (s : IntrospectionSender Uuid)
      → Mirrors s
      → Mirrors (remove_participant print id s).0
  unfolding remove_participant send_bye
  remove_participant-Mirrors id s h = elim (Option-cases (find_participant id s.participants)) [
    | inl unknown ↦ rw (remove_participant, unknown) h
    | inr (p, found) ↦
        rw (remove_participant, found)
          (bye-Mirrors id p s (participant_scope print p.id s >>= λ scope. ok (bye p.id scope)) h
            (found-has id s.participants found).0
            (λ m made.
              let (scope, at_scope, last) =
                >>=-eq-ok (participant_scope print p.id s) (λ scope. ok (bye p.id scope)) made in
              let same : bye p.id scope ≡ m = ground arith in
              subst (λ m. see m (ids s.participants) ≡ without p.id (ids s.participants)) same
                refl))
  ]

  pub add_participant-Mirrors :
      (p : ParticipantInfo Uuid) (s : IntrospectionSender Uuid) {scope : Scope}
      → Mirrors s
      → has p.id (ids s.participants) ≡ false
      → participant_scope print p.id s ≡ ok scope
      → Mirrors (add_participant print p s).0
  unfolding add_participant send_hello
  add_participant-Mirrors p s {scope} h new told =
      rw (add_participant, told)
        (seen-append s.sent (hello p none scope) []
          ∙ ap (see (hello p none scope)) h
          ∙ ap (λ b. if b then ids s.participants else ids s.participants ++ p.id ∷ []) new
          ∙ sym (ids-append s.participants p))
