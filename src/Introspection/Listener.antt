-- ===== src/Introspection/Listener.antt =====
-- What a listener on the introspection scope makes of the messages: the ids that were told of and not yet
-- said goodbye to.
use rsb_cpp.Prelude.{
  ◌≡◌, refl, ap, ◌∙◌, arith, Bool, true, false, List, [], ◌∷◌, ◌++◌, some, if◌then◌else◌, Result,
  ok, err, All, Option-cases, Bool-cases, inl, inr,
}
use mathlib.Core.Path.{subst}
use rsb_cpp.Maps.{Ord}
use rsb_cpp.Introspection.{
  ParticipantInfo, Message, hello, bye, pong, SenderError, IntrospectionSender, After, publish_made,
  tell_all, find_participant, erase_participant,
}

module _ {Uuid : Type 0} ⦃o : Ord Uuid⦄ where
  abbrev pub has : Uuid → List Uuid → Bool
  has id [] = false
  has id (x ∷ xs) = if o.beq x id then true else has id xs

  abbrev pub without : Uuid → List Uuid → List Uuid
  without id [] = []
  without id (x ∷ xs) = if o.beq x id then xs else x ∷ without id xs

  -- One message changes the list of known ids.
  abbrev pub see : Message Uuid → List Uuid → List Uuid
  see (hello p cause scope) known = if has p.id known then known else known ++ p.id ∷ []
  see (bye id scope) known = without id known
  see (pong scope) known = known

  abbrev pub seen : List (Message Uuid) → List Uuid → List Uuid
  seen [] known = known
  seen (m ∷ ms) known = seen ms (see m known)

  abbrev pub ids : List (ParticipantInfo Uuid) → List Uuid
  ids [] = []
  ids (p ∷ ps) = p.id ∷ ids ps

  -- The listener knows exactly the participants of the sender, in their order.
  abbrev pub Mirrors : IntrospectionSender Uuid → Type 0
  Mirrors s = seen s.sent [] ≡ ids s.participants

  pub seen-append :
      (ms : List (Message Uuid)) (m : Message Uuid) (known : List Uuid)
      → seen (ms ++ m ∷ []) known ≡ see m (seen ms known)
  seen-append [] m known = refl
  seen-append (n ∷ ms) m known = seen-append ms m (see n known)

  pub ids-append :
      (ps : List (ParticipantInfo Uuid)) (p : ParticipantInfo Uuid)
      → ids (ps ++ p ∷ []) ≡ ids ps ++ p.id ∷ []
  ids-append [] p = refl
  ids-append (q ∷ ps) p = ap (◌∷◌ q.id) (ids-append ps p)

  -- The sender has these participants, and the listener knows them.
  abbrev pub Keeps : List (ParticipantInfo Uuid) → IntrospectionSender Uuid → Type 0
  Keeps ps s = (s.participants ≡ ps) × (seen s.sent [] ≡ ids ps)

  pub publish_made-Keeps :
      (ps : List (ParticipantInfo Uuid)) (r : Result SenderError (Message Uuid))
      (s : IntrospectionSender Uuid)
      → Keeps ps s
      → ((m : Message Uuid) → r ≡ ok m → see m (ids ps) ≡ ids ps)
      → Keeps ps (publish_made r s).0
  publish_made-Keeps ps (err e) s h quiet = h
  publish_made-Keeps ps (ok m) s h quiet =
      (h.0, seen-append s.sent m [] ∙ ap (see m) h.1 ∙ quiet m refl)

  pub found-has :
      (id : Uuid) (ps : List (ParticipantInfo Uuid)) {p : ParticipantInfo Uuid}
      → find_participant id ps ≡ some p
      → (o.beq p.id id ≡ true) × (has p.id (ids ps) ≡ true)
  unfolding find_participant
  found-has id [] h = cc
  found-has id (q ∷ ps) {p} h = elim (Bool-cases (o.beq q.id id)) [
    | inl hit ↦
        let same : q ≡ p = let h' = rw (find_participant, hit) at h in ground arith in
        subst (λ r. (o.beq r.id id ≡ true) × (has r.id (ids (q ∷ ps)) ≡ true)) same
          (hit, rw (o.beq_refl q.id) refl)
    | inr miss ↦
        let h' = rw (find_participant, miss) at h in
        let (at_id, there) = found-has id ps h' in (at_id, ground (arith, there))
  ]

  pub without-erase :
      (id other : Uuid) (ps : List (ParticipantInfo Uuid))
      → o.beq other id ≡ true
      → without other (ids ps) ≡ ids (erase_participant id ps)
  unfolding erase_participant
  without-erase id other [] h = refl
  without-erase id other (p ∷ ps) h = ground (
    arith,
    without-erase id other ps h,
    o.beq_cong other id p.id h,
    o.beq_sym p.id other,
    o.beq_sym p.id id,
  )

  has-more :
      (x : Uuid) (xs : List Uuid) (ps : List (ParticipantInfo Uuid))
      → All (λ p. has p.id xs ≡ true) ps
      → All (λ p. has p.id (x ∷ xs) ≡ true) ps
  has-more x xs [] h = tt
  has-more x xs (p ∷ ps) h = (ground arith, has-more x xs ps h.1)

  pub has-All : (ps : List (ParticipantInfo Uuid)) → All (λ p. has p.id (ids ps) ≡ true) ps
  has-All [] = tt
  has-All (p ∷ ps) = (rw (o.beq_refl p.id) refl, has-more p.id (ids ps) ps (has-All ps))

  -- Telling about participants that are known changes nothing.
  pub tell_all-Keeps :
      (tell : ParticipantInfo Uuid → IntrospectionSender Uuid → After Uuid)
      (ps qs : List (ParticipantInfo Uuid)) (s : IntrospectionSender Uuid)
      → ((p : ParticipantInfo Uuid) (s : IntrospectionSender Uuid)
          → has p.id (ids ps) ≡ true
          → Keeps ps s
          → Keeps ps (tell p s).0)
      → All (λ p. has p.id (ids ps) ≡ true) qs
      → Keeps ps s
      → Keeps ps (tell_all tell qs s).0
  unfolding tell_all
  tell_all-Keeps tell ps [] s one there h = h
  tell_all-Keeps tell ps (q ∷ qs) s one there h = elim (Option-cases (tell q s).1) [
    | inl fine ↦
        rw (tell_all, fine) (tell_all-Keeps tell ps qs (tell q s).0 one there.1 (one q s there.0 h))
    | inr (e, thrown) ↦ rw (tell_all, thrown) (one q s there.0 h)
  ]
