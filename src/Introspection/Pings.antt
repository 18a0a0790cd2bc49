-- ===== src/Introspection/Pings.antt =====
-- src/rsb/introspection/IntrospectionSender.cpp: sendPong makes a scope of an id without a separator.
use rsb_cpp.Prelude.{
  ◌≡◌, refl, ap, ◌∙◌, arith, Bool, true, false, List, [], ◌∷◌, some, Text, err, ◌==◌, if◌then◌else◌,
}
use rsb_cpp.Scope.{no_leading_separator, parse, component_separator}
use rsb_cpp.Introspection.{
  ParticipantInfo, IntrospectionSender, bad_scope, handle_ping, send_pong, tell_all,
}

-- The text does not begin with a separator.
abbrev pub starts_inside : Text → Bool
starts_inside [] = false
starts_inside (c ∷ rest) = if c == component_separator then false else true

parse-inside : (t : Text) → starts_inside t ≡ true → parse t ≡ err no_leading_separator
unfolding parse
parse-inside [] h = cc
parse-inside (c ∷ rest) h = ground arith

-- Where ids are printed without a separator in front, as UUIDs are, a ping of a process with a participant
-- publishes nothing and throws.
pub handle_ping-throws :
    {Uuid : Type 0} (print : Uuid → Text) (s : IntrospectionSender Uuid) (p : ParticipantInfo Uuid)
    (ps : List (ParticipantInfo Uuid))
    → s.participants ≡ p ∷ ps
    → starts_inside (print p.id) ≡ true
    → handle_ping print s ≡ (s, some (bad_scope no_leading_separator))
unfolding handle_ping tell_all send_pong
handle_ping-throws print s p ps there h =
    let stuck = parse-inside (print p.id) h in
    let told : send_pong print p s ≡ (s, some (bad_scope no_leading_separator)) =
      rw (send_pong, stuck) refl in
    ap (λ qs. tell_all (send_pong print) qs s) there
    ∙ rw (tell_all, told) (ap (λ r. (r.0, some (bad_scope no_leading_separator))) told)
