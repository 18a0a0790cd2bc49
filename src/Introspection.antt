-- ===== src/Introspection.antt =====
-- src/rsb/introspection/IntrospectionSender.cpp: the participants of a process and what is told about them.
-- The fields of a message that describe process and host are left out; a message that is published
-- is kept in the order of publication. How a UUID is printed, read and compared is an argument.
pub mod Listener
pub mod Mirror
pub mod Pings
pub mod History
pub mod Examples
use rsb_cpp.Prelude.{
  ◌≡◌, refl, Bool, true, false, not, List, [], ◌∷◌, ◌++◌, Option, none, some, if◌then◌else◌,
  is_empty, Text, bytes, text_eq, Result, ok, err, ◌>>=◌,
}
use rsb_cpp.Maps.{Ord}
use rsb_cpp.Scope.{Scope, SyntaxError, parse, concat}
use rsb_cpp.Event.{Event, EventId}

-- ParticipantInfo
pub record ParticipantInfo (Uuid : Type 0) : Type 0 where
  pub kind : Text
  pub id : Uuid
  pub parent_id : Uuid
  pub scope : Scope
  pub type : Text
  pub transport_urls : List Text

-- The events that are published on the introspection scope, each with its scope.
pub data Message (Uuid : Type 0) : Type 0 where
  hello : ParticipantInfo Uuid → Option (EventId Uuid) → Scope → Message Uuid
  bye : Uuid → Scope → Message Uuid
  pong : Scope → Message Uuid

pub data SenderError : Type 0 where
  illegal_state undefined bad_uuid : SenderError
  bad_scope : SyntaxError → SenderError

pub record IntrospectionSender (Uuid : Type 0) : Type 0 where
  pub scope : Scope
  pub participants : List (ParticipantInfo Uuid)
  pub sent : List (Message Uuid)

-- A call that throws keeps what it has published before.
abbrev pub After : Type 0 → Type 0
After Uuid = IntrospectionSender Uuid × Option SenderError

abbrev pub from_syntax : Result SyntaxError Scope → Result SenderError Scope
from_syntax (ok s) = ok s
from_syntax (err e) = err (bad_scope e)

module _ {Uuid : Type 0} where
  abbrev pub remains : IntrospectionSender Uuid → Bool
  remains s = not (is_empty s.participants)

  abbrev pub publish : Message Uuid → IntrospectionSender Uuid → IntrospectionSender Uuid
  publish message s = record s { sent = s.sent ++ message ∷ [] }

  -- The event is published once it is made.
  abbrev pub publish_made :
      Result SenderError (Message Uuid) → IntrospectionSender Uuid → After Uuid
  publish_made (ok message) s = (publish message s, none)
  publish_made (err e) s = (s, some e)

  -- `query->getId()`, if there is a query
  abbrev pub cause_of : Option (Event Uuid Text) → Result SenderError (Option (EventId Uuid))
  cause_of none = ok none
  cause_of (some query) = elim query.id [ none ↦ err illegal_state | some id ↦ ok (some id) ]

  -- The loop over the participants, each of which may throw.
  unfoldable pub tell_all :
      (ParticipantInfo Uuid → IntrospectionSender Uuid → After Uuid)
      → List (ParticipantInfo Uuid)
      → IntrospectionSender Uuid
      → After Uuid
  tell_all tell [] s = (s, none)
  tell_all tell (p ∷ ps) s =
      let rest = tell_all tell ps (tell p s).0 in
      elim (tell p s).1 [ none ↦ rest | some e ↦ ((tell p s).0, some e) ]

module _ {Uuid : Type 0} ⦃o : Ord Uuid⦄ where
  -- The loops that look for an id: the first participant that has it, and the list without that one.
  unfoldable pub find_participant :
      Uuid → List (ParticipantInfo Uuid) → Option (ParticipantInfo Uuid)
  find_participant id [] = none
  find_participant id (p ∷ ps) =
      let later = find_participant id ps in if o.beq p.id id then some p else later

  unfoldable pub erase_participant :
      Uuid → List (ParticipantInfo Uuid) → List (ParticipantInfo Uuid)
  erase_participant id [] = []
  erase_participant id (p ∷ ps) =
      let rest = erase_participant id ps in if o.beq p.id id then ps else p ∷ rest

  -- What removeParticipant does behind sendBye, if that has not thrown.
  abbrev pub forget : Uuid → After Uuid → After Uuid
  forget id (s, none) = (record s { participants = erase_participant id s.participants }, none)
  forget id (s, some e) = (s, some e)

module _ {Uuid : Type 0} (print : Uuid → Text) where
  -- `concat(Scope("/" + id))`
  abbrev pub participant_scope : Uuid → IntrospectionSender Uuid → Result SenderError Scope
  participant_scope id s =
      from_syntax (parse (bytes "/" ++ print id)) >>= λ child. ok (concat s.scope child)

  -- sendHello, for a query or not
  unfoldable pub send_hello :
      Option (Event Uuid Text) → ParticipantInfo Uuid → IntrospectionSender Uuid → After Uuid
  send_hello query p s =
      publish_made
        (participant_scope p.id s >>= λ scope. cause_of query >>= λ cause. ok (hello p cause scope))
        s

  unfoldable pub send_bye : ParticipantInfo Uuid → IntrospectionSender Uuid → After Uuid
  send_bye p s = publish_made (participant_scope p.id s >>= λ scope. ok (bye p.id scope)) s

  -- sendPong: the id becomes a scope without a separator in front of it.
  unfoldable pub send_pong : ParticipantInfo Uuid → IntrospectionSender Uuid → After Uuid
  send_pong p s =
      publish_made (from_syntax (parse (print p.id)) >>= λ child. ok (pong (concat s.scope child)))
        s

  -- addParticipant
  unfoldable pub add_participant : ParticipantInfo Uuid → IntrospectionSender Uuid → After Uuid
  unfolding send_hello
  add_participant p s = send_hello none p (record s { participants = s.participants ++ p ∷ [] })

  -- handleSurvey
  unfoldable pub handle_survey : Event Uuid Text → IntrospectionSender Uuid → After Uuid
  unfolding tell_all send_hello
  handle_survey query s = tell_all (send_hello (some query)) s.participants s

  -- handlePing
  unfoldable pub handle_ping : IntrospectionSender Uuid → After Uuid
  unfolding tell_all send_pong
  handle_ping s = tell_all send_pong s.participants s

module _ {Uuid : Type 0} ⦃o : Ord Uuid⦄ (print : Uuid → Text) where
  -- removeParticipant; what it returns is `remains`.
  unfoldable pub remove_participant : Uuid → IntrospectionSender Uuid → After Uuid
  unfolding find_participant erase_participant send_bye
  remove_participant id s = elim (find_participant id s.participants) [
    | none ↦ (s, none)
    | some p ↦ forget id (send_bye print p s)
  ]

module _ {Uuid : Type 0} (read : Text → Option Uuid) where
  -- `components[components.size() - 1]`, which is undefined where there is none, read as a UUID
  abbrev pub requested : List Text → Result SenderError Uuid
  requested [] = err undefined
  requested (text ∷ []) = elim (read text) [ none ↦ err bad_uuid | some id ↦ ok id ]
  requested (text ∷ next ∷ rest) = requested (next ∷ rest)

module _ {Uuid : Type 0} ⦃o : Ord Uuid⦄ (print : Uuid → Text) (read : Text → Option Uuid) where
  -- The participant with the requested id is told about, if there is one.
  abbrev pub tell_requested :
      Result SenderError Uuid → Event Uuid Text → IntrospectionSender Uuid → After Uuid
  tell_requested (err e) query s = (s, some e)
  tell_requested (ok id) query s = elim (find_participant id s.participants) [
    | none ↦ (s, none)
    | some p ↦ send_hello print (some query) p s
  ]

  -- handleRequest
  unfoldable pub handle_request : Event Uuid Text → IntrospectionSender Uuid → After Uuid
  unfolding find_participant send_hello
  handle_request query s = tell_requested (requested read query.scope.components) query s

  -- QueryHandler::handle; the names of the types void and std::string are arguments.
  unfoldable pub handle_query :
      Text → Text → Event Uuid Text → IntrospectionSender Uuid → After Uuid
  unfolding handle_survey handle_request handle_ping
  handle_query void_type string_type query s =
      if text_eq query.type void_type
      then (if text_eq query.method (bytes "SURVEY")
          then handle_survey print query s
          else if text_eq query.method (bytes "REQUEST")
          then handle_request query s
          else (s, none))
      else if text_eq query.type string_type
      then elim query.content [
        | none ↦ (s, some undefined)
        | some text ↦ if text_eq text (bytes "ping") then handle_ping print s else (s, none)
      ]
      else (s, none)
