-- ===== src/Patterns/Calls.antt =====
-- src/rsb/patterns/RemoteServer.cpp: the calls of a remote method and the replies to them. A future is its place in the list of all futures of the method, and what an informer
-- publishes is the event that a call returns.
use rsb_cpp.Prelude.{
  ℕ, List, [], ◌∷◌, ◌++◌, Option, none, some, if◌then◌else◌, Text, bytes, text_eq, Result, ok, err,
  ◌>>=◌, length, set,
}
use rsb_cpp.Maps.{Ord, Map, KeySet, find, erase}
use rsb_cpp.Maps.Sorted.{insert_new}
use rsb_cpp.MetaData.{has_user_info}
use rsb_cpp.Event.{Event, EventId, event_id_ord, set_scope, set_method}
use rsb_cpp.Participation.Informer.{Informer, PublishError, checked_publish}

-- rsc::threading::Future<EventPtr>; the text of an error is the reply's payload in a sentence.
pub data Outcome (Uuid Payload : Type 0) : Type 0 where
  pending : Outcome Uuid Payload
  replied : Event Uuid Payload → Outcome Uuid Payload
  failed : Option Payload → Outcome Uuid Payload

pub record RemoteMethod (Uuid Payload : Type 0) : Type 0 where
  pub informer : Informer Uuid
  pub inprogress : Map (EventId Uuid) ℕ
  pub futures : List (Outcome Uuid Payload)

-- IllegalStateException is thrown by an event without an id, the rest by the informer.
pub data CallError : Type 0 where
  illegal_state : CallError
  refused : PublishError → CallError

-- How handle ends the process, or has no defined behaviour if assertions are off: the assertion on the
-- type of an error, and a payload pointer that is null. The request is out of those in progress then.
pub data ReplyError : Type 0 where
  bad_assertion null_pointer : ReplyError

abbrev pub from_informer {ℓ} : {A : Type ℓ} → Result PublishError A → Result CallError A
from_informer (ok a) = ok a
from_informer (err e) = err (refused e)

abbrev pub known_id : {Uuid Payload : Type 0} → Event Uuid Payload → Result CallError (EventId Uuid)
known_id e = elim e.id [ none ↦ err illegal_state | some id ↦ ok id ]

module _ {Uuid Payload : Type 0} ⦃o : Ord Uuid⦄ where
  abbrev pub new_remote_method : Informer Uuid → RemoteMethod Uuid Payload
  new_remote_method i = record { informer = i; inprogress = []; futures = [] }

  -- RemoteMethod::call: the future, the request that is published and the next state.
  unfoldable pub call :
      Event Uuid Payload
      → RemoteMethod Uuid Payload
      → Result CallError (ℕ × Event Uuid Payload × RemoteMethod Uuid Payload)
  call e m =
      let request = set_method (bytes "REQUEST") (set_scope m.informer.scope e) in
      from_informer (checked_publish request m.informer) >>= λ (sent, informer).
      known_id sent >>= λ id. ok (
        length m.futures,
        sent,
        record m {
          informer = informer;
          inprogress = insert_new id (length m.futures) m.inprogress;
          futures = m.futures ++ pending ∷ [];
        },
      )

  -- What a reply makes of its future, with the name that typeName gives to std::string.
  unfoldable pub outcome : Text → Event Uuid Payload → Result ReplyError (Outcome Uuid Payload)
  outcome string_type e =
      if has_user_info (bytes "rsb:error?") e.meta_data
      then (if text_eq e.type string_type
          then elim e.content [ none ↦ err null_pointer | some text ↦ ok (failed (some text)) ]
          else err bad_assertion)
      else ok (replied e)

  -- A request that is in progress is answered.
  unfoldable pub resolve :
      Text
      → Event Uuid Payload
      → EventId Uuid
      → RemoteMethod Uuid Payload
      → Result ReplyError (RemoteMethod Uuid Payload)
  unfolding outcome
  resolve string_type e id m = elim (find id m.inprogress) [
    | none ↦ ok m
    | some f ↦ outcome string_type e >>= λ x.
        ok (record m { inprogress = erase id m.inprogress; futures = set m.futures f x })
  ]

  -- `*event->getCauses().begin()`, where there is one
  unfoldable pub resolve_first :
      Text
      → Event Uuid Payload
      → KeySet (EventId Uuid)
      → RemoteMethod Uuid Payload
      → Result ReplyError (RemoteMethod Uuid Payload)
  unfolding resolve
  resolve_first string_type e [] m = ok m
  resolve_first string_type e (entry ∷ rest) m = resolve string_type e entry.0 m

  -- RemoteMethod::handle of an event that is not null
  unfoldable pub handle_reply :
      Text
      → Event Uuid Payload
      → RemoteMethod Uuid Payload
      → Result ReplyError (RemoteMethod Uuid Payload)
  unfolding resolve_first
  handle_reply string_type e m = resolve_first string_type e e.causes m
