-- ===== src/Patterns/Local.antt =====
-- src/rsb/patterns/LocalServer.cpp: the local side of a call. The callback, the name that typeName gives
-- to std::string and the payload that holds a text are arguments.
use rsb_cpp.Prelude.{
  ℕ, Bool, true, [], Option, none, some, if◌then◌else◌, Text, bytes, text_eq, Result, ok, err,
  ◌>>=◌,
}
use rsb_cpp.Maps.{Ord}
use rsb_cpp.MetaData.{set_user_info}
use rsb_cpp.Event.{
  Event, new_event, set_scope, set_method, set_type, set_data, set_meta_data, add_cause,
}
use rsb_cpp.Participation.Informer.{Informer, checked_publish}
use rsb_cpp.Patterns.Calls.{CallError, from_informer, known_id}

-- A callback returns the reply, or it throws something with that text.
abbrev pub Callback : Type 0 → Type 0 → Type 0
Callback Uuid Payload = Event Uuid Payload → Result Text (Event Uuid Payload)

module _ {Uuid Payload : Type 0} (nil : Uuid) (now : ℕ) (string_type : Text)
    (boxed : Text → Payload) where
  -- The reply that stands for an exception.
  abbrev pub error_reply : Text → Event Uuid Payload
  error_reply what =
      let e = set_data (some (boxed what)) (set_type string_type (new_event nil now)) in
      set_meta_data (set_user_info (bytes "rsb:error?") [] e.meta_data) e

  abbrev pub reply_of : Result Text (Event Uuid Payload) → Event Uuid Payload
  reply_of (ok reply) = reply
  reply_of (err what) = error_reply what

  -- The call of the callback.
  abbrev pub answer : Callback Uuid Payload → Event Uuid Payload → Event Uuid Payload
  answer callback e = reply_of (callback e)

  -- Only a callback with a declared type of requests checks the type.
  abbrev pub accepts : Option Text → Text → Bool
  accepts none type = true
  accepts (some expected) type = text_eq type expected

  -- LocalMethod::handle: `none` where the type of the request is not the expected one, else the reply
  -- that is published and the next state of the informer.
  unfoldable pub handle_request :
      ⦃o : Ord Uuid⦄
      → Option Text
      → Callback Uuid Payload
      → Event Uuid Payload
      → Informer Uuid
      → Result CallError (Option (Event Uuid Payload × Informer Uuid))
  unfolding add_cause
  handle_request request_type callback e i =
      if accepts request_type e.type
      then (known_id e >>= λ id.
          let reply = set_method (bytes "REPLY") (set_scope i.scope (answer callback e)) in
          from_informer (checked_publish (add_cause id reply).0 i) >>= λ sent. ok (some sent))
      else ok none
