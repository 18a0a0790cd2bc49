-- ===== src/Patterns/Callbacks.antt =====
-- src/rsb/patterns/LocalServer.h: the callbacks that are made of functions on data. A function returns the
-- data of the reply, or it throws something with that text; `none` is a null pointer, as for void.
use rsb_cpp.Prelude.{
  ℕ, ◌≡◌, refl, ap, sym, ◌∙◌, [], Option, none, some, Text, Result, ok, err, ◌>>=◌,
}
use rsb_cpp.Maps.{Ord, find}
use rsb_cpp.Event.{Event, EventId, event_id_ord, new_event, set_type, set_data}
use rsb_cpp.Participation.Informer.{Informer}
use rsb_cpp.Patterns.Calls.{RemoteMethod, Outcome, replied, failed, call, handle_reply}
use rsb_cpp.Patterns.Local.{Callback, handle_request, reply_of}
use rsb_cpp.Patterns.Correlation.{IsCorrelated, request_id, call-eq}
use rsb_cpp.Patterns.RequestReply.{
  future_then, posted, promised, handle_request-eq, handle_reply-handle_request,
}

module _ {Uuid Payload : Type 0} (nil : Uuid) (now : ℕ) where
  -- The reply with that data.
  abbrev pub reply_with : Text → Option Payload → Event Uuid Payload
  reply_with type value = set_data value (set_type type (new_event nil now))

  -- AnyReplyTypeCallback
  unfoldable pub any_reply_type_callback :
      (Option Payload → Result Text (Text × Option Payload)) → Callback Uuid Payload
  any_reply_type_callback function request =
      function request.content >>= λ (type, value). ok (reply_with type value)

  -- Callback and FunctionCallback from a request type to a reply type
  unfoldable pub callback :
      Text → (Option Payload → Result Text (Option Payload)) → Callback Uuid Payload
  callback reply_type function request =
      function request.content >>= λ value. ok (reply_with reply_type value)

  -- from a request type to void
  unfoldable pub callback_to_void :
      Text → (Option Payload → Result Text (Unit {0})) → Callback Uuid Payload
  callback_to_void void_type function request =
      function request.content >>= λ u. ok (reply_with void_type none)

  -- from void to a reply type
  unfoldable pub callback_from_void : Text → Result Text (Option Payload) → Callback Uuid Payload
  callback_from_void reply_type function request =
      function >>= λ value. ok (reply_with reply_type value)

  -- from void to void
  unfoldable pub callback_of_void : Text → Result Text (Unit {0}) → Callback Uuid Payload
  callback_of_void void_type function request = function >>= λ u. ok (reply_with void_type none)

module _ {Uuid Payload : Type 0} ⦃o : Ord Uuid⦄ (nil : Uuid) (now : ℕ) (string_type : Text)
    (boxed : Text → Payload) where
  -- What the caller of a function gets: its value in a reply of its type, or the text it threw.
  abbrev pub result_of : Result Text (Option Payload) → Event Uuid Payload → Outcome Uuid Payload
  result_of (err what) reply = failed (some (boxed what))
  result_of (ok value) reply = replied reply

  plain_answer :
      (reply_type : Text) (r : Result Text (Option Payload))
      → (reply_of nil now string_type boxed
          (r >>= λ value. ok (reply_with nil now reply_type value))).causes
        ≡ []
  plain_answer reply_type (ok value) = refl
  plain_answer reply_type (err what) = refl

  promised-result :
      (reply_type : Text) (r : Result Text (Option Payload)) (reply : Event Uuid Payload)
      → promised nil now string_type boxed
          (r >>= λ value. ok (reply_with nil now reply_type value))
          reply
        ≡ ok (result_of r reply)
  unfolding find
  promised-result reply_type (ok value) reply = refl
  promised-result reply_type (err what) reply = refl

  -- The data and the type of the reply.
  abbrev pub shown : Text → Result Text (Option Payload) → Option Payload × Text
  shown reply_type (ok value) = (value, reply_type)
  shown reply_type (err what) = (some (boxed what), string_type)

  posted-shown :
      (reply_type : Text) (id : EventId Uuid) (i : Informer Uuid) (r : Result Text (Option Payload))
      → let reply =
          posted nil now string_type boxed id i (
            reply_of nil now string_type boxed (r >>= λ v. ok (reply_with nil now reply_type v))) in
        (reply.content, reply.type) ≡ shown reply_type r
  posted-shown reply_type id i (ok v) = refl
  posted-shown reply_type id i (err what) = refl

  -- A call of a function that is registered with its types: if the request is published under an id that
  -- is not in progress, and the local method publishes a reply to it, the reply has the value of the
  -- function at the data of the request and the declared type, or the text that the function threw;
  -- and when it comes back the caller's future is finished with the reply, or with that text.
  pub handle_reply-callback :
      (request_type : Option Text) (reply_type : Text)
      (function : Option Payload → Result Text (Option Payload)) (e : Event Uuid Payload)
      (m : RemoteMethod Uuid Payload) (i j : Informer Uuid) {f : ℕ}
      {sent reply : Event Uuid Payload} {next : RemoteMethod Uuid Payload}
      → IsCorrelated m
      → find (request_id m) m.inprogress ≡ none
      → call e m ≡ ok (f, sent, next)
      → handle_request nil now string_type boxed request_type
          (callback nil now reply_type function)
          sent
          i
        ≡ ok (some (reply, j))
      → (future_then f (handle_reply string_type reply next)
          ≡ ok (result_of (function e.content) reply))
        × ((reply.content, reply.type) ≡ shown reply_type (function e.content))
  unfolding callback
  handle_reply-callback request_type reply_type function e m i j {f} {sent} {reply} {next} h fresh
        asked done =
      let id = request_id m in
      let made = call-eq e m asked in
      let same_data : e.content ≡ sent.content = ap (λ r. r.1.content) made in
      let known : sent.id ≡ some id = sym (ap (λ r. r.1.id) made) in
      let plain = plain_answer reply_type (function sent.content) in
      let same =
        handle_request-eq nil now string_type boxed request_type
          (callback nil now reply_type function) sent i j id reply known plain done in
      (
        handle_reply-handle_request nil now string_type boxed request_type
              (callback nil now reply_type function) e m i j h fresh asked plain done
            ∙ promised-result reply_type (function sent.content) reply
            ∙ ap (λ c. ok (result_of (function c) reply)) (sym same_data),
        ap (λ r. (r.content, r.type)) (sym same)
            ∙ posted-shown reply_type id i (function sent.content)
            ∙ ap (λ c. shown reply_type (function c)) (sym same_data),
      )
