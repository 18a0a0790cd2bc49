-- ===== src/Patterns/Examples.antt =====
-- The theorems on calls at a remote method that has one request in progress and gets another. A UUID is
-- its own text here, and a payload is a text.
use rsb_cpp.Prelude.{
  Option, Result, ◌≡◌, refl, [], ◌∷◌, some, none, bytes, Text, ok, err, ◌>>=◌, text_eq, text_lt,
}
use rsb_cpp.Maps.{find, insert, erase, text_ord}
use rsb_cpp.Scope.Hierarchy.{made}
use rsb_cpp.Scope.Examples.{a}
use rsb_cpp.Event.{Event, EventId, new_event, add_cause, set_type, set_data, set_meta_data}
use rsb_cpp.MetaData.{new_meta_data, set_user_info}
use rsb_cpp.Participation.Informer.{
  Informer, checked_publish, unchecked_publish, next_sequence_number,
}
use rsb_cpp.Patterns.Calls.{
  RemoteMethod, pending, replied, failed, bad_assertion, call, handle_reply, resolve, resolve_first,
  outcome,
}
use rsb_cpp.Patterns.Local.{Callback, handle_request, reply_of}
use rsb_cpp.Patterns.Methods.{Method, Server}
use rsb_cpp.Patterns.Futures.{pendings}
use rsb_cpp.Patterns.Correlation.{
  IsCorrelated, request, call-IsCorrelated, handle_reply-IsCorrelated,
}
use rsb_cpp.Patterns.RequestReply.{
  future_then, future-handle_reply, posted, handle_reply-handle_request,
}
use rsb_cpp.Patterns.Callbacks.{callback, reply_with, handle_reply-callback}
use rsb_cpp.Patterns.Completion.{handle_all, handle_all-pendings}
use rsb_cpp.Patterns.Interleaving.{handle_reply-handle_reply}

abbrev informer : Informer Text
informer = record { id = bytes "client"; scope = made a; type = []; current_sequence_number = 7 }

abbrev first_id : EventId Text
first_id = record { participant_id = bytes "client"; sequence_number = 6 }

abbrev second_id : EventId Text
second_id = record { participant_id = bytes "client"; sequence_number = 7 }

-- The call 6 waits, and a call before it has failed.
abbrev waiting : RemoteMethod Text Text
waiting = record {
  informer = informer;
  inprogress = (first_id, 1) ∷ [];
  futures = failed none ∷ pending ∷ [];
}

waiting-IsCorrelated : IsCorrelated waiting
waiting-IsCorrelated = record {
  sorted = (tt, tt);
  live = (refl, tt);
  distinct = (tt, tt);
  counted = refl;
}

abbrev argument : Event Text Text
argument = set_data (some (bytes "2")) (set_type (bytes "string") (new_event [] 10))

abbrev asked : Event Text Text
asked = request argument waiting

abbrev both : RemoteMethod Text Text
both = record {
  informer = record informer { current_sequence_number = 8 };
  inprogress = (first_id, 1) ∷ (second_id, 2) ∷ [];
  futures = failed none ∷ pending ∷ pending ∷ [];
}

both-IsCorrelated : IsCorrelated both
unfolding text_eq text_lt
both-IsCorrelated = record {
  sorted = ((refl, tt), (tt, tt));
  live = (refl, (refl, tt));
  distinct = ((refl, tt), (tt, tt));
  counted = refl;
}

-- Replies to the two.
abbrev answer_to : EventId Text → Event Text Text
answer_to id = record (new_event [] 20) { causes = (id, tt) ∷ [] }

-- A reply that is flagged as an error.
abbrev flagged : EventId Text → Event Text Text
flagged id =
    set_meta_data (set_user_info (bytes "rsb:error?") [] (new_meta_data [] 20))
      (set_data (some (bytes "too late")) (set_type (bytes "string") (answer_to id)))

call-IsCorrelated_example : IsCorrelated both
unfolding call checked_publish unchecked_publish next_sequence_number find insert text_eq text_lt
call-IsCorrelated_example = call-IsCorrelated argument waiting waiting-IsCorrelated refl refl

abbrev one_done : RemoteMethod Text Text
one_done = record both {
  inprogress = (first_id, 1) ∷ [];
  futures = failed none ∷ pending ∷ replied (answer_to second_id) ∷ [];
}

handle_reply-IsCorrelated_example : IsCorrelated one_done
unfolding handle_reply resolve_first resolve outcome find erase text_eq
handle_reply-IsCorrelated_example =
    handle_reply-IsCorrelated (bytes "string") (answer_to second_id) both both-IsCorrelated refl

future-handle_reply_example :
    future_then 2 (handle_reply (bytes "string") (flagged second_id) both)
    ≡ ok (failed (some (bytes "too late")))
unfolding find text_eq insert erase
future-handle_reply_example =
    future-handle_reply (bytes "string") (flagged second_id) both 2 both-IsCorrelated

-- The same reply of another type ends the process.
wrong_type : handle_reply (bytes "text") (flagged second_id) both ≡ err bad_assertion
unfolding handle_reply resolve_first resolve outcome find insert erase text_eq
wrong_type = refl

abbrev shout : Callback Text Text
shout e = err (bytes "no voice")

abbrev server : Informer Text
server = record { id = bytes "server"; scope = made a; type = []; current_sequence_number = 0 }

abbrev posted_reply : Event Text Text
posted_reply =
    posted [] 30 (bytes "string") (λ t. t) second_id server
      (reply_of [] 30 (bytes "string") (λ t. t) (err (bytes "no voice")))

-- The callback throws, and the caller gets the text.
handle_reply-handle_request_example :
    future_then 2 (handle_reply (bytes "string") posted_reply both)
    ≡ ok (failed (some (bytes "no voice")))
unfolding call checked_publish unchecked_publish next_sequence_number find insert text_eq text_lt
    handle_request add_cause erase
handle_reply-handle_request_example =
    handle_reply-handle_request [] 30 (bytes "string") (λ t. t) none shout argument waiting server
      (record server { current_sequence_number = 1 }) waiting-IsCorrelated refl refl refl refl

handle_reply-handle_reply_example :
    (next : RemoteMethod Text Text) × ((handle_reply (bytes "string") (flagged second_id) both
        >>= λ n. handle_reply (bytes "string") (answer_to first_id) n)
      ≡ ok next)
    × ((handle_reply (bytes "string") (answer_to first_id) both >>= λ n.
          handle_reply (bytes "string") (flagged second_id) n)
        ≡ ok next)
unfolding find text_eq insert erase
handle_reply-handle_reply_example =
    handle_reply-handle_reply (bytes "string") (answer_to first_id) (flagged second_id) both
      both-IsCorrelated refl refl refl

abbrev here : Method
here = record { scope = made a; name = bytes "a" }

abbrev known : Server
known = record { scope = made []; methods = (bytes "a", here) ∷ [] }

-- A function that returns what it gets.
abbrev echo : Option Text → Result Text (Option Text)
echo value = ok value

abbrev echoed : Event Text Text
echoed =
    posted [] 30 (bytes "string") (λ t. t) second_id server
      (reply_of [] 30 (bytes "string") (λ t. t)
        (ok (reply_with [] 30 (bytes "string") (some (bytes "2")))))

handle_reply-callback_example :
    (future_then 2 (handle_reply (bytes "string") echoed both) ≡ ok (replied echoed))
    × (◌≡◌ {A = Option Text × Text}
        (echoed.content, echoed.type)
        (some (bytes "2"), bytes "string"))
unfolding call checked_publish unchecked_publish next_sequence_number find insert text_eq text_lt
    handle_request add_cause erase callback
handle_reply-callback_example =
    handle_reply-callback [] 30 (bytes "string") (λ t. t) (some (bytes "string")) (bytes "string")
      echo argument waiting server (record server { current_sequence_number = 1 })
      waiting-IsCorrelated refl refl refl

handle_all-pendings_example :
    (next : RemoteMethod Text Text) × (handle_all
        (bytes "string")
        (flagged second_id ∷ argument ∷ answer_to first_id ∷ [])
        both
      ≡ ok next)
    × (pendings next.futures ≡ 0)
unfolding find text_eq insert erase
handle_all-pendings_example =
    handle_all-pendings (bytes "string") (flagged second_id ∷ argument ∷ answer_to first_id ∷ [])
      both both-IsCorrelated (refl, (refl, (refl, tt))) (refl, (refl, tt))
