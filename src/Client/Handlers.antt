-- ===== src/Client/Handlers.antt =====
-- `handle_message` of RPCClient.register_handler in client.py: what a responder does with a
-- request, with handle_normal_rpc of handler.py. What the user's handler does is a parameter, and so
-- is whether a response can be encoded and published. The clock is read as `start` and `finish`.
pub mod Answers
pub mod RoundTrip
pub mod Unsent
pub mod Tests
pub mod Replied
use camera_ui_rpc.Base.{
  ℕ, Bool, true, false, ◌&&◌, String, Option, none, some, List, [], ◌∷◌, ◌++◌, ◌==◌, String_eq,
  if◌then◌else◌,
}
use camera_ui_rpc.Codec.Values.{
  Value, null, bool, int, pos, str, list, dict, Items, no_items, item, Fields, no_fields, field,
  text_key, field_of,
}
use camera_ui_rpc.Codec.Fields.{truthy?, set_field}
use camera_ui_rpc.Handler.Generators.{
  Raised, other_exception, Generator, Handler, Got, generator, failed, get_generator,
  format_error_dict,
}
use camera_ui_rpc.Handler.Pull.{Session, Opened, opened, refused, handle_pull_iterator_request}
use camera_ui_rpc.Handler.PullCallback.{
  CallbackSession, CallbackOpened, callbacks_opened, callbacks_refused,
  handle_pull_callback_request,
}

-- what a call of a handler comes to
pub data Called : Type 0 where
  returned : Value → Called
  call_raised : Raised → Called

pub record Behaviour : Type 0 where
  -- as a stream or an iterator, for these arguments
  pub streaming : Value → Handler
  -- the exception of handle_callback_request, if any
  pub subscribing : Value → Option Raised
  pub call : Items → Called

pub data Effect : Type 0 where
  -- published on the reply subject of the request with this id
  replied : Value → Value → Effect
  stream_started : Value → Generator → Effect
  pull_stored : Value → Session → Effect
  pull_callbacks_stored : Value → CallbackSession → Effect
  callback_stored : Value → Effect

-- the kind of a request, with the dictionary of its parameters
pub data Kind : Type 0 where
  stream pull pull_callback callback : Fields → Kind
  plain : Kind

abbrev pub value_or : Value → Option Value → Value
value_or other none = other
value_or other (some value) = value

-- `value is not None`
abbrev pub is_given : Option Value → Bool
is_given none = false
is_given (some null) = false
is_given (some value) = true

abbrev pub is_true : Option Value → Bool
is_true (some (bool b)) = b
is_true _ = false

-- a dictionary, itself or first in a list, with a true `key`
abbrev pub marked : String → Value → Option Fields
marked key (dict fs) = if truthy? (field_of key fs) then some fs else none
marked key (list (item (dict fs) rest)) = if truthy? (field_of key fs) then some fs else none
marked key params = none

-- a dictionary with both keys
abbrev pub with_both : String → String → Value → Option Fields
with_both key other (dict fs) =
    if is_given (field_of key fs) && is_given (field_of other fs) then some fs else none
with_both key other params = none

-- the callback test; a list has the mark in its first dictionary
abbrev pub marked_callback : Value → Option Fields
marked_callback (list items) = marked "__callback" (list items)
marked_callback params = with_both "__callback" "__callbackSubject" params

abbrev pub kind_or : (Fields → Kind) → Option Fields → Kind → Kind
kind_or kind (some fs) other = kind fs
kind_or kind none other = other

-- the order of the tests
unfoldable pub kind_of : Value → Kind
unfolding field_of
kind_of params = kind_or stream (with_both "__stream" "__streamSubject" params) (
    kind_or pull (marked "__pullIterator" params) (
      kind_or pull_callback (marked "__pullCallback" params)
        (kind_or callback (marked_callback params) plain)))

abbrev pub args_of : Fields → Value
args_of fs = value_or (list no_items) (field_of "args" fs)

abbrev pub text_items : Items → List String
text_items no_items = []
text_items (item (str s) xs) = s ∷ text_items xs
text_items (item x xs) = text_items xs

abbrev pub oneway_of : Option Value → List String
oneway_of (some (list xs)) = text_items xs
oneway_of _ = []

-- the arguments that `handle_normal_rpc` passes
abbrev pub positional : Value → Items
positional (list xs) = xs
positional null = no_items
positional value = item value no_items

abbrev pub iterator_result : Value → Fields → Fields
iterator_result iterator_id response =
    set_field "result" (dict (field (text_key "iteratorId") iterator_id no_fields)) response

-- `response["__timing"]`
abbrev pub timed : Bool → ℕ → ℕ → Fields → Fields
timed wants_timing start finish response =
    if wants_timing
    then set_field "__timing"
        (dict (
          field (text_key "start") (int (pos start))
            (field (text_key "end") (int (pos finish)) no_fields)))
        response
    else response

-- what the `try` block does up to its publishing: the response to publish, an exception, or a
-- stream, which has no response
pub data Attempt : Type 0 where
  answers : List Effect → Fields → Attempt
  raises : Raised → Attempt
  starts : List Effect → Attempt

-- a stream that cannot start is only printed
abbrev pub try_stream : Fields → Got → Attempt
try_stream fs (generator g) =
    starts (stream_started (value_or null (field_of "__streamSubject" fs)) g ∷ [])
try_stream fs (failed e) = starts []

abbrev pub try_pull : Value → Fields → Opened → Attempt
try_pull iterator_id response (opened session) =
    answers (pull_stored iterator_id session ∷ []) (iterator_result iterator_id response)
try_pull iterator_id response (refused e) = raises e

abbrev pub try_pull_callback : Value → Fields → CallbackOpened → Attempt
try_pull_callback iterator_id response (callbacks_opened session) =
    answers (pull_callbacks_stored iterator_id session ∷ []) (iterator_result iterator_id response)
try_pull_callback iterator_id response (callbacks_refused e) = raises e

-- the subject of the callback may be missing behind a list
abbrev pub try_callback : Value → Fields → Option Value → Option Raised → Attempt
try_callback id response none outcome = raises (other_exception "'__callbackSubject'")
try_callback id response (some subject) (some e) = raises e
try_callback id response (some subject) none =
    answers (callback_stored id ∷ [])
      (set_field "result" (dict (field (text_key "ok") (bool true) no_fields)) response)

abbrev pub try_plain : Bool → ℕ → ℕ → Fields → Called → Attempt
try_plain wants_timing start finish response (returned value) =
    answers [] (set_field "result" value (timed wants_timing start finish response))
try_plain wants_timing start finish response (call_raised e) = raises e

abbrev pub is_code : String → Option Value → Bool
is_code wanted (some (str s)) = s == wanted
is_code wanted _ = false

abbrev pub code_in : Value → Option Value
code_in (dict fs) = field_of "code" fs
code_in value = none

abbrev pub error_response : Value → Fields → Value → Fields
error_response methods response error =
    let with_error = set_field "error" error response in
    if is_code "METHOD_NOT_FOUND" (code_in error)
    then set_field "__methods" methods with_error
    else with_error

-- the response that every branch starts from
abbrev pub initial : Value → Value → Bool → Fields
initial methods id discover =
    let response = field (text_key "id") id no_fields in
    if discover then set_field "__methods" methods response else response

abbrev pub published : Value → Value → Option Raised → List Effect
published id response none = replied id response ∷ []
published id response (some e) = []

module _ (b : Behaviour) (methods : Value) (publish : Value → Option Raised)
    (start finish : ℕ) where
  abbrev pub attempt : Value → Fields → Fields → Kind → Attempt
  attempt id message response (stream fs) =
      try_stream fs
        (get_generator "Handler must return a generator for stream" (b.streaming (args_of fs)))
  attempt id message response (pull fs) =
      try_pull (value_or id (field_of "__iteratorId" fs)) response
        (handle_pull_iterator_request (b.streaming (args_of fs)))
  attempt id message response (pull_callback fs) =
      try_pull_callback (value_or id (field_of "__iteratorId" fs)) response (
        handle_pull_callback_request (oneway_of (field_of "__onewayMethods" fs))
          (b.streaming (args_of fs)))
  attempt id message response (callback fs) =
      try_callback id response (field_of "__callbackSubject" fs) (b.subscribing (args_of fs))
  attempt id message response plain =
      try_plain (is_true (field_of "__timing" message)) start finish response
        (b.call (positional (value_or (list no_items) (field_of "params" message))))

  -- the `except` branch, which keeps what the response has
  abbrev pub answer_error : Value → Fields → Raised → List Effect
  answer_error id response e =
      let response' = dict (error_response methods response (format_error_dict e)) in
      published id response' (publish response')

  abbrev pub answer : Value → Fields → Option Raised → List Effect
  answer id response none = replied id (dict response) ∷ []
  answer id response (some e) = answer_error id response e

  abbrev pub finish_attempt : Value → Fields → Attempt → List Effect
  finish_attempt id response (starts effects) = effects
  finish_attempt id response (raises e) = answer_error id response e
  finish_attempt id response (answers effects response') =
      effects ++ answer id response' (publish (dict response'))

  abbrev pub handle_request : Fields → Option Value → List Effect
  handle_request message none = []
  handle_request message (some id) =
      let response = initial methods id (is_true (field_of "__discover" message)) in
      finish_attempt id response
        (attempt id message response (kind_of (value_or null (field_of "params" message))))

  -- A message without an id, or that is no dictionary, raises before the `try`.
  unfoldable pub handle_message : Value → List Effect
  handle_message (dict message) = handle_request message (field_of "id" message)
  handle_message message = []
