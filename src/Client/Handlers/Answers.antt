-- ===== src/Client/Handlers/Answers.antt =====
-- Every request but a stream gets one answer: handle_message of client.py.
use camera_ui_rpc.Base.{
  ℕ, ◌≡◌, ◌≢◌, refl, ap, ◌∙◌, Bool, Option, none, some, List, [], ◌∷◌, ◌++◌, String_eq,
}
use camera_ui_rpc.Codec.Values.{Value, null, list, dict, no_items, Fields, field_of}
use camera_ui_rpc.Handler.Generators.{Raised, format_error_dict}
use camera_ui_rpc.Handler.Pull.{Opened, opened, refused, handle_pull_iterator_request}
use camera_ui_rpc.Handler.PullCallback.{
  CallbackOpened, callbacks_opened, callbacks_refused, handle_pull_callback_request,
}
use camera_ui_rpc.Client.Handlers.{
  Called, returned, call_raised, Behaviour, Effect, replied, stream_started, pull_stored,
  pull_callbacks_stored, callback_stored, Kind, stream, pull, pull_callback, callback, plain,
  kind_of, value_or, is_true, with_both, kind_or, Attempt, answers, raises, starts, attempt, timed,
  initial, try_pull, try_pull_callback, try_callback, try_plain, error_response, finish_attempt,
  handle_message, marked, marked_callback, args_of, oneway_of, positional,
}
use camera_ui_rpc.Client.Handlers.Replied.{
  replies, IsAnswer, Begun, initial-Begun, timed-Begun, result-IsAnswer, error-IsAnswer,
}

-- exactly one answer for the request `id` among the effects
abbrev pub AnsweredOnce : Value → List Effect → Type 0
AnsweredOnce id effects =
    (response : Fields) × (replies effects ≡ (id, dict response) ∷ []) × IsAnswer id response

-- an attempt that has a response or raises, with nothing published yet
abbrev Answerable : Value → Attempt → Type 0
Answerable id (answers effects response) = (replies effects ≡ []) × IsAnswer id response
Answerable id (raises e) = Unit
Answerable id (starts effects) = ⊥

replies-append : (xs ys : List Effect) → replies (xs ++ ys) ≡ replies xs ++ replies ys
replies-append [] ys = refl
replies-append (replied id response ∷ xs) ys = ap (◌∷◌ (id, response)) (replies-append xs ys)
replies-append (stream_started subject g ∷ xs) ys = replies-append xs ys
replies-append (pull_stored id session ∷ xs) ys = replies-append xs ys
replies-append (pull_callbacks_stored id session ∷ xs) ys = replies-append xs ys
replies-append (callback_stored id ∷ xs) ys = replies-append xs ys

module _ (methods : Value) (id : Value) (response : Fields) (h : Begun methods id response) where
  pull-Answerable :
      (iterator_id : Value) (o : Opened) → Answerable id (try_pull iterator_id response o)
  pull-Answerable iterator_id (opened session) = (refl, result-IsAnswer methods id _ response h)
  pull-Answerable iterator_id (refused e) = tt

  pull_callback-Answerable :
      (iterator_id : Value) (o : CallbackOpened)
      → Answerable id (try_pull_callback iterator_id response o)
  pull_callback-Answerable iterator_id (callbacks_opened session) =
      (refl, result-IsAnswer methods id _ response h)
  pull_callback-Answerable iterator_id (callbacks_refused e) = tt

  callback-Answerable :
      (subject : Option Value) (o : Option Raised)
      → Answerable id (try_callback id response subject o)
  callback-Answerable none o = tt
  callback-Answerable (some subject) (some e) = tt
  callback-Answerable (some subject) none = (refl, result-IsAnswer methods id _ response h)

  plain-Answerable :
      (wants : Bool) (start finish : ℕ) (c : Called)
      → Answerable id (try_plain wants start finish response c)
  plain-Answerable wants start finish (returned value) = (
    refl,
    result-IsAnswer methods id value (timed wants start finish response)
        (timed-Begun methods wants start finish id response h),
  )
  plain-Answerable wants start finish (call_raised e) = tt

  attempt-Answerable :
      (b : Behaviour) (publish : Value → Option Raised) (start finish : ℕ) (message : Fields)
      (k : Kind)
      → ((fs : Fields) → k ≢ stream fs)
      → Answerable id (attempt b methods publish start finish id message response k)
  attempt-Answerable b publish start finish message (stream fs) other = absurd (other fs refl)
  attempt-Answerable b publish start finish message (pull fs) other =
      pull-Answerable (value_or id (field_of "__iteratorId" fs))
        (handle_pull_iterator_request (b.streaming (args_of fs)))
  attempt-Answerable b publish start finish message (pull_callback fs) other =
      pull_callback-Answerable (value_or id (field_of "__iteratorId" fs)) (
        handle_pull_callback_request (oneway_of (field_of "__onewayMethods" fs))
          (b.streaming (args_of fs)))
  attempt-Answerable b publish start finish message (callback fs) other =
      callback-Answerable (field_of "__callbackSubject" fs) (b.subscribing (args_of fs))
  attempt-Answerable b publish start finish message plain other =
      plain-Answerable (is_true (field_of "__timing" message)) start finish
        (b.call (positional (value_or (list no_items) (field_of "params" message))))

  finished_once :
      (b : Behaviour) (publish : Value → Option Raised) (start finish : ℕ) (a : Attempt)
      → ((v : Value) → publish v ≡ none)
      → Answerable id a
      → AnsweredOnce id (finish_attempt b methods publish start finish id response a)
  finished_once b publish start finish (answers effects response') sends (silent, answer) =
      rw (sends (dict response')) (
        response',
        replies-append effects (replied id (dict response') ∷ []) ∙ rw silent refl,
        answer,
      )
  finished_once b publish start finish (raises e) sends answerable =
      let response' = error_response methods response (format_error_dict e) in
      rw (sends (dict response'))
        (response', refl, error-IsAnswer methods id (format_error_dict e) response h)
  finished_once b publish start finish (starts effects) sends answerable = absurd answerable

kinds-ne-stream :
    (w x y z : Option Fields) (fs : Fields)
    → w ≡ none
    → kind_or stream w (kind_or pull x (kind_or pull_callback y (kind_or callback z plain)))
      ≢ stream fs
kinds-ne-stream (some f) x y z fs h e = cc h
kinds-ne-stream none (some f) y z fs h e = cc e
kinds-ne-stream none none (some f) z fs h e = cc e
kinds-ne-stream none none none (some f) fs h e = cc e
kinds-ne-stream none none none none fs h e = cc e

kind-ne-stream :
    (params : Value)
    → with_both "__stream" "__streamSubject" params ≡ none
    → (fs : Fields) → kind_of params ≢ stream fs
unfolding kind_of
kind-ne-stream params h fs =
    kinds-ne-stream (with_both "__stream" "__streamSubject" params) (marked "__pullIterator" params)
      (marked "__pullCallback" params) (marked_callback params) fs h

-- A request that has an id and is no stream gets exactly one answer, whatever its handler does, if
-- responses can be published: it goes to the request's id, carries that id, and has either a
-- result or an error.
pub answered_once :
    (b : Behaviour) (methods : Value) (publish : Value → Option Raised) (start finish : ℕ)
    (message : Fields) (id : Value)
    → ((v : Value) → publish v ≡ none)
    → field_of "id" message ≡ some id
    → with_both "__stream" "__streamSubject" (value_or null (field_of "params" message)) ≡ none
    → AnsweredOnce id (handle_message b methods publish start finish (dict message))
unfolding handle_message
answered_once b methods publish start finish message id sends has_id no_stream =
    let params = value_or null (field_of "params" message) in
    let response = initial methods id (is_true (field_of "__discover" message)) in
    let begun = initial-Begun methods id (is_true (field_of "__discover" message)) in
    rw has_id (
      finished_once methods id response begun b publish start finish
        (attempt b methods publish start finish id message response (kind_of params)) sends
        (attempt-Answerable methods id response begun b publish start finish message
          (kind_of params) (kind-ne-stream params no_stream)))
