-- ===== src/Service/Endpoint.antt =====
-- The endpoint handlers of RPCService.register_handler in service.py. What the method does is a
-- parameter, and so is whether a response can be published, and what a stream raises that has
-- started. The completion callback of this endpoint is numbered `me` in the chunking manager of its
-- client. A reply subject `{subject}.reply.{id}` is given as the pair of the two. The numbers of a
-- chunk header are counts.
pub mod Asked
pub mod Answers
pub mod RoundTrip
pub mod Tests
use camera_ui_rpc.Base.{
  ℕ, Bool, true, false, ◌&&◌, String, Option, none, some, List, [], ◌∷◌, ◌++◌, nat_eq,
  if◌then◌else◌,
}
use camera_ui_rpc.Base.Result.{Result, ok, err}
use camera_ui_rpc.Codec.Values.{
  Value, list, dict, no_items, Items, Fields, no_fields, field, text_key, field_of, as_count?,
}
use camera_ui_rpc.Codec.Fields.{truthy?, set_field}
use camera_ui_rpc.Codec.Frame.{decode_message}
use camera_ui_rpc.Handler.Generators.{
  Raised, Generator, Handler, Got, generator, failed, get_generator, format_error_dict,
}
use camera_ui_rpc.Handler.Pull.{Session, Opened, opened, refused, handle_pull_iterator_request}
use camera_ui_rpc.Chunking.Manager.{
  ChunkingManager, Event, completed, Transfer, start_receiving, process_chunk,
}
use camera_ui_rpc.Chunking.Manager.Arrivals.{raw_chunk}
use camera_ui_rpc.Client.Dispatch.{Headers, given, is_text, is_type, transfer_with}
use camera_ui_rpc.Client.Handlers.{
  Called, returned, call_raised, value_or, marked, args_of, positional, iterator_result,
}

-- what the method of an endpoint does
pub record Method : Type 0 where
  -- as a stream or an iterator, for these arguments
  pub streaming : Value → Handler
  pub call : Items → Called

-- a message with its subject
pub record Request : Type 0 where
  pub subject : String
  pub headers : Headers
  pub bytes : List ℕ

pub data EndpointEffect : Type 0 where
  -- published on the reply subject of this subject and id
  answered : String → Value → Value → EndpointEffect
  streamed : Value → Generator → EndpointEffect
  iterator_stored : Value → Session → EndpointEffect
  -- `msg.respond_error` with this code
  error_responded : String → EndpointEffect

pub data RequestKind : Type 0 where
  stream_request iterator_request : Fields → RequestKind
  normal_call : RequestKind

abbrev pub stream_fields : Value → Option Fields
stream_fields (dict fs) =
    if truthy? (field_of "__stream" fs) && truthy? (field_of "__streamSubject" fs)
    then some fs
    else none
stream_fields params = none

abbrev pub unless_stream : Option Fields → Option Fields → RequestKind
unless_stream (some fs) iterator = stream_request fs
unless_stream none (some fs) = iterator_request fs
unless_stream none none = normal_call

unfoldable pub request_kind : Value → RequestKind
unfolding field_of
request_kind params = unless_stream (stream_fields params) (marked "__pullIterator" params)

-- what the `try` block does up to its publishing
pub data Tried : Type 0 where
  responds : List EndpointEffect → Fields → Tried
  fails : List EndpointEffect → Raised → Tried
  runs : List EndpointEffect → Tried

abbrev pub try_iterator : Value → Fields → Opened → Tried
try_iterator iterator_id response (opened session) =
    responds (iterator_stored iterator_id session ∷ []) (iterator_result iterator_id response)
try_iterator iterator_id response (refused e) = fails [] e

abbrev pub try_call : Fields → Called → Tried
try_call response (returned value) = responds [] (set_field "result" value response)
try_call response (call_raised e) = fails [] e

abbrev pub stream_over : List EndpointEffect → Option Raised → Tried
stream_over effects none = runs effects
stream_over effects (some e) = fails effects e

abbrev pub published_on : String → Value → Value → Option Raised → List EndpointEffect
published_on subject id response none = answered subject id response ∷ []
published_on subject id response (some e) = []

-- what a transfer header comes to
pub data HeaderRead : Type 0 where
  ignored unreadable : HeaderRead
  announces : Transfer → HeaderRead

abbrev pub announces_if : Option Transfer → HeaderRead
announces_if none = unreadable
announces_if (some t) = announces t

-- The id of the headers is tested before the dictionary is read.
unfoldable pub read_header : ℕ → Option String → Value → HeaderRead
unfolding field_of
read_header me none value = ignored
read_header me (some id) (dict fs) =
    if is_text id (field_of "transferId" fs)
    then announces_if (transfer_with me id fs (as_count? (field_of "totalChunks" fs)))
    else ignored
read_header me (some id) value = unreadable

module _ (h : Method) (stream_raises : Generator → Option Raised)
    (publish : Value → Option Raised) where
  abbrev pub try_stream_request : Value → Got → Tried
  try_stream_request stream_subject (generator g) =
      stream_over (streamed stream_subject g ∷ []) (stream_raises g)
  try_stream_request stream_subject (failed e) = fails [] e

  abbrev pub try_request : Value → Fields → Fields → RequestKind → Tried
  try_request id message response (stream_request fs) =
      try_stream_request (value_or Value.null (field_of "__streamSubject" fs))
        (get_generator "Handler must return a generator for stream" (h.streaming (args_of fs)))
  try_request id message response (iterator_request fs) =
      try_iterator (value_or id (field_of "__iteratorId" fs)) response
        (handle_pull_iterator_request (h.streaming (args_of fs)))
  try_request id message response normal_call =
      try_call response (h.call (positional (value_or (list no_items) (field_of "params" message))))

  -- the `except` branch, which keeps what the response has
  abbrev pub respond_failure : String → Value → Fields → Raised → List EndpointEffect
  respond_failure subject id response e =
      let response' = dict (set_field "error" (format_error_dict e) response) in
      published_on subject id response' (publish response')

  abbrev pub respond : String → Value → Fields → Option Raised → List EndpointEffect
  respond subject id response none = answered subject id (dict response) ∷ []
  respond subject id response (some e) = respond_failure subject id response e

  abbrev pub finish_request : String → Value → Fields → Tried → List EndpointEffect
  finish_request subject id response (responds effects response') =
      effects ++ respond subject id response' (publish (dict response'))
  finish_request subject id response (fails effects e) =
      effects ++ respond_failure subject id response e
  finish_request subject id response (runs effects) = effects

  -- `rpc_msg["id"]` may raise, out of the function
  abbrev pub handle_with_id : String → Fields → Option Value → Option (List EndpointEffect)
  handle_with_id subject message none = none
  handle_with_id subject message (some id) =
      let response = field (text_key "id") id no_fields in
      some (
        finish_request subject id response (
          try_request id message response
            (request_kind (value_or (dict no_fields) (field_of "params" message)))))

  unfoldable pub handle_rpc_message : String → Value → Option (List EndpointEffect)
  unfolding field_of
  handle_rpc_message subject (dict message) = handle_with_id subject message (field_of "id" message)
  handle_rpc_message subject value = none

  -- the `except` branch of the endpoint; these exceptions have no code of their own
  abbrev pub or_respond_error : Option (List EndpointEffect) → List EndpointEffect
  or_respond_error none = error_responded "500" ∷ []
  or_respond_error (some effects) = effects

  -- the task of an assembled message, whose exception nobody reads
  abbrev pub handle_assembled_data : String → Value → List EndpointEffect
  handle_assembled_data subject value = or_lost (handle_rpc_message subject value)
    where
      or_lost : Option (List EndpointEffect) → List EndpointEffect
      or_lost none = []
      or_lost (some effects) = effects

  -- the tasks that the completion callback of this endpoint creates
  abbrev pub run_tasks : ℕ → String → List (Event Value) → List EndpointEffect
  run_tasks me subject [] = []
  run_tasks me subject (completed k value ∷ events) =
      let later = run_tasks me subject events in
      if nat_eq k me then handle_assembled_data subject value ++ later else later
  run_tasks me subject (Event.failed k why ∷ events) = run_tasks me subject events

  abbrev pub handle_regular_request : String → Result Value → List EndpointEffect
  handle_regular_request subject (err e) = error_responded "500" ∷ []
  handle_regular_request subject (ok value) = or_respond_error (handle_rpc_message subject value)

  module _ (allocates : ℕ → Bool) (unpackb : List ℕ → Result Value) where
    abbrev pub assembled :
        ℕ → String → ChunkingManager × List (Event Value) → ChunkingManager × List EndpointEffect
    assembled me subject (m, events) = (m, run_tasks me subject events)

    abbrev pub start_transfer :
        ℕ → ℕ → String → HeaderRead → ChunkingManager → ChunkingManager × List EndpointEffect
    start_transfer me now subject ignored m = (m, [])
    start_transfer me now subject unreadable m = (m, error_responded "500" ∷ [])
    start_transfer me now subject (announces t) m =
        assembled me subject (start_receiving allocates m now t)

    abbrev pub endpoint_header :
        ℕ → ℕ → Request → Result Value → ChunkingManager → ChunkingManager × List EndpointEffect
    endpoint_header me now msg (err e) m = (m, error_responded "500" ∷ [])
    endpoint_header me now msg (ok value) m =
        start_transfer me now msg.subject (read_header me (given msg.headers.chunk_id) value) m

    -- The index is read first. The callback has the subject of its header, which is that of the
    -- endpoint.
    abbrev pub endpoint_chunk :
        ℕ
        → ℕ
        → Request
        → Option String
        → Result ℕ
        → ChunkingManager
        → ChunkingManager × List EndpointEffect
    endpoint_chunk me now msg id (err e) m = (m, error_responded "500" ∷ [])
    endpoint_chunk me now msg none (ok index) m = (m, [])
    endpoint_chunk me now msg (some id) (ok index) m =
        assembled me msg.subject
          (process_chunk (decode_message unpackb) m now (raw_chunk id index msg.bytes))

    unfoldable pub endpoint_handler :
        ℕ → ℕ → Request → ChunkingManager → ChunkingManager × List EndpointEffect
    endpoint_handler me now msg m =
        if is_type "header" msg.headers.chunk_type
        then endpoint_header me now msg (unpackb msg.bytes) m
        else if is_type "chunk" msg.headers.chunk_type
        then endpoint_chunk me now msg (given msg.headers.chunk_id) msg.headers.chunk_index m
        else (m, handle_regular_request msg.subject (decode_message unpackb msg.bytes))
