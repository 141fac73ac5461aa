-- ===== src/Service/Endpoint/Answers.antt =====
-- Every message to an endpoint gets one reply: service.py.
use camera_ui_rpc.Base.{◌≡◌, Option, none, some, String, List, [], ◌∷◌}
use camera_ui_rpc.Base.Result.{Result, ok}
use camera_ui_rpc.Codec.Values.{Value, dict, Fields, no_fields, field, text_key, field_of}
use camera_ui_rpc.Handler.Generators.{Raised, Generator}
use camera_ui_rpc.Client.Handlers.{value_or}
use camera_ui_rpc.Client.Handlers.Replied.{IsAnswer}
use camera_ui_rpc.Service.Endpoint.{
  Method, EndpointEffect, answered, streamed, iterator_stored, error_responded, stream_request,
  request_kind, Tried, responds, fails, runs,
}
use camera_ui_rpc.Service.Endpoint.Asked.{AsksStream, Streams, EndsNoStream}

-- the responses that are published
abbrev pub answers_of : List EndpointEffect → List (String × Value × Value)
answers_of [] = []
answers_of (answered subject id response ∷ effects) = (subject, id, response) ∷ answers_of effects
answers_of (streamed subject g ∷ effects) = answers_of effects
answers_of (iterator_stored id session ∷ effects) = answers_of effects
answers_of (error_responded code ∷ effects) = answers_of effects

abbrev begun : Value → Fields
begun id = field (text_key "id") id no_fields

-- what a message to an endpoint is replied with
pub data RepliedOnce (h : Method) (stream_raises : Generator → Option Raised) (subject : String)
    (decoded : Result Value) (effects : List EndpointEffect) : Type 0 where
  -- one response, for the id of the request, which asks for no stream that runs to its end
  answer :
      (message response : Fields) (id : Value)
      → decoded ≡ ok (dict message)
      → field_of "id" message ≡ some id
      → answers_of effects ≡ (subject, id, dict response) ∷ []
      → IsAnswer id response
      → EndsNoStream h stream_raises message
      → RepliedOnce h stream_raises subject decoded effects
  -- a request with an id for a stream that has run to its end, whose messages are its reply
  stream_run :
      (message params : Fields) (id stream_subject : Value) (g : Generator)
      → decoded ≡ ok (dict message)
      → field_of "id" message ≡ some id
      → AsksStream message params stream_subject
      → Streams h params g
      → effects ≡ streamed stream_subject g ∷ []
      → stream_raises g ≡ none
      → RepliedOnce h stream_raises subject decoded effects
  -- an error of the service, since the message is no request with an id
  service_error :
      effects ≡ error_responded "500" ∷ []
      → ((message : Fields) → decoded ≡ ok (dict message) → field_of "id" message ≡ none)
      → RepliedOnce h stream_raises subject decoded effects

module _ (h : Method) (stream_raises : Generator → Option Raised) (publish : Value → Option Raised)
    (sends : (v : Value) → publish v ≡ none) where
  -- an attempt that can be finished with one reply
  abbrev Finishable : Value → Fields → Tried → Type 0
  Finishable id message (responds effects response) =
      (answers_of effects ≡ []) × IsAnswer id response × EndsNoStream h stream_raises message
  Finishable id message (fails effects e) =
      (answers_of effects ≡ []) × EndsNoStream h stream_raises message
  Finishable id message (runs effects) =
      (fs : Fields) × (s : Value) × (g : Generator) × (effects ≡ streamed s g ∷ [])
      × (stream_raises g ≡ none)
      × AsksStream message fs s
      × Streams h fs g

  module _ (id : Value) (message fs : Fields)
      (kind : request_kind (value_or (dict no_fields) (field_of "params" message))
        ≡ stream_request fs) where
    abbrev on_subject : Value
    on_subject = value_or Value.null (field_of "__streamSubject" fs)
