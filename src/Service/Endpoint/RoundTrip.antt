-- ===== src/Service/Endpoint/RoundTrip.antt =====
-- A whole call of a service: _call_once_service of client.py and the endpoint of service.py.
use camera_ui_rpc.Base.{◌≡◌, refl, true, String, Option, none, some, [], ◌∷◌, String_eq, same_self}
use camera_ui_rpc.Base.Result.{ok}
use camera_ui_rpc.Codec.Values.{
  Value, str, list, dict, Items, Fields, no_fields, field, text_key, field_of,
}
use camera_ui_rpc.Codec.Fields.{set_field}
use camera_ui_rpc.Handler.Generators.{Raised, Generator, format_error_dict}
use camera_ui_rpc.Client.Calls.{Outcome, result, exception, remote}
use camera_ui_rpc.Client.Handlers.{Called, returned, call_raised}
use camera_ui_rpc.Client.Handlers.RoundTrip.{
  call_message, outcome_of, seen, from_dict-format_error_dict,
}
use camera_ui_rpc.Client.ServiceCalls.{
  awaiting, settled, ServiceCall, handle_rpc_response, return_call, outcome_in, return_settled,
}
use camera_ui_rpc.Service.Endpoint.{
  Method, answered, request_kind, normal_call, handle_rpc_message, try_call, finish_request,
}

outcome_returned :
    (o : Outcome) (s : ServiceCall) → (return_settled awaiting (some o) s).progress ≡ settled o
outcome_returned (result v) s = refl
outcome_returned (exception e) s = refl

-- A response with an outcome settles a waiting call with it.
response_settles :
    (id : String) (fs : Fields) (o : Outcome) (s : ServiceCall)
    → field_of "id" fs ≡ some (str id)
    → outcome_in fs (field_of "error" fs) ≡ ok o
    → s.progress ≡ awaiting
    → s.waiting ≡ true
    → s.future ≡ none
    → s.reply_open ≡ true
    → (return_call (handle_rpc_response id (dict fs) s)).progress ≡ settled o
unfolding return_call handle_rpc_response
response_settles id fs o s has_id settles here waits open_future opened =
    rw (here, opened, waits, has_id, same_self id, settles, open_future) (outcome_returned o _)

module _ (id subject : String) (publish : Value → Option Raised)
    (sends : (v : Value) → publish v ≡ none) (s : ServiceCall) (here : s.progress ≡ awaiting)
    (waits : s.waiting ≡ true) (open_future : s.future ≡ none) (opened : s.reply_open ≡ true)
    (h : Method) (stream_raises : Generator → Option Raised) where
  finished_service_call :
      (c : Called)
      → (response : Value) × (finish_request h stream_raises publish subject
            (str id)
            (field (text_key "id") (str id) no_fields)
            (try_call (field (text_key "id") (str id) no_fields) c)
          ≡ answered subject (str id) response ∷ [])
        × ((return_call (handle_rpc_response id response s)).progress ≡ settled (outcome_of c))
  unfolding set_field field_of
  finished_service_call (returned v) = (
    dict (field (text_key "id") (str id) (field (text_key "result") v no_fields)),
    rw (sends _) refl,
    response_settles id _ (result v) s refl refl here waits open_future opened,
  )
  finished_service_call (call_raised e) = (
    dict
        (field (text_key "id") (str id) (field (text_key "error") (format_error_dict e) no_fields)),
    rw (sends _) refl,
    response_settles id _ (exception (remote (seen e))) s refl
        (rw (from_dict-format_error_dict e) refl) here waits open_future opened,
  )

-- A call of a service awaits its response, and its request reaches the endpoint as it was made,
-- with arguments that do not mark a stream or an iterator. If the endpoint's responses can be
-- published, there is one response, and the caller that handles it returns what the method
-- returned, or raises its exception with its code and message.
pub service_call_roundtrip :
    (h : Method) (stream_raises : Generator → Option Raised) (publish : Value → Option Raised)
    (id subject : String) (args : Items) (s : ServiceCall)
    → ((v : Value) → publish v ≡ none)
    → request_kind (list args) ≡ normal_call
    → s.progress ≡ awaiting
    → s.waiting ≡ true
    → s.future ≡ none
    → s.reply_open ≡ true
    → (response : Value) × (handle_rpc_message h stream_raises publish subject
          (call_message id args)
        ≡ some (answered subject (str id) response ∷ []))
      × ((return_call (handle_rpc_response id response s)).progress
          ≡ settled (outcome_of (h.call args)))
unfolding handle_rpc_message
service_call_roundtrip h stream_raises publish id subject args s sends no_marks here waits
      open_future opened =
    let (response, answers, settles) =
      finished_service_call id subject publish sends s here waits open_future opened h stream_raises
        (h.call args) in
    unfold field_of in (response, rw (no_marks, answers) refl, settles)
