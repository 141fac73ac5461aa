-- ===== src/Client/Handlers/RoundTrip.antt =====
-- A whole call: _call_once, handle_message and _route_mux_response, all in client.py.
use camera_ui_rpc.Base.{
  ℕ, ◌≡◌, ◌≢◌, refl, ◌∙◌, Bool, true, false, String, Option, none, some, [], ◌∷◌, ◌==◌, String_eq,
  if◌then◌else◌, eq_of_same, same_self, arith,
}
use camera_ui_rpc.Base.Result.{ok}
use camera_ui_rpc.Base.Dict.{lookup-insert, lookup}
use camera_ui_rpc.Codec.Values.{
  Value, null, str, list, dict, Items, Fields, no_fields, field, text_key, field_of,
}
use camera_ui_rpc.Codec.Fields.{set_field}
use camera_ui_rpc.Errors.{RpcException, from_dict, from_dict-to_dict}
use camera_ui_rpc.Handler.Generators.{Raised, rpc_exception, other_exception, format_error_dict}
use camera_ui_rpc.Client.Calls.{
  Calls, Outcome, result, exception, remote, set_future, settle_response, take_pending,
  route_mux_response,
}
use camera_ui_rpc.Client.Handlers.{
  finish_attempt, try_plain, Called, returned, call_raised, Behaviour, replied, kind_of, plain,
  handle_message, error_response, is_code, code_in,
}

-- the request of `_call_once`, as it arrives
abbrev pub call_message : String → Items → Value
call_message id args = dict (
    field (text_key "id") (str id)
      (field (text_key "method") (str "call") (field (text_key "params") (list args) no_fields)))

-- what a caller is to see of an exception of the handler
abbrev pub seen : Raised → RpcException
seen (rpc_exception e) = e
seen (other_exception text) = record {
  code = str "INTERNAL_ERROR";
  message = str text;
  payload = null;
}

abbrev pub outcome_of : Called → Outcome
outcome_of (returned value) = result value
outcome_of (call_raised e) = exception (remote (seen e))

pub from_dict-format_error_dict : (e : Raised) → from_dict (format_error_dict e) ≡ ok (seen e)
unfolding format_error_dict
from_dict-format_error_dict (rpc_exception e) = from_dict-to_dict e
from_dict-format_error_dict (other_exception text) = unfold from_dict field_of in refl

-- A response to a waiting call settles its future.
pub settled :
    (id subject : String) (fs : Fields) (s : Calls) (o : Outcome)
    → id ≢ ""
    → field_of "id" fs ≡ some (str id)
    → lookup id s.pending_requests ≡ some subject
    → lookup id s.futures ≡ none
    → ((t : Calls) → settle_response id fs (field_of "error" fs) t ≡ set_future id o t)
    → lookup id (route_mux_response (dict fs) s).futures ≡ some o
unfolding route_mux_response
settled id subject fs s o named has_id waiting open_future settles =
    let there : (id == "") ≡ false = ground (arith, eq_of_same id "") in
    rw (has_id, there, waiting, open_future, settles (take_pending id s))
      (unfold set_future take_pending in lookup-insert id id o s.futures ∙ rw (same_self id) refl)

module _ (methods : Value) (id : String) (e : Raised) where
  abbrev failure : Fields
  failure = error_response methods (field (text_key "id") (str id) no_fields) (format_error_dict e)

  failure_fields :
      (field_of "id" failure ≡ some (str id))
      × (field_of "error" failure ≡ some (format_error_dict e))
  failure_fields = by_code (is_code "METHOD_NOT_FOUND" (code_in (format_error_dict e)))
    where
      first : Fields
      first = set_field "error" (format_error_dict e) (field (text_key "id") (str id) no_fields)

      by_code :
          (q : Bool)
          → let fs = if q then set_field "__methods" methods first else first in
            (field_of "id" fs ≡ some (str id)) × (field_of "error" fs ≡ some (format_error_dict e))
      by_code true = unfold field_of set_field in (refl, refl)
      by_code false = unfold field_of set_field in (refl, refl)

finished_call :
    (b : Behaviour) (methods : Value) (publish : Value → Option Raised) (start finish : ℕ)
    (id subject : String) (s : Calls)
    → ((v : Value) → publish v ≡ none)
    → id ≢ ""
    → lookup id s.pending_requests ≡ some subject
    → lookup id s.futures ≡ none
    → (c : Called)
    → (response : Value) × (finish_attempt b methods publish start finish
          (str id)
          (field (text_key "id") (str id) no_fields)
          (try_plain false start finish (field (text_key "id") (str id) no_fields) c)
        ≡ replied (str id) response ∷ [])
      × (lookup id (route_mux_response response s).futures ≡ some (outcome_of c))
finished_call b methods publish start finish id subject s sends named waiting open_future
      (returned v) =
    let fs = set_field "result" v (field (text_key "id") (str id) no_fields) in
    (
      dict fs,
      rw (sends (dict fs)) refl,
      settled id subject fs s (result v) named (unfold field_of set_field in refl) waiting
          open_future (λ t. unfold field_of set_field in refl),
    )
finished_call b methods publish start finish id subject s sends named waiting open_future
      (call_raised e) =
    let (its_id, its_error) = failure_fields methods id e in
    (
      dict (failure methods id e),
      rw (sends (dict (failure methods id e))) refl,
      settled id subject (failure methods id e) s (exception (remote (seen e))) named its_id waiting
          open_future (λ t. rw (its_error, from_dict-format_error_dict e) refl),
    )

-- A call waits under a non-empty id, and its request reaches the responder as it was made, with
-- arguments that do not mark a stream, an iterator or a callback. If the responder's response can
-- be published, there is one response, and the caller that routes it gets what the handler did: its
-- result, or its exception with its code and message.
pub call_roundtrip :
    (b : Behaviour) (methods : Value) (publish : Value → Option Raised) (start finish : ℕ)
    (id subject : String) (args : Items) (s : Calls)
    → ((v : Value) → publish v ≡ none)
    → id ≢ ""
    → kind_of (list args) ≡ plain
    → lookup id s.pending_requests ≡ some subject
    → lookup id s.futures ≡ none
    → (response : Value) × (handle_message b methods publish start finish (call_message id args)
        ≡ replied (str id) response ∷ [])
      × (lookup id (route_mux_response response s).futures ≡ some (outcome_of (b.call args)))
unfolding handle_message
call_roundtrip b methods publish start finish id subject args s sends named no_marks waiting
      open_future =
    unfold field_of in
    rw no_marks (
      finished_call b methods publish start finish id subject s sends named waiting open_future
        (b.call args))
