-- ===== src/Client/Requests.antt =====
-- Native requests of client.py: _request_once, and the responder of on_request. What NATS makes of a
-- request, and what the handler does, are parameters; so are `shown`, Python's text of
-- a value that is no text, and `explained`, that of an exception of its own.
pub mod Answered
pub mod Tests
use Prim.Native.String.{◌++◌ as join_texts}
use camera_ui_rpc.Base.{
  ℕ, Bool, true, false, String, Option, none, some, List, [], ◌∷◌, ◌==◌, String_eq, if◌then◌else◌,
}
use camera_ui_rpc.Base.Result.{Error, Result, ok, err}
use camera_ui_rpc.Codec.Values.{
  Value, null, str, dict, Fields, no_fields, field, text_key, field_of,
}
use camera_ui_rpc.Codec.Fields.{truthy}
use camera_ui_rpc.Codec.Frame.{encode_message, decode_message}
use camera_ui_rpc.Errors.{RpcException, or_default}
use camera_ui_rpc.Handler.Generators.{Raised, rpc_exception, other_exception}
use camera_ui_rpc.Client.Dispatch.{given}
use camera_ui_rpc.Client.Handlers.{Called, returned, call_raised}
use camera_ui_rpc.Utils.Proxies.{lower, is_in}

-- what `nc.request` comes to; the headers are those of a service's error
pub record Reply : Type 0 where
  pub error_code : Option String
  pub error_text : Option String
  pub bytes : List ℕ

pub data Requested : Type 0 where
  arrives : Reply → Requested
  times_out : Requested
  -- an exception, by its text
  request_raises : String → Requested

-- how a request ends
pub data Ended : Type 0 where
  gives : Value → Ended
  raises : Raised → Ended

abbrev pub create_error : String → Value → Value → Raised
create_error code message payload =
    rpc_exception (record { code = str code; message = message; payload = payload })

abbrev pub or_text : Option String → String → String
or_text none default = default
or_text (some text) default = text

module _ (shown : Value → String) (explained : Error → String) (unpackb : List ℕ → Result Value)
    (pack : Value → Result (List ℕ)) where
  abbrev pub text_of_value : Value → String
  text_of_value (str s) = s
  text_of_value value = shown value

  -- `RPCException.__str__`
  unfoldable pub text_of : RpcException → String
  text_of e =
      let text =
        join_texts "["
          (join_texts (text_of_value e.code) (join_texts "] " (text_of_value e.message))) in
      if truthy e.payload
      then join_texts text (join_texts " (data: " (join_texts (text_of_value e.payload) ")"))
      else text

  -- `str(e)`
  abbrev pub text_of_raised : Raised → String
  text_of_raised (rpc_exception e) = text_of e
  text_of_raised (other_exception text) = text

  abbrev pub data_or_none : Result Value → Value
  data_or_none (ok value) = value
  data_or_none (err e) = null

  -- the data of a service's error is decoded if it can be
  abbrev pub error_data : List ℕ → Value
  error_data [] = null
  error_data (b ∷ bs) = data_or_none (decode_message unpackb (b ∷ bs))

  abbrev pub raise_error_field : Fields → Option Value → Ended
  raise_error_field fs none = gives (dict fs)
  raise_error_field fs (some error) = raises (
      rpc_exception (record {
        code = or_default (field_of "code" fs) "INTERNAL_ERROR";
        message = error;
        payload = dict fs;
      }))

  unfoldable pub read_decoded : Result Value → Ended
  unfolding field_of
  read_decoded (err e) = raises (other_exception (explained e))
  read_decoded (ok (dict fs)) = raise_error_field fs (field_of "error" fs)
  read_decoded (ok value) = gives value

  abbrev pub read_reply : Option String → Reply → Ended
  read_reply none reply = read_decoded (decode_message unpackb reply.bytes)
  read_reply (some code) reply =
      raises (
        create_error code (str (or_text reply.error_text "Service error")) (error_data reply.bytes))

  -- the last `except` branch
  abbrev pub or_not_found : Ended → Ended
  or_not_found (gives value) = gives value
  or_not_found (raises e) =
      if is_in (lower "no responders") (lower (text_of_raised e))
      then raises (create_error "NOT_FOUND" (str "No responders available") null)
      else raises e

  -- `timed_out` is the message of the time-out
  abbrev pub finish_request : String → Requested → Ended
  finish_request timed_out (arrives reply) =
      or_not_found (read_reply (given reply.error_code) reply)
  finish_request timed_out times_out = raises (create_error "TIMEOUT" (str timed_out) null)
  finish_request timed_out (request_raises text) = or_not_found (raises (other_exception text))

  abbrev pub request_encoded : String → (List ℕ → Requested) → Result (List ℕ) → Ended
  request_encoded timed_out nats (err e) = raises (other_exception (explained e))
  request_encoded timed_out nats (ok encoded) = finish_request timed_out (nats encoded)

  -- `_request_once` of a connected client
  unfoldable pub request_once : String → (List ℕ → Requested) → Value → Ended
  unfolding lower is_in
  request_once timed_out nats message = request_encoded timed_out nats (encode_message pack message)

  abbrev pub code_of : Raised → Value
  code_of (rpc_exception e) = e.code
  code_of (other_exception text) = str "INTERNAL_ERROR"

  -- the response to an exception of the handler
  abbrev pub error_reply : Raised → Value
  error_reply e = dict (
      field (text_key "error") (str (text_of_raised e))
        (field (text_key "code") (code_of e) no_fields))

  abbrev pub sent_bytes : Result (List ℕ) → Option (List ℕ)
  sent_bytes (ok bytes) = some bytes
  sent_bytes (err e) = none

  abbrev pub reply_failure : Bool → Raised → Option (List ℕ)
  reply_failure true e = sent_bytes (encode_message pack (error_reply e))
  reply_failure false e = none

  abbrev pub reply_encoded : Result (List ℕ) → Option (List ℕ)
  reply_encoded (ok bytes) = some bytes
  reply_encoded (err e) = reply_failure true (other_exception (explained e))

  abbrev pub reply_called : Bool → Called → Option (List ℕ)
  reply_called true (returned value) = reply_encoded (encode_message pack value)
  reply_called false (returned value) = none
  reply_called has_reply (call_raised e) = reply_failure has_reply e

  abbrev pub reply_decoded : Bool → (Value → Called) → Result Value → Option (List ℕ)
  reply_decoded has_reply handler (ok value) = reply_called has_reply (handler value)
  reply_decoded has_reply handler (err e) = reply_failure has_reply (other_exception (explained e))

  -- `handle_request` of `on_request`: what it responds with, if the message wants a reply
  unfoldable pub handle_native_request : Bool → (Value → Called) → List ℕ → Option (List ℕ)
  unfolding text_of
  handle_native_request has_reply handler bytes =
      reply_decoded has_reply handler (decode_message unpackb bytes)
