-- ===== src/Client/Requests/Answered.antt =====
-- What a requester gets of a responder: request and on_request of client.py.
use Prim.Native.String.{◌++◌ as join_texts}
use camera_ui_rpc.Base.{
  ℕ, ◌≡◌, refl, Bool, true, false, String, Option, none, some, List, String_eq, if◌then◌else◌,
}
use camera_ui_rpc.Base.Result.{Error, Result, ok}
use camera_ui_rpc.Codec.Values.{Value, str, dict, field, text_key, no_fields, field_of}
use camera_ui_rpc.Codec.Fields.{truthy}
use camera_ui_rpc.Codec.Frame.{encode_message, decode_message}
use camera_ui_rpc.Errors.{RpcException, or_default}
use camera_ui_rpc.Handler.Generators.{Raised, rpc_exception, other_exception}
use camera_ui_rpc.Client.Handlers.{Called, returned, call_raised}
use camera_ui_rpc.Utils.Proxies.{lower, is_in}
use camera_ui_rpc.Client.Requests.{
  Requested, arrives, times_out, Ended, gives, raises, text_of_value, text_of, text_of_raised,
  error_reply, or_not_found, finish_request, raise_error_field, read_decoded, request_once,
  reply_called, handle_native_request,
}

module _ (shown : Value → String) (explained : Error → String) (unpackb : List ℕ → Result Value)
    (pack : Value → Result (List ℕ)) where
  -- the message is encoded, and the receiver decodes it as it was
  abbrev pub Travels : Value → Type 0
  Travels v =
      (bytes : List ℕ) × (encode_message pack v ≡ ok bytes) × (decode_message unpackb bytes ≡ ok v)

  -- NATS delivers a response, without the headers of a service's error
  abbrev pub delivered : Option (List ℕ) → Requested
  delivered none = times_out
  delivered (some bytes) = arrives (record { error_code = none; error_text = none; bytes = bytes })

  -- a text as it is, and any other value as Python shows it
  abbrev told : Value → String
  told (str s) = s
  told v = shown v

  -- "[code] message (data: payload)", the last part if the payload is true
  abbrev pub exception_text : RpcException → String
  exception_text e =
      let head = join_texts "[" (join_texts (told e.code) (join_texts "] " (told e.message))) in
      if truthy e.payload
      then join_texts head (join_texts " (data: " (join_texts (told e.payload) ")"))
      else head

  -- what the other side is to learn of an exception: its text, and the code of an RPCException
  abbrev pub report_of : Value → String → Value
  report_of code text =
      dict (field (text_key "error") (str text) (field (text_key "code") code no_fields))

  abbrev pub responds_with : Called → Value
  responds_with (returned v) = v
  responds_with (call_raised (rpc_exception e)) = report_of e.code (exception_text e)
  responds_with (call_raised (other_exception text)) = report_of (str "INTERNAL_ERROR") text

  abbrev pub reported : Value → String → Ended
  reported code text =
      raises
        (rpc_exception (record { code = code; message = str text; payload = report_of code text }))

  -- what a requester sees of a handler: an "error" of its result is raised
  abbrev pub sees : Called → Ended
  sees (returned (dict fs)) = error_or_result (field_of "error" fs)
    where
      error_or_result : Option Value → Ended
      error_or_result none = gives (dict fs)
      error_or_result (some error) = raises (
          rpc_exception (record {
            code = or_default (field_of "code" fs) "INTERNAL_ERROR";
            message = error;
            payload = dict fs;
          }))
  sees (returned v) = gives v
  sees (call_raised (rpc_exception e)) = reported e.code (exception_text e)
  sees (call_raised (other_exception text)) = reported (str "INTERNAL_ERROR") text

  text_of_value-told : (v : Value) → text_of_value shown explained unpackb pack v ≡ told v
  text_of_value-told (str s) = refl
  text_of_value-told v = refl

  text_of-told : (e : RpcException) → text_of shown explained unpackb pack e ≡ exception_text e
  unfolding text_of
  text_of-told e =
      rw (text_of_value-told e.code, text_of_value-told e.message, text_of_value-told e.payload)
        refl

  error_reply-responds :
      (e : Raised) → error_reply shown explained unpackb pack e ≡ responds_with (call_raised e)
  error_reply-responds (rpc_exception e) = rw (text_of-told e) refl
  error_reply-responds (other_exception text) = refl

  -- whether what is raised has "no responders" in its text
  abbrev pub mentions_responders : Ended → Bool
  mentions_responders (gives v) = false
  mentions_responders (raises e) =
      is_in (lower "no responders") (lower (text_of_raised shown explained unpackb pack e))

  not_rewritten :
      (o : Ended) → mentions_responders o ≡ false → or_not_found shown explained unpackb pack o ≡ o
  not_rewritten (gives v) h = refl
  not_rewritten (raises e) h = rw h refl

  read-sees :
      (c : Called) → read_decoded shown explained unpackb pack (ok (responds_with c)) ≡ sees c
  unfolding read_decoded field_of
  read-sees (returned (dict fs)) = by_error (field_of "error" fs) refl
    where
      by_error :
          (o : Option Value)
          → field_of "error" fs ≡ o
          → raise_error_field shown explained unpackb pack fs (field_of "error" fs)
            ≡ sees (returned (dict fs))
      by_error none h = rw h refl
      by_error (some error) h = rw h refl
  read-sees (returned v) = refl
  read-sees (call_raised (rpc_exception e)) = refl
  read-sees (call_raised (other_exception text)) = refl

  module _ (timed_out : String) where
    finished :
        (c : Called)
        → Travels (responds_with c)
        → mentions_responders (sees c) ≡ false
        → finish_request shown explained unpackb pack timed_out
            (delivered (reply_called shown explained unpackb pack true c))
          ≡ sees c
    finished (returned v) (bytes, encoded, decoded) quiet =
        rw (encoded, decoded, read-sees (returned v)) (not_rewritten (sees (returned v)) quiet)
    finished (call_raised e) (bytes, encoded, decoded) quiet =
        rw (error_reply-responds e, encoded, decoded, read-sees (call_raised e))
          (not_rewritten (sees (call_raised e)) quiet)

-- A native request to a responder, whose message and whose response are decoded as they were, ends
-- as its handler did: with the handler's result, or with an exception that has the text of the
-- handler's, and its code: that of an RPCException, and INTERNAL_ERROR of any other exception. But a result that is a dictionary with an "error" is raised as an
-- exception, too. What is raised is to have no "no responders" in its text.
pub native_request_answered :
    (shown : Value → String) (explained : Error → String) (unpackb : List ℕ → Result Value)
    (pack : Value → Result (List ℕ)) (timed_out : String) (handler : Value → Called)
    (message : Value)
    → Travels shown explained unpackb pack message
    → Travels shown explained unpackb pack
        (responds_with shown explained unpackb pack (handler message))
    → mentions_responders shown explained unpackb pack
        (sees shown explained unpackb pack (handler message))
      ≡ false
    → request_once shown explained unpackb pack timed_out
        (λ bytes.
          delivered shown explained unpackb pack
            (handle_native_request shown explained unpackb pack true handler bytes))
        message
      ≡ sees shown explained unpackb pack (handler message)
unfolding request_once handle_native_request
native_request_answered shown explained unpackb pack timed_out handler message
      (bytes, encoded, decoded) response_travels quiet =
    rw (encoded, decoded)
      (finished shown explained unpackb pack timed_out (handler message) response_travels quiet)
