-- ===== src/Client/Requests/Tests.antt =====
-- A native request at a concrete input.
use camera_ui_rpc.Base.{ℕ, ◌≡◌, refl, true, String, String_eq, List, [], ◌∷◌, nat_eq, if◌then◌else◌}
use camera_ui_rpc.Base.Result.{Error, Result, ok, err, value_error, type_error}
use camera_ui_rpc.Codec.Values.{Value, null, bool, str, dict, field, no_fields, text_key}
use camera_ui_rpc.Codec.Extract.{extract_binaries}
use camera_ui_rpc.Codec.Frame.{encode_message, decode_message, is_framed}
use camera_ui_rpc.Handler.Generators.{rpc_exception}
use camera_ui_rpc.Client.Handlers.{Called, call_raised}
use camera_ui_rpc.Utils.Proxies.{lower, is_in}
use camera_ui_rpc.Client.Requests.{text_of, request_once, handle_native_request}
use camera_ui_rpc.Client.Requests.Answered.{delivered, sees, native_request_answered}

abbrev failure : Value
failure = dict (
    field (text_key "error") (str "[BUSY] no camera")
      (field (text_key "code") (str "BUSY") no_fields))

-- a packer of Booleans and of one error
abbrev pack : Value → Result (List ℕ)
pack (bool true) = ok (195 ∷ [])
pack (dict fs) = ok (130 ∷ [])
pack _ = err type_error

abbrev unpack : List ℕ → Result Value
unpack (b ∷ []) = ok (if nat_eq b 195 then bool true else failure)
unpack _ = err value_error

abbrev shown : Value → String
shown v = "?"

abbrev explained : Error → String
explained e = "?"

abbrev fails : Value → Called
fails v =
    call_raised
      (rpc_exception (record { code = str "BUSY"; message = str "no camera"; payload = null }))

native_request_answered_example :
    request_once shown explained unpack pack "timed out"
      (λ bytes.
        delivered shown explained unpack pack
          (handle_native_request shown explained unpack pack true fails bytes))
      (bool true)
    ≡ sees shown explained unpack pack (fails (bool true))
unfolding encode_message decode_message is_framed extract_binaries lower is_in text_of
native_request_answered_example =
    native_request_answered shown explained unpack pack "timed out" fails (bool true)
      (195 ∷ [], refl, refl) (130 ∷ [], refl, refl) refl
