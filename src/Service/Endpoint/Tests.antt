-- ===== src/Service/Endpoint/Tests.antt =====
-- The theorems on endpoints at concrete inputs.
use camera_ui_rpc.Base.{ℕ, ◌≡◌, refl, true, Option, none, some, List, [], ◌∷◌, String_eq}
use camera_ui_rpc.Base.Result.{Result, ok, err, value_error}
use camera_ui_rpc.Codec.Values.{Value, int, pos, str, Items, item, no_items, field_of}
use camera_ui_rpc.Handler.Generators.{Raised, other_exception, Generator, async_generator, closes}
use camera_ui_rpc.Client.Dispatch.{Headers}
use camera_ui_rpc.Client.Handlers.{Called, returned, call_raised}
use camera_ui_rpc.Client.Handlers.RoundTrip.{call_message, outcome_of}
use camera_ui_rpc.Client.ServiceCalls.{
  awaiting, settled, ServiceCall, new_service_call, handle_rpc_response, return_call,
}
use camera_ui_rpc.Service.Endpoint.{Method, Request, answered, request_kind, handle_rpc_message}
use camera_ui_rpc.Service.Endpoint.RoundTrip.{service_call_roundtrip}

-- a method that returns its first argument
abbrev first_argument : Items → Called
first_argument no_items = call_raised (other_exception "no argument")
first_argument (item v rest) = returned v

abbrev echoes : Method
echoes = record {
  streaming = λ args. async_generator (record { produced = []; closing = closes });
  call = first_argument;
}

abbrev never_raises : Generator → Option Raised
never_raises g = none

abbrev publishes : Value → Option Raised
publishes v = none

abbrev plain_headers : Headers
plain_headers = record { status = none; chunk_type = none; chunk_id = none; chunk_index = ok 0 }

abbrev unpacks : List ℕ → Result Value
unpacks [] = err value_error
unpacks (b ∷ bs) = ok (call_message "p.1" (item (int (pos b)) no_items))

abbrev request : Request
request = record { subject = "math.echo"; headers = plain_headers; bytes = 7 ∷ [] }

abbrev waiting_call : ServiceCall
waiting_call = record new_service_call { progress = awaiting; reply_open = true; inbox_open = true }

service_call_roundtrip_example :
    (response : Value) × (handle_rpc_message echoes never_raises publishes "math.echo"
        (call_message "p.1" (item (int (pos 4)) no_items))
      ≡ some (answered "math.echo" (str "p.1") response ∷ []))
    × ((return_call (handle_rpc_response "p.1" response waiting_call)).progress
        ≡ settled (outcome_of (first_argument (item (int (pos 4)) no_items))))
unfolding request_kind field_of
service_call_roundtrip_example =
    service_call_roundtrip echoes never_raises publishes "p.1" "math.echo"
      (item (int (pos 4)) no_items) waiting_call (λ v. refl) refl refl refl refl refl
