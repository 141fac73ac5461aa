-- ===== src/Client/Handlers/Tests.antt =====
-- The theorems on requests at concrete inputs.
use camera_ui_rpc.Base.{◌≡◌, ◌≢◌, refl, true, String, Option, none, some, [], ◌∷◌, String_eq}
use camera_ui_rpc.Base.Dict.{lookup}
use camera_ui_rpc.Codec.Values.{
  Value, bool, int, pos, object, str, list, dict, Items, item, no_items, Fields, no_fields, field,
  text_key, field_of,
}
use camera_ui_rpc.Handler.Generators.{Raised, other_exception, async_generator, closes}
use camera_ui_rpc.Client.Calls.{Calls, new_calls, route_mux_response}
use camera_ui_rpc.Client.Handlers.{
  Called, returned, call_raised, Behaviour, replied, handle_message, kind_of,
}
use camera_ui_rpc.Client.Handlers.Answers.{AnsweredOnce, answered_once}
use camera_ui_rpc.Client.Handlers.RoundTrip.{call_message, outcome_of, call_roundtrip}
use camera_ui_rpc.Client.Handlers.Unsent.{unsendable_result_unanswered}

-- a handler that returns its first argument
abbrev first_or_raise : Items → Called
first_or_raise no_items = call_raised (other_exception "no argument")
first_or_raise (item v rest) = returned v

abbrev echo : Behaviour
echo = record {
  streaming = λ args. async_generator (record { produced = []; closing = closes });
  subscribing = λ args. none;
  call = first_or_raise;
}

abbrev always : Value → Option Raised
always v = none

abbrev iterate : Fields
iterate = field (text_key "id") (str "p.1") (
    field (text_key "params")
      (list (item (dict (field (text_key "__pullIterator") (bool true) no_fields)) no_items))
      no_fields)

answered_once_example :
    AnsweredOnce (str "p.1") (handle_message echo (list no_items) always 0 0 (dict iterate))
unfolding field_of
answered_once_example =
    answered_once echo (list no_items) always 0 0 iterate (str "p.1") (λ v. refl) refl refl

abbrev waiting : Calls
waiting = record new_calls { pending_requests = ("p.1", "rpc.a.b") ∷ [] }

named : ◌≢◌ {A = String} "p.1" ""
named e = cc ((String_eq.same_iff "p.1" "").1 e)

call_roundtrip_example :
    (response : Value) × (handle_message echo
        (list no_items)
        always
        0
        0
        (call_message "p.1" (item (int (pos 4)) no_items))
      ≡ replied (str "p.1") response ∷ [])
    × (lookup "p.1" (route_mux_response response waiting).futures
        ≡ some (outcome_of (first_or_raise (item (int (pos 4)) no_items))))
unfolding kind_of lookup
call_roundtrip_example =
    call_roundtrip echo (list no_items) always 0 0 "p.1" "rpc.a.b" (item (int (pos 4)) no_items)
      waiting (λ v. refl) named refl refl refl

-- publishing that refuses instances of other classes as results
abbrev refuses_result : Option Value → Option Raised
refuses_result (some (object n)) = some (other_exception "Type is not msgpack serializable")
refuses_result _ = none

abbrev no_objects : Value → Option Raised
no_objects (dict fs) = refuses_result (field_of "result" fs)
no_objects v = none

abbrev ask : Fields
ask =
    field (text_key "id") (str "p.1")
      (field (text_key "params") (list (item (object 3) no_items)) no_fields)

unsendable_result_unanswered_example :
    handle_message echo (list no_items) no_objects 0 0 (dict ask) ≡ []
unfolding kind_of
unsendable_result_unanswered_example =
    unsendable_result_unanswered echo (list no_items) no_objects 0 0 (object 3) ask (str "p.1")
      (λ fs h. (other_exception "Type is not msgpack serializable", rw h refl)) refl refl refl
