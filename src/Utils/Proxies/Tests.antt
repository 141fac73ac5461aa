-- ===== src/Utils/Proxies/Tests.antt =====
-- Proxies at concrete inputs.
use camera_ui_rpc.Base.{◌≡◌, ◌≢◌, refl, String, none, some, List, [], ◌∷◌, String_eq, if◌then◌else◌}
use camera_ui_rpc.Base.Dict.{lookup, contains}
use camera_ui_rpc.Codec.Values.{
  Value, int, pos, str, list, dict, no_items, Fields, no_fields, field, text_key, field_of,
}
use camera_ui_rpc.Handler.Generators.{async_generator, closes}
use camera_ui_rpc.Client.Calls.{Calls, new_calls, result, route_mux_response}
use camera_ui_rpc.Client.Handlers.{returned, Behaviour, replied, handle_message, kind_of}
use camera_ui_rpc.Utils.Proxies.{
  value, callable, callbacks, rpc_callbacks, call_with_callback, call_pull_iterator_with_callback,
  call_stream, call_pull_iterator, proxy_call, proxy_attribute, strip_methods, lower, is_in,
}
use camera_ui_rpc.Utils.Proxies.Discovery.{discovering_message, items_of, proxy_discovers}

generated_is_stream : proxy_call "cam" none [] "reGenerate" [] ≡ call_stream "rpc.cam.reGenerate" []
unfolding proxy_call lower is_in
generated_is_stream = refl

pulled_is_iterator :
    proxy_call "cam" none ("a" ∷ []) "pull_all" (value (str "x") ∷ [])
    ≡ call_pull_iterator "rpc.cam.a.pull_all" (value (str "x") ∷ [])
unfolding proxy_call lower is_in
pulled_is_iterator = refl

callable_is_callback :
    proxy_call "cam" none [] "generate" (value (str "x") ∷ callable 7 ∷ [])
    ≡ call_with_callback "rpc.cam.generate" (value (str "x") ∷ []) 7
unfolding proxy_call
callable_is_callback = refl

-- a callback without `oneway`, next to a keyword that is no callable
bundle_is_pull_callback :
    proxy_call "cam" none [] "batches"
      (callbacks (rpc_callbacks none (("on_item", callable 1) ∷ ("n", value (str "x")) ∷ [])) ∷ [])
    ≡ call_pull_iterator_with_callback "rpc.cam.batches" (("on_item", 1) ∷ []) ("on_item" ∷ []) []
unfolding proxy_call rpc_callbacks
bundle_is_pull_callback = refl

-- a namespace of nested methods, once they are known
nested_is_none : proxy_attribute (some ("math.add" ∷ "ping" ∷ [])) [] "math" ≡ none
unfolding proxy_attribute contains
nested_is_none = refl

abbrev four : Fields
four = field (text_key "n") (int (pos 4)) no_fields

abbrev returns_four : Behaviour
returns_four = record {
  streaming = λ args. async_generator (record { produced = []; closing = closes });
  subscribing = λ args. none;
  call = λ args. returned (dict four);
}

abbrev waiting : Calls
waiting = record new_calls { pending_requests = ("p.1", "rpc.a.b") ∷ [] }

named : ◌≢◌ {A = String} "p.1" ""
named e = cc ((String_eq.same_iff "p.1" "").1 e)

abbrev method_names : List String
method_names = "ping" ∷ "math.add" ∷ []

proxy_discovers_example :
    (response v : Value) × (handle_message returns_four
        (list (items_of method_names))
        (λ v. none)
        0
        0
        (discovering_message "p.1" no_items)
      ≡ replied (str "p.1") response ∷ [])
    × (lookup "p.1" (route_mux_response response waiting).futures ≡ some (result v))
    × (strip_methods none v ≡ (some method_names, dict four))
    × ((name : String)
        → proxy_attribute (some method_names) [] name
          ≡ (if contains name method_names then some (name ∷ []) else none))
unfolding kind_of field_of lookup
proxy_discovers_example =
    proxy_discovers returns_four method_names (λ v. none) 0 0 "p.1" "rpc.a.b" no_items four waiting
      (λ v. refl) named refl refl refl refl refl
