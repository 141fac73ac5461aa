-- ===== src/Utils/Proxies/Discovery.antt =====
-- A proxy discovers the methods of its responder: utils.py and client.py.
use camera_ui_rpc.Base.{
  ℕ, ◌≡◌, ◌≢◌, refl, ap, Bool, true, false, String, Option, none, some, List, [], ◌∷◌, arith, ◌==◌,
  String_eq, if◌then◌else◌,
}
use camera_ui_rpc.Base.Dict.{lookup, contains}
use camera_ui_rpc.Codec.Values.{
  Value, bool, str, list, dict, Items, no_items, item, Fields, no_fields, field, text_key,
  opaque_key, field_of,
}
use camera_ui_rpc.Codec.Fields.{set_field, field_of-set_field}
use camera_ui_rpc.Handler.Generators.{Raised}
use camera_ui_rpc.Client.Calls.{Calls, result, route_mux_response}
use camera_ui_rpc.Client.Handlers.{
  Behaviour, returned, replied, kind_of, plain, handle_message, text_items,
}
use camera_ui_rpc.Client.Handlers.RoundTrip.{settled}
use camera_ui_rpc.Utils.Proxies.{pop_field, strip_methods, proxy_attribute}

-- the request of `_call_once` with `discover`, as it arrives
abbrev pub discovering_message : String → Items → Value
discovering_message id args = dict (
    field (text_key "id") (str id) (
      field (text_key "method") (str "call") (
        field (text_key "params") (list args)
          (field (text_key "__discover") (bool true) no_fields))))

abbrev pub items_of : List String → Items
items_of [] = no_items
items_of (name ∷ names) = item (str name) (items_of names)

text_items-items_of : (names : List String) → text_items (items_of names) ≡ names
text_items-items_of [] = refl
text_items-items_of (name ∷ names) = ap (◌∷◌ name) (text_items-items_of names)

-- Popping a new key takes back what setting it did.
pop_field-set_field :
    (name : String) (v : Value) (fs : Fields)
    → field_of name fs ≡ none
    → pop_field name (set_field name v fs) ≡ fs
unfolding pop_field set_field field_of
pop_field-set_field name v no_fields h = ground (arith, String_eq.same_iff name name)
pop_field-set_field name v (field (opaque_key n) w fs) h =
    ap (field (opaque_key n) w) (pop_field-set_field name v fs h)
pop_field-set_field name v (field (text_key k) w fs) h =
    by_key (k == name) refl (pop_field-set_field name v fs)
  where
    by_key :
        (q : Bool)
        → (k == name) ≡ q
        → (field_of name fs ≡ none → pop_field name (set_field name v fs) ≡ fs)
        → pop_field name
            (if q then field (text_key k) v fs else field (text_key k) w (set_field name v fs))
          ≡ field (text_key k) w fs
    by_key true same later = cc (h, same)
    by_key false other later = rw other (ap (field (text_key k) w) (later (h' other)))
      where
        h' : (k == name) ≡ false → field_of name fs ≡ none
        h' other = ground (arith, h, other)

-- A proxy whose cache is empty calls a method without marks for streams, iterators or callbacks, and
-- the method returns a dictionary without "__methods". If the response can be published and the call
-- waits under a non-empty id, there is one response, the caller that routes it gets a result, and
-- the proxy takes the names of the responder's methods out of it: it returns the dictionary as the
-- method returned it, and from then on its attributes are these methods, and None for other names.
pub proxy_discovers :
    (b : Behaviour) (names : List String) (publish : Value → Option Raised) (start finish : ℕ)
    (id subject : String) (args : Items) (fs : Fields) (s : Calls)
    → ((v : Value) → publish v ≡ none)
    → id ≢ ""
    → kind_of (list args) ≡ plain
    → b.call args ≡ returned (dict fs)
    → field_of "__methods" fs ≡ none
    → lookup id s.pending_requests ≡ some subject
    → lookup id s.futures ≡ none
    → (response v : Value) × (handle_message b
          (list (items_of names))
          publish
          start
          finish
          (discovering_message id args)
        ≡ replied (str id) response ∷ [])
      × (lookup id (route_mux_response response s).futures ≡ some (result v))
      × (strip_methods none v ≡ (some names, dict fs))
      × ((name : String)
          → proxy_attribute (some names) [] name
            ≡ (if contains name names then some (name ∷ []) else none))
unfolding handle_message strip_methods proxy_attribute
proxy_discovers b names publish start finish id subject args fs s sends named no_marks returns fresh
      waiting open_future =
    let methods = list (items_of names) in
    let response =
      field (text_key "id") (str id)
        (field (text_key "__methods") methods (field (text_key "result") (dict fs) no_fields)) in
    (
      dict response,
      dict (set_field "__methods" methods fs),
      unfold field_of set_field in rw (no_marks, returns, sends (dict response)) refl,
      settled id subject response s (result (dict (set_field "__methods" methods fs))) named
          (unfold field_of in refl) waiting open_future (λ t. unfold field_of set_field in refl),
      rw
          (
            field_of-set_field "__methods" "__methods" methods fs,
            pop_field-set_field "__methods" methods fs fresh,
            text_items-items_of names,
          )
          refl,
      λ name. refl,
    )
