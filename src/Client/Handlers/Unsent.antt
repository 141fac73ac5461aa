-- ===== src/Client/Handlers/Unsent.antt =====
-- Results that cannot be sent: handle_message of client.py.
use camera_ui_rpc.Base.{
  ℕ, ◌≡◌, refl, ◌∙◌, Bool, true, false, Option, none, some, [], String_eq, if◌then◌else◌,
}
use camera_ui_rpc.Codec.Values.{Value, null, list, no_items, dict, Fields, field_of}
use camera_ui_rpc.Codec.Fields.{set_field, field_of-set_field}
use camera_ui_rpc.Handler.Generators.{Raised, format_error_dict}
use camera_ui_rpc.Client.Handlers.{
  returned, Behaviour, kind_of, plain, handle_message, error_response, is_code, code_in, initial,
  value_or, is_true, positional, timed, answer,
}

-- The response to an exception still has the result.
result_kept :
    (methods v error : Value) (response : Fields)
    → field_of "result" response ≡ some v
    → field_of "result" (error_response methods response error) ≡ some v
result_kept methods v error response h = by_code (is_code "METHOD_NOT_FOUND" (code_in error))
  where
    still : field_of "result" (set_field "error" error response) ≡ some v
    still = field_of-set_field "error" "result" error response ∙ h

    by_code :
        (q : Bool)
        → field_of "result" (
            if q
            then set_field "__methods" methods (set_field "error" error response)
            else set_field "error" error response)
          ≡ some v
    by_code true =
        field_of-set_field "__methods" "result" methods (set_field "error" error response) ∙ still
    by_code false = still

module _ (b : Behaviour) (methods : Value) (publish : Value → Option Raised) (start finish : ℕ)
    (v : Value)
    (unsendable : (fs : Fields)
      → field_of "result" fs ≡ some v
      → (e : Raised) × (publish (dict fs) ≡ some e)) where
  unsent :
      (id : Value) (response : Fields) (o : Option Raised)
      → field_of "result" response ≡ some v
      → publish (dict response) ≡ o
      → answer b methods publish start finish id response o ≡ []
  unsent id response none h sent = let (e, fails) = unsendable response h in cc (sent, fails)
  unsent id response (some e) h sent =
      let again = error_response methods response (format_error_dict e) in
      let (e', fails) = unsendable again (result_kept methods v (format_error_dict e) response h) in
      rw fails refl

-- If a handler returns a value that makes every response with it unpublishable, such as one that
-- the codec cannot encode, then a plain call of it is never answered: the error response still
-- carries the value.
pub unsendable_result_unanswered :
    (b : Behaviour) (methods : Value) (publish : Value → Option Raised) (start finish : ℕ)
    (v : Value) (message : Fields) (id : Value)
    → ((fs : Fields) → field_of "result" fs ≡ some v → (e : Raised) × (publish (dict fs) ≡ some e))
    → field_of "id" message ≡ some id
    → kind_of (value_or null (field_of "params" message)) ≡ plain
    → b.call (positional (value_or (list no_items) (field_of "params" message))) ≡ returned v
    → handle_message b methods publish start finish (dict message) ≡ []
unfolding handle_message
unsendable_result_unanswered b methods publish start finish v message id unsendable has_id no_marks
      returns =
    let response =
      timed (is_true (field_of "__timing" message)) start finish
        (initial methods id (is_true (field_of "__discover" message))) in
    let fs = set_field "result" v response in
    rw (has_id, no_marks, returns)
      (unsent b methods publish start finish v unsendable id fs (publish (dict fs))
        (field_of-set_field "result" "result" v response) refl)
