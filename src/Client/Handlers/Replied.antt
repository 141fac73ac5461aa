-- ===== src/Client/Handlers/Replied.antt =====
-- What answers a request in handle_message of client.py.
use camera_ui_rpc.Base.{
  ℕ, ◌≡◌, refl, ◌∙◌, Bool, true, false, Option, none, some, List, [], ◌∷◌, String_eq, if◌then◌else◌,
}
use camera_ui_rpc.Codec.Values.{Value, Fields, field_of}
use camera_ui_rpc.Codec.Fields.{set_field, field_of-set_field}
use camera_ui_rpc.Client.Handlers.{
  Effect, replied, stream_started, pull_stored, pull_callbacks_stored, callback_stored, timed,
  initial, is_code, code_in, error_response,
}

-- the replies among the effects, with the ids that they go to
abbrev pub replies : List Effect → List (Value × Value)
replies [] = []
replies (replied id response ∷ effects) = (id, response) ∷ replies effects
replies (stream_started subject g ∷ effects) = replies effects
replies (pull_stored id session ∷ effects) = replies effects
replies (pull_callbacks_stored id session ∷ effects) = replies effects
replies (callback_stored id ∷ effects) = replies effects

-- exactly one of a result and an error
abbrev pub OneOutcome : Option Value → Option Value → Type 0
OneOutcome (some result) none = Unit
OneOutcome none (some error) = Unit
OneOutcome _ _ = ⊥

-- a response for the request `id`
pub record IsAnswer (id : Value) (response : Fields) : Type 0 where
  pub same_id : field_of "id" response ≡ some id
  pub one_outcome : OneOutcome (field_of "result" response) (field_of "error" response)

module _ (methods : Value) where
  -- what every branch starts from
  pub record Begun (id : Value) (response : Fields) : Type 0 where
    its_id : field_of "id" response ≡ some id
    no_result : field_of "result" response ≡ none
    no_error : field_of "error" response ≡ none

  pub initial-Begun : (id : Value) (discover : Bool) → Begun id (initial methods id discover)
  unfolding field_of set_field
  initial-Begun id true = record { its_id = refl; no_result = refl; no_error = refl }
  initial-Begun id false = record { its_id = refl; no_result = refl; no_error = refl }

  pub timed-Begun :
      (wants : Bool) (start finish : ℕ) (id : Value) (response : Fields)
      → Begun id response
      → Begun id (timed wants start finish response)
  timed-Begun true start finish id response h = record {
    its_id = field_of-set_field "__timing" "id" _ response ∙ h.its_id;
    no_result = field_of-set_field "__timing" "result" _ response ∙ h.no_result;
    no_error = field_of-set_field "__timing" "error" _ response ∙ h.no_error;
  }
  timed-Begun false start finish id response h = h

  pub result-IsAnswer :
      (id v : Value) (response : Fields)
      → Begun id response
      → IsAnswer id (set_field "result" v response)
  result-IsAnswer id v response h = record {
    same_id = field_of-set_field "result" "id" v response ∙ h.its_id;
    one_outcome =
        rw
          (
            field_of-set_field "result" "result" v response,
            field_of-set_field "result" "error" v response,
            h.no_error,
          )
          tt;
  }

  pub error-IsAnswer :
      (id e : Value) (response : Fields)
      → Begun id response
      → IsAnswer id (error_response methods response e)
  error-IsAnswer id e response h = by_code (is_code "METHOD_NOT_FOUND" (code_in e))
    where
      plain_error : IsAnswer id (set_field "error" e response)
      plain_error = record {
        same_id = field_of-set_field "error" "id" e response ∙ h.its_id;
        one_outcome =
            rw
              (
                field_of-set_field "error" "result" e response,
                field_of-set_field "error" "error" e response,
                h.no_result,
              )
              tt;
      }

      by_code :
          (q : Bool)
          → IsAnswer id (
              if q
              then set_field "__methods" methods (set_field "error" e response)
              else set_field "error" e response)
      by_code false = plain_error
      by_code true = record {
        same_id =
            field_of-set_field "__methods" "id" methods (set_field "error" e response)
            ∙ plain_error.same_id;
        one_outcome =
            rw
              (
                field_of-set_field "__methods" "result" methods (set_field "error" e response),
                field_of-set_field "__methods" "error" methods (set_field "error" e response),
              )
              plain_error.one_outcome;
      }
