-- ===== src/Client/ServiceCalls/Tests.antt =====
-- The theorems on calls of services at concrete inputs.
use camera_ui_rpc.Base.{refl, true, String_eq, List, [], ◌∷◌}
use camera_ui_rpc.Codec.Values.{Value, str, int, pos, dict, field, no_fields, text_key, field_of}
use camera_ui_rpc.Client.ServiceCalls.{
  ServiceCall, new_service_call, CallEvent, resumes, returns, times_out, is_cancelled, responds,
  call_step, call_history, resume_call, return_call, handle_rpc_response,
}
use camera_ui_rpc.Client.ServiceCalls.CleanedUp.{ended_call_cleaned_up}
use camera_ui_rpc.Client.ServiceCalls.Events.{NothingLeft}
use camera_ui_rpc.Client.ServiceCalls.Leaked.{IsLeaked, cancelled_call_leaks}

abbrev sent_events : List CallEvent
sent_events = resumes true ∷ resumes true ∷ resumes true ∷ []

abbrev response : Value
response =
    dict (field (text_key "id") (str "p.1") (field (text_key "result") (int (pos 4)) no_fields))

abbrev answered_events : List CallEvent
answered_events = resumes true ∷ resumes true ∷ resumes true ∷ responds response ∷ returns ∷ []

ended_call_cleaned_up_example :
    NothingLeft (call_history "p.1" "math.add" answered_events new_service_call)
unfolding call_history call_step resume_call return_call handle_rpc_response field_of
ended_call_cleaned_up_example = ended_call_cleaned_up "p.1" "math.add" answered_events refl

abbrev sent_call : ServiceCall
unfolding call_history call_step resume_call
sent_call = call_history "p.1" "math.add" sent_events new_service_call

cancelled_call_leaks_example : IsLeaked (
    call_history "p.1" "math.add"
      (is_cancelled ∷ times_out ∷ responds response ∷ times_out ∷ [])
      sent_call)
unfolding sent_call call_history call_step resume_call
cancelled_call_leaks_example =
    cancelled_call_leaks "p.1" "math.add" sent_call (responds response ∷ times_out ∷ []) refl refl
      refl refl tt
