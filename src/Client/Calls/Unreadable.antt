-- ===== src/Client/Calls/Unreadable.antt =====
-- A response whose error cannot be read takes its call out of the books without settling it.
use camera_ui_rpc.Base.{
  false, String, none, some, List, ◌==◌, String_eq, ◌≡◌, ◌≢◌, ◌∙◌, arith, eq_of_same, same_self,
}
use camera_ui_rpc.Base.Result.{Error, err}
use camera_ui_rpc.Base.Dict.{lookup, lookup-erase}
use camera_ui_rpc.Codec.Values.{Value, str, dict, Fields, field_of}
use camera_ui_rpc.Errors.{from_dict}
use camera_ui_rpc.Client.Calls.{Calls, take_pending, route_mux_response}
use camera_ui_rpc.Client.Calls.Steps.{Event, response_arrived, step, run}
use camera_ui_rpc.Client.Calls.Gone.{Gone, AllUnrelated, run-Gone}

take_pending-Gone :
    (id : String) (s : Calls) → lookup id s.futures ≡ none → Gone id (take_pending id s)
unfolding take_pending
take_pending-Gone id s h = (
  lookup-erase id id s.pending_requests ∙ ground (arith, same_self id),
  lookup-erase id id s.timers ∙ ground (arith, same_self id),
  h,
)

unreadable_response-Gone :
    (id subject : String) (s : Calls) (fs : Fields) (error : Value) (raised : Error)
    → id ≢ ""
    → lookup id s.pending_requests ≡ some subject
    → lookup id s.futures ≡ none
    → field_of "id" fs ≡ some (str id)
    → field_of "error" fs ≡ some error
    → from_dict error ≡ err raised
    → Gone id (route_mux_response (dict fs) s)
unfolding route_mux_response
unreadable_response-Gone id subject s fs error raised named p waits i e unreadable =
    let text : (id == "") ≡ false = ground (arith, eq_of_same id "") in
    let waits' : lookup id (take_pending id s).futures ≡ none = (take_pending-Gone id s waits).2 in
    rw (i, text, p, waits', e, unreadable) (take_pending-Gone id s waits)

-- When the error of a response has no code or no message, the call is left hanging: as long
-- as its id is not used again and the waiting task is not cancelled, it is not among the pending
-- requests, it has no timer, and its future is not done, whatever else happens.
pub unreadable_error_hangs :
    (id subject : String) (s : Calls) (fs : Fields) (error : Value) (raised : Error)
    (es : List Event)
    → id ≢ ""
    → lookup id s.pending_requests ≡ some subject
    → lookup id s.futures ≡ none
    → field_of "id" fs ≡ some (str id)
    → field_of "error" fs ≡ some error
    → from_dict error ≡ err raised
    → AllUnrelated id es
    → let s' = run es (step (response_arrived (dict fs)) s) in
      (lookup id s'.pending_requests ≡ none)
      × (lookup id s'.timers ≡ none)
      × (lookup id s'.futures ≡ none)
unfolding step
unreadable_error_hangs id subject s fs error raised es named p waits i e unreadable x =
    run-Gone id es (route_mux_response (dict fs) s) x
      (unreadable_response-Gone id subject s fs error raised named p waits i e unreadable)
