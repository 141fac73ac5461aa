-- ===== src/Client/Calls/Steps.antt =====
-- What can happen to the waiting calls, one event after the other, and what one event does to
-- the entries of one call.
use camera_ui_rpc.Base.{
  String, Option, none, some, List, [], ◌∷◌, ◌==◌, String_eq, ◌≡◌, refl, ◌∙◌, arith, eq_of_same,
  if◌then◌else◌,
}
use camera_ui_rpc.Base.Dict.{Dict, lookup, lookup-insert}
use camera_ui_rpc.Codec.Values.{Value}
use camera_ui_rpc.Client.Calls.{
  Calls, Outcome, settle_if, settle, start_call, publish_failed, handle_timeout, cancel_call,
  handle_no_responders, route_mux_response, cleanup_pending_requests,
}

pub data Event : Type 0 where
  called : String → String → Event
  publishing_failed timer_fired task_cancelled : String → Event
  no_responder_status : String → Event
  response_arrived : Value → Event
  connection_torn_down : Event

unfoldable pub step : Event → Calls → Calls
unfolding start_call publish_failed handle_timeout cancel_call handle_no_responders
    route_mux_response cleanup_pending_requests
step (called id subject) s = start_call id subject s
step (publishing_failed id) s = publish_failed id s
step (timer_fired id) s = handle_timeout id s
step (task_cancelled id) s = cancel_call id s
step (no_responder_status suffix) s = (handle_no_responders suffix s).0
step (response_arrived response) s = route_mux_response response s
step connection_torn_down s = cleanup_pending_requests s

unfoldable pub run : List Event → Calls → Calls
unfolding step
run [] s = s
run (e ∷ es) s = run es (step e s)

-- The entries of one call: pending, timer and future.
pub record Entry : Type 0 where
  pub waiting : Option String
  pub timer : Option String
  pub future : Option Outcome

abbrev pub entry : String → Calls → Entry
entry id s = record {
  waiting = lookup id s.pending_requests;
  timer = lookup id s.timers;
  future = lookup id s.futures;
}

-- a future that is done stays as it is
abbrev pub first_outcome : Option Outcome → Outcome → Option Outcome
first_outcome none outcome = some outcome
first_outcome (some settled) outcome = some settled

lookup-settle_if :
    (id wanted : String) (outcome : Outcome) (futures : Dict String Outcome) (o : Option Outcome)
    → lookup id futures ≡ o
    → lookup wanted (settle_if id outcome futures o) ≡ (
        if id == wanted
        then first_outcome (lookup wanted futures) outcome
        else lookup wanted futures)
lookup-settle_if id wanted outcome futures none h =
    lookup-insert id wanted outcome futures ∙ ground (arith, eq_of_same id wanted, h)
lookup-settle_if id wanted outcome futures (some o) h = ground (arith, eq_of_same id wanted, h)

pub lookup-settle :
    (id wanted : String) (outcome : Outcome) (futures : Dict String Outcome)
    → lookup wanted (settle id outcome futures) ≡ (
        if id == wanted
        then first_outcome (lookup wanted futures) outcome
        else lookup wanted futures)
unfolding settle
lookup-settle id wanted outcome futures =
    lookup-settle_if id wanted outcome futures (lookup id futures) refl
