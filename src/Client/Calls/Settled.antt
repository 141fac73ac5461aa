-- ===== src/Client/Calls/Settled.antt =====
-- A future is settled once: what is done stays done, with the same outcome.
use camera_ui_rpc.Base.{
  eq_of_same, ℕ, String, Option, none, some, List, [], ◌∷◌, ◌==◌, String_eq, ◌≡◌, refl, ◌∙◌, inl,
  inr, arith, Bool-cases,
}
use camera_ui_rpc.Base.Result.{Result, ok, err}
use camera_ui_rpc.Base.Dict.{insert, lookup-insert, Dict, lookup}
use camera_ui_rpc.Codec.Values.{Value, str, dict, Fields, field_of}
use camera_ui_rpc.Errors.{RpcException, from_dict}
use camera_ui_rpc.Client.Calls.{
  Calls, Outcome, exception, connection_closed, settle, start_call, publish_failed, handle_timeout,
  cancel_call, take_pending, settle_call, set_future, handle_no_responders, route_mux_response,
  cleanup_pending_requests, settle_all, publish_failed_pending, fire_timer, status_for, route_id,
  route_pending, settle_response, settle_remote, if_waiting,
}
use camera_ui_rpc.Client.Calls.Steps.{
  Event, called, publishing_failed, timer_fired, task_cancelled, no_responder_status,
  response_arrived, connection_torn_down, step, run, lookup-settle,
}

abbrev Kept : String → Outcome → Calls → Type 0
Kept id o s = lookup id s.futures ≡ some o

settle-Kept :
    (outcome : Outcome) (id done : String) (o : Outcome) (futures : Dict String Outcome)
    → lookup id futures ≡ some o
    → lookup id (settle done outcome futures) ≡ some o
settle-Kept outcome id done o futures h = lookup-settle done id outcome futures ∙ ground arith

pub settle_all-Kept :
    (id : String) (o : Outcome) (pending : Dict String String) (futures : Dict String Outcome)
    → lookup id futures ≡ some o
    → lookup id (settle_all pending futures) ≡ some o
unfolding settle_all
settle_all-Kept id o [] futures h = h
settle_all-Kept id o ((k, subject) ∷ rest) futures h =
    settle_all-Kept id o rest (settle k (exception connection_closed) futures)
      (settle-Kept _ id k o futures h)

-- The future that is written was not done, so it is another one.
set-Kept :
    (outcome : Outcome) (id done : String) (o : Outcome) (futures : Dict String Outcome)
    → lookup done futures ≡ none
    → lookup id futures ≡ some o
    → lookup id (insert done outcome futures) ≡ some o
set-Kept outcome id done o futures waits h =
    lookup-insert done id outcome futures ∙ ground (arith, eq_of_same done id, waits, h)

settle_remote-Kept :
    (id done : String) (o : Outcome) (e : Result RpcException) (s : Calls)
    → lookup done s.futures ≡ none
    → Kept id o s
    → Kept id o (settle_remote done e s)
unfolding set_future
settle_remote-Kept id done o (ok e) s waits h = set-Kept _ id done o s.futures waits h
settle_remote-Kept id done o (err e) s waits h = h

settle_response-Kept :
    (id done : String) (o : Outcome) (fs : Fields) (error : Option Value) (s : Calls)
    → lookup done s.futures ≡ none
    → Kept id o s
    → Kept id o (settle_response done fs error s)
unfolding set_future
settle_response-Kept id done o fs (some e) s waits h =
    settle_remote-Kept id done o (from_dict e) s waits h
settle_response-Kept id done o fs none s waits h = set-Kept _ id done o s.futures waits h

route_pending-Kept :
    (id done : String) (o : Outcome) (fs : Fields) (s : Calls) (p : Option String)
    → Kept id o s
    → Kept id o (route_pending done fs s p)
unfolding take_pending
route_pending-Kept id done o fs s none h = h
route_pending-Kept id done o fs s (some subject) h = if_waiting-Kept (lookup done s.futures) refl
  where
    if_waiting-Kept :
        (waits : Option Outcome)
        → lookup done s.futures ≡ waits
        → Kept id o (
            if_waiting waits
              (settle_response done fs (field_of "error" fs) (take_pending done s))
              (take_pending done s))
    if_waiting-Kept none waits =
        settle_response-Kept id done o fs (field_of "error" fs) (take_pending done s) waits h
    if_waiting-Kept (some outcome) waits = h

route_id-Kept :
    (id : String) (o : Outcome) (fs : Fields) (s : Calls) (v : Option Value)
    → Kept id o s
    → Kept id o (route_id fs s v)
route_id-Kept id o fs s none h = h
route_id-Kept id o fs s (some (str text)) h = elim (Bool-cases (text == "")) [
  | inl empty ↦ rw empty h
  | inr full ↦ rw full (route_pending-Kept id text o fs s (lookup text s.pending_requests) h)
]
route_id-Kept id o fs s (some v) h = h

route_mux_response-Kept :
    (id : String) (o : Outcome) (v : Value) (s : Calls)
    → Kept id o s
    → Kept id o (route_mux_response v s)
unfolding route_mux_response
route_mux_response-Kept id o (dict fs) s h = route_id-Kept id o fs s (field_of "id" fs) h
route_mux_response-Kept id o v s h = h

publish_failed-Kept :
    (id failed : String) (o : Outcome) (s : Calls) (p : Option String)
    → Kept id o s
    → Kept id o (publish_failed_pending failed s p)
publish_failed-Kept id failed o s none h = h
publish_failed-Kept id failed o s (some subject) h = h

fire_timer-Kept :
    (id fired : String) (o : Outcome) (s : Calls) (timer p : Option String)
    → lookup fired s.pending_requests ≡ p
    → Kept id o s
    → Kept id o (fire_timer fired s timer)
fire_timer-Kept id fired o s none p e h = h
fire_timer-Kept id fired o s (some subject) none e h = rw e h
fire_timer-Kept id fired o s (some subject) (some waiting) e h =
    rw e (settle-Kept _ id fired o s.futures h)

status_for-Kept :
    (id suffix : String) (o : Outcome) (s : Calls) (handler : Option ℕ) (p : Option String)
    → lookup suffix s.pending_requests ≡ p
    → Kept id o s
    → Kept id o (status_for suffix s handler).0
unfolding settle_call take_pending
status_for-Kept id suffix o s (some handler) p e h = h
status_for-Kept id suffix o s none none e h = rw e h
status_for-Kept id suffix o s none (some subject) e h = rw e (settle-Kept _ id suffix o s.futures h)

-- Whatever happens, a future that is done keeps its outcome.
pub step-Kept :
    (id : String) (o : Outcome) (e : Event) (s : Calls)
    → lookup id s.futures ≡ some o
    → lookup id (step e s).futures ≡ some o
unfolding step
step-Kept id o (called k subject) s h = unfold start_call in h
step-Kept id o (publishing_failed k) s h =
    unfold publish_failed in publish_failed-Kept id k o s (lookup k s.pending_requests) h
step-Kept id o (timer_fired k) s h =
    unfold handle_timeout in
    fire_timer-Kept id k o s (lookup k s.timers) (lookup k s.pending_requests) refl h
step-Kept id o (task_cancelled k) s h = unfold cancel_call in settle-Kept _ id k o s.futures h
step-Kept id o (no_responder_status k) s h =
    unfold handle_no_responders in
    status_for-Kept id k o s (lookup k s.status_handlers) (lookup k s.pending_requests) refl h
step-Kept id o (response_arrived v) s h = route_mux_response-Kept id o v s h
step-Kept id o connection_torn_down s h =
    unfold cleanup_pending_requests in settle_all-Kept id o s.pending_requests s.futures h

-- A call's future is settled at most once: in every history of calls, answers, statuses,
-- time-outs, cancellations and tear-downs, a future that is done keeps its first outcome.
pub run-settled_once :
    (id : String) (o : Outcome) (es : List Event) (s : Calls)
    → lookup id s.futures ≡ some o
    → lookup id (run es s).futures ≡ some o
unfolding run
run-settled_once id o [] s h = h
run-settled_once id o (e ∷ es) s h = run-settled_once id o es (step e s) (step-Kept id o e s h)
