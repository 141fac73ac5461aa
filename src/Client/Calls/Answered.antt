-- ===== src/Client/Calls/Answered.antt =====
-- No call is lost: it is pending with its timer running until its future is done. Only an error
-- that cannot be read breaks this.
use camera_ui_rpc.Base.{
  String, Option, none, some, List, [], ◌∷◌, ◌==◌, String_eq, ◌≡◌, ◌∙◌, inl, inr, arith, Bool-cases,
  same_self,
}
use camera_ui_rpc.Base.Dict.{lookup, lookup-insert}
use camera_ui_rpc.Codec.Values.{Value, str, dict, Fields, field_of}
use camera_ui_rpc.Client.Calls.{
  Calls, Outcome, start_call, publish_failed, handle_timeout, cancel_call, route_mux_response,
  cleanup_pending_requests, route_id,
}
use camera_ui_rpc.Client.Calls.Steps.{
  Event, called, publishing_failed, timer_fired, task_cancelled, no_responder_status,
  response_arrived, connection_torn_down, step, run,
}
use camera_ui_rpc.Client.Calls.Settled.{step-Kept}
use camera_ui_rpc.Client.Calls.NotLost.{
  Tracked, Readable, ReadableError, Expected, settled_now, settle_all-settles, same_or_other,
  insert_other, publish_failed-Tracked, handle_timeout-Tracked, handle_no_responders-Tracked,
  route_other, route_own,
}

route_id-Tracked :
    (id subject : String) (fs : Fields) (s : Calls) (v : Option Value)
    → lookup id s.pending_requests ≡ some subject
    → lookup id s.timers ≡ some subject
    → Readable (field_of "error" fs)
    → Tracked id subject (route_id fs s v)
route_id-Tracked id subject fs s none p t r = inl (p, t)
route_id-Tracked id subject fs s (some (str k)) p t r = elim (Bool-cases (k == "")) [
  | inl empty ↦ rw empty (inl (p, t))
  | inr full ↦ rw full (elim (same_or_other k id) [
    | inl same ↦ rw same (route_own id subject fs s (lookup id s.pending_requests) p r)
    | inr differs ↦ route_other id subject s p t k fs (lookup k s.pending_requests) differs
  ])
]
route_id-Tracked id subject fs s (some v) p t r = inl (p, t)

route_mux_response-Tracked :
    (id subject : String) (v : Value) (s : Calls)
    → lookup id s.pending_requests ≡ some subject
    → lookup id s.timers ≡ some subject
    → ReadableError v
    → Tracked id subject (route_mux_response v s)
unfolding route_mux_response
route_mux_response-Tracked id subject (dict fs) s p t r =
    route_id-Tracked id subject fs s (field_of "id" fs) p t r
route_mux_response-Tracked id subject v s p t r = inl (p, t)

waiting_step :
    (id subject : String) (e : Event) (s : Calls)
    → Expected id e
    → lookup id s.pending_requests ≡ some subject
    → lookup id s.timers ≡ some subject
    → Tracked id subject (step e s)
unfolding step
waiting_step id subject (called k other) s x p t =
    unfold start_call in
    inl (insert_other k id other s.pending_requests x ∙ p, insert_other k id other s.timers x ∙ t)
waiting_step id subject (publishing_failed k) s x p t =
    unfold publish_failed in
    publish_failed-Tracked id subject s p t k (lookup k s.pending_requests) x
waiting_step id subject (timer_fired k) s x p t = handle_timeout-Tracked id subject s p t k
waiting_step id subject (task_cancelled k) s x p t = unfold cancel_call in inl (p, t)
waiting_step id subject (no_responder_status k) s x p t =
    handle_no_responders-Tracked id subject s p t k
waiting_step id subject (response_arrived v) s x p t =
    route_mux_response-Tracked id subject v s p t x
waiting_step id subject connection_torn_down s x p t =
    unfold cleanup_pending_requests in
    inr (settle_all-settles id subject s.pending_requests s.futures p)

step-Tracked :
    (id subject : String) (e : Event) (s : Calls)
    → Expected id e
    → Tracked id subject s
    → Tracked id subject (step e s)
step-Tracked id subject e s x (inl (p, t)) = waiting_step id subject e s x p t
step-Tracked id subject e s x (inr (o, done)) = inr (o, step-Kept id o e s done)

abbrev pub AllExpected : String → List Event → Type 0
AllExpected id [] = Unit
AllExpected id (e ∷ es) = Expected id e × AllExpected id es

-- From the start of a call on, whatever else happens, the call is pending with its timer running
-- or its future is done, as long as its id is used once, its request could be published and the
-- errors that responses carry have a code and a message.
pub run-Tracked :
    (id subject : String) (es : List Event) (s : Calls)
    → AllExpected id es
    → Tracked id subject s
    → Tracked id subject (run es s)
unfolding run
run-Tracked id subject [] s x h = h
run-Tracked id subject (e ∷ es) s x h =
    run-Tracked id subject es (step e s) x.1 (step-Tracked id subject e s x.0 h)

start_call-Tracked :
    (id subject : String) (s : Calls) → Tracked id subject (start_call id subject s)
unfolding start_call
start_call-Tracked id subject s = inl (
  lookup-insert id id subject s.pending_requests ∙ ground (arith, same_self id),
  lookup-insert id id subject s.timers ∙ ground (arith, same_self id),
)

after_timeout :
    (id subject : String) (s : Calls)
    → Tracked id subject s
    → (o : Outcome) × (lookup id (handle_timeout id s).futures ≡ some o)
unfolding handle_timeout
after_timeout id subject s (inl (p, t)) = rw (t, p) (settled_now id _ s.futures)
after_timeout id subject s (inr (o, done)) =
    (o, unfold step in step-Kept id o (timer_fired id) s done)

-- Every call is answered: whatever happens after its start, once its timer has fired or been
-- cancelled its future is done, as long as its id is used once, its request could be published
-- and the errors that responses carry have a code and a message.
pub call_is_answered :
    (id subject : String) (es : List Event) (s : Calls)
    → AllExpected id es
    → let s' = run es (start_call id subject s) in
      (o : Outcome) × (lookup id (handle_timeout id s').futures ≡ some o)
call_is_answered id subject es s x =
    after_timeout id subject (run es (start_call id subject s))
      (run-Tracked id subject es (start_call id subject s) x (start_call-Tracked id subject s))
