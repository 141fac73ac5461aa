-- ===== src/Client/ServiceCalls.antt =====
-- A call of a service: _call_once_service of client.py, with its timer, its two subscriptions and
-- the cleanup hook that _cleanup_pending_requests runs. The state is that of one call; `waiting` is
-- whether it is in `pending_requests`. What a handler does is one step, its unsubscribing included.
pub mod Tidy
pub mod CleanedUp
pub mod Leaked
pub mod Tests
pub mod Events
use camera_ui_rpc.Base.{
  Bool, true, false, String, Option, none, some, List, [], ◌∷◌, ◌==◌, String_eq, if◌then◌else◌,
}
use camera_ui_rpc.Base.Result.{Result, ok, err}
use camera_ui_rpc.Codec.Values.{Value, str, dict, Fields, field_of}
use camera_ui_rpc.Codec.Fields.{set_field}
use camera_ui_rpc.Errors.{RpcException, from_dict}
use camera_ui_rpc.Client.Calls.{
  CallError, remote, timed_out, no_responders, connection_closed, cancelled, Outcome, result,
  exception, with_methods, result_of,
}

pub data Stop : Type 0 where
  subscribing_failed publishing_failed task_cancelled : Stop

-- where the task is: in one of its three awaits before the future's, in that one, or behind it
pub data Progress : Type 0 where
  subscribing opening_inbox publishing awaiting : Progress
  settled : Outcome → Progress
  stopped : Stop → Progress

pub record ServiceCall : Type 0 where
  pub progress : Progress
  pub waiting : Bool
  pub timer : Bool
  pub future : Option Outcome
  -- the reply subscription, which a reconnect restores, and that of the inbox
  pub reply_open : Bool
  pub inbox_open : Bool

abbrev pub new_service_call : ServiceCall
new_service_call = record {
  progress = subscribing;
  waiting = true;
  timer = true;
  future = none;
  reply_open = false;
  inbox_open = false;
}

-- `if not future.done()`
abbrev pub done_with : Outcome → Option Outcome → Option Outcome
done_with o none = some o
done_with o (some done) = some done

-- `unsubscribe_all`
abbrev pub unsubscribe_all : ServiceCall → ServiceCall
unsubscribe_all s = record s {
  waiting = false;
  timer = if s.waiting then false else s.timer;
  reply_open = false;
  inbox_open = false;
}

abbrev pub expire : Bool → String → ServiceCall → ServiceCall
expire true subject s = record s {
  waiting = false;
  timer = false;
  future = done_with (exception (timed_out subject)) s.future;
}
expire false subject s = record s { timer = false }

-- `handle_timeout`, run by the timer, which is used up
unfoldable pub call_expires : String → ServiceCall → ServiceCall
call_expires subject s = if s.timer then expire s.waiting subject s else s

abbrev pub outcome_in : Fields → Option Value → Result Outcome
outcome_in fs none =
    ok (result (with_methods (field_of "__methods" fs) (result_of (field_of "result" fs))))
outcome_in fs (some error) = remote_outcome (from_dict error)
  where
    remote_outcome : Result RpcException → Result Outcome
    remote_outcome (ok e) = ok (exception (remote e))
    remote_outcome (err e) = err e

-- An error that cannot be read raises out of the handler, before its unsubscribing. It is read only
-- if the future is not done.
abbrev pub settle_open : Option Outcome → Result Outcome → ServiceCall → ServiceCall
settle_open none (err e) s = s
settle_open none (ok o) s = unsubscribe_all (record s { future = some o })
settle_open (some done) r s = unsubscribe_all s

abbrev pub settle_waiting : Result Outcome → ServiceCall → ServiceCall
settle_waiting r s = settle_open s.future r (record s { waiting = false; timer = false })

abbrev pub has_id : String → Option Value → Bool
has_id id (some (str s)) = s == id
has_id id _ = false

-- a response for this call
abbrev pub response_for : String → Value → Option Fields
response_for id (dict fs) = if has_id id (field_of "id" fs) then some fs else none
response_for id value = none

abbrev pub respond_waiting : Bool → Option Fields → ServiceCall → ServiceCall
respond_waiting true (some fs) s = settle_waiting (outcome_in fs (field_of "error" fs)) s
respond_waiting _ _ s = s

-- whether the request is on its way: nobody has its id before
abbrev pub is_sent : Progress → Bool
is_sent subscribing = false
is_sent opening_inbox = false
is_sent progress = true

-- `handle_rpc_response`
unfoldable pub handle_rpc_response : String → Value → ServiceCall → ServiceCall
unfolding from_dict set_field field_of
handle_rpc_response id value s =
    if is_sent s.progress
    then if s.reply_open then respond_waiting s.waiting (response_for id value) s else s
    else s

-- `request_callback`, for a no-responder status or any other message; the inbox takes one message
unfoldable pub request_callback : String → Bool → ServiceCall → ServiceCall
request_callback subject is_status s =
    if s.inbox_open
    then if is_status
      then unsubscribe_all
          (record s { future = done_with (exception (no_responders subject)) s.future })
      else record s { inbox_open = false }
    else s

-- the hook and the future of `_cleanup_pending_requests`, which is what suspending and disconnecting
-- do for a pending call before they close the other subscriptions, as in Client/Subscriptions
unfoldable pub cleanup_pending : ServiceCall → ServiceCall
cleanup_pending s =
    if s.waiting
    then (let s' = unsubscribe_all s in
        record s' { future = done_with (exception connection_closed) s'.future })
    else s

-- The task goes on behind an await. Only the publishing and the future stand in the `try`.
abbrev pub resume : Bool → Progress → ServiceCall → ServiceCall
resume true subscribing s = record s { progress = opening_inbox; reply_open = true }
resume true opening_inbox s = record s { progress = publishing; inbox_open = true }
resume true publishing s = record s { progress = awaiting }
resume false subscribing s = record s { progress = stopped subscribing_failed }
resume false opening_inbox s = record s { progress = stopped subscribing_failed }
resume false publishing s = unsubscribe_all (record s { progress = stopped publishing_failed })
resume succeeds progress s = s

unfoldable pub resume_call : Bool → ServiceCall → ServiceCall
resume_call succeeds s = resume succeeds s.progress s

abbrev pub return_settled : Progress → Option Outcome → ServiceCall → ServiceCall
return_settled awaiting (some (result v)) s = record s { progress = settled (result v) }
return_settled awaiting (some (exception e)) s =
    unsubscribe_all (record s { progress = settled (exception e) })
return_settled progress o s = s

-- the task reads its future
unfoldable pub return_call : ServiceCall → ServiceCall
return_call s = return_settled s.progress s.future s

-- A cancellation is no `Exception`: no `except` branch runs. It cancels the future that is awaited.
abbrev pub cancel_at : Progress → ServiceCall → ServiceCall
cancel_at (settled o) s = s
cancel_at (stopped why) s = s
cancel_at awaiting s = record s {
  progress = stopped task_cancelled;
  future = done_with (exception cancelled) s.future;
}
cancel_at progress s = record s { progress = stopped task_cancelled }

unfoldable pub cancel_service_call : ServiceCall → ServiceCall
cancel_service_call s = cancel_at s.progress s

pub data CallEvent : Type 0 where
  resumes : Bool → CallEvent
  returns times_out is_cancelled connection_cleanup : CallEvent
  responds : Value → CallEvent
  inbox_message : Bool → CallEvent

unfoldable pub call_step : String → String → CallEvent → ServiceCall → ServiceCall
unfolding call_expires handle_rpc_response request_callback cleanup_pending resume_call return_call
    cancel_service_call
call_step id subject (resumes succeeds) s = resume_call succeeds s
call_step id subject returns s = return_call s
call_step id subject times_out s = call_expires subject s
call_step id subject is_cancelled s = cancel_service_call s
call_step id subject connection_cleanup s = cleanup_pending s
call_step id subject (responds value) s = handle_rpc_response id value s
call_step id subject (inbox_message is_status) s = request_callback subject is_status s

unfoldable pub call_history : String → String → List CallEvent → ServiceCall → ServiceCall
unfolding call_step
call_history id subject [] s = s
call_history id subject (e ∷ es) s = call_history id subject es (call_step id subject e s)
