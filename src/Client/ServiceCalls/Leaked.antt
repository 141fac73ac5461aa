-- ===== src/Client/ServiceCalls/Leaked.antt =====
-- A cancelled call of a service that nobody cleans up: _call_once_service of client.py.
use camera_ui_rpc.Base.{
  ◌≡◌, refl, Bool, true, false, String, Option, none, some, List, [], ◌∷◌, if◌then◌else◌,
}
use camera_ui_rpc.Codec.Values.{Fields}
use camera_ui_rpc.Client.Calls.{Outcome, exception, cancelled}
use camera_ui_rpc.Client.ServiceCalls.{
  Progress, stopped, task_cancelled, awaiting, ServiceCall, CallEvent, resumes, returns, times_out,
  is_cancelled, connection_cleanup, responds, inbox_message, call_step, call_history, call_expires,
  handle_rpc_response, request_callback, resume_call, return_call, cancel_service_call, resume,
  return_settled, cancel_at, done_with, expire, respond_waiting, response_for, is_sent,
}

-- the call is over and forgotten, and its reply subscription is open
pub record IsLeaked (s : ServiceCall) : Type 0 where
  pub over : s.progress ≡ stopped task_cancelled
  pub forgotten : s.waiting ≡ false
  pub reply_kept : s.reply_open ≡ true

-- no no-responder status among the events, and the client neither suspends nor disconnects
abbrev pub Undisturbed : List CallEvent → Type 0
Undisturbed [] = Unit
Undisturbed (inbox_message true ∷ es) = ⊥
Undisturbed (connection_cleanup ∷ es) = ⊥
Undisturbed (e ∷ es) = Undisturbed es

resume-stopped :
    (succeeds : Bool) (p : Progress) (s : ServiceCall)
    → p ≡ stopped task_cancelled
    → resume succeeds p s ≡ s
resume-stopped true p s h = rw h refl
resume-stopped false p s h = rw h refl

return-stopped :
    (p : Progress) (f : Option Outcome) (s : ServiceCall)
    → p ≡ stopped task_cancelled
    → return_settled p f s ≡ s
return-stopped p none s h = rw h refl
return-stopped p (some o) s h = rw h refl

cancel-stopped : (p : Progress) (s : ServiceCall) → p ≡ stopped task_cancelled → cancel_at p s ≡ s
cancel-stopped p s h = rw h refl

-- an awaiting task, cancelled
abbrev cancelled_at_future : ServiceCall → ServiceCall
cancelled_at_future s = record s {
  progress = stopped task_cancelled;
  future = done_with (exception cancelled) s.future;
}

cancel-awaiting :
    (p : Progress) (s : ServiceCall) → p ≡ awaiting → cancel_at p s ≡ cancelled_at_future s
cancel-awaiting p s h = rw h refl

module _ (id subject : String) where
  fired :
      (scheduled waits : Bool) (s : ServiceCall)
      → scheduled ≡ true
      → waits ≡ true
      → s.progress ≡ stopped task_cancelled
      → s.reply_open ≡ true
      → IsLeaked (if scheduled then expire waits subject s else s)
  fired true true s scheduled waits over opened = record {
    over = over;
    forgotten = refl;
    reply_kept = opened;
  }
  fired true false s scheduled waits over opened = cc waits
  fired false waits s scheduled h over opened = cc scheduled

  expired_or_not :
      (scheduled waits : Bool) (s : ServiceCall)
      → waits ≡ false
      → IsLeaked s
      → IsLeaked (if scheduled then expire waits subject s else s)
  expired_or_not true true s gone l = cc gone
  expired_or_not true false s gone l = record {
    over = l.over;
    forgotten = l.forgotten;
    reply_kept = l.reply_kept;
  }
  expired_or_not false waits s gone l = l

  late :
      (sent opened waits : Bool) (fs : Option Fields) (s : ServiceCall)
      → waits ≡ false
      → IsLeaked s
      → IsLeaked (if sent then if opened then respond_waiting waits fs s else s else s)
  late true true true fs s gone l = cc gone
  late true true false none s gone l = l
  late true true false (some fs) s gone l = l
  late true false waits fs s gone l = l
  late false opened waits fs s gone l = l

  inbox-IsLeaked :
      (opened : Bool) (s : ServiceCall)
      → IsLeaked s
      → IsLeaked (if opened then record s { inbox_open = false } else s)
  inbox-IsLeaked true s l = record {
    over = l.over;
    forgotten = l.forgotten;
    reply_kept = l.reply_kept;
  }
  inbox-IsLeaked false s l = l

  step-IsLeaked :
      (e : CallEvent) (s : ServiceCall)
      → Undisturbed (e ∷ [])
      → IsLeaked s
      → IsLeaked (call_step id subject e s)
  unfolding call_step call_expires handle_rpc_response request_callback resume_call return_call
      cancel_service_call
  step-IsLeaked (resumes succeeds) s none_there l =
      rw (resume-stopped succeeds s.progress s l.over) l
  step-IsLeaked returns s none_there l = rw (return-stopped s.progress s.future s l.over) l
  step-IsLeaked times_out s none_there l = expired_or_not s.timer s.waiting s l.forgotten l
  step-IsLeaked is_cancelled s none_there l = rw (cancel-stopped s.progress s l.over) l
  step-IsLeaked connection_cleanup s none_there l = absurd none_there
  step-IsLeaked (responds value) s none_there l =
      late (is_sent s.progress) s.reply_open s.waiting (response_for id value) s l.forgotten l
  step-IsLeaked (inbox_message false) s none_there l = inbox-IsLeaked s.inbox_open s l
  step-IsLeaked (inbox_message true) s none_there l = absurd none_there

  history-IsLeaked :
      (es : List CallEvent) (s : ServiceCall)
      → Undisturbed es
      → IsLeaked s
      → IsLeaked (call_history id subject es s)
  unfolding call_history
  history-IsLeaked [] s none_there l = l
  history-IsLeaked (inbox_message true ∷ es) s none_there l = absurd none_there
  history-IsLeaked (connection_cleanup ∷ es) s none_there l = absurd none_there
  history-IsLeaked (e ∷ es) s none_there l =
      history-IsLeaked es (call_step id subject e s) none_there (step-IsLeaked e s tt l)

-- The task of a call of a service is cancelled while it awaits the response, and its time-out
-- fires before one arrives. Whatever happens to the call from then on, a late response included, its
-- reply subscription stays open as long as the client neither suspends nor disconnects, unless a
-- no-responder status comes.
pub cancelled_call_leaks :
    (id subject : String) (s : ServiceCall) (es : List CallEvent)
    → s.progress ≡ awaiting
    → s.timer ≡ true
    → s.waiting ≡ true
    → s.reply_open ≡ true
    → Undisturbed es
    → IsLeaked (call_history id subject (is_cancelled ∷ times_out ∷ es) s)
unfolding call_history call_step call_expires cancel_service_call
cancelled_call_leaks id subject s es here scheduled waits opened none_there =
    history-IsLeaked id subject es
      (call_step id subject times_out (call_step id subject is_cancelled s)) none_there
      (rw (cancel-awaiting s.progress s here)
        (fired id subject s.timer s.waiting (cancelled_at_future s) scheduled waits refl opened))
