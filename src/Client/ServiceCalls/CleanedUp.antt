-- ===== src/Client/ServiceCalls/CleanedUp.antt =====
-- A call of a service that has ended leaves nothing behind: _call_once_service of client.py.
use camera_ui_rpc.Base.{◌≡◌, refl, Bool, true, false, String, Option, List, [], ◌∷◌, if◌then◌else◌}
use camera_ui_rpc.Client.Calls.{no_responders, connection_closed, Outcome, exception}
use camera_ui_rpc.Client.ServiceCalls.{
  publishing_failed, subscribing_failed, task_cancelled, Progress, subscribing, opening_inbox,
  publishing, awaiting, settled, stopped, ServiceCall, new_service_call, done_with, unsubscribe_all,
  response_for, is_sent, CallEvent, resumes, returns, times_out, is_cancelled, connection_cleanup,
  responds, inbox_message, call_step, call_history, call_expires, handle_rpc_response,
  request_callback, cleanup_pending, resume_call, return_call, cancel_service_call,
}
use camera_ui_rpc.Client.ServiceCalls.Events.{
  NothingLeft, has_cleaned, IsTidy, unsubscribed, failed_with, expire-IsTidy,
  respond_waiting-IsTidy, inbox-IsTidy,
}
use camera_ui_rpc.Client.ServiceCalls.Tidy.{resume-IsTidy, return-IsTidy, cancel-IsTidy}

torn_down :
    (s : ServiceCall)
    → IsTidy s
    → let s' = unsubscribe_all s in
      IsTidy (record s' { future = done_with (exception connection_closed) s'.future })
torn_down s t =
    unsubscribed (record s { future = done_with (exception connection_closed) s.future }) t.timed
      (failed_with s connection_closed t)

either :
    {x y : ServiceCall} (b : Bool)
    → (b ≡ true → IsTidy x)
    → (b ≡ false → IsTidy y)
    → IsTidy (if b then x else y)
either true x y = x refl
either false x y = y refl

module _ (id subject : String) where
  step-IsTidy : (e : CallEvent) (s : ServiceCall) → IsTidy s → IsTidy (call_step id subject e s)
  unfolding call_step call_expires handle_rpc_response request_callback cleanup_pending resume_call
      return_call cancel_service_call
  step-IsTidy (resumes succeeds) s t = resume-IsTidy succeeds s.progress s refl t
  step-IsTidy returns s t = return-IsTidy s.progress s.future s refl refl t
  step-IsTidy times_out s t =
      either s.timer (λ h. expire-IsTidy subject s s.waiting refl t) (λ h. t)
  step-IsTidy is_cancelled s t = cancel-IsTidy s.progress s t
  step-IsTidy connection_cleanup s t = either s.waiting (λ h. torn_down s t) (λ h. t)
  step-IsTidy (responds value) s t =
      either (is_sent s.progress)
        (λ sent.
          either s.reply_open
            (λ h. respond_waiting-IsTidy s s.waiting (response_for id value) sent t) (λ h. t))
        (λ h. t)
  step-IsTidy (inbox_message true) s t =
      either s.inbox_open
        (λ h.
          unsubscribed
            (record s { future = done_with (exception (no_responders subject)) s.future }) t.timed
            (failed_with s (no_responders subject) t))
        (λ h. t)
  step-IsTidy (inbox_message false) s t = either s.inbox_open (λ h. inbox-IsTidy s t) (λ h. t)

  history-IsTidy :
      (es : List CallEvent) (s : ServiceCall) → IsTidy s → IsTidy (call_history id subject es s)
  unfolding call_history
  history-IsTidy [] s t = t
  history-IsTidy (e ∷ es) s t = history-IsTidy es (call_step id subject e s) (step-IsTidy e s t)

new_service_call-IsTidy : IsTidy new_service_call
new_service_call-IsTidy = record { timed = refl; clean = λ h. cc h; early = λ h. refl }

-- whether the call has returned, has raised what its future has, or could not be published
abbrev pub has_ended : Progress → Bool
has_ended (settled o) = true
has_ended (stopped publishing_failed) = true
has_ended _ = false

ended-cleaned : (p : Progress) (f : Option Outcome) → has_ended p ≡ true → has_cleaned p f ≡ true
ended-cleaned (settled o) f h = refl
ended-cleaned (stopped publishing_failed) f h = refl
ended-cleaned (stopped subscribing_failed) f h = cc h
ended-cleaned (stopped task_cancelled) f h = cc h
ended-cleaned subscribing f h = cc h
ended-cleaned opening_inbox f h = cc h
ended-cleaned publishing f h = cc h
ended-cleaned awaiting f h = cc h

-- Whatever happens to a call of a service, and in whatever order, once it has returned, has raised
-- what its future has, or could not be published, it leaves nothing behind: no entry among the
-- pending requests, no timer and no subscription.
pub ended_call_cleaned_up :
    (id subject : String) (es : List CallEvent)
    → has_ended (call_history id subject es new_service_call).progress ≡ true
    → NothingLeft (call_history id subject es new_service_call)
ended_call_cleaned_up id subject es ended =
    let s = call_history id subject es new_service_call in
    let t = history-IsTidy id subject es new_service_call new_service_call-IsTidy in
    t.clean (ended-cleaned s.progress s.future ended)
