-- ===== src/Client/ServiceCalls/Tidy.antt =====
-- The invariant of a call of a service, for each of its operations: _call_once_service of client.py.
use camera_ui_rpc.Base.{◌≡◌, refl, Bool, true, false, Option, none, some}
use camera_ui_rpc.Client.Calls.{Outcome, result, exception}
use camera_ui_rpc.Client.ServiceCalls.{
  publishing_failed, Progress, subscribing, opening_inbox, publishing, awaiting, settled, stopped,
  ServiceCall, resume, return_settled, cancel_at,
}
use camera_ui_rpc.Client.ServiceCalls.Events.{NothingLeft, IsTidy, unsubscribed}

-- Where the task is does not matter.
elsewhere :
    (s : ServiceCall) (p : Progress) → NothingLeft s → NothingLeft (record s { progress = p })
elsewhere s p left = record {
  not_waiting = left.not_waiting;
  no_timer = left.no_timer;
  reply_closed = left.reply_closed;
  inbox_closed = left.inbox_closed;
}

pub resume-IsTidy :
    (succeeds : Bool) (p : Progress) (s : ServiceCall)
    → s.progress ≡ p
    → IsTidy s
    → IsTidy (resume succeeds p s)
resume-IsTidy true subscribing s here t = record {
  timed = t.timed;
  clean = λ h. cc h;
  early = λ h. t.early (rw here refl);
}
resume-IsTidy true opening_inbox s here t =
    let no_result = t.early (rw here refl) in
    record { timed = t.timed; clean = λ h. cc (h, no_result); early = λ h. cc h }
resume-IsTidy true publishing s here t = record {
  timed = t.timed;
  clean = λ h. elsewhere s _ (t.clean (rw here h));
  early = λ h. cc h;
}
resume-IsTidy false subscribing s here t = record {
  timed = t.timed;
  clean = λ h. cc h;
  early = λ h. cc h;
}
resume-IsTidy false opening_inbox s here t = record {
  timed = t.timed;
  clean = λ h. cc h;
  early = λ h. cc h;
}
resume-IsTidy false publishing s here t =
    unsubscribed (record s { progress = stopped publishing_failed }) t.timed (λ h. cc h)
resume-IsTidy true awaiting s here t = t
resume-IsTidy true (settled o) s here t = t
resume-IsTidy true (stopped why) s here t = t
resume-IsTidy false awaiting s here t = t
resume-IsTidy false (settled o) s here t = t
resume-IsTidy false (stopped why) s here t = t

pub return-IsTidy :
    (p : Progress) (f : Option Outcome) (s : ServiceCall)
    → s.progress ≡ p
    → s.future ≡ f
    → IsTidy s
    → IsTidy (return_settled p f s)
return-IsTidy awaiting (some (result v)) s here done t = record {
  timed = t.timed;
  clean = λ h. elsewhere s _ (t.clean (rw (here, done) refl));
  early = λ h. cc h;
}
return-IsTidy awaiting (some (exception e)) s here done t =
    unsubscribed (record s { progress = settled (exception e) }) t.timed (λ h. cc h)
return-IsTidy awaiting none s here done t = t
return-IsTidy subscribing none s here done t = t
return-IsTidy subscribing (some o) s here done t = t
return-IsTidy opening_inbox none s here done t = t
return-IsTidy opening_inbox (some o) s here done t = t
return-IsTidy publishing none s here done t = t
return-IsTidy publishing (some o) s here done t = t
return-IsTidy (settled r) none s here done t = t
return-IsTidy (settled r) (some o) s here done t = t
return-IsTidy (stopped why) none s here done t = t
return-IsTidy (stopped why) (some o) s here done t = t

pub cancel-IsTidy : (p : Progress) (s : ServiceCall) → IsTidy s → IsTidy (cancel_at p s)
cancel-IsTidy (settled o) s t = t
cancel-IsTidy (stopped why) s t = t
cancel-IsTidy awaiting s t = record { timed = t.timed; clean = λ h. cc h; early = λ h. cc h }
cancel-IsTidy subscribing s t = record { timed = t.timed; clean = λ h. cc h; early = λ h. cc h }
cancel-IsTidy opening_inbox s t = record { timed = t.timed; clean = λ h. cc h; early = λ h. cc h }
cancel-IsTidy publishing s t = record { timed = t.timed; clean = λ h. cc h; early = λ h. cc h }
