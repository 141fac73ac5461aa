-- ===== src/Client/ServiceCalls/Events.antt =====
-- The invariant of a call of a service, for its timer and its subscriptions: _call_once_service
-- of client.py.
use camera_ui_rpc.Base.{
  ◌≡◌, refl, sym, ◌∙◌, Bool, true, false, String, Option, none, some, arith, if◌then◌else◌,
}
use camera_ui_rpc.Base.Result.{Result, ok, err}
use camera_ui_rpc.Codec.Values.{Fields, field_of}
use camera_ui_rpc.Client.Calls.{CallError, timed_out, Outcome, result, exception}
use camera_ui_rpc.Client.ServiceCalls.{
  publishing_failed, subscribing_failed, task_cancelled, Progress, subscribing, opening_inbox,
  publishing, awaiting, settled, stopped, ServiceCall, done_with, unsubscribe_all, expire,
  outcome_in, settle_open, settle_waiting, respond_waiting, is_sent,
}

-- no entry among the pending requests, no timer and no subscription
pub record NothingLeft (s : ServiceCall) : Type 0 where
  pub not_waiting : s.waiting ≡ false
  pub no_timer : s.timer ≡ false
  pub reply_closed : s.reply_open ≡ false
  pub inbox_closed : s.inbox_open ≡ false

abbrev pub is_result : Option Outcome → Bool
is_result (some (result v)) = true
is_result _ = false

-- whether a call at this place, with this future, has nothing to clean up any more
abbrev pub has_cleaned : Progress → Option Outcome → Bool
has_cleaned (settled o) f = true
has_cleaned (stopped publishing_failed) f = true
has_cleaned (stopped subscribing_failed) f = false
has_cleaned (stopped task_cancelled) f = false
has_cleaned subscribing f = false
has_cleaned opening_inbox f = false
has_cleaned publishing f = is_result f
has_cleaned awaiting f = is_result f

pub record IsTidy (s : ServiceCall) : Type 0 where
  pub timed : s.timer ≡ s.waiting
  pub clean : has_cleaned s.progress s.future ≡ true → NothingLeft s
  -- no result before the request is sent
  pub early : is_sent s.progress ≡ false → is_result s.future ≡ false

-- An exception changes nothing of the invariant.
cleaned-exception :
    (p : Progress) (e : CallError) (f : Option Outcome)
    → has_cleaned p (done_with (exception e) f) ≡ has_cleaned p f
cleaned-exception (settled o) e f = refl
cleaned-exception (stopped publishing_failed) e f = refl
cleaned-exception (stopped subscribing_failed) e f = refl
cleaned-exception (stopped task_cancelled) e f = refl
cleaned-exception subscribing e f = refl
cleaned-exception opening_inbox e f = refl
cleaned-exception publishing e none = refl
cleaned-exception publishing e (some o) = refl
cleaned-exception awaiting e none = refl
cleaned-exception awaiting e (some o) = refl

result-exception :
    (e : CallError) (f : Option Outcome) → is_result (done_with (exception e) f) ≡ is_result f
result-exception e none = refl
result-exception e (some o) = refl

pub unsubscribed :
    (s : ServiceCall)
    → s.timer ≡ s.waiting
    → (is_sent s.progress ≡ false → is_result s.future ≡ false)
    → IsTidy (unsubscribe_all s)
unsubscribed s timed early = record {
  timed = stopped_timer;
  clean = λ h. record {
    not_waiting = refl;
    no_timer = stopped_timer;
    reply_closed = refl;
    inbox_closed = refl;
  };
  early = early;
}
  where
    stopped_timer : (if s.waiting then false else s.timer) ≡ false
    stopped_timer = ground (arith, timed)

-- the state with an exception for its future, if that is not done
pub failed_with :
    (s : ServiceCall) (e : CallError)
    → IsTidy s
    → is_sent s.progress ≡ false
    → is_result (done_with (exception e) s.future) ≡ false
failed_with s e t before = result-exception e s.future ∙ t.early before

pub expire-IsTidy :
    (subject : String) (s : ServiceCall) (waits : Bool)
    → s.waiting ≡ waits
    → IsTidy s
    → IsTidy (expire waits subject s)
expire-IsTidy subject s true waits t = record {
  timed = refl;
  clean = λ h.
      let left = t.clean (sym (cleaned-exception s.progress (timed_out subject) s.future) ∙ h) in
      record {
        not_waiting = refl;
        no_timer = refl;
        reply_closed = left.reply_closed;
        inbox_closed = left.inbox_closed;
      };
  early = failed_with s (timed_out subject) t;
}
expire-IsTidy subject s false waits t = record {
  timed = sym waits;
  clean = λ h.
      let left = t.clean h in
      record {
        not_waiting = left.not_waiting;
        no_timer = refl;
        reply_closed = left.reply_closed;
        inbox_closed = left.inbox_closed;
      };
  early = t.early;
}

-- the state without its entry and its timer
taken : (s : ServiceCall) → IsTidy s → IsTidy (record s { waiting = false; timer = false })
taken s t = record {
  timed = refl;
  clean = λ h.
      let left = t.clean h in
      record {
        not_waiting = refl;
        no_timer = refl;
        reply_closed = left.reply_closed;
        inbox_closed = left.inbox_closed;
      };
  early = t.early;
}

settle_open-IsTidy :
    (s : ServiceCall) (f : Option Outcome) (r : Result Outcome)
    → is_sent s.progress ≡ true
    → IsTidy s
    → IsTidy (settle_open f r s)
settle_open-IsTidy s none (err e) sent t = t
settle_open-IsTidy s none (ok o) sent t =
    unsubscribed (record s { future = some o }) t.timed (λ before. cc (sent, before))
settle_open-IsTidy s (some done) r sent t = unsubscribed s t.timed t.early

settle_waiting-IsTidy :
    (s : ServiceCall) (r : Result Outcome)
    → is_sent s.progress ≡ true
    → IsTidy s
    → IsTidy (settle_waiting r s)
settle_waiting-IsTidy s r sent t =
    settle_open-IsTidy (record s { waiting = false; timer = false }) s.future r sent (taken s t)

pub respond_waiting-IsTidy :
    (s : ServiceCall) (waits : Bool) (fs : Option Fields)
    → is_sent s.progress ≡ true
    → IsTidy s
    → IsTidy (respond_waiting waits fs s)
respond_waiting-IsTidy s true (some fs) sent t =
    settle_waiting-IsTidy s (outcome_in fs (field_of "error" fs)) sent t
respond_waiting-IsTidy s true none sent t = t
respond_waiting-IsTidy s false none sent t = t
respond_waiting-IsTidy s false (some fs) sent t = t

pub inbox-IsTidy : (s : ServiceCall) → IsTidy s → IsTidy (record s { inbox_open = false })
inbox-IsTidy s t = record {
  timed = t.timed;
  clean = λ h.
      let left = t.clean h in
      record {
        not_waiting = left.not_waiting;
        no_timer = left.no_timer;
        reply_closed = left.reply_closed;
        inbox_closed = refl;
      };
  early = t.early;
}
