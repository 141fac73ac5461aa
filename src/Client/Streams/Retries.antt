-- ===== src/Client/Streams/Retries.antt =====
-- `call_stream` of client.py: the loop around the attempts of _call_stream_once. An attempt is what
-- it yields before it ends, and how it ends; an ending and the end of the whole call are those of
-- Client/Retry, where `exhausted` is to fall out of the loop. The consumer takes all that is yielded.
pub mod Restarts
use camera_ui_rpc.Base.{
  ℕ, zero, suc, ◌+◌, ◌≤◌, ◌<◌, ◌≡◌, refl, sym, ap, ◌∙◌, Bool, true, false, ◌||◌, Option, none, some,
  List, [], ◌∷◌, ◌++◌, leb, arith, concat, if◌then◌else◌,
}
use camera_ui_rpc.Client.Retry.{
  Ending, returned, no_responders, other_error, Final, delivered, gave_up, passed_on, no_delay,
  exhausted, Retried, delay_of, retry_from, with_no_responder_retry, retry_or_stop,
}

pub record StreamAttempt (A : Type 0) : Type 0 where
  pub yields : List A
  pub ending : Ending Unit

-- what the consumer has got, and how the call went
pub record StreamCall (A : Type 0) : Type 0 where
  pub got : List A
  pub retried : Retried Unit

module _ {A : Type 0} (once : ℕ → StreamAttempt A) (closed : ℕ → Bool) (max_retries : ℕ)
    (delays : List ℕ) where
  abbrev pub ends_stream : ℕ → Final Unit → StreamCall A
  ends_stream attempt final = record {
    got = (once attempt).yields;
    retried = record { final = final; attempts = suc attempt; slept = [] };
  }

  abbrev pub sleeps_then : ℕ → ℕ → StreamCall A → StreamCall A
  sleeps_then attempt delay later = record {
    got = (once attempt).yields ++ later.got;
    retried = record later.retried { slept = delay ∷ later.retried.slept };
  }

  -- the except branch for a no-responder failure
  abbrev pub stream_retries : ℕ → Option ℕ → StreamCall A → StreamCall A
  stream_retries attempt none later =
      if leb max_retries attempt || closed attempt
      then ends_stream attempt gave_up
      else ends_stream attempt no_delay
  stream_retries attempt (some delay) later =
      if leb max_retries attempt || closed attempt
      then ends_stream attempt gave_up
      else sleeps_then attempt delay later

  abbrev pub stream_attempted : ℕ → Ending Unit → StreamCall A → StreamCall A
  stream_attempted attempt (returned done) later = ends_stream attempt (delivered done)
  stream_attempted attempt (other_error e) later = ends_stream attempt (passed_on e)
  stream_attempted attempt no_responders later =
      stream_retries attempt (delay_of delays attempt) later

  -- the rounds `attempt, attempt + 1, …` of the loop, `n` of them
  unfoldable pub stream_rounds : ℕ → ℕ → StreamCall A
  stream_rounds zero attempt = record {
    got = [];
    retried = record { final = exhausted; attempts = attempt; slept = [] };
  }
  stream_rounds (suc n) attempt =
      let later = stream_rounds n (suc attempt) in
      stream_attempted attempt (once attempt).ending later

  unfoldable pub call_stream : StreamCall A
  unfolding stream_rounds
  call_stream = stream_rounds (suc max_retries) 0
