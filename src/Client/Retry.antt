-- ===== src/Client/Retry.antt =====
-- `_with_no_responder_retry` of client.py. The attempts are a function from their number to how
-- they end; `closed i` is whether the client is closed when attempt `i` has failed. `max_retries`
-- is not negative here.
pub mod Bounded
use camera_ui_rpc.Base.{
  ℕ, zero, suc, ◌-◌, Bool, ◌||◌, Option, none, some, List, [], ◌∷◌, length, leb, min, get_elem?,
  if◌then◌else◌,
}

-- how an attempt ends
pub data Ending (A : Type 0) : Type 0 where
  returned : A → Ending A
  no_responders : Ending A
  other_error : ℕ → Ending A

-- how the whole call ends; `no_delay` is the exception of reading the empty list of delays
pub data Final (A : Type 0) : Type 0 where
  delivered : A → Final A
  gave_up : Final A
  passed_on : ℕ → Final A
  no_delay exhausted : Final A

-- the end, the number of attempts and the delays slept through
pub record Retried (A : Type 0) : Type 0 where
  pub final : Final A
  pub attempts : ℕ
  pub slept : List ℕ

-- `delays[min(attempt, len(delays) - 1)]`
abbrev pub delay_of : List ℕ → ℕ → Option ℕ
delay_of delays attempt = get_elem? delays (min attempt (length delays - 1))

module _ {A : Type 0} (fn : ℕ → Ending A) (closed : ℕ → Bool) (max_retries : ℕ)
    (delays : List ℕ) where
  abbrev pub stop_at : ℕ → Final A → Retried A
  stop_at attempt final = record { final = final; attempts = suc attempt; slept = [] }

  abbrev pub slept_first : ℕ → Retried A → Retried A
  slept_first delay later = record later { slept = delay ∷ later.slept }

  -- a no-responder failure: give up, or sleep and go on with `later`
  abbrev pub retry_or_stop : ℕ → Option ℕ → Retried A → Retried A
  retry_or_stop attempt none later =
      if leb max_retries attempt || closed attempt
      then stop_at attempt gave_up
      else stop_at attempt no_delay
  retry_or_stop attempt (some delay) later =
      if leb max_retries attempt || closed attempt
      then stop_at attempt gave_up
      else slept_first delay later

  abbrev pub attempted : ℕ → Ending A → Retried A → Retried A
  attempted attempt (returned x) later = stop_at attempt (delivered x)
  attempted attempt (other_error e) later = stop_at attempt (passed_on e)
  attempted attempt no_responders later = retry_or_stop attempt (delay_of delays attempt) later

  -- the rounds `attempt, attempt + 1, …` of the loop, `n` of them
  unfoldable pub retry_from : ℕ → ℕ → Retried A
  retry_from zero attempt = record { final = exhausted; attempts = attempt; slept = [] }
  retry_from (suc n) attempt =
      let later = retry_from n (suc attempt) in attempted attempt (fn attempt) later

  unfoldable pub with_no_responder_retry : Retried A
  unfolding retry_from
  with_no_responder_retry = retry_from (suc max_retries) 0
