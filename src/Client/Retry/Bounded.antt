-- ===== src/Client/Retry/Bounded.antt =====
-- How often a call is retried, with which pauses, and how it ends.
use camera_ui_rpc.Base.{
  ℕ, zero, suc, ◌+◌, ◌-◌, ◌≤◌, ◌<◌, ◌≡◌, refl, sym, ap, ◌∙◌, ◌⊎◌, inl, inr, Bool, true, false,
  Option, none, some, List, ◌∷◌, length, length-le_of_none, leb, get_elem?, arith, Bool-cases, ◌||◌,
  min,
}
use camera_ui_rpc.Client.Retry.{
  Ending, returned, no_responders, other_error, Final, delivered, gave_up, passed_on, no_delay,
  exhausted, Retried, delay_of, retry_or_stop, attempted, retry_from, with_no_responder_retry,
  stop_at, slept_first,
}

-- Attempt `k` explains how the call ends.
abbrev pub EndsAt : {A : Type 0} → (ℕ → Ending A) → (ℕ → Bool) → ℕ → List ℕ → Final A → ℕ → Type 0
EndsAt fn closed max_retries delays (delivered x) k = fn k ≡ returned x
EndsAt fn closed max_retries delays (passed_on e) k = fn k ≡ other_error e
EndsAt fn closed max_retries delays gave_up k =
    (fn k ≡ no_responders) × ((k ≡ max_retries) ⊎ (closed k ≡ true))
EndsAt fn closed max_retries delays no_delay k = (fn k ≡ no_responders) × (length delays ≡ 0)
EndsAt fn closed max_retries delays exhausted k = ⊥

-- The call made the attempts from `first` on and ended with attempt `last`.
pub record Explained {A : Type 0} (fn : ℕ → Ending A) (closed : ℕ → Bool) (max_retries : ℕ)
    (delays : List ℕ) (first : ℕ) (r : Retried A) : Type 0 where
  pub last : ℕ
  pub in_order : first ≤ last
  pub bounded : last ≤ max_retries
  pub counted : r.attempts ≡ suc last
  pub unanswered : (i : ℕ) → first ≤ i → i < last → (fn i ≡ no_responders) × (closed i ≡ false)
  pub pauses : length r.slept ≡ last - first
  pub paused : (i : ℕ) → i < last - first → get_elem? r.slept i ≡ delay_of delays (first + i)
  pub ends : EndsAt fn closed max_retries delays r.final last

delay_of-none : (delays : List ℕ) (attempt : ℕ) → delay_of delays attempt ≡ none → length delays ≡ 0
delay_of-none delays attempt h =
    omega (arith, length-le_of_none delays (min attempt (length delays - 1)) h)

le_cases : (m n : ℕ) → m ≤ n → (m ≡ n) ⊎ (m < n)
le_cases m n h = ground arith

module _ {A : Type 0} (fn : ℕ → Ending A) (closed : ℕ → Bool) (max_retries : ℕ)
    (delays : List ℕ) where
  stopped :
      (attempt : ℕ) (final : Final A)
      → attempt ≤ max_retries
      → EndsAt fn closed max_retries delays final attempt
      → Explained fn closed max_retries delays attempt
          (stop_at fn closed max_retries delays attempt final)
  stopped attempt final small ends = record {
    last = attempt;
    in_order = omega arith;
    bounded = small;
    counted = refl;
    unanswered = λ i above below. absurd (omega arith);
    pauses = omega arith;
    paused = λ i below. absurd (omega arith);
    ends = ends;
  }

  retried :
      (attempt delay : ℕ) (later : Retried A)
      → attempt < max_retries
      → fn attempt ≡ no_responders
      → closed attempt ≡ false
      → delay_of delays attempt ≡ some delay
      → Explained fn closed max_retries delays (suc attempt) later
      → Explained fn closed max_retries delays attempt
          (slept_first fn closed max_retries delays delay later)
  retried attempt delay later small failed opened pause x = record {
    last = x.last;
    in_order = omega (arith, x.in_order);
    bounded = x.bounded;
    counted = x.counted;
    unanswered = unanswered_from;
    pauses = omega (arith, x.pauses, x.in_order);
    paused = paused_from;
    ends = x.ends;
  }
    where
      unanswered_from :
          (i : ℕ) → attempt ≤ i → i < x.last → (fn i ≡ no_responders) × (closed i ≡ false)
      unanswered_from i above below = elim (le_cases attempt i above) [
        | inl e ↦ rw (sym e) (failed, opened)
        | inr lt ↦ x.unanswered i lt below
      ]

      paused_from :
          (i : ℕ)
          → i < x.last - attempt
          → get_elem? (delay ∷ later.slept) i ≡ delay_of delays (attempt + i)
      paused_from zero below = sym pause ∙ ap (delay_of delays) (omega arith)
      paused_from (suc i) below = x.paused i (omega arith) ∙ ap (delay_of delays) (omega arith)

  no_responder_lem :
      (attempt : ℕ) (o : Option ℕ) (later : Retried A)
      → attempt ≤ max_retries
      → delay_of delays attempt ≡ o
      → fn attempt ≡ no_responders
      → (attempt < max_retries → Explained fn closed max_retries delays (suc attempt) later)
      → Explained fn closed max_retries delays attempt
          (retry_or_stop fn closed max_retries delays attempt o later)
  no_responder_lem attempt o later small pause failed rest =
      elim (Bool-cases (leb max_retries attempt || closed attempt)) [
        | inl stop ↦ given_up o stop
        | inr go_on ↦ further o pause go_on
      ]
    where
      given_up :
          (o : Option ℕ)
          → (leb max_retries attempt || closed attempt) ≡ true
          → Explained fn closed max_retries delays attempt
              (retry_or_stop fn closed max_retries delays attempt o later)
      given_up none stop = rw stop (stopped attempt gave_up small (failed, ground arith))
      given_up (some d) stop = rw stop (stopped attempt gave_up small (failed, ground arith))

      further :
          (o : Option ℕ)
          → delay_of delays attempt ≡ o
          → (leb max_retries attempt || closed attempt) ≡ false
          → Explained fn closed max_retries delays attempt
              (retry_or_stop fn closed max_retries delays attempt o later)
      further none pause go_on =
          rw go_on (stopped attempt no_delay small (failed, delay_of-none delays attempt pause))
      further (some d) pause go_on =
          let early : attempt < max_retries = ground arith in
          let opened : closed attempt ≡ false = ground arith in
          rw go_on (retried attempt d later early failed opened pause (rest early))

  attempted_lem :
      (attempt : ℕ) (e : Ending A) (later : Retried A)
      → attempt ≤ max_retries
      → fn attempt ≡ e
      → (attempt < max_retries → Explained fn closed max_retries delays (suc attempt) later)
      → Explained fn closed max_retries delays attempt
          (attempted fn closed max_retries delays attempt e later)
  attempted_lem attempt (returned x) later small h rest = stopped attempt (delivered x) small h
  attempted_lem attempt (other_error e) later small h rest = stopped attempt (passed_on e) small h
  attempted_lem attempt no_responders later small h rest =
      no_responder_lem attempt (delay_of delays attempt) later small refl h rest

  retry_from-Explained :
      (n attempt : ℕ)
      → attempt + n ≡ max_retries
      → Explained fn closed max_retries delays attempt
          (retry_from fn closed max_retries delays (suc n) attempt)
  unfolding retry_from
  retry_from-Explained zero attempt h =
      attempted_lem attempt (fn attempt)
        (retry_from fn closed max_retries delays zero (suc attempt)) (omega arith) refl
        (λ lt. absurd (omega arith))
  retry_from-Explained (suc n) attempt h =
      attempted_lem attempt (fn attempt)
        (retry_from fn closed max_retries delays (suc n) (suc attempt)) (omega arith) refl
        (λ lt. retry_from-Explained n (suc attempt) (omega arith))

  -- A call is attempted at most one time more than `max_retries`. Every attempt before the last
  -- one failed for want of a responder while the client was open and was followed by its pause;
  -- the call ends as the last attempt does, and gives up on a missing responder only after the
  -- last retry or when the client is closed. Without any delays the first pause raises.
  pub with_no_responder_retry-Explained :
      Explained fn closed max_retries delays 0
        (with_no_responder_retry fn closed max_retries delays)
  unfolding with_no_responder_retry
  with_no_responder_retry-Explained = retry_from-Explained max_retries 0 (omega arith)
