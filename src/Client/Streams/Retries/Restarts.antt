-- ===== src/Client/Streams/Retries/Restarts.antt =====
-- What the consumer of call_stream gets when the stream is tried again: client.py.
use mathlib.Core.List.{append-nil}
use camera_ui_rpc.Base.{
  ℕ, zero, suc, ◌+◌, ◌≤◌, ◌<◌, ◌≡◌, refl, sym, ap, ◌∙◌, Bool, ◌||◌, Option, none, some, List, [],
  ◌++◌, leb, arith, Bool-cases, inl, inr,
}
use camera_ui_rpc.Client.Retry.{
  Ending, returned, no_responders, other_error, Final, delivered, gave_up, passed_on, no_delay,
  Retried, slept_first, delay_of, retry_from, with_no_responder_retry, retry_or_stop, attempted,
}
use camera_ui_rpc.Client.Retry.Bounded.{with_no_responder_retry-Explained}
use camera_ui_rpc.Client.Streams.Retries.{
  StreamAttempt, StreamCall, ends_stream, sleeps_then, stream_retries, stream_attempted,
  stream_rounds, call_stream,
}

-- what `k` attempts from `first` on yield
abbrev pub yielded : {A : Type 0} → (ℕ → StreamAttempt A) → ℕ → ℕ → List A
yielded once zero first = []
yielded once (suc k) first = (once first).yields ++ yielded once k (suc first)

-- attempts that yield nothing before the last one
yielded-last :
    {A : Type 0} (once : ℕ → StreamAttempt A) (k first : ℕ)
    → ((i : ℕ) → first ≤ i → i < first + k → (once i).yields ≡ [])
    → yielded once (suc k) first ≡ (once (first + k)).yields
yielded-last once zero first silent =
    append-nil (once first).yields ∙ ap (λ i. (once i).yields) {x = first} (omega arith)
yielded-last once (suc k) first silent = rw (silent first (omega arith) (omega arith)) (
    yielded-last once k (suc first) (λ i above below. silent i (omega arith) (omega arith))
    ∙ ap (λ i. (once i).yields) {x = suc first + k} (omega arith))

module _ {A : Type 0} (once : ℕ → StreamAttempt A) (closed : ℕ → Bool) (max_retries : ℕ)
    (delays : List ℕ) where
  abbrev endings : ℕ → Ending Unit
  endings i = (once i).ending

  -- the loops agree from attempt `first` on, and the consumer has what the attempts yielded
  record Agrees (first : ℕ) (c : StreamCall A) (r : Retried Unit) : Type 0 where
    same : c.retried ≡ r
    tried : ℕ
    counted : c.retried.attempts ≡ first + tried
    got : c.got ≡ yielded once tried first

  ended-Agrees :
      (first : ℕ) (final : Final Unit)
      → Agrees first
          (ends_stream once closed max_retries delays first final)
          (record { final = final; attempts = suc first; slept = [] })
  ended-Agrees first final = record {
    same = refl;
    tried = 1;
    counted = omega arith;
    got = sym (append-nil (once first).yields);
  }

  slept-Agrees :
      (first delay : ℕ) (c : StreamCall A) (r : Retried Unit)
      → Agrees (suc first) c r
      → Agrees first
          (sleeps_then once closed max_retries delays first delay c)
          (slept_first endings closed max_retries delays delay r)
  slept-Agrees first delay c r a = record {
    same = ap (slept_first endings closed max_retries delays delay) a.same;
    tried = suc a.tried;
    counted = omega (arith, a.counted);
    got = ap (◌++◌ (once first).yields) a.got;
  }

  retried-Agrees :
      (first : ℕ) (o : Option ℕ) (c : StreamCall A) (r : Retried Unit)
      → Agrees (suc first) c r
      → Agrees first
          (stream_retries once closed max_retries delays first o c)
          (retry_or_stop endings closed max_retries delays first o r)
  retried-Agrees first none c r a = elim (Bool-cases (leb max_retries first || closed first)) [
    | inl stop ↦ rw stop (ended-Agrees first gave_up)
    | inr go_on ↦ rw go_on (ended-Agrees first no_delay)
  ]
  retried-Agrees first (some delay) c r a =
      elim (Bool-cases (leb max_retries first || closed first)) [
        | inl stop ↦ rw stop (ended-Agrees first gave_up)
        | inr go_on ↦ rw go_on (slept-Agrees first delay c r a)
      ]

  attempted-Agrees :
      (first : ℕ) (e : Ending Unit) (c : StreamCall A) (r : Retried Unit)
      → Agrees (suc first) c r
      → Agrees first
          (stream_attempted once closed max_retries delays first e c)
          (attempted endings closed max_retries delays first e r)
  attempted-Agrees first (returned done) c r a = ended-Agrees first (delivered done)
  attempted-Agrees first (other_error e) c r a = ended-Agrees first (passed_on e)
  attempted-Agrees first no_responders c r a = retried-Agrees first (delay_of delays first) c r a

  stream_rounds-Agrees :
      (n first : ℕ)
      → Agrees first
          (stream_rounds once closed max_retries delays n first)
          (retry_from endings closed max_retries delays n first)
  unfolding stream_rounds retry_from
  stream_rounds-Agrees zero first = record {
    same = refl;
    tried = 0;
    counted = omega arith;
    got = refl;
  }
  stream_rounds-Agrees (suc n) first =
      attempted-Agrees first (once first).ending _ _ (stream_rounds-Agrees n (suc first))

  -- The loop of call_stream does what the retry loop of the other calls does with attempts that end
  -- in the same ways: it makes as many attempts, sleeps as long and ends alike. The consumer gets
  -- what all of its attempts yield, one after the other.
  pub call_stream_restarts :
      let c = call_stream once closed max_retries delays in
      (c.retried ≡ with_no_responder_retry (λ i. (once i).ending) closed max_retries delays)
      × (c.got ≡ yielded once c.retried.attempts 0)
  unfolding call_stream with_no_responder_retry
  call_stream_restarts =
      let a = stream_rounds-Agrees (suc max_retries) 0 in
      (a.same, a.got ∙ ap (λ k. yielded once k 0) (omega (arith, a.counted)))

-- If the attempts that fail for want of a responder yield nothing, then the consumer of
-- call_stream gets what one attempt yields, and that once: the last of at most one more than
-- max_retries.
pub call_stream_unrepeated :
    {A : Type 0} (once : ℕ → StreamAttempt A) (closed : ℕ → Bool) (max_retries : ℕ)
    (delays : List ℕ)
    → ((i : ℕ) → (once i).ending ≡ no_responders → (once i).yields ≡ [])
    → let c = call_stream once closed max_retries delays in
      (last : ℕ) × (last ≤ max_retries)
      × (c.retried.attempts ≡ suc last)
      × (c.got ≡ (once last).yields)
call_stream_unrepeated once closed max_retries delays silent =
    let (same, got) = call_stream_restarts once closed max_retries delays in
    let x = with_no_responder_retry-Explained (λ i. (once i).ending) closed max_retries delays in
    let made = ap (λ r. r.attempts) same ∙ x.counted in
    (
      x.last,
      x.bounded,
      made,
      got
          ∙ ap (λ k. yielded once k 0) made
          ∙ yielded-last once x.last 0
              (λ i above below. silent i (x.unanswered i above (omega arith)).0)
          ∙ ap (λ i. (once i).yields) {x = 0 + x.last} (omega arith),
    )
