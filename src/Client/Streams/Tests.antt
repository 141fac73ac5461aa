-- ===== src/Client/Streams/Tests.antt =====
-- The theorems on a stream's consumer at concrete inputs.
use camera_ui_rpc.Base.{ℕ, zero, suc, ◌≤◌, false, List, [], ◌∷◌, ◌≡◌, refl, true}
use camera_ui_rpc.Client.Retry.{no_responders, returned, delivered, with_no_responder_retry}
use camera_ui_rpc.Client.Streams.Retries.{StreamAttempt, call_stream}
use camera_ui_rpc.Client.Streams.Retries.Restarts.{
  yielded, call_stream_restarts, call_stream_unrepeated,
}
use camera_ui_rpc.Codec.Values.{int, pos}
use camera_ui_rpc.Client.Streams.{data_message, end_message}
use camera_ui_rpc.Client.Streams.Rounds.{Event, arrives, round, new_consumer, run, streamed, Served}
use camera_ui_rpc.Client.Streams.Drained.{rounds, stream_drained}
use camera_ui_rpc.Client.Streams.Consumed.{stream_consumed}

-- the consumer is ahead of the first value and behind the second
abbrev two_values : List Event
two_values =
    round
    ∷ arrives (data_message (int (pos 4)))
    ∷ round
    ∷ arrives (data_message (int (pos 5)))
    ∷ arrives end_message
    ∷ round
    ∷ round
    ∷ []

stream_consumed_example : Served (streamed two_values) (run two_values new_consumer)
stream_consumed_example =
    stream_consumed two_values (tt, (refl, (tt, (refl, (tt, (tt, (tt, tt)))))))

-- everything arrives before the consumer's first round
abbrev two_at_once : List Event
two_at_once =
    arrives (data_message (int (pos 4)))
    ∷ arrives (data_message (int (pos 5)))
    ∷ arrives end_message
    ∷ []

stream_drained_example :
    let c = run (rounds 3) (run two_at_once new_consumer) in
    (c.returned ≡ true) × (c.got ≡ int (pos 4) ∷ int (pos 5) ∷ [])
stream_drained_example = stream_drained two_at_once (refl, (refl, (tt, tt))) tt

-- The first attempt breaks off after `early`, for want of a responder, and the second one yields all.
abbrev twice : List ℕ → ℕ → StreamAttempt ℕ
twice early zero = record { yields = early; ending = no_responders }
twice early (suc i) = record { yields = 4 ∷ 5 ∷ []; ending = returned tt }

-- A stream that is tried again starts anew: the consumer gets the first value twice.
restarted_stream : call_stream (twice (4 ∷ [])) (λ i. false) 3 (10 ∷ 20 ∷ []) ≡ record {
  got = 4 ∷ 4 ∷ 5 ∷ [];
  retried = record { final = delivered tt; attempts = 2; slept = 10 ∷ [] };
}
unfolding call_stream
restarted_stream = refl

call_stream_restarts_example :
    let c = call_stream (twice (4 ∷ [])) (λ i. false) 3 (10 ∷ 20 ∷ []) in
    (c.retried
      ≡ with_no_responder_retry (λ i. (twice (4 ∷ []) i).ending) (λ i. false) 3 (10 ∷ 20 ∷ []))
    × (c.got ≡ yielded (twice (4 ∷ [])) c.retried.attempts 0)
call_stream_restarts_example = call_stream_restarts (twice (4 ∷ [])) (λ i. false) 3 (10 ∷ 20 ∷ [])

twice_silent : (i : ℕ) → (twice [] i).ending ≡ no_responders → (twice [] i).yields ≡ []
twice_silent zero h = refl
twice_silent (suc i) h = cc

call_stream_unrepeated_example :
    let c = call_stream (twice []) (λ i. false) 3 (10 ∷ 20 ∷ []) in
    (last : ℕ) × (last ≤ 3) × (c.retried.attempts ≡ suc last) × (c.got ≡ (twice [] last).yields)
call_stream_unrepeated_example =
    call_stream_unrepeated (twice []) (λ i. false) 3 (10 ∷ 20 ∷ []) twice_silent
