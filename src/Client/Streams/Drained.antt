-- ===== src/Client/Streams/Drained.antt =====
-- That the consumer of an ended stream returns: RPCClient._call_stream_once.
use camera_ui_rpc.Base.{
  ◌≡◌, refl, sym, inl, inr, Bool, true, false, Option, none, some, List, [], ◌∷◌, ◌++◌,
  if◌then◌else◌, arith, length, ℕ, zero, suc, ◌≤◌, length-append, ap, ◌∙◌,
}
use mathlib.Core.List.{append-nil}
use camera_ui_rpc.Codec.Values.{Value, null}
use camera_ui_rpc.Client.Streams.{StreamError, unsubscribe_all, take_from, take_or_raise, take_next}
use camera_ui_rpc.Client.Streams.Rounds.{
  Ends, Event, round, Consumer, new_consumer, after_round, step, run, streamed, AllPlain, NoneNull,
  Ahead,
}
use camera_ui_rpc.Client.Streams.Events.{round_over}
use camera_ui_rpc.Client.Streams.Consumed.{run-open, new_consumer-Ahead, run-Over, run-closed}

abbrev pub rounds : ℕ → List Event
rounds zero = []
rounds (suc n) = round ∷ rounds n

stays_returned : (n : ℕ) (c : Consumer) → c.returned ≡ true → (run (rounds n) c).returned ≡ true
unfolding run
stays_returned zero c h = h
stays_returned (suc n) c h = rw (run, round_over [] c h) (stays_returned n c h)

round_lem :
    (c : Consumer)
    → c.returned ≡ false
    → c.stream.error ≡ none
    → step round c ≡ after_round c (take_from c.stream.queue c.stream)
unfolding step take_next
round_lem c = by_flag c.returned c.stream.error
  where
    by_flag :
        (b : Bool) (o : Option StreamError)
        → b ≡ false
        → o ≡ none
        → (if b then c else after_round c (take_or_raise o c.stream))
          ≡ after_round c (take_from c.stream.queue c.stream)
    by_flag true o h k = cc h
    by_flag false (some e) h k = cc k
    by_flag false none h k = refl

-- A round for each value that waits before the end marker, and one more, are enough.
drained :
    (n : ℕ) (waiting : List Value) (c : Consumer)
    → length waiting ≤ n
    → NoneNull waiting
    → c.returned ≡ false
    → c.stream.error ≡ none
    → c.stream.queue ≡ waiting ++ null ∷ []
    → (run (rounds (suc n)) c).returned ≡ true
unfolding run
drained n [] c l p r e q =
    rw (run, round_lem c r e, q, e)
      (stays_returned n
        (record c {
          stream = unsubscribe_all (record c.stream { queue = []; error = none });
          returned = true;
        })
        refl)
drained zero (w ∷ waiting) c l p r e q = absurd (omega (arith, l))
drained (suc n) (w ∷ waiting) c l p r e q =
    rw (run, round_lem c r e, q, p.0)
      (drained n waiting
        (record c {
          stream = record c.stream { queue = waiting ++ null ∷ [] };
          got = c.got ++ w ∷ [];
        })
        (omega (arith, l)) p.1 r e refl)

module _ (all : List Value) where
  drain_rest :
      (c : Consumer)
      → Ahead all [] true c
      → let d = run (rounds (suc (length all))) c in (d.returned ≡ true) × (d.got ≡ all)
  drain_rest c a =
      let l =
        ap length (a.split ∙ ap (λ l. c.got ++ l) (append-nil a.waiting))
        ∙ length-append c.got a.waiting in
      let h =
        drained (length all) a.waiting c (omega (arith, l)) a.not_null a.running a.no_error
          a.queued in
      (h, (run-closed all (rounds (suc (length all))) c a).complete h)

-- However the arrivals of a stream and the rounds of its consumer interleave, once the end message
-- has arrived, one more round than values were streamed is enough for the generator to return,
-- and the consumer has then got exactly the streamed values in order, as long as no streamed
-- value is `None` and no error arrives.
pub stream_drained :
    (es : List Event)
    → AllPlain es
    → Ends es
    → let c = run (rounds (suc (length (streamed es)))) (run es new_consumer) in
      (c.returned ≡ true) × (c.got ≡ streamed es)
stream_drained es p n =
    elim (run-open (streamed es) es new_consumer p (new_consumer-Ahead (streamed es))) [
      | inl (no_end, _) ↦ absurd (no_end n)
      | inr (inl ahead) ↦ drain_rest (streamed es) (run es new_consumer) ahead
      | inr (inr over) ↦
          let o =
            run-Over (streamed es) (rounds (suc (length (streamed es)))) (run es new_consumer)
              over in
          (o.over, sym o.complete)
    ]
