-- ===== src/Client/PullConsumer/Joined/Delivered.antt =====
-- What the consumer of a pull iterator gets from the session at the other end.
use camera_ui_rpc.Base.{
  ℕ, zero, suc, ◌≤◌, ◌≡◌, refl, true, false, List, [], ◌∷◌, ◌++◌, length, take as prefix, arith,
}
use mathlib.Core.List.{append_assoc, append-nil}
use camera_ui_rpc.Codec.Values.{Value}
use camera_ui_rpc.Handler.Generators.{
  Raised, rpc_exception, other_exception, Produced, yielded, raised, Generator, Closing, closes,
  no_aclose, close_raises,
}
use camera_ui_rpc.Handler.Streams.Delivery.{values_of}
use camera_ui_rpc.Handler.Pull.{start_session}
use camera_ui_rpc.Client.Handlers.RoundTrip.{seen}
use camera_ui_rpc.Client.PullConsumer.{Ending, finished, left, failed, over, new_consumer}
use camera_ui_rpc.Client.PullConsumer.Joined.{Joined, start, round, rounds, break_off}

-- between two rounds, with what the consumer has got and what the generator still produces
between : Closing → List Value → List Produced → ℕ → Joined
between closing got produced n = record {
  consumer = record new_consumer { got = got };
  session = record {
    active = true;
    finished = false;
    produced = produced;
    closing = closing;
    publishings = n;
    sent = [];
    finished_calls = 0;
    unsubscribes = 0;
  };
}

-- how the iteration ends for the consumer
abbrev pub ending_of : List Produced → Ending
ending_of [] = finished
ending_of (raised e ∷ produced) = failed (seen e)
ending_of (yielded value ∷ produced) = ending_of produced

-- The consumer is through with this ending, is registered nowhere, and the session is finished and
-- its owner was told once.
pub record IsOver (ending : Ending) (got : List Value) (j : Joined) : Type 0 where
  pub has_got : j.consumer.got ≡ got
  pub ended : j.consumer.phase ≡ over ending
  pub unsubscribed : j.consumer.subscribed ≡ false
  pub unsettled : j.consumer.settling ≡ false
  pub unhandled : j.consumer.status_handling ≡ false
  pub inactive : j.session.active ≡ false
  pub closed : j.session.finished ≡ true
  pub owner_told : j.session.finished_calls ≡ 1

value_round :
    (closing : Closing) (got : List Value) (v : Value) (produced : List Produced) (n : ℕ)
    → round (between closing got (yielded v ∷ produced) n)
      ≡ between closing (got ++ v ∷ []) produced (suc n)
unfolding round between
value_round closing got v produced n = refl

last_round :
    (closing : Closing) (got : List Value) (n : ℕ)
    → IsOver finished got (round (between closing got [] n))
unfolding round between
last_round closing got n = record {
  has_got = refl;
  ended = refl;
  unsubscribed = refl;
  unsettled = refl;
  unhandled = refl;
  inactive = refl;
  closed = refl;
  owner_told = refl;
}

error_round :
    (closing : Closing) (got : List Value) (e : Raised) (produced : List Produced) (n : ℕ)
    → IsOver (failed (seen e)) got (round (between closing got (raised e ∷ produced) n))
unfolding round between
error_round closing got (rpc_exception e) produced n = record {
  has_got = refl;
  ended = refl;
  unsubscribed = refl;
  unsettled = refl;
  unhandled = refl;
  inactive = refl;
  closed = refl;
  owner_told = refl;
}
error_round closing got (other_exception text) produced n = record {
  has_got = refl;
  ended = refl;
  unsubscribed = refl;
  unsettled = refl;
  unhandled = refl;
  inactive = refl;
  closed = refl;
  owner_told = refl;
}

delivered_from :
    (closing : Closing) (produced : List Produced) (got : List Value) (n : ℕ)
    → IsOver
        (ending_of produced)
        (got ++ values_of produced)
        (rounds (suc (length (values_of produced))) (between closing got produced n))
unfolding rounds
delivered_from closing [] got n = rw (append-nil got) (last_round closing got n)
delivered_from closing (raised e ∷ produced) got n =
    rw (append-nil got) (error_round closing got e produced n)
delivered_from closing (yielded v ∷ produced) got n =
    rw
      (
        rounds,
        value_round closing got v produced n,
        ← append_assoc got (v ∷ []) (values_of produced),
      )
      (delivered_from closing produced (got ++ v ∷ []) (suc n))

-- A consumer of a pull iterator, joined with the session at the other end by a connection that
-- delivers everything in order, needs one round more than the generator has values: it has then
-- got exactly these values in order, and its iteration has ended as the generator did, normally or
-- with the generator's exception; it is registered nowhere any more, and the session is finished
-- and has told its owner once.
pub pull_delivered :
    (g : Generator)
    → IsOver
        (ending_of g.produced)
        (values_of g.produced)
        (rounds (suc (length (values_of g.produced))) (start g))
pull_delivered g = unfold between start_session in delivered_from g.closing g.produced [] 0

left_now :
    (closing : Closing) (got : List Value) (produced : List Produced) (n : ℕ)
    → IsOver left got (break_off (between closing got produced n))
unfolding break_off between
left_now closes got produced n = record {
  has_got = refl;
  ended = refl;
  unsubscribed = refl;
  unsettled = refl;
  unhandled = refl;
  inactive = refl;
  closed = refl;
  owner_told = refl;
}
left_now no_aclose got produced n = record {
  has_got = refl;
  ended = refl;
  unsubscribed = refl;
  unsettled = refl;
  unhandled = refl;
  inactive = refl;
  closed = refl;
  owner_told = refl;
}
left_now (close_raises e) got produced n = record {
  has_got = refl;
  ended = refl;
  unsubscribed = refl;
  unsettled = refl;
  unhandled = refl;
  inactive = refl;
  closed = refl;
  owner_told = refl;
}

left_from :
    (closing : Closing) (k : ℕ) (produced : List Produced) (got : List Value) (n : ℕ)
    → k ≤ length (values_of produced)
    → IsOver left
        (got ++ prefix k (values_of produced))
        (break_off (rounds k (between closing got produced n)))
unfolding rounds
left_from closing zero produced got n h = rw (append-nil got) (left_now closing got produced n)
left_from closing (suc k) [] got n h = absurd (omega arith)
left_from closing (suc k) (raised e ∷ produced) got n h = absurd (omega arith)
left_from closing (suc k) (yielded v ∷ produced) got n h =
    rw
      (
        rounds,
        value_round closing got v produced n,
        ← append_assoc got (v ∷ []) (prefix k (values_of produced)),
      )
      (left_from closing k produced (got ++ v ∷ []) (suc n) (omega (arith, h)))

-- If the consumer leaves its loop after `k` values, no more than the generator has, it has got
-- the first `k` values, it is registered nowhere any more, and its cancel request has ended the
-- session, which is finished and has told its owner once, whatever closing the generator does.
pub pull_left :
    (g : Generator) (k : ℕ)
    → k ≤ length (values_of g.produced)
    → IsOver left (prefix k (values_of g.produced)) (break_off (rounds k (start g)))
pull_left g k h = unfold between start_session in left_from g.closing k g.produced [] 0 h
