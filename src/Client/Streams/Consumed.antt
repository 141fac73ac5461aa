-- ===== src/Client/Streams/Consumed.antt =====
-- What the consumer of a stream gets, however arrivals and rounds interleave.
use camera_ui_rpc.Base.{◌⊎◌, ◌≡◌, refl, sym, inl, inr, true, false, List, [], ◌∷◌, ◌++◌}
use camera_ui_rpc.Codec.Values.{Value, null}
use camera_ui_rpc.Client.Streams.{
  data_message, end_message, error_message, other_message, on_push, unsubscribe_all,
  handle_stream_message, take_next,
}
use camera_ui_rpc.Client.Streams.Rounds.{
  Ends, Event, arrives, round, Consumer, new_consumer, step, run, streamed, AllPlain, Ahead, Over,
  Served, Ahead-Served, Over-Served,
}
use camera_ui_rpc.Client.Streams.Events.{
  open_round, closed_round, unregistered, registered_lem, push_lem, end_lem, pushed, ended_now,
  round_over,
}

module _ (all : List Value) where
  pub run-Over : (es : List Event) (c : Consumer) → Over all c → Over all (run es c)
  unfolding run
  run-Over [] c o = o
  run-Over (arrives m ∷ es) c o =
      unfold step in rw (unregistered all m c.stream o.dropped) (run-Over es c o)
  run-Over (round ∷ es) c o = rw (round_over all c o.over) (run-Over es c o)

  after_end :
      (es : List Event) (c : Consumer)
      → Ahead all [] true c
      → Ahead all [] true (run es c) ⊎ Over all (run es c)
  unfolding run
  after_end [] c a = inl a
  after_end (arrives m ∷ es) c a =
      unfold step in rw (unregistered all m c.stream a.open_registered) (after_end es c a)
  after_end (round ∷ es) c a = elim (closed_round all [] c refl a) [
    | inl ahead ↦ after_end es (step round c) ahead
    | inr over ↦ inr (run-Over es (step round c) over)
  ]

  -- what the events leave: an open stream, an ended one with values in its queue, or a consumer
  -- whose generator has returned
  pub run-open :
      (es : List Event) (c : Consumer)
      → AllPlain es
      → Ahead all (streamed es) false c
      → ((Ends es → ⊥) × Ahead all [] false (run es c))
        ⊎ Ahead all [] true (run es c)
        ⊎ Over all (run es c)
  unfolding run
  run-open [] c p a = inl ((λ n. n), a)
  run-open (round ∷ es) c p a = run-open es (step round c) p.1 (open_round all (streamed es) c a)
  run-open (arrives (data_message value) ∷ es) c p a =
      unfold step in
      rw
        (
          registered_lem all (data_message value) c.stream a.open_registered,
          push_lem all value c.stream a.closing,
        )
        (run-open es
          (record c { stream = record c.stream { queue = c.stream.queue ++ value ∷ [] } }) p.1
          (pushed all value (streamed es) c p.0 a))
  run-open (arrives end_message ∷ es) c p a =
      unfold step in
      rw (registered_lem all end_message c.stream a.open_registered, end_lem all c.stream)
        (inr (
          after_end es
            (record c {
              stream = record c.stream {
                ended = true;
                queue = c.stream.queue ++ null ∷ [];
                registered = false;
              };
            })
            (ended_now all c a)))
  run-open (arrives other_message ∷ es) c p a =
      unfold step in
      rw (registered_lem all other_message c.stream a.open_registered) (run-open es c p.1 a)
  run-open (arrives (error_message e) ∷ es) c p a = absurd p.0

  closed-Served : (c : Consumer) → Ahead all [] true c ⊎ Over all c → Served all c
  closed-Served c (inl a) = Ahead-Served all [] true c a
  closed-Served c (inr o) = Over-Served all c o

  pub run-closed : (es : List Event) (c : Consumer) → Ahead all [] true c → Served all (run es c)
  run-closed es c a = closed-Served (run es c) (after_end es c a)

pub new_consumer-Ahead : (all : List Value) → Ahead all all false new_consumer
new_consumer-Ahead all = record {
  waiting = [];
  not_null = tt;
  split = refl;
  queued = refl;
  closing = refl;
  open_registered = refl;
  no_error = refl;
  running = refl;
}

-- However the arrivals of a stream and the rounds of its consumer interleave, the consumer gets
-- the streamed values in order, and all of them once its generator has returned, as long as no
-- streamed value is `None` and no error arrives.
pub stream_consumed : (es : List Event) → AllPlain es → Served (streamed es) (run es new_consumer)
stream_consumed es p =
    elim (run-open (streamed es) es new_consumer p (new_consumer-Ahead (streamed es))) [
      | inl (_, a) ↦ Ahead-Served (streamed es) [] false (run es new_consumer) a
      | inr closed ↦ closed-Served (streamed es) (run es new_consumer) closed
    ]

after_none : Over [] (run (arrives (data_message null) ∷ round ∷ []) new_consumer)
unfolding run step handle_stream_message on_push take_next unsubscribe_all
after_none = record { complete = refl; over = refl; dropped = refl }

-- A streamed `None` is taken for the end of the stream: the generator of a consumer that gets it
-- first returns, and whatever arrives afterwards, the consumer gets no value.
pub none_ends_stream :
    (es : List Event)
    → let c = run es (run (arrives (data_message null) ∷ round ∷ []) new_consumer) in
      (c.returned ≡ true) × (c.got ≡ [])
none_ends_stream es =
    let o =
      run-Over [] es (run (arrives (data_message null) ∷ round ∷ []) new_consumer) after_none in
    (o.over, sym o.complete)
