-- ===== src/Client/Streams/Events.antt =====
-- What one event does to a stream's consumer.
use camera_ui_rpc.Base.{
  ◌≡◌, refl, sym, ap, ◌∙◌, ◌⊎◌, inl, inr, Bool, true, false, Option, none, some, List, [], ◌∷◌,
  ◌++◌, if◌then◌else◌,
}
use mathlib.Core.List.{append_assoc, append-nil}
use camera_ui_rpc.Codec.Values.{Value, null}
use camera_ui_rpc.Client.Streams.{
  StreamError, StreamMessage, Stream, on_push, on_end, unsubscribe_all, dispatch,
  handle_stream_message, is_null, take_end, take_from, take_or_raise, take_next,
}
use camera_ui_rpc.Client.Streams.Rounds.{
  round, Consumer, after_round, step, NoneNull, Ahead, Over, NoneNull-append,
}

unsubscribed : (s : Stream) → s.ended ≡ true → (unsubscribe_all s).registered ≡ false
unfolding unsubscribe_all
unsubscribed s h = rw h refl

module _ (all coming : List Value) (c : Consumer) where
  -- a round that takes a value
  yielded_one :
      (closed : Bool) (value : Value) (waiting : List Value)
      → NoneNull waiting
      → all ≡ c.got ++ (value ∷ waiting ++ coming)
      → Ahead all coming closed c
      → Ahead all coming closed (record c {
        stream = record c.stream { queue = waiting ++ (if closed then null ∷ [] else []) };
        got = c.got ++ value ∷ [];
      })
  yielded_one closed value waiting not_null split a = record {
    waiting = waiting;
    not_null = not_null;
    split = split ∙ sym (append_assoc c.got (value ∷ []) (waiting ++ coming));
    queued = refl;
    closing = a.closing;
    open_registered = a.open_registered;
    no_error = a.no_error;
    running = a.running;
  }

  pub take_open :
      (waiting queue : List Value)
      → NoneNull waiting
      → all ≡ c.got ++ (waiting ++ coming)
      → queue ≡ waiting ++ []
      → Ahead all coming false c
      → Ahead all coming false (after_round c (take_from queue c.stream))
  take_open [] [] not_null split e a = a
  take_open [] (value ∷ queue) not_null split e a = cc e
  take_open (w ∷ waiting) queue not_null split e a =
      rw (e, not_null.0) (yielded_one false w waiting not_null.1 split a)

  pub take_closed :
      (waiting queue : List Value)
      → NoneNull waiting
      → all ≡ c.got ++ (waiting ++ coming)
      → queue ≡ waiting ++ null ∷ []
      → coming ≡ []
      → Ahead all coming true c
      → Ahead all coming true (after_round c (take_from queue c.stream))
        ⊎ Over all (after_round c (take_from queue c.stream))
  take_closed [] queue not_null split e none_coming a = rw e (ending c.stream.error a.no_error)
    where
      ending :
          (o : Option StreamError)
          → o ≡ none
          → Ahead all coming true (after_round c (take_end o (record c.stream { queue = [] })))
            ⊎ Over all (after_round c (take_end o (record c.stream { queue = [] })))
      ending none h = inr (record {
        complete = split ∙ ap (λ l. c.got ++ l) none_coming ∙ append-nil c.got;
        over = refl;
        dropped = unsubscribed (record c.stream { queue = [] }) a.closing;
      })
      ending (some x) h = cc h
  take_closed (w ∷ waiting) queue not_null split e none_coming a =
      rw (e, not_null.0) (inl (yielded_one true w waiting not_null.1 split a))

module _ (all : List Value) where
  pub open_round :
      (coming : List Value) (c : Consumer)
      → Ahead all coming false c
      → Ahead all coming false (step round c)
  unfolding step take_next
  open_round coming c a = by_flag c.returned c.stream.error a.running a.no_error
    where
      by_flag :
          (b : Bool) (o : Option StreamError)
          → b ≡ false
          → o ≡ none
          → Ahead all coming false (if b then c else after_round c (take_or_raise o c.stream))
      by_flag true o h k = cc h
      by_flag false (some e) h k = cc k
      by_flag false none h k =
          take_open all coming c a.waiting c.stream.queue a.not_null a.split a.queued a

  pub closed_round :
      (coming : List Value) (c : Consumer)
      → coming ≡ []
      → Ahead all coming true c
      → Ahead all coming true (step round c) ⊎ Over all (step round c)
  unfolding step take_next
  closed_round coming c none_coming a = by_flag c.returned c.stream.error a.running a.no_error
    where
      by_flag :
          (b : Bool) (o : Option StreamError)
          → b ≡ false
          → o ≡ none
          → Ahead all coming true (if b then c else after_round c (take_or_raise o c.stream))
            ⊎ Over all (if b then c else after_round c (take_or_raise o c.stream))
      by_flag true o h k = cc h
      by_flag false (some e) h k = cc k
      by_flag false none h k =
          take_closed all coming c a.waiting c.stream.queue a.not_null a.split a.queued none_coming
            a

  -- Nothing arrives at a request that is not registered any more.
  pub unregistered :
      (m : StreamMessage) (s : Stream) → s.registered ≡ false → handle_stream_message m s ≡ s
  unfolding handle_stream_message
  unregistered m s h = by_flag s.registered h
    where
      by_flag : (b : Bool) → b ≡ false → (if b then dispatch m s else s) ≡ s
      by_flag true k = cc k
      by_flag false k = refl

  pub registered_lem :
      (m : StreamMessage) (s : Stream)
      → s.registered ≡ true
      → handle_stream_message m s ≡ dispatch m s
  unfolding handle_stream_message
  registered_lem m s h = by_flag s.registered h
    where
      by_flag : (b : Bool) → b ≡ true → (if b then dispatch m s else s) ≡ dispatch m s
      by_flag true k = refl
      by_flag false k = cc k

  pub push_lem :
      (value : Value) (s : Stream)
      → s.ended ≡ false
      → on_push value s ≡ record s { queue = s.queue ++ value ∷ [] }
  unfolding on_push
  push_lem value s h = by_flag s.ended h
    where
      by_flag :
          (b : Bool)
          → b ≡ false
          → (if b then s else record s { queue = s.queue ++ value ∷ [] })
            ≡ record s { queue = s.queue ++ value ∷ [] }
      by_flag true k = cc k
      by_flag false k = refl

  pub end_lem :
      (s : Stream)
      → unsubscribe_all (on_end s)
        ≡ record s { ended = true; queue = s.queue ++ null ∷ []; registered = false }
  unfolding unsubscribe_all on_end
  end_lem s = refl

  pub pushed :
      (value : Value) (coming : List Value) (c : Consumer)
      → is_null value ≡ false
      → Ahead all (value ∷ coming) false c
      → Ahead all coming false
          (record c { stream = record c.stream { queue = c.stream.queue ++ value ∷ [] } })
  pushed value coming c not_null a = record {
    waiting = a.waiting ++ value ∷ [];
    not_null = NoneNull-append a.waiting value a.not_null not_null;
    split = a.split ∙ ap (λ l. c.got ++ l) (sym (append_assoc a.waiting (value ∷ []) coming));
    queued =
        ap (λ q. q ++ value ∷ []) (a.queued ∙ append-nil a.waiting)
        ∙ sym (append-nil (a.waiting ++ value ∷ []));
    closing = a.closing;
    open_registered = a.open_registered;
    no_error = a.no_error;
    running = a.running;
  }

  pub ended_now :
      (c : Consumer)
      → Ahead all [] false c
      → Ahead all [] true (record c {
        stream = record c.stream {
          ended = true;
          queue = c.stream.queue ++ null ∷ [];
          registered = false;
        };
      })
  ended_now c a = record {
    waiting = a.waiting;
    not_null = a.not_null;
    split = a.split;
    queued = ap (λ q. q ++ null ∷ []) (a.queued ∙ append-nil a.waiting);
    closing = refl;
    open_registered = refl;
    no_error = a.no_error;
    running = a.running;
  }

  pub round_over : (c : Consumer) → c.returned ≡ true → step round c ≡ c
  unfolding step
  round_over c h = by_flag c.returned h
    where
      by_flag : (b : Bool) → b ≡ true → (if b then c else after_round c (take_next c.stream)) ≡ c
      by_flag true k = refl
      by_flag false k = cc k
