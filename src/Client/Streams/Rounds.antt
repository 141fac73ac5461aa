-- ===== src/Client/Streams/Rounds.antt =====
-- The events of a stream's consumer, and what holds of it between them.
use camera_ui_rpc.Base.{
  ◌≡◌, sym, ◌∙◌, Bool, true, false, none, List, [], ◌∷◌, ◌++◌, if◌then◌else◌, arith,
}
use mathlib.Core.List.{append-nil}
use camera_ui_rpc.Codec.Values.{Value, null}
use camera_ui_rpc.Client.Streams.{
  StreamMessage, data_message, end_message, error_message, other_message, Stream, new_stream,
  handle_stream_message, Taken, waits, returns, yields, raises, is_null, take_next,
}

pub data Event : Type 0 where
  arrives : StreamMessage → Event
  round : Event

-- the stream, what the consumer got, and whether the generator has returned
pub record Consumer : Type 0 where
  pub stream : Stream
  pub got : List Value
  pub returned : Bool

abbrev pub new_consumer : Consumer
new_consumer = record { stream = new_stream; got = []; returned = false }

abbrev pub after_round : Consumer → Taken × Stream → Consumer
after_round c (waits, s) = record c { stream = s }
after_round c (yields value, s) = record c { stream = s; got = c.got ++ value ∷ [] }
after_round c (returns, s) = record c { stream = s; returned = true }
after_round c (raises e, s) = record c { stream = s; returned = true }

unfoldable pub step : Event → Consumer → Consumer
unfolding handle_stream_message take_next
step (arrives message) c = record c { stream = handle_stream_message message c.stream }
step round c = if c.returned then c else after_round c (take_next c.stream)

unfoldable pub run : List Event → Consumer → Consumer
unfolding step
run [] c = c
run (e ∷ es) c = run es (step e c)

-- the values that arrive before the end of the stream
abbrev pub streamed : List Event → List Value
streamed [] = []
streamed (round ∷ es) = streamed es
streamed (arrives (data_message value) ∷ es) = value ∷ streamed es
streamed (arrives end_message ∷ es) = []
streamed (arrives (error_message e) ∷ es) = streamed es
streamed (arrives other_message ∷ es) = streamed es

-- An end message is among the events.
abbrev pub Ends : List Event → Type 0
Ends [] = ⊥
Ends (arrives end_message ∷ es) = Unit
Ends (arrives (data_message value) ∷ es) = Ends es
Ends (arrives (error_message e) ∷ es) = Ends es
Ends (arrives other_message ∷ es) = Ends es
Ends (round ∷ es) = Ends es

-- No message is an error, and no streamed value is `None`.
abbrev pub Plain : Event → Type 0
Plain (arrives (data_message value)) = is_null value ≡ false
Plain (arrives (error_message e)) = ⊥
Plain (arrives end_message) = Unit
Plain (arrives other_message) = Unit
Plain round = Unit

abbrev pub AllPlain : List Event → Type 0
AllPlain [] = Unit
AllPlain (e ∷ es) = Plain e × AllPlain es

abbrev pub NoneNull : List Value → Type 0
NoneNull [] = Unit
NoneNull (value ∷ values) = (is_null value ≡ false) × NoneNull values

-- The consumer will have got `all` when it returns: `waiting` is still in the queue, and `coming`
-- has not arrived. `closed` is whether the end has arrived.
pub record Ahead (all coming : List Value) (closed : Bool) (c : Consumer) : Type 0 where
  pub waiting : List Value
  pub not_null : NoneNull waiting
  pub split : all ≡ c.got ++ (waiting ++ coming)
  pub queued : c.stream.queue ≡ waiting ++ (if closed then null ∷ [] else [])
  pub closing : c.stream.ended ≡ closed
  pub open_registered : c.stream.registered ≡ (if closed then false else true)
  pub no_error : c.stream.error ≡ none
  pub running : c.returned ≡ false

-- The generator has returned.
pub record Over (all : List Value) (c : Consumer) : Type 0 where
  pub complete : all ≡ c.got
  pub over : c.returned ≡ true
  pub dropped : c.stream.registered ≡ false

-- The consumer got the first values, and all of them once it has returned.
pub record Served (all : List Value) (c : Consumer) : Type 0 where
  pub rest : List Value
  pub in_order : all ≡ c.got ++ rest
  pub complete : c.returned ≡ true → c.got ≡ all

pub NoneNull-append :
    (xs : List Value) (x : Value) → NoneNull xs → is_null x ≡ false → NoneNull (xs ++ x ∷ [])
NoneNull-append [] x h k = (k, tt)
NoneNull-append (y ∷ ys) x h k = (h.0, NoneNull-append ys x h.1 k)

pub Ahead-Served :
    (all coming : List Value) (closed : Bool) (c : Consumer)
    → Ahead all coming closed c
    → Served all c
Ahead-Served all coming closed c a = record {
  rest = a.waiting ++ coming;
  in_order = a.split;
  complete = λ r. absurd (ground (arith, r, a.running));
}

pub Over-Served : (all : List Value) (c : Consumer) → Over all c → Served all c
Over-Served all c o = record {
  rest = [];
  in_order = o.complete ∙ sym (append-nil c.got);
  complete = λ r. sym o.complete;
}
