-- ===== src/Client/Streams.antt =====
-- The consumer of a stream: `_call_stream_once` of client.py behind the sending of its request. The
-- queue holds what was pushed, and `None` at its end; a streamed `None` looks the same.
pub mod Rounds
pub mod Retries
pub mod Events
pub mod Consumed
pub mod Drained
pub mod Tests
use camera_ui_rpc.Base.{
  ℕ, suc, Bool, true, false, Option, none, some, List, [], ◌∷◌, ◌++◌, if◌then◌else◌,
}
use camera_ui_rpc.Base.Result.{Result, ok, err}
use camera_ui_rpc.Codec.Values.{
  Value, null, bool, int, float, str, bytes, memoryview, datetime, date, time, enum_int, enum_text,
  object, list, tuple, dict,
}
use camera_ui_rpc.Errors.{RpcException, from_dict}

-- the exception that the stream ends with
pub data StreamError : Type 0 where
  remote : RpcException → StreamError
  no_responders : StreamError

pub data StreamMessage : Type 0 where
  data_message : Value → StreamMessage
  end_message : StreamMessage
  error_message : Value → StreamMessage
  other_message : StreamMessage

pub record Stream : Type 0 where
  pub queue : List Value
  pub ended : Bool
  pub error : Option StreamError
  -- whether `stream_handlers` has the request
  pub registered : Bool
  -- how many cancellations were published
  pub cancels : ℕ

abbrev pub new_stream : Stream
new_stream = record { queue = []; ended = false; error = none; registered = true; cancels = 0 }

unfoldable pub on_push : Value → Stream → Stream
on_push value s = if s.ended then s else record s { queue = s.queue ++ value ∷ [] }

unfoldable pub on_end : Stream → Stream
on_end s = record s { ended = true; queue = s.queue ++ null ∷ [] }

unfoldable pub on_error : StreamError → Stream → Stream
on_error e s = record s { error = some e; ended = true; queue = s.queue ++ null ∷ [] }

unfoldable pub unsubscribe_all : Stream → Stream
unsubscribe_all s =
    let dropped = record s { registered = false } in
    if s.ended then dropped else record dropped { ended = true; cancels = suc s.cancels }

-- An error that cannot be read raises, and the stream goes on as it was.
abbrev pub on_error_message : Result RpcException → Stream → Stream
on_error_message (ok e) s = unsubscribe_all (on_error (remote e) s)
on_error_message (err raised) s = s

abbrev pub dispatch : StreamMessage → Stream → Stream
dispatch (data_message value) s = on_push value s
dispatch end_message s = unsubscribe_all (on_end s)
dispatch (error_message error) s = on_error_message (from_dict error) s
dispatch other_message s = s

-- a message with the id of the request
unfoldable pub handle_stream_message : StreamMessage → Stream → Stream
unfolding on_push on_end on_error unsubscribe_all
handle_stream_message message s = if s.registered then dispatch message s else s

-- the no-responder status on the reply subject of the request
unfoldable pub on_no_responders : Stream → Stream
unfolding on_error
on_no_responders s = if s.registered then on_error no_responders s else s

-- what one round of the generator's loop does
pub data Taken : Type 0 where
  waits returns : Taken
  yields : Value → Taken
  raises : StreamError → Taken

abbrev pub is_null : Value → Bool
is_null null = true
is_null _ = false

-- the end marker was taken
abbrev pub take_end : Option StreamError → Stream → Taken × Stream
take_end none s = (returns, unsubscribe_all s)
take_end (some e) s = (raises e, unsubscribe_all s)

abbrev pub take_from : List Value → Stream → Taken × Stream
take_from [] s = (waits, s)
take_from (value ∷ queue) s =
    let s' = record s { queue = queue } in
    if is_null value then take_end s.error s' else (yields value, s')

-- A round reads the error before the queue. A consumer that is parked in `queue.get` gets a value
-- that comes before an error first; of streams without errors both say the same.
abbrev pub take_or_raise : Option StreamError → Stream → Taken × Stream
take_or_raise none s = take_from s.queue s
take_or_raise (some e) s = (raises e, unsubscribe_all s)

unfoldable pub take_next : Stream → Taken × Stream
unfolding unsubscribe_all
take_next s = take_or_raise s.error s
