-- ===== src/Handler/Streams.antt =====
-- `handle_stream_request` of handler.py behind its subscription to cancellations. The environment
-- is read once per round: `cancelled i` and `connected i` are what the check of round `i` sees, and
-- `publish i` is the exception that the publishing of round `i` raises, if any.
pub mod Delivery
use camera_ui_rpc.Base.{
  ℕ, suc, Bool, not, ◌||◌, ◌&&◌, Option, none, some, List, [], ◌∷◌, if◌then◌else◌,
}
use camera_ui_rpc.Codec.Values.{Value}
use camera_ui_rpc.Handler.Generators.{Raised, Produced, yielded, raised, Generator, stream_error}

-- the messages of a stream
pub data StreamMessage : Type 0 where
  data_message : Value → StreamMessage
  end_message : StreamMessage
  error_message : Value → StreamMessage

module _ (cancelled connected : ℕ → Bool) (publish : ℕ → Option Raised) where
  -- a publishing whose exception is swallowed
  abbrev pub published_or_lost : StreamMessage → Option Raised → List StreamMessage
  published_or_lost message none = message ∷ []
  published_or_lost message (some e) = []

  -- the `except` branch; its publishing is the one of the next round
  abbrev pub report : ℕ → Raised → List StreamMessage
  report i e =
      if not (cancelled i) && connected i
      then published_or_lost (error_message (stream_error e)) (publish (suc i))
      else []

  -- the end message; when its publishing raises, the `except` branch runs
  abbrev pub ended : ℕ → Option Raised → List StreamMessage
  ended i none = end_message ∷ []
  ended i (some e) = report i e

  abbrev pub finish_stream : ℕ → List StreamMessage
  finish_stream i = if not (cancelled i) && connected i then ended i (publish i) else []

  abbrev pub sent_value : Value → ℕ → Option Raised → List StreamMessage → List StreamMessage
  sent_value value i none later = data_message value ∷ later
  sent_value value i (some e) later = report i e

  -- the loop over the generator, from round `i` on, with what follows it
  unfoldable pub stream_from : ℕ → List Produced → List StreamMessage
  stream_from i [] = finish_stream i
  stream_from i (raised e ∷ produced) = report i e
  stream_from i (yielded value ∷ produced) =
      let later = stream_from (suc i) produced in
      if cancelled i || not (connected i)
      then finish_stream i
      else sent_value value i (publish i) later

  unfoldable pub stream_generator : Generator → List StreamMessage
  unfolding stream_from
  stream_generator g = stream_from 0 g.produced
