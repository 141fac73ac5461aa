-- ===== src/Handler/Streams/Delivery.antt =====
-- What a stream delivers.
use camera_ui_rpc.Base.{
  ℕ, suc, ◌≡◌, refl, ap, Bool, true, false, not, ◌||◌, ◌&&◌, Option, none, some, List, [], ◌∷◌,
  ◌++◌, map, take, Bool-cases, inl, inr,
}
use camera_ui_rpc.Codec.Values.{Value}
use camera_ui_rpc.Handler.Generators.{Raised, Produced, yielded, raised, Generator, stream_error}
use camera_ui_rpc.Handler.Streams.{
  StreamMessage, data_message, end_message, error_message, published_or_lost, report, ended,
  finish_stream, sent_value, stream_from, stream_generator,
}

-- the values that a generator yields before it stops or raises
abbrev pub values_of : List Produced → List Value
values_of [] = []
values_of (raised e ∷ produced) = []
values_of (yielded value ∷ produced) = value ∷ values_of produced

-- how it stops
abbrev pub last_message : List Produced → StreamMessage
last_message [] = end_message
last_message (raised e ∷ produced) = error_message (stream_error e)
last_message (yielded value ∷ produced) = last_message produced

-- nothing, or one message that ends the stream
abbrev pub IsTail : List StreamMessage → Type 0
IsTail [] = Unit
IsTail (end_message ∷ []) = Unit
IsTail (error_message e ∷ []) = Unit
IsTail _ = ⊥

module _ (cancelled connected : ℕ → Bool) (publish : ℕ → Option Raised) where
  module _
      (calm : (i : ℕ) → (cancelled i ≡ false) × (connected i ≡ true) × (publish i ≡ none)) where
    stream_from_calm :
        (i : ℕ) (produced : List Produced)
        → stream_from cancelled connected publish i produced
          ≡ map data_message (values_of produced) ++ last_message produced ∷ []
    unfolding stream_from
    stream_from_calm i [] = rw ((calm i).0, (calm i).1, (calm i).2) refl
    stream_from_calm i (raised e ∷ produced) = rw ((calm i).0, (calm i).1, (calm (suc i)).2) refl
    stream_from_calm i (yielded value ∷ produced) =
        rw ((calm i).0, (calm i).1, (calm i).2)
          (ap (◌∷◌ (data_message value)) (stream_from_calm (suc i) produced))

    -- A stream that is neither cancelled nor disconnected, and whose messages can be published,
    -- delivers every value of the generator in order and then one message that ends it: the end
    -- message, or the error that the generator raised.
    pub stream_delivers :
        (g : Generator)
        → stream_generator cancelled connected publish g
          ≡ map data_message (values_of g.produced) ++ last_message g.produced ∷ []
    unfolding stream_generator
    stream_delivers g = stream_from_calm 0 g.produced

  report-IsTail : (i : ℕ) (e : Raised) → IsTail (report cancelled connected publish i e)
  report-IsTail i e = elim (Bool-cases (not (cancelled i) && connected i)) [
    | inl up ↦ rw up (lost (publish (suc i)))
    | inr down ↦ rw down tt
  ]
    where
      lost :
          (o : Option Raised)
          → IsTail
              (published_or_lost cancelled connected publish (error_message (stream_error e)) o)
      lost none = tt
      lost (some x) = tt

  ended-IsTail : (i : ℕ) (o : Option Raised) → IsTail (ended cancelled connected publish i o)
  ended-IsTail i none = tt
  ended-IsTail i (some e) = report-IsTail i e

  finish_stream-IsTail : (i : ℕ) → IsTail (finish_stream cancelled connected publish i)
  finish_stream-IsTail i = elim (Bool-cases (not (cancelled i) && connected i)) [
    | inl up ↦ rw up (ended-IsTail i (publish i))
    | inr down ↦ rw down tt
  ]

  -- a number of the values, in order, and then the tail
  abbrev pub IsPrefixOf : List Value → List StreamMessage → Type 0
  IsPrefixOf values messages =
      (n : ℕ) × (tail : List StreamMessage) × IsTail tail
      × (messages ≡ map data_message (take n values) ++ tail)

  stream_from-prefix :
      (i : ℕ) (produced : List Produced)
      → IsPrefixOf (values_of produced) (stream_from cancelled connected publish i produced)
  unfolding stream_from
  stream_from-prefix i [] =
      (0, finish_stream cancelled connected publish i, finish_stream-IsTail i, refl)
  stream_from-prefix i (raised e ∷ produced) =
      (0, report cancelled connected publish i e, report-IsTail i e, refl)
  stream_from-prefix i (yielded value ∷ produced) =
      elim (Bool-cases (cancelled i || not (connected i))) [
        | inl stop ↦
            rw stop (0, finish_stream cancelled connected publish i, finish_stream-IsTail i, refl)
        | inr go_on ↦ rw go_on (sent (publish i) (stream_from-prefix (suc i) produced))
      ]
    where
      sent :
          (o : Option Raised)
          → IsPrefixOf
              (values_of produced)
              (stream_from cancelled connected publish (suc i) produced)
          → IsPrefixOf (value ∷ values_of produced) (
              sent_value cancelled connected publish value i o
                (stream_from cancelled connected publish (suc i) produced))
      sent none (n, tail, ends, e) = (suc n, tail, ends, ap (◌∷◌ (data_message value)) e)
      sent (some x) later = (0, report cancelled connected publish i x, report-IsTail i x, refl)

  -- Whatever is cancelled, disconnected or refused, a stream publishes the first values of its
  -- generator in order, none left out, and after them at most one message that ends it.
  pub stream_prefix :
      (g : Generator)
      → IsPrefixOf (values_of g.produced) (stream_generator cancelled connected publish g)
  unfolding stream_generator
  stream_prefix g = stream_from-prefix 0 g.produced
