-- ===== src/Handler/Pull/Progress.antt =====
-- The events of a pull session, and what holds of it between them.
use camera_ui_rpc.Base.{
  ℕ, suc, ◌+◌, ◌≤◌, ◌≡◌, ap, ◌∙◌, true, false, not, Option, List, [], ◌∷◌, ◌++◌, map, length, arith,
  if◌then◌else◌,
}
use mathlib.Core.List.{append-nil}
use camera_ui_rpc.Codec.Values.{Value}
use camera_ui_rpc.Handler.Generators.{Raised}
use camera_ui_rpc.Handler.Pull.{
  PullRequest, next_request, cancel_request, other_request, PullResponse, value_response,
  done_response, error_response, Session, handle_pull_request, cleanup,
}
use camera_ui_rpc.Handler.Streams.Delivery.{values_of}

-- a request arrives, or the owner cleans up
pub data Event : Type 0 where
  requested : PullRequest → Event
  cleaned_up : Event

unfoldable pub step : (ℕ → Option Raised) → Event → Session → Session
unfolding handle_pull_request cleanup
step publish (requested request) s = handle_pull_request publish request s
step publish cleaned_up s = cleanup s

unfoldable pub run : (ℕ → Option Raised) → List Event → Session → Session
unfolding step
run publish [] s = s
run publish (e ∷ es) s = run publish es (step publish e s)

abbrev pub one_next : Event → ℕ
one_next (requested next_request) = 1
one_next (requested cancel_request) = 0
one_next (requested other_request) = 0
one_next cleaned_up = 0

-- how many values the consumer has asked for
abbrev pub count_next : List Event → ℕ
count_next [] = 0
count_next (e ∷ es) = one_next e + count_next es

-- nothing, or one response that ends the iteration
abbrev pub IsTail : List PullResponse → Type 0
IsTail [] = Unit
IsTail (done_response ∷ []) = Unit
IsTail (error_response e ∷ []) = Unit
IsTail _ = ⊥

-- The responses are values of the generator in order, no more than `asked`, and at most one
-- response that ends the iteration. An active session has not ended and goes on with the rest; an
-- inactive one is finished. The owner is told once at most.
pub record Progress (values : List Value) (asked : ℕ) (s : Session) : Type 0 where
  pub told : List Value
  pub rest : List Value
  pub tail : List PullResponse
  pub split : values ≡ told ++ rest
  pub responses : s.sent ≡ map value_response told ++ tail
  pub ends : IsTail tail
  pub demanded : length told ≤ asked
  pub live : s.active ≡ true → (tail ≡ []) × (rest ≡ values_of s.produced)
  pub closed : s.finished ≡ not s.active
  pub owner_told : s.finished_calls ≤ (if s.active then 0 else 1)

-- the session ends here with at most one response more
pub record Ended (before after : Session) : Type 0 where
  pub tail : List PullResponse
  pub ends : IsTail tail
  pub responses : after.sent ≡ before.sent ++ tail
  pub inactive : after.active ≡ false
  pub closed : after.finished ≡ true
  pub owner_told : after.finished_calls ≤ suc before.finished_calls

pub end-Progress :
    (values : List Value) (asked more : ℕ) (before after : Session)
    → before.active ≡ true
    → Progress values asked before
    → Ended before after
    → Progress values (more + asked) after
end-Progress values asked more before after was_active p e = record {
  told = p.told;
  rest = p.rest;
  tail = e.tail;
  split = p.split;
  responses =
      e.responses
      ∙ ap (λ r. r ++ e.tail)
          (p.responses ∙ ap (λ t. map value_response p.told ++ t) (p.live was_active).0)
      ∙ ap (λ r. r ++ e.tail) (append-nil (map value_response p.told));
  ends = e.ends;
  demanded = omega (arith, p.demanded);
  live = λ a. absurd (ground (arith, a, e.inactive));
  closed = ground (arith, e.closed, e.inactive);
  owner_told = ground (arith, e.owner_told, p.owner_told, was_active, e.inactive);
}
