-- ===== src/Handler/Tests.antt =====
-- The theorems on streams and pull sessions at concrete inputs.
use camera_ui_rpc.Base.{ℕ, Bool, true, false, Option, none, List, [], ◌∷◌, ◌++◌, map, ◌≡◌, refl}
use camera_ui_rpc.Codec.Values.{int, pos, null}
use camera_ui_rpc.Handler.Generators.{Raised, other_exception, yielded, raised, Generator, closes}
use camera_ui_rpc.Handler.Streams.{data_message, stream_generator}
use camera_ui_rpc.Handler.Streams.Delivery.{
  values_of, last_message, IsPrefixOf, stream_delivers, stream_prefix,
}
use camera_ui_rpc.Handler.Pull.{next_request, cancel_request, start_session, end_session, finish}
use camera_ui_rpc.Handler.PullCallback.{start_callback_session, handle_callback_pull}
use camera_ui_rpc.Handler.PullCallback.Inert
use camera_ui_rpc.Handler.Pull.Progress.{Event, requested, cleaned_up, run, count_next, Progress}
use camera_ui_rpc.Handler.Pull.Lifetime.{pull_session}

-- two values and then an exception
abbrev two_then_raise : Generator
two_then_raise = record {
  produced = yielded (int (pos 1)) ∷ yielded null ∷ raised (other_exception "broken") ∷ [];
  closing = closes;
}

abbrev never : ℕ → Bool
never i = false

abbrev always : ℕ → Bool
always i = true

abbrev no_failure : ℕ → Option Raised
no_failure i = none

stream_delivers_example :
    stream_generator never always no_failure two_then_raise
    ≡ map data_message (values_of two_then_raise.produced)
      ++ last_message two_then_raise.produced ∷ []
stream_delivers_example =
    stream_delivers never always no_failure (λ i. (refl, refl, refl)) two_then_raise

stream_prefix_example :
    IsPrefixOf always always no_failure
      (values_of two_then_raise.produced)
      (stream_generator always always no_failure two_then_raise)
stream_prefix_example = stream_prefix always always no_failure two_then_raise

abbrev requests : List Event
requests =
    requested next_request
    ∷ requested next_request
    ∷ requested cancel_request
    ∷ requested next_request
    ∷ cleaned_up
    ∷ []

pull_session_example :
    Progress
      (values_of two_then_raise.produced)
      (count_next requests)
      (run no_failure requests (start_session two_then_raise))
pull_session_example = pull_session no_failure two_then_raise requests

abbrev ended_requests : List Inert.Event
ended_requests = Inert.requested next_request ∷ Inert.requested cancel_request ∷ []

callbacks_stop_example :
    (Inert.run no_failure
      (Inert.invoked true "tick" [] ∷ Inert.requested next_request ∷ [])
      (Inert.run no_failure ended_requests
        (start_callback_session ("tick" ∷ []) two_then_raise)).0).1
    ≡ []
unfolding Inert.run handle_callback_pull start_callback_session start_session end_session finish
callbacks_stop_example =
    Inert.callbacks_stop no_failure ("tick" ∷ []) two_then_raise ended_requests
      (Inert.invoked true "tick" [] ∷ Inert.requested next_request ∷ []) refl
