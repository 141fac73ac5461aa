-- ===== src/Handler/Callbacks/Tests.antt =====
-- The theorem on callback handlers at a concrete input.
use camera_ui_rpc.Base.{◌≡◌, true, some, List, [], ◌∷◌}
use camera_ui_rpc.Codec.Values.{int, pos}
use camera_ui_rpc.Handler.Generators.{other_exception}
use camera_ui_rpc.Handler.Callbacks.{
  cleanup_raises, start_subscription, Event, running, calls_back, cancel_arrives, unsub_runs,
  cleans_up, run,
}
use camera_ui_rpc.Handler.Callbacks.Cleanup.{cleanup_once}

-- two cancel messages before the unsubscribing, then a clean-up
abbrev cancelled_twice : List Event
cancelled_twice =
    calls_back running true (int (pos 4))
    ∷ cancel_arrives
    ∷ cancel_arrives
    ∷ unsub_runs
    ∷ cleans_up
    ∷ []

cleanup_once_example :
    (run cancelled_twice (
      start_subscription "request" true
        (some (cleanup_raises (other_exception "broken")))
        true)).cleanup_calls
    ≡ 1
cleanup_once_example =
    cleanup_once "request" true true (some (cleanup_raises (other_exception "broken")))
      cancelled_twice
