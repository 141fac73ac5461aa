-- ===== src/Client/PullConsumer/Joined/Tests.antt =====
-- The theorems on pull iterators from end to end, at concrete inputs.
use camera_ui_rpc.Base.{[], ◌∷◌, arith}
use camera_ui_rpc.Codec.Values.{int, pos, null}
use camera_ui_rpc.Handler.Generators.{other_exception, yielded, raised, Generator, close_raises}
use camera_ui_rpc.Client.Handlers.RoundTrip.{seen}
use camera_ui_rpc.Client.PullConsumer.{left, failed}
use camera_ui_rpc.Client.PullConsumer.Joined.{start, rounds, break_off}
use camera_ui_rpc.Client.PullConsumer.Joined.Delivered.{IsOver, pull_delivered, pull_left}

-- two values, one of them None, and an exception; closing it raises too
abbrev unlucky : Generator
unlucky = record {
  produced = yielded (int (pos 1)) ∷ yielded null ∷ raised (other_exception "broken") ∷ [];
  closing = close_raises (other_exception "busy");
}

pull_delivered_example :
    IsOver
      (failed (seen (other_exception "broken")))
      (int (pos 1) ∷ null ∷ [])
      (rounds 3 (start unlucky))
pull_delivered_example = pull_delivered unlucky

pull_left_example : IsOver left (int (pos 1) ∷ []) (break_off (rounds 1 (start unlucky)))
pull_left_example = pull_left unlucky 1 (omega arith)
