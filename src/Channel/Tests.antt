-- ===== src/Channel/Tests.antt =====
-- The theorems on channels at concrete inputs.
use camera_ui_rpc.Base.Dict.{lookup}
use camera_ui_rpc.Base.{refl, ◌≢◌, String_eq, String, ◌≡◌, true, false, none, some, List, [], ◌∷◌}
use camera_ui_rpc.Codec.Values.{int, pos}
use camera_ui_rpc.Channel.{handled, Channel, new_channel, message, close}
use camera_ui_rpc.Channel.Closing.{
  Event, listens, sends, closes, arrives, step, run, IsSilent, closed_for_good,
}
use camera_ui_rpc.Channel.Private.{PrivateChannel, PrivateMessage}
use camera_ui_rpc.Channel.Private.Filter.{
  run as run_private, heard, handle_all, only_other_end_heard,
}

abbrev afterwards : List Event
afterwards = listens "message" 2 false ∷ sends (int (pos 1)) ∷ arrives close ∷ closes true ∷ []

abbrev with_listener : Channel
with_listener = record new_channel { subscribed = true; close_handlers = (4, false) ∷ [] }

closed_for_good_example :
    let r = run afterwards (step (closes true) with_listener).0 in
    (r.0.closed ≡ true) × IsSilent r.1
closed_for_good_example = closed_for_good (closes true) afterwards with_listener tt

abbrev end_a : PrivateChannel
end_a = record {
  channel = record new_channel { handlers = ("message", (1, false) ∷ []) ∷ [] };
  client_id = "a";
  target_client_id = "b";
  remote_client_id = none;
}

abbrev mixed : List PrivateMessage
mixed =
    record { sender = some "a"; body = message (int (pos 1)) }
    ∷ record { sender = some "b"; body = message (int (pos 2)) }
    ∷ record { sender = some "c"; body = close }
    ∷ record { sender = none; body = close }
    ∷ []

other_end : ◌≢◌ {A = String} "b" "a"
other_end e = cc ((String_eq.same_iff "b" "a").1 e)

-- Of the four messages, the handler gets the one of "b".
mixed_heard : (run_private mixed end_a).1 ≡ handled 1 (int (pos 2)) ∷ []
unfolding run_private lookup
mixed_heard = refl

only_other_end_heard_example : run_private mixed end_a ≡ handle_all "b" (heard "b" mixed) end_a
only_other_end_heard_example = only_other_end_heard mixed end_a other_end
