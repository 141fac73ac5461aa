-- ===== src/Client/Tests.antt =====
-- The theorems on calls and retries at concrete inputs.
use camera_ui_rpc.Base.{
  ℕ, zero, suc, String, Bool, false, none, some, List, [], ◌∷◌, ◌≡◌, ◌≢◌, refl, String_eq,
}
use camera_ui_rpc.Base.Result.{key_error}
use camera_ui_rpc.Base.Dict.{lookup}
use camera_ui_rpc.Codec.Values.{Value, str, dict, field, no_fields, text_key, field_of, int, pos}
use camera_ui_rpc.Errors.{from_dict}
use camera_ui_rpc.Client.Calls.{
  cancelled, exception, Calls, Outcome, new_calls, start_call, handle_timeout,
}
use camera_ui_rpc.Client.Calls.Steps.{
  Event, called, timer_fired, no_responder_status, response_arrived, connection_torn_down, step,
  run,
}
use camera_ui_rpc.Client.Calls.Settled.{run-settled_once}
use camera_ui_rpc.Client.Calls.Answered.{call_is_answered}
use camera_ui_rpc.Client.Calls.Unreadable.{unreadable_error_hangs}
use camera_ui_rpc.Client.Retry.{Ending, returned, no_responders, with_no_responder_retry}
use camera_ui_rpc.Client.Retry.Bounded.{Explained, with_no_responder_retry-Explained}

-- the reply to the call `id` with this number
abbrev reply : String → ℕ → Value
reply id n =
    dict (field (text_key "id") (str id) (field (text_key "result") (int (pos n)) no_fields))

-- an error reply without a message
abbrev bad_reply : Value
bad_reply = dict (
    field (text_key "id") (str "p.1")
      (field (text_key "error") (dict (field (text_key "code") (str "E") no_fields)) no_fields))

-- The task of the call is cancelled; its request is still pending, and its timer runs.
abbrev cancelled_once : Calls
cancelled_once = record {
  pending_requests = ("p.1", "rpc.a") ∷ [];
  timers = ("p.1", "rpc.a") ∷ [];
  futures = ("p.1", exception cancelled) ∷ [];
  status_handlers = [];
}

abbrev late_events : List Event
late_events = response_arrived (reply "p.1" 8) ∷ timer_fired "p.1" ∷ connection_torn_down ∷ []

run-settled_once_example :
    lookup "p.1" (run late_events cancelled_once).futures ≡ some (exception cancelled)
unfolding lookup
run-settled_once_example =
    run-settled_once "p.1" (exception cancelled) late_events cancelled_once refl

abbrev busy : List Event
busy = called "p.2" "rpc.b" ∷ response_arrived (reply "p.2" 3) ∷ no_responder_status "p.3" ∷ []

other_call : ◌≢◌ {A = String} "p.2" "p.1"
other_call e = cc ((String_eq.same_iff "p.2" "p.1").1 e)

call_is_answered_example :
    let s' = run busy (start_call "p.1" "rpc.a" new_calls) in
    (o : Outcome) × (lookup "p.1" (handle_timeout "p.1" s').futures ≡ some o)
unfolding field_of
call_is_answered_example =
    call_is_answered "p.1" "rpc.a" busy new_calls (other_call, (tt, (tt, tt)))

abbrev waiting : Calls
waiting = record new_calls {
  pending_requests = ("p.1", "rpc.a") ∷ [];
  timers = ("p.1", "rpc.a") ∷ [];
}

unreadable_error_hangs_example :
    let s' =
      run
        (timer_fired "p.1" ∷ response_arrived (reply "p.1" 8) ∷ [])
        (step (response_arrived bad_reply) waiting) in
    (lookup "p.1" s'.pending_requests ≡ none)
    × (lookup "p.1" s'.timers ≡ none)
    × (lookup "p.1" s'.futures ≡ none)
unfolding lookup field_of from_dict
unreadable_error_hangs_example =
    unreadable_error_hangs "p.1" "rpc.a" waiting
      (field (text_key "id") (str "p.1")
        (field (text_key "error") (dict (field (text_key "code") (str "E") no_fields)) no_fields))
      (dict (field (text_key "code") (str "E") no_fields)) key_error
      (timer_fired "p.1" ∷ response_arrived (reply "p.1" 8) ∷ []) (λ e. cc e) refl refl refl refl
      refl (tt, (tt, tt))

-- the responder is there at the third attempt
abbrev third_time : ℕ → Ending ℕ
third_time zero = no_responders
third_time (suc zero) = no_responders
third_time (suc (suc i)) = returned i

abbrev always_open : ℕ → Bool
always_open i = false

with_no_responder_retry-Explained_example :
    Explained third_time always_open 3
      (500 ∷ 1000 ∷ 2000 ∷ [])
      0
      (with_no_responder_retry third_time always_open 3 (500 ∷ 1000 ∷ 2000 ∷ []))
with_no_responder_retry-Explained_example =
    with_no_responder_retry-Explained third_time always_open 3 (500 ∷ 1000 ∷ 2000 ∷ [])
