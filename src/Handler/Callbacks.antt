-- ===== src/Handler/Callbacks.antt =====
-- `handle_callback_request` of handler.py. A published callback is kept in `sent`; the scheduled
-- unsubscribing from cancellations is a step of its own.
pub mod Cleanup
pub mod Tests
use camera_ui_rpc.Base.{
  ℕ, suc, Bool, true, false, String, Option, none, some, List, [], ◌∷◌, ◌++◌, if◌then◌else◌,
}
use camera_ui_rpc.Codec.Values.{Value}
use camera_ui_rpc.Handler.Generators.{Raised}

pub record CallbackMessage : Type 0 where
  pub id : String
  pub value : Value

-- what the handler returns to be called at the end: it returns, or raises
pub data HandlerCleanup : Type 0 where
  cleans : HandlerCleanup
  cleanup_raises : Raised → HandlerCleanup

-- the event loop of the thread that a synchronous handler calls back from
pub data EventLoop : Type 0 where
  running idle no_loop : EventLoop

pub record Subscription : Type 0 where
  pub request_id : String
  pub handler_is_async : Bool
  pub handler_cleanup : Option HandlerCleanup
  pub has_on_finished : Bool
  pub cleaned_up : Bool
  pub cleanup_calls : ℕ
  pub finished_calls : ℕ
  pub cancel_subscribed : Bool
  pub cancel_unsub_scheduled : Bool
  pub sent : List CallbackMessage

abbrev pub start_subscription : String → Bool → Option HandlerCleanup → Bool → Subscription
start_subscription request_id handler_is_async handler_cleanup has_on_finished = record {
  request_id = request_id;
  handler_is_async = handler_is_async;
  handler_cleanup = handler_cleanup;
  has_on_finished = has_on_finished;
  cleaned_up = false;
  cleanup_calls = 0;
  finished_calls = 0;
  cancel_subscribed = true;
  cancel_unsub_scheduled = false;
  sent = [];
}

-- `connected` is what the client says when the wrapper runs
abbrev pub wrapper_callback : Bool → Value → Subscription → Subscription
wrapper_callback connected value s =
    if connected
    then record s { sent = s.sent ++ record { id = s.request_id; value = value } ∷ [] }
    else s

abbrev pub sync_wrapper_callback : EventLoop → Bool → Value → Subscription → Subscription
sync_wrapper_callback running connected value s = wrapper_callback connected value s
sync_wrapper_callback idle connected value s = wrapper_callback connected value s
sync_wrapper_callback no_loop connected value s = s

abbrev pub invoke_cleanup : Option HandlerCleanup → Subscription → Option Raised × Subscription
invoke_cleanup none s = (none, s)
invoke_cleanup (some cleans) s = (none, record s { cleanup_calls = suc s.cleanup_calls })
invoke_cleanup (some (cleanup_raises e)) s =
    (some e, record s { cleanup_calls = suc s.cleanup_calls })

-- with the exception that the handler's cleanup raises, if any
unfoldable pub run_handler_cleanup : Subscription → Option Raised × Subscription
run_handler_cleanup s =
    if s.cleaned_up
    then (none, s)
    else invoke_cleanup s.handler_cleanup (record s { cleaned_up = true })

-- an exception of `on_finished` is swallowed
abbrev pub call_on_finished : Subscription → Subscription
call_on_finished s =
    if s.has_on_finished then record s { finished_calls = suc s.finished_calls } else s

abbrev pub schedule_unsub : Option Raised × Subscription → Subscription
schedule_unsub (none, s) = record s { cancel_unsub_scheduled = true }
schedule_unsub (some e, s) = s

abbrev pub on_cancel : Subscription → Subscription
on_cancel s = schedule_unsub (run_handler_cleanup (call_on_finished s))

abbrev pub cancel_unsub : Subscription → Subscription
cancel_unsub s = record s { cancel_subscribed = false }

unfoldable pub cleanup_subscription : Subscription → Option Raised × Subscription
unfolding run_handler_cleanup
cleanup_subscription s = run_handler_cleanup (cancel_unsub s)

pub data Event : Type 0 where
  calls_back : EventLoop → Bool → Value → Event
  cancel_arrives : Event
  unsub_runs : Event
  cleans_up : Event

unfoldable pub step : Event → Subscription → Subscription
unfolding run_handler_cleanup cleanup_subscription
step (calls_back loop connected value) s =
    if s.handler_is_async
    then wrapper_callback connected value s
    else sync_wrapper_callback loop connected value s
step cancel_arrives s = if s.cancel_subscribed then on_cancel s else s
step unsub_runs s = if s.cancel_unsub_scheduled then cancel_unsub s else s
step cleans_up s = (cleanup_subscription s).1

unfoldable pub run : List Event → Subscription → Subscription
unfolding step
run [] s = s
run (e ∷ es) s = run es (step e s)
