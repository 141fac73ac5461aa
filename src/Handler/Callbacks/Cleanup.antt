-- ===== src/Handler/Callbacks/Cleanup.antt =====
-- How often the cleanup of a callback handler runs.
use camera_ui_rpc.Codec.Values.{Value}
use camera_ui_rpc.Base.{
  if◌then◌else◌, refl, String, arith, ℕ, ◌≡◌, Bool, true, false, Option, none, some, List, [], ◌∷◌,
}
use camera_ui_rpc.Handler.Callbacks.{
  EventLoop, start_subscription, run, HandlerCleanup, Subscription, run_handler_cleanup,
  cleanup_subscription, Event, running, idle, no_loop, calls_back, cancel_arrives, unsub_runs,
  cleans_up, step,
}

abbrev pub has_cleanup : Option HandlerCleanup → ℕ
has_cleanup none = 0
has_cleanup (some c) = 1

-- Whether a cancel message or a clean-up is among the events.
abbrev pub is_ended : List Event → Bool
is_ended [] = false
is_ended (calls_back loop connected value ∷ es) = is_ended es
is_ended (unsub_runs ∷ es) = is_ended es
is_ended (cancel_arrives ∷ es) = true
is_ended (cleans_up ∷ es) = true

module _ (h : Option HandlerCleanup) where
  abbrev Fresh : Subscription → Type 0
  Fresh s =
      (s.handler_cleanup ≡ h)
      × (s.cleaned_up ≡ false)
      × (s.cleanup_calls ≡ 0)
      × (s.cancel_subscribed ≡ true)
      × (s.cancel_unsub_scheduled ≡ false)

  abbrev Cleaned : Subscription → Type 0
  Cleaned s = (s.cleaned_up ≡ true) × (s.cleanup_calls ≡ has_cleanup h)

  step-Cleaned : (e : Event) (s : Subscription) → Cleaned s → Cleaned (step e s)
  unfolding step run_handler_cleanup cleanup_subscription
  step-Cleaned (calls_back running connected value) s (c, n) = ground (arith, c, n)
  step-Cleaned (calls_back idle connected value) s (c, n) = ground (arith, c, n)
  step-Cleaned (calls_back no_loop connected value) s (c, n) = ground (arith, c, n)
  step-Cleaned unsub_runs s (c, n) = ground (arith, c, n)
  step-Cleaned cancel_arrives s (c, n) = ground (arith, c, n)
  step-Cleaned cleans_up s (c, n) = ground (arith, c, n)

  step-Fresh :
      (loop : EventLoop) (connected : Bool) (value : Value) (s : Subscription)
      → Fresh s
      → Fresh (step (calls_back loop connected value) s)
  unfolding step
  step-Fresh running connected value s (a, b, c, d, e) = ground (arith, a, b, c, d, e)
  step-Fresh idle connected value s (a, b, c, d, e) = ground (arith, a, b, c, d, e)
  step-Fresh no_loop connected value s (a, b, c, d, e) = ground (arith, a, b, c, d, e)

  unsub-Fresh : (s : Subscription) → Fresh s → Fresh (step unsub_runs s)
  unfolding step
  unsub-Fresh s (a, b, c, d, e) = ground (arith, a, b, c, d, e)

  cancel-Cleaned : (s : Subscription) → Fresh s → Cleaned (step cancel_arrives s)
  unfolding step run_handler_cleanup
  cancel-Cleaned s (a, b, c, d, e) = ground (arith, a, b, c, d)

  cleans_up-Cleaned : (s : Subscription) → Fresh s → Cleaned (step cleans_up s)
  unfolding step run_handler_cleanup cleanup_subscription
  cleans_up-Cleaned s (a, b, c, d, e) = ground (arith, a, b, c)

  run-Cleaned : (es : List Event) (s : Subscription) → Cleaned s → Cleaned (run es s)
  unfolding run
  run-Cleaned [] s c = c
  run-Cleaned (e ∷ es) s c = run-Cleaned es (step e s) (step-Cleaned e s c)

  run-calls :
      (es : List Event) (s : Subscription)
      → Fresh s
      → (run es s).cleanup_calls ≡ (if is_ended es then has_cleanup h else 0)
  unfolding run
  run-calls [] s f = f.2
  run-calls (calls_back loop connected value ∷ es) s f =
      run-calls es (step (calls_back loop connected value) s) (step-Fresh loop connected value s f)
  run-calls (unsub_runs ∷ es) s f = run-calls es (step unsub_runs s) (unsub-Fresh s f)
  run-calls (cancel_arrives ∷ es) s f =
      (run-Cleaned es (step cancel_arrives s) (cancel-Cleaned s f)).1
  run-calls (cleans_up ∷ es) s f = (run-Cleaned es (step cleans_up s) (cleans_up-Cleaned s f)).1

-- Whatever callbacks, cancel messages and clean-ups come in whatever order, the cleanup that a
-- callback handler returned is called once if there is a cancel message or a clean-up among them,
-- and never otherwise; without such a cleanup nothing is called.
pub cleanup_once :
    (request_id : String) (is_async has_on_finished : Bool) (h : Option HandlerCleanup)
    (es : List Event)
    → (run es (start_subscription request_id is_async h has_on_finished)).cleanup_calls
      ≡ (if is_ended es then has_cleanup h else 0)
cleanup_once request_id is_async has_on_finished h es =
    run-calls h es (start_subscription request_id is_async h has_on_finished)
      (refl, refl, refl, refl, refl)
