-- ===== src/Handler/PullCallback/Inert.antt =====
-- A callback reaches the client only while its session is active.
use camera_ui_rpc.Base.{
  ℕ, suc, Bool, true, false, String, ◌≡◌, refl, sym, ◌∙◌, Option, none, some, List, [], ◌∷◌, ◌++◌,
  if◌then◌else◌, String_eq,
}
use camera_ui_rpc.Codec.Values.{Value, null}
use camera_ui_rpc.Handler.Generators.{
  Raised, Produced, yielded, raised, Generator, Closing, no_aclose, closes, close_raises,
  format_error_dict,
}
use camera_ui_rpc.Handler.Pull.{
  Session, start_session, PullRequest, next_request, cancel_request, other_request, end_session,
  fail_session, cancel_session, cleanup, finish, sent_with, or_fail, PullResponse, done_response,
  error_response, value_response,
}
use camera_ui_rpc.Handler.PullCallback.{
  CallbackInvoker, CallbackInvocation, invoke, CallbackSession, start_callback_session, boundary,
  next_batch, serve_callback, handle_callback_pull, cleanup_callback,
}

-- a request, a clean-up, or the handler's call of a callback while the client is connected or not
pub data Event : Type 0 where
  requested : PullRequest → Event
  cleaned_up : Event
  invoked : Bool → String → List Value → Event

abbrev pub next_session : (ℕ → Option Raised) → Event → CallbackSession → CallbackSession
next_session publish (requested request) c = handle_callback_pull publish request c
next_session publish cleaned_up c = cleanup_callback c
next_session publish (invoked connected method args) c = c

abbrev pub invocations : Event → CallbackSession → List CallbackInvocation
invocations (requested request) c = []
invocations cleaned_up c = []
invocations (invoked connected method args) c = invoke connected method args c.invoker

unfoldable pub run :
    (ℕ → Option Raised) → List Event → CallbackSession → CallbackSession × List CallbackInvocation
unfolding handle_callback_pull cleanup_callback invoke
run publish [] c = (c, [])
run publish (e ∷ es) c =
    let (c', later) = run publish es (next_session publish e c) in (c', invocations e c ++ later)

finish-inactive : (s : Session) → s.active ≡ false → (finish s).active ≡ false
unfolding finish
finish-inactive s h = by_flag s.finished
  where
    by_flag :
        (b : Bool)
        → let t : Session = if b then s else record s {
          finished = true;
          active = false;
          finished_calls = suc s.finished_calls;
          unsubscribes = suc s.unsubscribes;
        } in
          t.active ≡ false
    by_flag true = h
    by_flag false = refl

sent_with-inactive :
    (s : Session) (r : PullResponse) (o : Option Raised)
    → s.active ≡ false
    → (sent_with s r o).active ≡ false
sent_with-inactive s r none h = h
sent_with-inactive s r (some e) h = h

nothing_if : (b : Bool) (x : List CallbackInvocation) → b ≡ false → (if b then x else []) ≡ []
nothing_if true x k = cc k
nothing_if false x k = refl

module _ (publish : ℕ → Option Raised) where
  fail_session-inactive : (e : Raised) (s : Session) → (fail_session publish e s).active ≡ false
  unfolding fail_session
  fail_session-inactive e s = finish-inactive _ (
      sent_with-inactive (record s { active = false; produced = [] })
        (error_response (format_error_dict e)) (publish s.publishings) refl)

  end_session-inactive : (s : Session) → (end_session publish s).active ≡ false
  unfolding end_session
  end_session-inactive s = by_outcome (publish s.publishings)
    where
      by_outcome :
          (o : Option Raised)
          → (or_fail publish o (
              finish
                (sent_with (record s { active = false; produced = [] }) done_response o))).active
            ≡ false
      by_outcome none =
          finish-inactive
            (sent_with (record s { active = false; produced = [] }) done_response none) refl
      by_outcome (some e) =
          fail_session-inactive e
            (finish (sent_with (record s { active = false; produced = [] }) done_response (some e)))

  cancel_session-inactive :
      (k : Closing) (s : Session) → (cancel_session publish k s).active ≡ false
  cancel_session-inactive no_aclose s = end_session-inactive s
  cancel_session-inactive closes s = end_session-inactive s
  cancel_session-inactive (close_raises e) s = fail_session-inactive e s

  -- the invoker is active as long as the session is
  abbrev pub InStep : CallbackSession → Type 0
  InStep c = c.invoker.active ≡ c.session.active

  next_batch-InStep :
      (produced : List Produced) (c : CallbackSession)
      → InStep c
      → InStep (next_batch publish produced c)
  next_batch-InStep [] c h = sym (end_session-inactive c.session)
  next_batch-InStep (raised e ∷ produced) c h = sym (fail_session-inactive e c.session)
  next_batch-InStep (yielded value ∷ produced) c h = by_outcome (publish c.session.publishings)
    where
      by_outcome :
          (o : Option Raised)
          → InStep (
              boundary o
                (or_fail publish o
                  (sent_with (record c.session { produced = produced }) (value_response null) o))
                c)
      by_outcome none = h
      by_outcome (some e) = sym (
          fail_session-inactive e
            (sent_with (record c.session { produced = produced }) (value_response null) (some e)))

  serve_callback-InStep :
      (request : PullRequest) (c : CallbackSession)
      → InStep c
      → InStep (serve_callback publish request c)
  serve_callback-InStep cancel_request c h =
      sym (cancel_session-inactive c.session.closing c.session)
  serve_callback-InStep next_request c h = next_batch-InStep c.session.produced c h
  serve_callback-InStep other_request c h = h

  handle_callback_pull-InStep :
      (request : PullRequest) (c : CallbackSession)
      → InStep c
      → InStep (handle_callback_pull publish request c)
  unfolding handle_callback_pull
  handle_callback_pull-InStep request c h = by_flag c.session.active
    where
      by_flag : (b : Bool) → InStep (if b then serve_callback publish request c else c)
      by_flag true = serve_callback-InStep request c h
      by_flag false = h

  next_session-InStep :
      (e : Event) (c : CallbackSession) → InStep c → InStep (next_session publish e c)
  next_session-InStep (requested request) c h = handle_callback_pull-InStep request c h
  next_session-InStep cleaned_up c h = unfold cleanup_callback in unfold cleanup in refl
  next_session-InStep (invoked connected method args) c h = h

  run-InStep : (es : List Event) (c : CallbackSession) → InStep c → InStep (run publish es c).0
  unfolding run
  run-InStep [] c h = h
  run-InStep (e ∷ es) c h = run-InStep es (next_session publish e c) (next_session-InStep e c h)

  -- An inactive session stays so.
  stays_inactive :
      (e : Event) (c : CallbackSession)
      → c.session.active ≡ false
      → (next_session publish e c).session.active ≡ false
  stays_inactive (requested request) c h = unfold handle_callback_pull in by_flag c.session.active h
    where
      by_flag :
          (b : Bool)
          → b ≡ false
          → (if b then serve_callback publish request c else c).session.active ≡ false
      by_flag true k = cc k
      by_flag false k = h
  stays_inactive cleaned_up c h = unfold cleanup_callback in unfold cleanup in refl
  stays_inactive (invoked connected method args) c h = h

  invoke_inert :
      (connected : Bool) (method : String) (args : List Value) (i : CallbackInvoker)
      → i.active ≡ false
      → invoke connected method args i ≡ []
  unfolding invoke
  invoke_inert connected method args i h = nothing_if i.active _ h

  nothing_invoked :
      (e : Event) (c : CallbackSession) → InStep c → c.session.active ≡ false → invocations e c ≡ []
  nothing_invoked (requested request) c h k = refl
  nothing_invoked cleaned_up c h k = refl
  nothing_invoked (invoked connected method args) c h k =
      invoke_inert connected method args c.invoker (h ∙ k)

  run_inert :
      (es : List Event) (c : CallbackSession)
      → InStep c
      → c.session.active ≡ false
      → (run publish es c).1 ≡ []
  unfolding run
  run_inert [] c h k = refl
  run_inert (e ∷ es) c h k =
      rw (nothing_invoked e c h k)
        (run_inert es (next_session publish e c) (next_session-InStep e c h) (stays_inactive e c k))

  -- Once a pull-callback session has ended, by its last batch, an error, a cancellation or a
  -- clean-up, no callback that its handler still calls is published, whatever happens.
  pub callbacks_stop :
      (oneway : List String) (g : Generator) (es later : List Event)
      → (run publish es (start_callback_session oneway g)).0.session.active ≡ false
      → (run publish later (run publish es (start_callback_session oneway g)).0).1 ≡ []
  unfolding start_callback_session start_session
  callbacks_stop oneway g es later h =
      let c = (run publish es (start_callback_session oneway g)).0 in
      run_inert later c (run-InStep es (start_callback_session oneway g) refl) h
