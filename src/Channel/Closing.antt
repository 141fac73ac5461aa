-- ===== src/Channel/Closing.antt =====
-- A channel is closed once, and stays closed.
use camera_ui_rpc.Base.{
  ℕ, ℕ_eq, zero, suc, String, ◌≡◌, refl, Bool, true, false, List, [], ◌∷◌, ◌++◌, map, if◌then◌else◌,
  ◌==◌, String_eq,
}
use camera_ui_rpc.Base.Result.{Result, ok, err, runtime_error}
use camera_ui_rpc.Base.Dict.{Dict, lookup}
use camera_ui_rpc.Codec.Values.{Value}
use camera_ui_rpc.Channel.{
  ChannelMessage, message, close, error, other, Effect, published, handled, close_handled,
  error_handled, unsubscribed, Channel, init, send, on_request, on, off, emit, cleanup,
  close_channel, handle_close, handle_error, message_handler, unsubscribe_requests, or_empty,
}

-- what happens to a channel; `cleaned_up` is the task that a remote close starts
pub data Event : Type 0 where
  initialised requests_served cleaned_up : Event
  sends : Value → Event
  listens : String → ℕ → Bool → Event
  stops_listening : String → ℕ → Event
  closes : Bool → Event
  arrives : ChannelMessage → Event

abbrev pub sent_or_refused : Channel → Result (Channel × List Effect) → Channel × List Effect
sent_or_refused c (err raised) = (c, [])
sent_or_refused c (ok result) = result

unfoldable pub step : Event → Channel → Channel × List Effect
unfolding init on_request cleanup send on off close_channel message_handler
step initialised c = (init c, [])
step requests_served c = (on_request c, [])
step cleaned_up c = cleanup c
step (sends payload) c = sent_or_refused c (send payload c)
step (listens event handler is_async) c = (on event handler is_async c, [])
step (stops_listening event handler) c = (off event handler c, [])
step (closes publishes) c = close_channel publishes c
step (arrives m) c = message_handler m c

unfoldable pub run : List Event → Channel → Channel × List Effect
unfolding step
run [] c = (c, [])
run (e ∷ es) c =
    let (c', effects) = step e c in let (c'', later) = run es c' in (c'', effects ++ later)

-- Nothing is published, and no close handler is called.
abbrev pub IsSilent : List Effect → Type 0
IsSilent [] = Unit
IsSilent (published m ∷ effects) = ⊥
IsSilent (close_handled h ∷ effects) = ⊥
IsSilent (handled h v ∷ effects) = IsSilent effects
IsSilent (error_handled h t ∷ effects) = IsSilent effects
IsSilent (unsubscribed ∷ effects) = IsSilent effects

IsSilent-append : (xs ys : List Effect) → IsSilent xs → IsSilent ys → IsSilent (xs ++ ys)
IsSilent-append [] ys h k = k
IsSilent-append (published m ∷ xs) ys h k = absurd h
IsSilent-append (close_handled m ∷ xs) ys h k = absurd h
IsSilent-append (handled m v ∷ xs) ys h k = IsSilent-append xs ys h k
IsSilent-append (error_handled m t ∷ xs) ys h k = IsSilent-append xs ys h k
IsSilent-append (unsubscribed ∷ xs) ys h k = IsSilent-append xs ys h k

handled-IsSilent :
    (payload : Value) (hs : Dict ℕ Bool) → IsSilent (map (λ h. handled h.0 payload) hs)
handled-IsSilent payload [] = tt
handled-IsSilent payload (h ∷ hs) = handled-IsSilent payload hs

error_handled-IsSilent :
    (text : String) (hs : Dict ℕ Bool) → IsSilent (map (λ h. error_handled h.0 text) hs)
error_handled-IsSilent text [] = tt
error_handled-IsSilent text (h ∷ hs) = error_handled-IsSilent text hs

requests-IsSilent : (n : ℕ) → IsSilent (unsubscribe_requests n)
requests-IsSilent zero = tt
requests-IsSilent (suc n) = requests-IsSilent n

-- the channel stays closed, and the step is silent
abbrev pub StaysClosed : Channel × List Effect → Type 0
StaysClosed r = (r.0.closed ≡ true) × IsSilent r.1

cleanup-StaysClosed : (c : Channel) → c.closed ≡ true → StaysClosed (cleanup c)
unfolding cleanup
cleanup-StaysClosed c h = (
  h,
  IsSilent-append (unsubscribe_requests c.subscriptions)
      (if c.subscribed then unsubscribed ∷ [] else []) (requests-IsSilent c.subscriptions)
      (own c.subscribed),
)
  where
    own : (b : Bool) → IsSilent (if b then unsubscribed ∷ [] else [])
    own true = tt
    own false = tt

either_closed :
    (b : Bool) (x y : Channel)
    → x.closed ≡ true
    → y.closed ≡ true
    → (if b then x else y).closed ≡ true
either_closed true x y h k = h
either_closed false x y h k = k

-- what a closed channel does not do
guarded :
    (b : Bool) (c : Channel) (r : Channel × List Effect)
    → b ≡ true
    → c.closed ≡ true
    → StaysClosed (if b then (c, []) else r)
guarded true c r e h = (h, tt)
guarded false c r e h = cc e

refused :
    (b : Bool) (c : Channel) (r : Channel × List Effect)
    → b ≡ true
    → c.closed ≡ true
    → StaysClosed (sent_or_refused c (if b then err runtime_error else ok r))
refused true c r e h = (h, tt)
refused false c r e h = cc e

init-closed : (c : Channel) → c.closed ≡ true → (init c).closed ≡ true
unfolding init
init-closed c h =
    either_closed c.initialized c (record c { initialized = true; subscribed = true }) h h

on-closed :
    (event : String) (handler : ℕ) (is_async : Bool) (c : Channel)
    → c.closed ≡ true
    → (on event handler is_async c).closed ≡ true
unfolding on
on-closed event handler is_async c h =
    either_closed (event == "close") _ _ h (either_closed (event == "error") _ _ h h)

off-closed :
    (event : String) (handler : ℕ) (c : Channel)
    → c.closed ≡ true
    → (off event handler c).closed ≡ true
unfolding off
off-closed event handler c h =
    either_closed (event == "close") _ _ h (either_closed (event == "error") _ _ h h)

step-StaysClosed : (e : Event) (c : Channel) → c.closed ≡ true → StaysClosed (step e c)
unfolding step
step-StaysClosed initialised c h = (init-closed c h, tt)
step-StaysClosed requests_served c h = unfold on_request in (h, tt)
step-StaysClosed cleaned_up c h = cleanup-StaysClosed c h
step-StaysClosed (sends payload) c h = unfold send in refused c.closed c _ h h
step-StaysClosed (listens event handler is_async) c h = (on-closed event handler is_async c h, tt)
step-StaysClosed (stops_listening event handler) c h = (off-closed event handler c h, tt)
step-StaysClosed (closes publishes) c h = unfold close_channel in guarded c.closed c _ h h
step-StaysClosed (arrives (message payload)) c h =
    unfold message_handler in
    (h, unfold emit in handled-IsSilent payload (or_empty (lookup "message" c.handlers)))
step-StaysClosed (arrives close) c h =
    unfold message_handler in unfold handle_close in guarded c.closed c _ h h
step-StaysClosed (arrives (error text)) c h =
    unfold message_handler in
    (h, unfold handle_error in error_handled-IsSilent text c.error_handlers)
step-StaysClosed (arrives other) c h = unfold message_handler in (h, tt)

run-StaysClosed : (es : List Event) (c : Channel) → c.closed ≡ true → StaysClosed (run es c)
unfolding run
run-StaysClosed [] c h = (h, tt)
run-StaysClosed (e ∷ es) c h =
    let now = step-StaysClosed e c h in
    let later = run-StaysClosed es (step e c).0 now.0 in
    (later.0, IsSilent-append (step e c).1 (run es (step e c).0).1 now.1 later.1)

-- a close by this side or by the other one
abbrev pub IsClosing : Event → Type 0
IsClosing (closes publishes) = Unit
IsClosing (arrives close) = Unit
IsClosing _ = ⊥

-- closed before, or closed by what is done otherwise
closed_after :
    (b : Bool) (c : Channel) (r : Channel × List Effect)
    → c.closed ≡ b
    → r.0.closed ≡ true
    → let x : Channel × List Effect = if b then (c, []) else r in x.0.closed ≡ true
closed_after true c r h k = h
closed_after false c r h k = k

closing_closes : (e : Event) (c : Channel) → IsClosing e → (step e c).0.closed ≡ true
unfolding step cleanup
closing_closes (closes publishes) c k = unfold close_channel in closed_after c.closed c _ refl refl
closing_closes (arrives close) c k =
    unfold message_handler in unfold handle_close in closed_after c.closed c _ refl refl
closing_closes (arrives (message v)) c k = absurd k
closing_closes (arrives (error t)) c k = absurd k
closing_closes (arrives other) c k = absurd k
closing_closes initialised c k = absurd k
closing_closes requests_served c k = absurd k
closing_closes cleaned_up c k = absurd k
closing_closes (sends v) c k = absurd k
closing_closes (listens event handler is_async) c k = absurd k
closing_closes (stops_listening event handler) c k = absurd k

-- After a close by either side, whatever happens, the channel stays closed, publishes nothing
-- and calls no close handler again.
pub closed_for_good :
    (e : Event) (es : List Event) (c : Channel)
    → IsClosing e
    → let r = run es (step e c).0 in (r.0.closed ≡ true) × IsSilent r.1
closed_for_good e es c k = run-StaysClosed es (step e c).0 (closing_closes e c k)
