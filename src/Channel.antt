-- ===== src/Channel.antt =====
-- channel.py: a channel between clients. Handlers are numbered, with the flag that says whether
-- they are asynchronous. An operation returns what it does besides changing the channel: the handlers
-- that it calls, the messages that it publishes. Exceptions of handlers are swallowed by the source.
pub mod Closing
pub mod Private
pub mod Tests
use camera_ui_rpc.Base.{
  ℕ, zero, suc, String, Bool, true, false, Option, none, some, List, [], ◌∷◌, ◌++◌, ◌==◌, ℕ_eq,
  String_eq, map, if◌then◌else◌,
}
use camera_ui_rpc.Base.Result.{Result, ok, err, runtime_error}
use camera_ui_rpc.Base.Dict.{Dict, lookup, insert, erase}
use camera_ui_rpc.Codec.Values.{Value}

pub data ChannelMessage : Type 0 where
  message : Value → ChannelMessage
  close : ChannelMessage
  error : String → ChannelMessage
  other : ChannelMessage

pub data Effect : Type 0 where
  published : ChannelMessage → Effect
  handled : ℕ → Value → Effect
  close_handled : ℕ → Effect
  error_handled : ℕ → String → Effect
  unsubscribed : Effect

pub record Channel : Type 0 where
  pub closed : Bool
  pub initialized : Bool
  -- whether `_unsubscribe` is set
  pub subscribed : Bool
  pub handlers : Dict String (Dict ℕ Bool)
  pub close_handlers : Dict ℕ Bool
  pub error_handlers : Dict ℕ Bool
  -- the number of request subscriptions
  pub subscriptions : ℕ

abbrev pub new_channel : Channel
new_channel = record {
  closed = false;
  initialized = false;
  subscribed = false;
  handlers = [];
  close_handlers = [];
  error_handlers = [];
  subscriptions = 0;
}

unfoldable pub init : Channel → Channel
init c = if c.initialized then c else record c { initialized = true; subscribed = true }

unfoldable pub send : Value → Channel → Result (Channel × List Effect)
send payload c = if c.closed then err runtime_error else ok (c, published (message payload) ∷ [])

unfoldable pub on_request : Channel → Channel
on_request c = record c { subscriptions = suc c.subscriptions }

abbrev pub or_empty : Option (Dict ℕ Bool) → Dict ℕ Bool
or_empty none = []
or_empty (some handlers) = handlers

unfoldable pub on : String → ℕ → Bool → Channel → Channel
on event handler is_async c =
    if event == "close"
    then record c { close_handlers = insert handler is_async c.close_handlers }
    else if event == "error"
    then record c { error_handlers = insert handler is_async c.error_handlers }
    else record c {
      handlers =
          insert event (insert handler is_async (or_empty (lookup event c.handlers))) c.handlers;
    }

abbrev pub without_handler :
    String → ℕ → Dict String (Dict ℕ Bool) → Option (Dict ℕ Bool) → Dict String (Dict ℕ Bool)
without_handler event handler handlers none = handlers
without_handler event handler handlers (some registered) =
    insert event (erase handler registered) handlers

unfoldable pub off : String → ℕ → Channel → Channel
off event handler c =
    if event == "close"
    then record c { close_handlers = erase handler c.close_handlers }
    else if event == "error"
    then record c { error_handlers = erase handler c.error_handlers }
    else record c { handlers = without_handler event handler c.handlers (lookup event c.handlers) }

-- `_emit`, over the handlers that are registered when it starts
unfoldable pub emit : String → Value → Channel → List Effect
emit event payload c = map (λ h. handled h.0 payload) (or_empty (lookup event c.handlers))

-- one unsubscribing per request subscription, and the channel's own
abbrev pub unsubscribe_requests : ℕ → List Effect
unsubscribe_requests zero = []
unsubscribe_requests (suc n) = unsubscribed ∷ unsubscribe_requests n

unfoldable pub cleanup : Channel → Channel × List Effect
cleanup c = (
  record c { handlers = []; close_handlers = []; error_handlers = []; subscribed = false },
  unsubscribe_requests c.subscriptions ++ (if c.subscribed then unsubscribed ∷ [] else []),
)

-- The publishing of the close message may fail, which is ignored.
unfoldable pub close_channel : Bool → Channel → Channel × List Effect
unfolding cleanup
close_channel publishes c =
    if c.closed
    then (c, [])
    else let (c', effects) = cleanup (record c { closed = true }) in
      (c', (if publishes then published close ∷ [] else []) ++ effects)

-- `_handle_close`; the clean-up is a task of its own
unfoldable pub handle_close : Channel → Channel × List Effect
handle_close c =
    if c.closed
    then (c, [])
    else (record c { closed = true }, map (λ h. close_handled h.0) c.close_handlers)

unfoldable pub handle_error : String → Channel → List Effect
handle_error text c = map (λ h. error_handled h.0 text) c.error_handlers

-- `message_handler`
unfoldable pub message_handler : ChannelMessage → Channel → Channel × List Effect
unfolding emit handle_close handle_error
message_handler (message payload) c = (c, emit "message" payload c)
message_handler close c = handle_close c
message_handler (error text) c = (c, handle_error text c)
message_handler other c = (c, [])
