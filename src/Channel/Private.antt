-- ===== src/Channel/Private.antt =====
-- `PrivateChannel` of channel.py: its subject, and the filter in front of its handlers.
pub mod Filter
use camera_ui_rpc.Base.{
  ℕ, zero, suc, String, ◌≡◌, refl, sym, ap, ap₂, ◌∙◌, Bool, true, false, not, ◌||◌, ◌^◌, Option,
  none, some, List, [], ◌∷◌, ◌++◌, ◌==◌, String_eq, nat_eq, arith, Bool-cases, inl, inr,
  if◌then◌else◌, eq_of_same, length,
}
use Prim.Native.String.{◌++◌ as join_texts, compare, ◌∷◌ as cons_char, [] as no_text}
use Prim.Native.Nat.{Ordering, compare as compare_ℕ}
use Prim.Native.Char.{code}
use camera_ui_rpc.Base.Result.{Result, ok, err, runtime_error}
use camera_ui_rpc.Codec.Values.{
  Value, null, bool, int, float, str, bytes, memoryview, datetime, date, time, enum_int, enum_text,
  object, list, tuple, dict, Items, no_items, Fields, no_fields, field, field_of, text_key, pos,
}
use camera_ui_rpc.Codec.Fields.{truthy, truthy?}
use camera_ui_rpc.Channel.{
  ChannelMessage, message, close, error, other, Effect, Channel, emit, handle_close, handle_error,
  message_handler,
}

-- `a <= b` of two texts
abbrev pub text_leb : String → String → Bool
text_leb a b = elim (compare a b) [ Ordering.gt ↦ false | _ ↦ true ]

-- `sorted([a, b])`
unfoldable pub sorted_pair : String → String → String × String
sorted_pair a b = if text_leb a b then (a, b) else (b, a)

abbrev join_dotted : String → String × String → String
join_dotted prefix ids = join_texts prefix (join_texts ids.0 (join_texts "." ids.1))

-- f"channel.private.{channel_id}.{'.'.join(sorted_ids)}"
unfoldable pub private_subject : String → String → String → String
unfolding sorted_pair
private_subject channel_id client_id target =
    join_dotted (join_texts "channel.private." (join_texts channel_id "."))
      (sorted_pair client_id target)

pub record PrivateChannel : Type 0 where
  pub channel : Channel
  pub client_id : String
  pub target_client_id : String
  pub remote_client_id : Option String

pub record PrivateMessage : Type 0 where
  pub sender : Option String
  pub body : ChannelMessage

-- a dictionary with a true `__handshake`
unfoldable pub is_handshake : ChannelMessage → Bool
unfolding field_of
is_handshake (message (dict fs)) = truthy? (field_of "__handshake" fs)
is_handshake (message payload) = false
is_handshake close = false
is_handshake (error text) = false
is_handshake other = false

-- `if not self.__remote_client_id: self.__remote_client_id = msg["sender"]`
abbrev pub remember : String → Option String → Option String
remember sender none = some sender
remember sender (some known) = if known == "" then some sender else some known

abbrev pub accepted : String → PrivateMessage → PrivateChannel → PrivateChannel × List Effect
accepted sender m c =
    let c' = record c { remote_client_id = remember sender c.remote_client_id } in
    if is_handshake m.body
    then (c', [])
    else let (channel, effects) = message_handler m.body c.channel in
      (record c' { channel = channel }, effects)

-- from the other one, and not from this client itself
abbrev pub is_for_us : String → String → String → Bool
is_for_us sender client_id target = if sender == client_id then false else sender == target

abbrev pub received_from :
    Option String → PrivateMessage → PrivateChannel → PrivateChannel × List Effect
received_from none m c = (c, [])
received_from (some sender) m c =
    if is_for_us sender c.client_id c.target_client_id then accepted sender m c else (c, [])

unfoldable pub private_handler : PrivateMessage → PrivateChannel → PrivateChannel × List Effect
unfolding is_handshake message_handler
private_handler m c = received_from m.sender m c
