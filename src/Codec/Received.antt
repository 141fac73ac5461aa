-- ===== src/Codec/Received.antt =====
-- What a receiver gets for a message: the reference that the wire format is held against.
use camera_ui_rpc.Base.{ℕ, Option, none, some, List, [], ◌∷◌, ◌++◌, ◌≡◌}
use camera_ui_rpc.Base.Result.{Result, ok, err}
use camera_ui_rpc.Codec.Values.{
  Value, str, bytes, memoryview, date, list, tuple, dict, Items, no_items, item, Fields, no_fields,
  field, placeholder_of,
}
use camera_ui_rpc.Codec.Extract.{as_extractable_segment}
use camera_ui_rpc.Codec.Frame.{default_handler}

abbrev pub handled : Value → Result Value → Value
handled value (ok shown) = shown
handled value (err e) = value

-- MessagePack has no tuples and no views. It packs a date itself, as its ISO text, so that the
-- default handler is not asked about it; of what it does not know, the handler has its say.
unfoldable mutual
  pub plain : Value → Value
  plain (memoryview buffer) = bytes buffer
  plain (tuple xs) = list (plain_items xs)
  plain (list xs) = list (plain_items xs)
  plain (dict fs) = dict (plain_fields fs)
  plain (date n iso) = str iso
  plain value = handled value (default_handler value)

  pub plain_items : Items → Items
  plain_items no_items = no_items
  plain_items (item x xs) = item (plain x) (plain_items xs)

  pub plain_fields : Fields → Fields
  plain_fields no_fields = no_fields
  plain_fields (field key v fs) = field key (plain v) (plain_fields fs)

-- a binary: a view when it is large enough for a segment
abbrev pub received_binary : List ℕ → Option (List ℕ) → Value
received_binary buffer none = bytes buffer
received_binary buffer (some segment) = memoryview segment

unfoldable mutual
  unfolding as_extractable_segment

  pub received : Value → Value
  received (bytes buffer) = received_binary buffer (as_extractable_segment buffer)
  received (memoryview buffer) = received_binary buffer (as_extractable_segment buffer)
  received (tuple xs) = list (received_items xs)
  received (list xs) = list (received_items xs)
  received (dict fs) = dict (received_fields fs)
  received (date n iso) = str iso
  received value = handled value (default_handler value)

  pub received_items : Items → Items
  received_items no_items = no_items
  received_items (item x xs) = item (received x) (received_items xs)

  pub received_fields : Fields → Fields
  received_fields no_fields = no_fields
  received_fields (field key v fs) = field key (received v) (received_fields fs)

abbrev pub one_segment : Option (List ℕ) → List (List ℕ)
one_segment none = []
one_segment (some segment) = segment ∷ []

-- the binaries that are moved out of band, depth first
unfoldable mutual
  unfolding as_extractable_segment

  pub segments_of : Value → List (List ℕ)
  segments_of (bytes buffer) = one_segment (as_extractable_segment buffer)
  segments_of (memoryview buffer) = one_segment (as_extractable_segment buffer)
  segments_of (tuple xs) = segments_of_items xs
  segments_of (list xs) = segments_of_items xs
  segments_of (dict fs) = segments_of_fields fs
  segments_of value = []

  pub segments_of_items : Items → List (List ℕ)
  segments_of_items no_items = []
  segments_of_items (item x xs) = segments_of x ++ segments_of_items xs

  pub segments_of_fields : Fields → List (List ℕ)
  segments_of_fields no_fields = []
  segments_of_fields (field key v fs) = segments_of v ++ segments_of_fields fs

-- No dictionary of the message has the shape that is reserved for placeholders.
unfoldable mutual
  unfolding placeholder_of plain_fields

  pub NoPlaceholders : Value → Type 0
  NoPlaceholders (tuple xs) = NoPlaceholderItems xs
  NoPlaceholders (list xs) = NoPlaceholderItems xs
  NoPlaceholders (dict fs) = (placeholder_of (plain_fields fs) ≡ none) × NoPlaceholderFields fs
  NoPlaceholders value = Unit

  pub NoPlaceholderItems : Items → Type 0
  NoPlaceholderItems no_items = Unit
  NoPlaceholderItems (item x xs) = NoPlaceholders x × NoPlaceholderItems xs

  pub NoPlaceholderFields : Fields → Type 0
  NoPlaceholderFields no_fields = Unit
  NoPlaceholderFields (field key v fs) = NoPlaceholders v × NoPlaceholderFields fs
