-- ===== src/Codec/Fields.antt =====
-- Python's truth of the values of a message, and the keys of its dictionaries.
use camera_ui_rpc.Base.{
  ◌^◌, ◌≡◌, refl, Bool, true, false, not, ◌||◌, String, Option, none, some, nat_eq, length, arith,
  ◌==◌, String_eq, if◌then◌else◌,
}
use camera_ui_rpc.Codec.Values.{
  Value, null, bool, int, float, str, bytes, memoryview, list, tuple, dict, no_items, Fields,
  no_fields, field, text_key, opaque_key, is_text_key, field_of, pos,
}

-- Python's truth of a value
abbrev pub truthy : Value → Bool
truthy null = false
truthy (bool b) = b
truthy (int (pos n)) = not (nat_eq n 0)
truthy (str s) = not (s == "")
truthy (bytes b) = not (nat_eq (length b) 0)
truthy (memoryview b) = not (nat_eq (length b) 0)
truthy (list no_items) = false
truthy (tuple no_items) = false
truthy (dict no_fields) = false
truthy (float bits) = not (nat_eq bits 0 || nat_eq bits (2 ^ 63))
truthy _ = true

abbrev pub truthy? : Option Value → Bool
truthy? none = false
truthy? (some value) = truthy value

-- `value[name] = …`
unfoldable pub set_field : String → Value → Fields → Fields
set_field name value no_fields = field (text_key name) value no_fields
set_field name value (field key v fs) =
    let later = set_field name value fs in
    if is_text_key name key then field key value fs else field key v later

pub field_of-set_field :
    (name wanted : String) (value : Value) (fs : Fields)
    → field_of wanted (set_field name value fs)
      ≡ (if name == wanted then some value else field_of wanted fs)
unfolding field_of set_field
field_of-set_field name wanted value no_fields = refl
field_of-set_field name wanted value (field (opaque_key n) v fs) =
    field_of-set_field name wanted value fs
field_of-set_field name wanted value (field (text_key k) v fs) = ground (
  arith,
  String_eq.same_iff name wanted,
  String_eq.same_iff k name,
  String_eq.same_iff k wanted,
  field_of-set_field name wanted value fs,
)
