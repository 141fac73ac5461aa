-- ===== src/Codec/Values.antt =====
-- The Python values that a message is made of, as codec.py tells them apart. The bytes of a
-- binary are numbers; a float is its 64 bits, a datetime is a numbered instant, a date is the
-- instant of its midnight and its ISO text, a time its ISO text. `enum_int` and `enum_text` are
-- members of an `Enum` by their value, and `object` is an instance of a class that MessagePack does
-- not pack; dataclasses and UUIDs, which it does, are left out. Keys of a dictionary are distinct.
use camera_ui_rpc.Base.{
  ℕ, suc, String, Bool, false, Option, none, some, List, nat_eq, ◌==◌, String_eq, if◌then◌else◌,
}

pub data ℤ : Type 0 where
  pos : ℕ → ℤ
  negsuc : ℕ → ℤ

-- a text, or by a number a key that MessagePack keeps as it is: an integer, a Boolean or None
pub data Key : Type 0 where
  text_key : String → Key
  opaque_key : ℕ → Key

mutual
  pub data Value : Type 0 where
    null : Value
    bool : Bool → Value
    int : ℤ → Value
    float : ℕ → Value
    str : String → Value
    bytes : List ℕ → Value
    memoryview : List ℕ → Value
    datetime : ℕ → Value
    date : ℕ → String → Value
    time : String → Value
    enum_int : ℤ → Value
    enum_text : String → Value
    object : ℕ → Value
    list : Items → Value
    tuple : Items → Value
    dict : Fields → Value

  pub data Items : Type 0 where
    no_items : Items
    item : Value → Items → Items

  pub data Fields : Type 0 where
    no_fields : Fields
    field : Key → Value → Fields → Fields

-- `len(value)` of a dictionary
unfoldable pub count_fields : Fields → ℕ
count_fields no_fields = 0
count_fields (field key value fs) = suc (count_fields fs)

abbrev pub is_text_key : String → Key → Bool
is_text_key wanted (text_key s) = s == wanted
is_text_key wanted (opaque_key n) = false

-- `value.get(wanted)` for a text
unfoldable pub field_of : String → Fields → Option Value
field_of wanted no_fields = none
field_of wanted (field key value fs) =
    let later = field_of wanted fs in if is_text_key wanted key then some value else later

-- `type(value) is int and value >= 0`
abbrev pub as_count : Value → Option ℕ
as_count (int (pos n)) = some n
as_count _ = none

abbrev pub as_count? : Option Value → Option ℕ
as_count? none = none
as_count? (some value) = as_count value

abbrev pub both : Option ℕ → Option ℕ → Option (ℕ × ℕ)
both (some a) (some b) = some (a, b)
both _ _ = none

abbrev pub placeholder_key : String
placeholder_key = "__cui_bin__"

-- the index and the length of a dictionary that has the exact shape of a placeholder
unfoldable pub placeholder_of : Fields → Option (ℕ × ℕ)
unfolding count_fields field_of
placeholder_of fs =
    if nat_eq (count_fields fs) 2
    then both (as_count? (field_of placeholder_key fs)) (as_count? (field_of "l" fs))
    else none

-- the dictionary that stands for the segment `index` of `size` bytes
abbrev pub placeholder : ℕ → ℕ → Value
placeholder index size = dict (
    field (text_key placeholder_key) (int (pos index))
      (field (text_key "l") (int (pos size)) no_fields))
