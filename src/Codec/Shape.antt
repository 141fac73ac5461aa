-- ===== src/Codec/Shape.antt =====
-- Extraction neither makes nor destroys a dictionary of the reserved shape.
use camera_ui_rpc.Base.{
  ℕ, suc, Bool, true, false, String, ◌≡◌, refl, ap, Option, none, some, List, if◌then◌else◌,
}
use camera_ui_rpc.Codec.Values.{
  Value, null, bool, int, float, str, bytes, memoryview, datetime, date, time, enum_int, enum_text,
  object, list, tuple, dict, Items, Fields, no_fields, field, placeholder_of, count_fields,
  field_of, as_count, as_count?, is_text_key, placeholder_key,
}
use camera_ui_rpc.Codec.Extract.{
  as_extractable_segment, extract_binaries, extract_items, extract_fields, value_or, fields_or,
  as_list, as_dict, extract_segment,
}
use camera_ui_rpc.Codec.Received.{plain, plain_fields}
use camera_ui_rpc.Codec.Extracted.{fields_or-copy_fields}

as_count-extract_segment :
    (o : Option (List ℕ)) (segs : List (List ℕ)) (v : Value)
    → as_count (plain v) ≡ none
    → as_count (plain (value_or v (extract_segment o segs).0)) ≡ none
unfolding plain
as_count-extract_segment none segs v h = h
as_count-extract_segment (some s) segs v h = refl

as_count-as_list :
    (o : Option Items) (v : Value)
    → as_count (plain v) ≡ none
    → as_count (plain (value_or v (as_list o))) ≡ none
unfolding plain
as_count-as_list none v h = h
as_count-as_list (some ys) v h = refl

as_count-as_dict :
    (o : Option Fields) (v : Value)
    → as_count (plain v) ≡ none
    → as_count (plain (value_or v (as_dict o))) ≡ none
unfolding plain
as_count-as_dict none v h = h
as_count-as_dict (some gs) v h = refl

-- What counts as a number stays the number that it is.
as_count-extract_binaries :
    (v : Value) (segs : List (List ℕ))
    → as_count (plain (value_or v (extract_binaries v segs).0)) ≡ as_count (plain v)
unfolding extract_binaries plain
as_count-extract_binaries (bytes b) segs =
    as_count-extract_segment (as_extractable_segment b) segs (bytes b) refl
as_count-extract_binaries (memoryview b) segs =
    as_count-extract_segment (as_extractable_segment b) segs (memoryview b) refl
as_count-extract_binaries (list xs) segs = as_count-as_list (extract_items xs segs).0 (list xs) refl
as_count-extract_binaries (tuple xs) segs =
    as_count-as_list (extract_items xs segs).0 (tuple xs) refl
as_count-extract_binaries (dict fs) segs =
    as_count-as_dict (extract_fields fs segs).0 (dict fs) refl
as_count-extract_binaries null segs = refl
as_count-extract_binaries (bool b) segs = refl
as_count-extract_binaries (int n) segs = refl
as_count-extract_binaries (float n) segs = refl
as_count-extract_binaries (str s) segs = refl
as_count-extract_binaries (datetime n) segs = refl
as_count-extract_binaries (date n iso) segs = refl
as_count-extract_binaries (time s) segs = refl
as_count-extract_binaries (enum_int n) segs = refl
as_count-extract_binaries (enum_text s) segs = refl
as_count-extract_binaries (object n) segs = refl

count_fields-extract_fields :
    (fs : Fields) (segs : List (List ℕ))
    → count_fields (plain_fields (fields_or fs (extract_fields fs segs).0))
      ≡ count_fields (plain_fields fs)
unfolding extract_binaries plain count_fields
count_fields-extract_fields no_fields segs = refl
count_fields-extract_fields (field key v fs) segs =
    rw
      (fields_or-copy_fields key v fs (extract_binaries v segs).0
        (extract_fields fs (extract_binaries v segs).1).0)
      (ap suc (count_fields-extract_fields fs (extract_binaries v segs).1))

as_count?-if :
    (b : Bool) (v w : Value) (o p : Option Value)
    → as_count v ≡ as_count w
    → as_count? o ≡ as_count? p
    → as_count? (if b then some v else o) ≡ as_count? (if b then some w else p)
as_count?-if true v w o p h k = h
as_count?-if false v w o p h k = k

field_of-extract_fields :
    (wanted : String) (fs : Fields) (segs : List (List ℕ))
    → as_count? (field_of wanted (plain_fields (fields_or fs (extract_fields fs segs).0)))
      ≡ as_count? (field_of wanted (plain_fields fs))
unfolding extract_binaries plain field_of
field_of-extract_fields wanted no_fields segs = refl
field_of-extract_fields wanted (field key v fs) segs =
    rw
      (fields_or-copy_fields key v fs (extract_binaries v segs).0
        (extract_fields fs (extract_binaries v segs).1).0)
      (as_count?-if (is_text_key wanted key) (plain (value_or v (extract_binaries v segs).0))
        (plain v)
        (field_of wanted
          (plain_fields (fields_or fs (extract_fields fs (extract_binaries v segs).1).0)))
        (field_of wanted (plain_fields fs)) (as_count-extract_binaries v segs)
        (field_of-extract_fields wanted fs (extract_binaries v segs).1))

pub placeholder_of-extract_fields :
    (fs : Fields) (segs : List (List ℕ))
    → placeholder_of (plain_fields (fields_or fs (extract_fields fs segs).0))
      ≡ placeholder_of (plain_fields fs)
unfolding placeholder_of
placeholder_of-extract_fields fs segs =
    rw
      (
        count_fields-extract_fields fs segs,
        field_of-extract_fields placeholder_key fs segs,
        field_of-extract_fields "l" fs segs,
      )
      refl
