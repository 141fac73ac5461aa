-- ===== src/Codec/Extract.antt =====
-- `_extract_binaries` of codec.py. A result of `none` is the same object, untouched.
use camera_ui_rpc.Base.{ℕ, Option, none, some, List, [], ◌∷◌, ◌++◌, length, leb, if◌then◌else◌}
use camera_ui_rpc.Codec.Values.{
  Value, null, bool, int, float, str, bytes, memoryview, datetime, date, time, enum_int, enum_text,
  object, list, tuple, dict, Items, no_items, item, Fields, no_fields, field, Key, placeholder,
}

abbrev pub binary_extract_threshold : ℕ
binary_extract_threshold = 16384

-- `_as_extractable_segment` for a binary with these bytes
unfoldable pub as_extractable_segment : List ℕ → Option (List ℕ)
as_extractable_segment buffer =
    if leb binary_extract_threshold (length buffer) then some buffer else none

abbrev pub extract_segment : Option (List ℕ) → List (List ℕ) → Option Value × List (List ℕ)
extract_segment none segments = (none, segments)
extract_segment (some segment) segments =
    (some (placeholder (length segments) (length segment)), segments ++ segment ∷ [])

abbrev pub value_or : Value → Option Value → Value
value_or same none = same
value_or same (some changed) = changed

abbrev pub items_or : Items → Option Items → Items
items_or same none = same
items_or same (some changed) = changed

abbrev pub fields_or : Fields → Option Fields → Fields
fields_or same none = same
fields_or same (some changed) = changed

-- copy on write: the container is copied when an element or the rest of it has changed
abbrev pub copy_items : Value → Items → Option Value → Option Items → Option Items
copy_items x xs none none = none
copy_items x xs (some x') xs' = some (item x' (items_or xs xs'))
copy_items x xs none (some xs') = some (item x xs')

abbrev pub copy_fields : Key → Value → Fields → Option Value → Option Fields → Option Fields
copy_fields key v fs none none = none
copy_fields key v fs (some v') fs' = some (field key v' (fields_or fs fs'))
copy_fields key v fs none (some fs') = some (field key v fs')

-- A tuple of which a part has changed becomes a list.
abbrev pub as_list : Option Items → Option Value
as_list none = none
as_list (some xs) = some (list xs)

abbrev pub as_dict : Option Fields → Option Value
as_dict none = none
as_dict (some fs) = some (dict fs)

unfoldable mutual
  pub extract_binaries : Value → List (List ℕ) → Option Value × List (List ℕ)
  extract_binaries null segments = (none, segments)
  extract_binaries (bool b) segments = (none, segments)
  extract_binaries (int n) segments = (none, segments)
  extract_binaries (float n) segments = (none, segments)
  extract_binaries (str s) segments = (none, segments)
  extract_binaries (bytes buffer) segments =
      extract_segment (as_extractable_segment buffer) segments
  extract_binaries (memoryview buffer) segments =
      extract_segment (as_extractable_segment buffer) segments
  extract_binaries (datetime n) segments = (none, segments)
  extract_binaries (date n iso) segments = (none, segments)
  extract_binaries (time s) segments = (none, segments)
  extract_binaries (enum_int n) segments = (none, segments)
  extract_binaries (enum_text s) segments = (none, segments)
  extract_binaries (object n) segments = (none, segments)
  extract_binaries (list xs) segments =
      let (xs', segments') = extract_items xs segments in (as_list xs', segments')
  extract_binaries (tuple xs) segments =
      let (xs', segments') = extract_items xs segments in (as_list xs', segments')
  extract_binaries (dict fs) segments =
      let (fs', segments') = extract_fields fs segments in (as_dict fs', segments')

  pub extract_items : Items → List (List ℕ) → Option Items × List (List ℕ)
  extract_items no_items segments = (none, segments)
  extract_items (item x xs) segments =
      let (x', before) = extract_binaries x segments in
      let (xs', after) = extract_items xs before in (copy_items x xs x' xs', after)

  pub extract_fields : Fields → List (List ℕ) → Option Fields × List (List ℕ)
  extract_fields no_fields segments = (none, segments)
  extract_fields (field key v fs) segments =
      let (v', before) = extract_binaries v segments in
      let (fs', after) = extract_fields fs before in (copy_fields key v fs v' fs', after)
