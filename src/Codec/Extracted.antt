-- ===== src/Codec/Extracted.antt =====
-- What extraction moves out, and that the reserved shape does not come about by it.
use camera_ui_rpc.Base.{ℕ, Option, none, some, List, ◌++◌, ◌≡◌, refl, sym, ◌∙◌}
use mathlib.Core.List.{append-nil, append_assoc}
use camera_ui_rpc.Codec.Values.{
  Value, null, bool, int, float, str, bytes, memoryview, datetime, date, time, enum_int, enum_text,
  object, list, tuple, dict, Items, no_items, item, Fields, no_fields, field, Key,
}
use camera_ui_rpc.Codec.Extract.{
  as_extractable_segment, extract_binaries, extract_items, extract_fields, copy_items, copy_fields,
  value_or, items_or, fields_or, extract_segment,
}
use camera_ui_rpc.Codec.Received.{segments_of, segments_of_items, segments_of_fields, one_segment}

pub items_or-copy_items :
    (x : Value) (xs : Items) (x' : Option Value) (xs' : Option Items)
    → items_or (item x xs) (copy_items x xs x' xs') ≡ item (value_or x x') (items_or xs xs')
items_or-copy_items x xs none none = refl
items_or-copy_items x xs (some y) none = refl
items_or-copy_items x xs none (some ys) = refl
items_or-copy_items x xs (some y) (some ys) = refl

pub fields_or-copy_fields :
    (key : Key) (v : Value) (fs : Fields) (v' : Option Value) (fs' : Option Fields)
    → fields_or (field key v fs) (copy_fields key v fs v' fs')
      ≡ field key (value_or v v') (fields_or fs fs')
fields_or-copy_fields key v fs none none = refl
fields_or-copy_fields key v fs (some y) none = refl
fields_or-copy_fields key v fs none (some gs) = refl
fields_or-copy_fields key v fs (some y) (some gs) = refl

segment-extract_segment :
    (o : Option (List ℕ)) (segs : List (List ℕ))
    → (extract_segment o segs).1 ≡ segs ++ one_segment o
segment-extract_segment none segs = sym (append-nil segs)
segment-extract_segment (some s) segs = refl

-- The segments are appended in the order of a depth-first walk.
mutual
  unfolding extract_binaries segments_of

  pub segments-extract_binaries :
      (v : Value) (segs : List (List ℕ)) → (extract_binaries v segs).1 ≡ segs ++ segments_of v
  segments-extract_binaries (bytes b) segs = segment-extract_segment (as_extractable_segment b) segs
  segments-extract_binaries (memoryview b) segs =
      segment-extract_segment (as_extractable_segment b) segs
  segments-extract_binaries (list xs) segs = segments-extract_items xs segs
  segments-extract_binaries (tuple xs) segs = segments-extract_items xs segs
  segments-extract_binaries (dict fs) segs = segments-extract_fields fs segs
  segments-extract_binaries null segs = sym (append-nil segs)
  segments-extract_binaries (bool b) segs = sym (append-nil segs)
  segments-extract_binaries (int n) segs = sym (append-nil segs)
  segments-extract_binaries (float n) segs = sym (append-nil segs)
  segments-extract_binaries (str s) segs = sym (append-nil segs)
  segments-extract_binaries (datetime n) segs = sym (append-nil segs)
  segments-extract_binaries (date n iso) segs = sym (append-nil segs)
  segments-extract_binaries (time s) segs = sym (append-nil segs)
  segments-extract_binaries (enum_int n) segs = sym (append-nil segs)
  segments-extract_binaries (enum_text s) segs = sym (append-nil segs)
  segments-extract_binaries (object n) segs = sym (append-nil segs)

  pub segments-extract_items :
      (xs : Items) (segs : List (List ℕ)) → (extract_items xs segs).1 ≡ segs ++ segments_of_items xs
  segments-extract_items no_items segs = sym (append-nil segs)
  segments-extract_items (item x xs) segs =
      segments-extract_items xs (extract_binaries x segs).1
      ∙ rw
          (
            segments-extract_binaries x segs,
            append_assoc segs (segments_of x) (segments_of_items xs),
          )
          refl

  pub segments-extract_fields :
      (fs : Fields) (segs : List (List ℕ))
      → (extract_fields fs segs).1 ≡ segs ++ segments_of_fields fs
  segments-extract_fields no_fields segs = sym (append-nil segs)
  segments-extract_fields (field key v fs) segs =
      segments-extract_fields fs (extract_binaries v segs).1
      ∙ rw
          (
            segments-extract_binaries v segs,
            append_assoc segs (segments_of v) (segments_of_fields fs),
          )
          refl
