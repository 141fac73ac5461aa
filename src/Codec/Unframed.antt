-- ===== src/Codec/Unframed.antt =====
-- Messages without large binaries: what is received is what MessagePack keeps.
use camera_ui_rpc.Base.{ℕ, ◌≡◌, refl, ap, ap₂, Option, none, some, List, [], ◌∷◌, ◌++◌}
use camera_ui_rpc.Codec.Values.{
  Value, null, bool, int, float, str, bytes, memoryview, datetime, date, time, enum_int, enum_text,
  object, list, tuple, dict, Items, no_items, item, Fields, no_fields, field,
}
use camera_ui_rpc.Codec.Extract.{
  as_extractable_segment, extract_binaries, extract_items, extract_fields, extract_segment, as_list,
  as_dict, copy_items, copy_fields,
}
use camera_ui_rpc.Codec.Received.{
  plain, plain_items, plain_fields, received, received_items, received_fields, received_binary,
  segments_of, segments_of_items, segments_of_fields, one_segment,
}

append_none : {A : Type 0} (xs ys : List A) → xs ++ ys ≡ [] → (xs ≡ []) × (ys ≡ [])
append_none [] ys h = (refl, h)
append_none (x ∷ xs) ys h = cc h

small_binary :
    (o : Option (List ℕ)) (b : List ℕ) → one_segment o ≡ [] → received_binary b o ≡ bytes b
small_binary none b h = refl
small_binary (some s) b h = cc h

mutual
  unfolding plain received segments_of

  pub received-plain : (v : Value) → segments_of v ≡ [] → received v ≡ plain v
  received-plain (bytes b) h = small_binary (as_extractable_segment b) b h
  received-plain (memoryview b) h = small_binary (as_extractable_segment b) b h
  received-plain (list xs) h = ap list (received-plain_items xs h)
  received-plain (tuple xs) h = ap list (received-plain_items xs h)
  received-plain (dict fs) h = ap dict (received-plain_fields fs h)
  received-plain null h = refl
  received-plain (bool b) h = refl
  received-plain (int n) h = refl
  received-plain (float n) h = refl
  received-plain (str s) h = refl
  received-plain (datetime n) h = refl
  received-plain (date n iso) h = refl
  received-plain (time s) h = refl
  received-plain (enum_int n) h = refl
  received-plain (enum_text s) h = refl
  received-plain (object n) h = refl

  received-plain_items :
      (xs : Items) → segments_of_items xs ≡ [] → received_items xs ≡ plain_items xs
  received-plain_items no_items h = refl
  received-plain_items (item x xs) h =
      let parts = append_none (segments_of x) (segments_of_items xs) h in
      ap₂ item (received-plain x parts.0) (received-plain_items xs parts.1)

  received-plain_fields :
      (fs : Fields) → segments_of_fields fs ≡ [] → received_fields fs ≡ plain_fields fs
  received-plain_fields no_fields h = refl
  received-plain_fields (field key v fs) h =
      let parts = append_none (segments_of v) (segments_of_fields fs) h in
      ap₂ (field key) (received-plain v parts.0) (received-plain_fields fs parts.1)

small_untouched :
    (o : Option (List ℕ)) (segs : List (List ℕ))
    → one_segment o ≡ []
    → (extract_segment o segs).0 ≡ none
small_untouched none segs h = refl
small_untouched (some s) segs h = cc h

-- A message without large binaries is not copied: the result is the same object.
mutual
  unfolding extract_binaries segments_of

  pub extract_binaries-none :
      (v : Value) (segs : List (List ℕ)) → segments_of v ≡ [] → (extract_binaries v segs).0 ≡ none
  extract_binaries-none (bytes b) segs h = small_untouched (as_extractable_segment b) segs h
  extract_binaries-none (memoryview b) segs h = small_untouched (as_extractable_segment b) segs h
  extract_binaries-none (list xs) segs h = ap as_list (extract_items-none xs segs h)
  extract_binaries-none (tuple xs) segs h = ap as_list (extract_items-none xs segs h)
  extract_binaries-none (dict fs) segs h = ap as_dict (extract_fields-none fs segs h)
  extract_binaries-none null segs h = refl
  extract_binaries-none (bool b) segs h = refl
  extract_binaries-none (int n) segs h = refl
  extract_binaries-none (float n) segs h = refl
  extract_binaries-none (str s) segs h = refl
  extract_binaries-none (datetime n) segs h = refl
  extract_binaries-none (date n iso) segs h = refl
  extract_binaries-none (time s) segs h = refl
  extract_binaries-none (enum_int n) segs h = refl
  extract_binaries-none (enum_text s) segs h = refl
  extract_binaries-none (object n) segs h = refl

  extract_items-none :
      (xs : Items) (segs : List (List ℕ))
      → segments_of_items xs ≡ []
      → (extract_items xs segs).0 ≡ none
  extract_items-none no_items segs h = refl
  extract_items-none (item x xs) segs h =
      let parts = append_none (segments_of x) (segments_of_items xs) h in
      ap₂ (copy_items x xs) (extract_binaries-none x segs parts.0)
        (extract_items-none xs (extract_binaries x segs).1 parts.1)

  extract_fields-none :
      (fs : Fields) (segs : List (List ℕ))
      → segments_of_fields fs ≡ []
      → (extract_fields fs segs).0 ≡ none
  extract_fields-none no_fields segs h = refl
  extract_fields-none (field key v fs) segs h =
      let parts = append_none (segments_of v) (segments_of_fields fs) h in
      ap₂ (copy_fields key v fs) (extract_binaries-none v segs parts.0)
        (extract_fields-none fs (extract_binaries v segs).1 parts.1)
