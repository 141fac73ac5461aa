-- ===== src/Codec/Sequential.antt =====
-- The sequential restore pass undoes extraction.
use camera_ui_rpc.Base.{
  ℕ, suc, ◌+◌, ◌≤◌, ◌≡◌, refl, sym, ap, ap₂, ◌∙◌, Option, none, some, List, [], ◌∷◌, ◌++◌, length,
  drop, concat, arith, length-append,
}
use mathlib.Core.List.{append-nil}
use camera_ui_rpc.Base.Result.{ok}
use camera_ui_rpc.Codec.Values.{
  Value, null, bool, int, float, str, bytes, memoryview, datetime, date, time, enum_int, enum_text,
  object, list, tuple, dict, Items, no_items, item, Fields, no_fields, field, text_key,
  placeholder_key, pos,
}
use camera_ui_rpc.Codec.Extract.{
  as_extractable_segment, extract_binaries, extract_items, extract_fields, value_or, items_or,
  fields_or, as_list, as_dict, extract_segment,
}
use camera_ui_rpc.Codec.Restore.{
  restore_sequential, restore_items, restore_fields, take_segment, rebuilt_list, rebuilt_dict,
}
use camera_ui_rpc.Codec.Received.{
  plain, plain_items, plain_fields, received, received_items, received_fields, received_binary,
  segments_of, segments_of_items, segments_of_fields, one_segment, NoPlaceholders,
  NoPlaceholderItems, NoPlaceholderFields,
}
use camera_ui_rpc.Codec.Extracted.{
  items_or-copy_items, fields_or-copy_fields, segments-extract_binaries,
}
use camera_ui_rpc.Codec.Shape.{placeholder_of-extract_fields}
use camera_ui_rpc.Codec.Segments.{
  in_order, behind, behind_none, behind-append, StandsAt, stands_left, stands_right,
  take_segment_lem,
}

-- the fields of a placeholder
abbrev placeholder_fields : ℕ → ℕ → Fields
placeholder_fields index size =
    field (text_key placeholder_key) (int (pos index))
      (field (text_key "l") (int (pos size)) no_fields)

list_or :
    (o : Option Items) (xs : Items)
    → plain (value_or (list xs) (as_list o)) ≡ list (plain_items (items_or xs o))
unfolding plain
list_or none xs = refl
list_or (some ys) xs = refl

tuple_or :
    (o : Option Items) (xs : Items)
    → plain (value_or (tuple xs) (as_list o)) ≡ list (plain_items (items_or xs o))
unfolding plain
tuple_or none xs = refl
tuple_or (some ys) xs = refl

dict_or :
    (o : Option Fields) (fs : Fields)
    → plain (value_or (dict fs) (as_dict o)) ≡ dict (plain_fields (fields_or fs o))
unfolding plain
dict_or none fs = refl
dict_or (some gs) fs = refl

next_segment :
    (x : Value) (segs : List (List ℕ))
    → length (extract_binaries x segs).1 ≡ length segs + length (segments_of x)
next_segment x segs = rw (segments-extract_binaries x segs) (length-append segs (segments_of x))

behind_both :
    (x : Value) (segs : List (List ℕ)) (at : ℕ) (ss : List (List ℕ))
    → behind (length (extract_binaries x segs).1) (at + length (concat (segments_of x))) ss
      ≡ behind (length segs) at (segments_of x ++ ss)
behind_both x segs at ss =
    ap (λ n. behind n (at + length (concat (segments_of x))) ss) (next_segment x segs)
    ∙ behind-append (length segs) at (segments_of x) ss

-- a binary, small or moved out of band
restore_binary :
    (o : Option (List ℕ)) (b : List ℕ) (v : Value) (segs : List (List ℕ)) (payload : List ℕ)
    (at : ℕ) (rest : List ℕ)
    → plain v ≡ bytes b
    → ((s : List ℕ) → o ≡ some s → 1 ≤ length s)
    → StandsAt payload at (one_segment o) rest
    → restore_sequential
        (plain (value_or v (extract_segment o segs).0))
        payload
        (in_order (length segs) at)
      ≡ ok (received_binary b o, behind (length segs) at (one_segment o))
unfolding restore_sequential take_segment plain
restore_binary none b v segs payload at rest e large h =
    rw e (ap (λ s. ok (bytes b, s)) (behind_none (length segs) at))
restore_binary (some s) b v segs payload at rest e large h =
    let bytes_at : drop at payload ≡ s ++ rest = h ∙ rw (append-nil s) refl in
    let after : in_order (suc (length segs)) (at + length s) ≡ behind (length segs) at (s ∷ []) =
      ap₂ in_order (omega arith) (rw (append-nil s) refl) in
    take_segment_lem (placeholder_fields (length segs) (length s)) payload (length segs) at s rest
      (large s refl) bytes_at
    ∙ ap (λ s'. ok (memoryview s, s')) after

large_segment : (b s : List ℕ) → as_extractable_segment b ≡ some s → 1 ≤ length s
unfolding as_extractable_segment
large_segment b s h = ground arith

mutual
  unfolding restore_sequential extract_binaries plain received segments_of NoPlaceholders

  pub restore-extract :
      (v : Value) (segs : List (List ℕ)) (payload : List ℕ) (at : ℕ) (rest : List ℕ)
      → NoPlaceholders v
      → StandsAt payload at (segments_of v) rest
      → restore_sequential
          (plain (value_or v (extract_binaries v segs).0))
          payload
          (in_order (length segs) at)
        ≡ ok (received v, behind (length segs) at (segments_of v))
  restore-extract (bytes b) segs payload at rest p h =
      restore_binary (as_extractable_segment b) b (bytes b) segs payload at rest refl
        (large_segment b) h
  restore-extract (memoryview b) segs payload at rest p h =
      restore_binary (as_extractable_segment b) b (memoryview b) segs payload at rest refl
        (large_segment b) h
  restore-extract (list xs) segs payload at rest p h =
      rw (list_or (extract_items xs segs).0 xs)
        (ap rebuilt_list (restore-extract_items xs segs payload at rest p h))
  restore-extract (tuple xs) segs payload at rest p h =
      rw (tuple_or (extract_items xs segs).0 xs)
        (ap rebuilt_list (restore-extract_items xs segs payload at rest p h))
  restore-extract (dict fs) segs payload at rest p h =
      rw (dict_or (extract_fields fs segs).0 fs, placeholder_of-extract_fields fs segs, p.0)
        (ap rebuilt_dict (restore-extract_fields fs segs payload at rest p.1 h))
  restore-extract null segs payload at rest p h =
      ap (λ s. ok (null, s)) (behind_none (length segs) at)
  restore-extract (bool b) segs payload at rest p h =
      ap (λ s. ok (bool b, s)) (behind_none (length segs) at)
  restore-extract (int n) segs payload at rest p h =
      ap (λ s. ok (int n, s)) (behind_none (length segs) at)
  restore-extract (float n) segs payload at rest p h =
      ap (λ s. ok (float n, s)) (behind_none (length segs) at)
  restore-extract (str t) segs payload at rest p h =
      ap (λ s. ok (str t, s)) (behind_none (length segs) at)
  restore-extract (datetime n) segs payload at rest p h =
      ap (λ s. ok (datetime n, s)) (behind_none (length segs) at)
  restore-extract (date n iso) segs payload at rest p h =
      ap (λ s. ok (str iso, s)) (behind_none (length segs) at)
  restore-extract (time t) segs payload at rest p h =
      ap (λ s. ok (str t, s)) (behind_none (length segs) at)
  restore-extract (enum_int n) segs payload at rest p h =
      ap (λ s. ok (int n, s)) (behind_none (length segs) at)
  restore-extract (enum_text t) segs payload at rest p h =
      ap (λ s. ok (str t, s)) (behind_none (length segs) at)
  restore-extract (object n) segs payload at rest p h =
      ap (λ s. ok (object n, s)) (behind_none (length segs) at)

  restore-extract_items :
      (xs : Items) (segs : List (List ℕ)) (payload : List ℕ) (at : ℕ) (rest : List ℕ)
      → NoPlaceholderItems xs
      → StandsAt payload at (segments_of_items xs) rest
      → restore_items
          (plain_items (items_or xs (extract_items xs segs).0))
          payload
          (in_order (length segs) at)
        ≡ ok (received_items xs, behind (length segs) at (segments_of_items xs))
  restore-extract_items no_items segs payload at rest p h =
      ap (λ s. ok (no_items, s)) (behind_none (length segs) at)
  restore-extract_items (item x xs) segs payload at rest p h =
      let segs' = (extract_binaries x segs).1 in
      let shape = items_or-copy_items x xs (extract_binaries x segs).0 (extract_items xs segs').0 in
      let first =
        restore-extract x segs payload at (concat (segments_of_items xs) ++ rest) p.0
          (stands_left payload at (segments_of x) (segments_of_items xs) rest h) in
      let second =
        restore-extract_items xs segs' payload (at + length (concat (segments_of x))) rest p.1
          (stands_right payload at (segments_of x) (segments_of_items xs) rest h) in
      rw (shape, first, sym (next_segment x segs))
        (rw second (
          ap (λ s. ok (item (received x) (received_items xs), s))
            (behind_both x segs at (segments_of_items xs))))

  restore-extract_fields :
      (fs : Fields) (segs : List (List ℕ)) (payload : List ℕ) (at : ℕ) (rest : List ℕ)
      → NoPlaceholderFields fs
      → StandsAt payload at (segments_of_fields fs) rest
      → restore_fields
          (plain_fields (fields_or fs (extract_fields fs segs).0))
          payload
          (in_order (length segs) at)
        ≡ ok (received_fields fs, behind (length segs) at (segments_of_fields fs))
  restore-extract_fields no_fields segs payload at rest p h =
      ap (λ s. ok (no_fields, s)) (behind_none (length segs) at)
  restore-extract_fields (field key v fs) segs payload at rest p h =
      let segs' = (extract_binaries v segs).1 in
      let shape =
        fields_or-copy_fields key v fs (extract_binaries v segs).0 (extract_fields fs segs').0 in
      let first =
        restore-extract v segs payload at (concat (segments_of_fields fs) ++ rest) p.0
          (stands_left payload at (segments_of v) (segments_of_fields fs) rest h) in
      let second =
        restore-extract_fields fs segs' payload (at + length (concat (segments_of v))) rest p.1
          (stands_right payload at (segments_of v) (segments_of_fields fs) rest h) in
      rw (shape, first, sym (next_segment v segs))
        (rw second (
          ap (λ s. ok (field key (received v) (received_fields fs), s))
            (behind_both v segs at (segments_of_fields fs))))
