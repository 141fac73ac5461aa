-- ===== src/Codec/Remaining.antt =====
-- The fallback of codec.py for placeholders that stand out of order: the lengths by index, the
-- views on the segments, and the pass that puts the views in place.
use camera_ui_rpc.Base.{
  ℕ, zero, suc, ◌+◌, ◌-◌, Option, none, some, List, [], ◌∷◌, length, slice, ltb, ℕ_eq,
  if◌then◌else◌,
}
use camera_ui_rpc.Base.Result.{Result, ok, err, value_error, key_error, ◌>>=◌, or_raise}
use camera_ui_rpc.Base.Dict.{Dict, lookup, insert}
use camera_ui_rpc.Codec.Values.{
  Value, memoryview, list, dict, Items, no_items, item, Fields, no_fields, field, placeholder_of,
}
use camera_ui_rpc.Codec.Restore.{RestoreState}

abbrev pub collect_dict : Option (ℕ × ℕ) → Dict ℕ ℕ → Dict ℕ ℕ → Dict ℕ ℕ
collect_dict none lengths below = below
collect_dict (some (index, size)) lengths below = insert index size lengths

unfoldable mutual
  unfolding placeholder_of

  pub collect_segment_lengths : Value → Dict ℕ ℕ → Dict ℕ ℕ
  collect_segment_lengths (dict fs) lengths =
      let below = collect_fields fs lengths in collect_dict (placeholder_of fs) lengths below
  collect_segment_lengths (list xs) lengths = collect_items xs lengths
  collect_segment_lengths value lengths = lengths

  pub collect_items : Items → Dict ℕ ℕ → Dict ℕ ℕ
  collect_items no_items lengths = lengths
  collect_items (item x xs) lengths = collect_items xs (collect_segment_lengths x lengths)

  pub collect_fields : Fields → Dict ℕ ℕ → Dict ℕ ℕ
  collect_fields no_fields lengths = lengths
  collect_fields (field key v fs) lengths = collect_fields fs (collect_segment_lengths v lengths)

abbrev pub place_dict : Option (ℕ × ℕ) → Dict ℕ (List ℕ) → Result Fields → Result Value
place_dict none views below = below >>= λ fs. ok (dict fs)
place_dict (some (index, size)) views below =
    or_raise (lookup index views) key_error >>= λ view. ok (memoryview view)

unfoldable mutual
  unfolding placeholder_of

  pub restore_by_index : Value → Dict ℕ (List ℕ) → Result Value
  restore_by_index (dict fs) views =
      let below = place_fields fs views in place_dict (placeholder_of fs) views below
  restore_by_index (list xs) views = place_items xs views >>= λ xs'. ok (list xs')
  restore_by_index value views = ok value

  pub place_items : Items → Dict ℕ (List ℕ) → Result Items
  place_items no_items views = ok no_items
  place_items (item x xs) views =
      restore_by_index x views >>= λ x'. place_items xs views >>= λ xs'. ok (item x' xs')

  pub place_fields : Fields → Dict ℕ (List ℕ) → Result Fields
  place_fields no_fields views = ok no_fields
  place_fields (field key v fs) views =
      restore_by_index v views >>= λ v'. place_fields fs views >>= λ fs'. ok (field key v' fs')

-- `max(lengths) + 1`, or 0 without lengths
unfoldable pub count_to : Dict ℕ ℕ → ℕ
count_to [] = 0
count_to ((index, size) ∷ lengths) =
    let others = count_to lengths in if ltb others (suc index) then suc index else others

-- the loop over the segments `i, i + 1, …`, `n` of them, the first at `offset`
unfoldable pub cut_views :
    Dict ℕ ℕ → List ℕ → ℕ → ℕ → ℕ → Dict ℕ (List ℕ) → Result (Dict ℕ (List ℕ) × ℕ)
cut_views lengths payload i zero offset views = ok (views, offset)
cut_views lengths payload i (suc n) offset views =
    or_raise (lookup i lengths) value_error >>= λ size.
    if ltb (length payload) (offset + size)
    then err value_error
    else cut_views lengths payload (suc i) n (offset + size)
        (insert i (slice payload offset (offset + size)) views)

unfoldable pub restore_remaining : Value → List ℕ → RestoreState → Result (Value × RestoreState)
unfolding collect_segment_lengths cut_views count_to restore_by_index
restore_remaining envelope payload state =
    let lengths = collect_segment_lengths envelope [] in
    cut_views lengths payload state.next (count_to lengths - state.next) state.offset []
    >>= λ (views, offset).
        restore_by_index envelope views >>= λ value. ok (value, record state { offset = offset })
