-- ===== src/Codec/Restore.antt =====
-- The restore passes of codec.py over a decoded envelope.
use camera_ui_rpc.Base.{
  ℕ, suc, ◌+◌, Bool, true, ◌||◌, not, Option, none, some, List, length, slice, ltb, nat_eq, ℕ_eq,
  if◌then◌else◌,
}
use camera_ui_rpc.Base.Result.{Result, ok, err, value_error, ◌>>=◌}
use camera_ui_rpc.Codec.Values.{
  Value, memoryview, list, dict, Items, no_items, item, Fields, no_fields, field, placeholder_of,
}

-- the next expected segment, where it starts, and whether one came out of order
pub record RestoreState : Type 0 where
  pub next : ℕ
  pub offset : ℕ
  pub out_of_order : Bool

-- a placeholder that the sequential pass meets
unfoldable pub take_segment : Fields → ℕ → ℕ → List ℕ → RestoreState → Result (Value × RestoreState)
take_segment fs index size payload state =
    if state.out_of_order || not (nat_eq index state.next)
    then ok (dict fs, record state { out_of_order = true })
    else let end = state.offset + size in
      if ltb (length payload) end
      then err value_error
      else ok (
        memoryview (slice payload state.offset end),
        record state { next = suc state.next; offset = end },
      )

abbrev pub rebuilt_list : Result (Items × RestoreState) → Result (Value × RestoreState)
rebuilt_list (err e) = err e
rebuilt_list (ok (xs, state)) = ok (list xs, state)

abbrev pub rebuilt_dict : Result (Fields × RestoreState) → Result (Value × RestoreState)
rebuilt_dict (err e) = err e
rebuilt_dict (ok (fs, state)) = ok (dict fs, state)

-- a dictionary: a placeholder, or else whatever its fields are restored to
abbrev pub restore_dict :
    Option (ℕ × ℕ)
    → Fields
    → List ℕ
    → RestoreState
    → Result (Fields × RestoreState)
    → Result (Value × RestoreState)
restore_dict none fs payload state below = rebuilt_dict below
restore_dict (some (index, size)) fs payload state below = take_segment fs index size payload state

unfoldable mutual
  unfolding placeholder_of

  pub restore_sequential : Value → List ℕ → RestoreState → Result (Value × RestoreState)
  restore_sequential (dict fs) payload state =
      let below = restore_fields fs payload state in
      restore_dict (placeholder_of fs) fs payload state below
  restore_sequential (list xs) payload state = rebuilt_list (restore_items xs payload state)
  restore_sequential value payload state = ok (value, state)

  pub restore_items : Items → List ℕ → RestoreState → Result (Items × RestoreState)
  restore_items no_items payload state = ok (no_items, state)
  restore_items (item x xs) payload state = restore_sequential x payload state >>= λ (x', before).
      restore_items xs payload before >>= λ (xs', after). ok (item x' xs', after)

  pub restore_fields : Fields → List ℕ → RestoreState → Result (Fields × RestoreState)
  restore_fields no_fields payload state = ok (no_fields, state)
  restore_fields (field key v fs) payload state =
      restore_sequential v payload state >>= λ (v', before).
      restore_fields fs payload before >>= λ (fs', after). ok (field key v' fs', after)
