-- ===== src/Codec/Frame.antt =====
-- `encode_message` and `decode_message` of codec.py. The MessagePack library is a parameter:
-- `packb` and `unpackb` are ormsgpack's functions with the options and hooks that codec.py gives.
use camera_ui_rpc.Base.{
  ℕ, ◌+◌, ◌*◌, ◌/◌, ◌%◌, ◌^◌, Bool, false, ◌&&◌, List, [], ◌∷◌, ◌++◌, length, slice, concat, ltb,
  leb, nat_eq, if◌then◌else◌,
}
use camera_ui_rpc.Base.Result.{Result, ok, err, value_error, struct_error, type_error, ◌>>=◌}
use camera_ui_rpc.Codec.Values.{Value, str, int, date, datetime, time, enum_int, enum_text}
use camera_ui_rpc.Codec.Extract.{extract_binaries, value_or}
use camera_ui_rpc.Codec.Restore.{RestoreState, restore_sequential}
use camera_ui_rpc.Codec.Remaining.{restore_remaining}

-- what ormsgpack is given to pack in place of a value that it does not know
abbrev pub default_handler : Value → Result Value
default_handler (enum_int n) = ok (int n)
default_handler (enum_text s) = ok (str s)
default_handler (date n iso) = ok (datetime n)
default_handler (time s) = ok (str s)
default_handler _ = err type_error

-- `b"CUIB"`
abbrev pub magic : List ℕ
magic = 67 ∷ 85 ∷ 73 ∷ 66 ∷ []

abbrev pub header_size : ℕ
header_size = 8

-- `struct.Struct("<I").pack`
unfoldable pub le32 : ℕ → List ℕ
le32 n = n % 256 ∷ (n / 256) % 256 ∷ (n / 65536) % 256 ∷ n / 16777216 ∷ []

abbrev pub pack_length : ℕ → Result (List ℕ)
pack_length n = if ltb n (2 ^ 32) then ok (le32 n) else err struct_error

-- `struct.Struct("<I").unpack_from(view, 4)`, of a view of at least eight bytes
unfoldable pub read_length : List ℕ → ℕ
read_length (m0 ∷ m1 ∷ m2 ∷ m3 ∷ b0 ∷ b1 ∷ b2 ∷ b3 ∷ rest) =
    b0 + 256 * b1 + 65536 * b2 + 16777216 * b3
read_length _ = 0

-- `data.startswith(_MAGIC)` on at least eight bytes
unfoldable pub is_framed : List ℕ → Bool
is_framed (a ∷ b ∷ c ∷ d ∷ rest) =
    leb 4 (length rest) && (nat_eq a 67 && (nat_eq b 85 && (nat_eq c 73 && nat_eq d 66)))
is_framed _ = false

module _ (packb : Value → Result (List ℕ)) where
  unfoldable pub frame : Value → List (List ℕ) → Result (List ℕ)
  unfolding le32
  frame transformed segments = do
    envelope ← packb transformed
    size ← pack_length (length envelope)
    ok (magic ++ (size ++ (envelope ++ concat segments)))

  abbrev pub encode_extracted : Value → Value → List (List ℕ) → Result (List ℕ)
  encode_extracted message transformed [] = packb message
  encode_extracted message transformed (segment ∷ segments) = frame transformed (segment ∷ segments)

  unfoldable pub encode_message : Value → Result (List ℕ)
  unfolding extract_binaries frame
  encode_message message =
      let (transformed, segments) = extract_binaries message [] in
      encode_extracted message (value_or message transformed) segments

-- what is left to do behind the sequential pass
abbrev pub finish_restore : List ℕ → Value × RestoreState → Result (Value × RestoreState)
finish_restore payload (envelope, state) =
    if state.out_of_order then restore_remaining envelope payload state else ok (envelope, state)

abbrev pub check_size : List ℕ → Value × RestoreState → Result Value
check_size payload (envelope, state) =
    if nat_eq state.offset (length payload) then ok envelope else err value_error

-- a framed payload
unfoldable pub decode_frame : (List ℕ → Result Value) → List ℕ → Result Value
unfolding read_length restore_sequential restore_remaining
decode_frame unpackb payload =
    let segment_base = header_size + read_length payload in
    if ltb (length payload) segment_base
    then err value_error
    else unpackb (slice payload header_size segment_base) >>= λ envelope.
        restore_sequential envelope payload
          (record { next = 0; offset = segment_base; out_of_order = false })
        >>= λ restored. finish_restore payload restored >>= λ finished. check_size payload finished

unfoldable pub decode_message : (List ℕ → Result Value) → List ℕ → Result Value
unfolding is_framed decode_frame
decode_message unpackb payload =
    if is_framed payload then decode_frame unpackb payload else unpackb payload
