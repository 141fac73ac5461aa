-- ===== src/Codec/Tests.antt =====
-- The codec's theorems at concrete messages.
use camera_ui_rpc.Base.{
  ◌≢◌, ℕ, ◌+◌, ◌*◌, ◌/◌, ◌%◌, ◌<◌, ◌≡◌, refl, sym, String, List, [], ◌∷◌, some, length, replicate,
  Bool, true, false, ◌&&◌, ◌==◌, String_eq, if◌then◌else◌, arith, length-replicate, eq_of_same,
}
use camera_ui_rpc.Base.Result.{Result, ok, err, value_error, type_error, ok_injective}
use camera_ui_rpc.Codec.Values.{
  object, Value, bytes, int, pos, dict, Fields, field, no_fields, text_key, placeholder_key,
  placeholder,
}
use camera_ui_rpc.Codec.Extract.{as_extractable_segment, extract_binaries}
use camera_ui_rpc.Codec.Frame.{encode_message, decode_message}
use camera_ui_rpc.Codec.Received.{plain, received, segments_of, NoPlaceholders}
use camera_ui_rpc.Codec.RoundTrip.{MsgPack, sent, decode_message-encode_message}

-- a packer of one kind of value, the dictionary that stands for a binary
pack_fields : Fields → Result (List ℕ)
pack_fields (field (text_key a) (int (pos i)) (field (text_key b) (int (pos n)) no_fields)) =
    if (a == placeholder_key) && (b == "l")
    then ok (130 ∷ i ∷ n % 256 ∷ n / 256 ∷ [])
    else err type_error
pack_fields _ = err type_error

pack : Value → Result (List ℕ)
unfolding pack_fields
pack (dict fs) = pack_fields fs
pack _ = err type_error

unpack : List ℕ → Result Value
unpack (first ∷ i ∷ low ∷ high ∷ []) = ok (placeholder i (low + 256 * high))
unpack _ = err value_error

unpack-pack_two :
    (a b : String) (i n : ℕ) (bs : List ℕ)
    → pack_fields (field (text_key a) (int (pos i)) (field (text_key b) (int (pos n)) no_fields))
      ≡ ok bs
    → unpack bs
      ≡ ok (dict (field (text_key a) (int (pos i)) (field (text_key b) (int (pos n)) no_fields)))
unfolding pack_fields unpack
unpack-pack_two a b i n bs h =
    let (a_is, b_is, bs_is) =
      keys_of (a == placeholder_key) (b == "l") (130 ∷ i ∷ n % 256 ∷ n / 256 ∷ []) bs h in
    let digits : n % 256 + 256 * (n / 256) ≡ n = omega arith in
    rw (sym bs_is, digits, eq_of_same a placeholder_key a_is, eq_of_same b "l" b_is) refl
  where
    keys_of :
        (p q : Bool) (x y : List ℕ)
        → (if p && q then ok x else err type_error) ≡ ok y
        → (p ≡ true) × (q ≡ true) × (x ≡ y)
    keys_of true true x y h = (refl, refl, ok_injective h)
    keys_of true false x y h = cc h
    keys_of false q x y h = cc h

unpack-pack_fields :
    (fs : Fields) (b : List ℕ) → pack_fields fs ≡ ok b → unpack b ≡ ok (plain (dict fs))
unfolding pack_fields plain
unpack-pack_fields (field (text_key a) (int (pos i)) (field (text_key b) (int (pos n)) no_fields))
      bs h =
    unpack-pack_two a b i n bs h
unpack-pack_fields fs b h = cc h

unpack-pack : (v : Value) (b : List ℕ) → pack v ≡ ok b → unpack b ≡ ok (plain v)
unfolding pack
unpack-pack (dict fs) b h = unpack-pack_fields fs b h
unpack-pack v b h = cc h

pack_first : (fs : Fields) (n : ℕ) (b : List ℕ) → pack_fields fs ≡ ok (n ∷ b) → n ≡ 130
unfolding pack_fields
pack_first (field (text_key a) (int (pos i)) (field (text_key c) (int (pos k)) no_fields)) n b h =
    ground arith
pack_first fs n b h = cc h

pack-fixint_alone : (v : Value) (n : ℕ) (b : List ℕ) → pack v ≡ ok (n ∷ b) → n < 128 → b ≡ []
unfolding pack
pack-fixint_alone (dict fs) n b h small = absurd (omega (arith, pack_first fs n b h))
pack-fixint_alone v n b h small = cc h

pack-objects_refused : (n : ℕ) (b : List ℕ) → pack (object n) ≢ ok b
unfolding pack
pack-objects_refused n b h = cc h

abbrev small_packer : MsgPack
small_packer = record {
  packb = pack;
  unpackb = unpack;
  unpackb-packb = unpack-pack;
  fixint_alone = pack-fixint_alone;
  objects_refused = pack-objects_refused;
}

unfoldable large : List ℕ
large = replicate 16384 7

length-large : length large ≡ 16384
unfolding large
length-large = length-replicate {A = ℕ} 16384 7

extract_large : (b : List ℕ) → length b ≡ 16384 → as_extractable_segment b ≡ some b
unfolding as_extractable_segment
extract_large b h = ground arith

large-extracted : as_extractable_segment large ≡ some large
large-extracted = extract_large large length-large

abbrev envelope : List ℕ
envelope = 130 ∷ 0 ∷ length large % 256 ∷ length large / 256 ∷ []

packed : pack (sent (bytes large)) ≡ ok envelope
unfolding pack pack_fields extract_binaries
packed = rw large-extracted refl

large-segments_of : segments_of (bytes large) ≡ large ∷ []
unfolding segments_of
large-segments_of = rw large-extracted refl

decode_message-encode_message_example :
    (b : List ℕ) × (encode_message pack (bytes large) ≡ ok b)
    × (decode_message unpack b ≡ ok (received (bytes large)))
unfolding NoPlaceholders
decode_message-encode_message_example =
    decode_message-encode_message small_packer (bytes large) envelope tt packed (omega arith)
