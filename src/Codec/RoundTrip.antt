-- ===== src/Codec/RoundTrip.antt =====
-- Encoding and decoding of a whole message, under what MessagePack documents.
use camera_ui_rpc.Base.{
  ℕ, ◌+◌, ◌-◌, ◌^◌, ◌<◌, ◌≡◌, ◌≢◌, refl, sym, ap, ◌∙◌, List, [], ◌∷◌, ◌++◌, length, drop, slice,
  concat, ltb, nat_eq, true, false, if◌then◌else◌, arith, length-append, drop-drop, drop-append,
  take-append,
}
use mathlib.Core.List.{append_assoc, append-nil}
use camera_ui_rpc.Base.Result.{Result, ok, err, value_error, ok_injective}
use camera_ui_rpc.Codec.Values.{Value, object}
use camera_ui_rpc.Codec.Extract.{extract_binaries, value_or}
use camera_ui_rpc.Codec.Frame.{
  magic, header_size, le32, read_length, is_framed, frame, encode_extracted, encode_message,
  decode_frame, decode_message,
}
use camera_ui_rpc.Codec.Received.{plain, received, segments_of, NoPlaceholders}
use camera_ui_rpc.Codec.Extracted.{segments-extract_binaries}
use camera_ui_rpc.Codec.Unframed.{received-plain, extract_binaries-none}
use camera_ui_rpc.Codec.Sequential.{restore-extract}

-- What the codec relies on: unpacking gives back what was packed, with lists for tuples, bytes for
-- views, and texts for dates and times; a packed message whose first byte is a number below 128 is
-- that byte alone; and objects are refused. Integers of more than 64 bits are refused, too, so
-- that nothing is said of them here.
pub record MsgPack : Type 0 where
  pub packb : Value → Result (List ℕ)
  pub unpackb : List ℕ → Result Value
  pub unpackb-packb : (v : Value) (b : List ℕ) → packb v ≡ ok b → unpackb b ≡ ok (plain v)
  pub fixint_alone : (v : Value) (n : ℕ) (b : List ℕ) → packb v ≡ ok (n ∷ b) → n < 128 → b ≡ []
  pub objects_refused : (n : ℕ) (b : List ℕ) → packb (object n) ≢ ok b

le32_size : (n : ℕ) → length (le32 n) ≡ 4
unfolding le32
le32_size n = refl

read_length-frame : (n : ℕ) (rest : List ℕ) → read_length (magic ++ (le32 n ++ rest)) ≡ n
unfolding le32 read_length
read_length-frame n rest = omega arith

is_framed-frame : (n : ℕ) (rest : List ℕ) → is_framed (magic ++ (le32 n ++ rest)) ≡ true
unfolding le32 is_framed
is_framed-frame n rest = ground arith

size_frame :
    (n : ℕ) (rest : List ℕ) → length (magic ++ (le32 n ++ rest)) ≡ header_size + length rest
unfolding le32
size_frame n rest = omega arith

drop-header : (n : ℕ) (rest : List ℕ) → drop header_size (magic ++ (le32 n ++ rest)) ≡ rest
unfolding le32
drop-header n rest = refl

-- A frame whose segments stand in order, with `extra` bytes behind them.
decode_frame_lem :
    (m : MsgPack) (v : Value) (e extra : List ℕ)
    → NoPlaceholders v
    → m.packb (value_or v (extract_binaries v []).0) ≡ ok e
    → decode_message m.unpackb
        (magic ++ (le32 (length e) ++ (e ++ (concat (segments_of v) ++ extra))))
      ≡ (if nat_eq (length extra) 0 then ok (received v) else err value_error)
unfolding decode_message decode_frame
decode_frame_lem m v e extra p packed =
    let tail = concat (segments_of v) ++ extra in
    let payload = magic ++ (le32 (length e) ++ (e ++ tail)) in
    let body : drop header_size payload ≡ e ++ tail = drop-header (length e) (e ++ tail) in
    let base = header_size + length e in
    let size : length payload ≡ base + length (concat (segments_of v)) + length extra = omega (
      arith,
      size_frame (length e) (e ++ tail),
      length-append e tail,
      length-append (concat (segments_of v)) extra,
    ) in
    let fits : ltb (length payload) base ≡ false = ground arith in
    let envelope : slice payload header_size base ≡ e =
      rw ((let w : base - header_size ≡ length e = omega arith in w), body, take-append e tail)
        refl in
    let stands : drop base payload ≡ tail =
      sym (drop-drop header_size (length e) payload)
      ∙ ap (drop (length e)) body
      ∙ drop-append e tail in
    let restored = restore-extract v [] payload base extra p stands in
    let complete : nat_eq (base + length (concat (segments_of v))) (length payload)
        ≡ nat_eq (length extra) 0 =
      ground arith in
    rw
      (
        is_framed-frame (length e) (e ++ tail),
        read_length-frame (length e) (e ++ tail),
        fits,
        envelope,
        m.unpackb-packb (value_or v (extract_binaries v []).0) e packed,
        restored,
        complete,
      )
      refl

-- A packed message does not pass for a frame.
is_framed-packb : (m : MsgPack) (v : Value) (b : List ℕ) → m.packb v ≡ ok b → is_framed b ≡ false
unfolding is_framed
is_framed-packb m v [] h = refl
is_framed-packb m v (b0 ∷ []) h = refl
is_framed-packb m v (b0 ∷ b1 ∷ []) h = refl
is_framed-packb m v (b0 ∷ b1 ∷ b2 ∷ []) h = refl
is_framed-packb m v (b0 ∷ b1 ∷ b2 ∷ b3 ∷ rest) h =
    ground (arith, m.fixint_alone v b0 (b1 ∷ b2 ∷ b3 ∷ rest) h)

-- the envelope of a message: itself, with placeholders for its large binaries
abbrev pub sent : Value → Value
sent v = value_or v (extract_binaries v []).0

-- what stands on the wire for the envelope `e` and the segments
abbrev pub on_wire : List ℕ → List (List ℕ) → List ℕ
on_wire e [] = e
on_wire e (s ∷ ss) = magic ++ (le32 (length e) ++ (e ++ concat (s ∷ ss)))

framed_lem :
    (m : MsgPack) (v : Value) (ss : List (List ℕ)) (e : List ℕ)
    → (ss ≡ [] → sent v ≡ v)
    → m.packb (sent v) ≡ ok e
    → length e < 2 ^ 32
    → encode_extracted m.packb v (sent v) ss ≡ ok (on_wire e ss)
unfolding frame
framed_lem m v [] e same packed small = rw (sym (same refl)) packed
framed_lem m v (s ∷ ss) e same packed small =
    let fits : ltb (length e) (2 ^ 32) ≡ true = ground arith in rw (packed, fits) refl

-- A message whose envelope packs in less than 2^32 bytes is encoded as the packed envelope, behind
-- a header and before its large binaries in depth-first order if it has any.
pub encode_message_lem :
    (m : MsgPack) (v : Value) (e : List ℕ)
    → m.packb (sent v) ≡ ok e
    → length e < 2 ^ 32
    → encode_message m.packb v ≡ ok (on_wire e (segments_of v))
unfolding encode_message
encode_message_lem m v e packed small = rw (segments-extract_binaries v []) (
    framed_lem m v (segments_of v) e
      (λ none_large. ap (value_or v) (extract_binaries-none v [] none_large)) packed small)

decode_on_wire :
    (m : MsgPack) (v : Value) (ss : List (List ℕ)) (e : List ℕ)
    → segments_of v ≡ ss
    → NoPlaceholders v
    → m.packb (sent v) ≡ ok e
    → decode_message m.unpackb (on_wire e ss) ≡ ok (received v)
unfolding decode_message
decode_on_wire m v [] e found p packed =
    let whole : sent v ≡ v = ap (value_or v) (extract_binaries-none v [] found) in
    rw (is_framed-packb m (sent v) e packed, received-plain v found)
      (m.unpackb-packb (sent v) e packed ∙ rw whole refl)
decode_on_wire m v (s ∷ ss) e found p packed =
    let tail : concat (s ∷ ss) ≡ concat (segments_of v) ++ [] =
      ap concat (sym found) ∙ sym (append-nil (concat (segments_of v))) in
    ap (λ t. decode_message m.unpackb (magic ++ (le32 (length e) ++ (e ++ t)))) tail
    ∙ decode_frame_lem m v e [] p packed

-- A message that has no dictionary of the reserved shape, and whose envelope MessagePack packs
-- in less than 2^32 bytes, is encoded, and the encoding is decoded to the message that a receiver
-- is to get: large binaries as views, tuples as lists, dates and times as texts, members of an
-- `Enum` as their values, and else what was sent.
pub decode_message-encode_message :
    (m : MsgPack) (v : Value) (e : List ℕ)
    → NoPlaceholders v
    → m.packb (sent v) ≡ ok e
    → length e < 2 ^ 32
    → (b : List ℕ) × (encode_message m.packb v ≡ ok b)
      × (decode_message m.unpackb b ≡ ok (received v))
decode_message-encode_message m v e p packed small = (
  on_wire e (segments_of v),
  encode_message_lem m v e packed small,
  decode_on_wire m v (segments_of v) e refl p packed,
)

wire_extra :
    (e : List ℕ) (ss : List (List ℕ)) (extra : List ℕ)
    → ss ≢ []
    → on_wire e ss ++ extra ≡ magic ++ (le32 (length e) ++ (e ++ (concat ss ++ extra)))
wire_extra e [] extra some_large = absurd (some_large refl)
wire_extra e (s ∷ ss) extra some_large =
    rw
      (
        append_assoc (le32 (length e)) (e ++ concat (s ∷ ss)) extra,
        append_assoc e (concat (s ∷ ss)) extra,
      )
      refl

-- The encoding of a message that has large binaries and no dictionary of the reserved shape, with
-- more bytes behind it, is refused with a value error.
pub decode_message_trailing :
    (m : MsgPack) (v : Value) (e b : List ℕ) (n : ℕ) (extra : List ℕ)
    → NoPlaceholders v
    → segments_of v ≢ []
    → m.packb (sent v) ≡ ok e
    → length e < 2 ^ 32
    → encode_message m.packb v ≡ ok b
    → decode_message m.unpackb (b ++ n ∷ extra) ≡ err value_error
decode_message_trailing m v e b n extra p large packed small h =
    let wire : b ≡ on_wire e (segments_of v) =
      ok_injective (sym h ∙ encode_message_lem m v e packed small) in
    let more : nat_eq (length (n ∷ extra)) 0 ≡ false = ground arith in
    rw (wire, wire_extra e (segments_of v) (n ∷ extra) large)
      (decode_frame_lem m v e (n ∷ extra) p packed ∙ rw more refl)

-- A message without large binaries is encoded as MessagePack alone encodes it.
pub encode_message_plain :
    (packb : Value → Result (List ℕ)) (v : Value)
    → segments_of v ≡ []
    → encode_message packb v ≡ packb v
unfolding encode_message
encode_message_plain packb v none_large = rw (segments-extract_binaries v [], none_large) refl
