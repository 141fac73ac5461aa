-- ===== src/Client/Dispatch/Tests.antt =====
-- A message from publish to its handler, at a concrete input.
use camera_ui_rpc.Base.{
  ℕ, zero, suc, ◌≡◌, ◌≢◌, ◌<◌, refl, sym, String, Bool, true, false, ◌&&◌, List, [], ◌∷◌, ◌==◌,
  String_eq, arith, eq_of_same, if◌then◌else◌,
}
use mathlib.Core.Bool.{false≢true}
use text.Mathlib.TextEquality.{eq_iff}
use camera_ui_rpc.Base.Result.{Result, ok, err, value_error, type_error, ok_injective}
use camera_ui_rpc.Base.Dict.{Dict, lookup}
use camera_ui_rpc.Codec.Values.{
  object, Value, bool, str, int, pos, dict, field, no_fields, text_key,
}
use camera_ui_rpc.Codec.Extract.{extract_binaries}
use camera_ui_rpc.Codec.Frame.{encode_message}
use camera_ui_rpc.Codec.Received.{plain, received, NoPlaceholders}
use camera_ui_rpc.Codec.RoundTrip.{MsgPack, sent}
use camera_ui_rpc.Chunking.Manager.Consistency.{new_manager-IsConsistent}
use camera_ui_rpc.Client.Publish.{Sent, TransferHeader, header_value, publish}
use camera_ui_rpc.Client.Dispatch.{new_receiver}
use camera_ui_rpc.Client.Dispatch.Received.{receive_all}
use camera_ui_rpc.Client.Dispatch.InOrder.{arrivals}
use camera_ui_rpc.Client.Dispatch.Transferred.{transfer_header}
use camera_ui_rpc.Client.Dispatch.Delivered.{message_delivered}

-- the keys and texts of the header of the transfer "t"
is_header : String → String → String → String → String → String → String → Bool
is_header a b c d e f g =
    (a == "type")
    && ((b == "chunked")
        && ((c == "transferId")
            && ((d == "t")
                && ((e == "totalChunks") && ((f == "totalSize") && (g == "chunkSize"))))))

-- a packer of Booleans and of the headers of one transfer
pack : Value → Result (List ℕ)
pack (bool b) = ok (200 ∷ (if b then 1 else 0) ∷ [])
pack
      (dict (
        field (text_key a) (str b) (
          field (text_key c) (str d) (
            field
              (text_key e)
              (int (pos x))
              (field (text_key f) (int (pos y)) (field (text_key g) (int (pos z)) no_fields)))))) =
    if is_header a b c d e f g then ok (201 ∷ x ∷ y ∷ z ∷ []) else err type_error
pack _ = err type_error

abbrev header_of : ℕ → ℕ → ℕ → TransferHeader
header_of x y z = record { transfer_id = "t"; total_chunks = x; total_size = y; chunk_size = z }

unpack : List ℕ → Result Value
unpack (first ∷ b ∷ []) = ok (bool (elim b [ zero ↦ false | suc n ↦ true ]))
unpack (first ∷ x ∷ y ∷ z ∷ []) = ok (header_value (header_of x y z))
unpack _ = err value_error

both_true : (p q : Bool) → (p && q) ≡ true → (p ≡ true) × (q ≡ true)
both_true true true h = (refl, refl)
both_true true false h = cc h
both_true false q h = cc h

if_ok :
    (q : Bool) (x y : List ℕ) → (if q then ok x else err type_error) ≡ ok y → (q ≡ true) × (x ≡ y)
if_ok true x y h = (refl, ok_injective h)
if_ok false x y h = cc h

unpack-header :
    (a b c d e f g : String) (x y z : ℕ) (bs : List ℕ)
    → (if is_header a b c d e f g then ok (201 ∷ x ∷ y ∷ z ∷ []) else err type_error) ≡ ok bs
    → unpack bs
      ≡ ok (
          dict (
            field (text_key a) (str b) (
              field (text_key c) (str d) (
                field (text_key e) (int (pos x)) (
                  field (text_key f) (int (pos y)) (field (text_key g) (int (pos z)) no_fields))))))
unfolding is_header unpack
unpack-header a b c d e f g x y z bs h =
    let (all, is_bs) = if_ok (is_header a b c d e f g) (201 ∷ x ∷ y ∷ z ∷ []) bs h in
    let (a_is, h1) = both_true (a == "type") _ all in
    let (b_is, h2) = both_true (b == "chunked") _ h1 in
    let (c_is, h3) = both_true (c == "transferId") _ h2 in
    let (d_is, h4) = both_true (d == "t") _ h3 in
    let (e_is, h5) = both_true (e == "totalChunks") _ h4 in
    let (f_is, g_is) = both_true (f == "totalSize") _ h5 in
    rw
      (
        sym is_bs,
        eq_of_same a "type" a_is,
        eq_of_same b "chunked" b_is,
        eq_of_same c "transferId" c_is,
        eq_of_same d "t" d_is,
        eq_of_same e "totalChunks" e_is,
        eq_of_same f "totalSize" f_is,
        eq_of_same g "chunkSize" g_is,
      )
      refl

unpack-pack : (v : Value) (b : List ℕ) → pack v ≡ ok b → unpack b ≡ ok (plain v)
unfolding pack plain unpack
unpack-pack (bool true) bs h = rw (sym (ok_injective h)) refl
unpack-pack (bool false) bs h = rw (sym (ok_injective h)) refl
unpack-pack
      (dict (
        field (text_key a) (str b) (
          field (text_key c) (str d) (
            field
              (text_key e)
              (int (pos x))
              (field (text_key f) (int (pos y)) (field (text_key g) (int (pos z)) no_fields))))))
      bs h =
    unpack-header a b c d e f g x y z bs h
unpack-pack v bs h = cc h

pack-fixint_alone : (v : Value) (n : ℕ) (b : List ℕ) → pack v ≡ ok (n ∷ b) → n < 128 → b ≡ []
unfolding pack
pack-fixint_alone (bool v) n b h small = absurd (ground (arith, h))
pack-fixint_alone
      (dict (
        field (text_key a) (str b) (
          field (text_key c) (str d) (
            field
              (text_key e)
              (int (pos x))
              (field (text_key f) (int (pos y)) (field (text_key g) (int (pos z)) no_fields))))))
      n bs h small =
    let (all, is_bs) = if_ok (is_header a b c d e f g) (201 ∷ x ∷ y ∷ z ∷ []) (n ∷ bs) h in
    absurd (ground (arith, is_bs))
pack-fixint_alone v n b h small = cc h

pack-objects_refused : (n : ℕ) (b : List ℕ) → pack (object n) ≢ ok b
unfolding pack
pack-objects_refused n b h = cc h

abbrev two_kinds : MsgPack
two_kinds = record {
  packb = pack;
  unpackb = unpack;
  unpackb-packb = unpack-pack;
  fixint_alone = pack-fixint_alone;
  objects_refused = pack-objects_refused;
}

abbrev header_bytes : TransferHeader → List ℕ
header_bytes h = 201 ∷ h.total_chunks ∷ h.total_size ∷ h.chunk_size ∷ []

packs :
    (encoded : List ℕ)
    → encode_message pack (bool true) ≡ ok encoded
    → pack (header_value (transfer_header encoded "t" 1))
      ≡ ok (header_bytes (transfer_header encoded "t" 1))
unfolding pack is_header
packs encoded h = refl

packed : pack (sent (bool true)) ≡ ok (200 ∷ 1 ∷ [])
unfolding pack extract_binaries
packed = refl

abbrev t : String
t = "t"

named : t ≢ ""
named h = false≢true ((eq_iff "t" "").1 h)

-- two bytes in chunks of one
message_delivered_example :
    (encoded : List ℕ) × (encode_message pack (bool true) ≡ ok encoded)
    × (out : List Sent × Dict String String) × (publish true encoded "t" 1 [] ≡ ok out)
    × ((receive_all (λ n. true) unpack 1 (arrivals header_bytes (λ t. t) 0 out.0) new_receiver).1
        ≡ received (bool true) ∷ [])
unfolding NoPlaceholders lookup
message_delivered_example =
    message_delivered two_kinds (λ n. true) 0 (bool true) (200 ∷ 1 ∷ []) "t" 1 [] header_bytes
      (λ t. t) new_receiver tt packed (omega arith) (omega arith) named refl packs
      (λ t. omega arith) new_manager-IsConsistent refl
