-- ===== src/Client/Dispatch/Delivered.antt =====
-- From publish of one client to message_handler of another, both in client.py.
use camera_ui_rpc.Base.{
  ℕ, zero, suc, ◌+◌, ◌*◌, ◌^◌, ◌≤◌, ◌<◌, String, ◌≡◌, ◌≢◌, refl, ap, ◌∙◌, Bool, true, none, List,
  [], ◌∷◌, leb, arith, length, ℕ_eq, String_eq, Bool-cases, inl, inr,
}
use camera_ui_rpc.Base.Result.{ok}
use camera_ui_rpc.Base.Dict.{Dict, lookup}
use camera_ui_rpc.Codec.Values.{Value}
use camera_ui_rpc.Codec.Frame.{encode_message, decode_message}
use camera_ui_rpc.Codec.Received.{received, NoPlaceholders}
use camera_ui_rpc.Codec.RoundTrip.{MsgPack, sent, decode_message-encode_message}
use camera_ui_rpc.Chunking.Chunks.{chunks_from, count_chunks}
use camera_ui_rpc.Chunking.Cutting.{count_chunks_bounds, create_chunks_lem}
use camera_ui_rpc.Chunking.Manager.{stale_transfer_ttl}
use camera_ui_rpc.Chunking.Manager.Keeping.{IsConsistent}
use camera_ui_rpc.Client.Publish.{Sent, TransferHeader, header_value, whole, publish}
use camera_ui_rpc.Client.Publish.Lossless.{chunked, chunked_lem}
use camera_ui_rpc.Client.Dispatch.{Receiver}
use camera_ui_rpc.Client.Dispatch.Received.{receive_all}
use camera_ui_rpc.Client.Dispatch.InOrder.{arrivals}
use camera_ui_rpc.Client.Dispatch.Transferred.{transfer_header, chunked_delivered, whole_delivered}

some_chunk : (c total m : ℕ) → 0 < total → total ≤ c * m → (n : ℕ) × (c ≡ suc n)
some_chunk zero total m nonempty covered = absurd (omega arith)
some_chunk (suc n) total m nonempty covered = (n, refl)

-- Take a connected sender with a positive payload limit, and a subscription of a receiver whose
-- chunking manager is consistent and which has no assembled message waiting. The sender publishes
-- an encoded message, whole or cut into chunks, with a non-empty transfer id and without chunk
-- headers of its own; its messages reach the subscription in order, each within 30 seconds of the
-- one before it, with nothing in between. If the message decodes, then the subscription's handler
-- is called once, with the decoded message.
pub publish_delivered :
    (p : MsgPack) (allocates : ℕ → Bool) (k : ℕ) (encoded : List ℕ) (tid : String) (m : ℕ)
    (headers : Dict String String) (header_bytes : TransferHeader → List ℕ) (clock : ℕ → ℕ)
    (r : Receiver) (x : Value)
    → 0 < m
    → tid ≢ ""
    → lookup "x-chunked-transfer" headers ≡ none
    → p.packb (header_value (transfer_header encoded tid m))
      ≡ ok (header_bytes (transfer_header encoded tid m))
    → ((t : ℕ) → clock (suc t) ≤ clock t + stale_transfer_ttl)
    → IsConsistent r.manager
    → r.assembled (suc k) ≡ []
    → decode_message p.unpackb encoded ≡ ok x
    → (sent : List Sent × Dict String String) × (publish true encoded tid m headers ≡ ok sent)
      × ((receive_all allocates p.unpackb (suc k) (arrivals header_bytes clock 0 sent.0) r).1
          ≡ x ∷ [])
unfolding publish
publish_delivered p allocates k encoded tid m headers header_bytes clock r x positive named unmarked
      packed steady consistent idle decodes =
    elim (Bool-cases (leb (length encoded) m)) [
      | inl small ↦ (
        (whole encoded headers ∷ [], headers),
        rw small refl,
        whole_delivered p allocates k encoded tid m positive named headers header_bytes packed clock
            r x steady consistent idle decodes unmarked,
      )
      | inr large ↦
          let nonempty : 0 < length encoded = ground (arith, large) in
          let (n, counted) =
            some_chunk (count_chunks (length encoded) m) (length encoded) m nonempty
              (count_chunks_bounds (length encoded) m nonempty positive).0 in
          (
            chunked encoded tid m headers (chunks_from encoded tid m 0 (suc n)),
            rw large (
                chunked_lem encoded tid m headers (chunks_from encoded tid m 0 (suc n)) positive (
                  create_chunks_lem encoded tid m positive
                  ∙ ap (λ j. ok (chunks_from encoded tid m 0 j)) counted)),
            chunked_delivered p allocates k encoded tid m positive named headers header_bytes packed
                clock r x steady consistent idle decodes nonempty n counted,
          )
    ]

-- Take a connected sender with a positive payload limit, and a subscription of a receiver whose
-- chunking manager is consistent and which has no assembled message waiting. The sender publishes a
-- message that has no dictionary of the reserved shape, and whose envelope MessagePack packs in less
-- than 2^32 bytes, with a non-empty transfer id and without chunk headers of its own. It is encoded
-- and sent, whole or behind a header, which MessagePack packs for this encoding, and in chunks. If what was sent reaches the subscription in order, each
-- message within 30 seconds of the one before it and with nothing in between, then the
-- subscription's handler is called once, with the message that a receiver is to get.
pub message_delivered :
    (p : MsgPack) (allocates : ℕ → Bool) (k : ℕ) (v : Value) (e : List ℕ) (tid : String) (m : ℕ)
    (headers : Dict String String) (header_bytes : TransferHeader → List ℕ) (clock : ℕ → ℕ)
    (r : Receiver)
    → NoPlaceholders v
    → p.packb (sent v) ≡ ok e
    → length e < 2 ^ 32
    → 0 < m
    → tid ≢ ""
    → lookup "x-chunked-transfer" headers ≡ none
    → ((encoded : List ℕ)
        → encode_message p.packb v ≡ ok encoded
        → p.packb (header_value (transfer_header encoded tid m))
          ≡ ok (header_bytes (transfer_header encoded tid m)))
    → ((t : ℕ) → clock (suc t) ≤ clock t + stale_transfer_ttl)
    → IsConsistent r.manager
    → r.assembled (suc k) ≡ []
    → (encoded : List ℕ) × (encode_message p.packb v ≡ ok encoded)
      × (out : List Sent × Dict String String) × (publish true encoded tid m headers ≡ ok out)
      × ((receive_all allocates p.unpackb (suc k) (arrivals header_bytes clock 0 out.0) r).1
          ≡ received v ∷ [])
message_delivered p allocates k v e tid m headers header_bytes clock r plain_keys packed small
      positive named unmarked packs steady consistent idle =
    let (encoded, encodes, decodes) = decode_message-encode_message p v e plain_keys packed small in
    let (out, published, handed) =
      publish_delivered p allocates k encoded tid m headers header_bytes clock r (received v)
        positive named unmarked (packs encoded encodes) steady consistent idle decodes in
    (encoded, encodes, out, published, handed)
