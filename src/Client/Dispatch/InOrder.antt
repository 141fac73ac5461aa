-- ===== src/Client/Dispatch/InOrder.antt =====
-- The messages of a publishing as they arrive, in the order in which they were sent.
use camera_ui_rpc.Base.{
  ℕ, zero, suc, ◌+◌, ◌≤◌, String, ◌≡◌, refl, ap, ap₂, ◌∙◌, ◌&&◌, none, List, [], ◌∷◌, ◌++◌, map,
  ltb, leb, arith, length, ℕ_eq, String_eq,
}
use camera_ui_rpc.Base.Result.{err, value_error}
use camera_ui_rpc.Base.Dict.{Dict, lookup, contains}
use camera_ui_rpc.Chunking.Chunks.{ChunkData, chunks_from, chunk_at, count_chunks}
use camera_ui_rpc.Chunking.Cutting.{chunk_of}
use camera_ui_rpc.Chunking.Manager.{stale_transfer_ttl}
use camera_ui_rpc.Chunking.Manager.Arrivals.{InTime, indices}
use camera_ui_rpc.Client.Publish.{Sent, TransferHeader, whole, header, chunk, sent_chunk}
use camera_ui_rpc.Client.Dispatch.{Msg}
use camera_ui_rpc.Client.Dispatch.Received.{chunk_msg}

abbrev pub msg_with : Dict String String → List ℕ → Msg
msg_with headers bytes = record {
  suffix = "";
  headers = record {
    status = none;
    chunk_type = lookup "x-chunked-transfer" headers;
    chunk_id = lookup "x-chunk-id" headers;
    chunk_index = err value_error;
  };
  bytes = bytes;
}

-- a published message at its receiver; `header_bytes` are those of an encoded header
abbrev pub msg_of : (TransferHeader → List ℕ) → Sent → Msg
msg_of header_bytes (whole bytes headers) = msg_with headers bytes
msg_of header_bytes (header h headers) = msg_with headers (header_bytes h)
msg_of header_bytes (chunk transfer_id index bytes) = chunk_msg transfer_id index bytes

-- the messages arrive one after the other, at `clock i`, `clock (i + 1)`, …
abbrev pub arrivals : (TransferHeader → List ℕ) → (ℕ → ℕ) → ℕ → List Sent → List (ℕ × Msg)
arrivals header_bytes clock i [] = []
arrivals header_bytes clock i (sent ∷ rest) =
    (clock i, msg_of header_bytes sent) ∷ arrivals header_bytes clock (suc i) rest

module _ (encoded : List ℕ) (tid : String) (m : ℕ) (clock : ℕ → ℕ) where
  -- `n` chunks from the chunk `i` on, the first one at `clock j`
  pub timed : ℕ → ℕ → ℕ → List (ℕ × ChunkData)
  timed j i zero = []
  timed j i (suc n) = (clock j, chunk_of encoded tid m i) ∷ timed (suc j) (suc i) n

  pub arrivals-chunks_from :
      (header_bytes : TransferHeader → List ℕ) (j i n : ℕ)
      → arrivals header_bytes clock j (map sent_chunk (chunks_from encoded tid m i n))
        ≡ map (λ c. (c.0, chunk_msg tid c.1.index c.1.bytes)) (timed j i n)
  unfolding timed chunks_from
  arrivals-chunks_from header_bytes j i zero = refl
  arrivals-chunks_from header_bytes j i (suc n) =
      ap (◌∷◌ (clock j, chunk_msg tid i (chunk_at encoded m i)))
        (arrivals-chunks_from header_bytes (suc j) (suc i) n)

  pub timed_last :
      (j i n : ℕ)
      → timed j i (suc n) ≡ timed j i n ++ (clock (j + n), chunk_of encoded tid m (i + n)) ∷ []
  unfolding timed
  timed_last j i zero =
      let first : j ≡ j + 0 = omega arith in
      let second : i ≡ i + 0 = omega arith in
      ap₂ (λ a b. (clock a, chunk_of encoded tid m b) ∷ []) first second
  timed_last j i (suc n) = ap (◌∷◌ (clock j, chunk_of encoded tid m i)) (
      let first : suc j + n ≡ j + suc n = omega arith in
      let second : suc i + n ≡ i + suc n = omega arith in
      timed_last (suc j) (suc i) n
      ∙ ap₂ (λ a b. timed (suc j) (suc i) n ++ (clock a, chunk_of encoded tid m b) ∷ []) first
          second)

  pub contains-timed :
      (k j i n : ℕ) → contains k (indices (timed j i n)) ≡ (leb i k && ltb k (i + n))
  unfolding timed contains
  contains-timed k j i zero = ground arith
  contains-timed k j i (suc n) = ground (arith, contains-timed k (suc j) (suc i) n)

  pub timed-InTime :
      (last j i n : ℕ)
      → clock j ≤ last + stale_transfer_ttl
      → ((t : ℕ) → clock (suc t) ≤ clock t + stale_transfer_ttl)
      → i + n ≤ count_chunks (length encoded) m
      → InTime encoded m last (timed j i n)
  unfolding timed
  timed-InTime last j i zero first steady below = tt
  timed-InTime last j i (suc n) first steady below = (
    first,
    omega arith,
    refl,
    timed-InTime (clock j) (suc j) (suc i) n (steady j) steady (omega arith),
  )
