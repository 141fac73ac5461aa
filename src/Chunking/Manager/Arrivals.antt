-- ===== src/Chunking/Manager/Arrivals.antt =====
-- The chunks of a transfer as they arrive at process_chunk of chunking.py.
use camera_ui_rpc.Base.{
  ℕ, ◌+◌, ◌≤◌, ◌<◌, String, ◌≡◌, ◌≢◌, false, none, some, List, [], ◌∷◌, ◌++◌, map, arith, length,
  ℕ_eq, String_eq, eq_of_same,
}
use camera_ui_rpc.Base.Result.{Result}
use camera_ui_rpc.Chunking.Chunks.{ChunkData, chunk_at, count_chunks}
use camera_ui_rpc.Chunking.Assembler.{Chunk}
use camera_ui_rpc.Chunking.Manager.{
  ChunkingManager, Event, stale_transfer_ttl, process_chunk, transfer_of,
}

-- what the clients hand to `process_chunk` for one message with chunk headers
abbrev pub raw_chunk : String → ℕ → List ℕ → Chunk
raw_chunk chunk_id index bytes = record {
  id = some chunk_id;
  transfer_id = none;
  index = none;
  chunk_index = some index;
  bytes = some bytes;
  is_last = false;
}

pub transfer_of-raw_chunk :
    (chunk_id : String) (index : ℕ) (bytes : List ℕ)
    → chunk_id ≢ ""
    → transfer_of (raw_chunk chunk_id index bytes) ≡ some chunk_id
unfolding transfer_of
transfer_of-raw_chunk chunk_id index bytes h = ground (arith, eq_of_same chunk_id "", h)

-- The chunks of a transfer, with their times of arrival, one after the other.
unfoldable pub process_all :
    {A : Type 0}
    → (List ℕ → Result A)
    → String
    → ChunkingManager
    → List (ℕ × ChunkData)
    → ChunkingManager × List (Event A)
process_all decode_message tid s [] = (s, [])
process_all decode_message tid s ((now, c) ∷ cs) =
    let (s', events) = process_chunk decode_message s now (raw_chunk tid c.index c.bytes) in
    let (s'', rest) = process_all decode_message tid s' cs in (s'', events ++ rest)

-- Each chunk is one of the message, and comes within the time to live of the call before it.
abbrev pub InTime : List ℕ → ℕ → ℕ → List (ℕ × ChunkData) → Type 0
InTime encoded m last [] = Unit
InTime encoded m last ((now, c) ∷ cs) =
    (now ≤ last + stale_transfer_ttl)
    × (c.index < count_chunks (length encoded) m)
    × (c.bytes ≡ chunk_at encoded m c.index)
    × InTime encoded m now cs

abbrev pub indices : List (ℕ × ChunkData) → List ℕ
indices = map (λ c. c.1.index)
