-- ===== src/Chunking/Chunks.antt =====
-- `create_chunks` of chunking.py: the chunks of one encoded message, in the order of sending.
use camera_ui_rpc.Base.{
  ℕ, zero, suc, ◌+◌, ◌-◌, ◌*◌, ◌/◌, min, String, List, [], ◌∷◌, length, slice, nat_eq,
  if◌then◌else◌,
}
use camera_ui_rpc.Base.Result.{Result, ok, err, zero_division}

pub record ChunkData : Type 0 where
  pub transfer_id : String
  pub index : ℕ
  pub bytes : List ℕ

-- `mv[start:end]` with `start = i * max_chunk_size`, as `create_chunks` cuts it
unfoldable pub chunk_at : List ℕ → ℕ → ℕ → List ℕ
chunk_at encoded max_chunk_size i =
    let start = i * max_chunk_size in
    slice encoded start (min (start + max_chunk_size) (length encoded))

-- the rounds `i, i + 1, …` of the loop, `n` of them
unfoldable pub chunks_from : List ℕ → String → ℕ → ℕ → ℕ → List ChunkData
chunks_from encoded chunk_id max_chunk_size i zero = []
chunks_from encoded chunk_id max_chunk_size i (suc n) =
    record { transfer_id = chunk_id; index = i; bytes = chunk_at encoded max_chunk_size i }
    ∷ chunks_from encoded chunk_id max_chunk_size (suc i) n

-- `(total_size + max_chunk_size - 1) // max_chunk_size`
abbrev pub count_chunks : ℕ → ℕ → ℕ
count_chunks total_size max_chunk_size = (total_size + max_chunk_size - 1) / max_chunk_size

-- A chunk size of 0 makes the ceiling division raise.
unfoldable pub create_chunks : List ℕ → String → ℕ → Result (List ChunkData)
unfolding chunks_from chunk_at
create_chunks encoded chunk_id max_chunk_size =
    let total_size = length encoded in
    if nat_eq total_size 0
    then ok []
    else if nat_eq max_chunk_size 0
    then err zero_division
    else ok (chunks_from encoded chunk_id max_chunk_size 0 (count_chunks total_size max_chunk_size))
