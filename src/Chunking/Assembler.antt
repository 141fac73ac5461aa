-- ===== src/Chunking/Assembler.antt =====
-- `ChunkAssembler` of chunking.py. Whether the buffer can be allocated is up to the machine:
-- `allocates n` says that `bytearray(n)` does not raise `MemoryError`.
use camera_ui_rpc.Base.{
  ℕ, zero, suc, ◌+◌, ◌-◌, ◌*◌, String, Bool, false, ◌&&◌, Option, none, some, List, [], length,
  take, splice, replicate, ltb, leb, nat_eq, ◌==◌, ℕ_eq, String_eq, if◌then◌else◌,
}
use camera_ui_rpc.Base.Result.{
  Result, ok, err, value_error, key_error, runtime_error, ◌>>=◌, or_raise,
}
use camera_ui_rpc.Base.Dict.{Dict, lookup, insert, add}

pub record ChunkAssembler : Type 0 where
  pub id : String
  pub chunks_received : List ℕ
  pub total_chunks : Option ℕ
  pub total_size : ℕ
  pub buffer : Option (List ℕ)
  pub temp_chunks : Dict ℕ (List ℕ)
  pub chunk_size : Option ℕ

-- A received chunk is a dictionary; a key that is missing is `none`.
pub record Chunk : Type 0 where
  pub id : Option String
  pub transfer_id : Option String
  pub index : Option ℕ
  pub chunk_index : Option ℕ
  pub bytes : Option (List ℕ)
  pub is_last : Bool

unfoldable pub new_assembler : String → ChunkAssembler
new_assembler chunk_id = record {
  id = chunk_id;
  chunks_received = [];
  total_chunks = none;
  total_size = 0;
  buffer = none;
  temp_chunks = [];
  chunk_size = none;
}

-- `x if x is not None else y`
abbrev pub or_else : Option ℕ → Option ℕ → Option ℕ
or_else none y = y
or_else (some x) y = some x

-- the buffer part of `set_expected_chunks`, for a total size that is given and positive
unfoldable pub preallocate : (ℕ → Bool) → Option ℕ → ChunkAssembler → ChunkAssembler
preallocate allocates none a = a
preallocate allocates (some total) a =
    if ltb 0 total
    then record a {
      total_size = total;
      buffer = if allocates total then some (replicate total 0) else none;
    }
    else a

unfoldable pub set_expected_chunks :
    (ℕ → Bool) → ChunkAssembler → ℕ → Option ℕ → Option ℕ → ChunkAssembler
unfolding preallocate
set_expected_chunks allocates a count total_size chunk_size =
    preallocate allocates total_size
      (record a { total_chunks = some count; chunk_size = or_else chunk_size a.chunk_size })

-- `len(self.chunks_received) == self.total_chunks`
unfoldable pub is_complete : ChunkAssembler → Bool
is_complete a = elim a.total_chunks [ none ↦ false | some n ↦ nat_eq (length a.chunks_received) n ]

-- the chunk size that is in force once chunk `index` of `size` bytes has been seen
unfoldable pub learn_chunk_size : Option ℕ → Option ℕ → ℕ → ℕ → Option ℕ
learn_chunk_size (some c) total index size = some c
learn_chunk_size none none index size = none
learn_chunk_size none (some total) index size =
    if nat_eq index 0 && ltb 1 total then some size else none

-- `self.chunk_size if self.chunk_size else chunk_size`; 0 counts as unknown
abbrev pub effective_size : Option ℕ → ℕ → ℕ
effective_size none size = size
effective_size (some c) size = if nat_eq c 0 then size else c

-- the write into the pre-allocated buffer
unfoldable pub write_buffer : ℕ → List ℕ → ℕ → List ℕ → List ℕ
write_buffer total_size buffer offset chunk =
    if leb (offset + length chunk) total_size
    then splice buffer offset (offset + length chunk) chunk
    else let remaining = total_size - offset in
      if ltb 0 remaining
      then splice buffer offset (length buffer) (take remaining chunk)
      else buffer

-- the two storage paths of `add_chunk`
unfoldable pub store_chunk : Option (List ℕ) → ChunkAssembler → ℕ → List ℕ → ℕ → ChunkAssembler
unfolding write_buffer
store_chunk (some buffer) a index chunk effective = record a {
  buffer = some (write_buffer a.total_size buffer (index * effective) chunk);
}
store_chunk none a index chunk effective = record a {
  temp_chunks = insert index chunk a.temp_chunks;
}

-- `add_chunk` once the keys of the dictionary have been read
unfoldable pub receive : ChunkAssembler → ℕ → List ℕ → Bool → ChunkAssembler
unfolding learn_chunk_size store_chunk
receive a index chunk is_last =
    let size = learn_chunk_size a.chunk_size a.total_chunks index (length chunk) in
    let effective = effective_size size (length chunk) in
    let stored = store_chunk a.buffer (record a { chunk_size = size }) index chunk effective in
    record stored {
      chunks_received = add index a.chunks_received;
      total_chunks = if is_last then some (suc index) else a.total_chunks;
    }

unfoldable pub add_chunk : ChunkAssembler → Chunk → Result (ChunkAssembler × Bool)
unfolding receive is_complete
add_chunk a chunk = do
  transfer_id ← or_raise chunk.transfer_id key_error
  if transfer_id == a.id
      then (do
        index ← or_raise chunk.index key_error
        bytes ← or_raise chunk.bytes key_error
        let a' = receive a index bytes chunk.is_last
        ok (a', is_complete a'))
      else err value_error

-- `sum(len(self.temp_chunks[i]) for i in range(n))`, from `i` on
unfoldable pub sum_sizes : Dict ℕ (List ℕ) → ℕ → ℕ → Result ℕ
sum_sizes temp i zero = ok 0
sum_sizes temp i (suc n) = do
  chunk ← or_raise (lookup i temp) key_error
  rest ← sum_sizes temp (suc i) n
  ok (length chunk + rest)

-- the copying loop of the fallback path, from chunk `i` at `offset`
unfoldable pub copy_chunks : Dict ℕ (List ℕ) → ℕ → ℕ → ℕ → List ℕ → Result (List ℕ)
copy_chunks temp i zero offset combined = ok combined
copy_chunks temp i (suc n) offset combined = do
  chunk ← or_raise (lookup i temp) key_error
  copy_chunks temp (suc i) n (offset + length chunk)
      (splice combined offset (offset + length chunk) chunk)

abbrev pub or_zero : Option ℕ → ℕ
or_zero none = 0
or_zero (some n) = n

-- the bytes that `get_data` hands to `decode_message`
unfoldable pub assembled : ChunkAssembler → Result (List ℕ)
unfolding is_complete sum_sizes copy_chunks
assembled a =
    if is_complete a
    then elim a.buffer [
      | some buffer ↦ ok buffer
      | none ↦ do
        let n = or_zero a.total_chunks
        total ← sum_sizes a.temp_chunks 0 n
        copy_chunks a.temp_chunks 0 n 0 (replicate total 0)
    ]
    else err runtime_error

-- `get_data`, with the message decoder of codec.py as an argument
unfoldable pub get_data : {A : Type 0} → (List ℕ → Result A) → ChunkAssembler → Result A
unfolding assembled
get_data decode_message a = assembled a >>= decode_message
