-- ===== src/Chunking/Manager/Reuse.antt =====
-- What a pooled assembler keeps from its last transfer: `_get_assembler` resets every field but
-- `chunk_size`, and `set_expected_chunks` writes that field only when the header names a size.
use native.Mathlib.Nat.{zero-add}
use camera_ui_rpc.Base.{
  le→leb, ℕ, zero, suc, ◌+◌, ◌*◌, ◌≤◌, ◌<◌, String, ◌≡◌, refl, ap, ◌∙◌, Bool, true, false, none,
  some, List, [], ◌∷◌, ◌++◌, arith, length, drop, replicate, add_suc_left, ℕ_eq,
}
use camera_ui_rpc.Base.Result.{ok}
use camera_ui_rpc.Base.Dict.{add}
use camera_ui_rpc.Chunking.Assembler.{
  ChunkAssembler, new_assembler, set_expected_chunks, receive, is_complete, assembled, write_buffer,
}
use camera_ui_rpc.Chunking.Storage.{receive_lem}
use camera_ui_rpc.Chunking.Manager.{reuse}

-- An assembler from the pool is as good as new but for its chunk size.
pub reuse-new_assembler :
    (a : ChunkAssembler) (tid : String)
    → reuse a tid ≡ record (new_assembler tid) { chunk_size = a.chunk_size }
unfolding reuse new_assembler
reuse-new_assembler a tid = refl

abbrev zeros : ℕ → List ℕ
zeros n = replicate n 0

drop-zeros : (n k : ℕ) → drop n (zeros (n + k)) ≡ zeros k
drop-zeros zero k = ap zeros (omega arith)
drop-zeros (suc n) k = rw (add_suc_left n k) (drop-zeros n k)

module _ (first second : List ℕ) (h1 : 0 < length first) (h2 : 0 < length second) where
  abbrev total : ℕ
  total = length first + length second

  abbrev assembler : String → List ℕ → List ℕ → ℕ → ChunkAssembler
  assembler tid received buffer size = record {
    id = tid;
    chunks_received = received;
    total_chunks = some 2;
    total_size = total;
    buffer = some buffer;
    temp_chunks = [];
    chunk_size = some size;
  }

  set_up :
      (allocates : ℕ → Bool) (a : ChunkAssembler) (tid : String) (size : ℕ)
      → allocates total ≡ true
      → a.chunk_size ≡ some size
      → set_expected_chunks allocates (reuse a tid) 2 (some total) none
        ≡ assembler tid [] (zeros total) size
  unfolding set_expected_chunks reuse
  set_up allocates a tid size fits kept = ground arith

  write_first :
      (offset : ℕ)
      → offset ≡ 0
      → write_buffer total (zeros total) offset first ≡ first ++ zeros (length second)
  unfolding write_buffer
  write_first offset e =
      rw (e, zero-add (length first), le→leb (length first) total (omega arith))
        (ap (◌++◌ first) (drop-zeros (length first) (length second)))

  write_second :
      (size : ℕ) (buffer : List ℕ)
      → total ≤ size
      → write_buffer total buffer (1 * size) second ≡ buffer
  unfolding write_buffer
  write_second size buffer large = ground arith

  receive_first :
      (tid : String) (size : ℕ)
      → 0 < size
      → receive (assembler tid [] (zeros total) size) 0 first false
        ≡ assembler tid (0 ∷ []) (first ++ zeros (length second)) size
  unfolding add
  receive_first tid size h =
      receive_lem (assembler tid [] (zeros total) size) 0 first size refl h
      ∙ ap (λ b. assembler tid (0 ∷ []) b size) (write_first (0 * size) (omega arith))

  receive_second :
      (tid : String) (size : ℕ) (buffer : List ℕ)
      → total ≤ size
      → receive (assembler tid (0 ∷ []) buffer size) 1 second false
        ≡ assembler tid (1 ∷ 0 ∷ []) buffer size
  unfolding add
  receive_second tid size buffer h =
      receive_lem (assembler tid (0 ∷ []) buffer size) 1 second size refl (omega arith)
      ∙ ap (λ b. assembler tid (1 ∷ 0 ∷ []) b size) (write_second size buffer h)

  -- Take a message of two non-empty chunks whose header gives the total size and leaves the chunk
  -- size out, where a buffer of this size can be allocated, and an assembler from the pool whose last
  -- transfer had chunks at least as long as the whole message. Both chunks are accepted and the transfer counts as complete, but the second
  -- chunk is lost: zeros stand in its place.
  pub reused_size_loses_chunk :
      (allocates : ℕ → Bool) (a : ChunkAssembler) (tid : String) (size : ℕ)
      → allocates total ≡ true
      → a.chunk_size ≡ some size
      → total ≤ size
      → let a0 = set_expected_chunks allocates (reuse a tid) 2 (some total) none in
        let a2 = receive (receive a0 0 first false) 1 second false in
        (is_complete a2 ≡ true) × (assembled a2 ≡ ok (first ++ zeros (length second)))
  unfolding assembled
  reused_size_loses_chunk allocates a tid size fits kept large =
      rw
        (
          set_up allocates a tid size fits kept,
          receive_first tid size (omega arith),
          receive_second tid size (first ++ zeros (length second)) large,
        )
        (refl, refl)
