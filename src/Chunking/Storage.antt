-- ===== src/Chunking/Storage.antt =====
-- What an assembler has stored while it receives the chunks of one message, on both paths.
use camera_ui_rpc.Base.{
  ℕ, ◌+◌, ◌-◌, ◌*◌, ◌≤◌, ◌<◌, String, ◌≡◌, refl, ◌∙◌, true, false, List, Option, none, some, arith,
  length, get_elem?, get_elem?-none, get_elem?-splice, length-splice, splice, nat_eq_iff, ℕ_eq,
}
use camera_ui_rpc.Base.Dict.{Dict, lookup, insert, contains, add, lookup-insert, contains-add}
use camera_ui_rpc.Base.Sets.{Distinct, AllBelow, add-Distinct, add-AllBelow}
use camera_ui_rpc.Chunking.Chunks.{chunk_at, count_chunks}
use camera_ui_rpc.Chunking.Cutting.{length-chunk_at, get_elem?-chunk_at, count_chunks_room}
use camera_ui_rpc.Chunking.Assembler.{ChunkAssembler, receive, write_buffer}

module _ (encoded : List ℕ) (m : ℕ) where
  -- Every received chunk is in its place: in the buffer, or in the dictionary of chunks.
  abbrev pub Stored : ℕ → Option (List ℕ) → Dict ℕ (List ℕ) → List ℕ → Type 0
  Stored total (some buffer) temp received =
      (total ≡ length encoded)
      × (length buffer ≡ length encoded)
      × ((i p : ℕ)
          → contains i received ≡ true
          → i * m ≤ p
          → p < i * m + m
          → get_elem? buffer p ≡ get_elem? encoded p)
  Stored total none temp received =
      (i : ℕ) → contains i received ≡ true → lookup i temp ≡ some (chunk_at encoded m i)

  pub record Receives (chunk_id : String) (a : ChunkAssembler) : Type 0 where
    pub id : a.id ≡ chunk_id
    pub total : a.total_chunks ≡ some (count_chunks (length encoded) m)
    pub size : a.chunk_size ≡ some m
    pub distinct : Distinct a.chunks_received
    pub below : AllBelow (count_chunks (length encoded) m) a.chunks_received
    pub stored : Stored a.total_size a.buffer a.temp_chunks a.chunks_received

abbrev pub next_buffer : ℕ → Option (List ℕ) → ℕ → List ℕ → Option (List ℕ)
next_buffer total none offset chunk = none
next_buffer total (some buffer) offset chunk = some (write_buffer total buffer offset chunk)

abbrev pub next_temp : Option (List ℕ) → Dict ℕ (List ℕ) → ℕ → List ℕ → Dict ℕ (List ℕ)
next_temp none temp index chunk = insert index chunk temp
next_temp (some buffer) temp index chunk = temp

-- `receive`, field by field, once the chunk size is known
pub receive_lem :
    (a : ChunkAssembler) (index : ℕ) (chunk : List ℕ) (m : ℕ)
    → a.chunk_size ≡ some m
    → 0 < m
    → receive a index chunk false ≡ record {
      id = a.id;
      chunks_received = add index a.chunks_received;
      total_chunks = a.total_chunks;
      total_size = a.total_size;
      buffer = next_buffer a.total_size a.buffer (index * m) chunk;
      temp_chunks = next_temp a.buffer a.temp_chunks index chunk;
      chunk_size = some m;
    }
unfolding receive
receive_lem a index chunk m size hm = ground arith

module _ (encoded : List ℕ) (m i : ℕ) (hm : 0 < m) (hi : i < count_chunks (length encoded) m) where
  -- A chunk fits behind its offset.
  chunk_fits : i * m + length (chunk_at encoded m i) ≤ length encoded
  chunk_fits =
      omega (arith, length-chunk_at encoded m i, count_chunks_room (length encoded) m i hm hi)

  write_chunk :
      (buffer : List ℕ)
      → write_buffer (length encoded) buffer (i * m) (chunk_at encoded m i)
        ≡ splice buffer (i * m) (i * m + length (chunk_at encoded m i)) (chunk_at encoded m i)
  unfolding write_buffer
  write_chunk buffer = ground (arith, chunk_fits)

  write_at :
      (buffer : List ℕ) (received : List ℕ) (j p : ℕ)
      → length buffer ≡ length encoded
      → (contains j received ≡ true
          → j * m ≤ p
          → p < j * m + m
          → get_elem? buffer p ≡ get_elem? encoded p)
      → contains j (add i received) ≡ true
      → j * m ≤ p
      → p < j * m + m
      → get_elem? (write_buffer (length encoded) buffer (i * m) (chunk_at encoded m i)) p
        ≡ get_elem? encoded p
  write_at buffer received j p len old has lo hi =
      let size = length-chunk_at encoded m i in
      let fits = chunk_fits in
      rw
        (
          write_chunk buffer,
          get_elem?-splice buffer (chunk_at encoded m i) (i * m) p (rw len fits),
          get_elem?-chunk_at encoded m i (p - i * m),
        )
        (ground (
          arith,
          size,
          contains-add i j received,
          get_elem?-none buffer p,
          get_elem?-none encoded p,
        ))

  -- what `receive` makes of the fields, its chunk size known
  stored_next :
      (total : ℕ) (buffer : Option (List ℕ)) (temp : Dict ℕ (List ℕ)) (received : List ℕ)
      → Stored encoded m total buffer temp received
      → let chunk = chunk_at encoded m i in
        Stored encoded m total
          (next_buffer total buffer (i * m) chunk)
          (next_temp buffer temp i chunk)
          (add i received)
  stored_next total (some buffer) temp received (t, len, places) = rw t (
    refl,
    rw (write_chunk buffer)
        (length-splice buffer (chunk_at encoded m i) (i * m) (rw len chunk_fits) ∙ len),
    λ j p. write_at buffer received j p len (places j p),
  )
  stored_next total none temp received places = λ j has. ground (
    arith,
    lookup-insert i j (chunk_at encoded m i) temp,
    contains-add i j received,
    nat_eq_iff i j,
    places j,
  )

  pub receive-Receives :
      (chunk_id : String) (a : ChunkAssembler)
      → Receives encoded m chunk_id a
      → Receives encoded m chunk_id (receive a i (chunk_at encoded m i) false)
  receive-Receives chunk_id a r = rw (receive_lem a i (chunk_at encoded m i) m r.size hm) (record {
    id = r.id;
    total = r.total;
    size = refl;
    distinct = add-Distinct i a.chunks_received r.distinct;
    below = add-AllBelow (count_chunks (length encoded) m) i a.chunks_received hi r.below;
    stored = stored_next a.total_size a.buffer a.temp_chunks a.chunks_received r.stored;
  })
