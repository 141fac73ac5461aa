-- ===== src/Chunking/Reassembly.antt =====
-- Chunks that arrive in any order, some of them more than once, are put together again.
use camera_ui_rpc.Base.{
  ◌↔◌, ℕ, ◌<◌, String, ◌≡◌, refl, sym, ap, ◌∙◌, Bool, true, false, List, [], ◌∷◌, none, some, map,
  arith, length, replicate, length-replicate, if◌then◌else◌, ℕ_eq, String_eq, same_self, lt→ltb,
}
use camera_ui_rpc.Base.Result.{Result, ok, ◌>>=◌}
use camera_ui_rpc.Base.Dict.{contains, add, contains-add}
use camera_ui_rpc.Base.Sets.{full_of_contains, contains_of_full}
use camera_ui_rpc.Chunking.Chunks.{ChunkData, chunk_at, count_chunks}
use camera_ui_rpc.Chunking.Assembler.{
  ChunkAssembler, Chunk, new_assembler, set_expected_chunks, receive, add_chunk, is_complete,
  assembled,
}
use camera_ui_rpc.Chunking.Storage.{Receives, Stored, receive-Receives}
use camera_ui_rpc.Chunking.Complete.{complete_full, full_complete, get_complete, received-receive}

-- A received chunk, its keys normalised.
abbrev pub wire_chunk : String → ℕ → List ℕ → Chunk
wire_chunk chunk_id index bytes = record {
  id = some chunk_id;
  transfer_id = some chunk_id;
  index = some index;
  chunk_index = some index;
  bytes = some bytes;
  is_last = false;
}

-- `add_chunk` for one chunk after the other
pub add_all : ChunkAssembler → List Chunk → Result ChunkAssembler
add_all a [] = ok a
add_all a (c ∷ cs) = do (a', done) ← add_chunk a c; add_all a' cs

-- the indices of received chunks, as a set
pub received_from : List ℕ → List ℕ → List ℕ
received_from s [] = s
received_from s (i ∷ is) = received_from (add i s) is

module _ (encoded : List ℕ) (m : ℕ) (hm : 0 < m) (nonempty : 0 < length encoded) where
  abbrev n : ℕ
  n = count_chunks (length encoded) m

  contains-received_from :
      (i : ℕ) (s is : List ℕ)
      → contains i (received_from s is) ≡ (if contains i s then true else contains i is)
  unfolding received_from contains
  contains-received_from i s [] = ground arith
  contains-received_from i s (j ∷ is) =
      ground (arith, contains-received_from i (add j s) is, contains-add j i s)

  -- Every pick is a chunk of the message.
  abbrev pub ArePicks : List ChunkData → Type 0
  ArePicks [] = Unit
  ArePicks (c ∷ cs) = ((c.index < n) × (c.bytes ≡ chunk_at encoded m c.index)) × ArePicks cs

  abbrev pub wire : String → ChunkData → Chunk
  wire chunk_id c = wire_chunk chunk_id c.index c.bytes

  pub add_chunk_lem :
      (chunk_id : String) (a : ChunkAssembler) (index : ℕ) (bytes : List ℕ)
      → a.id ≡ chunk_id
      → add_chunk a (wire_chunk chunk_id index bytes)
        ≡ ok (receive a index bytes false, is_complete (receive a index bytes false))
  unfolding add_chunk
  add_chunk_lem chunk_id a index bytes e = rw (e, same_self chunk_id)

  add_all_lem :
      (chunk_id : String) (a : ChunkAssembler) (picks : List ChunkData)
      → ArePicks picks
      → Receives encoded m chunk_id a
      → (a' : ChunkAssembler) × (add_all a (map (wire chunk_id) picks) ≡ ok a')
        × Receives encoded m chunk_id a'
        × (a'.chunks_received ≡ received_from a.chunks_received (map (λ c. c.index) picks))
  unfolding add_all received_from
  add_all_lem chunk_id a [] ok_picks r = (a, refl, r, refl)
  add_all_lem chunk_id a (c ∷ cs) ok_picks r =
      let next = receive a c.index c.bytes false in
      let kept = receive-Receives encoded m c.index hm ok_picks.0.0 chunk_id a r in
      let (a', run, r', got) = add_all_lem chunk_id next cs ok_picks.1 (rw ok_picks.0.1 kept) in
      (
        a',
        rw (add_chunk_lem chunk_id a c.index c.bytes r.id) run,
        r',
        got
            ∙ ap (λ s. received_from s (map (λ x. x.index) cs))
                (received-receive encoded m hm nonempty a c.index c.bytes false),
      )

  -- an assembler that a transfer header has just set up; old senders leave the total size out
  abbrev pub started : (ℕ → Bool) → Bool → String → ChunkAssembler
  started allocates sized chunk_id =
      set_expected_chunks allocates (new_assembler chunk_id) n
        (if sized then some (length encoded) else none) (some m)

  started_buffer :
      (allocated : Bool)
      → Stored encoded m
          (length encoded)
          (if allocated then some (replicate (length encoded) 0) else none)
          []
          []
  unfolding contains
  started_buffer true = (refl, length-replicate (length encoded) 0, λ i p h. cc)
  started_buffer false = λ i h. cc

  started_received :
      (allocates : ℕ → Bool) (sized : Bool) (chunk_id : String)
      → (started allocates sized chunk_id).chunks_received ≡ []
  unfolding set_expected_chunks new_assembler
  started_received allocates sized chunk_id = ground arith

  complete_iff :
      (chunk_id : String) (a : ChunkAssembler) (js : List ℕ)
      → Receives encoded m chunk_id a
      → a.chunks_received ≡ received_from [] js
      → (is_complete a ≡ true) ↔ ((i : ℕ) → i < n → contains i js ≡ true)
  complete_iff chunk_id a js r got =
      let same : (i : ℕ) → contains i a.chunks_received ≡ contains i js =
        λ i. ap (contains i) got ∙ contains-received_from i [] js ∙ unfold contains in refl in
      (
        λ done i lt.
            sym (same i)
            ∙ contains_of_full n a.chunks_received i r.distinct r.below
                (complete_full encoded m hm nonempty a r.total done) lt,
        λ all.
            full_complete encoded m hm nonempty a r.total
              (full_of_contains n a.chunks_received r.distinct r.below (λ i lt. same i ∙ all i lt)),
      )

  started-Receives :
      (allocates : ℕ → Bool) (sized : Bool) (chunk_id : String)
      → Receives encoded m chunk_id (started allocates sized chunk_id)
  unfolding set_expected_chunks new_assembler contains
  started-Receives allocates true chunk_id = rw (lt→ltb 0 (length encoded) nonempty) (record {
    id = refl;
    total = refl;
    size = refl;
    distinct = tt;
    below = tt;
    stored = started_buffer (allocates (length encoded));
  })
  started-Receives allocates false chunk_id = record {
    id = refl;
    total = refl;
    size = refl;
    distinct = tt;
    below = tt;
    stored = λ i h. cc;
  }

  -- Take a non-empty message, a positive chunk size and any sequence of its chunks, out of order
  -- or repeated. An assembler set up by the transfer's header, with or without a total size and
  -- whether or not the buffer can be allocated, accepts them all; it is complete exactly when
  -- each of the chunks has arrived, and then it holds the message.
  pub reassembly :
      (allocates : ℕ → Bool) (sized : Bool) (chunk_id : String) (picks : List ChunkData)
      → ArePicks picks
      → (a : ChunkAssembler) × (add_all
            (started allocates sized chunk_id)
            (map (wire chunk_id) picks)
          ≡ ok a)
        × ((is_complete a ≡ true)
            ↔ ((i : ℕ) → i < n → contains i (map (λ c. c.index) picks) ≡ true))
        × (is_complete a ≡ true → assembled a ≡ ok encoded)
  reassembly allocates sized chunk_id picks ok_picks =
      let (a, run, r, got) =
        add_all_lem chunk_id _ picks ok_picks (started-Receives allocates sized chunk_id) in
      let js = map (λ c. c.index) picks in
      let all_got =
        got ∙ ap (λ s. received_from s js) (started_received allocates sized chunk_id) in
      (
        a,
        run,
        complete_iff chunk_id a js r all_got,
        get_complete encoded m hm nonempty a a.buffer refl r.distinct r.below r.total r.stored,
      )
