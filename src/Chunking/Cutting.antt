-- ===== src/Chunking/Cutting.antt =====
-- The chunks of a message put end to end are the message, and all but the last have full size.
use native.Mathlib.Nat.{div-lt_iff_lt-mul, div-mul-le_self, lt-div-mul-add}
use camera_ui_rpc.Base.{
  ℕ, zero, suc, ◌+◌, ◌-◌, ◌*◌, ◌≤◌, ◌<◌, min, String, ◌≡◌, ap, List, map, none, arith, length, take,
  drop, ◌++◌, concat, get_elem?, drop_all, take-append-drop, drop-drop, length-drop, length-take,
  get_elem?-take, get_elem?-drop, get_elem?_ext, get_elem?-none, sym, ltb, if◌then◌else◌,
}
use native.Mathlib.Nat.{add-zero, zero-add, mul-le-mul_right}
use camera_ui_rpc.Base.{refl, ◌∙◌, some, none, [], ◌∷◌, add_suc}
use camera_ui_rpc.Base.Result.{ok}
use camera_ui_rpc.Chunking.Chunks.{ChunkData, chunk_at, chunks_from, count_chunks, create_chunks}

pub suc_mul : (i m : ℕ) → suc i * m ≡ i * m + m
suc_mul i m = grind arith

take-min :
    (m s : ℕ) (xs : List ℕ) → take (min (s + m) (length xs) - s) (drop s xs) ≡ take m (drop s xs)
take-min m s xs = get_elem?_ext _ _ λ p. ground (
  arith,
  get_elem?-take (min (s + m) (length xs) - s) (drop s xs) p,
  get_elem?-take m (drop s xs) p,
  get_elem?-drop s xs p,
  get_elem?-none xs (s + p),
)

module _ (encoded : List ℕ) (m : ℕ) where
  pub chunk_at_lem : (i : ℕ) → chunk_at encoded m i ≡ take m (drop (i * m) encoded)
  unfolding chunk_at
  chunk_at_lem i = take-min m (i * m) encoded

  pub get_elem?-chunk_at :
      (i p : ℕ)
      → get_elem? (chunk_at encoded m i) p
        ≡ (if ltb p m then get_elem? encoded (i * m + p) else none)
  get_elem?-chunk_at i p =
      rw (
        chunk_at_lem i,
        get_elem?-take m (drop (i * m) encoded) p,
        get_elem?-drop (i * m) encoded p,
      )

  pub length-chunk_at : (i : ℕ) → length (chunk_at encoded m i) ≡ min m (length encoded - i * m)
  length-chunk_at i =
      rw (chunk_at_lem i)
        (omega (arith, length-take m (drop (i * m) encoded), length-drop (i * m) encoded))

  -- A chunk and what comes after it.
  pub chunk_at-append :
      (i : ℕ) → chunk_at encoded m i ++ drop (suc i * m) encoded ≡ drop (i * m) encoded
  chunk_at-append i =
      rw (chunk_at_lem i, suc_mul i m, ← drop-drop (i * m) m encoded)
        (take-append-drop m (drop (i * m) encoded))

  concat-chunks_from :
      (chunk_id : String) (i n : ℕ)
      → length encoded ≤ (i + n) * m
      → concat (map (λ c. c.bytes) (chunks_from encoded chunk_id m i n)) ≡ drop (i * m) encoded
  unfolding chunks_from
  concat-chunks_from chunk_id i zero h = sym (drop_all (i * m) encoded (grind arith))
  concat-chunks_from chunk_id i (suc n) h =
      rw (concat-chunks_from chunk_id (suc i) n (grind arith)) (chunk_at-append i)

pub count_chunks_bounds :
    (total m : ℕ)
    → 0 < total
    → 0 < m
    → (total ≤ count_chunks total m * m) × (count_chunks total m * m < total + m)
count_chunks_bounds total m ht hm = (
  omega (arith, lt-div-mul-add {a = total + m - 1} hm),
  omega (arith, div-mul-le_self (total + m - 1) m),
)

length-chunks_from :
    (encoded : List ℕ) (chunk_id : String) (m i n : ℕ)
    → length (chunks_from encoded chunk_id m i n) ≡ n
unfolding chunks_from
length-chunks_from encoded chunk_id m i zero = refl
length-chunks_from encoded chunk_id m i (suc n) =
    ap suc (length-chunks_from encoded chunk_id m (suc i) n)

-- the chunk of round `i`
abbrev pub chunk_of : List ℕ → String → ℕ → ℕ → ChunkData
chunk_of encoded chunk_id m i = record {
  transfer_id = chunk_id;
  index = i;
  bytes = chunk_at encoded m i;
}

get_elem?-chunks_from :
    (encoded : List ℕ) (chunk_id : String) (m i n k : ℕ)
    → get_elem? (chunks_from encoded chunk_id m i n) k
      ≡ (if ltb k n then some (chunk_of encoded chunk_id m (i + k)) else none)
unfolding chunks_from
get_elem?-chunks_from encoded chunk_id m i zero k = ground arith
get_elem?-chunks_from encoded chunk_id m i (suc n) zero = rw (add-zero i) (ground arith)
get_elem?-chunks_from encoded chunk_id m i (suc n) (suc k) =
    get_elem?-chunks_from encoded chunk_id m (suc i) n k ∙ rw (add_suc i k) (ground arith)

count_chunks_zero : (m : ℕ) → 0 < m → count_chunks 0 m ≡ 0
count_chunks_zero m h = omega (arith, (div-lt_iff_lt-mul {x = 0 + m - 1} {y = 1} h).1 (omega arith))

pub count_chunks_enough : (total m : ℕ) → 0 < m → total ≤ (0 + count_chunks total m) * m
count_chunks_enough zero m h = omega arith
count_chunks_enough (suc n) m h = rw zero-add (count_chunks_bounds (suc n) m (omega arith) h).0

-- the chunks before position `k` of the `n` leave something over
pub count_chunks_room : (total m k : ℕ) → 0 < m → k < count_chunks total m → k * m < total
count_chunks_room zero m k hm h = absurd (omega (arith, count_chunks_zero m hm))
count_chunks_room (suc t) m k hm h =
    let b = (count_chunks_bounds (suc t) m (omega arith) hm).1 in
    omega (arith, mul-le-mul_right m h, suc_mul k m)

-- The rounds of the loop, for a positive chunk size.
pub create_chunks_lem :
    (encoded : List ℕ) (chunk_id : String) (m : ℕ)
    → 0 < m
    → create_chunks encoded chunk_id m
      ≡ ok (chunks_from encoded chunk_id m 0 (count_chunks (length encoded) m))
unfolding create_chunks
create_chunks_lem [] chunk_id m h =
    ap (λ n. ok (chunks_from [] chunk_id m 0 n)) {x = 0} {y = count_chunks 0 m}
      (sym (count_chunks_zero m h))
create_chunks_lem (x ∷ xs) chunk_id m h = ground arith

-- For a positive chunk size `create_chunks` succeeds; its chunks, put end to end in order, are the
-- encoded message.
pub concat-create_chunks :
    (encoded : List ℕ) (chunk_id : String) (m : ℕ)
    → 0 < m
    → (cs : List ChunkData) × (create_chunks encoded chunk_id m ≡ ok cs)
      × (concat (map (λ c. c.bytes) cs) ≡ encoded)
concat-create_chunks encoded chunk_id m h =
    let n = count_chunks (length encoded) m in
    (
      chunks_from encoded chunk_id m 0 n,
      create_chunks_lem encoded chunk_id m h,
      concat-chunks_from encoded m chunk_id 0 n (count_chunks_enough (length encoded) m h)
          ∙ ap (λ k. drop k encoded) {x = 0 * m} {y = 0} (omega arith),
    )

-- For a positive chunk size, what stands at position `k` of the created chunks is there exactly
-- for `k` below the ceiling of total size by chunk size, carries the transfer id and its position,
-- is not empty, and is of full size unless it is the last.
pub create_chunks_shape :
    (encoded : List ℕ) (chunk_id : String) (m k : ℕ) (cs : List ChunkData) (c : ChunkData)
    → 0 < m
    → create_chunks encoded chunk_id m ≡ ok cs
    → get_elem? cs k ≡ some c
    → (c.transfer_id ≡ chunk_id)
      × (c.index ≡ k)
      × (0 < length c.bytes)
      × (length c.bytes ≤ m)
      × (suc k < length cs → length c.bytes ≡ m)
create_chunks_shape encoded chunk_id m k cs c h made at =
    let n = count_chunks (length encoded) m in
    let same : cs ≡ chunks_from encoded chunk_id m 0 n =
      cc (create_chunks_lem encoded chunk_id m h) in
    let found = get_elem?-chunks_from encoded chunk_id m 0 n k in
    let size = length-chunk_at encoded m k in
    let bound : k < n = ground (arith, found) in
    let it : c ≡ chunk_of encoded chunk_id m k = ground (arith, found) in
    let room = count_chunks_room (length encoded) m k h bound in
    rw it (
      refl,
      refl,
      omega (arith, size, room),
      omega (arith, size, room),
      λ more.
          let next : suc k < n =
            omega (arith, ap length same, length-chunks_from encoded chunk_id m 0 n) in
          omega (arith, size, suc_mul k m, count_chunks_room (length encoded) m (suc k) h next),
    )
