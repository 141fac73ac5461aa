-- ===== src/Chunking/Complete.antt =====
-- When an assembler of chunking.py has every chunk of a message, what it holds is the message.
use native.Mathlib.Nat.{div-mul-le_self, lt-div-mul-add, lt_of_mul-lt-mul_right, zero-add}
use camera_ui_rpc.Base.{
  drop, ℕ, ◌+◌, ◌-◌, ◌*◌, ◌/◌, ◌≤◌, ◌<◌, ◌≡◌, sym, ap, ◌∙◌, Bool, true, List, [], Option, none,
  some, inl, inr, arith, length, get_elem?, get_elem?_ext, get_elem?-none, replicate,
  length-replicate, ltb, Bool-cases, ℕ_eq, String_eq, ltb→lt,
}
use camera_ui_rpc.Base.Result.{ok}
use camera_ui_rpc.Base.Dict.{contains, add}
use camera_ui_rpc.Base.Sets.{Distinct, AllBelow, contains_of_full}
use camera_ui_rpc.Chunking.Chunks.{count_chunks}
use camera_ui_rpc.Chunking.Cutting.{count_chunks_bounds, count_chunks_enough}
use camera_ui_rpc.Chunking.Assembler.{ChunkAssembler, receive, is_complete, assembled}
use camera_ui_rpc.Chunking.Storage.{Stored}
use camera_ui_rpc.Chunking.Fallback.{Present, sum_sizes_lem, copy_chunks_lem}

module _ (encoded : List ℕ) (m : ℕ) (hm : 0 < m) (nonempty : 0 < length encoded) where
  abbrev n : ℕ
  n = count_chunks (length encoded) m

  inside_chunks :
      (p : ℕ)
      → ltb p (length encoded) ≡ true
      → p / m * m ≤ p
      → length encoded ≤ n * m
      → p / m * m < n * m
  inside_chunks p inside low enough = omega (arith, ltb→lt p (length encoded) inside)

  -- A full buffer that agrees with the message chunk by chunk is the message.
  buffer_complete :
      (buffer received : List ℕ)
      → Distinct received
      → AllBelow n received
      → length received ≡ n
      → length buffer ≡ length encoded
      → ((i p : ℕ)
          → contains i received ≡ true
          → i * m ≤ p
          → p < i * m + m
          → get_elem? buffer p ≡ get_elem? encoded p)
      → buffer ≡ encoded
  buffer_complete buffer received d b full len places = get_elem?_ext buffer encoded at
    where
      at : (p : ℕ) → get_elem? buffer p ≡ get_elem? encoded p
      at p = elim (Bool-cases (ltb p (length encoded))) [
        | inl inside ↦
            let low = div-mul-le_self p m in
            let enough = (count_chunks_bounds (length encoded) m nonempty hm).0 in
            let lt : p / m < n = lt_of_mul-lt-mul_right m (inside_chunks p inside low enough) in
            places (p / m) p (contains_of_full n received (p / m) d b full lt) low
              (lt-div-mul-add hm)
        | inr outside ↦
            get_elem?-none buffer p (ground arith) ∙ sym (get_elem?-none encoded p (ground arith))
      ]

  pub complete_full :
      (a : ChunkAssembler)
      → a.total_chunks ≡ some n
      → is_complete a ≡ true
      → length a.chunks_received ≡ n
  unfolding is_complete
  complete_full a total done = ground arith

  pub full_complete :
      (a : ChunkAssembler)
      → a.total_chunks ≡ some n
      → length a.chunks_received ≡ n
      → is_complete a ≡ true
  unfolding is_complete
  full_complete a total full = ground arith

  pub get_complete :
      (a : ChunkAssembler) (buffer : Option (List ℕ))
      → a.buffer ≡ buffer
      → Distinct a.chunks_received
      → AllBelow n a.chunks_received
      → a.total_chunks ≡ some n
      → Stored encoded m a.total_size buffer a.temp_chunks a.chunks_received
      → is_complete a ≡ true
      → assembled a ≡ ok encoded
  unfolding assembled
  get_complete a (some buffer) same d b total (_, len, places) done =
      let full : length a.chunks_received ≡ n = complete_full a total done in
      rw (done, assembled, same)
        (ap ok (buffer_complete buffer a.chunks_received d b full len places))
  get_complete a none same d b total stored done =
      let full : length a.chunks_received ≡ n = complete_full a total done in
      let there : Present encoded m a.temp_chunks 0 n =
        λ k _ lt. stored k (contains_of_full n a.chunks_received k d b full (rw zero-add at lt)) in
      let enough = count_chunks_enough (length encoded) m hm in
      let size = length encoded - 0 * m in
      rw (done, assembled, same, total, sum_sizes_lem encoded m a.temp_chunks 0 n there enough)
        (copy_chunks_lem encoded m a.temp_chunks 0 n [] (replicate size 0) there enough
          (ap (λ k. drop k encoded) {x = 0 * m} {y = 0} (omega arith)) (length-replicate size 0))

  pub received-receive :
      (a : ChunkAssembler) (i : ℕ) (bytes : List ℕ) (last : Bool)
      → (receive a i bytes last).chunks_received ≡ add i a.chunks_received
  unfolding receive
  received-receive a i bytes last = ground arith
