-- ===== src/Chunking/Fallback.antt =====
-- The fallback path of `get_data`: copying the stored chunks one behind the other.
use native.Mathlib.Nat.{add-zero}
use mathlib.Core.List.{append_assoc}
use camera_ui_rpc.Base.{
  ℕ_eq, ℕ, zero, suc, ◌+◌, ◌-◌, ◌*◌, ◌≤◌, ◌<◌, ◌≡◌, refl, sym, ap, ◌∙◌, List, [], ◌∷◌, ◌++◌, some,
  arith, length, drop, splice, length-append, length-drop, take-append, drop-append, drop-drop,
  add_suc, drop_all,
}
use camera_ui_rpc.Base.Result.{ok}
use camera_ui_rpc.Base.Dict.{Dict, lookup}
use camera_ui_rpc.Chunking.Chunks.{chunk_at}
use camera_ui_rpc.Chunking.Cutting.{chunk_at-append, length-chunk_at, suc_mul}
use camera_ui_rpc.Chunking.Assembler.{sum_sizes, copy_chunks}

nil_of_length : (xs : List ℕ) → length xs ≡ 0 → xs ≡ []
nil_of_length [] h = refl
nil_of_length (x ∷ xs) h = absurd (omega arith)

module _ (encoded : List ℕ) (m : ℕ) (temp : Dict ℕ (List ℕ)) where
  -- All chunks from position `i` on, `n` of them, are in the dictionary.
  abbrev pub Present : ℕ → ℕ → Type 0
  Present i n = (k : ℕ) → i ≤ k → k < i + n → lookup k temp ≡ some (chunk_at encoded m k)

  Present-tail : (i n : ℕ) → Present i (suc n) → Present (suc i) n
  Present-tail i n h k lo hi = h k (omega arith) (omega arith)

  pub sum_sizes_lem :
      (i n : ℕ)
      → Present i n
      → length encoded ≤ (i + n) * m
      → sum_sizes temp i n ≡ ok (length encoded - i * m)
  unfolding sum_sizes
  sum_sizes_lem i zero h enough = ap ok (grind arith)
  sum_sizes_lem i (suc n) h enough =
      rw
        (
          h i (omega arith) (omega arith),
          sum_sizes_lem (suc i) n (Present-tail i n h) (rw (add_suc i n) enough),
        )
        (ap ok (omega (arith, length-chunk_at encoded m i, suc_mul i m)))

  -- the chunk goes behind what has been copied
  splice_next :
      (done rest chunk : List ℕ)
      → splice (done ++ rest) (length done) (length done + length chunk) chunk
        ≡ (done ++ chunk) ++ drop (length chunk) rest
  splice_next done rest chunk =
      rw
        (
          take-append done rest,
          ← drop-drop (length done) (length chunk) (done ++ rest),
          drop-append done rest,
        )
        (sym (append_assoc done chunk (drop (length chunk) rest)))

  pub copy_chunks_lem :
      (i n : ℕ) (done rest : List ℕ)
      → Present i n
      → length encoded ≤ (i + n) * m
      → done ++ drop (i * m) encoded ≡ encoded
      → length rest ≡ length encoded - i * m
      → copy_chunks temp i n (length done) (done ++ rest) ≡ ok encoded
  unfolding copy_chunks
  copy_chunks_lem i zero done rest h enough before size =
      let over : length encoded ≤ i * m = rw (add-zero i) at enough in
      rw (nil_of_length rest (omega arith))
        (ap ok (ap (◌++◌ done) (sym (drop_all (i * m) encoded over)) ∙ before))
  copy_chunks_lem i (suc n) done rest h enough before size =
      let chunk = chunk_at encoded m i in
      rw (h i (omega arith) (omega arith), splice_next done rest chunk, ← length-append done chunk)
        (copy_chunks_lem (suc i) n (done ++ chunk) (drop (length chunk) rest) (Present-tail i n h)
          (rw (add_suc i n) enough)
          (append_assoc done chunk (drop (suc i * m) encoded)
            ∙ (ap (◌++◌ done) (chunk_at-append encoded m i) ∙ before))
          (omega (
            arith,
            size,
            length-drop (length chunk) rest,
            length-chunk_at encoded m i,
            suc_mul i m,
          )))
