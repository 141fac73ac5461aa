-- ===== src/Chunking/Tests.antt =====
-- Runs of the chunking code, and the theorems at concrete inputs.
use mathlib.Core.Bool.{false≢true}
use text.Mathlib.TextEquality.{eq_iff}
use camera_ui_rpc.Base.{
  zero, suc, ◌≢◌, String, false, some, ◌++◌, ℕ, ◌≤◌, ◌<◌, ◌≡◌, ◌↔◌, refl, true, none, List, [], ◌∷◌,
  map, arith, length, ℕ_eq, String_eq, if◌then◌else◌,
}
use camera_ui_rpc.Base.Result.{Result, ok, err, zero_division}
use camera_ui_rpc.Base.Dict.{lookup, insert, contains}
use camera_ui_rpc.Chunking.Chunks.{ChunkData, count_chunks, create_chunks}
use camera_ui_rpc.Chunking.Cutting.{chunk_of, create_chunks_shape}
use camera_ui_rpc.Chunking.Assembler.{
  new_assembler, set_expected_chunks, receive, ChunkAssembler, is_complete, assembled,
}
use camera_ui_rpc.Chunking.Reassembly.{started, wire, add_all, reassembly}
use camera_ui_rpc.Chunking.Manager.{
  Event, completed, reuse, start_receiving, ChunkingManager, new_manager, sweep_stale, register,
}
use camera_ui_rpc.Chunking.Manager.Keeping.{IsConsistent, register-IsConsistent}
use camera_ui_rpc.Chunking.Manager.Consistency.{new_manager-IsConsistent}
use camera_ui_rpc.Chunking.Manager.History.{starts, chunks, cancels, run, run-IsConsistent}
use camera_ui_rpc.Chunking.Manager.Sweep.{is_stale, sweep_stale_exact, OnlyTimeouts}
use camera_ui_rpc.Chunking.Manager.Arrivals.{raw_chunk, process_all}
use camera_ui_rpc.Chunking.Manager.EndToEnd.{header, transfer_delivered}
use camera_ui_rpc.Chunking.Manager.Reuse.{reused_size_loses_chunk}

abbrev message : List ℕ
message = 10 ∷ 20 ∷ 30 ∷ 40 ∷ 50 ∷ []

-- the chunk `i` of the message, in chunks of two bytes
abbrev piece : ℕ → ChunkData
piece i = chunk_of message "t" 2 i

create_chunks_runs :
    create_chunks message "t" 2
    ≡ ok (
        record { transfer_id = "t"; index = 0; bytes = 10 ∷ 20 ∷ [] }
        ∷ record { transfer_id = "t"; index = 1; bytes = 30 ∷ 40 ∷ [] }
        ∷ record { transfer_id = "t"; index = 2; bytes = 50 ∷ [] }
        ∷ [])
unfolding create_chunks
create_chunks_runs = refl

create_chunks_zero : create_chunks message "t" 0 ≡ err zero_division
unfolding create_chunks
create_chunks_zero = refl

abbrev pieces : List ChunkData
pieces = piece 0 ∷ piece 1 ∷ piece 2 ∷ []

pieces_made : create_chunks message "t" 2 ≡ ok pieces
unfolding create_chunks
pieces_made = refl

create_chunks_shape_example :
    ((piece 1).transfer_id ≡ "t")
    × ((piece 1).index ≡ 1)
    × (0 < length (piece 1).bytes)
    × (length (piece 1).bytes ≤ 2)
    × (2 < length pieces → length (piece 1).bytes ≡ 2)
create_chunks_shape_example =
    create_chunks_shape message "t" 2 1 pieces (piece 1) (omega arith) pieces_made refl

-- out of order, and one of them twice
abbrev shuffled : List ChunkData
shuffled = piece 2 ∷ piece 0 ∷ piece 2 ∷ piece 1 ∷ []

reassembly_example :
    (a : ChunkAssembler) × (add_all
        (started message 2 (omega arith) (omega arith) (λ n. true) true "t")
        (map (wire message 2 (omega arith) (omega arith) "t") shuffled)
      ≡ ok a)
    × ((is_complete a ≡ true) ↔ (
        (i : ℕ)
        → i < count_chunks (length message) 2
        → contains i (map (λ c. c.index) shuffled) ≡ true))
    × (is_complete a ≡ true → assembled a ≡ ok message)
reassembly_example =
    reassembly message 2 (omega arith) (omega arith) (λ n. true) true "t" shuffled
      ((omega arith, refl), ((omega arith, refl), ((omega arith, refl), ((omega arith, refl), tt))))

-- a decoder that takes the bytes as they are
abbrev as_bytes : List ℕ → Result (List ℕ)
as_bytes bytes = ok bytes

run-IsConsistent_example :
    IsConsistent
      (run as_bytes new_manager (
        (5, starts (λ n. true) (header message 2 (omega arith) "t" 7 8 true))
        ∷ (6, chunks (raw_chunk "t" 0 (10 ∷ 20 ∷ [])))
        ∷ (40000, cancels "u")
        ∷ [])).0
run-IsConsistent_example = run-IsConsistent as_bytes new_manager _ new_manager-IsConsistent

-- one transfer, started at time 5
abbrev waiting : ChunkingManager
waiting = register (λ n. true) new_manager 5 (header message 2 (omega arith) "t" 7 8 true)

sweep_stale_exact_example : lookup "t" (sweep_stale {A = List ℕ} waiting 40000).0.assemblers ≡ (
    if is_stale 40000 (lookup "t" waiting.last_activity)
    then none
    else lookup "t" waiting.assemblers)
unfolding register insert
sweep_stale_exact_example =
    sweep_stale_exact (List ℕ) waiting 40000 "t"
      (register-IsConsistent (λ n. true) new_manager 5 (header message 2 (omega arith) "t" 7 8 true)
        new_manager-IsConsistent)
      refl refl

abbrev arrivals : List (ℕ × ChunkData)
arrivals = (10, piece 2) ∷ (20, piece 0) ∷ (30010, piece 2) ∷ []

-- every index below 3 is there
all_three :
    (js : List ℕ)
    → contains 0 js ≡ true
    → contains 1 js ≡ true
    → contains 2 js ≡ true
    → (k : ℕ) → k < count_chunks (length message) 2
    → contains k js ≡ true
all_three js a b c zero h = a
all_three js a b c (suc zero) h = b
all_three js a b c (suc (suc zero)) h = c
all_three js a b c (suc (suc (suc k))) h = absurd (omega arith)

abbrev t : String
t = "t"

named_t : t ≢ ""
named_t e = false≢true ((eq_iff "t" "").1 e)

transfer_delivered_example :
    let (s', before) =
      start_receiving {A = List ℕ}
        (λ n. true)
        new_manager
        5
        (header message 2 (omega arith) "t" 7 8 true) in
    let (s'', events) = process_all as_bytes "t" s' (arrivals ++ (30020, piece 1) ∷ []) in
    (lookup "t" s''.assemblers ≡ none)
    × (es : List (Event (List ℕ))) × OnlyTimeouts es
    × (before ++ events ≡ es ++ completed 7 message ∷ [])
unfolding contains
transfer_delivered_example =
    transfer_delivered message 2 (omega arith) as_bytes (omega arith) "t" named_t 7 8 (λ n. true)
      true new_manager 5 arrivals 30020 (piece 1) message new_manager-IsConsistent
      (
        omega arith,
        omega arith,
        refl,
        (
          omega arith,
          omega arith,
          refl,
          (omega arith, omega arith, refl, (omega arith, omega arith, refl, tt)),
        ),
      )
      refl (all_three (2 ∷ 0 ∷ 2 ∷ 1 ∷ []) refl refl refl) refl

-- an assembler whose last transfer had chunks of nine bytes
abbrev pooled : ChunkAssembler
pooled = record (new_assembler "old") { chunk_size = some 9 }

reused_size_loses_chunk_example :
    let a0 = set_expected_chunks (λ n. true) (reuse pooled "t") 2 (some 3) none in
    let a2 = receive (receive a0 0 (10 ∷ 20 ∷ []) false) 1 (30 ∷ []) false in
    (is_complete a2 ≡ true) × (assembled a2 ≡ ok (10 ∷ 20 ∷ 0 ∷ []))
reused_size_loses_chunk_example =
    reused_size_loses_chunk (10 ∷ 20 ∷ []) (30 ∷ []) (omega arith) (omega arith) (λ n. true) pooled
      "t" 9 refl refl (omega arith)
