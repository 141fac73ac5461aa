-- ===== src/Chunking/Manager/EndToEnd.antt =====
-- A whole transfer through the manager, from its header to its completion callback.
use mathlib.Core.List.{append_assoc}
use camera_ui_rpc.Base.{
  ℕ, ◌<◌, String, ◌≡◌, ◌≢◌, refl, sym, ap, ◌∙◌, Bool, true, false, Option, none, some, List, [],
  ◌∷◌, ◌++◌, arith, length, replicate, length-replicate, lt→ltb, ℕ_eq, String_eq, same_self,
  if◌then◌else◌,
}
use camera_ui_rpc.Base.Result.{Result, ok}
use camera_ui_rpc.Base.Dict.{Dict, lookup, contains, lookup-insert}
use camera_ui_rpc.Chunking.Chunks.{ChunkData, count_chunks}
use camera_ui_rpc.Chunking.Assembler.{ChunkAssembler, set_expected_chunks}
use camera_ui_rpc.Chunking.Storage.{Receives, Stored}
use camera_ui_rpc.Chunking.Manager.{
  ChunkingManager, Event, Transfer, completed, get_assembler, sweep_stale, register,
  start_receiving,
}
use camera_ui_rpc.Chunking.Manager.Keeping.{
  IsConsistent, sweep_stale-IsConsistent, register-IsConsistent,
}
use camera_ui_rpc.Chunking.Manager.Sweep.{
  OnlyTimeouts, OnlyTimeouts-append, sweep_stale-OnlyTimeouts,
}
use camera_ui_rpc.Chunking.Manager.Arrivals.{InTime, indices, process_all}
use camera_ui_rpc.Chunking.Manager.Stored.{Serves}
use camera_ui_rpc.Chunking.Manager.Delivery.{delivery}

module _ (encoded : List ℕ) (m : ℕ) (nonempty : 0 < length encoded) where
  -- the header that a sender puts before the chunks of the message; the total size may be missing
  abbrev pub header : String → ℕ → ℕ → Bool → Transfer
  header tid callback on_error sized = record {
    transfer_id = tid;
    total_chunks = count_chunks (length encoded) m;
    on_complete = callback;
    on_error = on_error;
    total_size = if sized then some (length encoded) else none;
    chunk_size = some m;
  }

  buffer_stored :
      (allocated : Bool) (temp : Dict ℕ (List ℕ))
      → Stored encoded m
          (length encoded)
          (if allocated then some (replicate (length encoded) 0) else none)
          temp
          []
  unfolding contains
  buffer_stored true temp = (refl, length-replicate (length encoded) 0, λ i p h. cc)
  buffer_stored false temp = λ i h. cc

  -- An assembler without chunks, new or taken from the pool, is ready for the message.
  expected-Receives :
      (allocates : ℕ → Bool) (sized : Bool) (a : ChunkAssembler) (tid : String)
      → a.id ≡ tid
      → a.chunks_received ≡ []
      → a.buffer ≡ none
      → Receives encoded m tid (
          set_expected_chunks allocates a
            (count_chunks (length encoded) m)
            (if sized then some (length encoded) else none)
            (some m))
  unfolding set_expected_chunks contains
  expected-Receives allocates true a tid e r b = rw (lt→ltb 0 (length encoded) nonempty) (record {
    id = e;
    total = refl;
    size = refl;
    distinct = rw r tt;
    below = rw r tt;
    stored = rw r (buffer_stored (allocates (length encoded)) a.temp_chunks);
  })
  expected-Receives allocates false a tid e r b = record {
    id = e;
    total = refl;
    size = refl;
    distinct = rw r tt;
    below = rw r tt;
    stored = rw (b, r) (λ i h. cc);
  }

  ready_none :
      (allocates : ℕ → Bool) (a : ChunkAssembler) (count : ℕ) (total size : Option ℕ)
      → (set_expected_chunks allocates a count total size).chunks_received ≡ a.chunks_received
  unfolding set_expected_chunks
  ready_none allocates a count total size = ground arith

  taken_ready :
      (pool : List ChunkAssembler) (tid : String)
      → ((get_assembler pool tid).0.id ≡ tid)
        × ((get_assembler pool tid).0.chunks_received ≡ [])
        × ((get_assembler pool tid).0.buffer ≡ none)
  unfolding get_assembler
  taken_ready [] tid = (refl, refl, refl)
  taken_ready (a ∷ pool) tid = (refl, refl, refl)

  module _ {A : Type 0} (decode_message : List ℕ → Result A) (hm : 0 < m) (tid : String)
      (named : tid ≢ "") (callback on_error : ℕ) where
    register-Serves :
        (allocates : ℕ → Bool) (sized : Bool) (s : ChunkingManager) (now : ℕ)
        → IsConsistent s
        → Serves decode_message encoded m hm nonempty tid named callback
            (register allocates s now (header tid callback on_error sized))
            now
            []
    register-Serves allocates sized s now c =
        let (named_a, none_yet, no_buffer) = taken_ready s.assembler_pool tid in
        let a = (get_assembler s.assembler_pool tid).0 in
        let ready =
          set_expected_chunks allocates a (count_chunks (length encoded) m)
            (if sized then some (length encoded) else none) (some m) in
        let kept = register-IsConsistent allocates s now (header tid callback on_error sized) c in
        record {
          consistent = kept;
          assembler = ready;
          found = unfold register in lookup-insert tid tid ready s.assemblers ∙ rw (same_self tid);
          receives = expected-Receives allocates sized a tid named_a none_yet no_buffer;
          got = λ k. ap (contains k) (ready_none allocates a _ _ _ ∙ none_yet);
          calls =
              unfold register in
              lookup-insert tid tid callback s.completed_callbacks ∙ rw (same_self tid);
          active =
              unfold register in lookup-insert tid tid now s.last_activity ∙ rw (same_self tid);
        }

    -- Take a non-empty message, a positive chunk size, a non-empty transfer id and a consistent
    -- manager. After its header, with or without a total size, at `start`, the chunks of the message
    -- arrive: in any order, some of them more than once, each within 30 seconds of the call before
    -- it, and the last one is the first to complete the set. If the message decodes, then the last
    -- call hands the decoded message to the completion callback; every other event of these calls
    -- is a time-out; and the manager has forgotten the transfer.
    pub transfer_delivered :
        (allocates : ℕ → Bool) (sized : Bool) (s : ChunkingManager) (start : ℕ)
        (cs : List (ℕ × ChunkData)) (now : ℕ) (final : ChunkData) (x : A)
        → IsConsistent s
        → InTime encoded m start (cs ++ (now, final) ∷ [])
        → contains final.index (indices cs) ≡ false
        → ((k : ℕ)
            → k < count_chunks (length encoded) m
            → contains k (indices (cs ++ (now, final) ∷ [])) ≡ true)
        → decode_message encoded ≡ ok x
        → let (s', before) =
            start_receiving {A = A} allocates s start (header tid callback on_error sized) in
          let (s'', events) = process_all decode_message tid s' (cs ++ (now, final) ∷ []) in
          (lookup tid s''.assemblers ≡ none)
          × (es : List (Event A)) × OnlyTimeouts es
          × (before ++ events ≡ es ++ completed callback x ∷ [])
    transfer_delivered allocates sized s start cs now final x c timely unseen all decodes =
        let (s', before) = sweep_stale {A = A} s start in
        let swept = sweep_stale-IsConsistent A s start c in
        let v = register-Serves allocates sized s' start swept in
        let (gone, es, only, reported) =
          delivery decode_message encoded m hm nonempty tid named callback _ start cs now final x v
            timely unseen all decodes in
        unfold start_receiving in
        (
          gone,
          before ++ es,
          OnlyTimeouts-append before es (sweep_stale-OnlyTimeouts A s start) only,
          ap (◌++◌ before) reported ∙ sym (append_assoc before es (completed callback x ∷ [])),
        )
