-- ===== src/Chunking/Manager/Stored.antt =====
-- One chunk in time: the manager of chunking.py stores it, and the last one completes the transfer.
use camera_ui_rpc.Base.{
  ℕ, ◌+◌, ◌≤◌, ◌<◌, String, ◌≡◌, ◌≢◌, refl, ap, ◌∙◌, true, false, none, some, List, [], ◌∷◌, ◌++◌,
  arith, length, ◌==◌, ℕ_eq, String_eq, same_self, if◌then◌else◌, inl, inr, Bool-cases,
}
use camera_ui_rpc.Base.Result.{Result, ok}
use camera_ui_rpc.Base.Dict.{lookup, insert, contains, lookup-insert, lookup-erase, contains-add}
use camera_ui_rpc.Base.Sets.{contains_of_full, full_of_contains}
use camera_ui_rpc.Chunking.Chunks.{chunk_at, count_chunks}
use camera_ui_rpc.Chunking.Assembler.{ChunkAssembler, receive, is_complete, get_data}
use camera_ui_rpc.Chunking.Storage.{Receives, receive-Receives}
use camera_ui_rpc.Chunking.Complete.{received-receive, get_complete, complete_full, full_complete}
use camera_ui_rpc.Chunking.Reassembly.{add_chunk_lem}
use camera_ui_rpc.Chunking.Manager.{
  ChunkingManager, Event, completed, stale_transfer_ttl, drop_transfer, sweep_stale,
  finish_transfer, chunk_added, route_chunk, process_chunk,
}
use camera_ui_rpc.Chunking.Manager.Keeping.{IsConsistent}
use camera_ui_rpc.Chunking.Manager.Consistency.{process_chunk-IsConsistent}
use camera_ui_rpc.Chunking.Manager.Sweep.{
  sweep_stale_keeps, OnlyTimeouts, OnlyTimeouts-append, sweep_stale-OnlyTimeouts,
}
use camera_ui_rpc.Chunking.Manager.Arrivals.{raw_chunk, transfer_of-raw_chunk}

module _ {A : Type 0} (decode_message : List ℕ → Result A) (encoded : List ℕ) (m : ℕ) (hm : 0 < m)
    (nonempty : 0 < length encoded) (tid : String) (named : tid ≢ "") (callback : ℕ) where
  -- The manager has the transfer, last active at `last`, with the chunks `js` received.
  pub record Serves (s : ChunkingManager) (last : ℕ) (js : List ℕ) : Type 0 where
    pub consistent : IsConsistent s
    pub assembler : ChunkAssembler
    pub found : lookup tid s.assemblers ≡ some assembler
    pub receives : Receives encoded m tid assembler
    pub got : (k : ℕ) → contains k assembler.chunks_received ≡ contains k js
    pub calls : lookup tid s.completed_callbacks ≡ some callback
    pub active : lookup tid s.last_activity ≡ some last

  routed :
      (s : ChunkingManager) (now i : ℕ) (a : ChunkAssembler)
      → lookup tid s.assemblers ≡ some a
      → a.id ≡ tid
      → route_chunk decode_message s now (raw_chunk tid i (chunk_at encoded m i)) (some tid) ≡ (
          let a' = receive a i (chunk_at encoded m i) false in
          chunk_added decode_message
            (record s { last_activity = insert tid now s.last_activity })
            tid
            (ok (a', is_complete a')))
  unfolding route_chunk
  routed s now i a found same =
      rw (found, add_chunk_lem encoded m hm nonempty tid a i (chunk_at encoded m i) same)

  abbrev swept : ChunkingManager → ℕ → ChunkingManager
  swept s now = (sweep_stale {A = A} s now).0

  abbrev next : ChunkAssembler → ℕ → ChunkAssembler
  next a i = receive a i (chunk_at encoded m i) false

  -- the manager and the events once the chunk is stored
  abbrev stored : ChunkingManager → ℕ → ℕ → ChunkAssembler → ChunkingManager × List (Event A)
  stored s now i a =
      chunk_added decode_message (record s { last_activity = insert tid now s.last_activity }) tid
        (ok (next a i, is_complete (next a i)))

  processed :
      (s : ChunkingManager) (now i : ℕ) (a : ChunkAssembler)
      → lookup tid (swept s now).assemblers ≡ some a
      → a.id ≡ tid
      → process_chunk decode_message s now (raw_chunk tid i (chunk_at encoded m i)) ≡ (
        (stored (swept s now) now i a).0,
        (sweep_stale {A = A} s now).1 ++ (stored (swept s now) now i a).1,
      )
  processed s now i a found same =
      let route = routed (swept s now) now i a found same in
      let known = transfer_of-raw_chunk tid i (chunk_at encoded m i) named in
      unfold process_chunk in rw (known, route)

  contains-next :
      (a : ChunkAssembler) (i k : ℕ)
      → contains k (next a i).chunks_received
        ≡ (if i == k then true else contains k a.chunks_received)
  contains-next a i k =
      ap (contains k) (received-receive encoded m hm nonempty a i (chunk_at encoded m i) false)
      ∙ contains-add i k a.chunks_received

  not_complete :
      (a : ChunkAssembler) (i k : ℕ)
      → Receives encoded m tid (next a i)
      → k < count_chunks (length encoded) m
      → contains k a.chunks_received ≡ false
      → i ≢ k
      → is_complete (next a i) ≡ false
  not_complete a i k r lt missing ne = elim (Bool-cases (is_complete (next a i))) [
    | inr open_still ↦ open_still
    | inl done ↦
        let full = complete_full encoded m hm nonempty (next a i) r.total done in
        let has =
          contains_of_full (count_chunks (length encoded) m) (next a i).chunks_received k r.distinct
            r.below full lt in
        absurd (ne (ground (arith, contains-next a i k, has, missing)))
  ]

  abbrev after_chunk : ChunkingManager → ℕ → ℕ → ChunkAssembler → ChunkingManager
  after_chunk s now i a = record s {
    assemblers = insert tid (next a i) s.assemblers;
    last_activity = insert tid now s.last_activity;
  }

  stored_wait :
      (s : ChunkingManager) (now i : ℕ) (a : ChunkAssembler)
      → is_complete (next a i) ≡ false
      → stored s now i a ≡ (after_chunk s now i a, [])
  unfolding chunk_added
  stored_wait s now i a h = rw h

  stored_done :
      (s : ChunkingManager) (now i : ℕ) (a : ChunkAssembler) (x : A)
      → is_complete (next a i) ≡ true
      → get_data decode_message (next a i) ≡ ok x
      → lookup tid s.completed_callbacks ≡ some callback
      → stored s now i a ≡ (drop_transfer (after_chunk s now i a) tid, completed callback x ∷ [])
  stored_done s now i a x h got calls = unfold chunk_added finish_transfer in rw (h, got, calls)

  -- A chunk in time that leaves another one missing is stored; nothing but time-outs is reported.
  pub step_wait :
      (s : ChunkingManager) (last now i k : ℕ) (js : List ℕ)
      → Serves s last js
      → i < count_chunks (length encoded) m
      → now ≤ last + stale_transfer_ttl
      → k < count_chunks (length encoded) m
      → contains k js ≡ false
      → i ≢ k
      → let out = process_chunk decode_message s now (raw_chunk tid i (chunk_at encoded m i)) in
        Serves out.0 now (i ∷ js) × OnlyTimeouts out.1
  step_wait s last now i k js v lt time kt missing ne =
      let chunk = raw_chunk tid i (chunk_at encoded m i) in
      let a = v.assembler in
      let (kept, calls) = sweep_stale_keeps A s now last tid v.consistent v.active time in
      let found : lookup tid (swept s now).assemblers ≡ some a = kept ∙ v.found in
      let r = receive-Receives encoded m i hm lt tid a v.receives in
      let waits = not_complete a i k r kt (v.got k ∙ missing) ne in
      let c' = process_chunk-IsConsistent decode_message s now chunk v.consistent in
      let out =
        processed s now i a found v.receives.id
        ∙ ap (λ p. (p.0, (sweep_stale {A = A} s now).1 ++ p.1))
            (stored_wait (swept s now) now i a waits) in
      rw out (
        record {
          consistent = rw out at c';
          assembler = next a i;
          found = lookup-insert tid tid (next a i) (swept s now).assemblers ∙ rw (same_self tid);
          receives = r;
          got = λ j. contains-next a i j ∙ (unfold contains in ground (arith, v.got j));
          calls = calls ∙ v.calls;
          active = lookup-insert tid tid now (swept s now).last_activity ∙ rw (same_self tid);
        },
        OnlyTimeouts-append (sweep_stale {A = A} s now).1 [] (sweep_stale-OnlyTimeouts A s now) tt,
      )

  -- The chunk that was still missing completes the transfer.
  pub step_done :
      (s : ChunkingManager) (last now i : ℕ) (js : List ℕ) (x : A)
      → Serves s last js
      → i < count_chunks (length encoded) m
      → now ≤ last + stale_transfer_ttl
      → ((k : ℕ) → k < count_chunks (length encoded) m → contains k (i ∷ js) ≡ true)
      → decode_message encoded ≡ ok x
      → let out = process_chunk decode_message s now (raw_chunk tid i (chunk_at encoded m i)) in
        (lookup tid out.0.assemblers ≡ none)
        × (es : List (Event A)) × OnlyTimeouts es
        × (out.1 ≡ es ++ completed callback x ∷ [])
  unfolding contains
  step_done s last now i js x v lt time all decodes =
      let a = v.assembler in
      let (kept, calls) = sweep_stale_keeps A s now last tid v.consistent v.active time in
      let found : lookup tid (swept s now).assemblers ≡ some a = kept ∙ v.found in
      let r = receive-Receives encoded m i hm lt tid a v.receives in
      let full =
        full_of_contains (count_chunks (length encoded) m) (next a i).chunks_received r.distinct
          r.below (λ k kt. contains-next a i k ∙ ground (arith, v.got k, all k kt)) in
      let done = full_complete encoded m hm nonempty (next a i) r.total full in
      let whole =
        get_complete encoded m hm nonempty (next a i) (next a i).buffer refl r.distinct r.below
          r.total r.stored done in
      let payload : get_data decode_message (next a i) ≡ ok x =
        unfold get_data in rw whole decodes in
      let out =
        processed s now i a found v.receives.id
        ∙ ap (λ p. (p.0, (sweep_stale {A = A} s now).1 ++ p.1))
            (stored_done (swept s now) now i a x done payload (calls ∙ v.calls)) in
      rw out (
        (unfold drop_transfer in lookup-erase tid tid _ ∙ rw (same_self tid)),
        (sweep_stale {A = A} s now).1,
        sweep_stale-OnlyTimeouts A s now,
        refl,
      )
