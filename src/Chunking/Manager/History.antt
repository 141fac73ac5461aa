-- ===== src/Chunking/Manager/History.antt =====
-- Histories of calls on a chunking manager.
use camera_ui_rpc.Base.{ℕ, String, Bool, List, [], ◌∷◌, ◌++◌}
use camera_ui_rpc.Base.Result.{Result}
use camera_ui_rpc.Chunking.Assembler.{Chunk}
use camera_ui_rpc.Chunking.Manager.{
  ChunkingManager, Event, Transfer, start_receiving, process_chunk, cancel,
}
use camera_ui_rpc.Chunking.Manager.Keeping.{
  IsConsistent, sweep_stale-IsConsistent, register-IsConsistent, drop_transfer-IsConsistent,
}
use camera_ui_rpc.Chunking.Manager.Consistency.{process_chunk-IsConsistent}

-- What happens to a manager, with the time at which it happens.
pub data Call : Type 0 where
  starts : (ℕ → Bool) → Transfer → Call
  chunks : Chunk → Call
  cancels : String → Call

module _ {A : Type 0} (decode_message : List ℕ → Result A) where
  pub step : ChunkingManager → ℕ × Call → ChunkingManager × List (Event A)
  step m (now, starts allocates t) = start_receiving allocates m now t
  step m (now, chunks chunk) = process_chunk decode_message m now chunk
  step m (now, cancels tid) = cancel m tid

  pub run : ChunkingManager → List (ℕ × Call) → ChunkingManager × List (Event A)
  run m [] = (m, [])
  run m (c ∷ cs) =
      let (m', events) = step m c in let (m'', rest) = run m' cs in (m'', events ++ rest)

  step-IsConsistent :
      (m : ChunkingManager) (c : ℕ × Call) → IsConsistent m → IsConsistent (step m c).0
  step-IsConsistent m (now, starts allocates t) c =
      let swept = register-IsConsistent allocates _ now t (sweep_stale-IsConsistent A m now c) in
      unfold step start_receiving in swept
  step-IsConsistent m (now, chunks chunk) c =
      let processed = process_chunk-IsConsistent decode_message m now chunk c in
      unfold step in processed
  step-IsConsistent m (now, cancels tid) c =
      let dropped = drop_transfer-IsConsistent m tid c in unfold step cancel in dropped

  -- After any history of transfers, chunks and cancellations a consistent manager is consistent:
  -- a transfer has an assembler, a time of last activity and both callbacks, or none of these;
  -- each assembler carries its transfer's id; and the pool has at most ten assemblers, without
  -- any bytes.
  pub run-IsConsistent :
      (m : ChunkingManager) (cs : List (ℕ × Call)) → IsConsistent m → IsConsistent (run m cs).0
  unfolding run
  run-IsConsistent m [] c = c
  run-IsConsistent m (call ∷ cs) c =
      run-IsConsistent (step m call).0 cs (step-IsConsistent m call c)
