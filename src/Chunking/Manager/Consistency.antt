-- ===== src/Chunking/Manager/Consistency.antt =====
-- The four dictionaries of the manager speak of the same transfers, and its pool stays small.
use camera_ui_rpc.Base.{
  ℕ, String, ◌≡◌, refl, Bool, true, false, Option, none, some, List, arith, String_eq,
}
use camera_ui_rpc.Base.Result.{Result, ok, err}
use camera_ui_rpc.Base.Dict.{lookup}
use camera_ui_rpc.Chunking.Assembler.{ChunkAssembler, Chunk, add_chunk, get_data}
use camera_ui_rpc.Chunking.Manager.{
  ChunkingManager, finish_transfer, chunk_added, deliver, route_chunk, new_manager, process_chunk,
  normalise, transfer_of,
}
use camera_ui_rpc.Chunking.Manager.Keeping.{
  IsConsistent, drop_transfer-IsConsistent, sweep_stale-IsConsistent, id-add_chunk,
  updated-IsConsistent, touched-IsConsistent,
}

module _ {A : Type 0} (decode_message : List ℕ → Result A) where
  finish_transfer-IsConsistent :
      (m : ChunkingManager) (tid : String) (outcome : Result A)
      → IsConsistent m
      → IsConsistent (finish_transfer decode_message m tid outcome).0
  unfolding finish_transfer
  finish_transfer-IsConsistent m tid (ok x) c = drop_transfer-IsConsistent m tid c
  finish_transfer-IsConsistent m tid (err e) c = drop_transfer-IsConsistent m tid c

  chunk_added-IsConsistent :
      (m : ChunkingManager) (tid : String) (a : ChunkAssembler)
      (outcome : Result (ChunkAssembler × Bool))
      → lookup tid m.assemblers ≡ some a
      → ((a' : ChunkAssembler) (done : Bool) → outcome ≡ ok (a', done) → a'.id ≡ a.id)
      → IsConsistent m
      → IsConsistent (chunk_added decode_message m tid outcome).0
  unfolding chunk_added
  chunk_added-IsConsistent m tid a (err e) found same c = drop_transfer-IsConsistent m tid c
  chunk_added-IsConsistent m tid a (ok (a', true)) found same c =
      finish_transfer-IsConsistent _ tid (get_data decode_message a')
        (updated-IsConsistent m tid a a' found (same a' true refl) c)
  chunk_added-IsConsistent m tid a (ok (a', false)) found same c =
      updated-IsConsistent m tid a a' found (same a' false refl) c

  deliver-IsConsistent :
      (m : ChunkingManager) (now : ℕ) (chunk : Chunk) (tid : String) (a : Option ChunkAssembler)
      → lookup tid m.assemblers ≡ a
      → IsConsistent m
      → IsConsistent (deliver decode_message m now chunk tid a).0
  unfolding deliver
  deliver-IsConsistent m now chunk tid none found c = c
  deliver-IsConsistent m now chunk tid (some a) found c =
      chunk_added-IsConsistent _ tid a (add_chunk a (normalise chunk tid)) found
        (λ a' done. id-add_chunk a a' (normalise chunk tid) done)
        (touched-IsConsistent m tid now a found c)

  route_chunk-IsConsistent :
      (m : ChunkingManager) (now : ℕ) (chunk : Chunk) (tid : Option String)
      → IsConsistent m
      → IsConsistent (route_chunk decode_message m now chunk tid).0
  unfolding route_chunk
  route_chunk-IsConsistent m now chunk none c = c
  route_chunk-IsConsistent m now chunk (some tid) c =
      deliver-IsConsistent m now chunk tid (lookup tid m.assemblers) refl c

  pub process_chunk-IsConsistent :
      (m : ChunkingManager) (now : ℕ) (chunk : Chunk)
      → IsConsistent m
      → IsConsistent (process_chunk decode_message m now chunk).0
  process_chunk-IsConsistent m now chunk c =
      let swept = sweep_stale-IsConsistent A m now c in
      let routed = route_chunk-IsConsistent _ now chunk (transfer_of chunk) swept in
      unfold process_chunk in routed

pub new_manager-IsConsistent : IsConsistent new_manager
unfolding lookup
new_manager-IsConsistent = record {
  completed = λ tid. refl;
  errors = λ tid. refl;
  activity = λ tid. refl;
  named = λ tid a h. cc;
  small = omega arith;
  clean = tt;
  unique = tt;
}
