-- ===== src/Chunking/Manager.antt =====
-- `ChunkingManager` of chunking.py. The clock is an argument of each call, in milliseconds, read
-- once per call. Callbacks are numbered, and calling one is an event that the call returns.
pub mod Consistency
pub mod History
pub mod Sweep
pub mod Arrivals
pub mod Stored
pub mod Delivery
pub mod EndToEnd
pub mod Reuse
pub mod Keeping
use camera_ui_rpc.Base.{
  ℕ, ◌+◌, ◌-◌, String, Bool, true, false, Option, none, some, List, [], ◌∷◌, ◌++◌, length, ltb,
  ◌==◌, String_eq, if◌then◌else◌,
}
use camera_ui_rpc.Base.Result.{Error, Result, ok, err}
use camera_ui_rpc.Base.Dict.{Dict, lookup, insert, erase}
use camera_ui_rpc.Chunking.Assembler.{
  ChunkAssembler, Chunk, new_assembler, set_expected_chunks, add_chunk, get_data,
}

-- why an error callback is called
pub data Failure : Type 0 where
  timed_out cancelled : Failure
  raised : Error → Failure

pub data Event (A : Type 0) : Type 0 where
  completed : ℕ → A → Event A
  failed : ℕ → Failure → Event A

pub record ChunkingManager : Type 0 where
  pub assemblers : Dict String ChunkAssembler
  pub completed_callbacks : Dict String ℕ
  pub error_callbacks : Dict String ℕ
  -- the last element of the Python list is the head here
  pub assembler_pool : List ChunkAssembler
  pub last_activity : Dict String ℕ
  pub last_sweep : ℕ

abbrev pub new_manager : ChunkingManager
new_manager = record {
  assemblers = [];
  completed_callbacks = [];
  error_callbacks = [];
  assembler_pool = [];
  last_activity = [];
  last_sweep = 0;
}

abbrev pub stale_transfer_ttl : ℕ
stale_transfer_ttl = 30000

abbrev pub sweep_interval : ℕ
sweep_interval = 1000

abbrev pub pool_limit : ℕ
pool_limit = 10

-- A reused assembler keeps its old chunk size.
unfoldable pub reuse : ChunkAssembler → String → ChunkAssembler
reuse a transfer_id = record a {
  id = transfer_id;
  chunks_received = [];
  total_chunks = none;
  total_size = 0;
  buffer = none;
  temp_chunks = [];
}

unfoldable pub get_assembler : List ChunkAssembler → String → ChunkAssembler × List ChunkAssembler
unfolding reuse new_assembler
get_assembler [] transfer_id = (new_assembler transfer_id, [])
get_assembler (a ∷ pool) transfer_id = (reuse a transfer_id, pool)

unfoldable pub return_assembler : List ChunkAssembler → ChunkAssembler → List ChunkAssembler
return_assembler pool a =
    if ltb (length pool) pool_limit
    then record a { buffer = none; temp_chunks = [] } ∷ pool
    else pool

abbrev pub return_popped : List ChunkAssembler → Option ChunkAssembler → List ChunkAssembler
return_popped pool none = pool
return_popped pool (some a) = return_assembler pool a

-- the dictionaries and the pool once a transfer has been dropped
unfoldable pub drop_transfer : ChunkingManager → String → ChunkingManager
unfolding return_assembler
drop_transfer m transfer_id = record m {
  assemblers = erase transfer_id m.assemblers;
  completed_callbacks = erase transfer_id m.completed_callbacks;
  error_callbacks = erase transfer_id m.error_callbacks;
  assembler_pool = return_popped m.assembler_pool (lookup transfer_id m.assemblers);
  last_activity = erase transfer_id m.last_activity;
}

abbrev pub error_event : {A : Type 0} → Option ℕ → Failure → List (Event A)
error_event none e = []
error_event (some callback) e = failed callback e ∷ []

unfoldable pub handle_error :
    {A : Type 0} → ChunkingManager → String → Failure → ChunkingManager × List (Event A)
unfolding drop_transfer
handle_error m transfer_id e =
    (drop_transfer m transfer_id, error_event (lookup transfer_id m.error_callbacks) e)

unfoldable pub cancel : {A : Type 0} → ChunkingManager → String → ChunkingManager × List (Event A)
unfolding handle_error
cancel m transfer_id = handle_error m transfer_id cancelled

-- `[tid for tid, ts in self._last_activity.items() if ts < now - ttl]`
unfoldable pub stale_transfers : ℕ → Dict String ℕ → List String
stale_transfers now [] = []
stale_transfers now ((tid, ts) ∷ rest) =
    let others = stale_transfers now rest in
    if ltb (ts + stale_transfer_ttl) now then tid ∷ others else others

-- the loop over the stale transfers
unfoldable pub expire_all :
    {A : Type 0} → List String → ChunkingManager → ChunkingManager × List (Event A)
unfolding handle_error
expire_all [] m = (m, [])
expire_all (tid ∷ tids) m =
    let (m', events) = handle_error m tid timed_out in
    let (m'', rest) = expire_all tids m' in (m'', events ++ rest)

abbrev pub has_entries : Dict String ℕ → Bool
has_entries [] = false
has_entries (x ∷ rest) = true

unfoldable pub sweep_stale : {A : Type 0} → ChunkingManager → ℕ → ChunkingManager × List (Event A)
unfolding expire_all stale_transfers
sweep_stale m now =
    if has_entries m.last_activity
    then (if ltb (now - m.last_sweep) sweep_interval
        then (m, [])
        else expire_all (stale_transfers now m.last_activity) (record m { last_sweep = now }))
    else (m, [])

-- the header of a transfer, with the numbers of its two callbacks
pub record Transfer : Type 0 where
  pub transfer_id : String
  pub total_chunks : ℕ
  pub on_complete : ℕ
  pub on_error : ℕ
  pub total_size : Option ℕ
  pub chunk_size : Option ℕ

-- `start_receiving` behind its sweep
unfoldable pub register : (ℕ → Bool) → ChunkingManager → ℕ → Transfer → ChunkingManager
unfolding get_assembler set_expected_chunks
register allocates m now t =
    let (a, pool) = get_assembler m.assembler_pool t.transfer_id in
    record m {
      assemblers =
          insert t.transfer_id
            (set_expected_chunks allocates a t.total_chunks t.total_size t.chunk_size) m.assemblers;
      completed_callbacks = insert t.transfer_id t.on_complete m.completed_callbacks;
      error_callbacks = insert t.transfer_id t.on_error m.error_callbacks;
      assembler_pool = pool;
      last_activity = insert t.transfer_id now m.last_activity;
    }

unfoldable pub start_receiving :
    {A : Type 0} → (ℕ → Bool) → ChunkingManager → ℕ → Transfer → ChunkingManager × List (Event A)
unfolding sweep_stale register
start_receiving allocates m now t =
    let (m', events) = sweep_stale m now in (register allocates m' now t, events)

-- `chunk.get("id") or chunk.get("transferId")`; the empty text counts as missing
abbrev pub truthy_or : Option String → Option String → Option String
truthy_or none other = other
truthy_or (some s) other = if s == "" then other else some s

unfoldable pub transfer_of : Chunk → Option String
transfer_of chunk = truthy_or chunk.id (truthy_or chunk.transfer_id none)

abbrev pub or_given : {B : Type 0} → Option B → Option B → Option B
or_given none y = y
or_given (some x) y = some x

-- the two missing keys that `process_chunk` fills in
unfoldable pub normalise : Chunk → String → Chunk
normalise chunk transfer_id = record chunk {
  transfer_id = or_given chunk.transfer_id (some transfer_id);
  index = or_given chunk.index chunk.chunk_index;
}

abbrev pub complete_event : {A : Type 0} → Option ℕ → A → List (Event A)
complete_event none x = []
complete_event (some callback) x = completed callback x ∷ []

module _ {A : Type 0} (decode_message : List ℕ → Result A) where
  -- the completed transfer: decode, forget it, call back
  unfoldable pub finish_transfer :
      ChunkingManager → String → Result A → ChunkingManager × List (Event A)
  unfolding handle_error
  finish_transfer m transfer_id (err e) = handle_error m transfer_id (raised e)
  finish_transfer m transfer_id (ok x) =
      (drop_transfer m transfer_id, complete_event (lookup transfer_id m.completed_callbacks) x)

  -- the `try` block of `process_chunk`, from the outcome of `add_chunk` on
  unfoldable pub chunk_added :
      ChunkingManager → String → Result (ChunkAssembler × Bool) → ChunkingManager × List (Event A)
  unfolding finish_transfer
  chunk_added m transfer_id (err e) = handle_error m transfer_id (raised e)
  chunk_added m transfer_id (ok (a, done)) =
      let m' = record m { assemblers = insert transfer_id a m.assemblers } in
      if done then finish_transfer m' transfer_id (get_data decode_message a) else (m', [])

  -- a chunk of a transfer, if that transfer is known
  unfoldable pub deliver :
      ChunkingManager
      → ℕ
      → Chunk
      → String
      → Option ChunkAssembler
      → ChunkingManager × List (Event A)
  unfolding chunk_added normalise
  deliver m now chunk transfer_id none = (m, [])
  deliver m now chunk transfer_id (some a) =
      chunk_added (record m { last_activity = insert transfer_id now m.last_activity }) transfer_id
        (add_chunk a (normalise chunk transfer_id))

  unfoldable pub route_chunk :
      ChunkingManager → ℕ → Chunk → Option String → ChunkingManager × List (Event A)
  unfolding deliver
  route_chunk m now chunk none = (m, [])
  route_chunk m now chunk (some tid) = deliver m now chunk tid (lookup tid m.assemblers)

  unfoldable pub process_chunk : ChunkingManager → ℕ → Chunk → ChunkingManager × List (Event A)
  unfolding sweep_stale transfer_of route_chunk
  process_chunk m now chunk =
      let (m', swept) = sweep_stale {A = A} m now in
      let (m'', events) = route_chunk m' now chunk (transfer_of chunk) in (m'', swept ++ events)
