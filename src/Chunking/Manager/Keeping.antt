-- ===== src/Chunking/Manager/Keeping.antt =====
-- The four dictionaries of the manager speak of the same transfers, and its pool stays small: the
-- steps of the manager in chunking.py that keep it so.
use camera_ui_rpc.Base.{
  ℕ, ◌-◌, ◌≤◌, String, ◌≡◌, refl, ◌∙◌, Bool, true, false, Option, none, some, List, [], ◌∷◌, arith,
  length, ltb, eq_of_same, String_eq, inl, inr, Bool-cases,
}
use camera_ui_rpc.Base.Result.{ok}
use camera_ui_rpc.Base.Dict.{
  UniqueKeys, UniqueKeys-erase, UniqueKeys-insert, lookup, insert, dict_laws,
}
use camera_ui_rpc.Chunking.Assembler.{
  ChunkAssembler, Chunk, set_expected_chunks, add_chunk, receive,
}
use camera_ui_rpc.Chunking.Manager.{
  ChunkingManager, Transfer, pool_limit, sweep_interval, get_assembler, return_assembler,
  return_popped, drop_transfer, stale_transfers, expire_all, sweep_stale, has_entries, register,
}

abbrev pub is_some {ℓ} : {B : Type ℓ} → Option B → Bool
is_some none = false
is_some (some x) = true

-- A pooled assembler holds no bytes.
abbrev pub AllClean : List ChunkAssembler → Type 0
AllClean [] = Unit
AllClean (a ∷ pool) = (a.buffer ≡ none) × (a.temp_chunks ≡ []) × AllClean pool

pub record IsConsistent (m : ChunkingManager) : Type 0 where
  pub completed :
      (tid : String)
      → is_some (lookup tid m.completed_callbacks) ≡ is_some (lookup tid m.assemblers)
  pub errors :
      (tid : String) → is_some (lookup tid m.error_callbacks) ≡ is_some (lookup tid m.assemblers)
  pub activity :
      (tid : String) → is_some (lookup tid m.last_activity) ≡ is_some (lookup tid m.assemblers)
  pub named : (tid : String) (a : ChunkAssembler) → lookup tid m.assemblers ≡ some a → a.id ≡ tid
  pub small : length m.assembler_pool ≤ pool_limit
  pub clean : AllClean m.assembler_pool
  pub unique : UniqueKeys m.last_activity

return-clean :
    (pool : List ChunkAssembler) (popped : Option ChunkAssembler)
    → AllClean pool
    → AllClean (return_popped pool popped)
unfolding return_assembler
return-clean pool none h = h
return-clean pool (some a) h = ground arith

return-small :
    (pool : List ChunkAssembler) (popped : Option ChunkAssembler)
    → length pool ≤ pool_limit
    → length (return_popped pool popped) ≤ pool_limit
unfolding return_assembler
return-small pool none h = h
return-small pool (some a) h = ground arith

pub drop_transfer-IsConsistent :
    (m : ChunkingManager) (transfer_id : String)
    → IsConsistent m
    → IsConsistent (drop_transfer m transfer_id)
unfolding drop_transfer
drop_transfer-IsConsistent m k c = record {
  completed = λ tid. simp dict_laws (ground (arith, c.completed tid));
  errors = λ tid. simp dict_laws (ground (arith, c.errors tid));
  activity = λ tid. simp dict_laws (ground (arith, c.activity tid));
  named = λ tid a. simp dict_laws (ground (arith, c.named tid a));
  small = return-small m.assembler_pool (lookup k m.assemblers) c.small;
  clean = return-clean m.assembler_pool (lookup k m.assemblers) c.clean;
  unique = UniqueKeys-erase k m.last_activity c.unique;
}

expire_all-IsConsistent :
    (A : Type 0) (tids : List String) (m : ChunkingManager)
    → IsConsistent m
    → IsConsistent (expire_all {A = A} tids m).0
unfolding expire_all
expire_all-IsConsistent A [] m c = c
expire_all-IsConsistent A (tid ∷ tids) m c =
    expire_all-IsConsistent A tids (drop_transfer m tid) (drop_transfer-IsConsistent m tid c)

swept-IsConsistent :
    (m : ChunkingManager) (now : ℕ) → IsConsistent m → IsConsistent (record m { last_sweep = now })
swept-IsConsistent m now c = record {
  completed = c.completed;
  errors = c.errors;
  activity = c.activity;
  named = c.named;
  small = c.small;
  clean = c.clean;
  unique = c.unique;
}

pub sweep_stale-IsConsistent :
    (A : Type 0) (m : ChunkingManager) (now : ℕ)
    → IsConsistent m
    → IsConsistent (sweep_stale {A = A} m now).0
unfolding sweep_stale
sweep_stale-IsConsistent A m now c = elim (Bool-cases (has_entries m.last_activity)) [
  | inr none_left ↦ rw none_left c
  | inl some_left ↦ rw some_left (elim (Bool-cases (ltb (now - m.last_sweep) sweep_interval)) [
    | inl recent ↦ rw recent c
    | inr due ↦ rw due (
        expire_all-IsConsistent A (stale_transfers now m.last_activity) _
          (swept-IsConsistent m now c))
  ])
]

taken-clean :
    (pool : List ChunkAssembler) (tid : String)
    → AllClean pool
    → AllClean (get_assembler pool tid).1
unfolding get_assembler
taken-clean [] tid h = tt
taken-clean (a ∷ pool) tid h = h.2

taken-small :
    (pool : List ChunkAssembler) (tid : String)
    → length pool ≤ pool_limit
    → length (get_assembler pool tid).1 ≤ pool_limit
unfolding get_assembler
taken-small [] tid h = h
taken-small (a ∷ pool) tid h = omega arith

taken-id : (pool : List ChunkAssembler) (tid : String) → (get_assembler pool tid).0.id ≡ tid
unfolding get_assembler
taken-id [] tid = refl
taken-id (a ∷ pool) tid = refl

id-set_expected_chunks :
    (allocates : ℕ → Bool) (a : ChunkAssembler) (count : ℕ) (total size : Option ℕ)
    → (set_expected_chunks allocates a count total size).id ≡ a.id
unfolding set_expected_chunks
id-set_expected_chunks allocates a count total size = ground arith

pub register-IsConsistent :
    (allocates : ℕ → Bool) (m : ChunkingManager) (now : ℕ) (t : Transfer)
    → IsConsistent m
    → IsConsistent (register allocates m now t)
register-IsConsistent allocates m now t c =
    let (a, pool) = get_assembler m.assembler_pool t.transfer_id in
    let started = set_expected_chunks allocates a t.total_chunks t.total_size t.chunk_size in
    let named : started.id ≡ t.transfer_id =
      id-set_expected_chunks allocates a t.total_chunks t.total_size t.chunk_size
      ∙ taken-id m.assembler_pool t.transfer_id in
    unfold register in
    record {
      completed = λ tid. simp dict_laws (ground (arith, c.completed tid));
      errors = λ tid. simp dict_laws (ground (arith, c.errors tid));
      activity = λ tid. simp dict_laws (ground (arith, c.activity tid));
      named = λ tid a. simp dict_laws (ground (arith, c.named tid a, eq_of_same t.transfer_id tid));
      small = taken-small m.assembler_pool t.transfer_id c.small;
      clean = taken-clean m.assembler_pool t.transfer_id c.clean;
      unique = UniqueKeys-insert t.transfer_id now m.last_activity c.unique;
    }

id-receive :
    (a : ChunkAssembler) (index : ℕ) (bytes : List ℕ) (last : Bool)
    → (receive a index bytes last).id ≡ a.id
unfolding receive
id-receive a index bytes last = ground arith

-- `add_chunk` keeps the transfer's id.
pub id-add_chunk :
    (a a' : ChunkAssembler) (chunk : Chunk) (done : Bool)
    → add_chunk a chunk ≡ ok (a', done)
    → a'.id ≡ a.id
unfolding add_chunk
id-add_chunk a a' chunk done h = ground arith

pub updated-IsConsistent :
    (m : ChunkingManager) (tid : String) (a a' : ChunkAssembler)
    → lookup tid m.assemblers ≡ some a
    → a'.id ≡ a.id
    → IsConsistent m
    → IsConsistent (record m { assemblers = insert tid a' m.assemblers })
updated-IsConsistent m k a a' found same c = record {
  completed = λ tid. simp dict_laws (ground (arith, c.completed tid, eq_of_same k tid));
  errors = λ tid. simp dict_laws (ground (arith, c.errors tid, eq_of_same k tid));
  activity = λ tid. simp dict_laws (ground (arith, c.activity tid, eq_of_same k tid));
  named = λ tid x. simp dict_laws (ground (arith, c.named tid x, c.named k a, eq_of_same k tid));
  small = c.small;
  clean = c.clean;
  unique = c.unique;
}

pub touched-IsConsistent :
    (m : ChunkingManager) (tid : String) (now : ℕ) (a : ChunkAssembler)
    → lookup tid m.assemblers ≡ some a
    → IsConsistent m
    → IsConsistent (record m { last_activity = insert tid now m.last_activity })
touched-IsConsistent m k now a found c = record {
  completed = c.completed;
  errors = c.errors;
  activity = λ tid. simp dict_laws (ground (arith, c.activity tid, eq_of_same k tid));
  named = c.named;
  small = c.small;
  clean = c.clean;
  unique = UniqueKeys-insert k now m.last_activity c.unique;
}
