-- ===== src/Chunking/Manager/Sweep.antt =====
-- What a sweep drops and what it leaves.
use camera_ui_rpc.Base.{
  ℕ, ◌+◌, ◌≤◌, ◌-◌, String, ◌≡◌, refl, ◌∙◌, Bool, true, false, Option, none, some, List, [], ◌∷◌,
  ◌++◌, arith, ltb, eq_of_same, String_eq, if◌then◌else◌, inl, inr, Bool-cases,
}
use camera_ui_rpc.Base.Dict.{Dict, lookup, contains, UniqueKeys, lookup-erase}
use camera_ui_rpc.Chunking.Manager.{
  ChunkingManager, Event, completed, failed, timed_out, cancelled, raised, stale_transfer_ttl,
  sweep_interval, drop_transfer, error_event, stale_transfers, expire_all, sweep_stale, has_entries,
}
use camera_ui_rpc.Chunking.Manager.Keeping.{IsConsistent}

-- the last activity lies more than the time to live back
abbrev pub is_stale : ℕ → Option ℕ → Bool
is_stale now none = false
is_stale now (some ts) = ltb (ts + stale_transfer_ttl) now

pub contains-stale_transfers :
    (now : ℕ) (d : Dict String ℕ) (tid : String)
    → UniqueKeys d
    → contains tid (stale_transfers now d) ≡ is_stale now (lookup tid d)
unfolding contains stale_transfers lookup
contains-stale_transfers now [] tid u = refl
contains-stale_transfers now ((k, ts) ∷ d) tid u =
    ground (arith, contains-stale_transfers now d tid u.1, eq_of_same k tid, u.0)

module _ {A : Type 0} where
  -- Only time-outs are reported.
  abbrev pub OnlyTimeouts : List (Event A) → Type 0
  OnlyTimeouts [] = Unit
  OnlyTimeouts (completed cb x ∷ es) = ⊥
  OnlyTimeouts (failed cb timed_out ∷ es) = OnlyTimeouts es
  OnlyTimeouts (failed cb _ ∷ es) = ⊥

  pub OnlyTimeouts-append :
      (es fs : List (Event A)) → OnlyTimeouts es → OnlyTimeouts fs → OnlyTimeouts (es ++ fs)
  OnlyTimeouts-append [] fs h k = k
  OnlyTimeouts-append (completed cb x ∷ es) fs h k = absurd h
  OnlyTimeouts-append (failed cb timed_out ∷ es) fs h k = OnlyTimeouts-append es fs h k
  OnlyTimeouts-append (failed cb cancelled ∷ es) fs h k = absurd h
  OnlyTimeouts-append (failed cb (raised e) ∷ es) fs h k = absurd h

module _ (A : Type 0) where
  lookup-expire_all :
      (tids : List String) (m : ChunkingManager) (tid : String)
      → lookup tid (expire_all {A = A} tids m).0.assemblers
        ≡ (if contains tid tids then none else lookup tid m.assemblers)
  unfolding expire_all drop_transfer contains
  lookup-expire_all [] m tid = refl
  lookup-expire_all (k ∷ ks) m tid =
      lookup-expire_all ks (drop_transfer m k) tid
      ∙ (unfold drop_transfer in ground (arith, lookup-erase k tid m.assemblers))

  lookup-expire_all_callbacks :
      (tids : List String) (m : ChunkingManager) (tid : String)
      → contains tid tids ≡ false
      → lookup tid (expire_all {A = A} tids m).0.completed_callbacks
        ≡ lookup tid m.completed_callbacks
  unfolding expire_all drop_transfer contains
  lookup-expire_all_callbacks [] m tid h = refl
  lookup-expire_all_callbacks (k ∷ ks) m tid h =
      lookup-expire_all_callbacks ks (drop_transfer m k) tid (ground arith)
      ∙ (unfold drop_transfer in ground (arith, lookup-erase k tid m.completed_callbacks))

  -- Sweeps leave a transfer alone that has been active of late.
  pub sweep_stale_keeps :
      (m : ChunkingManager) (now last : ℕ) (tid : String)
      → IsConsistent m
      → lookup tid m.last_activity ≡ some last
      → now ≤ last + stale_transfer_ttl
      → (lookup tid (sweep_stale {A = A} m now).0.assemblers ≡ lookup tid m.assemblers)
        × (lookup tid (sweep_stale {A = A} m now).0.completed_callbacks
            ≡ lookup tid m.completed_callbacks)
  unfolding sweep_stale
  sweep_stale_keeps m now last tid c seen recent = elim (Bool-cases (has_entries m.last_activity)) [
    | inr none_left ↦ rw none_left (refl, refl)
    | inl some_left ↦ rw some_left (elim (Bool-cases (ltb (now - m.last_sweep) sweep_interval)) [
      | inl early ↦ rw early (refl, refl)
      | inr due ↦
          let fresh : contains tid (stale_transfers now m.last_activity) ≡ false =
            contains-stale_transfers now m.last_activity tid c.unique ∙ rw seen (ground arith) in
          rw due (
            lookup-expire_all (stale_transfers now m.last_activity) _ tid ∙ rw fresh,
            lookup-expire_all_callbacks (stale_transfers now m.last_activity) _ tid fresh,
          )
    ])
  ]

  -- In a consistent manager with a sweep due, a sweep drops exactly the transfers without activity
  -- for longer than the time to live: it leaves each other transfer's assembler as it was.
  pub sweep_stale_exact :
      (m : ChunkingManager) (now : ℕ) (tid : String)
      → IsConsistent m
      → has_entries m.last_activity ≡ true
      → ltb (now - m.last_sweep) sweep_interval ≡ false
      → lookup tid (sweep_stale {A = A} m now).0.assemblers
        ≡ (if is_stale now (lookup tid m.last_activity) then none else lookup tid m.assemblers)
  unfolding sweep_stale
  sweep_stale_exact m now tid c some_left due =
      rw (some_left, due)
        (lookup-expire_all (stale_transfers now m.last_activity) (record m { last_sweep = now }) tid
          ∙ rw (contains-stale_transfers now m.last_activity tid c.unique))

  error_event-OnlyTimeouts : (cb : Option ℕ) → OnlyTimeouts (error_event {A = A} cb timed_out)
  error_event-OnlyTimeouts none = tt
  error_event-OnlyTimeouts (some cb) = tt

  expire_all-OnlyTimeouts :
      (tids : List String) (m : ChunkingManager) → OnlyTimeouts (expire_all {A = A} tids m).1
  unfolding expire_all
  expire_all-OnlyTimeouts [] m = tt
  expire_all-OnlyTimeouts (tid ∷ tids) m =
      OnlyTimeouts-append (error_event (lookup tid m.error_callbacks) timed_out)
        (expire_all {A = A} tids (drop_transfer m tid)).1
        (error_event-OnlyTimeouts (lookup tid m.error_callbacks))
        (expire_all-OnlyTimeouts tids (drop_transfer m tid))

  pub sweep_stale-OnlyTimeouts :
      (m : ChunkingManager) (now : ℕ) → OnlyTimeouts (sweep_stale {A = A} m now).1
  unfolding sweep_stale
  sweep_stale-OnlyTimeouts m now = elim (Bool-cases (has_entries m.last_activity)) [
    | inr none_left ↦ rw none_left tt
    | inl some_left ↦ rw some_left (elim (Bool-cases (ltb (now - m.last_sweep) sweep_interval)) [
      | inl early ↦ rw early tt
      | inr due ↦ rw due (expire_all-OnlyTimeouts (stale_transfers now m.last_activity) _)
    ])
  ]
