-- ===== src/Client/Subscriptions/Restored.antt =====
-- What the restore loop of a connect achieves: RPCClient._connect of client.py.
use camera_ui_rpc.Base.{
  ℕ, String, ◌≡◌, refl, ◌∙◌, inl, inr, true, false, Option, none, some, List, [], ◌∷◌, arith, ℕ_eq,
  nat_eq_iff, Option-cases,
}
use camera_ui_rpc.Base.Dict.{lookup, contains}
use camera_ui_rpc.Client.Subscriptions.{
  Subscriptions, add_entry, inbox, open_sub, restore_entry, restore, register_missing, connect_open,
}
use camera_ui_rpc.Client.Subscriptions.Registry.{registry, want_inbox}
use camera_ui_rpc.Client.Subscriptions.Serving.{InOrder, open_sub-InOrder, add_entry-InOrder}

registry-restore_entry : (key : ℕ) (s : Subscriptions) → registry (restore_entry key s) ≡ registry s
unfolding restore_entry open_sub
registry-restore_entry key s = ground arith

pub registry-restore : (keys : List ℕ) (s : Subscriptions) → registry (restore keys s) ≡ registry s
unfolding restore
registry-restore [] s = refl
registry-restore (key ∷ keys) s =
    registry-restore keys (restore_entry key s) ∙ registry-restore_entry key s

restore_entry-InOrder :
    (key : ℕ) (todo : List ℕ) (s : Subscriptions)
    → contains key s.table ≡ true
    → s.nc ≡ true
    → InOrder (key ∷ todo) s
    → InOrder todo (restore_entry key s)
unfolding restore_entry contains
restore_entry-InOrder key todo s listed connected i = elim (Option-cases (lookup key s.entry_sub)) [
  | inl missing ↦ rw missing (open_sub-InOrder key todo s listed missing connected i)
  | inr (n, own) ↦
      rw (own, i.owned key n own)
        (record {
          unique = i.unique;
          fresh = i.fresh;
          owned = i.owned;
          counted = i.counted;
          tabled = i.tabled;
          numbered = i.numbered;
          up = λ k c h. ground (arith, i.up k c h, own, nat_eq_iff key k);
          down = i.down;
        })
]

pub restore-InOrder :
    (keys : List ℕ) (s : Subscriptions)
    → ((k : ℕ) → contains k keys ≡ true → contains k s.table ≡ true)
    → s.nc ≡ true
    → InOrder keys s
    → InOrder [] (restore keys s)
unfolding restore contains
restore-InOrder [] s listed connected i = i
restore-InOrder (key ∷ keys) s listed connected i =
    let same = registry-restore_entry key s in
    restore-InOrder keys (restore_entry key s)
      (λ k h. ground (arith, same, listed k (ground (arith, h)))) (ground (arith, same, connected))
      (restore_entry-InOrder key keys s (listed key (ground (arith, nat_eq_iff key key))) connected
        i)

-- Behind the opening of the transport and the registering of the inbox, the whole table waits.
pub opened-InOrder :
    (pattern : String) (s : Subscriptions)
    → s.nc ≡ false
    → InOrder [] s
    → InOrder (connect_open pattern s).table (connect_open pattern s)
unfolding connect_open
opened-InOrder pattern s h i = by_inbox s.mux_entry
  where
    waiting : InOrder s.table (record s { nc = true; closed = false })
    waiting = record {
      unique = i.unique;
      fresh = i.fresh;
      owned = i.owned;
      counted = i.counted;
      tabled = i.tabled;
      numbered = i.numbered;
      up = λ k c listed. ground (arith, listed);
      down = λ k c. cc c;
    }

    by_inbox :
        (o : Option ℕ)
        → let s' = register_missing pattern o (record s { nc = true; closed = false }) in
          InOrder s'.table s'
    by_inbox (some key) = waiting
    by_inbox none =
        let a =
          add_entry-InOrder (inbox pattern) s.table (record s { nc = true; closed = false })
            waiting in
        record {
          unique = a.unique;
          fresh = a.fresh;
          owned = a.owned;
          counted = a.counted;
          tabled = a.tabled;
          numbered = a.numbered;
          up = λ k c listed. ground (arith, listed);
          down = a.down;
        }

pub opened_registry :
    (pattern : String) (s : Subscriptions)
    → registry (connect_open pattern s)
      ≡ record (want_inbox s.mux_entry (registry s)) { connected = true }
unfolding connect_open add_entry
opened_registry pattern s = by_inbox s.mux_entry
  where
    by_inbox :
        (o : Option ℕ)
        → registry (register_missing pattern o (record s { nc = true; closed = false }))
          ≡ record (want_inbox o (registry s)) { connected = true }
    by_inbox (some key) = refl
    by_inbox none = refl
