-- ===== src/Client/Subscriptions/Races.antt =====
-- Subscribing that fails, and unsubscribing while a connect restores the entries.
use camera_ui_rpc.Base.{
  ℕ, suc, String, ◌≡◌, refl, sym, ap, ◌∙◌, Bool, true, false, Option, none, some, List, [], ◌∷◌,
  arith, ℕ_eq, nat_eq_iff, if◌then◌else◌,
}
use camera_ui_rpc.Base.Result.{err, runtime_error}
use camera_ui_rpc.Base.Dict.{lookup, contains, lookup-erase}
use camera_ui_rpc.Client.Subscriptions.{
  restore_entry, open_sub, is_gone, Entry, Subscriptions, new_subscriptions, add_entry,
  nats_subscribe, subscribe, unsubscribe, suspend, connect, connect_open, restore, register_missing,
}
use camera_ui_rpc.Client.Subscriptions.Registry.{
  Event, run, suspends, connects, step, Registry, registry, update, want_inbox, served_by,
}
use camera_ui_rpc.Client.Subscriptions.Counting.{
  count_serving, contains-append, contains-discard_if,
}
use camera_ui_rpc.Client.Subscriptions.Serving.{InOrder, unsubscribe_lem, add_entry-InOrder}
use camera_ui_rpc.Client.Subscriptions.Restored.{
  opened-InOrder, opened_registry, restore-InOrder, registry-restore,
}
use camera_ui_rpc.Client.Subscriptions.Refines.{
  suspend-Does, connect-Does, count_serving-InOrder, does_all, new-InOrder,
}

subscribe_refused :
    (e : Entry) (s : Subscriptions)
    → s.nc ≡ true
    → subscribe false e s ≡ (err runtime_error, add_entry e s)
unfolding subscribe nats_subscribe add_entry
subscribe_refused e s h = ground (arith, h)

served_again :
    (key : ℕ) (r : Registry)
    → contains key r.wanted ≡ true
    → served_by key (update connects (update suspends r)) ≡ 1
unfolding update
served_again key r h = by_inbox r.reply_inbox
  where
    by_inbox :
        (o : Option ℕ)
        → served_by key
            (record (want_inbox o (record r { connected = false })) { connected = true })
          ≡ 1
    by_inbox (some k) = rw h refl
    by_inbox none = ground (arith, contains-append key (suc r.last_key) r.wanted, h)

failed_subscribe_served :
    (pattern : String) (e : Entry) (s : Subscriptions)
    → InOrder [] s
    → count_serving (suc s.subscription_seq) (connect pattern (suspend (add_entry e s))).live ≡ 1
failed_subscribe_served pattern e s i =
    let key = suc s.subscription_seq in
    let (kept, meant) =
      suspend-Does pattern (key ∷ []) (add_entry e s) (add_entry-InOrder e [] s i) in
    let (served, again) = connect-Does pattern (step pattern suspends (add_entry e s)) kept in
    let listed : contains key (add_entry e s).table ≡ true =
      unfold add_entry in contains-append key key s.table ∙ ground (arith, nat_eq_iff key key) in
    unfold step in
    count_serving-InOrder key (connect pattern (suspend (add_entry e s))) served
    ∙ ap (served_by key) (again ∙ ap (update connects) meant)
    ∙ served_again key (registry (add_entry e s)) listed

-- Take any history that ends with a connection. A subscribe that the server then refuses raises,
-- but leaves its entry behind: after a suspension and a connect the handler is served, although
-- its caller got an exception and no way to unsubscribe it.
pub failed_subscribe_comes_back :
    (pattern : String) (es : List Event) (e : Entry)
    → (run pattern es new_subscriptions).nc ≡ true
    → let s = run pattern es new_subscriptions in
      let (result, s') = subscribe false e s in
      (result ≡ err runtime_error)
      × (count_serving (suc s.subscription_seq) (connect pattern (suspend s')).live ≡ 1)
failed_subscribe_comes_back pattern es e h =
    let s = run pattern es new_subscriptions in
    rw (subscribe_refused e s h) (
      refl,
      failed_subscribe_served pattern e s (does_all pattern es new_subscriptions new-InOrder).0,
    )

-- The restore loop does not look at the table.
restore_with_table :
    (keys table : List ℕ) (s : Subscriptions)
    → restore keys (record s { table = table }) ≡ record (restore keys s) { table = table }
unfolding restore restore_entry open_sub
restore_with_table [] table s = refl
restore_with_table (key ∷ keys) table s =
    ap (restore keys) (one (is_gone (lookup key s.entry_sub) s.live))
    ∙ restore_with_table keys table (restore_entry key s)
  where
    one :
        (b : Bool)
        → (if b then open_sub key (record s { table = table }) else record s { table = table })
          ≡ record (if b then open_sub key s else s) { table = table }
    one true = refl
    one false = refl

-- An entry that is dropped while it waits to be restored is still as good as waiting.
dropped-InOrder :
    (key : ℕ) (s : Subscriptions)
    → lookup key s.entry_sub ≡ none
    → InOrder s.table s
    → InOrder s.table (record (unsubscribe key s) { table = s.table })
dropped-InOrder key s missing i =
    rw (unsubscribe_lem key s, missing)
      (record {
        unique = i.unique;
        fresh = i.fresh;
        owned = λ k n h. ground (arith, h, lookup-erase key k s.entry_sub, i.owned k n);
        counted = λ k.
            ground (arith, lookup-erase key k s.entry_sub, i.counted k, nat_eq_iff key k, missing);
        tabled = λ k h. ground (arith, h, lookup-erase key k s.entry_sub, i.tabled k);
        numbered = i.numbered;
        up = λ k c h. ground (arith, h);
        down = λ k c. lookup-erase key k s.entry_sub ∙ ground (arith, i.down k c);
      })

opened_none :
    (pattern : String) (key : ℕ) (s : Subscriptions)
    → lookup key s.entry_sub ≡ none
    → lookup key (connect_open pattern s).entry_sub ≡ none
unfolding connect_open add_entry
opened_none pattern key s h = by_inbox s.mux_entry
  where
    by_inbox :
        (o : Option ℕ)
        → lookup key (register_missing pattern o (record s { nc = true; closed = false })).entry_sub
          ≡ none
    by_inbox none = h
    by_inbox (some k) = h

dropped_registry :
    (key : ℕ) (s : Subscriptions)
    → registry (record (unsubscribe key s) { table = s.table }) ≡ registry s
dropped_registry key s = rw (unsubscribe_lem key s) refl

restored_all_the_same :
    (pattern : String) (key : ℕ) (s : Subscriptions)
    → InOrder [] s
    → s.nc ≡ false
    → contains key (connect_open pattern s).table ≡ true
    → let opened = connect_open pattern s in
      count_serving key (restore opened.table (unsubscribe key opened)).live ≡ 1
restored_all_the_same pattern key s i down listed =
    let opened = connect_open pattern s in
    let aside = record (unsubscribe key opened) { table = opened.table } in
    let same = dropped_registry key opened in
    let connected : aside.nc ≡ true =
      ap (λ (r : Registry). r.connected) (same ∙ opened_registry pattern s) in
    let kept =
      restore-InOrder opened.table aside (λ k h. h) connected
        (dropped-InOrder key opened (opened_none pattern key s (i.down key down))
          (opened-InOrder pattern s down i)) in
    ap (λ (t : Subscriptions). count_serving key t.live)
      (sym (restore_with_table opened.table opened.table (unsubscribe key opened)))
    ∙ count_serving-InOrder key (restore opened.table aside) kept
    ∙ ap (served_by key) (registry-restore opened.table aside)
    ∙ rw (connected, listed) refl

-- Take any history that ends without a connection. An entry that is unsubscribed after a connect
-- has taken its list of entries, and before it is the entry's turn, is subscribed all the same: it is
-- not in the table any more, and yet one NATS subscription serves it.
pub unsubscribe_during_restore :
    (pattern : String) (es : List Event) (key : ℕ)
    → (run pattern es new_subscriptions).nc ≡ false
    → contains key (connect_open pattern (run pattern es new_subscriptions)).table ≡ true
    → let opened = connect_open pattern (run pattern es new_subscriptions) in
      let s = restore opened.table (unsubscribe key opened) in
      (contains key s.table ≡ false) × (count_serving key s.live ≡ 1)
unsubscribe_during_restore pattern es key down listed =
    let s = run pattern es new_subscriptions in
    let opened = connect_open pattern s in
    (
      ap (λ (r : Registry). contains key r.wanted)
            (registry-restore opened.table (unsubscribe key opened))
          ∙ rw (unsubscribe_lem key opened)
              (contains-discard_if key key opened.table ∙ ground (arith, nat_eq_iff key key)),
      restored_all_the_same pattern key s (does_all pattern es new_subscriptions new-InOrder).0 down
          listed,
    )
