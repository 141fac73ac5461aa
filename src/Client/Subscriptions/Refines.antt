-- ===== src/Client/Subscriptions/Refines.antt =====
-- The subscriptions of a client do what their registry promises.
use camera_ui_rpc.Base.{
  ℕ, suc, String, ◌≡◌, refl, ap, ◌∙◌, inl, inr, true, false, none, List, [], ◌∷◌, arith, ℕ_eq,
  nat_eq_iff, Bool-cases,
}
use camera_ui_rpc.Base.Dict.{lookup, contains}
use camera_ui_rpc.Client.Subscriptions.{
  Entry, restore, Subscriptions, new_subscriptions, add_entry, nats_subscribe, open_sub, subscribe,
  unsubscribe, suspend, disconnect, connect, connect_open,
}
use camera_ui_rpc.Client.Subscriptions.Registry.{
  Event, subscribes, unsubscribes, suspends, disconnects, connects, step, run, Registry, registry,
  want_inbox, update, update_all, empty_registry, served_by,
}
use camera_ui_rpc.Client.Subscriptions.Counting.{count_serving, contains-append}
use camera_ui_rpc.Client.Subscriptions.Serving.{
  InOrder, unsubscribe_lem, open_sub-InOrder, add_entry-InOrder, unsubscribe-InOrder,
}
use camera_ui_rpc.Client.Subscriptions.Restored.{
  opened-InOrder, opened_registry, restore-InOrder, registry-restore,
}
use camera_ui_rpc.Client.Subscriptions.Dropped.{
  drop_subs_kept, drop_subs_seq, all_dropped, closed-InOrder,
}

-- One event: the subscriptions stay in order, and do what the event means.
abbrev pub Does : String → Event → Subscriptions → Type 0
Does pattern e s =
    InOrder [] (step pattern e s) × (registry (step pattern e s) ≡ update e (registry s))

-- an entry whose key is new has no subscription
pub unsubscribed_new :
    (s : Subscriptions) → InOrder [] s → lookup (suc s.subscription_seq) s.entry_sub ≡ none
unsubscribed_new s i =
    let key = suc s.subscription_seq in ground (arith, i.tabled key, i.numbered key)

subscribe_down :
    (pattern : String) (e : Entry) (s : Subscriptions)
    → s.nc ≡ false
    → (step pattern (subscribes e) s ≡ s) × (update (subscribes e) (registry s) ≡ registry s)
unfolding step subscribe update
subscribe_down pattern e s h = ground (arith, h)

subscribe_up :
    (pattern : String) (e : Entry) (s : Subscriptions)
    → s.nc ≡ true
    → (step pattern (subscribes e) s ≡ open_sub (suc s.subscription_seq) (add_entry e s))
      × (update (subscribes e) (registry s)
          ≡ registry (open_sub (suc s.subscription_seq) (add_entry e s)))
unfolding step subscribe nats_subscribe update add_entry open_sub
subscribe_up pattern e s h = ground (arith, h)

subscribe-Does :
    (pattern : String) (e : Entry) (s : Subscriptions)
    → InOrder [] s
    → Does pattern (subscribes e) s
subscribe-Does pattern e s i = elim (Bool-cases s.nc) [
  | inl connected ↦
      let (opened, meant) = subscribe_up pattern e s connected in
      rw (opened, meant)
        (
          open_sub-InOrder (suc s.subscription_seq) [] (add_entry e s)
              (unfold add_entry in
                contains-append (suc s.subscription_seq) (suc s.subscription_seq) s.table
                ∙ ground (arith, nat_eq_iff (suc s.subscription_seq) (suc s.subscription_seq)))
              (unfold add_entry in unsubscribed_new s i) (unfold add_entry in connected)
              (add_entry-InOrder e [] s i),
          refl,
        )
  | inr down ↦ let (same, meant) = subscribe_down pattern e s down in rw (same, meant) (i, refl)
]

registry-unsubscribe :
    (key : ℕ) (s : Subscriptions)
    → registry (unsubscribe key s) ≡ update (unsubscribes key) (registry s)
unfolding update
registry-unsubscribe key s = rw (unsubscribe_lem key s) refl

pub suspend-Does :
    (pattern : String) (todo : List ℕ) (s : Subscriptions)
    → InOrder todo s
    → Does pattern suspends s
unfolding step suspend update
suspend-Does pattern todo s i =
    let same = drop_subs_kept s.table (record s { suspending = true }) refl in
    (
      closed-InOrder (suspend s) refl refl
          (all_dropped todo s (record s { suspending = true }) i refl)
          (λ k h. ground (arith, same, h, i.numbered k)),
      ground (arith, same),
    )

disconnect-Does : (pattern : String) (s : Subscriptions) → InOrder [] s → Does pattern disconnects s
unfolding step disconnect update contains
disconnect-Does pattern s i = (
  closed-InOrder (disconnect s) refl refl (all_dropped _ s (record s { closed = true }) i refl)
      (λ k h. cc h),
  ground (arith, drop_subs_seq s.table (record s { closed = true })),
)

connect_up :
    (pattern : String) (s : Subscriptions)
    → s.nc ≡ true
    → (step pattern connects s ≡ s) × (update connects (registry s) ≡ registry s)
unfolding step connect update
connect_up pattern s h = ground (arith, h)

connect_down :
    (pattern : String) (s : Subscriptions)
    → s.nc ≡ false
    → (step pattern connects s ≡ restore (connect_open pattern s).table (connect_open pattern s))
      × (update connects (registry s)
          ≡ record (want_inbox s.mux_entry (registry s)) { connected = true })
unfolding step connect update
connect_down pattern s h = ground (arith, h)

pub connect-Does : (pattern : String) (s : Subscriptions) → InOrder [] s → Does pattern connects s
connect-Does pattern s i = elim (Bool-cases s.nc) [
  | inl connected ↦ let (same, meant) = connect_up pattern s connected in rw (same, meant) (i, refl)
  | inr down ↦
      let (restored, meant) = connect_down pattern s down in
      let opened = connect_open pattern s in
      rw (restored, meant)
        (
          restore-InOrder opened.table opened (λ k h. h)
              (ap (λ (r : Registry). r.connected) (opened_registry pattern s))
              (opened-InOrder pattern s down i),
          registry-restore opened.table opened ∙ opened_registry pattern s,
        )
]

pub does : (pattern : String) (e : Event) (s : Subscriptions) → InOrder [] s → Does pattern e s
does pattern (subscribes e) s i = subscribe-Does pattern e s i
does pattern (unsubscribes key) s i =
    unfold step in (unsubscribe-InOrder key [] s i, registry-unsubscribe key s)
does pattern suspends s i = suspend-Does pattern [] s i
does pattern disconnects s i = disconnect-Does pattern s i
does pattern connects s i = connect-Does pattern s i

pub does_all :
    (pattern : String) (es : List Event) (s : Subscriptions)
    → InOrder [] s
    → InOrder [] (run pattern es s) × (registry (run pattern es s) ≡ update_all es (registry s))
unfolding run update_all
does_all pattern [] s i = (i, refl)
does_all pattern (e ∷ es) s i =
    let (kept, meant) = does pattern e s i in
    let (all_kept, all_meant) = does_all pattern es (step pattern e s) kept in
    (all_kept, all_meant ∙ ap (update_all es) meant)

pub new-InOrder : InOrder [] new_subscriptions
unfolding lookup contains
new-InOrder = closed-InOrder new_subscriptions refl refl (λ k. refl) (λ k h. cc h)

pub count_serving-InOrder :
    (k : ℕ) (s : Subscriptions) → InOrder [] s → count_serving k s.live ≡ served_by k (registry s)
unfolding contains
count_serving-InOrder k s i = i.counted k ∙ elim (Bool-cases s.nc) [
  | inl connected ↦ ground (arith, connected, i.up k connected, i.tabled k)
  | inr down ↦ ground (arith, down, i.down k down)
]

-- After any history of subscribing, unsubscribing, suspending, disconnecting and connecting, with a
-- server that accepts every connection and subscription, the client has done what its registry
-- promises: while it is connected, each handler that was subscribed and neither unsubscribed nor
-- dropped by a disconnect is served by exactly one NATS subscription, also after suspensions, and
-- so is the reply inbox; every other handler, and every handler without a connection, by none.
pub subscriptions_refine_registry :
    (pattern : String) (es : List Event) (key : ℕ)
    → count_serving key (run pattern es new_subscriptions).live
      ≡ served_by key (update_all es empty_registry)
subscriptions_refine_registry pattern es key =
    let (kept, meant) = does_all pattern es new_subscriptions new-InOrder in
    count_serving-InOrder key (run pattern es new_subscriptions) kept ∙ ap (served_by key) meant
