-- ===== src/Client/Subscriptions/Dropped.antt =====
-- What the teardown loops of suspend and disconnect of client.py leave.
use camera_ui_rpc.Base.{
  ℕ, ◌≤◌, ◌≡◌, refl, ◌∙◌, inl, inr, true, false, none, some, List, [], ◌∷◌, arith, ℕ_eq, nat_eq,
  Option-cases, if◌then◌else◌,
}
use camera_ui_rpc.Base.Dict.{lookup, contains, erase, lookup-erase}
use camera_ui_rpc.Client.Subscriptions.{Subscriptions, on_finish, drop_sub, drop_subs}
use camera_ui_rpc.Client.Subscriptions.Registry.{registry}
use camera_ui_rpc.Client.Subscriptions.Counting.{count_serving}
use camera_ui_rpc.Client.Subscriptions.Serving.{InOrder}

-- While the client is suspending, the table stays.
drop_sub_kept :
    (key : ℕ) (s : Subscriptions)
    → s.suspending ≡ true
    → (registry (drop_sub key s) ≡ registry s) × ((drop_sub key s).suspending ≡ true)
unfolding drop_sub on_finish
drop_sub_kept key s h = elim (Option-cases (lookup key s.entry_sub)) [
  | inl missing ↦ rw missing (refl, h)
  | inr (n, own) ↦ rw (own, h) (refl, refl)
]

pub drop_subs_kept :
    (keys : List ℕ) (s : Subscriptions)
    → s.suspending ≡ true
    → registry (drop_subs keys s) ≡ registry s
unfolding drop_subs
drop_subs_kept [] s h = refl
drop_subs_kept (key ∷ keys) s h =
    let (same, still) = drop_sub_kept key s h in drop_subs_kept keys (drop_sub key s) still ∙ same

-- Without it the numbers of the entries stay.
drop_sub_seq :
    (key : ℕ) (s : Subscriptions) → (drop_sub key s).subscription_seq ≡ s.subscription_seq
unfolding drop_sub on_finish
drop_sub_seq key s = elim (Option-cases (lookup key s.entry_sub)) [
  | inl missing ↦ rw missing refl
  | inr (n, own) ↦ rw own (ground arith)
]

pub drop_subs_seq :
    (keys : List ℕ) (s : Subscriptions) → (drop_subs keys s).subscription_seq ≡ s.subscription_seq
unfolding drop_subs
drop_subs_seq [] s = refl
drop_subs_seq (key ∷ keys) s = drop_subs_seq keys (drop_sub key s) ∙ drop_sub_seq key s

-- A round takes the subscription of its entry, and of no other.
lookup-drop_sub :
    (key k : ℕ) (s : Subscriptions)
    → lookup k (drop_sub key s).entry_sub ≡ (if nat_eq key k then none else lookup k s.entry_sub)
unfolding drop_sub on_finish
lookup-drop_sub key k s = elim (Option-cases (lookup key s.entry_sub)) [
  | inl missing ↦ rw missing (lookup-erase key k s.entry_sub)
  | inr (n, own) ↦ rw own (
      ground
        (arith, own, lookup-erase key k s.entry_sub, lookup-erase key k (erase key s.entry_sub)))
]

-- The subscriptions that are left behind the loop are those that were there, of other entries.
left_behind :
    (keys : List ℕ) (k n : ℕ) (s : Subscriptions)
    → lookup k (drop_subs keys s).entry_sub ≡ some n
    → (lookup k s.entry_sub ≡ some n) × (contains k keys ≡ false)
unfolding drop_subs contains
left_behind [] k n s h = (h, refl)
left_behind (key ∷ keys) k n s h =
    let (there, other) = left_behind keys k n (drop_sub key s) h in
    ground (arith, there, other, lookup-drop_sub key k s)

-- Behind a loop over the whole table, no entry has a subscription.
pub all_dropped :
    (todo : List ℕ) (s t : Subscriptions)
    → InOrder todo s
    → t.entry_sub ≡ s.entry_sub
    → (k : ℕ) → lookup k (drop_subs s.table t).entry_sub ≡ none
all_dropped todo s t i same k = elim (Option-cases (lookup k (drop_subs s.table t).entry_sub)) [
  | inl missing ↦ missing
  | inr (n, own) ↦
      let (there, other) = left_behind s.table k n t own in
      absurd (ground (arith, there, other, same, i.tabled k))
]

-- A client without a transport whose entries have no subscription is in order.
pub closed-InOrder :
    (s : Subscriptions)
    → s.nc ≡ false
    → s.live ≡ []
    → ((k : ℕ) → lookup k s.entry_sub ≡ none)
    → ((k : ℕ) → contains k s.table ≡ true → k ≤ s.subscription_seq)
    → InOrder [] s
unfolding lookup count_serving
closed-InOrder s down none_live none_left below = record {
  unique = rw none_live tt;
  fresh = λ n h. rw none_live refl;
  owned = λ k n h. ground (arith, h, none_left k);
  counted = λ k. rw (none_live, none_left k) refl;
  tabled = λ k h. ground (arith, h, none_left k);
  numbered = below;
  up = λ k c h. cc (c, down);
  down = λ k c. none_left k;
}
