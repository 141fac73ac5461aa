-- ===== src/Client/Subscriptions/Serving.antt =====
-- Which NATS subscriptions serve which entries, and that the operations keep this in order.
use camera_ui_rpc.Base.{
  ℕ, suc, ◌≤◌, ◌≡◌, refl, ◌∙◌, inl, inr, true, false, ◌||◌, Option, none, some, List, ◌∷◌, arith,
  ℕ_eq, nat_eq_iff, Option-cases, if◌then◌else◌,
}
use camera_ui_rpc.Base.Dict.{
  Dict, lookup, erase, contains, lookup-insert, lookup-erase, UniqueKeys, UniqueKeys-insert,
  UniqueKeys-erase,
}
use camera_ui_rpc.Base.Sets.{discard}
use camera_ui_rpc.Client.Subscriptions.{
  Entry, Subscriptions, add_entry, open_sub, is_sub, on_finish, nats_unsubscribe, unsubscribe,
  is_open,
}
use camera_ui_rpc.Client.Subscriptions.Counting.{
  contains-append, contains-discard_if, count_serving, count_serving-insert, count_serving-erase,
}

-- Every entry with a subscription has one live one, which is its own, and is in the table. While
-- there is a transport, only the entries `todo` of the table may be without.
pub record InOrder (todo : List ℕ) (s : Subscriptions) : Type 0 where
  pub unique : UniqueKeys s.live
  pub fresh : (n : ℕ) → s.next_sub ≤ n → lookup n s.live ≡ none
  pub owned : (k n : ℕ) → lookup k s.entry_sub ≡ some n → lookup n s.live ≡ some k
  pub counted : (k : ℕ) → count_serving k s.live ≡ (if is_open (lookup k s.entry_sub) then 1 else 0)
  pub tabled : (k : ℕ) → is_open (lookup k s.entry_sub) ≡ true → contains k s.table ≡ true
  pub numbered : (k : ℕ) → contains k s.table ≡ true → k ≤ s.subscription_seq
  pub up :
      (k : ℕ)
      → s.nc ≡ true
      → contains k s.table ≡ true
      → (is_open (lookup k s.entry_sub) || contains k todo) ≡ true
  pub down : (k : ℕ) → s.nc ≡ false → lookup k s.entry_sub ≡ none

-- the entry is in the table and has no subscription
pub open_sub-InOrder :
    (key : ℕ) (todo : List ℕ) (s : Subscriptions)
    → contains key s.table ≡ true
    → lookup key s.entry_sub ≡ none
    → s.nc ≡ true
    → InOrder (key ∷ todo) s
    → InOrder todo (open_sub key s)
unfolding open_sub contains
open_sub-InOrder key todo s listed none_yet connected i =
    let new = i.fresh s.next_sub (omega arith) in
    record {
      unique = UniqueKeys-insert s.next_sub key s.live i.unique;
      fresh = λ n h.
          lookup-insert s.next_sub n key s.live
          ∙ ground (arith, i.fresh n, h, nat_eq_iff s.next_sub n);
      owned = λ k n h. ground (
        arith,
        h,
        lookup-insert key k s.next_sub s.entry_sub,
        lookup-insert s.next_sub n key s.live,
        i.owned k n,
        nat_eq_iff key k,
        nat_eq_iff s.next_sub n,
        new,
      );
      counted = λ k. ground (
        arith,
        count_serving-insert k s.next_sub key s.live new,
        lookup-insert key k s.next_sub s.entry_sub,
        i.counted k,
        nat_eq_iff key k,
        none_yet,
      );
      tabled = λ k h. ground (
        arith,
        h,
        lookup-insert key k s.next_sub s.entry_sub,
        i.tabled k,
        nat_eq_iff key k,
        listed,
      );
      numbered = i.numbered;
      up = λ k c h.
          ground
            (arith, c, h, lookup-insert key k s.next_sub s.entry_sub, i.up k c h, nat_eq_iff key k);
      down = λ k c. cc (c, connected);
    }

pub add_entry-InOrder :
    (e : Entry) (todo : List ℕ) (s : Subscriptions)
    → InOrder todo s
    → InOrder (suc s.subscription_seq ∷ todo) (add_entry e s)
unfolding add_entry contains
add_entry-InOrder e todo s i =
    let key = suc s.subscription_seq in
    record {
      unique = i.unique;
      fresh = i.fresh;
      owned = i.owned;
      counted = i.counted;
      tabled = λ k h. contains-append k key s.table ∙ ground (arith, i.tabled k h);
      numbered =
          λ k h. ground (arith, h, contains-append k key s.table, i.numbered k, nat_eq_iff key k);
      up = λ k c h. ground (arith, h, c, contains-append k key s.table, i.up k c, nat_eq_iff key k);
      down = i.down;
    }

on_finish_stale :
    (key n : ℕ) (s : Subscriptions)
    → is_sub n (lookup key s.entry_sub) ≡ false
    → on_finish key n s ≡ s
unfolding on_finish
on_finish_stale key n s h = ground (arith, h)

-- the entry is taken out, and `live` are the subscriptions then
abbrev without_entry : ℕ → Dict ℕ ℕ → Subscriptions → Subscriptions
without_entry key live s = record s {
  table = discard key s.table;
  entry_sub = erase key s.entry_sub;
  live = live;
}

pub unsubscribe_lem :
    (key : ℕ) (s : Subscriptions)
    → unsubscribe key s
      ≡ without_entry key
          (elim (lookup key s.entry_sub) [ none ↦ s.live | some n ↦ erase n s.live ])
          s
unfolding unsubscribe
unsubscribe_lem key s = by_sub (lookup key s.entry_sub)
  where
    by_sub :
        (o : Option ℕ)
        → nats_unsubscribe key o (without_entry key s.live s)
          ≡ without_entry key (elim o [ none ↦ s.live | some n ↦ erase n s.live ]) s
    by_sub none = refl
    by_sub (some n) =
        on_finish_stale key n (without_entry key (erase n s.live) s)
          (ground (arith, lookup-erase key key s.entry_sub, nat_eq_iff key key))

without_entry-InOrder :
    (key : ℕ) (todo : List ℕ) (live : Dict ℕ ℕ) (s : Subscriptions)
    → InOrder todo s
    → UniqueKeys live
    → ((n : ℕ) → s.next_sub ≤ n → lookup n live ≡ none)
    → ((k n : ℕ) → lookup k (erase key s.entry_sub) ≡ some n → lookup n live ≡ some k)
    → ((k : ℕ)
        → count_serving k live ≡ (if is_open (lookup k (erase key s.entry_sub)) then 1 else 0))
    → InOrder todo (without_entry key live s)
without_entry-InOrder key todo live s i unique fresh owned counted = record {
  unique = unique;
  fresh = fresh;
  owned = owned;
  counted = counted;
  tabled = λ k h.
      ground
        (arith, h, lookup-erase key k s.entry_sub, contains-discard_if key k s.table, i.tabled k);
  numbered = λ k h. ground (arith, h, contains-discard_if key k s.table, i.numbered k);
  up = λ k c h.
      ground
        (arith, h, lookup-erase key k s.entry_sub, contains-discard_if key k s.table, i.up k c);
  down = λ k c. lookup-erase key k s.entry_sub ∙ ground (arith, i.down k c);
}

pub unsubscribe-InOrder :
    (key : ℕ) (todo : List ℕ) (s : Subscriptions)
    → InOrder todo s
    → InOrder todo (unsubscribe key s)
unsubscribe-InOrder key todo s i =
    rw (unsubscribe_lem key s) (elim (Option-cases (lookup key s.entry_sub)) [
      | inl missing ↦ rw missing (
          without_entry-InOrder key todo s.live s i i.unique i.fresh
            (λ k n h. ground (arith, h, lookup-erase key k s.entry_sub, i.owned k n))
            (λ k.
              ground
                (arith, lookup-erase key k s.entry_sub, i.counted k, nat_eq_iff key k, missing)))
      | inr (n, own) ↦ rw own (
          without_entry-InOrder key todo (erase n s.live) s i (UniqueKeys-erase n s.live i.unique)
            (λ m h. lookup-erase n m s.live ∙ ground (arith, i.fresh m h))
            (λ k m h. ground (
              arith,
              h,
              lookup-erase key k s.entry_sub,
              lookup-erase n m s.live,
              i.owned k m,
              i.owned key n own,
              nat_eq_iff n m,
              nat_eq_iff key k,
            ))
            (λ k. ground (
              arith,
              lookup-erase key k s.entry_sub,
              i.counted k,
              nat_eq_iff key k,
              own,
              count_serving-erase k n key s.live i.unique (i.owned key n own),
            )))
    ])
