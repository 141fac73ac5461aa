-- ===== src/Client/Subscriptions.antt =====
-- The subscription entries of a client and its connection: RPCClient.connect, suspend, disconnect,
-- subscribe, _nats_subscribe and _watch_subscription_end of client.py. An entry is named by its
-- key; `entries` has every entry object that was made, and `table` the keys that
-- `_subscription_entries` has, in order. NATS subscriptions are numbered, and `live` has those of the
-- open transport with the entry that each one serves. The transport is open or there is none.
pub mod Registry
pub mod Serving
pub mod Restored
pub mod Dropped
pub mod Refines
pub mod Races
pub mod Tests
pub mod Counting
use camera_ui_rpc.Base.{
  ℕ, suc, String, Bool, true, false, not, Option, none, some, List, [], ◌∷◌, ◌++◌, ℕ_eq, nat_eq,
  if◌then◌else◌,
}
use camera_ui_rpc.Base.Result.{Result, ok, err, runtime_error}
use camera_ui_rpc.Base.Dict.{Dict, lookup, insert, erase}
use camera_ui_rpc.Base.Sets.{discard}

pub record Entry : Type 0 where
  pub pattern : String
  pub handler : ℕ
  pub handler_is_async : Bool
  pub queue : String
  pub raw : Bool

pub record Subscriptions : Type 0 where
  -- whether `nc` is a connected transport
  pub nc : Bool
  pub subscription_seq : ℕ
  pub entries : Dict ℕ Entry
  pub table : List ℕ
  -- `entry["sub"]` of each entry, missing for None
  pub entry_sub : Dict ℕ ℕ
  pub mux_entry : Option ℕ
  pub closed : Bool
  pub suspending : Bool
  pub live : Dict ℕ ℕ
  pub next_sub : ℕ

abbrev pub new_subscriptions : Subscriptions
new_subscriptions = record {
  nc = false;
  subscription_seq = 0;
  entries = [];
  table = [];
  entry_sub = [];
  mux_entry = none;
  closed = false;
  suspending = false;
  live = [];
  next_sub = 0;
}

-- a new entry in the table, not yet subscribed
unfoldable pub add_entry : Entry → Subscriptions → Subscriptions
add_entry e s = record s {
  subscription_seq = suc s.subscription_seq;
  entries = insert (suc s.subscription_seq) e s.entries;
  table = s.table ++ suc s.subscription_seq ∷ [];
}

-- `nc.subscribe` has returned, and its subscription is the entry's
unfoldable pub open_sub : ℕ → Subscriptions → Subscriptions
open_sub key s = record s {
  live = insert s.next_sub key s.live;
  entry_sub = insert key s.next_sub s.entry_sub;
  next_sub = suc s.next_sub;
}

-- `accepted` is whether `nc.subscribe` returns
unfoldable pub nats_subscribe : Bool → ℕ → Subscriptions → Result Subscriptions
unfolding open_sub
nats_subscribe accepted key s =
    if s.nc
    then (if accepted then ok (open_sub key s) else err runtime_error)
    else err runtime_error

-- An exception leaves what was done before it: the second component is the state afterwards.
abbrev pub subscribed_or_raised :
    ℕ → Subscriptions → Result Subscriptions → Result ℕ × Subscriptions
subscribed_or_raised key before (ok s) = (ok key, s)
subscribed_or_raised key before (err e) = (err e, before)

unfoldable pub subscribe : Bool → Entry → Subscriptions → Result ℕ × Subscriptions
unfolding add_entry nats_subscribe
subscribe accepted e s =
    if s.nc
    then subscribed_or_raised (suc s.subscription_seq) (add_entry e s)
        (nats_subscribe accepted (suc s.subscription_seq) (add_entry e s))
    else (err runtime_error, s)

abbrev pub is_sub : ℕ → Option ℕ → Bool
is_sub n none = false
is_sub n (some m) = nat_eq m n

abbrev pub mux_without : ℕ → Option ℕ → Option ℕ
mux_without key none = none
mux_without key (some k) = if nat_eq k key then none else some k

-- `on_finish`: the message task of subscription `n` of an entry has ended cleanly
unfoldable pub on_finish : ℕ → ℕ → Subscriptions → Subscriptions
on_finish key n s =
    if s.suspending
    then s
    else (if is_sub n (lookup key s.entry_sub)
        then record s {
          entry_sub = erase key s.entry_sub;
          table = discard key s.table;
          mux_entry = mux_without key s.mux_entry;
          live = erase n s.live;
        }
        else s)

-- `sub.unsubscribe()`, with the message task that it ends
abbrev pub nats_unsubscribe : ℕ → Option ℕ → Subscriptions → Subscriptions
nats_unsubscribe key none s = s
nats_unsubscribe key (some n) s = on_finish key n (record s { live = erase n s.live })

-- the closure that `subscribe` returns
unfoldable pub unsubscribe : ℕ → Subscriptions → Subscriptions
unfolding on_finish
unsubscribe key s =
    nats_unsubscribe key (lookup key s.entry_sub)
      (record s { table = discard key s.table; entry_sub = erase key s.entry_sub })

-- one round of the loops of `_do_suspend` and `disconnect`
unfoldable pub drop_sub : ℕ → Subscriptions → Subscriptions
unfolding on_finish
drop_sub key s =
    let s' = nats_unsubscribe key (lookup key s.entry_sub) s in
    record s' { entry_sub = erase key s'.entry_sub }

unfoldable pub drop_subs : List ℕ → Subscriptions → Subscriptions
unfolding drop_sub
drop_subs [] s = s
drop_subs (key ∷ keys) s = drop_subs keys (drop_sub key s)

-- `nc.close()`
abbrev pub close_transport : Subscriptions → Subscriptions
close_transport s = record s { nc = false; live = [] }

unfoldable pub suspend : Subscriptions → Subscriptions
unfolding drop_subs
suspend s =
    let s' = close_transport (drop_subs s.table (record s { suspending = true })) in
    record s' { suspending = false }

unfoldable pub disconnect : Subscriptions → Subscriptions
unfolding drop_subs
disconnect s =
    let s' = drop_subs s.table (record s { closed = true }) in
    close_transport (record s' { table = []; mux_entry = none })

abbrev pub mux_handler : ℕ
mux_handler = 0

-- the entry of the muxed reply inbox; `handler` 0 is `_handle_mux_message`
abbrev pub inbox : String → Entry
inbox pattern = record {
  pattern = pattern;
  handler = mux_handler;
  handler_is_async = false;
  queue = "";
  raw = true;
}

abbrev pub register_missing : String → Option ℕ → Subscriptions → Subscriptions
register_missing pattern (some key) s = s
register_missing pattern none s = record (add_entry (inbox pattern) s) {
  mux_entry = some (suc s.subscription_seq);
}

unfoldable pub register_mux_entry : String → Subscriptions → Subscriptions
unfolding add_entry
register_mux_entry pattern s = register_missing pattern s.mux_entry s

abbrev pub is_open : Option ℕ → Bool
is_open none = false
is_open (some key) = true

-- `sub is None or sub._closed`
abbrev pub is_gone : Option ℕ → Dict ℕ ℕ → Bool
is_gone none live = true
is_gone (some n) live = not (is_open (lookup n live))

-- one round of the restore loop of `_connect`
unfoldable pub restore_entry : ℕ → Subscriptions → Subscriptions
unfolding open_sub
restore_entry key s = if is_gone (lookup key s.entry_sub) s.live then open_sub key s else s

unfoldable pub restore : List ℕ → Subscriptions → Subscriptions
unfolding restore_entry
restore [] s = s
restore (key ∷ keys) s = restore keys (restore_entry key s)

-- `_connect` up to its restore loop; the server accepts the connection
unfoldable pub connect_open : String → Subscriptions → Subscriptions
unfolding register_mux_entry
connect_open pattern s = register_mux_entry pattern (record s { nc = true; closed = false })

-- `connect`; `pattern` is that of the reply inbox, and the server accepts every subscription
unfoldable pub connect : String → Subscriptions → Subscriptions
unfolding connect_open restore
connect pattern s =
    let opened = connect_open pattern s in if s.nc then s else restore opened.table opened
