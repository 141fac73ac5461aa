-- ===== src/Client/Subscriptions/Registry.antt =====
-- What the subscriptions of a client promise: a list of the wanted handlers, which survives a
-- suspension, and whether they are served now. There are no NATS subscriptions here.
use camera_ui_rpc.Base.{
  ℕ, suc, String, Bool, true, false, ◌&&◌, Option, none, some, List, [], ◌∷◌, ◌++◌, if◌then◌else◌,
  ℕ_eq,
}
use camera_ui_rpc.Base.Dict.{contains}
use camera_ui_rpc.Base.Sets.{discard}
use camera_ui_rpc.Client.Subscriptions.{
  Entry, Subscriptions, subscribe, unsubscribe, suspend, disconnect, connect,
}

pub data Event : Type 0 where
  subscribes : Entry → Event
  unsubscribes : ℕ → Event
  suspends disconnects connects : Event

unfoldable pub step : String → Event → Subscriptions → Subscriptions
unfolding subscribe unsubscribe suspend disconnect connect
step pattern (subscribes e) s = (subscribe true e s).1
step pattern (unsubscribes key) s = unsubscribe key s
step pattern suspends s = suspend s
step pattern disconnects s = disconnect s
step pattern connects s = connect pattern s

unfoldable pub run : String → List Event → Subscriptions → Subscriptions
unfolding step
run pattern [] s = s
run pattern (e ∷ es) s = run pattern es (step pattern e s)

pub record Registry : Type 0 where
  pub connected : Bool
  pub last_key : ℕ
  pub wanted : List ℕ
  -- the key of the reply inbox
  pub reply_inbox : Option ℕ

abbrev pub empty_registry : Registry
empty_registry = record { connected = false; last_key = 0; wanted = []; reply_inbox = none }

abbrev pub want : Registry → Registry
want r = record r { last_key = suc r.last_key; wanted = r.wanted ++ suc r.last_key ∷ [] }

abbrev pub want_inbox : Option ℕ → Registry → Registry
want_inbox (some key) r = r
want_inbox none r = record (want r) { reply_inbox = some (suc r.last_key) }

-- what each event means
unfoldable pub update : Event → Registry → Registry
update (subscribes e) r = if r.connected then want r else r
update (unsubscribes key) r = record r { wanted = discard key r.wanted }
update suspends r = record r { connected = false }
update disconnects r = record r { connected = false; wanted = []; reply_inbox = none }
update connects r =
    if r.connected then r else record (want_inbox r.reply_inbox r) { connected = true }

unfoldable pub update_all : List Event → Registry → Registry
unfolding update
update_all [] r = r
update_all (e ∷ es) r = update_all es (update e r)

-- how many subscriptions serve a handler: one if it is wanted and there is a connection
abbrev pub served_by : ℕ → Registry → ℕ
served_by key r = if r.connected && contains key r.wanted then 1 else 0

abbrev pub registry : Subscriptions → Registry
registry s = record {
  connected = s.nc;
  last_key = s.subscription_seq;
  wanted = s.table;
  reply_inbox = s.mux_entry;
}
