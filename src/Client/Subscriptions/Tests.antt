-- ===== src/Client/Subscriptions/Tests.antt =====
-- The theorems on subscriptions at concrete inputs.
use camera_ui_rpc.Base.{ℕ_eq, suc, ◌≡◌, refl, true, false, String, List, [], ◌∷◌}
use camera_ui_rpc.Base.Result.{err, runtime_error}
use camera_ui_rpc.Base.Dict.{contains, lookup, insert, erase}
use camera_ui_rpc.Base.Sets.{discard}
use camera_ui_rpc.Client.Subscriptions.{
  Entry, new_subscriptions, subscribe, suspend, connect, connect_open, unsubscribe, restore,
}
use camera_ui_rpc.Client.Subscriptions.Registry.{
  Event, subscribes, unsubscribes, suspends, connects, run, update_all, empty_registry, served_by,
}
use camera_ui_rpc.Client.Subscriptions.Counting.{count_serving}
use camera_ui_rpc.Client.Subscriptions.Refines.{subscriptions_refine_registry}
use camera_ui_rpc.Client.Subscriptions.Races.{
  failed_subscribe_comes_back, unsubscribe_during_restore,
}

abbrev inbox_pattern : String
inbox_pattern = "rpc.reply.a.>"

abbrev listener : Entry
listener = record {
  pattern = "events";
  handler = 1;
  handler_is_async = false;
  queue = "";
  raw = false;
}

-- key 1 is the reply inbox, 2 and 3 are listeners
abbrev busy : List Event
busy =
    connects ∷ subscribes listener ∷ subscribes listener ∷ suspends ∷ unsubscribes 2 ∷ connects ∷ []

busy_served : count_serving 3 (run inbox_pattern busy new_subscriptions).live ≡ 1
unfolding run count_serving lookup erase insert discard
busy_served = refl

subscriptions_refine_registry_example :
    count_serving 3 (run inbox_pattern busy new_subscriptions).live
    ≡ served_by 3 (update_all busy empty_registry)
subscriptions_refine_registry_example = subscriptions_refine_registry inbox_pattern busy 3

busy_connected : (run inbox_pattern busy new_subscriptions).nc ≡ true
unfolding run lookup erase insert discard
busy_connected = refl

failed_subscribe_comes_back_example :
    let s = run inbox_pattern busy new_subscriptions in
    let (result, s') = subscribe false listener s in
    (result ≡ err runtime_error)
    × (count_serving (suc s.subscription_seq) (connect inbox_pattern (suspend s')).live ≡ 1)
failed_subscribe_comes_back_example =
    failed_subscribe_comes_back inbox_pattern busy listener busy_connected

abbrev away : List Event
away = connects ∷ subscribes listener ∷ suspends ∷ []

away_down : (run inbox_pattern away new_subscriptions).nc ≡ false
unfolding run lookup erase insert discard
away_down = refl

away_listed :
    contains 2 (connect_open inbox_pattern (run inbox_pattern away new_subscriptions)).table ≡ true
unfolding run connect_open contains lookup erase insert discard
away_listed = refl

-- What is unsubscribed while the entries are restored comes back.
restored_anyway :
    let opened = connect_open inbox_pattern (run inbox_pattern away new_subscriptions) in
    let s = restore opened.table (unsubscribe 2 opened) in
    (contains 2 s.table ≡ false) × (count_serving 2 s.live ≡ 1)
restored_anyway = unsubscribe_during_restore inbox_pattern away 2 away_down away_listed
