-- ===== src/Client/Calls/Gone.antt =====
-- A call that has left the books unsettled: nothing settles it any more. For client.py.
use camera_ui_rpc.Base.{
  ℕ, String, Option, none, some, List, [], ◌∷◌, ◌==◌, String_eq, ◌≡◌, ◌≢◌, refl, ◌∙◌, inl, inr,
  arith, Bool-cases, eq_of_same, same_self,
}
use camera_ui_rpc.Base.Result.{Result, ok, err}
use camera_ui_rpc.Base.Dict.{insert, lookup-insert, Dict, lookup, erase, lookup-erase}
use camera_ui_rpc.Codec.Values.{Value, str, dict, Fields, field_of}
use camera_ui_rpc.Errors.{RpcException, from_dict}
use camera_ui_rpc.Client.Calls.{
  Calls, Outcome, timed_out, exception, connection_closed, remote, settle, start_call,
  publish_failed, handle_timeout, cancel_call, take_pending, settle_call, set_future,
  handle_no_responders, route_mux_response, cleanup_pending_requests, settle_all, erase_all,
  publish_failed_pending, fire_timer, status_for, route_id, route_pending, settle_response,
  settle_remote, if_waiting,
}
use camera_ui_rpc.Client.Calls.Steps.{
  Event, called, publishing_failed, timer_fired, task_cancelled, no_responder_status,
  response_arrived, connection_torn_down, step, run, lookup-settle,
}
use camera_ui_rpc.Client.Calls.NotLost.{same_or_other, insert_other}

-- Nothing is left that could settle the call, and it is not settled.
abbrev pub Gone : String → Calls → Type 0
Gone id s =
    (lookup id s.pending_requests ≡ none)
    × (lookup id s.timers ≡ none)
    × (lookup id s.futures ≡ none)

-- The id is not used for another call, and the waiting task is not cancelled.
abbrev pub Unrelated : String → Event → Type 0
Unrelated id (called k subject) = k ≢ id
Unrelated id (task_cancelled k) = k ≢ id
Unrelated id e = Unit

abbrev pub AllUnrelated : String → List Event → Type 0
AllUnrelated id [] = Unit
AllUnrelated id (e ∷ es) = Unrelated id e × AllUnrelated id es

erase-none :
    (k id : String) (d : Dict String String) → lookup id d ≡ none → lookup id (erase k d) ≡ none
erase-none k id d h = lookup-erase k id d ∙ ground (arith, h)

settle_other :
    (k id : String) (outcome : Outcome) (futures : Dict String Outcome)
    → k ≢ id
    → lookup id futures ≡ none
    → lookup id (settle k outcome futures) ≡ none
settle_other k id outcome futures differs h =
    lookup-settle k id outcome futures ∙ ground (arith, eq_of_same k id, differs, h)

set_other :
    (k id : String) (outcome : Outcome) (futures : Dict String Outcome)
    → k ≢ id
    → lookup id futures ≡ none
    → lookup id (insert k outcome futures) ≡ none
set_other k id outcome futures differs h =
    lookup-insert k id outcome futures ∙ ground (arith, eq_of_same k id, differs, h)

settle_all_other :
    (id : String) (pending : Dict String String) (futures : Dict String Outcome)
    → lookup id pending ≡ none
    → lookup id futures ≡ none
    → lookup id (settle_all pending futures) ≡ none
unfolding settle_all lookup
settle_all_other id [] futures p h = h
settle_all_other id ((k, subject) ∷ rest) futures p h = elim (same_or_other k id) [
  | inl same ↦ absurd (ground (arith, same, same_self id))
  | inr differs ↦
      settle_all_other id rest (settle k (exception connection_closed) futures)
        (ground (arith, eq_of_same k id, differs, p))
        (settle_other k id (exception connection_closed) futures differs h)
]

erase_all-none :
    (id : String) (pending timers : Dict String String)
    → lookup id timers ≡ none
    → lookup id (erase_all pending timers) ≡ none
unfolding erase_all
erase_all-none id [] timers h = h
erase_all-none id ((k, subject) ∷ rest) timers h =
    erase_all-none id rest (erase k timers) (erase-none k id timers h)

module _ (id : String) (s : Calls) (gone : Gone id s) where
  dropped : (k : String) → Gone id (take_pending k s)
  unfolding take_pending
  dropped k = (erase-none k id s.pending_requests gone.0, erase-none k id s.timers gone.1, gone.2)

  publish_failed-Gone : (k : String) (o : Option String) → Gone id (publish_failed_pending k s o)
  unfolding take_pending
  publish_failed-Gone k none = gone
  publish_failed-Gone k (some x) = dropped k

  fire-Gone :
      (k : String) (timer o : Option String)
      → lookup k s.timers ≡ timer
      → lookup k s.pending_requests ≡ o
      → Gone id (fire_timer k s timer)
  unfolding take_pending
  fire-Gone k none o t e = gone
  fire-Gone k (some x) none t e = rw e (gone.0, erase-none k id s.timers gone.1, gone.2)
  fire-Gone k (some x) (some y) t e =
      let differs : k ≢ id = λ same. cc (same, gone.0, e) in
      rw e (
        (dropped k).0,
        (dropped k).1,
        settle_other k id (exception (timed_out x)) s.futures differs gone.2,
      )

  status-Gone :
      (k : String) (handler : Option ℕ) (o : Option String)
      → lookup k s.pending_requests ≡ o
      → Gone id (status_for k s handler).0
  unfolding take_pending settle_call
  status-Gone k (some h) o e = gone
  status-Gone k none none e = rw e gone
  status-Gone k none (some x) e =
      let differs : k ≢ id = λ same. cc (same, gone.0, e) in
      rw e ((dropped k).0, (dropped k).1, settle_other k id _ s.futures differs gone.2)

settle_remote-Gone :
    (id k : String) (e : Result RpcException) (s : Calls)
    → k ≢ id
    → Gone id s
    → Gone id (settle_remote k e s)
unfolding set_future
settle_remote-Gone id k (ok e) s differs gone =
    (gone.0, gone.1, set_other k id (exception (remote e)) s.futures differs gone.2)
settle_remote-Gone id k (err e) s differs gone = gone

settle_response-Gone :
    (id k : String) (fs : Fields) (error : Option Value) (s : Calls)
    → k ≢ id
    → Gone id s
    → Gone id (settle_response k fs error s)
unfolding set_future
settle_response-Gone id k fs (some e) s differs gone =
    settle_remote-Gone id k (from_dict e) s differs gone
settle_response-Gone id k fs none s differs gone =
    (gone.0, gone.1, set_other k id _ s.futures differs gone.2)

route_pending-Gone :
    (id k : String) (fs : Fields) (s : Calls) (o : Option String)
    → lookup k s.pending_requests ≡ o
    → Gone id s
    → Gone id (route_pending k fs s o)
route_pending-Gone id k fs s none e gone = gone
route_pending-Gone id k fs s (some x) e gone = waiting_or_not (lookup k (take_pending k s).futures)
  where
    differs : k ≢ id
    differs same = cc (same, gone.0, e)

    waiting_or_not :
        (waits : Option Outcome)
        → Gone id (
            if_waiting waits
              (settle_response k fs (field_of "error" fs) (take_pending k s))
              (take_pending k s))
    waiting_or_not none =
        settle_response-Gone id k fs (field_of "error" fs) (take_pending k s) differs
          (dropped id s gone k)
    waiting_or_not (some o) = dropped id s gone k

route_id-Gone :
    (id : String) (fs : Fields) (s : Calls) (v : Option Value)
    → Gone id s
    → Gone id (route_id fs s v)
route_id-Gone id fs s none gone = gone
route_id-Gone id fs s (some (str k)) gone = elim (Bool-cases (k == "")) [
  | inl empty ↦ rw empty gone
  | inr full ↦ rw full (route_pending-Gone id k fs s (lookup k s.pending_requests) refl gone)
]
route_id-Gone id fs s (some v) gone = gone

route_mux_response-Gone :
    (id : String) (v : Value) (s : Calls) → Gone id s → Gone id (route_mux_response v s)
unfolding route_mux_response
route_mux_response-Gone id (dict fs) s gone = route_id-Gone id fs s (field_of "id" fs) gone
route_mux_response-Gone id v s gone = gone

step-Gone : (id : String) (e : Event) (s : Calls) → Unrelated id e → Gone id s → Gone id (step e s)
unfolding step
step-Gone id (called k subject) s x gone =
    unfold start_call in
    (
      insert_other k id subject s.pending_requests x ∙ gone.0,
      insert_other k id subject s.timers x ∙ gone.1,
      gone.2,
    )
step-Gone id (publishing_failed k) s x gone =
    unfold publish_failed in publish_failed-Gone id s gone k (lookup k s.pending_requests)
step-Gone id (timer_fired k) s x gone =
    unfold handle_timeout in
    fire-Gone id s gone k (lookup k s.timers) (lookup k s.pending_requests) refl refl
step-Gone id (task_cancelled k) s x gone =
    unfold cancel_call in (gone.0, gone.1, settle_other k id _ s.futures x gone.2)
step-Gone id (no_responder_status k) s x gone =
    unfold handle_no_responders in
    status-Gone id s gone k (lookup k s.status_handlers) (lookup k s.pending_requests) refl
step-Gone id (response_arrived v) s x gone = route_mux_response-Gone id v s gone
step-Gone id connection_torn_down s x gone =
    unfold cleanup_pending_requests in
    (
      unfold lookup in refl,
      erase_all-none id s.pending_requests s.timers gone.1,
      settle_all_other id s.pending_requests s.futures gone.0 gone.2,
    )

pub run-Gone :
    (id : String) (es : List Event) (s : Calls)
    → AllUnrelated id es
    → Gone id s
    → Gone id (run es s)
unfolding run
run-Gone id [] s x gone = gone
run-Gone id (e ∷ es) s x gone = run-Gone id es (step e s) x.1 (step-Gone id e s x.0 gone)
