-- ===== src/Client/Calls/NotLost.antt =====
-- What one event does to a call that waits for its answer.
use camera_ui_rpc.Base.{
  ℕ, String, Option, none, some, [], ◌∷◌, ◌==◌, String_eq, ◌≡◌, ◌≢◌, ◌⊎◌, refl, ◌∙◌, inl, inr,
  arith, Bool-cases, eq_of_same, same_self,
}
use camera_ui_rpc.Base.Result.{Result, ok, err}
use camera_ui_rpc.Base.Dict.{
  insert, lookup-insert, Dict, lookup, insert, erase, lookup-insert, lookup-erase,
}
use camera_ui_rpc.Codec.Values.{Value, dict, Fields, field_of}
use camera_ui_rpc.Errors.{RpcException, from_dict}
use camera_ui_rpc.Client.Calls.{
  Calls, Outcome, timed_out, exception, connection_closed, remote, settle, handle_timeout,
  take_pending, settle_call, set_future, handle_no_responders, settle_all, publish_failed_pending,
  fire_timer, status_for, route_pending, settle_response, settle_remote, if_waiting,
}
use camera_ui_rpc.Client.Calls.Steps.{
  Event, called, publishing_failed, response_arrived, lookup-settle,
}
use camera_ui_rpc.Client.Calls.Settled.{settle_all-Kept}

-- The call is pending with its timer running, or its future is done.
abbrev pub Tracked : String → String → Calls → Type 0
Tracked id subject s =
    ((lookup id s.pending_requests ≡ some subject) × (lookup id s.timers ≡ some subject))
    ⊎ ((o : Outcome) × (lookup id s.futures ≡ some o))

-- An error that a response carries has a code and a message.
abbrev pub Readable : Option Value → Type 0
Readable none = Unit
Readable (some error) = (e : RpcException) × (from_dict error ≡ ok e)

abbrev pub ReadableError : Value → Type 0
ReadableError (dict fs) = Readable (field_of "error" fs)
ReadableError v = Unit

-- The id is not used for another call, the request could be published, and errors are readable.
abbrev pub Expected : String → Event → Type 0
Expected id (called k subject) = k ≢ id
Expected id (publishing_failed k) = k ≢ id
Expected id (response_arrived v) = ReadableError v
Expected id e = Unit

pub settled_now :
    (id : String) (outcome : Outcome) (futures : Dict String Outcome)
    → (o : Outcome) × (lookup id (settle id outcome futures) ≡ some o)
settled_now id outcome futures = now (lookup id futures) refl
  where
    now :
        (waits : Option Outcome)
        → lookup id futures ≡ waits
        → (o : Outcome) × (lookup id (settle id outcome futures) ≡ some o)
    now none h = (outcome, lookup-settle id id outcome futures ∙ ground (arith, same_self id, h))
    now (some o) h = (o, lookup-settle id id outcome futures ∙ ground (arith, same_self id, h))

pub settle_all-settles :
    (id subject : String) (pending : Dict String String) (futures : Dict String Outcome)
    → lookup id pending ≡ some subject
    → (o : Outcome) × (lookup id (settle_all pending futures) ≡ some o)
unfolding settle_all lookup
settle_all-settles id subject [] futures h = cc h
settle_all-settles id subject ((k, other) ∷ rest) futures h = elim (Bool-cases (k == id)) [
  | inl same ↦
      let (o, done) = settled_now id (exception connection_closed) futures in
      (
        o,
        settle_all-Kept id o rest (settle k (exception connection_closed) futures)
            (rw (eq_of_same k id same) done),
      )
  | inr differs ↦
      settle_all-settles id subject rest (settle k (exception connection_closed) futures)
        (ground arith)
]

-- dropping another call's entry
pub erase_other :
    (k id : String) (d : Dict String String) → k ≢ id → lookup id (erase k d) ≡ lookup id d
erase_other k id d differs = lookup-erase k id d ∙ ground (arith, eq_of_same k id, differs)

pub insert_other :
    (k id v : String) (d : Dict String String) → k ≢ id → lookup id (insert k v d) ≡ lookup id d
insert_other k id v d differs = lookup-insert k id v d ∙ ground (arith, eq_of_same k id, differs)

pub same_or_other : (k id : String) → (k ≡ id) ⊎ (k ≢ id)
same_or_other k id = elim (Bool-cases (k == id)) [
  | inl same ↦ inl (eq_of_same k id same)
  | inr differs ↦ inr (λ e. ground (arith, same_self id, differs, e))
]

-- Both entries of another call are dropped: this one's stay.
others_dropped :
    (k id subject : String) (s : Calls)
    → k ≢ id
    → lookup id s.pending_requests ≡ some subject
    → lookup id s.timers ≡ some subject
    → (lookup id (erase k s.pending_requests) ≡ some subject)
      × (lookup id (erase k s.timers) ≡ some subject)
others_dropped k id subject s differs p t =
    (erase_other k id s.pending_requests differs ∙ p, erase_other k id s.timers differs ∙ t)

module _ (id subject : String) (s : Calls) (p : lookup id s.pending_requests ≡ some subject)
    (t : lookup id s.timers ≡ some subject) where
  pub publish_failed-Tracked :
      (k : String) (o : Option String) → k ≢ id → Tracked id subject (publish_failed_pending k s o)
  publish_failed-Tracked k none differs = inl (p, t)
  publish_failed-Tracked k (some other) differs = inl (others_dropped k id subject s differs p t)

  fire_other :
      (k : String) (timer o : Option String)
      → k ≢ id
      → lookup k s.pending_requests ≡ o
      → Tracked id subject (fire_timer k s timer)
  fire_other k none o differs e = inl (p, t)
  fire_other k (some x) none differs e = rw e (inl (p, erase_other k id s.timers differs ∙ t))
  fire_other k (some x) (some y) differs e = rw e (inl (others_dropped k id subject s differs p t))

  fire_own :
      (timer : Option String) → timer ≡ some subject → Tracked id subject (fire_timer id s timer)
  fire_own none e = cc e
  fire_own (some x) e = rw p (inr (settled_now id (exception (timed_out x)) s.futures))

  pub handle_timeout-Tracked : (k : String) → Tracked id subject (handle_timeout k s)
  unfolding handle_timeout
  handle_timeout-Tracked k = elim (same_or_other k id) [
    | inl same ↦ rw same (fire_own (lookup id s.timers) t)
    | inr differs ↦ fire_other k (lookup k s.timers) (lookup k s.pending_requests) differs refl
  ]

  status_other :
      (k : String) (handler : Option ℕ) (o : Option String)
      → k ≢ id
      → lookup k s.pending_requests ≡ o
      → Tracked id subject (status_for k s handler).0
  unfolding take_pending settle_call
  status_other k (some h) o differs e = inl (p, t)
  status_other k none none differs e = rw e (inl (p, t))
  status_other k none (some x) differs e = rw e (inl (others_dropped k id subject s differs p t))

  status_own : (handler : Option ℕ) → Tracked id subject (status_for id s handler).0
  unfolding take_pending settle_call
  status_own (some h) = inl (p, t)
  status_own none = rw p (inr (settled_now id _ s.futures))

  pub handle_no_responders-Tracked : (k : String) → Tracked id subject (handle_no_responders k s).0
  unfolding handle_no_responders
  handle_no_responders-Tracked k = elim (same_or_other k id) [
    | inl same ↦ rw same (status_own (lookup id s.status_handlers))
    | inr differs ↦
        status_other k (lookup k s.status_handlers) (lookup k s.pending_requests) differs refl
  ]

  settle_remote_keeps :
      (k : String) (e : Result RpcException) (u : Calls)
      → lookup id u.pending_requests ≡ some subject
      → lookup id u.timers ≡ some subject
      → Tracked id subject (settle_remote k e u)
  unfolding set_future
  settle_remote_keeps k (ok e) u pu tu = inl (pu, tu)
  settle_remote_keeps k (err e) u pu tu = inl (pu, tu)

  settle_response_keeps :
      (k : String) (fs : Fields) (error : Option Value) (u : Calls)
      → lookup id u.pending_requests ≡ some subject
      → lookup id u.timers ≡ some subject
      → Tracked id subject (settle_response k fs error u)
  unfolding set_future
  settle_response_keeps k fs (some e) u pu tu = settle_remote_keeps k (from_dict e) u pu tu
  settle_response_keeps k fs none u pu tu = inl (pu, tu)

  pub route_other :
      (k : String) (fs : Fields) (o : Option String)
      → k ≢ id
      → Tracked id subject (route_pending k fs s o)
  unfolding take_pending
  route_other k fs none differs = inl (p, t)
  route_other k fs (some x) differs = waiting_or_not (lookup k s.futures)
    where
      waiting_or_not :
          (waits : Option Outcome)
          → Tracked id subject (
              if_waiting waits
                (settle_response k fs (field_of "error" fs) (take_pending k s))
                (take_pending k s))
      waiting_or_not none =
          let kept = others_dropped k id subject s differs p t in
          settle_response_keeps k fs (field_of "error" fs) (take_pending k s) kept.0 kept.1
      waiting_or_not (some o) = inl (others_dropped k id subject s differs p t)

set_now :
    (id : String) (outcome : Outcome) (futures : Dict String Outcome)
    → (o : Outcome) × (lookup id (insert id outcome futures) ≡ some o)
set_now id outcome futures = (outcome, lookup-insert id id outcome futures ∙ rw (same_self id) refl)

settle_response_own :
    (id subject : String) (fs : Fields) (error : Option Value) (u : Calls)
    → Readable error
    → Tracked id subject (settle_response id fs error u)
unfolding set_future
settle_response_own id subject fs none u r = inr (set_now id _ u.futures)
settle_response_own id subject fs (some error) u (e, read) =
    rw read (inr (set_now id (exception (remote e)) u.futures))

pub route_own :
    (id subject : String) (fs : Fields) (s : Calls) (o : Option String)
    → o ≡ some subject
    → Readable (field_of "error" fs)
    → Tracked id subject (route_pending id fs s o)
unfolding take_pending
route_own id subject fs s none h r = cc h
route_own id subject fs s (some x) h r = waiting_or_not (lookup id s.futures) refl
  where
    waiting_or_not :
        (waits : Option Outcome)
        → lookup id s.futures ≡ waits
        → Tracked id subject (
            if_waiting waits
              (settle_response id fs (field_of "error" fs) (take_pending id s))
              (take_pending id s))
    waiting_or_not none e =
        settle_response_own id subject fs (field_of "error" fs) (take_pending id s) r
    waiting_or_not (some o) e = inr (o, e)
