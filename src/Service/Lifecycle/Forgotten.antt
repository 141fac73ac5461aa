-- ===== src/Service/Lifecycle/Forgotten.antt =====
-- Services that a new connection makes RPCService of service.py forget.
use camera_ui_rpc.Base.{
  ℕ, ◌≤◌, ◌≡◌, ◌≢◌, Bool, true, false, String, Option, none, some, List, [], ◌∷◌, ◌++◌, nat_eq,
  ◌==◌, String_eq, ℕ_eq, arith, if◌then◌else◌,
}
use camera_ui_rpc.Base.Dict.{contains}
use camera_ui_rpc.Base.Sets.{discard}
use camera_ui_rpc.Service.Lifecycle.{
  NatsService, RpcService, is_same_connection, init, add_service, register_with, register_handler,
  find_service, without, forget_if, stopped, stop_outcome, stop_service, stop_found, stop,
  stop_each, stop_all, ServiceEvent, inits, registers, stops_named, stops_all, handle_stops,
  stop_handle, or_unchanged, service_step, service_history,
}

abbrev Absent : ℕ → List NatsService → Type 0
Absent k [] = Unit
Absent k (service ∷ services) = (service.number ≢ k) × Absent k services

-- The service `k` runs with its own client, and is not among the services.
pub record IsForgotten (k : ℕ) (s : RpcService) : Type 0 where
  pub absent : Absent k s.services
  pub runs : contains k s.serving ≡ true
  pub connected : contains k s.isolated ≡ true
  pub is_old : k ≤ s.last_number

-- the handle of the service `k` is not used to stop it
abbrev pub HandleUnused : ℕ → List ServiceEvent → Type 0
HandleUnused k [] = Unit
HandleUnused k (handle_stops succeeds j ∷ es) = (j ≢ k) × HandleUnused k es
HandleUnused k (e ∷ es) = HandleUnused k es

contains-discard_other :
    (k j : ℕ) (s : List ℕ) → j ≢ k → contains k s ≡ true → contains k (discard j s) ≡ true
unfolding contains discard
contains-discard_other k j [] other h = h
contains-discard_other k j (x ∷ s) other h =
    ground (arith, other, contains-discard_other k j s other)

module _ (k : ℕ) where
  added-Absent :
      (services : List NatsService) (service : NatsService)
      → service.number ≢ k
      → Absent k services
      → Absent k (services ++ service ∷ [])
  added-Absent [] service other a = (other, tt)
  added-Absent (x ∷ services) service other a = (a.0, added-Absent services service other a.1)

  without-Absent :
      (j : ℕ) (services : List NatsService) → Absent k services → Absent k (without j services)
  without-Absent j [] a = tt
  without-Absent j (x ∷ services) a = kept (nat_eq x.number j) (without-Absent j services a.1)
    where
      kept :
          (q : Bool)
          → Absent k (without j services)
          → Absent k (if q then without j services else x ∷ without j services)
      kept true later = later
      kept false later = (a.0, later)

  added-IsForgotten :
      (name : String) (isolated : Bool) (s : RpcService)
      → IsForgotten k s
      → IsForgotten k (add_service name isolated s)
  unfolding contains
  added-IsForgotten name true s f = record {
    absent = added-Absent s.services _ (λ same. omega (arith, same, f.is_old)) f.absent;
    runs = ground (arith, f.runs);
    connected = ground (arith, f.connected);
    is_old = omega (arith, f.is_old);
  }
  added-IsForgotten name false s f = record {
    absent = added-Absent s.services _ (λ same. omega (arith, same, f.is_old)) f.absent;
    runs = ground (arith, f.runs);
    connected = f.connected;
    is_old = omega (arith, f.is_old);
  }

  stopped-IsForgotten :
      (service : NatsService) (s : RpcService)
      → service.number ≢ k
      → IsForgotten k s
      → IsForgotten k (stopped service s)
  stopped-IsForgotten service s other f = record {
    absent = f.absent;
    runs = contains-discard_other k service.number s.serving other f.runs;
    connected = f.connected;
    is_old = f.is_old;
  }

  stop_outcome-IsForgotten :
      (service : NatsService) (s : RpcService) (stopping own disconnecting : Bool)
      → service.number ≢ k
      → IsForgotten k s
      → IsForgotten k (stop_outcome stopping own disconnecting service s).0
  stop_outcome-IsForgotten service s true true true other f = record {
    absent = f.absent;
    runs = contains-discard_other k service.number s.serving other f.runs;
    connected = contains-discard_other k service.number s.isolated other f.connected;
    is_old = f.is_old;
  }
  stop_outcome-IsForgotten service s true true false other f = stopped-IsForgotten service s other f
  stop_outcome-IsForgotten service s true false disconnecting other f =
      stopped-IsForgotten service s other f
  stop_outcome-IsForgotten service s false own disconnecting other f = f

  module _ (stops disconnects : ℕ → Bool) where
    stop_service-IsForgotten :
        (service : NatsService) (s : RpcService)
        → service.number ≢ k
        → IsForgotten k s
        → IsForgotten k (stop_service stops disconnects service s).0
    stop_service-IsForgotten service s other f =
        stop_outcome-IsForgotten service s (stops service.number) service.own_client
          (disconnects service.number) other f

    forget-IsForgotten :
        (j : ℕ) (r : RpcService × Bool) → IsForgotten k r.0 → IsForgotten k (forget_if j r)
    forget-IsForgotten j (s, true) f = record {
      absent = without-Absent j s.services f.absent;
      runs = f.runs;
      connected = f.connected;
      is_old = f.is_old;
    }
    forget-IsForgotten j (s, false) f = f

    stop_found-IsForgotten :
        (name : String) (services : List NatsService) (s : RpcService)
        → Absent k services
        → IsForgotten k s
        → IsForgotten k (stop_found stops disconnects (find_service name services) s)
    stop_found-IsForgotten name [] s a f = f
    stop_found-IsForgotten name (x ∷ services) s a f =
        by_name (x.name == name) (stop_found-IsForgotten name services s a.1 f)
      where
        by_name :
            (q : Bool)
            → IsForgotten k (stop_found stops disconnects (find_service name services) s)
            → IsForgotten k
                (stop_found stops disconnects (if q then some x else find_service name services) s)
        by_name true later =
            forget-IsForgotten x.number (stop_service stops disconnects x s)
              (stop_service-IsForgotten x s a.0 f)
        by_name false later = later

    stop_each-IsForgotten :
        (services : List NatsService) (s : RpcService)
        → Absent k services
        → IsForgotten k s
        → IsForgotten k (stop_each stops disconnects services s)
    stop_each-IsForgotten [] s a f = f
    stop_each-IsForgotten (x ∷ services) s a f =
        stop_each-IsForgotten services (stop_service stops disconnects x s).0 a.1
          (stop_service-IsForgotten x s a.0 f)

  emptied : (s : RpcService) → IsForgotten k s → IsForgotten k (record s { services = [] })
  emptied s f = record { absent = tt; runs = f.runs; connected = f.connected; is_old = f.is_old }

  registered-IsForgotten :
      (nc : Option ℕ) (name : String) (isolated : Bool) (s : RpcService)
      → IsForgotten k s
      → IsForgotten k (or_unchanged s (register_with nc name isolated s))
  registered-IsForgotten none name isolated s f = f
  registered-IsForgotten (some nc) name isolated s f = added-IsForgotten name isolated s f

  step-IsForgotten :
      (e : ServiceEvent) (s : RpcService)
      → HandleUnused k (e ∷ [])
      → IsForgotten k s
      → IsForgotten k (service_step e s)
  unfolding service_step init register_handler stop stop_all stop_handle
  step-IsForgotten (inits nc) s unused f = by_connection (is_same_connection nc s.nc)
    where
      by_connection :
          (q : Bool) → IsForgotten k (if q then s else record s { nc = some nc; services = [] })
      by_connection true = f
      by_connection false = record {
        absent = tt;
        runs = f.runs;
        connected = f.connected;
        is_old = f.is_old;
      }
  step-IsForgotten (registers name isolated) s unused f =
      registered-IsForgotten s.nc name isolated s f
  step-IsForgotten (stops_named stops disconnects name) s unused f =
      stop_found-IsForgotten stops disconnects name s.services s f.absent f
  step-IsForgotten (handle_stops true j) s unused f = record {
    absent = f.absent;
    runs = contains-discard_other k j s.serving unused.0 f.runs;
    connected = f.connected;
    is_old = f.is_old;
  }
  step-IsForgotten (handle_stops false j) s unused f = f
  step-IsForgotten (stops_all stops disconnects) s unused f =
      emptied (stop_each stops disconnects s.services s)
        (stop_each-IsForgotten stops disconnects s.services s f.absent f)

  history-IsForgotten :
      (es : List ServiceEvent) (s : RpcService)
      → HandleUnused k es
      → IsForgotten k s
      → IsForgotten k (service_history es s)
  unfolding service_history
  history-IsForgotten [] s unused f = f
  history-IsForgotten (handle_stops succeeds j ∷ es) s unused f =
      history-IsForgotten es (service_step (handle_stops succeeds j) s) unused.1
        (step-IsForgotten (handle_stops succeeds j) s (unused.0, tt) f)
  history-IsForgotten (e ∷ es) s unused f =
      history-IsForgotten es (service_step e s) unused (step-IsForgotten e s tt f)

-- A service that runs with a client of its own is forgotten when the client of RPCService connects
-- anew. Whatever is registered or initialised from then on, whatever RPCService stops with stop and
-- stop_all, and whichever other service is stopped with the handle that register_handler returned,
-- the service keeps running, its client stays connected, and it is not among the services.
pub reconnect_forgets_isolated :
    (k nc : ℕ) (s : RpcService) (es : List ServiceEvent)
    → k ≤ s.last_number
    → contains k s.serving ≡ true
    → contains k s.isolated ≡ true
    → is_same_connection nc s.nc ≡ false
    → HandleUnused k es
    → IsForgotten k (service_history (inits nc ∷ es) s)
unfolding service_history service_step init
reconnect_forgets_isolated k nc s es old runs connected anew unused =
    history-IsForgotten k es (service_step (inits nc) s) unused
      (rw anew (record { absent = tt; runs = runs; connected = connected; is_old = old }))
