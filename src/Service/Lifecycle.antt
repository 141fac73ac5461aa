-- ===== src/Service/Lifecycle.antt =====
-- RPCService of service.py: its services from registering to stopping. A NATS connection is a
-- number, and so is a registered service; `serving` has those that have not been stopped, and
-- `isolated` those whose own client is connected. Whether the NATS library adds and stops a
-- service, and whether an isolated client connects and disconnects, are parameters: `false` raises.
pub mod Forgotten
pub mod Tests
use camera_ui_rpc.Base.{
  ℕ, suc, Bool, true, false, String, Option, none, some, List, [], ◌∷◌, ◌++◌, nat_eq, ◌==◌,
  String_eq, if◌then◌else◌,
}
use camera_ui_rpc.Base.Result.{Result, ok, err, runtime_error}
use camera_ui_rpc.Base.Sets.{discard}

pub record NatsService : Type 0 where
  pub number : ℕ
  pub name : String
  -- has an `_isolated_client`
  pub own_client : Bool

pub record RpcService : Type 0 where
  pub nc : Option ℕ
  pub services : List NatsService
  pub last_number : ℕ
  pub serving : List ℕ
  pub isolated : List ℕ

abbrev pub new_rpc_service : RpcService
new_rpc_service = record { nc = none; services = []; last_number = 0; serving = []; isolated = [] }

abbrev pub is_same_connection : ℕ → Option ℕ → Bool
is_same_connection nc none = false
is_same_connection nc (some old) = nat_eq old nc

unfoldable pub init : ℕ → RpcService → RpcService
init nc s = if is_same_connection nc s.nc then s else record s { nc = some nc; services = [] }

abbrev pub add_service : String → Bool → RpcService → RpcService
add_service name isolated s =
    let number = suc s.last_number in
    record s {
      services = s.services ++ record { number = number; name = name; own_client = isolated } ∷ [];
      last_number = number;
      serving = number ∷ s.serving;
      isolated = if isolated then number ∷ s.isolated else s.isolated;
    }

abbrev pub register_with : Option ℕ → String → Bool → RpcService → Result RpcService
register_with none name isolated s = err runtime_error
register_with (some nc) name isolated s = ok (add_service name isolated s)

-- `register_handler`, for a service that can be added
unfoldable pub register_handler : String → Bool → RpcService → Result RpcService
register_handler name isolated s = register_with s.nc name isolated s

abbrev pub find_service : String → List NatsService → Option NatsService
find_service name [] = none
find_service name (service ∷ services) =
    let later = find_service name services in if service.name == name then some service else later

abbrev pub without : ℕ → List NatsService → List NatsService
without number [] = []
without number (service ∷ services) =
    let later = without number services in
    if nat_eq service.number number then later else service ∷ later

abbrev pub forget_if : ℕ → RpcService × Bool → RpcService
forget_if number (s, true) = record s { services = without number s.services }
forget_if number (s, false) = s

-- `get_all_info` and `get_info`, with the service in place of its information
unfoldable pub get_all_info : RpcService → List NatsService
get_all_info s = s.services

unfoldable pub get_info : String → RpcService → Option NatsService
get_info name s = find_service name s.services

abbrev pub stopped : NatsService → RpcService → RpcService
stopped service s = record s { serving = discard service.number s.serving }

-- `service.stop()`, and the disconnecting of the isolated client if that has not raised; the second
-- component is whether nothing has raised
abbrev pub stop_outcome : Bool → Bool → Bool → NatsService → RpcService → RpcService × Bool
stop_outcome false own disconnecting service s = (s, false)
stop_outcome true false disconnecting service s = (stopped service s, true)
stop_outcome true true false service s = (stopped service s, false)
stop_outcome true true true service s =
    (record (stopped service s) { isolated = discard service.number s.isolated }, true)

module _ (stops disconnects : ℕ → Bool) where
  abbrev pub stop_service : NatsService → RpcService → RpcService × Bool
  stop_service service s =
      stop_outcome (stops service.number) service.own_client (disconnects service.number) service s

  abbrev pub stop_found : Option NatsService → RpcService → RpcService
  stop_found none s = s
  stop_found (some service) s = forget_if service.number (stop_service service s)

  unfoldable pub stop : String → RpcService → RpcService
  stop name s = stop_found (find_service name s.services) s

  abbrev pub stop_each : List NatsService → RpcService → RpcService
  stop_each [] s = s
  stop_each (service ∷ services) s = stop_each services (stop_service service s).0

  unfoldable pub stop_all : RpcService → RpcService
  stop_all s = record (stop_each s.services s) { services = [] }

-- `Service.stop` of the handle that `register_handler` returns; that it raises is suppressed, and the
-- services and the isolated clients stay as they are
unfoldable pub stop_handle : Bool → ℕ → RpcService → RpcService
stop_handle true number s = record s { serving = discard number s.serving }
stop_handle false number s = s

pub data ServiceEvent : Type 0 where
  inits : ℕ → ServiceEvent
  registers : String → Bool → ServiceEvent
  stops_named : (ℕ → Bool) → (ℕ → Bool) → String → ServiceEvent
  stops_all : (ℕ → Bool) → (ℕ → Bool) → ServiceEvent
  handle_stops : Bool → ℕ → ServiceEvent

abbrev pub or_unchanged : RpcService → Result RpcService → RpcService
or_unchanged s (ok s') = s'
or_unchanged s (err e) = s

unfoldable pub service_step : ServiceEvent → RpcService → RpcService
unfolding init register_handler stop stop_all stop_handle
service_step (inits nc) s = init nc s
service_step (registers name isolated) s = or_unchanged s (register_handler name isolated s)
service_step (stops_named stops disconnects name) s = stop stops disconnects name s
service_step (stops_all stops disconnects) s = stop_all stops disconnects s
service_step (handle_stops succeeds number) s = stop_handle succeeds number s

unfoldable pub service_history : List ServiceEvent → RpcService → RpcService
unfolding service_step
service_history [] s = s
service_history (e ∷ es) s = service_history es (service_step e s)
