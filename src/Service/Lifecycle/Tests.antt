-- ===== src/Service/Lifecycle/Tests.antt =====
-- The theorem on services at a concrete input.
use camera_ui_rpc.Base.{refl, true, String_eq, [], ◌∷◌, arith}
use camera_ui_rpc.Base.Dict.{contains}
use camera_ui_rpc.Service.Lifecycle.{
  RpcService, new_rpc_service, init, register_handler, inits, registers, stops_all, handle_stops,
  service_step, service_history,
}
use camera_ui_rpc.Service.Lifecycle.Forgotten.{IsForgotten, reconnect_forgets_isolated}

-- one service with a client of its own
abbrev one_isolated : RpcService
unfolding service_history service_step init register_handler
one_isolated = service_history (inits 1 ∷ registers "math" true ∷ []) new_rpc_service

reconnect_forgets_isolated_example : IsForgotten 1 (
    service_history
      (inits 2 ∷ stops_all (λ n. true) (λ n. true) ∷ handle_stops true 2 ∷ [])
      one_isolated)
unfolding one_isolated service_history service_step init register_handler contains
reconnect_forgets_isolated_example =
    reconnect_forgets_isolated 1 2 one_isolated
      (stops_all (λ n. true) (λ n. true) ∷ handle_stops true 2 ∷ []) (omega arith) refl refl refl
      ((λ e. omega (arith, e)), tt)
