-- ===== src/Examples/Cores.antt =====
-- The theorems about the core at concrete inputs.
use gnosis_vpn_client.Prelude.{arith, ◌≡◌, refl, true, none, some, List, [], ◌∷◌, ok}
use gnosis_vpn_client.Prelude.Maps.{lookup}
use gnosis_vpn_client.Types.{ready_to_connect, connecting, routable, needs_peering, completed}
use gnosis_vpn_client.Connection.Down.{try_from}
use gnosis_vpn_client.RouteHealth.Tracker.{is_ready_to_connect, current_exit_health}
use gnosis_vpn_client.RouteHealth.Transitions.{health_check_result}
use gnosis_vpn_client.Core.State.{
  Core, hopr_running, connected, answered_disconnect, disconnecting_from, unit_answer, str_answer,
  delivered,
}
use gnosis_vpn_client.Core.State
use gnosis_vpn_client.Core.Target.{force_reconnect}
use gnosis_vpn_client.Core.Requests.{
  static_routing, ping_request, on_request_to_root, on_response_from_root,
}
use gnosis_vpn_client.Core.Commands.{command_disconnect}
use gnosis_vpn_client.Core.Connections.{on_health_check}
use gnosis_vpn_client.Core.Dispatch
use gnosis_vpn_client.Core.Dispatch.{on_results, on_event}
use gnosis_vpn_client.Core.Total.{Returns, HasHopr}
use gnosis_vpn_client.Core.Runners.{on_hopr, on_hopr_running, spawn_node_runners}
use gnosis_vpn_client.Core.Balances.{Clients, command_balance}
use gnosis_vpn_client.Core.Balances.Answered.{IsAnswer, command_balance-IsAnswer}
use gnosis_vpn_client.Core.Status.{Libraries}
use gnosis_vpn_client.Core.Reports.{IsReported, run_all-IsReported}
use gnosis_vpn_client.Core.Traces.{Input, event, result, handle, run_all, run_all-Returns}
use gnosis_vpn_client.Core.Channels.{
  Exchange, requested, responded, exchange, answer_reaches_requester,
}
use gnosis_vpn_client.Core.Disconnecting.{IsTornDown, command_disconnect_tears_down}
use gnosis_vpn_client.Core.Reconnect.{IsReset, force_reconnect_without_exit}
use gnosis_vpn_client.Core.Connecting.{IsConnecting, ready_target_connects}
use gnosis_vpn_client.Examples.Data.{
  parse, exit_dest, versions, health, exit_health, route, conn, down, core,
}

abbrev connected_core : Core
connected_core = core (connected conn) (some exit_dest) (route (connecting exit_health none) 2)

abbrev idle_core : Core
idle_core = core hopr_running none (route (ready_to_connect exit_health) 0)

-- The route was ready and lost its peers while the tunnel was up.
abbrev stranded_core : Core
stranded_core = core (connected conn) (some exit_dest) (route (needs_peering true) 0)

abbrev waiting_core : Core
waiting_core = core hopr_running (some exit_dest) (route routable 0)

abbrev attempting_core : Core
attempting_core =
    core (State.connecting conn) (some exit_dest) (route (connecting exit_health none) 0)

connected-HasHopr : HasHopr connected_core
connected-HasHopr = record { handle = λ _. refl }

command_disconnect_tears_down_example :
    Returns
      (IsTornDown down connected_core (answered_disconnect (disconnecting_from exit_dest) ∷ []))
      (command_disconnect parse 20 connected_core)
unfolding try_from
command_disconnect_tears_down_example =
    command_disconnect_tears_down parse conn down 20 connected_core connected-HasHopr refl refl

-- A ping is asked for, and an earlier lockdown is answered, before the tunnel is.
abbrev meantime : List Exchange
meantime = requested (ping_request 6 35) ∷ responded 2 (unit_answer (ok tt)) ∷ []

answer_reaches_requester_example :
    let c' = exchange meantime (on_request_to_root (static_routing 5 [] 33) idle_core) in
    let d = on_response_from_root 4 (str_answer (ok "wg0")) c' in
    (d.outbox ≡ delivered 33 (str_answer (ok "wg0")) ∷ c'.outbox) × (lookup 4 d.responders ≡ none)
answer_reaches_requester_example =
    answer_reaches_requester (static_routing 5 [] 33) (str_answer (ok "wg0")) meantime idle_core
      refl (omega arith, tt) (omega arith) refl

force_reconnect_without_exit_example :
    Returns (IsReset hopr_running stranded_core) (force_reconnect parse conn 20 stranded_core)
unfolding lookup current_exit_health
force_reconnect_without_exit_example =
    force_reconnect_without_exit parse conn 20 stranded_core refl refl

ready_target_connects_example :
    Returns (IsConnecting exit_dest 20) (
      on_health_check parse 1 (completed 2 (some versions) (some 40) (some health)) 20 waiting_core)
unfolding lookup is_ready_to_connect health_check_result
ready_target_connects_example =
    ready_target_connects parse 1 (completed 2 (some versions) (some 40) (some health)) exit_dest
      (route routable 0) 20 waiting_core refl refl refl refl refl refl refl (omega arith) refl

abbrev initial_core : Core
initial_core = record (core (State.initial none) none (route routable 0)) { hopr = none }

-- The edge client is made and runs, and the core is shut down.
abbrev first_inputs : List Input
first_inputs =
    result 1 (Dispatch.hopr (ok 1) (record { safe_address = 8; module_address = 9 }) (ok 2))
    ∷ result 2 Dispatch.hopr_running
    ∷ event 4 Dispatch.shutdown
    ∷ []

run_all-Returns_example : Returns HasHopr (run_all parse first_inputs initial_core)
unfolding handle on_hopr on_hopr_running spawn_node_runners
run_all-Returns_example =
    run_all-Returns parse first_inputs initial_core none refl (tt, (refl, (tt, tt)))

abbrev libraries : Libraries
libraries = record { node_address = 51; hopr_status = λ h. h; node_xdai = λ b. b }

run_all-IsReported_example :
    Returns (IsReported libraries) (run_all parse first_inputs initial_core)
unfolding handle on_hopr on_hopr_running spawn_node_runners
run_all-IsReported_example =
    run_all-IsReported libraries parse first_inputs initial_core none refl (tt, (refl, (tt, tt)))

abbrev clients : Clients
clients = record {
  info_of = λ h. record { node_address = 51; node_peer_id = 52; safe_address = 53 };
  balances_of = λ b. record {
    node_xdai = b;
    safe_wxhopr = 9;
    channels_out = (exit_dest.address, 4) ∷ (77, 5) ∷ [];
  };
}

abbrev funded_core : Core
funded_core = record connected_core { balances = some 6 }

command_balance-IsAnswer_example :
    IsAnswer clients funded_core (command_balance clients funded_core)
command_balance-IsAnswer_example = command_balance-IsAnswer clients funded_core
