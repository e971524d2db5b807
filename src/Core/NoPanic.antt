-- ===== src/Core/NoPanic.antt =====
-- gnosis_vpn-lib/src/core/mod.rs: `on_results` and `on_event` on every result and every event.
use gnosis_vpn_client.Prelude.{
  ℕ, ◌≡◌, String, Bool, true, Option, none, some, List, Result, ok, err, arith, is_some,
}
use gnosis_vpn_client.Prelude.Maps.{lookup}
use gnosis_vpn_client.Balance.{Capacity, CapacityAllocator}
use gnosis_vpn_client.Connection.Up.{Event, SessionClientMetadata}
use gnosis_vpn_client.RouteHealth.Transitions.{DelayFits}
use gnosis_vpn_client.Core.State.{Core, hopr_running, SafeModule}
use gnosis_vpn_client.RouteHealth.Tracker.{any_needs_peers}
use gnosis_vpn_client.Core.Target.{act_on_target}
use gnosis_vpn_client.Core.Safe.{
  on_results_node_balance, on_results_query_safe, on_results_deploy_safe, on_results_funding_tool,
  command_funding_tool,
}
use gnosis_vpn_client.Core.Requests.{on_request_to_root, on_response_from_root}
use gnosis_vpn_client.Core.Commands.{on_shutdown}
use gnosis_vpn_client.Core.Runners.{
  PeerInfo, on_capacity_allocations, on_announced_peers, on_minimum_balance_recommendation,
  on_ideal_balance_recommendation, on_balances, on_hopr, on_hopr_running, try_start_reactor,
  spawn_node_wxhopr_withdraw_runner, spawn_node_runners, spawn_announced_peers, routes,
}
use gnosis_vpn_client.Core.Connections.{
  on_connection_event, on_connection_result, on_session_monitor_failed, on_tunnel_ping_result,
  on_health_check,
}
use gnosis_vpn_client.Core.Dispatch
use gnosis_vpn_client.Core.Dispatch.{Results, on_results, WorkerToCore, on_event}
use gnosis_vpn_client.Core.Total.{Returns, Returns-if, HasHopr}
use gnosis_vpn_client.Core.Steps.{
  HasHopr-of_some, act_on_target-HasHopr, command_connect-HasHopr, command_disconnect-HasHopr,
  command_force_reconnect-HasHopr, on_disconnection_event-HasHopr, on_disconnection_result-HasHopr,
  monitor_failed_in-HasHopr, tunnel_ping_in-HasHopr, health_check_on-HasHopr,
}

-- Results that only a task with the edge client sends; at a health check, the product of the intervals
-- fits a duration.
abbrev pub IsExpected : Core → Results → Type 0
IsExpected c Dispatch.hopr_running = is_some c.hopr ≡ true
IsExpected c (Dispatch.health_check id outcome) = (is_some c.hopr ≡ true) × DelayFits c.intervals
IsExpected c _ = Unit {0}

-- A handler's core, beside whether it goes on.
abbrev pub KeepsHopr : Core × Bool → Type 0
KeepsHopr (c, more) = HasHopr c

go_on-KeepsHopr : (m : Option Core) → Returns HasHopr m → Returns KeepsHopr (Dispatch.go_on m)
go_on-KeepsHopr none h = h
go_on-KeepsHopr (some c) h = h

spawn_node_runners-hopr : (c : Core) → (spawn_node_runners c).hopr ≡ c.hopr
unfolding spawn_node_runners
spawn_node_runners-hopr c = ground arith

spawn_announced_peers-hopr : (delay : ℕ) (c : Core) → (spawn_announced_peers delay c).hopr ≡ c.hopr
unfolding spawn_announced_peers
spawn_announced_peers-hopr delay c = ground arith

module _ (c : Core) (v : HasHopr c) where
  on_capacity_allocations-HasHopr :
      (res : Result (List (CapacityAllocator × Capacity)) String)
      → HasHopr (on_capacity_allocations res c)
  unfolding on_capacity_allocations
  on_capacity_allocations-HasHopr (ok allocations) = ground arith
  on_capacity_allocations-HasHopr (err e) = ground arith

  on_announced_peers-HasHopr :
      (res : Result (List PeerInfo) String) → HasHopr (on_announced_peers res c)
  unfolding on_announced_peers
  on_announced_peers-HasHopr (ok peers) = ground arith
  on_announced_peers-HasHopr (err e) = ground arith

  on_hopr-HasHopr :
      (res : Result ℕ String) (module_ : SafeModule) (reactor : Result ℕ String)
      → HasHopr (on_hopr res module_ reactor c)
  unfolding on_hopr
  on_hopr-HasHopr (ok h) module_ reactor = ground arith
  on_hopr-HasHopr (err e) module_ reactor = ground arith

  on_node_balance-HasHopr : (res : _) → HasHopr (on_results_node_balance res c)
  unfolding on_results_node_balance
  on_node_balance-HasHopr res = ground arith

  on_query_safe-HasHopr : (res : _) → HasHopr (on_results_query_safe res c)
  unfolding on_results_query_safe
  on_query_safe-HasHopr res = ground arith

  on_deploy_safe-HasHopr : (res : _) → HasHopr (on_results_deploy_safe res c)
  unfolding on_results_deploy_safe
  on_deploy_safe-HasHopr res = ground arith

  on_connection_event-HasHopr : (evt : Event) (now : ℕ) → HasHopr (on_connection_event evt now c)
  unfolding on_connection_event
  on_connection_event-HasHopr evt now = ground arith

  on_connection_result-HasHopr :
      (res : Result SessionClientMetadata String) (now : ℕ)
      → HasHopr (on_connection_result res now c).0
  unfolding on_connection_result
  on_connection_result-HasHopr res now = ground arith

  on_hopr_running-HasHopr :
      (from_hex : ℕ → Option ℕ) (now : ℕ)
      → is_some c.hopr ≡ true
      → Returns HasHopr (on_hopr_running from_hex now c)
  unfolding on_hopr_running
  on_hopr_running-HasHopr from_hex now h =
      let d = spawn_node_runners (record c { phase = hopr_running }) in
      let e = spawn_announced_peers 0 d in
      let kept : is_some d.hopr ≡ true = rw spawn_node_runners-hopr h in
      Returns-if HasHopr (any_needs_peers (routes d)) (some e) (act_on_target from_hex now d)
        (HasHopr-of_some e (rw spawn_announced_peers-hopr kept))
        (act_on_target-HasHopr from_hex now d (HasHopr-of_some d kept))

-- From a core that has the edge client wherever its phase needs it, every result is handled without
-- a panic, and the core is again such a core. Health checks and the start of the edge client are
-- reported only by tasks that were given the edge client.
pub on_results-Returns :
    (from_hex : ℕ → Option ℕ) (r : Results) (now : ℕ) (c : Core)
    → IsExpected c r
    → HasHopr c
    → Returns KeepsHopr (on_results from_hex r now c)
unfolding on_results
on_results-Returns from_hex (Dispatch.node_balance res) now c x v = on_node_balance-HasHopr c v res
on_results-Returns from_hex (Dispatch.query_safe res) now c x v = on_query_safe-HasHopr c v res
on_results-Returns from_hex (Dispatch.deploy_safe res) now c x v = on_deploy_safe-HasHopr c v res
on_results-Returns from_hex (Dispatch.minimum_balance res) now c x v =
    unfold on_minimum_balance_recommendation in ground arith
on_results-Returns from_hex (Dispatch.ideal_balance res) now c x v =
    unfold on_ideal_balance_recommendation in ground arith
on_results-Returns from_hex (Dispatch.capacity_allocations res) now c x v =
    on_capacity_allocations-HasHopr c v res
on_results-Returns from_hex (Dispatch.balances res) now c x v = unfold on_balances in ground arith
on_results-Returns from_hex (Dispatch.persist_safe res module_) now c x v = ground arith
on_results-Returns from_hex (Dispatch.funding_tool res) now c x v =
    unfold on_results_funding_tool in ground arith
on_results-Returns from_hex (Dispatch.hopr res module_ reactor) now c x v =
    on_hopr-HasHopr c v res module_ reactor
on_results-Returns from_hex (Dispatch.incentive_operations res disk) now c x v = ground arith
on_results-Returns from_hex (Dispatch.incentive_operations_retry error) now c x v = ground arith
on_results-Returns from_hex Dispatch.node_wxhopr_withdraw now c x v =
    unfold spawn_node_wxhopr_withdraw_runner in ground arith
on_results-Returns from_hex (Dispatch.announced_peers res) now c x v =
    on_announced_peers-HasHopr c v res
on_results-Returns from_hex (Dispatch.hopr_construction state) now c x v = ground arith
on_results-Returns from_hex Dispatch.hopr_running now c x v =
    go_on-KeepsHopr _ (on_hopr_running-HasHopr c v from_hex now x)
on_results-Returns from_hex (Dispatch.connection_event evt) now c x v =
    on_connection_event-HasHopr c v evt now
on_results-Returns from_hex (Dispatch.connection_request_to_root req) now c x v =
    unfold on_request_to_root in ground arith
on_results-Returns from_hex (Dispatch.connection_result res) now c x v =
    on_connection_result-HasHopr c v res now
on_results-Returns from_hex (Dispatch.disconnection_event key evt) now c x v =
    go_on-KeepsHopr _ (on_disconnection_event-HasHopr from_hex now c v key evt)
on_results-Returns from_hex (Dispatch.disconnection_result key) now c x v =
    go_on-KeepsHopr _ (on_disconnection_result-HasHopr from_hex now c v key)
on_results-Returns from_hex Dispatch.session_monitor_failed now c x v = go_on-KeepsHopr _ (
    unfold on_session_monitor_failed in monitor_failed_in-HasHopr from_hex now c v c.phase v.handle)
on_results-Returns from_hex (Dispatch.tunnel_ping_result rtt) now c x v =
    go_on-KeepsHopr _
      (unfold on_tunnel_ping_result in tunnel_ping_in-HasHopr from_hex now c v c.phase rtt v.handle)
on_results-Returns from_hex (Dispatch.health_check id outcome) now c x v = go_on-KeepsHopr _ (
    unfold on_health_check in
    health_check_on-HasHopr from_hex now c v id (lookup id c.destinations)
      (lookup id c.route_healths) c.hopr outcome x)
on_results-Returns from_hex (Dispatch.retry_reactor reactor) now c x v =
    unfold try_start_reactor in ground arith

-- From a core that has the edge client wherever its phase needs it, every event of the worker that
-- can change the core is handled without a panic, and the core is again such a core.
pub on_event-Returns :
    (from_hex : ℕ → Option ℕ) (e : WorkerToCore) (now : ℕ) (c : Core)
    → HasHopr c
    → Returns KeepsHopr (on_event from_hex e now c)
unfolding on_event on_shutdown on_response_from_root command_funding_tool
on_event-Returns from_hex Dispatch.shutdown now c v = ground arith
on_event-Returns from_hex (Dispatch.response_from_root id answer) now c v = ground arith
on_event-Returns from_hex (Dispatch.connect id) now c v =
    go_on-KeepsHopr _ (command_connect-HasHopr from_hex now c v id)
on_event-Returns from_hex Dispatch.disconnect now c v =
    go_on-KeepsHopr _ (command_disconnect-HasHopr from_hex now c v)
on_event-Returns from_hex Dispatch.force_reconnect now c v =
    go_on-KeepsHopr _ (command_force_reconnect-HasHopr from_hex now c v)
on_event-Returns from_hex (Dispatch.start_funding_tool secret) now c v = ground arith
