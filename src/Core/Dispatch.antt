-- ===== src/Core/Dispatch.antt =====
-- gnosis_vpn-lib/src/core/mod.rs: `on_results` and `on_event`. A handler returns the core and whether
-- the core goes on; `none` is a panic. What `read_safe` and `start_telemetry_reactor` answer comes
-- with the result that leads to their call.
use gnosis_vpn_client.Prelude.{
  ℕ, String, Bool, true, false, Option, none, some, List, Result, ok, err,
}
use gnosis_vpn_client.Types.{HealthCheckOutcome}
use gnosis_vpn_client.Connection.Up.{SessionClientMetadata, Event}
use gnosis_vpn_client.Connection.Down
use gnosis_vpn_client.Balance.{PreSafe, BalanceRecommendation, CapacityAllocator, Capacity}
use gnosis_vpn_client.Types.{from_secs}
use gnosis_vpn_client.Core.State.{Core, Phase, initial, starting, SafeModule, Answer}
use gnosis_vpn_client.Core.Target.{◌>>=◌}
use gnosis_vpn_client.Core.Safe.{
  on_results_node_balance, on_results_query_safe, on_results_deploy_safe, on_results_funding_tool,
  determine_next_phase_from_safe_disk_query, spawn_store_safe, command_funding_tool,
}
use gnosis_vpn_client.Core.Requests.{RunnerToRoot, on_request_to_root, on_response_from_root}
use gnosis_vpn_client.Core.Commands.{
  command_connect, command_disconnect, command_force_reconnect, on_shutdown,
}
use gnosis_vpn_client.Core.Runners.{
  PeerInfo, on_capacity_allocations, on_announced_peers, on_minimum_balance_recommendation,
  on_ideal_balance_recommendation, on_balances, on_hopr, on_hopr_running, try_start_reactor,
  spawn_minimum_balance_recommendation_runner, spawn_node_wxhopr_withdraw_runner,
}
use gnosis_vpn_client.Core.Connections.{
  on_connection_event, on_disconnection_event, on_connection_result, on_disconnection_result,
  on_session_monitor_failed, on_tunnel_ping_result, on_health_check,
}

pub data Results : Type 0 where
  node_balance : Result PreSafe String → Results
  query_safe : Result (Option SafeModule) String → Results
  deploy_safe : Result SafeModule String → Results
  minimum_balance ideal_balance : Result BalanceRecommendation String → Results
  capacity_allocations : Result (List (CapacityAllocator × Capacity)) String → Results
  balances : Result ℕ String → Results
  persist_safe : Result (Unit {0}) String → SafeModule → Results
  funding_tool : Result (Option String) String → Results
  hopr : Result ℕ String → SafeModule → (reactor : Result ℕ String) → Results
  incentive_operations : Result ℕ String → (disk : Option SafeModule) → Results
  incentive_operations_retry : String → Results
  node_wxhopr_withdraw : Results
  announced_peers : Result (List PeerInfo) String → Results
  hopr_construction : ℕ → Results
  hopr_running : Results
  connection_event : Event → Results
  connection_request_to_root : RunnerToRoot → Results
  connection_result : Result SessionClientMetadata String → Results
  disconnection_event : ℕ → Down.Event → Results
  disconnection_result : ℕ → Results
  session_monitor_failed : Results
  tunnel_ping_result : Result ℕ String → Results
  health_check : ℕ → HealthCheckOutcome → Results
  retry_reactor : (reactor : Result ℕ String) → Results

abbrev pub phase_after_retry : Phase → String → Phase
phase_after_retry (initial _) error = initial (some error)
phase_after_retry p error = p

abbrev pub phase_after_construction : Phase → ℕ → Phase
phase_after_construction (starting _ _) state = starting (some state) none
phase_after_construction p state = p

abbrev pub incentive_operations_in : Result ℕ String → Option SafeModule → Core → Core × Bool
incentive_operations_in (ok ops) disk c = (
  determine_next_phase_from_safe_disk_query disk (
      spawn_minimum_balance_recommendation_runner 0 (record c { incentive_operations = some ops })),
  true,
)
incentive_operations_in (err e) disk c = (c, false)

abbrev pub persist_safe_in : Result (Unit {0}) String → SafeModule → Core → Core
persist_safe_in (ok _) module_ c = c
persist_safe_in (err e) module_ c = spawn_store_safe module_ (from_secs 10) c

-- A handler that goes on, whatever it does.
abbrev pub go_on : Option Core → Option (Core × Bool)
go_on m = m >>= λ c. some (c, true)

unfoldable pub on_results : (ℕ → Option ℕ) → Results → ℕ → Core → Option (Core × Bool)
unfolding determine_next_phase_from_safe_disk_query spawn_minimum_balance_recommendation_runner
    spawn_store_safe
on_results from_hex (node_balance res) now c = some (on_results_node_balance res c, true)
on_results from_hex (query_safe res) now c = some (on_results_query_safe res c, true)
on_results from_hex (deploy_safe res) now c = some (on_results_deploy_safe res c, true)
on_results from_hex (minimum_balance res) now c =
    some (on_minimum_balance_recommendation res c, true)
on_results from_hex (ideal_balance res) now c = some (on_ideal_balance_recommendation res c, true)
on_results from_hex (capacity_allocations res) now c = some (on_capacity_allocations res c, true)
on_results from_hex (balances res) now c = some (on_balances res c, true)
on_results from_hex (persist_safe res module_) now c = some (persist_safe_in res module_ c, true)
on_results from_hex (funding_tool res) now c = some (on_results_funding_tool res c, true)
on_results from_hex (hopr res module_ reactor) now c = some (on_hopr res module_ reactor c, true)
on_results from_hex (incentive_operations res disk) now c =
    some (incentive_operations_in res disk c)
on_results from_hex (incentive_operations_retry error) now c =
    some (record c { phase = phase_after_retry c.phase error }, true)
on_results from_hex node_wxhopr_withdraw now c =
    some (spawn_node_wxhopr_withdraw_runner (from_secs 45) c, true)
on_results from_hex (announced_peers res) now c = some (on_announced_peers res c, true)
on_results from_hex (hopr_construction state) now c =
    some (record c { phase = phase_after_construction c.phase state }, true)
on_results from_hex hopr_running now c = go_on (on_hopr_running from_hex now c)
on_results from_hex (connection_event evt) now c = some (on_connection_event evt now c, true)
on_results from_hex (connection_request_to_root req) now c = some (on_request_to_root req c, true)
on_results from_hex (connection_result res) now c = some (on_connection_result res now c)
on_results from_hex (disconnection_event key evt) now c =
    go_on (on_disconnection_event from_hex key evt now c)
on_results from_hex (disconnection_result key) now c =
    go_on (on_disconnection_result from_hex key now c)
on_results from_hex session_monitor_failed now c = go_on (on_session_monitor_failed from_hex now c)
on_results from_hex (tunnel_ping_result rtt) now c =
    go_on (on_tunnel_ping_result from_hex rtt now c)
on_results from_hex (health_check id outcome) now c =
    go_on (on_health_check from_hex id outcome now c)
on_results from_hex (retry_reactor reactor) now c = some (try_start_reactor reactor c, true)

-- The events of the worker whose handler can change the core.
pub data WorkerToCore : Type 0 where
  shutdown : WorkerToCore
  response_from_root : ℕ → Answer → WorkerToCore
  connect : ℕ → WorkerToCore
  disconnect force_reconnect : WorkerToCore
  start_funding_tool : ℕ → WorkerToCore

unfoldable pub on_event : (ℕ → Option ℕ) → WorkerToCore → ℕ → Core → Option (Core × Bool)
on_event from_hex shutdown now c = some (on_shutdown c, false)
on_event from_hex (response_from_root id answer) now c =
    some (on_response_from_root id answer c, true)
on_event from_hex (connect id) now c = go_on (command_connect from_hex id now c)
on_event from_hex disconnect now c = go_on (command_disconnect from_hex now c)
on_event from_hex force_reconnect now c = go_on (command_force_reconnect from_hex now c)
on_event from_hex (start_funding_tool secret) now c = some (command_funding_tool secret c, true)
