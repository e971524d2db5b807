-- ===== src/Core/State.antt =====
-- gnosis_vpn-lib/src/core/mod.rs: the record `Core`, its phases, and the spawning of runners.
--
-- Of the configuration the destinations and the intervals of the health checks are kept. Handles of
-- libraries are numbers. `env` is the trace of runtime calls, and `outbox` what was sent to the
-- worker and to waiting commands, the newest first.
use gnosis_vpn_client.Prelude.{ℕ, String, Option, none, some, List, ◌∷◌, Result}
use gnosis_vpn_client.Prelude.Maps.{insert}
use gnosis_vpn_client.Types.{Destination, HealthCheckIntervals, RouteHealthState}
use gnosis_vpn_client.Runtime.{Env, Task, spawn}
use gnosis_vpn_client.RouteHealth.Tracker.{RouteHealth}
use gnosis_vpn_client.Connection.Up.{Up}
use gnosis_vpn_client.Connection.Down.{Down}
use gnosis_vpn_client.Connection.PseudonymCache.{PseudonymCache}
use gnosis_vpn_client.Balance.{
  FundingTool, PreSafe, BalanceRecommendation, CapacityAllocator, Capacity,
}

pub record SafeModule : Type 0 where
  pub safe_address : ℕ
  pub module_address : ℕ

pub data Querying (T : Type 0) : Type 0 where
  init : Querying T
  success : T → Querying T
  error : String → Querying T

pub record CheckingSafe : Type 0 where
  pub node_balance : Querying PreSafe
  pub query_safe : Querying (Option SafeModule)
  pub funding_tool : FundingTool
  pub deploy_safe_error : Option String

pub data Phase : Type 0 where
  initial : Option String → Phase
  checking_safe : CheckingSafe → Phase
  deploying_safe : Querying PreSafe → Querying (Option SafeModule) → Phase
  starting : Option ℕ → Option String → Phase
  hopr_syncing hopr_running : Phase
  connecting connected : Up → Phase
  shutting_down : Phase

-- The kinds of a waiting oneshot channel, each with the channel.
pub data Responder : Type 0 where
  unit str duration : ℕ → Responder

pub data RequestToRoot : Type 0 where
  killswitch_lockdown : ℕ → List ℕ → ℕ → RequestToRoot
  static_wg_routing : ℕ → ℕ → List ℕ → RequestToRoot
  tear_down_wg : RequestToRoot
  ping : ℕ → ℕ → RequestToRoot
  cache_blokli_ips : List ℕ → RequestToRoot
  update_peer_ips : List ℕ → RequestToRoot

pub data ConnectResponse : Type 0 where
  already_connected connecting_to : Destination → ConnectResponse
  waiting_to_connect unable_to_connect : Destination → RouteHealthState → ConnectResponse
  destination_not_found : ConnectResponse

pub data DisconnectResponse : Type 0 where
  disconnecting_from : Destination → DisconnectResponse
  not_connected : DisconnectResponse

pub data FundingToolResponse : Type 0 where
  wrong_phase tool_started tool_in_progress tool_done : FundingToolResponse

-- What root answers to a request.
pub data Answer : Type 0 where
  unit_answer : Result (Unit {0}) String → Answer
  str_answer : Result String String → Answer
  duration_answer : Result ℕ String → Answer

pub data Output : Type 0 where
  to_root : RequestToRoot → Output
  -- The answer handed to a waiting channel.
  delivered : ℕ → Answer → Output
  answered_connect : ConnectResponse → Output
  answered_disconnect : DisconnectResponse → Output
  answered_funding_tool : FundingToolResponse → Output
  acknowledged_force_reconnect : Output

pub record Core : Type 0 where
  pub destinations : List (ℕ × Destination)
  pub intervals : HealthCheckIntervals
  pub cancel_connection : ℕ
  pub cancel_node_wxhopr : ℕ
  pub cancel_on_shutdown : ℕ
  pub cancel_presafe_queries : ℕ
  pub cancel_balances : ℕ
  pub cancel_announced_peers : ℕ
  pub target_destination : Option Destination
  pub phase : Phase
  pub incentive_operations : Option ℕ
  pub hopr : Option ℕ
  pub minimum_balance_recommendation : Option BalanceRecommendation
  pub ideal_balance_recommendation : Option BalanceRecommendation
  pub capacity_allocations : Option (List (CapacityAllocator × Capacity))
  pub balances : Option ℕ
  pub strategy_handle : Option ℕ
  pub route_healths : List (ℕ × RouteHealth)
  pub next_request_id : ℕ
  pub responders : List (ℕ × Responder)
  pub ongoing_disconnections : List Down
  pub cached_resolved_blokli_ips : List ℕ
  pub reconnecting_since : Option ℕ
  pub pseudonym_cache : PseudonymCache
  pub env : Env
  pub outbox : List Output

unfoldable pub send : Output → Core → Core
send o c = record c { outbox = o ∷ c.outbox }

-- `tokio::spawn` of a runner under one of the core's tokens.
unfoldable pub spawn_runner : ℕ → ℕ → Task → Core → Core
unfolding spawn
spawn_runner token delay task c = record c { env = spawn token delay task c.env }

-- The same behind `if let Some(handle) = …`.
unfoldable pub spawn_with : Option ℕ → ℕ → ℕ → Task → Core → Core
unfolding spawn_runner
spawn_with none token delay task c = c
spawn_with (some handle) token delay task c = spawn_runner token delay task c

-- Writes a route back with the trace that its method made.
unfoldable pub put_route : ℕ → RouteHealth × Env → Core → Core
put_route id (rh, e) c = record c { route_healths = insert id rh c.route_healths; env = e }
