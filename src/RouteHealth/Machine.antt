-- ===== src/RouteHealth/Machine.antt =====
-- gnosis_vpn-lib/src/route_health.rs: the methods of a `RouteHealth` as operations, in any order,
-- between which other parts of the program make runtime calls of their own.
use gnosis_vpn_client.Prelude.{ℕ, String, Bool, true, not, List, [], ◌∷◌, ◌==◌, Result, ◌≡◌}
use gnosis_vpn_client.Types.{Destination, HealthCheckIntervals, ExitHealth, HealthCheckOutcome}
use gnosis_vpn_client.Runtime.{Env, Call, spawned, health_check}
use gnosis_vpn_client.RouteHealth.Tracker.{RouteHealth}
use gnosis_vpn_client.RouteHealth.Transitions.{
  peers, any_channel_available, health_check_result, start_connecting, disconnecting,
  tunnel_ping_result, with_error,
}

pub data Op : Type 0 where
  op_peers : List ℕ → ℕ → Op
  op_channel : Op
  op_outcome : HealthCheckOutcome → Op
  op_connecting : ExitHealth → Op
  op_disconnecting : Op
  op_tunnel_ping : Result ℕ String → Op
  op_error : String → Op
  -- A runtime call of another part of the program.
  op_foreign : Call → Op

unfoldable pub step :
    Destination → HealthCheckIntervals → RouteHealth × Env → Op → RouteHealth × Env
step dest intervals (rh, e) (op_peers addresses delay) = peers rh addresses dest intervals delay e
step dest intervals (rh, e) op_channel = any_channel_available rh dest intervals e
step dest intervals (rh, e) (op_outcome outcome) = health_check_result rh outcome dest intervals e
step dest intervals (rh, e) (op_connecting exit) = start_connecting rh dest exit intervals e
step dest intervals (rh, e) op_disconnecting = disconnecting rh dest intervals e
step dest intervals (rh, e) (op_tunnel_ping rtt) = ((tunnel_ping_result rh rtt).0, e)
step dest intervals (rh, e) (op_error error) = (with_error rh error, e)
step dest intervals (rh, e) (op_foreign c) = (rh, record e { log = c ∷ e.log })

unfoldable pub run :
    Destination → HealthCheckIntervals → RouteHealth × Env → List Op → RouteHealth × Env
run dest intervals s [] = s
run dest intervals s (o ∷ os) = run dest intervals (step dest intervals s o) os

-- A call that spawns no health check of the destination `id`.
abbrev pub is_foreign : ℕ → Call → Bool
is_foreign id (spawned t delay (health_check dest scope)) = not (dest.id == id)
is_foreign id _ = true

abbrev pub IsAllowed : ℕ → Op → Type 0
IsAllowed id (op_foreign c) = is_foreign id c ≡ true
IsAllowed id _ = Unit {0}
