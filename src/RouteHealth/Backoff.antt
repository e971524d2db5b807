-- ===== src/RouteHealth/Backoff.antt =====
-- gnosis_vpn-lib/src/route_health.rs: the delays between failed health checks (`failure_backoff`).
use gnosis_vpn_client.Prelude.{ℕ, suc, ◌+◌, ◌*◌, ◌≤◌, ◌≡◌, min, arith}
use gnosis_vpn_client.Types.{from_secs}
use gnosis_vpn_client.RouteHealth.Tracker.{RouteHealth, failure_backoff}

-- A route waits at least 30 seconds and at most 5 minutes after a failure, however many came before.
pub failure_backoff_bounds :
    (rh : RouteHealth) → (from_secs 30 ≤ failure_backoff rh) × (failure_backoff rh ≤ from_secs 300)
unfolding failure_backoff
failure_backoff_bounds rh = ground arith

-- Past the three warmup retries the delay grows by 30 seconds a failure up to 5 minutes.
pub failure_backoff_linear :
    (rh : RouteHealth) (k : ℕ)
    → rh.exit_failures ≡ 3 + suc k
    → failure_backoff rh ≡ min (from_secs 30 * suc k) (from_secs 300)
unfolding failure_backoff
failure_backoff_linear rh k h = ground arith
