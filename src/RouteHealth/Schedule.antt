-- ===== src/RouteHealth/Schedule.antt =====
-- gnosis_vpn-lib/src/route_health.rs: a route together with the health check that is pending: what
-- the core sees of a route as long as no outcome of a cancelled check is still in its queue.
use gnosis_vpn_client.Prelude.{
  ℕ, ◌<◌, ◌≡◌, Bool, true, false, Option, none, some, List, [], ◌∷◌, arith, ◌==◌, if◌then◌else◌,
  ◌⊎◌,
}
use gnosis_vpn_client.Types.{
  Destination, HealthCheckIntervals, Versions, Health, CheckScope, RouteHealthState, completed,
  failed, started, unrecoverable_outcome, needs_peering, needs_channel, routable, unrecoverable,
}
use gnosis_vpn_client.Runtime.{Env, Call, spawned, health_check}
use gnosis_vpn_client.RouteHealth.Tracker.{RouteHealth, new, is_ready, is_connecting}
use gnosis_vpn_client.RouteHealth.Transitions.{
  peers, any_channel_available, health_check_result, start_connecting, disconnecting,
  tunnel_ping_result, with_error,
}
use gnosis_vpn_client.RouteHealth.Machine.{
  Op, op_peers, op_channel, op_outcome, op_connecting, op_disconnecting, op_tunnel_ping, op_error,
  op_foreign, step,
}
use gnosis_vpn_client.RouteHealth.Runner.{Fits, is_final}

-- The scope of a health check that the newest call spawned under `token`.
abbrev pub newest_check : ℕ → List Call → Option CheckScope
newest_check token (spawned t delay (health_check dest scope) ∷ log) =
    if t == token then some scope else none
newest_check token _ = none

-- The pending check after an operation: a new token has the newest check, if any, and an old one
-- loses its check when the operation was the outcome that ends the cycle.
abbrev pub pending_after : Op → Option CheckScope → (old new : ℕ) → List Call → Option CheckScope
pending_after (op_outcome o) pending old token log =
    if old == token then (if is_final o then none else pending) else newest_check token log
pending_after _ pending old token log = if old == token then pending else newest_check token log

-- What can happen to a route: an outcome comes from the pending check and fits its scope.
abbrev pub InOrder : Option CheckScope → Op → Type 0
InOrder (some scope) (op_outcome o) = Fits scope o
InOrder none (op_outcome o) = ⊥
InOrder _ (op_foreign c) = ⊥
InOrder _ _ = Unit {0}

pub record Sys : Type 0 where
  pub rh : RouteHealth
  pub env : Env
  pub pending : Option CheckScope

unfoldable pub sys_step : Destination → HealthCheckIntervals → Sys → Op → Sys
sys_step dest intervals s o =
    let (r, e) = step dest intervals (s.rh, s.env) o in
    record {
      rh = r;
      env = e;
      pending = pending_after o s.pending s.rh.health_check_cancel r.health_check_cancel e.log;
    }

abbrev unchecked : RouteHealthState → Bool
unchecked (needs_peering _) = true
unchecked needs_channel = true
unchecked (unrecoverable _) = true
unchecked _ = false

abbrev before_first_check : RouteHealthState → Bool
before_first_check (needs_peering _) = true
before_first_check needs_channel = true
before_first_check routable = true
before_first_check _ = false

abbrev pub full_scope : CheckScope
full_scope = record { version = true; health = true }

pub record Sched (s : Sys) : Type 0 where
  pub fresh : s.rh.health_check_cancel < s.env.next_token
  -- A route that is not under health checks has none pending.
  pub idle : unchecked s.rh.state ≡ true → s.pending ≡ none
  -- A route that is not yet known to be healthy is at the start of its cycle, and once it is routable
  -- its pending check asks for everything.
  pub at_start : before_first_check s.rh.state ≡ true → s.rh.check_cycle ≡ 0
  pub asks_all : s.rh.state ≡ routable → s.pending ≡ some full_scope

pub sys_step-Sched :
    (dest : Destination) (intervals : HealthCheckIntervals) (s : Sys) (o : Op)
    → InOrder s.pending o
    → Sched s
    → Sched (sys_step dest intervals s o)
unfolding sys_step step peers any_channel_available health_check_result start_connecting
    disconnecting tunnel_ping_result with_error
sys_step-Sched dest intervals s (op_peers addresses delay) h v = ground arith
sys_step-Sched dest intervals s op_channel h v = ground arith
sys_step-Sched dest intervals s (op_outcome (started t)) h v = ground arith
sys_step-Sched dest intervals s (op_outcome (unrecoverable_outcome r)) h v = ground arith
sys_step-Sched dest intervals s (op_outcome (failed t e)) h v = ground arith
sys_step-Sched dest intervals s (op_outcome (completed t vs p hs)) h v = ground arith
sys_step-Sched dest intervals s (op_connecting exit) h v = ground arith
sys_step-Sched dest intervals s op_disconnecting h v = ground arith
sys_step-Sched dest intervals s (op_tunnel_ping rtt) h v = ground arith
sys_step-Sched dest intervals s (op_error error) h v = ground arith
sys_step-Sched dest intervals s (op_foreign c) h v = ground arith

unfoldable pub sys_run : Destination → HealthCheckIntervals → Sys → List Op → Sys
sys_run dest intervals s [] = s
sys_run dest intervals s (o ∷ os) = sys_run dest intervals (sys_step dest intervals s o) os

-- Each operation of a list can happen at its turn.
abbrev pub AllInOrder : Destination → HealthCheckIntervals → Sys → List Op → Type 0
AllInOrder dest intervals s [] = Unit {0}
AllInOrder dest intervals s (o ∷ os) =
    InOrder s.pending o × AllInOrder dest intervals (sys_step dest intervals s o) os

pub sys_run-Sched :
    (dest : Destination) (intervals : HealthCheckIntervals) (s : Sys) (os : List Op)
    → AllInOrder dest intervals s os
    → Sched s
    → Sched (sys_run dest intervals s os)
unfolding sys_run
sys_run-Sched dest intervals s [] h v = v
sys_run-Sched dest intervals s (o ∷ os) h v =
    sys_run-Sched dest intervals (sys_step dest intervals s o) os h.1
      (sys_step-Sched dest intervals s o h.0 v)

-- A new route, with no check pending.
unfoldable pub sys_new : (ℕ → ℕ) → Destination → Bool → Bool → ℕ → Env → Sys
sys_new hop_count dest insecure experimental token e =
    let (r, e') = new hop_count dest insecure experimental token e in
    record { rh = r; env = e'; pending = none }

sys_new-Sched :
    (hop_count : ℕ → ℕ) (dest : Destination) (insecure experimental : Bool) (token : ℕ) (e : Env)
    → Sched (sys_new hop_count dest insecure experimental token e)
unfolding sys_new new
sys_new-Sched hop_count dest insecure experimental token e = ground arith

promotes :
    (dest : Destination) (intervals : HealthCheckIntervals) (s : Sys) (t : ℕ)
    (versions : Option Versions) (rtt : Option ℕ) (health : Option Health)
    → InOrder s.pending (op_outcome (completed t versions rtt health))
    → Sched s
    → (is_connecting s.rh.state ≡ true)
      ⊎ (is_ready
            (sys_step dest intervals s (op_outcome (completed t versions rtt health))).rh.state
          ≡ true)
unfolding sys_step step health_check_result
promotes dest intervals s t versions rtt health h v = ground arith

-- Whatever happened to a route since it was made, as long as every outcome comes from the pending
-- check, a completed check leaves the route ready to connect, unless it is connecting already.
pub completed_promotes :
    (hop_count : ℕ → ℕ) (dest : Destination) (insecure experimental : Bool) (token : ℕ) (e : Env)
    (intervals : HealthCheckIntervals) (os : List Op) (t : ℕ) (versions : Option Versions)
    (rtt : Option ℕ) (health : Option Health)
    → AllInOrder dest intervals (sys_new hop_count dest insecure experimental token e) os
    → InOrder
        (sys_run dest intervals (sys_new hop_count dest insecure experimental token e) os).pending
        (op_outcome (completed t versions rtt health))
    → let s = sys_run dest intervals (sys_new hop_count dest insecure experimental token e) os in
      (is_connecting s.rh.state ≡ true)
      ⊎ (is_ready
            (sys_step dest intervals s (op_outcome (completed t versions rtt health))).rh.state
          ≡ true)
completed_promotes hop_count dest insecure experimental token e intervals os t versions rtt health h
      k =
    promotes dest intervals _ t versions rtt health k (
      sys_run-Sched dest intervals _ os h
        (sys_new-Sched hop_count dest insecure experimental token e))
