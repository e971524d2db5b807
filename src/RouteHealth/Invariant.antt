-- ===== src/RouteHealth/Invariant.antt =====
-- gnosis_vpn-lib/src/route_health.rs: which routes wait for a channel.
use gnosis_vpn_client.Prelude.{ℕ, ◌≡◌, Bool, true, List, [], ◌∷◌, arith}
use gnosis_vpn_client.Types.{
  Destination, HealthCheckIntervals, any_channel, needs_peering, needs_channel,
}
use gnosis_vpn_client.Runtime.{Env}
use gnosis_vpn_client.RouteHealth.Tracker.{RouteHealth, new}
use gnosis_vpn_client.RouteHealth.Transitions.{
  peers, any_channel_available, health_check_result, start_connecting, disconnecting,
  tunnel_ping_result, with_error,
}
use gnosis_vpn_client.RouteHealth.Machine.{
  Op, op_peers, op_channel, op_outcome, op_connecting, op_disconnecting, op_tunnel_ping, op_error,
  op_foreign, step, run,
}

-- Only a route of one or more hops waits for a channel, or remembers that it had one.
pub record Inv (rh : RouteHealth) : Type 0 where
  pub waits : rh.state ≡ needs_channel → rh.static_need ≡ any_channel
  pub remembers : rh.state ≡ needs_peering true → rh.static_need ≡ any_channel

pub new-Inv :
    (hop_count : ℕ → ℕ) (dest : Destination) (insecure experimental : Bool) (token : ℕ) (e : Env)
    → Inv (new hop_count dest insecure experimental token e).0
unfolding new
new-Inv hop_count dest insecure experimental token e = ground arith

pub step-Inv :
    (dest : Destination) (intervals : HealthCheckIntervals) (rh : RouteHealth) (e : Env) (o : Op)
    → Inv rh
    → Inv (step dest intervals (rh, e) o).0
unfolding step peers any_channel_available health_check_result start_connecting disconnecting
    tunnel_ping_result with_error
step-Inv dest intervals rh e (op_peers addresses delay) v = ground arith
step-Inv dest intervals rh e op_channel v = ground arith
step-Inv dest intervals rh e (op_outcome outcome) v = ground arith
step-Inv dest intervals rh e (op_connecting exit) v = ground arith
step-Inv dest intervals rh e op_disconnecting v = ground arith
step-Inv dest intervals rh e (op_tunnel_ping rtt) v = ground arith
step-Inv dest intervals rh e (op_error error) v = ground arith
step-Inv dest intervals rh e (op_foreign c) v = v

pub run-Inv :
    (dest : Destination) (intervals : HealthCheckIntervals) (rh : RouteHealth) (e : Env)
    (os : List Op)
    → Inv rh
    → Inv (run dest intervals (rh, e) os).0
unfolding run
run-Inv dest intervals rh e [] v = v
run-Inv dest intervals rh e (o ∷ os) v =
    let s = step dest intervals (rh, e) o in
    run-Inv dest intervals s.0 s.1 os (step-Inv dest intervals rh e o v)
