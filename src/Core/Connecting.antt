-- ===== src/Core/Connecting.antt =====
-- gnosis_vpn-lib/src/core/mod.rs: how a destination comes to be connected, by the command to connect
-- and by the health checks of its route.
use gnosis_vpn_client.Prelude.{
  ℕ, ◌≡◌, refl, ap, ◌∙◌, true, false, Option, none, some, arith, is_some, first,
}
use gnosis_vpn_client.Prelude.Maps.{lookup, lookup-insert_self}
use gnosis_vpn_client.Types.{Destination, HealthCheckOutcome}
use gnosis_vpn_client.RouteHealth.Tracker.{RouteHealth, is_ready_to_connect}
use gnosis_vpn_client.RouteHealth.Transitions.{health_check_result, DelayFits, delay_panics_fits}
use gnosis_vpn_client.Connection.Up.{Up, SessionClientMetadata}
use gnosis_vpn_client.Connection.Up
use gnosis_vpn_client.Connection.PseudonymCache
use gnosis_vpn_client.Runtime.{spawned, connection_runner}
use gnosis_vpn_client.Core.State.{
  Core, hopr_running, connecting, answered_connect, connecting_to, send, put_route,
}
use gnosis_vpn_client.Core.Target.{
  act_in, act_with_fuel, act_on_target, connect_route, spawn_connection_runner,
}
use gnosis_vpn_client.Core.Commands.{command_connect, connect_configured, connect_by_route}
use gnosis_vpn_client.Core.Connections.{on_health_check}
use gnosis_vpn_client.Core.Total.{Returns}
use gnosis_vpn_client.Core.Disconnecting.{disconnect_for}

-- An attempt to connect to `dest`, begun at `now`: its task was spawned last.
pub record IsConnecting (dest : Destination) (now : ℕ) (d : Core) : Type 0 where
  pub phase : d.phase ≡ connecting (Up.new dest now)
  pub target : d.target_destination ≡ some dest
  pub pseudonym : Option ℕ
  pub runner :
      first d.env.log
      ≡ some (
          spawned d.cancel_connection 0
            (connection_runner dest d.cached_resolved_blokli_ips pseudonym none))

connect_route-IsConnecting :
    (rh : Option RouteHealth) (ready : RouteHealth) (dest : Destination) (now : ℕ) (c : Core)
    → is_some c.hopr ≡ true
    → c.target_destination ≡ some dest
    → rh ≡ some ready
    → is_ready_to_connect ready ≡ true
    → IsConnecting dest now (connect_route rh dest now c)
unfolding connect_route is_ready_to_connect spawn_connection_runner
connect_route-IsConnecting rh ready dest now c h t e r = record {
  phase = ground arith;
  target = ground arith;
  pseudonym = (PseudonymCache.get c.pseudonym_cache dest now).0;
  runner = ground arith;
}

act_on_target-IsConnecting :
    (from_hex : ℕ → Option ℕ) (dest : Destination) (rh : RouteHealth) (now : ℕ) (c : Core)
    → is_some c.hopr ≡ true
    → c.phase ≡ hopr_running
    → c.target_destination ≡ some dest
    → lookup dest.id c.route_healths ≡ some rh
    → is_ready_to_connect rh ≡ true
    → Returns (IsConnecting dest now) (act_on_target from_hex now c)
unfolding act_on_target act_with_fuel act_in
act_on_target-IsConnecting from_hex dest rh now c h p t l r =
    let made = connect_route-IsConnecting (lookup dest.id c.route_healths) rh dest now c h t l r in
    let disconnect = disconnect_for from_hex now in
    let steps : act_on_target from_hex now c
        ≡ some (connect_route (lookup dest.id c.route_healths) dest now c) =
      ap (λ x. act_in disconnect c.target_destination x now c) p
      ∙ ap (λ x. act_in disconnect x hopr_running now c) t in
    rw steps made

-- On an idle edge client, the command to connect to a configured destination whose route is ready
-- starts an attempt at once.
pub command_connect_ready :
    (from_hex : ℕ → Option ℕ) (id : ℕ) (dest : Destination) (rh : RouteHealth) (now : ℕ) (c : Core)
    → is_some c.hopr ≡ true
    → c.phase ≡ hopr_running
    → lookup id c.destinations ≡ some dest
    → lookup dest.id c.route_healths ≡ some rh
    → is_ready_to_connect rh ≡ true
    → Returns (IsConnecting dest now) (command_connect from_hex id now c)
unfolding command_connect connect_configured connect_by_route send
command_connect_ready from_hex id dest rh now c h p d l r =
    let c' : Core = record c { reconnecting_since = none } in
    let b : Core = record (send (answered_connect (connecting_to dest)) c') {
      target_destination = some dest;
    } in
    let made = act_on_target-IsConnecting from_hex dest rh now b h p refl l r in
    let steps : command_connect from_hex id now c ≡ act_on_target from_hex now b =
      ground (arith, p, d, l, r) in
    rw steps made

-- On an idle edge client, an outcome of a health check that makes the route of the target ready, where
-- the product of the intervals fits a duration, starts an attempt: the core connects to the target
-- from now on, keeps it as the target, and has spawned last, at once and under the token of the
-- connection, the task that connects to it.
pub ready_target_connects :
    (from_hex : ℕ → Option ℕ) (id : ℕ) (outcome : HealthCheckOutcome) (dest : Destination)
    (rh : RouteHealth) (now : ℕ) (c : Core)
    → is_some c.hopr ≡ true
    → c.phase ≡ hopr_running
    → c.target_destination ≡ some dest
    → dest.id ≡ id
    → lookup id c.destinations ≡ some dest
    → lookup id c.route_healths ≡ some rh
    → is_ready_to_connect rh ≡ false
    → DelayFits c.intervals
    → is_ready_to_connect (health_check_result rh outcome dest c.intervals c.env).0 ≡ true
    → Returns (IsConnecting dest now) (on_health_check from_hex id outcome now c)
unfolding on_health_check put_route
ready_target_connects from_hex id outcome dest rh now c h p t same d l was fits now_ready =
    let (rh', e) = health_check_result rh outcome dest c.intervals c.env in
    let b = put_route id (rh', e) c in
    let found : lookup dest.id b.route_healths ≡ some rh' =
      ap (λ i. lookup i b.route_healths) same ∙ lookup-insert_self id rh' c.route_healths in
    let made = act_on_target-IsConnecting from_hex dest rh' now b h p t found now_ready in
    let steps : on_health_check from_hex id outcome now c ≡ act_on_target from_hex now b =
      ground (arith, h, d, l, was, now_ready, delay_panics_fits rh outcome c.intervals fits) in
    rw steps made
