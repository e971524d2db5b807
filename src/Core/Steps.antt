-- ===== src/Core/Steps.antt =====
-- gnosis_vpn-lib/src/core/mod.rs: the handlers that act on the target, one by one, and the handle of
-- the edge client.
use gnosis_vpn_client.Prelude.{
  ℕ, ◌≡◌, refl, String, true, false, Option, none, some, [], Result, arith, is_some, inl, inr,
  Bool-cases, leb, not, ◌&&◌,
}
use gnosis_vpn_client.Prelude.Maps.{lookup, insert}
use gnosis_vpn_client.Types.{Destination, ExitHealth, HealthCheckOutcome}
use gnosis_vpn_client.RouteHealth.Transitions.{
  DelayFits, delay_panics_fits, tunnel_ping_result, health_check_result,
}
use gnosis_vpn_client.RouteHealth.Tracker.{RouteHealth, is_ready_to_connect, is_unrecoverable}
use gnosis_vpn_client.Connection.Up.{Up}
use gnosis_vpn_client.Connection.Down
use gnosis_vpn_client.Core.State.{
  put_route, acknowledged_force_reconnect, Core, Phase, hopr_running, connecting, connected, send,
  answered_connect, connecting_to, to_root, tear_down_wg,
}
use gnosis_vpn_client.Core.Target.{
  reconnect_with, ◌>>=◌, act_in, act_with_fuel, act_on_target, force_reconnect,
  cancel_connection_tasks, key_of, exit_of,
}
use gnosis_vpn_client.Core.Commands.{
  active, is_active_for, connect_by_route, connect_configured, reconnect_active, answer_disconnect,
  command_connect, command_disconnect, command_force_reconnect,
}
use gnosis_vpn_client.Core.Connections.{
  on_disconnection_event, on_disconnection_result, monitor_failed_in, tunnel_ping_on,
  tunnel_ping_in, health_check_on,
}
use gnosis_vpn_client.Core.Total.{
  Returns, Returns-if, needs_hopr, HasHopr, SameHopr, act_on_target-SameHopr,
  disconnect_from_connection-SameHopr, spawn_connection_runner-hopr,
}

pub HasHopr-of_some : (c : Core) → is_some c.hopr ≡ true → HasHopr c
HasHopr-of_some c h = record { handle = λ _. h }

Returns-HasHopr :
    (c : Core) (m : Option Core)
    → is_some c.hopr ≡ true
    → Returns (SameHopr c) m
    → Returns HasHopr m
Returns-HasHopr c none h r = r
Returns-HasHopr c (some d) h r = HasHopr-of_some d (rw r h)

-- Without a phase that needs the edge client there is nothing to act on.
act_in-unneeded :
    (disconnect : Up → Core → Option Core) (target : Option Destination) (phase : Phase) (now : ℕ)
    (c : Core)
    → needs_hopr phase ≡ false
    → act_in disconnect target phase now c ≡ some c
unfolding act_in
act_in-unneeded disconnect none phase now c h = ground arith
act_in-unneeded disconnect (some dest) phase now c h = ground arith

pub act_on_target-HasHopr :
    (from_hex : ℕ → Option ℕ) (now : ℕ) (c : Core)
    → HasHopr c
    → Returns HasHopr (act_on_target from_hex now c)
unfolding act_on_target act_with_fuel
act_on_target-HasHopr from_hex now c v = elim (Bool-cases (needs_hopr c.phase)) [
  | inl needed ↦ Returns-HasHopr c _ (v.handle needed) (act_on_target-SameHopr from_hex now c v)
  | inr unneeded ↦ rw (act_in-unneeded _ c.target_destination c.phase now c unneeded) v
]

-- A core with the same phase and handle.
abbrev Alike : Core → Core → Type 0
Alike c d = (d.phase ≡ c.phase) × (d.hopr ≡ c.hopr)

Alike-HasHopr : (c d : Core) → Alike c d → HasHopr c → HasHopr d
Alike-HasHopr c d a v = ground arith

module _ (from_hex : ℕ → Option ℕ) (now : ℕ) (c : Core) (v : HasHopr c) where
  act-Alike : (d : Core) → Alike c d → Returns HasHopr (act_on_target from_hex now d)
  act-Alike d a = act_on_target-HasHopr from_hex now d (Alike-HasHopr c d a v)

  connect_by_route-HasHopr :
      (rh : Option RouteHealth) (dest : Destination)
      → Returns HasHopr (connect_by_route from_hex rh dest now c)
  unfolding connect_by_route
  connect_by_route-HasHopr none dest = record { handle = v.handle }
  connect_by_route-HasHopr (some rh) dest =
      let d : Core = record (send (answered_connect (connecting_to dest)) c) {
        target_destination = some dest;
      } in
      Returns-if HasHopr (is_ready_to_connect rh) _ _ (act-Alike d (refl, refl)) (
        Returns-if HasHopr (is_unrecoverable rh) _ _ (record { handle = v.handle })
          (record { handle = v.handle }))

  pub command_disconnect-HasHopr : Returns HasHopr (command_disconnect from_hex now c)
  unfolding command_disconnect
  command_disconnect-HasHopr =
      let d : Core = record c {
        target_destination = none;
        reconnecting_since = none;
        cached_resolved_blokli_ips = [];
      } in
      act-Alike (answer_disconnect (active c.phase) d) (ground arith)

  reconnect_with-HasHopr :
      (exit : Option ExitHealth) (conn : Up)
      → is_some c.hopr ≡ true
      → Returns HasHopr (reconnect_with from_hex exit conn now c)
  unfolding reconnect_with
  reconnect_with-HasHopr none conn h = act_on_target-HasHopr from_hex now c v
  reconnect_with-HasHopr (some exit) conn h =
      HasHopr-of_some _
        (rw (spawn_connection_runner-hopr conn.destination exit (key_of conn.wireguard) now c) h)

module _ (from_hex : ℕ → Option ℕ) (now : ℕ) (c : Core) (v : HasHopr c) where
  force_reconnect-HasHopr :
      (conn : Up) → is_some c.hopr ≡ true → Returns HasHopr (force_reconnect from_hex conn now c)
  unfolding force_reconnect
  force_reconnect-HasHopr conn h =
      let d : Core = record (send (to_root tear_down_wg) (cancel_connection_tasks c)) {
        phase = hopr_running;
      } in
      reconnect_with-HasHopr from_hex now d (HasHopr-of_some d h)
        (exit_of (lookup conn.destination.id c.route_healths)) conn h

module _ (from_hex : ℕ → Option ℕ) (now : ℕ) (c : Core) (v : HasHopr c) where
  connect_configured-HasHopr :
      (dest : Option Destination) → Returns HasHopr (connect_configured from_hex dest now c)
  unfolding connect_configured
  connect_configured-HasHopr none = record { handle = v.handle }
  connect_configured-HasHopr (some dest) =
      let d : Core = record c { reconnecting_since = none } in
      Returns-if HasHopr (is_active_for dest (active c.phase)) _ _ (record { handle = v.handle })
        (connect_by_route-HasHopr from_hex now d (record { handle = v.handle })
          (lookup dest.id c.route_healths) dest)

  pub command_connect-HasHopr : (id : ℕ) → Returns HasHopr (command_connect from_hex id now c)
  unfolding command_connect
  command_connect-HasHopr id = connect_configured-HasHopr (lookup id c.destinations)

  reconnect_active-HasHopr :
      (phase : Phase)
      → (needs_hopr phase ≡ true → is_some c.hopr ≡ true)
      → Returns HasHopr (reconnect_active from_hex (active phase) now c)
  unfolding reconnect_active
  reconnect_active-HasHopr (connecting conn) h =
      let d : Core = record c { reconnecting_since = some now } in
      force_reconnect-HasHopr from_hex now d (record { handle = v.handle }) conn (h refl)
  reconnect_active-HasHopr (connected conn) h =
      let d : Core = record c { reconnecting_since = some now } in
      force_reconnect-HasHopr from_hex now d (record { handle = v.handle }) conn (h refl)
  reconnect_active-HasHopr _ h = v

  acknowledge-HasHopr :
      (m : Option Core)
      → Returns HasHopr m
      → Returns HasHopr (m >>= λ d. some (send acknowledged_force_reconnect d))
  unfolding send
  acknowledge-HasHopr none h = h
  acknowledge-HasHopr (some d) h = record { handle = h.handle }

  pub command_force_reconnect-HasHopr : Returns HasHopr (command_force_reconnect from_hex now c)
  unfolding command_force_reconnect
  command_force_reconnect-HasHopr =
      acknowledge-HasHopr (reconnect_active from_hex (active c.phase) now c)
        (reconnect_active-HasHopr c.phase v.handle)

  pub on_disconnection_event-HasHopr :
      (key : ℕ) (evt : Down.Event) → Returns HasHopr (on_disconnection_event from_hex key evt now c)
  unfolding on_disconnection_event
  on_disconnection_event-HasHopr key Down.open_bridge = act-Alike from_hex now c v _ (refl, refl)
  on_disconnection_event-HasHopr key _ = record { handle = v.handle }

  pub on_disconnection_result-HasHopr :
      (key : ℕ) → Returns HasHopr (on_disconnection_result from_hex key now c)
  unfolding on_disconnection_result
  on_disconnection_result-HasHopr key = act-Alike from_hex now c v _ (refl, refl)

  pub monitor_failed_in-HasHopr :
      (phase : Phase)
      → (needs_hopr phase ≡ true → is_some c.hopr ≡ true)
      → Returns HasHopr (monitor_failed_in from_hex phase now c)
  monitor_failed_in-HasHopr (connected conn) h =
      let d : Core = record c { reconnecting_since = some now } in
      Returns-HasHopr d _ (h refl)
        (disconnect_from_connection-SameHopr from_hex conn now d (h refl))
  monitor_failed_in-HasHopr _ h = v

  tunnel_ping_on-HasHopr :
      (conn : Up) (rh : Option RouteHealth) (rtt : Result ℕ String)
      → is_some c.hopr ≡ true
      → Returns HasHopr (tunnel_ping_on from_hex conn rh rtt now c)
  tunnel_ping_on-HasHopr conn none rtt h = v
  tunnel_ping_on-HasHopr conn (some rh) rtt h =
      let (rh', failures) = tunnel_ping_result rh rtt in
      let d : Core = record c {
        route_healths = insert conn.destination.id rh' c.route_healths;
        reconnecting_since = some now;
      } in
      Returns-if HasHopr (leb c.intervals.tunnel_ping_max_failures failures) _ _
        (Returns-HasHopr d _ h (disconnect_from_connection-SameHopr from_hex conn now d h))
        (record { handle = v.handle })

  pub tunnel_ping_in-HasHopr :
      (phase : Phase) (rtt : Result ℕ String)
      → (needs_hopr phase ≡ true → is_some c.hopr ≡ true)
      → Returns HasHopr (tunnel_ping_in from_hex phase rtt now c)
  tunnel_ping_in-HasHopr (connected conn) rtt h =
      tunnel_ping_on-HasHopr conn (lookup conn.destination.id c.route_healths) rtt (h refl)
  tunnel_ping_in-HasHopr _ rtt h = v

  -- The route of a health check was checked by an edge client.
  pub health_check_on-HasHopr :
      (id : ℕ) (dest : Option Destination) (rh : Option RouteHealth) (hopr : Option ℕ)
      (outcome : HealthCheckOutcome)
      → (is_some hopr ≡ true) × DelayFits c.intervals
      → Returns HasHopr (health_check_on from_hex id dest rh hopr outcome now c)
  unfolding put_route
  health_check_on-HasHopr id none rh hopr outcome h = v
  health_check_on-HasHopr id (some dest) none hopr outcome h = v
  health_check_on-HasHopr id (some dest) (some rh) none outcome h = let missing = h.0 in cc
  health_check_on-HasHopr id (some dest) (some rh) (some hopr) outcome h =
      let result = health_check_result rh outcome dest c.intervals c.env in
      let d : Core = put_route id result c in
      rw (delay_panics_fits rh outcome c.intervals h.1) (
        Returns-if HasHopr (not (is_ready_to_connect rh) && is_ready_to_connect result.0)
          (act_on_target from_hex now d) (some d) (act-Alike from_hex now c v d (refl, refl))
          (record { handle = v.handle }))
