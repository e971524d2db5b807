-- ===== src/Core/Connections.antt =====
-- gnosis_vpn-lib/src/core/mod.rs: results of the runners of a connection and of a disconnection, of
-- the session monitor, the tunnel ping and the health checks. A handler returns the core and whether
-- it goes on; `none` is a panic.
use Prim.Native.String.{◌++◌ as ◌+++◌}
use gnosis_vpn_client.Prelude.{
  ℕ, String, Bool, true, false, ◌&&◌, not, Option, none, some, List, [], ◌∷◌, Result, ok, err, ◌==◌,
  leb, retain, if◌then◌else◌,
}
use gnosis_vpn_client.Prelude.Maps.{lookup, insert}
use gnosis_vpn_client.Types.{Destination, Destination_eq, HealthCheckOutcome, from_secs}
use gnosis_vpn_client.Runtime.{renew, monitor_session, tunnel_ping_loop}
use gnosis_vpn_client.RouteHealth.Tracker.{RouteHealth, is_ready_to_connect}
use gnosis_vpn_client.RouteHealth.Transitions.{
  with_error, tunnel_ping_result, delay_panics, health_check_result,
}
use gnosis_vpn_client.Connection.Up.{
  Up, SessionClientMetadata, Event, progress, setback, Progress, generate_wg, Setback,
  open_bridge_failed, register_wg_failed, open_ping_failed, ping_failed, connect_progress,
}
use gnosis_vpn_client.Connection.Up
use gnosis_vpn_client.Connection.Down.{
  Down, disconnect_evt, open_bridge, unregister_wg, close_bridge,
}
use gnosis_vpn_client.Connection.Down
use gnosis_vpn_client.Connection.PseudonymCache
use gnosis_vpn_client.Core.State.{
  Core, Phase, connecting, connected, cache_blokli_ips, to_root, send, spawn_runner, spawn_with,
  put_route,
}
use gnosis_vpn_client.Core.Target.{act_on_target, disconnect_from_connection}
use gnosis_vpn_client.Core.Runners.{spawn_announced_peers}

-- `with_error` on the route of a destination, if it has one.
abbrev pub note_error_on : ℕ → String → Option RouteHealth → Core → Core
note_error_on id error none c = c
note_error_on id error (some rh) c = record c {
  route_healths = insert id (with_error rh error) c.route_healths;
}

unfoldable pub note_error : ℕ → String → Core → Core
unfolding with_error lookup insert
note_error id error c = note_error_on id error (lookup id c.route_healths) c

-- The text of a setback.
abbrev setback_text : Setback → String
setback_text (open_bridge_failed e) = "Failed to open bridge connection: " +++ e
setback_text (register_wg_failed e) = "Failed to register WireGuard key: " +++ e
setback_text (open_ping_failed e) = "Failed to open main connection: " +++ e
setback_text (ping_failed e) = "Ping verification failed: " +++ e

-- The addresses that a new key comes with are cached here and at root.
abbrev pub cache_ips : Progress → Core → Core
cache_ips (generate_wg ips) c =
    send (to_root (cache_blokli_ips ips)) (record c { cached_resolved_blokli_ips = ips })
cache_ips _ c = c

abbrev pub connection_event_in : Phase → Event → ℕ → Core → Core
connection_event_in (connecting conn) (progress p) now c = record (cache_ips p c) {
  phase = connecting (connect_progress conn p now);
}
connection_event_in (connecting conn) (setback s) now c =
    note_error conn.destination.id (setback_text s) c
connection_event_in _ evt now c = c

unfoldable pub on_connection_event : Event → ℕ → Core → Core
unfolding connect_progress send note_error
on_connection_event evt now c = connection_event_in c.phase evt now c

-- The first disconnection of a key takes the event.
unfoldable pub event_to_first : ℕ → Down.Event → ℕ → List Down → List Down
unfolding disconnect_evt
event_to_first key evt now [] = []
event_to_first key evt now (d ∷ ds) =
    if d.wg_public_key == key
    then disconnect_evt d evt now ∷ ds
    else d ∷ event_to_first key evt now ds

abbrev pub act_when_torn_down : Down.Event → (ℕ → Option ℕ) → ℕ → Core → Option Core
act_when_torn_down open_bridge from_hex now c = act_on_target from_hex now c
act_when_torn_down _ from_hex now c = some c

unfoldable pub on_disconnection_event : (ℕ → Option ℕ) → ℕ → Down.Event → ℕ → Core → Option Core
unfolding event_to_first act_on_target
on_disconnection_event from_hex key evt now c =
    act_when_torn_down evt from_hex now
      (record c { ongoing_disconnections = event_to_first key evt now c.ongoing_disconnections })

unfoldable pub on_disconnection_result : (ℕ → Option ℕ) → ℕ → ℕ → Core → Option Core
unfolding act_on_target
on_disconnection_result from_hex key now c = act_on_target from_hex now (record c {
  ongoing_disconnections = retain (λ d. not (d.wg_public_key == key)) c.ongoing_disconnections;
})

unfoldable pub renew_announced_peers : Core → Core
unfolding renew
renew_announced_peers c =
    let (token, e) = renew c.cancel_on_shutdown c.cancel_announced_peers c.env in
    record c { cancel_announced_peers = token; env = e }

unfoldable pub establish : SessionClientMetadata → Up → ℕ → Core → Core
unfolding Up.connected PseudonymCache.remove spawn_with spawn_runner renew_announced_peers
    spawn_announced_peers
establish session conn now c =
    let c₁ : Core = record c {
      reconnecting_since = none;
      phase = connected (Up.connected conn now);
      pseudonym_cache = PseudonymCache.remove c.pseudonym_cache conn.destination;
    } in
    let c₂ = spawn_with c₁.hopr c₁.cancel_connection 0 (monitor_session session.bound_host) c₁ in
    let c₃ = spawn_runner c₂.cancel_connection 0 (tunnel_ping_loop c₂.intervals.tunnel_ping) c₂ in
    spawn_announced_peers (from_secs 10) (renew_announced_peers c₃)

abbrev pub is_target : Option Destination → Destination → Bool
is_target none dest = false
is_target (some target) dest = Destination_eq target dest

-- A final error on the target ends the core, and root starts it again.
abbrev pub connection_result_in :
    Result SessionClientMetadata String → Phase → ℕ → Core → Core × Bool
connection_result_in (ok session) (connecting conn) now c = (establish session conn now c, true)
connection_result_in (err e) (connecting conn) now c =
    let c' = note_error conn.destination.id e (record c { reconnecting_since = none }) in
    (c', not (is_target c'.target_destination conn.destination))
connection_result_in _ _ now c = (c, true)

unfoldable pub on_connection_result : Result SessionClientMetadata String → ℕ → Core → Core × Bool
unfolding establish note_error Destination_eq
on_connection_result res now c = connection_result_in res c.phase now c

abbrev pub monitor_failed_in : (ℕ → Option ℕ) → Phase → ℕ → Core → Option Core
monitor_failed_in from_hex (connected conn) now c =
    disconnect_from_connection from_hex conn now (record c { reconnecting_since = some now })
monitor_failed_in from_hex _ now c = some c

unfoldable pub on_session_monitor_failed : (ℕ → Option ℕ) → ℕ → Core → Option Core
unfolding disconnect_from_connection
on_session_monitor_failed from_hex now c = monitor_failed_in from_hex c.phase now c

-- The count of failed pings in a row is held against the configured limit.
abbrev pub tunnel_ping_on :
    (ℕ → Option ℕ) → Up → Option RouteHealth → Result ℕ String → ℕ → Core → Option Core
tunnel_ping_on from_hex conn none rtt now c = some c
tunnel_ping_on from_hex conn (some rh) rtt now c =
    let (rh', failures) = tunnel_ping_result rh rtt in
    let c' : Core = record c { route_healths = insert conn.destination.id rh' c.route_healths } in
    if leb c.intervals.tunnel_ping_max_failures failures
    then disconnect_from_connection from_hex conn now (record c' { reconnecting_since = some now })
    else some c'

abbrev pub tunnel_ping_in : (ℕ → Option ℕ) → Phase → Result ℕ String → ℕ → Core → Option Core
tunnel_ping_in from_hex (connected conn) rtt now c =
    tunnel_ping_on from_hex conn (lookup conn.destination.id c.route_healths) rtt now c
tunnel_ping_in from_hex _ rtt now c = some c

unfoldable pub on_tunnel_ping_result : (ℕ → Option ℕ) → Result ℕ String → ℕ → Core → Option Core
unfolding tunnel_ping_result insert lookup
on_tunnel_ping_result from_hex rtt now c = tunnel_ping_in from_hex c.phase rtt now c

-- An outcome goes to the route of its destination. A route that became ready may be the one to
-- connect to. The edge client is unwrapped here, and the product of the intervals may panic.
abbrev pub health_check_on :
    (ℕ → Option ℕ)
    → ℕ
    → Option Destination
    → Option RouteHealth
    → Option ℕ
    → HealthCheckOutcome
    → ℕ
    → Core
    → Option Core
health_check_on from_hex id (some dest) (some rh) (some hopr) outcome now c =
    let c' = put_route id (health_check_result rh outcome dest c.intervals c.env) c in
    if delay_panics rh outcome c.intervals
    then none
    else if not (is_ready_to_connect rh)
        && is_ready_to_connect (health_check_result rh outcome dest c.intervals c.env).0
    then act_on_target from_hex now c'
    else some c'
health_check_on from_hex id (some dest) (some rh) none outcome now c = none
health_check_on from_hex id none rh hopr outcome now c = some c
health_check_on from_hex id (some dest) none hopr outcome now c = some c

unfoldable pub on_health_check : (ℕ → Option ℕ) → ℕ → HealthCheckOutcome → ℕ → Core → Option Core
unfolding delay_panics health_check_result put_route is_ready_to_connect act_on_target lookup
on_health_check from_hex id outcome now c =
    health_check_on from_hex id (lookup id c.destinations) (lookup id c.route_healths) c.hopr
      outcome now c
