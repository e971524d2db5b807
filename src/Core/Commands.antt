-- ===== src/Core/Commands.antt =====
-- gnosis_vpn-lib/src/core/mod.rs: the commands that change the state of the core, from the worker
-- (`on_event`), and its shutdown. The other commands only read the state.
use gnosis_vpn_client.Prelude.{ℕ, Bool, false, Option, none, some, [], if◌then◌else◌}
use gnosis_vpn_client.Prelude.Maps.{lookup}
use gnosis_vpn_client.Types.{Destination, Destination_eq}
use gnosis_vpn_client.Runtime.{cancel}
use gnosis_vpn_client.RouteHealth.Tracker.{RouteHealth, is_ready_to_connect, is_unrecoverable}
use gnosis_vpn_client.Connection.Up.{Up}
use gnosis_vpn_client.Core.State.{
  Core, Phase, connecting, connected, shutting_down, already_connected, connecting_to,
  waiting_to_connect, unable_to_connect, destination_not_found, disconnecting_from, not_connected,
  answered_connect, answered_disconnect, acknowledged_force_reconnect, send,
}
use gnosis_vpn_client.Core.Target.{act_on_target, force_reconnect, ◌>>=◌}

-- The connection of the phases `Connecting` and `Connected`.
abbrev pub active : Phase → Option Up
active (connecting conn) = some conn
active (connected conn) = some conn
active _ = none

abbrev pub is_active_for : Destination → Option Up → Bool
is_active_for dest (some conn) = Destination_eq conn.destination dest
is_active_for dest none = false

-- A destination that is configured and not yet active, by its route.
unfoldable pub connect_by_route :
    (ℕ → Option ℕ) → Option RouteHealth → Destination → ℕ → Core → Option Core
unfolding send act_on_target is_ready_to_connect is_unrecoverable
connect_by_route from_hex none dest now c = some (send (answered_connect destination_not_found) c)
connect_by_route from_hex (some rh) dest now c =
    if is_ready_to_connect rh
    then act_on_target from_hex now
        (record (send (answered_connect (connecting_to dest)) c) { target_destination = some dest })
    else if is_unrecoverable rh
    then some (send (answered_connect (unable_to_connect dest rh.state)) c)
    else some (record (send (answered_connect (waiting_to_connect dest rh.state)) c) {
      target_destination = some dest;
    })

unfoldable pub connect_configured : (ℕ → Option ℕ) → Option Destination → ℕ → Core → Option Core
unfolding connect_by_route Destination_eq lookup send
connect_configured from_hex none now c = some (send (answered_connect destination_not_found) c)
connect_configured from_hex (some dest) now c =
    let c' : Core = record c { reconnecting_since = none } in
    if is_active_for dest (active c.phase)
    then some (send (answered_connect (already_connected dest)) c')
    else connect_by_route from_hex (lookup dest.id c.route_healths) dest now c'

unfoldable pub command_connect : (ℕ → Option ℕ) → ℕ → ℕ → Core → Option Core
unfolding connect_configured lookup
command_connect from_hex id now c = connect_configured from_hex (lookup id c.destinations) now c

abbrev pub answer_disconnect : Option Up → Core → Core
answer_disconnect (some conn) c = send (answered_disconnect (disconnecting_from conn.destination)) c
answer_disconnect none c = send (answered_disconnect not_connected) c

unfoldable pub command_disconnect : (ℕ → Option ℕ) → ℕ → Core → Option Core
unfolding send act_on_target
command_disconnect from_hex now c = act_on_target from_hex now (
    answer_disconnect (active c.phase) (record c {
      target_destination = none;
      reconnecting_since = none;
      cached_resolved_blokli_ips = [];
    }))

unfoldable pub reconnect_active : (ℕ → Option ℕ) → Option Up → ℕ → Core → Option Core
unfolding force_reconnect
reconnect_active from_hex none now c = some c
reconnect_active from_hex (some conn) now c =
    force_reconnect from_hex conn now (record c { reconnecting_since = some now })

unfoldable pub command_force_reconnect : (ℕ → Option ℕ) → ℕ → Core → Option Core
unfolding reconnect_active send
command_force_reconnect from_hex now c = do
  c' ← reconnect_active from_hex (active c.phase) now c
  some (send acknowledged_force_reconnect c')

-- The event `Shutdown`. The handle of the telemetry reactor is taken only beside an edge client.
abbrev handle_after : Option ℕ → Option ℕ → Option ℕ
handle_after none handle = handle
handle_after (some hopr) handle = none

unfoldable pub on_shutdown : Core → Core
unfolding cancel
on_shutdown c = record c {
  phase = shutting_down;
  env = cancel c.cancel_on_shutdown c.env;
  strategy_handle = handle_after c.hopr c.strategy_handle;
}
