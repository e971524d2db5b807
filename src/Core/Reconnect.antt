-- ===== src/Core/Reconnect.antt =====
-- gnosis_vpn-lib/src/core/mod.rs: `force_reconnect`, and the results of a connection attempt.
use gnosis_vpn_client.Prelude.{
  ℕ, ◌≡◌, refl, ap, ◌∙◌, String, Bool, true, false, not, ◌&&◌, Option, none, some, ◌∷◌, arith,
  is_some, if◌then◌else◌, Result, ok, err,
}
use gnosis_vpn_client.Prelude.Maps.{lookup}
use gnosis_vpn_client.Types.{Destination, ExitHealth}
use gnosis_vpn_client.RouteHealth.Tracker.{RouteHealth, current_exit_health}
use gnosis_vpn_client.Connection.Up.{Up, SessionClientMetadata}
use gnosis_vpn_client.Connection.Up
use gnosis_vpn_client.Core.State.{
  Core, Phase, hopr_running, connecting, connected, to_root, tear_down_wg, send,
}
use gnosis_vpn_client.Core.Target.{
  act_in, act_with_fuel, act_on_target, connect_route, exit_of, reconnect_with, force_reconnect,
  spawn_connection_runner, cancel_connection_tasks,
}
use gnosis_vpn_client.Core.Connections.{on_connection_result, is_target}
use gnosis_vpn_client.Core.Total.{Returns}
use gnosis_vpn_client.Core.Disconnecting.{disconnect_for}

-- A reconnect keeps every ongoing disconnection and tells root to take the tunnel down.
pub record IsReset (p : Phase) (c d : Core) : Type 0 where
  pub phase : d.phase ≡ p
  pub disconnections : d.ongoing_disconnections ≡ c.ongoing_disconnections
  pub told_root : d.outbox ≡ to_root tear_down_wg ∷ c.outbox

-- With an edge client and an exit that the route knows, a forced reconnect starts a new attempt to
-- the same destination at once, after root is told to take the tunnel down.
pub force_reconnect_restarts :
    (from_hex : ℕ → Option ℕ) (conn : Up) (now : ℕ) (exit : ExitHealth) (c : Core)
    → is_some c.hopr ≡ true
    → exit_of (lookup conn.destination.id c.route_healths) ≡ some exit
    → Returns
        (IsReset (connecting (Up.new conn.destination now)) c)
        (force_reconnect from_hex conn now c)
unfolding force_reconnect spawn_connection_runner
force_reconnect_restarts from_hex conn now exit c h e = ground arith

connect_route_not_ready :
    (rh : Option RouteHealth) (dest : Destination) (now : ℕ) (c : Core)
    → exit_of rh ≡ none
    → connect_route rh dest now c ≡ c
unfolding connect_route current_exit_health
connect_route_not_ready none dest now c e = refl
connect_route_not_ready (some rh) dest now c e = ground arith

-- Without such an exit, as after the peers of the route are gone, a forced reconnect to the target
-- starts no attempt, and the tunnel's key goes to no disconnection.
pub force_reconnect_without_exit :
    (from_hex : ℕ → Option ℕ) (conn : Up) (now : ℕ) (c : Core)
    → c.target_destination ≡ some conn.destination
    → exit_of (lookup conn.destination.id c.route_healths) ≡ none
    → Returns (IsReset hopr_running c) (force_reconnect from_hex conn now c)
unfolding force_reconnect reconnect_with act_on_target act_with_fuel act_in cancel_connection_tasks
    send
force_reconnect_without_exit from_hex conn now c t e =
    let reset : Core = record (send (to_root tear_down_wg) (cancel_connection_tasks c)) {
      phase = hopr_running;
    } in
    let rh = lookup conn.destination.id c.route_healths in
    let same = connect_route_not_ready rh conn.destination now reset e in
    let steps : force_reconnect from_hex conn now c ≡ some reset =
      ap (λ x. reconnect_with from_hex x conn now reset) e
      ∙ ap (λ x. act_in (disconnect_for from_hex now) x hopr_running now reset) t
      ∙ ap some same in
    rw steps (record { phase = refl; disconnections = refl; told_root = refl })

abbrev pub is_err {ℓ κ} : {A : Type ℓ} {B : Type κ} → Result A B → Bool
is_err (ok _) = false
is_err (err _) = true

-- An attempt that ends with an error stops the core exactly if it was for the target, and one that
-- succeeds leads to the connected phase. Either way the core no longer waits for a reconnect.
pub connection_result_lem :
    (res : Result SessionClientMetadata String) (conn : Up) (now : ℕ) (c : Core)
    → c.phase ≡ connecting conn
    → ((on_connection_result res now c).1
        ≡ not (is_err res && is_target c.target_destination conn.destination))
      × ((on_connection_result res now c).0.phase
          ≡ (if is_err res then connecting conn else connected (Up.connected conn now)))
      × ((on_connection_result res now c).0.reconnecting_since ≡ none)
unfolding on_connection_result
connection_result_lem (ok session) conn now c p = ground arith
connection_result_lem (err e) conn now c p = ground arith
