-- ===== src/Core/Pings.antt =====
-- gnosis_vpn-lib/src/core/mod.rs: the limit on failing pings through the tunnel of a connection.
use gnosis_vpn_client.Prelude.{
  ℕ, ◌≤◌, ◌<◌, ◌≡◌, ap, ◌∙◌, String, true, Option, some, [], ◌∷◌, ◌++◌, arith, is_some, Result,
}
use gnosis_vpn_client.Prelude.Maps.{lookup, insert}
use gnosis_vpn_client.RouteHealth.Tracker.{RouteHealth}
use gnosis_vpn_client.RouteHealth.Transitions.{tunnel_ping_result}
use gnosis_vpn_client.Connection.Up.{Up}
use gnosis_vpn_client.Connection.Down.{Down, try_from}
use gnosis_vpn_client.Core.State.{Core, hopr_running, connected, to_root, tear_down_wg}
use gnosis_vpn_client.Core.Target.{
  act_on_target, disconnect_from_connection, spawn_disconnection_runner,
}
use gnosis_vpn_client.Core.Connections.{on_tunnel_ping_result}
use gnosis_vpn_client.Core.Total.{Returns, IsIdleOf, last_step, disconnect-Returns}

-- The core `d` after the connection of `down` was given up in `c`, to be made again.
abbrev pub IsGivenUp : Down → Core → Core → Type 0
IsGivenUp down c d =
    (d.phase ≡ hopr_running)
    × (d.target_destination ≡ c.target_destination)
    × (d.ongoing_disconnections ≡ c.ongoing_disconnections ++ down ∷ [])
    × (d.outbox ≡ to_root tear_down_wg ∷ c.outbox)

last_step-IsGivenUp :
    (down : Down) (now : ℕ) (c d : Core)
    → is_some c.hopr ≡ true
    → IsIdleOf c d
    → IsGivenUp down c (last_step (some down) now d)
unfolding spawn_disconnection_runner
last_step-IsGivenUp down now c d h i =
    ground (arith, i.idle, i.hopr, i.target, i.disconnections, i.outbox)

pub disconnect_from_connection-IsGivenUp :
    (from_hex : ℕ → Option ℕ) (conn : Up) (down : Down) (now : ℕ) (c : Core)
    → is_some c.hopr ≡ true
    → try_from conn now ≡ some down
    → Returns (IsGivenUp down c) (disconnect_from_connection from_hex conn now c)
unfolding disconnect_from_connection act_on_target
disconnect_from_connection-IsGivenUp from_hex conn down now c h t =
    let (d, idle, e) = disconnect-Returns from_hex conn now c h in
    rw (e 1 ∙ ap (λ m. some (last_step m now d)) t) (last_step-IsGivenUp down now c d h idle)

module _ (from_hex : ℕ → Option ℕ) (conn : Up) (rh : RouteHealth) (rtt : Result ℕ String) (now : ℕ)
    (c : Core) (p : c.phase ≡ connected conn)
    (l : lookup conn.destination.id c.route_healths ≡ some rh) where
  -- While the route counts fewer failed pings in a row than the limit, the connection goes on.
  pub tunnel_ping_below_limit :
      (tunnel_ping_result rh rtt).1 < c.intervals.tunnel_ping_max_failures
      → Returns (λ d. d.phase ≡ connected conn) (on_tunnel_ping_result from_hex rtt now c)
  unfolding on_tunnel_ping_result
  tunnel_ping_below_limit h = ground (arith, p, l)

  -- At the limit, with an edge client, a connection with a tunnel is given up: root is told to take
  -- the tunnel down, the disconnection is added to the ongoing ones, and the target stays.
  pub tunnel_ping_at_limit :
      (down : Down)
      → is_some c.hopr ≡ true
      → try_from conn now ≡ some down
      → c.intervals.tunnel_ping_max_failures ≤ (tunnel_ping_result rh rtt).1
      → Returns (IsGivenUp down c) (on_tunnel_ping_result from_hex rtt now c)
  unfolding on_tunnel_ping_result
  tunnel_ping_at_limit down h t full =
      let b : Core = record c {
        route_healths = insert conn.destination.id (tunnel_ping_result rh rtt).0 c.route_healths;
        reconnecting_since = some now;
      } in
      let steps : on_tunnel_ping_result from_hex rtt now c
          ≡ disconnect_from_connection from_hex conn now b =
        ground (arith, p, l, full) in
      rw steps (disconnect_from_connection-IsGivenUp from_hex conn down now b h t)
