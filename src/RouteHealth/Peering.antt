-- ===== src/RouteHealth/Peering.antt =====
-- gnosis_vpn-lib/src/route_health.rs: what a fresh set of peers does to a route.
use gnosis_vpn_client.Prelude.{ℕ, ◌≡◌, Bool, true, false, not, ◌&&◌, List, [], arith}
use gnosis_vpn_client.Types.{Destination, HealthCheckIntervals, routable}
use gnosis_vpn_client.Runtime.{Env}
use gnosis_vpn_client.RouteHealth.Tracker.{
  RouteHealth, is_needs_peering, is_needs_channel, is_unrecoverable_state,
}
use gnosis_vpn_client.RouteHealth.Transitions.{peers, is_peered}
use gnosis_vpn_client.RouteHealth.Live.{Live, live_checks, live_checks-pair}

-- Without the peer that it needs, a route that is not unrecoverable waits for peering.
pub peers_lost :
    (rh : RouteHealth) (addresses : List ℕ) (dest : Destination) (intervals : HealthCheckIntervals)
    (delay : ℕ) (e : Env)
    → is_peered rh.static_need addresses ≡ false
    → is_unrecoverable_state rh.state ≡ false
    → is_needs_peering (peers rh addresses dest intervals delay e).0.state ≡ true
unfolding peers
peers_lost rh addresses dest intervals delay e lost alive = ground arith

abbrev pub is_checked : RouteHealth → Bool
is_checked rh =
    not (is_needs_peering rh.state)
    && (not (is_needs_channel rh.state) && not (is_unrecoverable_state rh.state))

-- A route under health checks, with at most one in flight and none but under its token, that loses its
-- peers has no check in flight, forgets its failures,
-- and comes back without a wait for a channel: the next set of peers makes it routable again and
-- starts the one check, after the delay that it was given.
pub peers_flap :
    (rh : RouteHealth) (lost back : List ℕ) (dest : Destination) (intervals : HealthCheckIntervals)
    (d d' : ℕ) (e : Env)
    → is_checked rh ≡ true
    → dest.id ≡ rh.id
    → Live rh e
    → is_peered rh.static_need lost ≡ false
    → is_peered rh.static_need back ≡ true
    → let (r, f) = peers rh lost dest intervals d e in
      let (s, g) = peers r back dest intervals d' f in
      (live_checks rh.id [] f.log ≡ 0)
      × (r.exit_failures ≡ 0)
      × (s.state ≡ routable)
      × (s.check_cycle ≡ 0)
      × (live_checks rh.id [] g.log ≡ 1)
unfolding peers live_checks
peers_flap rh lost back dest intervals d d' e checked same v gone here =
    ground (arith, live_checks-pair rh.id rh.health_check_cancel e.next_token e.log)
