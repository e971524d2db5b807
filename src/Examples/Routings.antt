-- ===== src/Examples/Routings.antt =====
-- The theorems about the routing at concrete inputs.
use gnosis_vpn_client.Prelude.{
  Option, ◌≡◌, refl, ℕ, ◌+◌, Bool, true, false, not, ◌&&◌, ◌||◌, none, some, List, [], ◌∷◌, Result,
  ok, err, String, ◌==◌, if◌then◌else◌, contains, arith,
}
use gnosis_vpn_client.Prelude.Maps.{lookup}
use gnosis_vpn_client.Root.Messages.{Msg}
use gnosis_vpn_client.Routing.Actor.{
  Actor, AppliedPolicy, Answers, teardown, update_peer_ips, apply_policy, setup_routing,
}
use gnosis_vpn_client.Routing.Actor
use gnosis_vpn_client.Routing.Actor.Cleanup.{run, setups, teardowns, count, routers_torn_down}
use gnosis_vpn_client.Routing.Actor.Routes.{is_routed, routes_follow_bypass}
use gnosis_vpn_client.Routing.Actor.Peers.{is_alive, update_peer_ips-hysteresis}
use gnosis_vpn_client.Routing.Actor.Policy.{allows}
use gnosis_vpn_client.Routing.Actor.Floor.{floor_let_through, lockdown_forgets_delta}
use gnosis_vpn_client.Routing.Monitor.{
  Task, Input, message, event, passed, link_removed, step, one_if,
}
use gnosis_vpn_client.Routing.Monitor
use gnosis_vpn_client.Routing.Monitor.Debounce.{IsTimely, steps, bursts_end}
use gnosis_vpn_client.Routing.Linux.{ipv4, Dest, host, net, WanRoute, RouteOps, StaticRouter, setup}
use gnosis_vpn_client.Routing.Linux
use gnosis_vpn_client.Killswitch.{
  IpAddr, output, input, loopback, finalize, lan_nets, lan_multicast_nets,
}
use gnosis_vpn_client.Killswitch.Leaks.{
  Packet, accepts, is_dhcp_request, is_dhcp_response, is_allowed, is_local, icmp_is,
  killswitch_leaks_nothing,
}
use gnosis_vpn_client.Routing.Kernel.{RouteMessage, get_wan_route_for, get_route_via_device}
use gnosis_vpn_client.Routing.Kernel.Selection.{
  IsWay, IsWayVia, IsBestWay, get_wan_route_for-IsBestWay,
}
use gnosis_vpn_client.Routing.Linux.Rollback.{
  is_route, is_ok, is_tracked, RouteLaws, IsDeletable, setup_failure_restores, teardown_restores,
}

abbrev answers : Answers
answers = record {
  static_router = ok tt;
  setup = ok 7;
  apply_policy = ok tt;
  reset_policy = ok tt;
  wan_changed = ok false;
}

-- A connection with a lockdown, and two updates of the peers.
abbrev session : List (Answers × ℕ × Msg)
session =
    (answers, 10, Msg.setup_routing 1 (20 ∷ []))
    ∷ (answers, 11, Msg.set_allowed_ips (20 ∷ 30 ∷ []) 7 false)
    ∷ (answers, 60, Msg.update_peer_ips (20 ∷ 40 ∷ []))
    ∷ (answers, 400, Msg.update_peer_ips (20 ∷ []))
    ∷ []

routers_torn_down_example :
    (setups (run session Actor.new).log
      ≡ teardowns (run session Actor.new).log + count (run session Actor.new).router)
    × (setups (teardown answers (run session Actor.new)).log
        ≡ teardowns (teardown answers (run session Actor.new)).log)
routers_torn_down_example = routers_torn_down answers session

routes_follow_bypass_example :
    (is_routed (run session Actor.new).log 20
      ≡ ((run session Actor.new).router && contains (run session Actor.new).active_bypass 20))
    × (is_routed (teardown answers (run session Actor.new)).log 20 ≡ false)
routes_follow_bypass_example = routes_follow_bypass answers session 20

floor_let_through_example : allows (run session Actor.new).log 30 ≡ true
unfolding Actor.handle Actor.new
floor_let_through_example =
    floor_let_through session 30 ((refl, refl), ((refl, refl), ((refl, refl), ((refl, refl), tt))))
      refl

-- An actor with a tunnel, a lockdown and a peer that was seen at second 10.
abbrev policy : AppliedPolicy
policy = record { interface = 7; ips = 30 ∷ []; lan_lockdown = true }

abbrev locked : Actor
locked = record {
  router = true;
  applied_policy = some policy;
  peer_ip_last_seen = (20, 10) ∷ [];
  active_bypass = 20 ∷ [];
  wg_interface_name = some 7;
  log = [];
}

update_peer_ips-hysteresis_example :
    contains (update_peer_ips (40 ∷ []) 310 locked).active_bypass 20
    ≡ is_alive (40 ∷ []) 310 locked 20
update_peer_ips-hysteresis_example =
    update_peer_ips-hysteresis (40 ∷ []) 310 locked 20 (unfold lookup in (refl, tt))

lockdown_forgets_delta_example :
    allows (update_peer_ips (20 ∷ []) 100 (apply_policy answers 7 (30 ∷ []) false locked).1).log 20
    ≡ contains (30 ∷ []) 20
unfolding lookup
lockdown_forgets_delta_example =
    lockdown_forgets_delta answers 100 (20 ∷ []) (30 ∷ []) 7 false locked 20 refl (refl, tt)
      (λ y. ground arith)

abbrev storm : List Input
storm =
    message answers 11 true (Msg.set_allowed_ips (30 ∷ []) 7 false)
    ∷ event (link_removed 3 7) 5000
    ∷ event (link_removed 4 8) 5200
    ∷ []

bursts_end_example :
    IsTimely
      (steps storm Monitor.new).debounce_pending
      (steps storm Monitor.new).debounce_started
      (steps storm Monitor.new).debounce
bursts_end_example = bursts_end storm

abbrev bursting : Task
bursting = record {
  actor = locked;
  monitor = true;
  debounce = 5450;
  debounce_pending = true;
  debounce_started = some 5000;
  removed_link = some 7;
  reconnects = 0;
}

-- A table of routes, with a host that no route can be added to, and one whose routes stay.
abbrev Table : Type 0
Table = List (Dest × ℕ)

abbrev forget : Dest → ℕ → Table → Table
forget d v [] = []
forget d v (e ∷ t) = let rest = forget d v t in if is_route d v e.0 e.1 then rest else e ∷ rest

abbrev is_bad : Dest → Bool
is_bad (host a) = a == 99
is_bad (net a n) = false

abbrev add_to : Bool → Dest → ℕ → Table → Result (Unit {0}) String × Table
add_to true d v t = (err "no route", t)
add_to false d v t = (ok tt, (d, v) ∷ t)

abbrev is_stuck : Dest → Bool
is_stuck (host a) = a == 21
is_stuck (net a n) = false

abbrev remove_from : Bool → Dest → ℕ → Table → Result (Unit {0}) String × Table
remove_from true d v t = (err "busy", t)
remove_from false d v t = (ok tt, forget d v t)

abbrev wan : WanRoute
wan = record { device = 2; gateway = some 1; src_ip = some 5 }

abbrev table_ops : RouteOps Table
table_ops = record {
  get_wan_route_for = λ t. ok (some wan);
  get_route_via_device = λ v t. ok (some wan);
  route_add = λ d gateway v t. add_to (is_bad d) d v t;
  route_del = λ d v t. remove_from (is_stuck d) d v t;
  wg_quick_up = λ t. (ok 7, t);
  wg_quick_down = λ t. (ok tt, t);
  has = λ d v t. is_tracked t d v;
}

is_tracked-forget :
    (d d' : Dest) (v v' : ℕ) (t : Table)
    → is_tracked (forget d v t) d' v' ≡ (not (is_route d v d' v') && is_tracked t d' v')
is_tracked-forget d d' v v' [] = ground arith
is_tracked-forget d d' v v' (e ∷ t) = ground (arith, is_tracked-forget d d' v v' t)

is_tracked-add_to :
    (b : Bool) (d d' : Dest) (v v' : ℕ) (t : Table)
    → is_tracked (add_to b d v t).1 d' v'
      ≡ (is_ok (add_to b d v t).0 && is_route d v d' v' || is_tracked t d' v')
is_tracked-add_to true d d' v v' t = refl
is_tracked-add_to false d d' v v' t = refl

is_tracked-remove_from :
    (b : Bool) (d d' : Dest) (v v' : ℕ) (t : Table)
    → is_tracked (remove_from b d v t).1 d' v'
      ≡ (not (is_ok (remove_from b d v t).0 && is_route d v d' v') && is_tracked t d' v')
is_tracked-remove_from true d d' v v' t = refl
is_tracked-remove_from false d d' v v' t = is_tracked-forget d d' v v' t

table_laws : RouteLaws table_ops
table_laws = record {
  added = λ d d' gateway v v' t. is_tracked-add_to (is_bad d) d d' v v' t;
  deleted = λ d d' v v' t. is_tracked-remove_from (is_stuck d) d d' v v' t;
  brought_up = λ d v t h. h;
  brought_down = λ d v t h. h;
}

abbrev failing_router : StaticRouter
failing_router = record { peer_ips = 20 ∷ 21 ∷ 99 ∷ []; wan_info = none; active_bypass_routes = [] }

abbrev router : StaticRouter
router = record { peer_ips = 20 ∷ 21 ∷ []; wan_info = none; active_bypass_routes = [] }

abbrev table : Table
table = (host 40, 2) ∷ []

host_20-IsDeletable : IsDeletable table_ops (host 20) 2
host_20-IsDeletable (host a) v t same there = ground (arith, same)
host_20-IsDeletable (net a n) v t same there = refl

setup_failure_restores_example :
    ((setup table_ops failing_router table).1.active_bypass_routes ≡ [])
    × ((not (is_tracked (setup table_ops failing_router table).2 (host 20) 2)
          || is_tracked table (host 20) 2)
        ≡ true)
unfolding setup
setup_failure_restores_example =
    setup_failure_restores table_ops table_laws (host 20) 2 host_20-IsDeletable failing_router table
      "no route" refl refl

teardown_restores_example :
    (not (
        is_tracked
          (Linux.teardown table_ops
            (setup table_ops router table).1
            (setup table_ops router table).2).1
          (host 20)
          2)
      || is_tracked table (host 20) 2)
    ≡ true
unfolding setup
teardown_restores_example =
    teardown_restores table_ops table_laws (host 20) 2 host_20-IsDeletable router table 7 refl refl

abbrev via : ℕ → ℕ → ℕ → Option ℕ → RouteMessage
via oif address len metric = record {
  table = 254;
  oif = some oif;
  destination = some address;
  destination_prefix_length = len;
  priority = metric;
  gateway = none;
  pref_source = none;
}

-- Two default routes, and the half of the addresses that goes through the tunnel.
abbrev kernel_routes : List RouteMessage
kernel_routes = via 3 0 0 (some 600) ∷ via 2 0 0 (some 100) ∷ via 0 0 1 none ∷ []

get_wan_route_for-IsBestWay_example :
    IsBestWay
      (IsWay (some 0) (ipv4 1 1 1 1))
      kernel_routes
      (get_wan_route_for (some 0) (ipv4 1 1 1 1) kernel_routes)
    × IsBestWay
        (IsWayVia 2 (ipv4 1 1 1 1))
        kernel_routes
        (get_route_via_device 2 (ipv4 1 1 1 1) kernel_routes)
get_wan_route_for-IsBestWay_example =
    get_wan_route_for-IsBestWay (some 0) 2 (ipv4 1 1 1 1) kernel_routes

-- A packet to an address that is not allowed, on the way out by another device than the tunnel.
abbrev packet : Packet
packet = record {
  iifname = 3;
  oifname = 3;
  saddr = IpAddr.v4 (ipv4 192 168 1 5);
  daddr = IpAddr.v4 (ipv4 8 8 8 8);
  udp = some (5000, 53);
  icmp = none;
  is_return = false;
}

abbrev allowed : List IpAddr
allowed = IpAddr.v4 (ipv4 1 2 3 4) ∷ []

killswitch_leaks_nothing_example :
    (accepts (finalize 7 allowed true) output packet ≡ (
      packet.oifname == loopback
      || packet.oifname == 7
      || is_dhcp_request packet
      || is_allowed allowed packet.daddr
      || not true && (is_local lan_nets packet.daddr || is_local lan_multicast_nets packet.daddr)))
    × (accepts (finalize 7 allowed true) input packet ≡ (
        packet.iifname == loopback
        || packet.iifname == 7
        || is_dhcp_response packet
        || is_allowed allowed packet.saddr && packet.is_return
        || not true && (is_local lan_nets packet.saddr || is_local lan_multicast_nets packet.saddr)
        || icmp_is 136 0 packet.icmp))
killswitch_leaks_nothing_example =
    killswitch_leaks_nothing 7 allowed true packet (ipv4 192 168 1 5) (ipv4 8 8 8 8) refl refl
