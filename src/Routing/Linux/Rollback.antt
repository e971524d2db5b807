-- ===== src/Routing/Linux/Rollback.antt =====
-- gnosis_vpn-root/src/routing/linux.rs: which routes a setup that fails, and a teardown, leave in the
-- table.
use gnosis_vpn_client.Prelude.{
  ℕ, Bool, true, false, not, ◌&&◌, ◌||◌, String, Option, none, some, List, [], ◌∷◌, ◌++◌, Result,
  ok, err, ◌≡◌, refl, arith, ◌==◌,
}
use gnosis_vpn_client.Routing.Linux.{
  Dest, host, dest_eq, WanRoute, RouteOps, StaticRouter, vpn_routes, wg_interface,
  rfc1918_bypass_nets, setup_vpn_routes, remove_vpn_routes, delete_routes, rollback_bypass_routes,
  track, track_added, add_peer_routes, add_bypass_nets, bring_up, after_peers, setup_via, setup,
  teardown,
}

abbrev pub is_route : Dest → ℕ → Dest → ℕ → Bool
is_route dest device dest' device' = dest_eq dest dest' && device == device'

abbrev pub is_ok : {A : Type 0} → Result A String → Bool
is_ok (ok a) = true
is_ok (err e) = false

-- What the operations do to the table: an addition that succeeds adds its route and no other and
-- one that fails adds none; a deletion that succeeds removes its route and no other, and one that fails
-- removes none;
-- wg-quick, which is told `Table = off`, adds no route.
pub record RouteLaws {T : Type 0} (ops : RouteOps T) : Type 0 where
  pub added :
      (d d' : Dest) (gateway : Option ℕ) (v v' : ℕ) (t : T)
      → ops.has d' v' (ops.route_add d gateway v t).1
        ≡ (is_ok (ops.route_add d gateway v t).0 && is_route d v d' v' || ops.has d' v' t)
  pub deleted :
      (d d' : Dest) (v v' : ℕ) (t : T)
      → ops.has d' v' (ops.route_del d v t).1
        ≡ (not (is_ok (ops.route_del d v t).0 && is_route d v d' v') && ops.has d' v' t)
  pub brought_up :
      (d' : Dest) (v' : ℕ) (t : T)
      → ops.has d' v' (ops.wg_quick_up t).1 ≡ true
      → ops.has d' v' t ≡ true
  pub brought_down :
      (d' : Dest) (v' : ℕ) (t : T)
      → ops.has d' v' (ops.wg_quick_down t).1 ≡ true
      → ops.has d' v' t ≡ true

-- The system deletes the route whenever it is asked to while the route is there. The deletion of any
-- other may fail.
abbrev pub IsDeletable : {T : Type 0} → RouteOps T → Dest → ℕ → Type 0
IsDeletable {T} ops d v =
    (d' : Dest) (v' : ℕ) (t : T)
    → is_route d' v' d v ≡ true
    → ops.has d v t ≡ true
    → is_ok (ops.route_del d' v' t).0 ≡ true

-- Whether a route is among those that the router would remove.
abbrev pub is_tracked : List (Dest × ℕ) → Dest → ℕ → Bool
is_tracked [] d v = false
is_tracked (e ∷ routes) d v = is_route e.0 e.1 d v || is_tracked routes d v

abbrev pub is_vpn : List Dest → Dest → ℕ → Bool
is_vpn [] d v = false
is_vpn (dest ∷ dests) d v = is_route dest wg_interface d v || is_vpn dests d v

is_tracked-append :
    (routes : List (Dest × ℕ)) (dest d : Dest) (device v : ℕ)
    → is_tracked (routes ++ (dest, device) ∷ []) d v
      ≡ (is_tracked routes d v || is_route dest device d v)
is_tracked-append [] dest d device v = ground arith
is_tracked-append (e ∷ routes) dest d device v =
    ground (arith, is_tracked-append routes dest d device v)

module _ {T : Type 0} (ops : RouteOps T) (laws : RouteLaws ops) (d : Dest) (v : ℕ)
    (deletable : IsDeletable ops d v) where
  gone :
      (d' : Dest) (v' : ℕ) (t : T)
      → ops.has d v (ops.route_del d' v' t).1 ≡ (not (is_route d' v' d v) && ops.has d v t)
  gone d' v' t = ground (arith, laws.deleted d' d v' v t, deletable d' v' t)

  delete_routes-has :
      (routes : List (Dest × ℕ)) (t : T)
      → ops.has d v (delete_routes ops routes t) ≡ (not (is_tracked routes d v) && ops.has d v t)
  unfolding delete_routes
  delete_routes-has [] t = refl
  delete_routes-has ((dest, device) ∷ routes) t =
      ground (arith, delete_routes-has routes (ops.route_del dest device t).1, gone dest device t)

  remove_vpn_routes-has :
      (dests : List Dest) (t : T)
      → ops.has d v (remove_vpn_routes ops dests t) ≡ (not (is_vpn dests d v) && ops.has d v t)
  unfolding remove_vpn_routes
  remove_vpn_routes-has [] t = refl
  remove_vpn_routes-has (dest ∷ dests) t = ground (
    arith,
    remove_vpn_routes-has dests (ops.route_del dest wg_interface t).1,
    gone dest wg_interface t,
  )

  setup_vpn_routes-has :
      (dests : List Dest) (t : T)
      → ops.has d v (setup_vpn_routes ops dests t).1 ≡ true
      → (is_vpn dests d v || ops.has d v t) ≡ true
  unfolding setup_vpn_routes
  setup_vpn_routes-has [] t h = h
  setup_vpn_routes-has (dest ∷ dests) t h =
      let t' = (ops.route_del dest wg_interface t).1 in
      ground (
        arith,
        setup_vpn_routes-has dests (ops.route_add dest none wg_interface t').1,
        laws.added dest d none wg_interface v t',
        gone dest wg_interface t,
      )

  -- The route is there only when it was before, or the router would remove it.
  abbrev Owned : Bool → List (Dest × ℕ) → T → Type 0
  Owned before routes t = (not (ops.has d v t) || before || is_tracked routes d v) ≡ true

  -- A failure leaves no route that was not there, and nothing to remove.
  abbrev AfterPeers : Bool → Result (Unit {0}) String × StaticRouter × T → Type 0
  AfterPeers before (ok _, r, t) = Owned before r.active_bypass_routes t
  AfterPeers before (err e, r, t) = Owned before [] t × (r.active_bypass_routes ≡ [])

  rollback-Owned :
      (before : Bool) (r : StaticRouter) (t : T)
      → Owned before r.active_bypass_routes t
      → Owned before [] (rollback_bypass_routes ops r t).1
  unfolding rollback_bypass_routes
  rollback-Owned before r t owned = ground (arith, delete_routes-has r.active_bypass_routes t)

  add_peer_routes-AfterPeers :
      (before : Bool) (wan : WanRoute) (ips : List ℕ) (r : StaticRouter) (t : T)
      → Owned before r.active_bypass_routes t
      → AfterPeers before (add_peer_routes ops wan ips r t)
  unfolding add_peer_routes rollback_bypass_routes
  add_peer_routes-AfterPeers before wan [] r t owned = owned
  add_peer_routes-AfterPeers before wan (ip ∷ ips) r t owned =
      let t' = (ops.route_del (host ip) wan.device t).1 in
      let t'' = (ops.route_add (host ip) wan.gateway wan.device t').1 in
      ground (
        arith,
        gone (host ip) wan.device t,
        laws.added (host ip) d wan.gateway wan.device v t',
        add_peer_routes-AfterPeers before wan ips (track ops (host ip) wan.device r) t'',
        is_tracked-append r.active_bypass_routes (host ip) d wan.device v,
        rollback-Owned before r t'',
      )

  track_added-Owned :
      (before : Bool) (dest : Dest) (gateway : Option ℕ) (device : ℕ) (r : StaticRouter) (t : T)
      → Owned before r.active_bypass_routes t
      → Owned before
          (track_added ops
            (ops.route_add dest gateway device (ops.route_del dest device t).1).0
            dest
            device
            r).active_bypass_routes
          (ops.route_add dest gateway device (ops.route_del dest device t).1).1
  track_added-Owned before dest gateway device r t owned = ground (
    arith,
    gone dest device t,
    laws.added dest d gateway device v (ops.route_del dest device t).1,
    is_tracked-append r.active_bypass_routes dest d device v,
  )

  add_bypass_nets-Owned :
      (before : Bool) (wan : WanRoute) (dests : List Dest) (r : StaticRouter) (t : T)
      → Owned before r.active_bypass_routes t
      → Owned before
          (add_bypass_nets ops wan dests r t).0.active_bypass_routes
          (add_bypass_nets ops wan dests r t).1
  unfolding add_bypass_nets
  add_bypass_nets-Owned before wan [] r t owned = owned
  add_bypass_nets-Owned before wan (dest ∷ dests) r t owned =
      let t' = (ops.route_del dest wan.device t).1 in
      add_bypass_nets-Owned before wan dests
        (track_added ops (ops.route_add dest wan.gateway wan.device t').0 dest wan.device r)
        (ops.route_add dest wan.gateway wan.device t').1
        (track_added-Owned before dest wan.gateway wan.device r t owned)

  -- After the setup: the router would remove what was added, the routes of the tunnel included.
  abbrev AfterSetup : Bool → Result ℕ String × StaticRouter × T → Type 0
  AfterSetup before (ok name, r, t) =
      Owned (before || is_vpn vpn_routes d v) r.active_bypass_routes t
  AfterSetup before (err e, r, t) = Owned before [] t × (r.active_bypass_routes ≡ [])

  bring_up-AfterSetup :
      (before : Bool) (wan : WanRoute) (r : StaticRouter) (t : T)
      → Owned before r.active_bypass_routes t
      → AfterSetup before (bring_up ops wan r t)
  unfolding bring_up rollback_bypass_routes
  bring_up-AfterSetup before wan r t owned =
      let up = (ops.wg_quick_up t).1 in
      let routed = (setup_vpn_routes ops vpn_routes up).1 in
      let removed = remove_vpn_routes ops vpn_routes routed in
      ground (
        arith,
        laws.brought_up d v t,
        rollback-Owned before r up,
        setup_vpn_routes-has vpn_routes up,
        remove_vpn_routes-has vpn_routes routed,
        laws.brought_down d v removed,
        rollback-Owned before r (ops.wg_quick_down removed).1,
      )

  after_peers-AfterSetup :
      (before : Bool) (wan : WanRoute) (p : Result (Unit {0}) String × StaticRouter × T)
      → AfterPeers before p
      → AfterSetup before (after_peers ops wan p)
  after_peers-AfterSetup before wan (err e, r, t) h = h
  after_peers-AfterSetup before wan (ok _, r, t) h =
      bring_up-AfterSetup before wan (add_bypass_nets ops wan rfc1918_bypass_nets r t).0
        (add_bypass_nets ops wan rfc1918_bypass_nets r t).1
        (add_bypass_nets-Owned before wan rfc1918_bypass_nets r t h)

  Owned-start : (t : T) (routes : List (Dest × ℕ)) → Owned (ops.has d v t) routes t
  Owned-start t routes = ground arith

  after_failure :
      (before : Bool) (p : Result ℕ String × StaticRouter × T) (e : String)
      → AfterSetup before p
      → p.0 ≡ err e
      → Owned before [] p.2 × (p.1.active_bypass_routes ≡ [])
  after_failure before (ok name, r, t) e h failed = ground arith
  after_failure before (err e', r, t) e h failed = h

  after_success :
      (before : Bool) (p : Result ℕ String × StaticRouter × T) (name : ℕ)
      → AfterSetup before p
      → p.0 ≡ ok name
      → Owned (before || is_vpn vpn_routes d v) p.1.active_bypass_routes p.2
  after_success before (ok name', r, t) name h succeeded = h
  after_success before (err e, r, t) name h succeeded = ground arith

  setup_via-AfterSetup :
      (found : Result (Option WanRoute) String) (r : StaticRouter) (t : T)
      → r.active_bypass_routes ≡ []
      → AfterSetup (ops.has d v t) (setup_via ops found r t)
  setup_via-AfterSetup (ok (some wan)) r t fresh =
      after_peers-AfterSetup (ops.has d v t) wan (add_peer_routes ops wan r.peer_ips r t) (
        add_peer_routes-AfterPeers (ops.has d v t) wan r.peer_ips r t
          (Owned-start t r.active_bypass_routes))
  setup_via-AfterSetup (ok none) r t fresh = (Owned-start t [], fresh)
  setup_via-AfterSetup (err e) r t fresh = (Owned-start t [], fresh)

  setup-AfterSetup :
      (r : StaticRouter) (t : T)
      → r.active_bypass_routes ≡ []
      → AfterSetup (ops.has d v t) (setup ops r t)
  unfolding setup
  setup-AfterSetup r t fresh = setup_via-AfterSetup (ops.get_wan_route_for t) r t fresh

  -- A setup that fails, wherever it fails, leaves the router nothing to remove, and a route that was
  -- not in the table before it only if the system fails to delete this route when asked to.
  pub setup_failure_restores :
      (r : StaticRouter) (t : T) (e : String)
      → r.active_bypass_routes ≡ []
      → (setup ops r t).0 ≡ err e
      → ((setup ops r t).1.active_bypass_routes ≡ [])
        × ((not (ops.has d v (setup ops r t).2) || ops.has d v t) ≡ true)
  setup_failure_restores r t e fresh failed =
      ground (arith, after_failure (ops.has d v t) (setup ops r t) e (setup-AfterSetup r t fresh))

  -- A teardown after a setup that succeeded leaves a route in the table that was not there before the
  -- setup only if the system fails to delete this route when asked to.
  pub teardown_restores :
      (r : StaticRouter) (t : T) (name : ℕ)
      → r.active_bypass_routes ≡ []
      → (setup ops r t).0 ≡ ok name
      → (not (ops.has d v (teardown ops (setup ops r t).1 (setup ops r t).2).1) || ops.has d v t)
        ≡ true
  unfolding teardown
  teardown_restores r t name fresh succeeded =
      let r' = (setup ops r t).1 in
      let unrouted = remove_vpn_routes ops vpn_routes (setup ops r t).2 in
      ground (
        arith,
        after_success (ops.has d v t) (setup ops r t) name (setup-AfterSetup r t fresh),
        remove_vpn_routes-has vpn_routes (setup ops r t).2,
        laws.brought_down d v unrouted,
        delete_routes-has r'.active_bypass_routes (ops.wg_quick_down unrouted).1,
      )
