-- ===== src/Routing/Linux.antt =====
-- gnosis_vpn-root/src/routing/linux.rs: the router for Linux, over the operations of
-- gnosis_vpn-root/src/routing/route_ops.rs and gnosis_vpn-root/src/routing/wg_ops.rs.
--
-- The system is a state that the operations read and change, a parameter like the operations
-- themselves, which end in rtnetlink and wg-quick. An address is its 32-bit number, and a device a
-- number.
pub mod Rollback
use gnosis_vpn_client.Prelude.{
  ℕ, ◌+◌, ◌*◌, Bool, true, false, not, ◌&&◌, ◌||◌, String, Option, none, some, List, [], ◌∷◌, ◌++◌,
  Result, ok, err, ◌≡◌, ◌==◌, any, retain,
}

-- The text of a destination: an address, or a network with the length of its prefix.
pub data Dest : Type 0 where
  host : ℕ → Dest
  net : (address : ℕ) → (prefix_len : ℕ) → Dest

abbrev pub dest_eq : Dest → Dest → Bool
dest_eq (host a) (host b) = a == b
dest_eq (net a n) (net b m) = a == b && n == m
dest_eq _ _ = false

abbrev pub ipv4 : ℕ → ℕ → ℕ → ℕ → ℕ
ipv4 a b c d = a * 16777216 + b * 65536 + c * 256 + d

abbrev pub rfc1918_bypass_nets : List Dest
rfc1918_bypass_nets =
    net (ipv4 10 0 0 0) 8
    ∷ net (ipv4 172 16 0 0) 12
    ∷ net (ipv4 192 168 0 0) 16
    ∷ net (ipv4 169 254 0 0) 16
    ∷ []

-- `VPN_SPLIT_ROUTES` and `VPN_TUNNEL_SUBNET`.
abbrev pub vpn_routes : List Dest
vpn_routes = net 0 1 ∷ net (ipv4 128 0 0 0) 1 ∷ net (ipv4 10 128 0 0) 9 ∷ []

-- `wireguard::WG_INTERFACE`.
abbrev pub wg_interface : ℕ
wg_interface = 0

pub record WanRoute : Type 0 where
  pub device : ℕ
  pub gateway : Option ℕ
  pub src_ip : Option ℕ

-- `RouteOps` and `WgOps`, and whether the table has a route to a destination through a device.
pub record RouteOps (T : Type 0) : Type 0 where
  pub get_wan_route_for : T → Result (Option WanRoute) String
  pub get_route_via_device : (device : ℕ) → T → Result (Option WanRoute) String
  pub route_add : Dest → (gateway : Option ℕ) → (device : ℕ) → T → Result (Unit {0}) String × T
  pub route_del : Dest → (device : ℕ) → T → Result (Unit {0}) String × T
  pub wg_quick_up : T → Result ℕ String × T
  pub wg_quick_down : T → Result (Unit {0}) String × T
  pub has : Dest → (device : ℕ) → T → Bool

pub record StaticRouter : Type 0 where
  pub peer_ips : List ℕ
  pub wan_info : Option WanRoute
  pub active_bypass_routes : List (Dest × ℕ)

module _ {T : Type 0} (ops : RouteOps T) where
  -- Each route is deleted first; the first that cannot be added ends the setup.
  unfoldable pub setup_vpn_routes : List Dest → T → Result (Unit {0}) String × T
  setup_vpn_routes [] t = (ok tt, t)
  setup_vpn_routes (dest ∷ dests) t =
      let t' = (ops.route_del dest wg_interface t).1 in
      let added = ops.route_add dest none wg_interface t' in
      let rest = setup_vpn_routes dests added.1 in
      elim added.0 [ ok _ ↦ rest | err e ↦ (err e, added.1) ]

  -- A failure is only logged.
  unfoldable pub remove_vpn_routes : List Dest → T → T
  remove_vpn_routes [] t = t
  remove_vpn_routes (dest ∷ dests) t = remove_vpn_routes dests (ops.route_del dest wg_interface t).1

  unfoldable pub delete_routes : List (Dest × ℕ) → T → T
  delete_routes [] t = t
  delete_routes ((dest, device) ∷ routes) t = delete_routes routes (ops.route_del dest device t).1

  unfoldable pub rollback_bypass_routes : StaticRouter → T → StaticRouter × T
  unfolding delete_routes
  rollback_bypass_routes r t =
      (record r { active_bypass_routes = [] }, delete_routes r.active_bypass_routes t)

  abbrev pub track : Dest → ℕ → StaticRouter → StaticRouter
  track dest device r = record r {
    active_bypass_routes = r.active_bypass_routes ++ (dest, device) ∷ [];
  }

  -- The routes of the peers: at a failure, all that were added are removed.
  unfoldable pub add_peer_routes :
      WanRoute → List ℕ → StaticRouter → T → Result (Unit {0}) String × StaticRouter × T
  unfolding rollback_bypass_routes
  add_peer_routes wan [] r t = (ok tt, r, t)
  add_peer_routes wan (ip ∷ ips) r t =
      let t' = (ops.route_del (host ip) wan.device t).1 in
      let added = ops.route_add (host ip) wan.gateway wan.device t' in
      let rest = add_peer_routes wan ips (track (host ip) wan.device r) added.1 in
      let rolled = rollback_bypass_routes r added.1 in
      elim added.0 [ ok _ ↦ rest | err e ↦ (err e, rolled.0, rolled.1) ]

  abbrev pub track_added : Result (Unit {0}) String → Dest → ℕ → StaticRouter → StaticRouter
  track_added (ok _) dest device r = track dest device r
  track_added (err _) dest device r = r

  -- The routes of the local networks: a failure is only logged.
  unfoldable pub add_bypass_nets : WanRoute → List Dest → StaticRouter → T → StaticRouter × T
  add_bypass_nets wan [] r t = (r, t)
  add_bypass_nets wan (dest ∷ dests) r t =
      let t' = (ops.route_del dest wan.device t).1 in
      let added = ops.route_add dest wan.gateway wan.device t' in
      add_bypass_nets wan dests (track_added added.0 dest wan.device r) added.1

  -- From `wg-quick up` on.
  unfoldable pub bring_up : WanRoute → StaticRouter → T → Result ℕ String × StaticRouter × T
  unfolding rollback_bypass_routes setup_vpn_routes remove_vpn_routes
  bring_up wan r t =
      let up = ops.wg_quick_up t in
      let unrouted = rollback_bypass_routes r up.1 in
      let routed = setup_vpn_routes vpn_routes up.1 in
      let removed = remove_vpn_routes vpn_routes routed.1 in
      let rolled = rollback_bypass_routes r (ops.wg_quick_down removed).1 in
      elim up.0 [
        | err e ↦ (err e, unrouted.0, unrouted.1)
        | ok interface_name ↦ elim routed.0 [
          | err e ↦ (err e, rolled.0, rolled.1)
          | ok _ ↦ (ok interface_name, record r { wan_info = some wan }, routed.1)
        ]
      ]

  abbrev pub after_peers :
      WanRoute → Result (Unit {0}) String × StaticRouter × T → Result ℕ String × StaticRouter × T
  after_peers wan (err e, r, t) = (err e, r, t)
  after_peers wan (ok _, r, t) =
      let bypassed = add_bypass_nets wan rfc1918_bypass_nets r t in
      bring_up wan bypassed.0 bypassed.1

  abbrev pub setup_via :
      Result (Option WanRoute) String → StaticRouter → T → Result ℕ String × StaticRouter × T
  setup_via (ok (some wan)) r t = after_peers wan (add_peer_routes wan r.peer_ips r t)
  setup_via (ok none) r t = (err "Unable to determine default interface", r, t)
  setup_via (err e) r t = (err e, r, t)

  unfoldable pub setup : StaticRouter → T → Result ℕ String × StaticRouter × T
  unfolding add_peer_routes add_bypass_nets bring_up
  setup r t = setup_via (ops.get_wan_route_for t) r t

  unfoldable pub teardown : StaticRouter → T → StaticRouter × T
  unfolding remove_vpn_routes delete_routes
  teardown r t = (
    record r { active_bypass_routes = []; wan_info = none },
    delete_routes r.active_bypass_routes (ops.wg_quick_down (remove_vpn_routes vpn_routes t)).1,
  )

  abbrev pub option_eq : Option ℕ → Option ℕ → Bool
  option_eq (some a) (some b) = a == b
  option_eq none none = true
  option_eq _ _ = false

  abbrev pub differs : WanRoute → Option WanRoute → Bool
  differs snapshot none = true
  differs snapshot (some r) =
      not (option_eq r.src_ip snapshot.src_ip) || not (option_eq r.gateway snapshot.gateway)

  unfoldable pub wan_changed : StaticRouter → T → Result Bool String
  wan_changed r t = elim r.wan_info [
    | none ↦ ok true
    | some snapshot ↦ elim (ops.get_route_via_device snapshot.device t) [
      | ok current ↦ ok (differs snapshot current)
      | err e ↦ err e
    ]
  ]

  -- Nothing to do before the setup.
  unfoldable pub add_peer_bypass_route :
      ℕ → StaticRouter → T → Result (Unit {0}) String × StaticRouter × T
  add_peer_bypass_route ip r t = elim r.wan_info [
    | none ↦ (ok tt, r, t)
    | some wan ↦
        let t' = (ops.route_del (host ip) wan.device t).1 in
        let added = ops.route_add (host ip) wan.gateway wan.device t' in
        elim added.0 [
          | ok _ ↦ (ok tt, track (host ip) wan.device r, added.1)
          | err e ↦ (err e, r, added.1)
        ]
  ]

  unfoldable pub remove_peer_bypass_route :
      ℕ → StaticRouter → T → Result (Unit {0}) String × StaticRouter × T
  remove_peer_bypass_route ip r t = elim r.wan_info [
    | none ↦ (ok tt, r, t)
    | some wan ↦ (
      ok tt,
      record r {
        active_bypass_routes = retain (λ e. not (dest_eq e.0 (host ip))) r.active_bypass_routes;
      },
      (ops.route_del (host ip) wan.device t).1,
    )
  ]
