-- ===== src/Routing/Actor/Routes.antt =====
-- gnosis_vpn-root/src/routing_actor.rs: the bypass routes of the peers that the actor asked the router
-- for.
use gnosis_vpn_client.Prelude.{
  ℕ, Bool, true, false, not, ◌||◌, ◌&&◌, Option, none, some, List, [], ◌∷◌, ◌≡◌, refl, arith, ◌==◌,
  if-cases, contains,
}
use gnosis_vpn_client.Prelude.Maps.{keys}
use gnosis_vpn_client.Prelude.Sets.{difference, same_set, contains-difference}
use gnosis_vpn_client.Root.Messages.{Msg}
use gnosis_vpn_client.Routing.Actor.{
  Actor, Answers, AppliedPolicy, Effect, new, peer_route_added, peer_route_removed, did, for_each,
  see, retain_recent, teardown_routing, setup_routing, update_peer_ips, change_bypass,
  change_routes, refresh_policy, apply_policy, handle, teardown,
}
use gnosis_vpn_client.Routing.Actor.Cleanup.{run}

-- Whether the last call for an address added its route.
abbrev pub is_routed : List Effect → ℕ → Bool
is_routed [] ip = false
is_routed (peer_route_added x ∷ log) ip = (x == ip) || is_routed log ip
is_routed (peer_route_removed x ∷ log) ip = not (x == ip) && is_routed log ip
is_routed (_ ∷ log) ip = is_routed log ip

-- The route of an address is there just when there is a router and the bypass has the address.
abbrev IsRouted : ℕ → Actor → Type 0
IsRouted ip actor = is_routed actor.log ip ≡ (actor.router && contains actor.active_bypass ip)

for_each-added_routed :
    (ips : List ℕ) (actor : Actor) (ip : ℕ)
    → (is_routed (for_each peer_route_added ips actor).log ip
        ≡ (contains ips ip || is_routed actor.log ip))
      × ((for_each peer_route_added ips actor).router ≡ actor.router)
for_each-added_routed [] actor ip = (refl, refl)
for_each-added_routed (x ∷ ips) actor ip =
    ground (arith, for_each-added_routed ips (did (peer_route_added x) actor) ip)

for_each-removed_routed :
    (ips : List ℕ) (actor : Actor) (ip : ℕ)
    → (is_routed (for_each peer_route_removed ips actor).log ip
        ≡ (not (contains ips ip) && is_routed actor.log ip))
      × ((for_each peer_route_removed ips actor).router ≡ actor.router)
for_each-removed_routed [] actor ip = (refl, refl)
for_each-removed_routed (x ∷ ips) actor ip =
    ground (arith, for_each-removed_routed ips (did (peer_route_removed x) actor) ip)

teardown_routing-routed :
    (actor : Actor) (ip : ℕ)
    → IsRouted ip actor
    → (is_routed (teardown_routing actor).log ip ≡ false)
      × ((teardown_routing actor).router ≡ false)
unfolding teardown_routing
teardown_routing-routed actor ip routed =
    ground (arith, for_each-removed_routed actor.active_bypass actor ip)

setup_routing-IsRouted :
    (a : Answers) (wg_data : ℕ) (peer_ips : List ℕ) (actor : Actor) (ip : ℕ)
    → IsRouted ip actor
    → IsRouted ip (setup_routing a wg_data peer_ips actor).1
unfolding setup_routing teardown_routing
setup_routing-IsRouted a wg_data peer_ips actor ip routed =
    ground (arith, for_each-removed_routed actor.active_bypass actor ip)

change_routes-routed :
    (up : Bool) (alive : List ℕ) (actor : Actor) (ip : ℕ)
    → up ≡ actor.router
    → IsRouted ip actor
    → (is_routed (change_routes up alive actor).log ip ≡ (up && contains alive ip))
      × ((change_routes up alive actor).router ≡ up)
change_routes-routed false alive actor ip same routed = ground arith
change_routes-routed true alive actor ip same routed = ground (
  arith,
  for_each-added_routed (difference alive actor.active_bypass) actor ip,
  for_each-removed_routed (difference actor.active_bypass alive)
      (for_each peer_route_added (difference alive actor.active_bypass) actor) ip,
  contains-difference alive actor.active_bypass ip,
  contains-difference actor.active_bypass alive ip,
)

refresh_policy-IsRouted :
    (o : Option AppliedPolicy) (alive : List ℕ) (actor : Actor) (ip : ℕ)
    → IsRouted ip actor
    → IsRouted ip (refresh_policy o alive actor)
refresh_policy-IsRouted none alive actor ip routed = routed
refresh_policy-IsRouted (some policy) alive actor ip routed = routed

change_bypass-IsRouted :
    (alive : List ℕ) (actor : Actor) (ip : ℕ)
    → IsRouted ip actor
    → IsRouted ip (change_bypass alive actor)
change_bypass-IsRouted alive actor ip routed =
    refresh_policy-IsRouted actor.applied_policy alive
      (record (change_routes actor.router alive actor) { active_bypass = alive }) ip
      (ground (arith, change_routes-routed actor.router alive actor ip refl routed))

handle-IsRouted :
    (a : Answers) (now : ℕ) (msg : Msg) (actor : Actor) (ip : ℕ)
    → IsRouted ip actor
    → IsRouted ip (handle a now msg actor).1
unfolding handle apply_policy update_peer_ips
handle-IsRouted a now (Msg.setup_routing wg_data peer_ips) actor ip routed =
    setup_routing-IsRouted a wg_data peer_ips actor ip routed
handle-IsRouted a now Msg.teardown_routing actor ip routed =
    ground (arith, teardown_routing-routed actor ip routed)
handle-IsRouted a now (Msg.set_allowed_ips ips interface lan) actor ip routed = ground arith
handle-IsRouted a now Msg.disable_killswitch actor ip routed = routed
handle-IsRouted a now (Msg.update_peer_ips ips) actor ip routed =
    let seen = retain_recent now (see ips now actor.peer_ip_last_seen) in
    if-cases (same_set (keys seen) actor.active_bypass) (IsRouted ip) routed
      (change_bypass-IsRouted (keys seen) (record actor { peer_ip_last_seen = seen }) ip routed)

run-IsRouted :
    (msgs : List (Answers × ℕ × Msg)) (actor : Actor) (ip : ℕ)
    → IsRouted ip actor
    → IsRouted ip (run msgs actor)
run-IsRouted [] actor ip routed = routed
run-IsRouted ((a, now, msg) ∷ rest) actor ip routed =
    run-IsRouted rest (handle a now msg actor).1 ip (handle-IsRouted a now msg actor ip routed)

-- Over any messages, the peers whose bypass routes the actor last asked for are those of its
-- bypass while there is a router, and none while there is none; at the end it has asked to remove
-- every route that it asked to add.
pub routes_follow_bypass :
    (a : Answers) (msgs : List (Answers × ℕ × Msg)) (ip : ℕ)
    → (is_routed (run msgs new).log ip
        ≡ ((run msgs new).router && contains (run msgs new).active_bypass ip))
      × (is_routed (teardown a (run msgs new)).log ip ≡ false)
unfolding teardown new
routes_follow_bypass a msgs ip = (
  run-IsRouted msgs new ip refl,
  (teardown_routing-routed (run msgs new) ip (run-IsRouted msgs new ip refl)).0,
)
