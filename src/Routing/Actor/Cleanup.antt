-- ===== src/Routing/Actor/Cleanup.antt =====
-- gnosis_vpn-root/src/routing_actor.rs: what setup and teardown leave behind.
use gnosis_vpn_client.Prelude.{
  ℕ, ◌+◌, Bool, true, false, String, none, some, List, [], ◌∷◌, Result, ok, err, ◌≡◌, refl, arith,
}
use gnosis_vpn_client.Prelude.Maps.{keys}
use gnosis_vpn_client.Prelude.Sets.{difference}
use gnosis_vpn_client.Root.Messages.{Msg}
use gnosis_vpn_client.Routing.Actor.{
  Actor, Answers, Effect, new, see, retain_recent, router_setup, router_teardown, peer_route_added,
  peer_route_removed, did, for_each, teardown_routing, setup_routing, update_peer_ips,
  change_bypass, apply_policy, handle, teardown,
}

-- No routing: no router, no name of its interface, no bypass and no address that was seen.
abbrev pub IsClear : Actor → Type 0
IsClear actor =
    (actor.router ≡ false)
    × (actor.wg_interface_name ≡ none)
    × (actor.active_bypass ≡ [])
    × (actor.peer_ip_last_seen ≡ [])

-- What setup leaves, by its result.
abbrev pub IsAfterSetup : Result ℕ String × Actor → Type 0
IsAfterSetup (ok interface_name, actor) =
    (actor.router ≡ true)
    × (actor.wg_interface_name ≡ some interface_name)
    × (actor.active_bypass ≡ [])
    × (actor.peer_ip_last_seen ≡ [])
IsAfterSetup (err error, actor) = IsClear actor

-- Setup starts without the routing of before: when it succeeds there is a router with the name of
-- its interface and no bypass yet, and when it fails, at the building of the router or at its
-- setup, no routing is left.
pub setup_routing-IsAfterSetup :
    (a : Answers) (wg_data : ℕ) (peer_ips : List ℕ) (actor : Actor)
    → IsAfterSetup (setup_routing a wg_data peer_ips actor)
unfolding setup_routing teardown_routing
setup_routing-IsAfterSetup a wg_data peer_ips actor = ground arith

-- How often a router was set up, and torn down.
abbrev pub setups : List Effect → ℕ
setups [] = 0
setups (router_setup wg_data peer_ips ∷ log) = setups log + 1
setups (_ ∷ log) = setups log

abbrev pub teardowns : List Effect → ℕ
teardowns [] = 0
teardowns (router_teardown ∷ log) = teardowns log + 1
teardowns (_ ∷ log) = teardowns log

abbrev pub count : Bool → ℕ
count true = 1
count false = 0

-- Every router that was set up was torn down, but the one that is there.
abbrev pub IsBalanced : Actor → Type 0
IsBalanced actor = setups actor.log ≡ teardowns actor.log + count actor.router

-- The calls for single addresses change neither count.
for_each-added :
    (ips : List ℕ) (actor : Actor)
    → (setups (for_each peer_route_added ips actor).log ≡ setups actor.log)
      × (teardowns (for_each peer_route_added ips actor).log ≡ teardowns actor.log)
      × ((for_each peer_route_added ips actor).router ≡ actor.router)
for_each-added [] actor = (refl, refl, refl)
for_each-added (ip ∷ ips) actor = for_each-added ips (did (peer_route_added ip) actor)

for_each-removed :
    (ips : List ℕ) (actor : Actor)
    → (setups (for_each peer_route_removed ips actor).log ≡ setups actor.log)
      × (teardowns (for_each peer_route_removed ips actor).log ≡ teardowns actor.log)
      × ((for_each peer_route_removed ips actor).router ≡ actor.router)
for_each-removed [] actor = (refl, refl, refl)
for_each-removed (ip ∷ ips) actor = for_each-removed ips (did (peer_route_removed ip) actor)

teardown_routing-IsBalanced :
    (actor : Actor) → IsBalanced actor → IsBalanced (teardown_routing actor)
unfolding teardown_routing
teardown_routing-IsBalanced actor balanced =
    ground (arith, for_each-removed actor.active_bypass actor)

cleared : (actor : Actor) → (teardown_routing actor).router ≡ false
unfolding teardown_routing
cleared actor = refl

setup_routing-IsBalanced :
    (a : Answers) (wg_data : ℕ) (peer_ips : List ℕ) (actor : Actor)
    → IsBalanced actor
    → IsBalanced (setup_routing a wg_data peer_ips actor).1
unfolding setup_routing
setup_routing-IsBalanced a wg_data peer_ips actor balanced = ground (
  arith,
  teardown_routing-IsBalanced actor balanced,
  teardown_routing-IsBalanced
      (did (router_setup wg_data peer_ips) (record (teardown_routing actor) { router = true })),
  cleared actor,
)

change_bypass-IsBalanced :
    (alive : List ℕ) (actor : Actor) → IsBalanced actor → IsBalanced (change_bypass alive actor)
change_bypass-IsBalanced alive actor balanced = ground (
  arith,
  for_each-added (difference alive actor.active_bypass) actor,
  for_each-removed (difference actor.active_bypass alive)
      (for_each peer_route_added (difference alive actor.active_bypass) actor),
)

update_peer_ips-IsBalanced :
    (ips : List ℕ) (now : ℕ) (actor : Actor)
    → IsBalanced actor
    → IsBalanced (update_peer_ips ips now actor)
unfolding update_peer_ips
update_peer_ips-IsBalanced ips now actor balanced =
    let seen = retain_recent now (see ips now actor.peer_ip_last_seen) in
    ground (arith, change_bypass-IsBalanced (keys seen) (record actor { peer_ip_last_seen = seen }))

handle-IsBalanced :
    (a : Answers) (now : ℕ) (msg : Msg) (actor : Actor)
    → IsBalanced actor
    → IsBalanced (handle a now msg actor).1
unfolding handle apply_policy
handle-IsBalanced a now (Msg.setup_routing wg_data peer_ips) actor balanced =
    setup_routing-IsBalanced a wg_data peer_ips actor balanced
handle-IsBalanced a now Msg.teardown_routing actor balanced =
    teardown_routing-IsBalanced actor balanced
handle-IsBalanced a now (Msg.set_allowed_ips ips interface lan_lockdown) actor balanced =
    ground arith
handle-IsBalanced a now Msg.disable_killswitch actor balanced = balanced
handle-IsBalanced a now (Msg.update_peer_ips ips) actor balanced =
    update_peer_ips-IsBalanced ips now actor balanced

-- The messages in the order in which the actor takes them, each with its second and the answers.
abbrev pub run : List (Answers × ℕ × Msg) → Actor → Actor
run [] actor = actor
run ((a, now, msg) ∷ rest) actor = run rest (handle a now msg actor).1

run-IsBalanced :
    (msgs : List (Answers × ℕ × Msg)) (actor : Actor)
    → IsBalanced actor
    → IsBalanced (run msgs actor)
run-IsBalanced [] actor balanced = balanced
run-IsBalanced ((a, now, msg) ∷ rest) actor balanced =
    run-IsBalanced rest (handle a now msg actor).1 (handle-IsBalanced a now msg actor balanced)

-- Over any messages and whatever the router and the firewall answer, the actor sets up no router
-- while another is there, and once it has ended it has torn down each router that it set up.
pub routers_torn_down :
    (a : Answers) (msgs : List (Answers × ℕ × Msg))
    → (setups (run msgs new).log ≡ teardowns (run msgs new).log + count (run msgs new).router)
      × (setups (teardown a (run msgs new)).log ≡ teardowns (teardown a (run msgs new)).log)
unfolding teardown new
routers_torn_down a msgs = ground (
  arith,
  run-IsBalanced msgs new refl,
  teardown_routing-IsBalanced (run msgs new),
  cleared (run msgs new),
)
