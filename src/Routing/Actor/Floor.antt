-- ===== src/Routing/Actor/Floor.antt =====
-- gnosis_vpn-root/src/routing_actor.rs: the floor of the policy over the messages of the actor.
use gnosis_vpn_client.Prelude.{
  ℕ, Bool, true, false, ◌&&◌, Option, none, some, List, [], ◌∷◌, ok, ◌≡◌, refl, sym, ap, if-cases,
  ◌∙◌, arith, contains,
}
use gnosis_vpn_client.Prelude.Maps.{keys}
use gnosis_vpn_client.Prelude.Sets.{same_set, contains-to_set}
use gnosis_vpn_client.Root.Messages.{Msg}
use gnosis_vpn_client.Routing.Actor.{
  Actor, Answers, AppliedPolicy, new, router_setup, did, see, retain_recent, teardown_routing,
  setup_routing, update_peer_ips, change_bypass, change_routes, refresh_policy, apply_policy,
  handle,
}
use gnosis_vpn_client.Routing.Actor.Peers.{IsUnique, is_alive}
use gnosis_vpn_client.Routing.Actor.Cleanup.{run}
use gnosis_vpn_client.Routing.Actor.Policy.{
  allows, combined-contains, for_each-policy_removed, change_routes-policy, update_peer_ips_idle,
}

-- An address of the floor of the policy in force.
abbrev pub is_floor : Option AppliedPolicy → ℕ → Bool
is_floor (some policy) x = contains policy.ips x
is_floor none x = true

-- The firewall lets an address of the floor through, or everything without a policy.
abbrev LetsFloorThrough : ℕ → Actor → Type 0
LetsFloorThrough x actor = is_floor actor.applied_policy x ≡ true → allows actor.log x ≡ true

teardown_routing-policy :
    (actor : Actor) (x : ℕ)
    → ((teardown_routing actor).applied_policy ≡ actor.applied_policy)
      × (allows (teardown_routing actor).log x ≡ allows actor.log x)
unfolding teardown_routing
teardown_routing-policy actor x =
    ground (arith, for_each-policy_removed actor.active_bypass actor x)

setup_routing-policy :
    (a : Answers) (wg_data : ℕ) (peer_ips : List ℕ) (actor : Actor) (x : ℕ)
    → ((setup_routing a wg_data peer_ips actor).1.applied_policy ≡ actor.applied_policy)
      × (allows (setup_routing a wg_data peer_ips actor).1.log x ≡ allows actor.log x)
unfolding setup_routing
setup_routing-policy a wg_data peer_ips actor x = ground (
  arith,
  teardown_routing-policy actor x,
  teardown_routing-policy
      (did (router_setup wg_data peer_ips) (record (teardown_routing actor) { router = true })) x,
)

refresh_policy-lets :
    (o : Option AppliedPolicy) (alive : List ℕ) (actor : Actor) (x : ℕ)
    → (is_floor o x ≡ true → allows actor.log x ≡ true)
    → is_floor o x ≡ true
    → allows (refresh_policy o alive actor).log x ≡ true
refresh_policy-lets none alive actor x lets floor = lets floor
refresh_policy-lets (some policy) alive actor x lets floor =
    ground (arith, combined-contains policy alive x)

refresh_policy-policy :
    (o : Option AppliedPolicy) (alive : List ℕ) (actor : Actor)
    → (refresh_policy o alive actor).applied_policy ≡ actor.applied_policy
refresh_policy-policy none alive actor = refl
refresh_policy-policy (some policy) alive actor = refl

change_bypass-applied :
    (alive : List ℕ) (actor : Actor)
    → (change_bypass alive actor).applied_policy ≡ actor.applied_policy
change_bypass-applied alive actor =
    refresh_policy-policy actor.applied_policy alive
      (record (change_routes actor.router alive actor) { active_bypass = alive })
    ∙ (change_routes-policy actor.router alive actor 0).0

change_bypass-policy :
    (alive : List ℕ) (actor : Actor) (x : ℕ)
    → LetsFloorThrough x actor
    → ((change_bypass alive actor).applied_policy ≡ actor.applied_policy)
      × LetsFloorThrough x (change_bypass alive actor)
change_bypass-policy alive actor x lets = (
  change_bypass-applied alive actor,
  λ floor.
      refresh_policy-lets actor.applied_policy alive
        (record (change_routes actor.router alive actor) { active_bypass = alive }) x
        (λ h. (change_routes-policy actor.router alive actor x).1 ∙ lets h)
        (ap (λ (o : Option AppliedPolicy). is_floor o x) (sym (change_bypass-applied alive actor))
          ∙ floor),
)

update_peer_ips-policy :
    (ips : List ℕ) (now : ℕ) (actor : Actor) (x : ℕ)
    → LetsFloorThrough x actor
    → ((update_peer_ips ips now actor).applied_policy ≡ actor.applied_policy)
      × LetsFloorThrough x (update_peer_ips ips now actor)
unfolding update_peer_ips
update_peer_ips-policy ips now actor x lets =
    let seen = retain_recent now (see ips now actor.peer_ip_last_seen) in
    let actor' = record actor { peer_ip_last_seen = seen } in
    if-cases (same_set (keys seen) actor.active_bypass)
      (λ (r : Actor). (r.applied_policy ≡ actor.applied_policy) × LetsFloorThrough x r) (refl, lets)
      (change_bypass-policy (keys seen) actor' x lets)

handle-LetsFloorThrough :
    (a : Answers) (now : ℕ) (msg : Msg) (actor : Actor) (x : ℕ)
    → (a.apply_policy ≡ ok tt) × (a.reset_policy ≡ ok tt)
    → LetsFloorThrough x actor
    → LetsFloorThrough x (handle a now msg actor).1
unfolding handle apply_policy
handle-LetsFloorThrough a now (Msg.setup_routing wg_data peer_ips) actor x applies lets =
    ground (arith, setup_routing-policy a wg_data peer_ips actor x)
handle-LetsFloorThrough a now Msg.teardown_routing actor x applies lets =
    ground (arith, teardown_routing-policy actor x)
handle-LetsFloorThrough a now (Msg.set_allowed_ips ips interface lan) actor x applies lets =
    ground arith
handle-LetsFloorThrough a now Msg.disable_killswitch actor x applies lets =
    λ floor. ground (arith, applies.1)
handle-LetsFloorThrough a now (Msg.update_peer_ips ips) actor x applies lets =
    (update_peer_ips-policy ips now actor x lets).1

-- Each lockdown and each reset is taken by the firewall.
abbrev pub AllApply : List (Answers × ℕ × Msg) → Type 0
AllApply [] = Unit {0}
AllApply ((a, now, msg) ∷ rest) =
    ((a.apply_policy ≡ ok tt) × (a.reset_policy ≡ ok tt)) × AllApply rest

run-LetsFloorThrough :
    (msgs : List (Answers × ℕ × Msg)) (actor : Actor) (x : ℕ)
    → AllApply msgs
    → LetsFloorThrough x actor
    → LetsFloorThrough x (run msgs actor)
run-LetsFloorThrough [] actor x applies lets = lets
run-LetsFloorThrough ((a, now, msg) ∷ rest) actor x applies lets =
    run-LetsFloorThrough rest (handle a now msg actor).1 x applies.1
      (handle-LetsFloorThrough a now msg actor x applies.0 lets)

-- Over any messages of which no lockdown and no reset of the firewall fails, what the firewall was
-- last asked to apply lets every address of the floor in force through, whatever peers came and went,
-- and everything while no floor is in force.
pub floor_let_through :
    (msgs : List (Answers × ℕ × Msg)) (x : ℕ)
    → AllApply msgs
    → is_floor (run msgs new).applied_policy x ≡ true
    → allows (run msgs new).log x ≡ true
unfolding new
floor_let_through msgs x applies floor = run-LetsFloorThrough msgs new x applies (λ h. refl) floor

-- The messages that leave the policy in force.
abbrev pub keeps_policy : Msg → Bool
keeps_policy (Msg.set_allowed_ips ips interface lan_lockdown) = false
keeps_policy Msg.disable_killswitch = false
keeps_policy _ = true

abbrev pub all_keep_policy : List (Answers × ℕ × Msg) → Bool
all_keep_policy [] = true
all_keep_policy ((a, now, msg) ∷ rest) = keeps_policy msg && all_keep_policy rest

handle-policy :
    (a : Answers) (now : ℕ) (msg : Msg) (actor : Actor)
    → keeps_policy msg ≡ true
    → (handle a now msg actor).1.applied_policy ≡ actor.applied_policy
unfolding handle update_peer_ips
handle-policy a now (Msg.setup_routing wg_data peer_ips) actor keeps =
    (setup_routing-policy a wg_data peer_ips actor 0).0
handle-policy a now Msg.teardown_routing actor keeps = (teardown_routing-policy actor 0).0
handle-policy a now (Msg.set_allowed_ips ips interface lan) actor keeps = ground arith
handle-policy a now Msg.disable_killswitch actor keeps = ground arith
handle-policy a now (Msg.update_peer_ips ips) actor keeps =
    if-cases
      (same_set (keys (retain_recent now (see ips now actor.peer_ip_last_seen)))
        actor.active_bypass)
      (λ (r : Actor). r.applied_policy ≡ actor.applied_policy) refl
      (change_bypass-applied (keys (retain_recent now (see ips now actor.peer_ip_last_seen)))
        (record actor {
          peer_ip_last_seen = retain_recent now (see ips now actor.peer_ip_last_seen);
        }))

-- No setup and no teardown of the routing, failed or not, and no update of the peers changes the
-- policy in force: only a new lockdown and the end of the killswitch do.
pub policy_persists :
    (msgs : List (Answers × ℕ × Msg)) (actor : Actor)
    → all_keep_policy msgs ≡ true
    → (run msgs actor).applied_policy ≡ actor.applied_policy
policy_persists [] actor keeps = refl
policy_persists ((a, now, msg) ∷ rest) actor keeps =
    policy_persists rest (handle a now msg actor).1 (ground (arith, keeps))
    ∙ handle-policy a now msg actor (ground (arith, keeps))

-- A lockdown that the firewall takes tells it the floor alone. The next update that finds the same
-- addresses alive tells it nothing, so an address of the bypass that is not on the floor stays
-- blocked.
pub lockdown_forgets_delta :
    (a : Answers) (now : ℕ) (ips floor : List ℕ) (interface : ℕ) (lan_lockdown : Bool)
    (actor : Actor) (x : ℕ)
    → a.apply_policy ≡ ok tt
    → IsUnique actor.peer_ip_last_seen
    → ((y : ℕ) → is_alive ips now actor y ≡ contains actor.active_bypass y)
    → allows (update_peer_ips ips now (apply_policy a interface floor lan_lockdown actor).1).log x
      ≡ contains floor x
unfolding apply_policy
lockdown_forgets_delta a now ips floor interface lan_lockdown actor x applies unique same = ground (
  arith,
  update_peer_ips_idle ips now (apply_policy a interface floor lan_lockdown actor).1,
  contains-to_set floor x,
)
