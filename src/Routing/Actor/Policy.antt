-- ===== src/Routing/Actor/Policy.antt =====
-- gnosis_vpn-root/src/routing_actor.rs: the policy of the killswitch, and what the firewall is told.
use gnosis_vpn_client.Prelude.{
  ℕ, Bool, true, false, ◌||◌, some, List, [], ◌∷◌, ◌++◌, ok, err, ◌≡◌, ◌≢◌, refl, ◌∙◌, arith,
  contains,
}
use gnosis_vpn_client.Prelude.Maps.{keys}
use gnosis_vpn_client.Prelude.Sets.{
  difference, contains-to_set, contains-append, same_set-contains, same_set_intro,
}
use gnosis_vpn_client.Routing.Actor.{
  Actor, AppliedPolicy, Effect, policy_applied, policy_reapplied, policy_reset, peer_route_added,
  peer_route_removed, did, for_each, see, retain_recent, update_peer_ips, change_routes, combined,
}
use gnosis_vpn_client.Routing.Actor.Peers.{IsUnique, is_alive, alive_lem}

-- Whether what the firewall was last asked to apply lets an address through. Without a policy, and
-- after a reset that succeeded, all pass; a reset that failed leaves it as it was.
abbrev pub allows : List Effect → ℕ → Bool
allows [] x = true
allows (policy_applied policy ∷ log) x = contains policy.ips x
allows (policy_reapplied policy ∷ log) x = contains policy.ips x
allows (policy_reset (ok _) ∷ log) x = true
allows (policy_reset (err _) ∷ log) x = allows log x
allows (_ ∷ log) x = allows log x

pub combined-contains :
    (policy : AppliedPolicy) (delta : List ℕ) (x : ℕ)
    → contains (combined policy delta).ips x ≡ (contains policy.ips x || contains delta x)
combined-contains policy delta x =
    ground (arith, contains-to_set (policy.ips ++ delta) x, contains-append policy.ips delta x)

-- The calls for single routes leave the policy alone.
for_each-policy_added :
    (ips : List ℕ) (actor : Actor) (x : ℕ)
    → ((for_each peer_route_added ips actor).applied_policy ≡ actor.applied_policy)
      × (allows (for_each peer_route_added ips actor).log x ≡ allows actor.log x)
for_each-policy_added [] actor x = (refl, refl)
for_each-policy_added (ip ∷ ips) actor x =
    for_each-policy_added ips (did (peer_route_added ip) actor) x

pub for_each-policy_removed :
    (ips : List ℕ) (actor : Actor) (x : ℕ)
    → ((for_each peer_route_removed ips actor).applied_policy ≡ actor.applied_policy)
      × (allows (for_each peer_route_removed ips actor).log x ≡ allows actor.log x)
for_each-policy_removed [] actor x = (refl, refl)
for_each-policy_removed (ip ∷ ips) actor x =
    for_each-policy_removed ips (did (peer_route_removed ip) actor) x

pub change_routes-policy :
    (up : Bool) (alive : List ℕ) (actor : Actor) (x : ℕ)
    → ((change_routes up alive actor).applied_policy ≡ actor.applied_policy)
      × (allows (change_routes up alive actor).log x ≡ allows actor.log x)
change_routes-policy false alive actor x = (refl, refl)
change_routes-policy true alive actor x = ground (
  arith,
  for_each-policy_added (difference alive actor.active_bypass) actor x,
  for_each-policy_removed (difference actor.active_bypass alive)
      (for_each peer_route_added (difference alive actor.active_bypass) actor) x,
)

-- An update that changes the bypass tells the firewall the floor of the policy with all addresses
-- that are alive above it, and nothing else.
pub update_peer_ips-allows :
    (ips : List ℕ) (now : ℕ) (actor : Actor) (policy : AppliedPolicy) (changed x : ℕ)
    → IsUnique actor.peer_ip_last_seen
    → is_alive ips now actor changed ≢ contains actor.active_bypass changed
    → actor.applied_policy ≡ some policy
    → allows (update_peer_ips ips now actor).log x
      ≡ (contains policy.ips x || is_alive ips now actor x)
unfolding update_peer_ips
update_peer_ips-allows ips now actor policy changed x unique change applied =
    let seen = retain_recent now (see ips now actor.peer_ip_last_seen) in
    let actor' = record actor { peer_ip_last_seen = seen } in
    ground (
      arith,
      alive_lem ips now actor changed unique,
      alive_lem ips now actor x unique,
      same_set-contains (keys seen) actor.active_bypass changed,
      combined-contains policy (keys seen) x,
    )

pub update_peer_ips_idle :
    (ips : List ℕ) (now : ℕ) (actor : Actor)
    → IsUnique actor.peer_ip_last_seen
    → ((x : ℕ) → is_alive ips now actor x ≡ contains actor.active_bypass x)
    → (update_peer_ips ips now actor).log ≡ actor.log
unfolding update_peer_ips
update_peer_ips_idle ips now actor unique same =
    let seen = retain_recent now (see ips now actor.peer_ip_last_seen) in
    ground (
      arith,
      same_set_intro (keys seen) actor.active_bypass
          (λ x. alive_lem ips now actor x unique ∙ same x),
    )
