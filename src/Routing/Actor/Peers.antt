-- ===== src/Routing/Actor/Peers.antt =====
-- gnosis_vpn-root/src/routing_actor.rs: the peers that `update_peer_ips` keeps, their routes and what
-- the firewall is told of them.
use gnosis_vpn_client.Prelude.{
  ℕ, ◌-◌, Bool, ◌||◌, Option, none, some, List, [], ◌∷◌, ◌≡◌, refl, arith, ltb, if◌then◌else◌,
  contains, is_some,
}
use gnosis_vpn_client.Prelude.Maps.{lookup, insert, keys, lookup-insert}
use gnosis_vpn_client.Prelude.Sets.{same_set-contains, contains-keys}
use gnosis_vpn_client.Routing.Actor.{
  Actor, Effect, did, for_each, see, retain_recent, peer_ip_hysteresis_secs, update_peer_ips,
  change_bypass,
}

-- A key stands once.
abbrev pub IsUnique : List (ℕ × ℕ) → Type 0
IsUnique [] = Unit {0}
IsUnique ((k, v) ∷ m) = (lookup k m ≡ none) × IsUnique m

-- What is left of an entry after the hysteresis.
abbrev pub recent : ℕ → Option ℕ → Option ℕ
recent now (some t) = if ltb (now - t) peer_ip_hysteresis_secs then some t else none
recent now none = none

insert-IsUnique : (k v : ℕ) (m : List (ℕ × ℕ)) → IsUnique m → IsUnique (insert k v m)
unfolding insert lookup
insert-IsUnique k v [] unique = (refl, tt)
insert-IsUnique k v ((j, w) ∷ m) unique =
    ground (arith, insert-IsUnique k v m unique.1, lookup-insert k j v m)

pub see-IsUnique :
    (ips : List ℕ) (now : ℕ) (seen : List (ℕ × ℕ)) → IsUnique seen → IsUnique (see ips now seen)
see-IsUnique [] now seen unique = unique
see-IsUnique (ip ∷ ips) now seen unique =
    see-IsUnique ips now (insert ip now seen) (insert-IsUnique ip now seen unique)

lookup-see :
    (ips : List ℕ) (now : ℕ) (seen : List (ℕ × ℕ)) (ip : ℕ)
    → lookup ip (see ips now seen) ≡ (if contains ips ip then some now else lookup ip seen)
lookup-see [] now seen ip = refl
lookup-see (x ∷ ips) now seen ip =
    ground (arith, lookup-see ips now (insert x now seen) ip, lookup-insert x ip now seen)

lookup-retain_recent :
    (now : ℕ) (seen : List (ℕ × ℕ)) (ip : ℕ)
    → IsUnique seen
    → lookup ip (retain_recent now seen) ≡ recent now (lookup ip seen)
unfolding lookup retain_recent
lookup-retain_recent now [] ip unique = refl
lookup-retain_recent now ((j, t) ∷ seen) ip unique =
    ground
      (arith, lookup-retain_recent now seen ip unique.1, lookup-retain_recent now seen j unique.1)

pub retain_recent-IsUnique :
    (now : ℕ) (seen : List (ℕ × ℕ)) → IsUnique seen → IsUnique (retain_recent now seen)
unfolding retain_recent
retain_recent-IsUnique now [] unique = tt
retain_recent-IsUnique now ((j, t) ∷ seen) unique =
    ground
      (arith, lookup-retain_recent now seen j unique.1, retain_recent-IsUnique now seen unique.1)

-- The addresses that are seen now, or were less than the hysteresis ago.
abbrev pub is_alive : List ℕ → ℕ → Actor → ℕ → Bool
is_alive ips now actor ip =
    contains ips ip || is_some (recent now (lookup ip actor.peer_ip_last_seen))

pub alive_lem :
    (ips : List ℕ) (now : ℕ) (actor : Actor) (ip : ℕ)
    → IsUnique actor.peer_ip_last_seen
    → contains (keys (retain_recent now (see ips now actor.peer_ip_last_seen))) ip
      ≡ is_alive ips now actor ip
alive_lem ips now actor ip unique = ground (
  arith,
  contains-keys (retain_recent now (see ips now actor.peer_ip_last_seen)) ip,
  lookup-retain_recent now (see ips now actor.peer_ip_last_seen) ip
      (see-IsUnique ips now actor.peer_ip_last_seen unique),
  lookup-see ips now actor.peer_ip_last_seen ip,
)

for_each-active :
    (call : ℕ → Effect) (ips : List ℕ) (actor : Actor)
    → ((for_each call ips actor).active_bypass ≡ actor.active_bypass)
      × ((for_each call ips actor).applied_policy ≡ actor.applied_policy)
      × ((for_each call ips actor).peer_ip_last_seen ≡ actor.peer_ip_last_seen)
for_each-active call [] actor = (refl, refl, refl)
for_each-active call (ip ∷ ips) actor = for_each-active call ips (did (call ip) actor)

pub change_bypass-active :
    (alive : List ℕ) (actor : Actor) → (change_bypass alive actor).active_bypass ≡ alive
change_bypass-active alive actor = ground arith

-- After an update the bypass holds exactly the addresses that it reports and those that were last
-- reported less than 300 seconds ago, also when nothing had to change.
pub update_peer_ips-hysteresis :
    (ips : List ℕ) (now : ℕ) (actor : Actor) (ip : ℕ)
    → IsUnique actor.peer_ip_last_seen
    → contains (update_peer_ips ips now actor).active_bypass ip ≡ is_alive ips now actor ip
unfolding update_peer_ips
update_peer_ips-hysteresis ips now actor ip unique =
    let seen = retain_recent now (see ips now actor.peer_ip_last_seen) in
    ground (
      arith,
      alive_lem ips now actor ip unique,
      same_set-contains (keys seen) actor.active_bypass ip,
      change_bypass-active (keys seen) (record actor { peer_ip_last_seen = seen }),
    )
