-- ===== src/Core/Status/Listing.antt =====
-- The destinations in the response to Status (gnosis_vpn-lib/src/core/mod.rs).
use mathlib.Core.List.Perm
use mathlib.Core.List.{Perm}
use gnosis_vpn_client.Prelude.{
  ℕ, ◌≤◌, List, [], ◌∷◌, map, ◌≡◌, refl, arith, map_some, All, leb, leb→le, Bool-cases, inl, inr,
}
use gnosis_vpn_client.Prelude.Maps.{lookup}
use gnosis_vpn_client.Types.{Destination}
use gnosis_vpn_client.Core.State.{Core}
use gnosis_vpn_client.Core.Status.{
  Libraries, DestinationState, status, sort_by_id, insert_by_id, values, view,
}

-- The ids go up along the list.
abbrev IsAscending : List Destination → Type 0
IsAscending [] = Unit
IsAscending (d ∷ rest) = All (λ (e : Destination). d.id ≤ e.id) rest × IsAscending rest

insert_by_id-perm : (d : Destination) (l : List Destination) → Perm (insert_by_id d l) (d ∷ l)
unfolding insert_by_id
insert_by_id-perm d [] = Perm.refl (d ∷ [])
insert_by_id-perm d (e ∷ rest) = elim (Bool-cases (leb d.id e.id)) [
  | inl le ↦ rw le (Perm.refl (d ∷ e ∷ rest))
  | inr gt ↦ rw gt (Perm.trans (Perm.cons e (insert_by_id-perm d rest)) (Perm.swap d e rest))
]

sort_by_id-perm : (l : List Destination) → Perm (sort_by_id l) l
unfolding sort_by_id
sort_by_id-perm [] = Perm.refl []
sort_by_id-perm (d ∷ rest) =
    Perm.trans (insert_by_id-perm d (sort_by_id rest)) (Perm.cons d (sort_by_id-perm rest))

All-insert_by_id :
    (n : ℕ) (d : Destination) (l : List Destination)
    → n ≤ d.id
    → All (λ (e : Destination). n ≤ e.id) l
    → All (λ (e : Destination). n ≤ e.id) (insert_by_id d l)
unfolding insert_by_id
All-insert_by_id n d [] h a = (h, tt)
All-insert_by_id n d (e ∷ rest) h a = elim (Bool-cases (leb d.id e.id)) [
  | inl le ↦ rw le (h, a)
  | inr gt ↦ rw gt (a.0, All-insert_by_id n d rest h a.1)
]

All-weaken :
    (m n : ℕ) (l : List Destination)
    → m ≤ n
    → All (λ (e : Destination). n ≤ e.id) l
    → All (λ (e : Destination). m ≤ e.id) l
All-weaken m n [] h a = tt
All-weaken m n (e ∷ rest) h a = (omega arith, All-weaken m n rest h a.1)

insert_by_id-IsAscending :
    (d : Destination) (l : List Destination) → IsAscending l → IsAscending (insert_by_id d l)
unfolding insert_by_id
insert_by_id-IsAscending d [] a = (tt, tt)
insert_by_id-IsAscending d (e ∷ rest) a = elim (Bool-cases (leb d.id e.id)) [
  | inl le ↦ let below = leb→le _ _ le in rw le ((below, All-weaken d.id e.id rest below a.0), a)
  | inr gt ↦
      rw gt
        (All-insert_by_id e.id d rest (ground (arith, gt)) a.0, insert_by_id-IsAscending d rest a.1)
]

sort_by_id-IsAscending : (l : List Destination) → IsAscending (sort_by_id l)
unfolding sort_by_id
sort_by_id-IsAscending [] = tt
sort_by_id-IsAscending (d ∷ rest) =
    insert_by_id-IsAscending d (sort_by_id rest) (sort_by_id-IsAscending rest)

-- A list of destinations, each with the state of its route, if it has one.
abbrev described : Core → List Destination → List DestinationState
described c =
    map
      (λ d. record { destination = d; route_health = map_some view (lookup d.id c.route_healths) })

-- The destinations of a core, in the order of their ids.
abbrev pub IsListing : Core → List DestinationState → Type 0
IsListing c listed =
    (sorted : List Destination) × (listed ≡ described c sorted)
    × Perm sorted (values c.destinations)
    × IsAscending sorted

-- Status lists exactly the configured destinations, each as often as it is configured, in the order of
-- their ids and each with the state of the route that the core keeps under its id.
pub status-IsListing : (l : Libraries) (c : Core) → IsListing c (status l c).destinations
unfolding status
status-IsListing l c = (
  sort_by_id (values c.destinations),
  refl,
  sort_by_id-perm (values c.destinations),
  sort_by_id-IsAscending (values c.destinations),
)
