-- ===== src/Core/Balances/Answered.antt =====
-- What the command Balance answers (gnosis_vpn-lib/src/core/mod.rs and
-- gnosis_vpn-lib/src/command/balance_response.rs).
use mathlib.Core.Path.{◌∙◌, subst}
use mathlib.Core.List.Perm
use mathlib.Core.List.{Perm, Mem, mem-cons_self, mem-cons_of_mem}
use gnosis_vpn_client.Prelude.{
  ℕ, String, true, Option, none, some, List, [], ◌∷◌, map, Result, ok, err, ◌≡◌, ◌≢◌, ◌⊎◌, inl, inr,
  refl, arith, ap, sym, All, Bool-cases, ◌==◌, ==_iff, map_some, ◌&&◌, not,
}
use gnosis_vpn_client.Prelude.Maps.{lookup, insert, lookup-insert}
use gnosis_vpn_client.Types.{Destination}
use gnosis_vpn_client.Balance.{CapacityAllocator, Capacity}
use gnosis_vpn_client.Core.State.{Core}
use gnosis_vpn_client.Core.Balances.{
  Clients, BalanceResponse, ChannelOut, ChannelBalance, completed, CapacityEntry, command_balance,
  balance_answer, build, addr_to_id, addresses_after, from_balances, is_peer_entry, insert_entry,
  sort_entries, entries,
}

-- An id that stands for an address: that of a destination with the address, or none if there is no
-- such destination.
abbrev IsMatched : List (ℕ × Destination) → ℕ → Option ℕ → Type 0
IsMatched destinations address (some id) =
    (d : Destination) × Mem (id, d) destinations × (d.address ≡ address)
IsMatched destinations address none =
    All (λ (e : ℕ × Destination). e.1.address ≢ address) destinations

-- The id is of one of the destinations, or of those that were entered before them.
abbrev IsFound : List (ℕ × ℕ) → List (ℕ × Destination) → ℕ → Option ℕ → Type 0
IsFound taken destinations address r =
    ((id : ℕ) × (d : Destination) × (r ≡ some id)
      × Mem (id, d) destinations
      × (d.address ≡ address))
    ⊎ (All (λ (e : ℕ × Destination). e.1.address ≢ address) destinations
        × (r ≡ lookup address taken))

insert-IsFound :
    (taken : List (ℕ × ℕ)) (id : ℕ) (dest : Destination) (rest : List (ℕ × Destination)) (a : ℕ)
    (r : Option ℕ)
    → IsFound (insert dest.address id taken) rest a r
    → IsFound taken ((id, dest) ∷ rest) a r
insert-IsFound taken id dest rest a r (inl (i, d, eq, mem, same)) =
    inl (i, d, eq, mem-cons_of_mem (id, dest) mem, same)
insert-IsFound taken id dest rest a r (inr (absent, eq)) = elim (Bool-cases (dest.address == a)) [
  | inl same ↦ inl (
    id,
    dest,
    eq ∙ (lookup-insert dest.address a id taken ∙ rw same refl),
    mem-cons_self,
    (==_iff _ _).0 same,
  )
  | inr differs ↦ inr (
    ((λ e. ground (arith, e, differs)), absent),
    eq ∙ (lookup-insert dest.address a id taken ∙ rw differs refl),
  )
]

addresses_after-IsFound :
    (taken : List (ℕ × ℕ)) (destinations : List (ℕ × Destination)) (a : ℕ)
    → IsFound taken destinations a (lookup a (addresses_after taken destinations))
unfolding addresses_after
addresses_after-IsFound taken [] a = inr (tt, refl)
addresses_after-IsFound taken ((id, dest) ∷ rest) a =
    insert-IsFound taken id dest rest a _
      (addresses_after-IsFound (insert dest.address id taken) rest a)

IsFound-IsMatched :
    (destinations : List (ℕ × Destination)) (a : ℕ) (r : Option ℕ)
    → IsFound [] destinations a r
    → IsMatched destinations a r
unfolding lookup
IsFound-IsMatched destinations a (some id) (inl (i, d, eq, mem, same)) =
    subst (IsMatched destinations a) (sym eq) (d, mem, same)
IsFound-IsMatched destinations a none (inl (i, d, eq, mem, same)) = cc
IsFound-IsMatched destinations a (some id) (inr (absent, eq)) = cc
IsFound-IsMatched destinations a none (inr (absent, eq)) = absent

-- Each channel is listed with its amount and with a destination that has its address.
abbrev AllMatched : List (ℕ × Destination) → List (ℕ × ℕ) → List ChannelOut → Type 0
AllMatched destinations channels out =
    (map {B = ℕ × ChannelBalance} (λ o. (o.address, o.balance)) out
      ≡ map {B = ℕ × ChannelBalance} (λ ch. (ch.0, completed ch.1)) channels)
    × All (λ (o : ChannelOut). IsMatched destinations o.address o.matched_exit) out

from_balances-AllMatched :
    (destinations : List (ℕ × Destination)) (channels : List (ℕ × ℕ))
    → AllMatched destinations channels (from_balances channels destinations)
unfolding from_balances addr_to_id
from_balances-AllMatched destinations [] = (refl, tt)
from_balances-AllMatched destinations (ch ∷ rest) =
    let (same, matched) = from_balances-AllMatched destinations rest in
    (
      ap (λ l. (ch.0, completed ch.1) ∷ l) same,
      (
        IsFound-IsMatched destinations ch.0 _ (addresses_after-IsFound [] destinations ch.0),
        matched,
      ),
    )

-- No entry of the safe stands after one of a peer.
abbrev IsSafeFirst : List CapacityEntry → Type 0
IsSafeFirst [] = Unit
IsSafeFirst (e ∷ rest) =
    (is_peer_entry e ≡ true → All (λ (f : CapacityEntry). is_peer_entry f ≡ true) rest)
    × IsSafeFirst rest

insert_entry-perm : (e : CapacityEntry) (l : List CapacityEntry) → Perm (insert_entry e l) (e ∷ l)
unfolding insert_entry
insert_entry-perm e [] = Perm.refl (e ∷ [])
insert_entry-perm e (f ∷ rest) = elim (Bool-cases (is_peer_entry e && not (is_peer_entry f))) [
  | inl later ↦ rw later (Perm.trans (Perm.cons f (insert_entry-perm e rest)) (Perm.swap e f rest))
  | inr here ↦ rw here (Perm.refl (e ∷ f ∷ rest))
]

sort_entries-perm : (l : List CapacityEntry) → Perm (sort_entries l) l
unfolding sort_entries
sort_entries-perm [] = Perm.refl []
sort_entries-perm (e ∷ rest) =
    Perm.trans (insert_entry-perm e (sort_entries rest)) (Perm.cons e (sort_entries-perm rest))

abbrev AllPeers : List CapacityEntry → Type 0
AllPeers l = All (λ (f : CapacityEntry). is_peer_entry f ≡ true) l

insert_entry-IsSafeFirst :
    (e : CapacityEntry) (l : List CapacityEntry) → IsSafeFirst l → IsSafeFirst (insert_entry e l)
unfolding insert_entry
insert_entry-IsSafeFirst e [] s = ((λ p. tt), tt)
insert_entry-IsSafeFirst e (f ∷ rest) s = elim (Bool-cases (is_peer_entry e)) [
  | inl p ↦ elim (Bool-cases (is_peer_entry f)) [
    | inl q ↦ rw p (rw q ((λ _. (q, s.0 q)), s))
    | inr q ↦ rw p (rw q ((λ r. cc), insert_entry-IsSafeFirst e rest s.1))
  ]
  | inr p ↦ rw p ((λ q. cc), s)
]

sort_entries-IsSafeFirst : (l : List CapacityEntry) → IsSafeFirst (sort_entries l)
unfolding sort_entries
sort_entries-IsSafeFirst [] = tt
sort_entries-IsSafeFirst (e ∷ rest) =
    insert_entry-IsSafeFirst e (sort_entries rest) (sort_entries-IsSafeFirst rest)

-- The entries of the response are those of the core, if it has any.
abbrev IsListed :
    Option (List (CapacityAllocator × Capacity)) → Option (List CapacityEntry) → Type 0
IsListed none none = Unit
IsListed (some m) (some l) = Perm l (entries m) × IsSafeFirst l
IsListed none (some l) = ⊥
IsListed (some m) none = ⊥

sorted-IsListed :
    (m : Option (List (CapacityAllocator × Capacity)))
    → IsListed m (map_some (λ k. sort_entries (entries k)) m)
sorted-IsListed none = tt
sorted-IsListed (some m) = (sort_entries-perm (entries m), sort_entries-IsSafeFirst (entries m))

-- What an answer to Balance tells of the core.
abbrev pub IsAnswer : Clients → Core → Result BalanceResponse String → Type 0
IsAnswer l c (ok r) =
    (hopr : ℕ) × (bals : ℕ) × (c.hopr ≡ some hopr)
    × (c.balances ≡ some bals)
    × AllMatched c.destinations (l.balances_of bals).channels_out r.channels_out
    × IsListed c.capacity_allocations r.capacity_allocations
IsAnswer l c (err e) = (c.hopr ≡ none) ⊎ (c.balances ≡ none)

balance_answer-IsAnswer :
    (l : Clients) (c : Core) (hopr bals : Option ℕ)
    → c.hopr ≡ hopr
    → c.balances ≡ bals
    → IsAnswer l c (balance_answer l c hopr bals)
unfolding build
balance_answer-IsAnswer l c none bals h b = inl h
balance_answer-IsAnswer l c (some hopr) none h b = inr b
balance_answer-IsAnswer l c (some hopr) (some bals) h b = (
  hopr,
  bals,
  h,
  b,
  from_balances-AllMatched c.destinations (l.balances_of bals).channels_out,
  sorted-IsListed c.capacity_allocations,
)

-- Balance is refused only while the edge client or the balances are missing. Otherwise it lists every
-- channel with its amount; a channel is matched with a destination that has its address, and is left
-- unmatched only if no destination has it; and the entries of the capacities, if the core has them,
-- are the allocations of the core with none of the safe after one of a peer.
pub command_balance-IsAnswer : (l : Clients) (c : Core) → IsAnswer l c (command_balance l c)
unfolding command_balance
command_balance-IsAnswer l c = balance_answer-IsAnswer l c c.hopr c.balances refl refl
