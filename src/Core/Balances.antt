-- ===== src/Core/Balances.antt =====
-- gnosis_vpn-lib/src/core/mod.rs, the command Balance in `on_event`, with its response
-- (gnosis_vpn-lib/src/command/balance_response.rs). The command only reads the state. The core keeps
-- numbers for the edge client and for the balances; what they stand for is an argument.
pub mod Answered
use gnosis_vpn_client.Prelude.{
  ℕ, String, Bool, true, false, Option, none, some, List, [], ◌∷◌, map, Result, ok, err, ◌&&◌, not,
  if◌then◌else◌, and_then, map_some,
}
use gnosis_vpn_client.Prelude.Maps.{lookup, insert}
use gnosis_vpn_client.Types.{Destination}
use gnosis_vpn_client.Balance.{
  CapacityAllocator, safe, peer, Capacity, BalanceRecommendation, FundingIssue, to_funding_issues,
}
use gnosis_vpn_client.Core.State.{Core}

pub record Info : Type 0 where
  pub node_address : ℕ
  pub node_peer_id : ℕ
  pub safe_address : ℕ

pub record Balances : Type 0 where
  pub node_xdai : ℕ
  pub safe_wxhopr : ℕ
  pub channels_out : List (ℕ × ℕ)

pub data ChannelBalance : Type 0 where
  unknown : ChannelBalance
  completed : (amount : ℕ) → ChannelBalance

pub record ChannelOut : Type 0 where
  pub address : ℕ
  pub balance : ChannelBalance
  pub matched_exit : Option ℕ

pub record CapacityEntry : Type 0 where
  pub allocator : CapacityAllocator
  pub capacity : Capacity

pub record BalanceResponse : Type 0 where
  pub node : ℕ
  pub safe_balance : ℕ
  pub channels_out : List ChannelOut
  pub info : Info
  pub capacity_allocations : Option (List CapacityEntry)
  pub ideal_balance : Option BalanceRecommendation
  pub funding_issues : Option (List FundingIssue)

-- Entries go in in the order in which the map is gone through; a later one of the same address
-- replaces an earlier one.
unfoldable pub addresses_after : List (ℕ × ℕ) → List (ℕ × Destination) → List (ℕ × ℕ)
addresses_after taken [] = taken
addresses_after taken ((id, dest) ∷ rest) = addresses_after (insert dest.address id taken) rest

unfoldable pub addr_to_id : List (ℕ × Destination) → List (ℕ × ℕ)
unfolding addresses_after
addr_to_id destinations = addresses_after [] destinations

unfoldable pub from_balances : List (ℕ × ℕ) → List (ℕ × Destination) → List ChannelOut
unfolding addr_to_id lookup
from_balances channels_out destinations =
    map
      (λ ch. record {
        address = ch.0;
        balance = completed ch.1;
        matched_exit = lookup ch.0 (addr_to_id destinations);
      })
      channels_out

abbrev pub is_peer_entry : CapacityEntry → Bool
is_peer_entry e = elim e.allocator [ peer p ↦ true | safe ↦ false ]

unfoldable pub insert_entry : CapacityEntry → List CapacityEntry → List CapacityEntry
insert_entry e [] = e ∷ []
insert_entry e (f ∷ rest) =
    let later = insert_entry e rest in
    if is_peer_entry e && not (is_peer_entry f) then f ∷ later else e ∷ f ∷ rest

-- The stable `sort_by_key`: safe first, then peers.
unfoldable pub sort_entries : List CapacityEntry → List CapacityEntry
unfolding insert_entry
sort_entries [] = []
sort_entries (e ∷ rest) = insert_entry e (sort_entries rest)

abbrev pub entries : List (CapacityAllocator × Capacity) → List CapacityEntry
entries m = map (λ e. record { allocator = e.0; capacity = e.1 }) m

-- `BalanceResponse::build`.
unfoldable pub build :
    Info
    → Balances
    → List (ℕ × Destination)
    → Option (List (CapacityAllocator × Capacity))
    → Option BalanceRecommendation
    → Option (List FundingIssue)
    → BalanceResponse
unfolding from_balances sort_entries
build info balances destinations capacity_allocations ideal_balance funding_issues = record {
  node = balances.node_xdai;
  safe_balance = balances.safe_wxhopr;
  channels_out = from_balances balances.channels_out destinations;
  info = info;
  capacity_allocations = map_some (λ m. sort_entries (entries m)) capacity_allocations;
  ideal_balance = ideal_balance;
  funding_issues = funding_issues;
}

-- What the numbers stand for.
pub record Clients : Type 0 where
  pub info_of : ℕ → Info
  pub balances_of : ℕ → Balances

abbrev pub issues_of : Core → Balances → Option (List FundingIssue)
issues_of c balances = and_then c.ideal_balance_recommendation λ ideal.
    map_some (λ allocs. to_funding_issues ideal allocs balances.node_xdai) c.capacity_allocations

abbrev pub balance_answer : Clients → Core → Option ℕ → Option ℕ → Result BalanceResponse String
balance_answer l c (some hopr) (some bals) = ok (
    build (l.info_of hopr) (l.balances_of bals) c.destinations c.capacity_allocations
      c.ideal_balance_recommendation (issues_of c (l.balances_of bals)))
balance_answer l c (some hopr) none = err "balance data not yet available"
balance_answer l c none bals = err "balance data not yet available"

unfoldable pub command_balance : Clients → Core → Result BalanceResponse String
unfolding build
command_balance l c = balance_answer l c c.hopr c.balances
