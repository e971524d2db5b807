-- ===== src/Balance.antt =====
-- gnosis_vpn-lib/src/balance.rs: the funding of the node. Amounts are numbers; the allocations are
-- an association list in which an allocator stands once.
use gnosis_vpn_client.Prelude.{
  ℕ, suc, ◌+◌, ◌*◌, ◌≤◌, ◌<◌, ◌≡◌, String, Bool, true, false, ◌&&◌, Option, none, some, ◌↔◌, List,
  [], ◌∷◌, ◌++◌, arith, ◌==◌, ltb, if◌then◌else◌,
}

pub data FundingIssue : Type 0 where
  unfunded channels_out_of_funds safe_out_of_funds safe_low_on_funds : FundingIssue
  node_underfunded node_low_on_funds : FundingIssue

pub data FundingTool : Type 0 where
  not_started in_progress completed_success : FundingTool
  completed_error : String → FundingTool

pub data CapacityAllocator : Type 0 where
  safe : CapacityAllocator
  peer : ℕ → CapacityAllocator

pub record Capacity : Type 0 where
  pub stake : ℕ
  pub expected_messages : ℕ
  pub min_guaranteed_messages : ℕ
  pub byte_capacity : ℕ

pub record BalanceRecommendation : Type 0 where
  pub wxhopr : ℕ
  pub xdai : ℕ

pub record PreSafe : Type 0 where
  pub node_xdai : ℕ
  pub node_wxhopr : ℕ

abbrev pub is_peer : CapacityAllocator × Capacity → Bool
is_peer (peer _, _) = true
is_peer (safe, _) = false

unfoldable pub total_stake : List (CapacityAllocator × Capacity) → ℕ
total_stake [] = 0
total_stake ((_, c) ∷ m) = c.stake + total_stake m

-- The sum over the channels. The source adds u64 values: a sum past u64 is outside the model.
unfoldable pub channel_messages : List (CapacityAllocator × Capacity) → ℕ
channel_messages [] = 0
channel_messages ((peer _, c) ∷ m) = c.min_guaranteed_messages + channel_messages m
channel_messages ((safe, c) ∷ m) = channel_messages m

unfoldable pub safe_capacity : List (CapacityAllocator × Capacity) → Option Capacity
safe_capacity [] = none
safe_capacity ((safe, c) ∷ m) = some c
safe_capacity ((peer _, c) ∷ m) = safe_capacity m

abbrev pub messages_of : Option Capacity → ℕ
messages_of none = 0
messages_of (some c) = c.min_guaranteed_messages

abbrev pub stake_of : Option Capacity → ℕ
stake_of none = 0
stake_of (some c) = c.stake

abbrev safe_issues : BalanceRecommendation → Option Capacity → List FundingIssue
safe_issues ideal c =
    if ltb (messages_of c) 1
    then safe_out_of_funds ∷ []
    else if ltb (stake_of c * 2) ideal.wxhopr
    then safe_low_on_funds ∷ []
    else []

abbrev node_issues : BalanceRecommendation → ℕ → List FundingIssue
node_issues ideal node_xdai =
    if ltb node_xdai 100_000_000_000
    then node_underfunded ∷ []
    else if ltb node_xdai ideal.xdai
    then node_low_on_funds ∷ []
    else []

unfoldable pub to_funding_issues :
    BalanceRecommendation → List (CapacityAllocator × Capacity) → ℕ → List FundingIssue
to_funding_issues ideal allocations node_xdai =
    if node_xdai == 0 && total_stake allocations == 0
    then unfunded ∷ []
    else (if ltb (channel_messages allocations) 1 then channels_out_of_funds ∷ [] else [])
      ++ (safe_issues ideal (safe_capacity allocations) ++ node_issues ideal node_xdai)

-- The place of an issue in the order of priority in which the source lists them.
abbrev pub priority : FundingIssue → ℕ
priority unfunded = 0
priority channels_out_of_funds = 1
priority safe_out_of_funds = 2
priority safe_low_on_funds = 3
priority node_underfunded = 4
priority node_low_on_funds = 5

-- Issues in order of priority, each once.
abbrev pub IsPrioritised : ℕ → List FundingIssue → Type 0
IsPrioritised n [] = Unit {0}
IsPrioritised n (x ∷ xs) = (n ≤ priority x) × IsPrioritised (suc (priority x)) xs

-- The issues come in order of priority, and none comes twice.
pub to_funding_issues-IsPrioritised :
    (ideal : BalanceRecommendation) (allocations : List (CapacityAllocator × Capacity))
    (node_xdai : ℕ)
    → IsPrioritised 0 (to_funding_issues ideal allocations node_xdai)
unfolding to_funding_issues
to_funding_issues-IsPrioritised ideal allocations node_xdai = ground arith

-- No issue is reported exactly when a channel and the safe can send a message, twice the safe's stake
-- reaches the ideal, and the node has the gas threshold and the ideal amount of xDai.
pub to_funding_issues_none :
    (ideal : BalanceRecommendation) (allocations : List (CapacityAllocator × Capacity))
    (node_xdai : ℕ)
    → let s = safe_capacity allocations in
      (to_funding_issues ideal allocations node_xdai ≡ []) ↔ (
        (0 < channel_messages allocations)
        × (0 < messages_of s)
        × (ideal.wxhopr ≤ stake_of s * 2)
        × (100_000_000_000 ≤ node_xdai)
        × (ideal.xdai ≤ node_xdai))
unfolding to_funding_issues
to_funding_issues_none ideal allocations node_xdai = (ground arith, ground arith)
