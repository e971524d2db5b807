-- ===== src/Core/Status.antt =====
-- gnosis_vpn-lib/src/core/mod.rs, the command Status in `on_event`, with its response
-- (gnosis_vpn-lib/src/command/mod.rs). The command only reads the state. The state of the edge client,
-- the xDAI among the balances and the node's address are arguments; texts of HOPR states are numbers.
pub mod Listing
use Prim.Native.String.{◌++◌}
use gnosis_vpn_client.Prelude.{
  ℕ, String, Bool, true, false, Option, none, some, List, [], ◌∷◌, map, leb, if◌then◌else◌,
  and_then, map_some, unwrap_or,
}
use gnosis_vpn_client.Prelude.Maps.{lookup}
use gnosis_vpn_client.Types.{Destination, RouteHealthState}
use gnosis_vpn_client.RouteHealth.Tracker.{RouteHealth}
use gnosis_vpn_client.Balance.{
  FundingIssue, FundingTool, not_started, in_progress, completed_success, completed_error,
  BalanceRecommendation, PreSafe, to_funding_issues,
}
use gnosis_vpn_client.Connection.Up
use gnosis_vpn_client.Connection.Up.{Up}
use gnosis_vpn_client.Connection.Down
use gnosis_vpn_client.Connection.Down.{Down}
use gnosis_vpn_client.Core.State.{
  Core, Querying, init, success, error, CheckingSafe, Phase, initial, checking_safe, deploying_safe,
  starting, hopr_syncing, hopr_running, connecting, connected, shutting_down,
}

pub data RunMode : Type 0 where
  init_mode : (last_error : Option String) → RunMode
  preparing_safe :
      (node_address node_xdai node_wxhopr : ℕ)
      → (funding_tool failure : Option String) → Option BalanceRecommendation
      → RunMode
  deploying : (node_address : ℕ) → RunMode
  warmup : (hopr_init_status hopr_status : Option ℕ) → (last_error : Option String) → RunMode
  running : (hopr_status : Option ℕ) → (funding_issues : Option (List FundingIssue)) → RunMode
  shutdown : RunMode

pub record ConnectingInfo : Type 0 where
  pub destination_id : ℕ
  pub since : ℕ
  pub phase : Up.Phase

-- `ReconnectingInfo` has the same fields.
abbrev pub ReconnectingInfo : Type 0
ReconnectingInfo = ConnectingInfo

pub record ConnectedInfo : Type 0 where
  pub destination_id : ℕ
  pub since : ℕ

pub record DisconnectingInfo : Type 0 where
  pub destination_id : ℕ
  pub since : ℕ
  pub phase : Down.Phase

pub record RouteHealthView : Type 0 where
  pub state : RouteHealthState
  pub last_error : Option String
  pub checking_since : Option ℕ
  pub consecutive_failures : ℕ

pub record DestinationState : Type 0 where
  pub destination : Destination
  pub route_health : Option RouteHealthView

pub record StatusResponse : Type 0 where
  pub run_mode : RunMode
  pub destinations : List DestinationState
  pub target_destination : Option ℕ
  pub connecting_info : Option ConnectingInfo
  pub reconnecting : Option ReconnectingInfo
  pub connected_info : Option ConnectedInfo
  pub disconnecting : List DisconnectingInfo

-- What the command asks of the libraries.
pub record Libraries : Type 0 where
  pub node_address : ℕ
  pub hopr_status : ℕ → ℕ
  pub node_xdai : ℕ → ℕ

abbrev balance_of : Querying PreSafe → Option PreSafe
balance_of (success b) = some b
balance_of init = none
balance_of (error e) = none

-- The three errors of the phase, one after the other; an empty text is no error.
abbrev balance_error : Querying PreSafe → String
balance_error (error e) = e
balance_error init = ""
balance_error (success b) = ""

abbrev with_query_error : {T : Type 0} → Querying T → String → String
with_query_error (error e) errors = errors ++ (" " ++ e)
with_query_error init errors = errors
with_query_error (success x) errors = errors

abbrev with_deploy_error : Option String → String → String
with_deploy_error (some e) errors = errors ++ (" " ++ e)
with_deploy_error none errors = errors

abbrev unless_empty : String → Option String
unless_empty String.[] = none
unless_empty errors = some errors

unfoldable pub safe_error : CheckingSafe → Option String
safe_error c = unless_empty (
    with_deploy_error c.deploy_safe_error
      (with_query_error c.query_safe (balance_error c.node_balance)))

unfoldable pub funding_tool_text : FundingTool → Option String
funding_tool_text not_started = none
funding_tool_text in_progress = some "Funding tool running"
funding_tool_text completed_success = some "Funding tool ran successfully"
funding_tool_text (completed_error e) = some ("Funding tool error: " ++ e)

unfoldable pub funding_issues : Libraries → Core → Option (List FundingIssue)
unfolding to_funding_issues
funding_issues l c = and_then c.ideal_balance_recommendation λ ideal.
    and_then c.capacity_allocations
      λ allocs. map_some (λ bals. to_funding_issues ideal allocs (l.node_xdai bals)) c.balances

unfoldable pub run_mode_of : Libraries → Core → Phase → RunMode
unfolding safe_error funding_tool_text funding_issues
run_mode_of l c (initial last_error) = init_mode last_error
run_mode_of l c (checking_safe s) =
    let balance = balance_of s.node_balance in
    preparing_safe l.node_address (unwrap_or (map_some (λ b. b.node_xdai) balance) 0)
      (unwrap_or (map_some (λ b. b.node_wxhopr) balance) 0) (funding_tool_text s.funding_tool)
      (safe_error s) c.minimum_balance_recommendation
run_mode_of l c (deploying_safe b q) = deploying l.node_address
run_mode_of l c (starting edgli_init_state last_error) = warmup edgli_init_state none last_error
run_mode_of l c hopr_syncing = warmup none (map_some l.hopr_status c.hopr) none
run_mode_of l c hopr_running = running (map_some l.hopr_status c.hopr) (funding_issues l c)
run_mode_of l c (connecting conn) = running (map_some l.hopr_status c.hopr) (funding_issues l c)
run_mode_of l c (connected conn) = running (map_some l.hopr_status c.hopr) (funding_issues l c)
run_mode_of l c shutting_down = shutdown

abbrev pub connecting_conn : Phase → Option Up
connecting_conn (connecting conn) = some conn
connecting_conn _ = none

abbrev pub connected_conn : Phase → Option Up
connected_conn (connected conn) = some conn
connected_conn _ = none

-- `reconnecting`: the time is that of the change that made the core reconnect.
abbrev reconnecting_of : Option ℕ → Option Up → Option ReconnectingInfo
reconnecting_of since conn = and_then since λ s.
    map_some (λ c. record { destination_id = c.destination.id; since = s; phase = c.phase }) conn

-- `connecting`, unless the core is reconnecting.
abbrev connecting_of : Option ReconnectingInfo → Option Up → Option ConnectingInfo
connecting_of (some info) conn = none
connecting_of none conn =
    map_some (λ c. record { destination_id = c.destination.id; since = c.since; phase = c.phase })
      conn

abbrev pub disconnecting_info : Down → DisconnectingInfo
disconnecting_info d = record {
  destination_id = d.destination.id;
  since = d.since;
  phase = d.phase;
}

-- `RouteHealthView::from`.
abbrev pub view : RouteHealth → RouteHealthView
view rh = record {
  state = rh.state;
  last_error = rh.exit_last_error;
  checking_since = rh.checking_since;
  consecutive_failures = rh.exit_failures;
}

insert_by_id : Destination → List Destination → List Destination
insert_by_id d [] = d ∷ []
insert_by_id d (e ∷ rest) =
    let later = insert_by_id d rest in if leb d.id e.id then d ∷ e ∷ rest else e ∷ later

-- `sort_unstable_by`, where no two destinations have the same id.
unfoldable pub sort_by_id : List Destination → List Destination
unfolding insert_by_id
sort_by_id [] = []
sort_by_id (d ∷ rest) = insert_by_id d (sort_by_id rest)

abbrev pub values {ℓ} : {V : Type ℓ} → List (ℕ × V) → List V
values m = map (λ e. e.1) m

unfoldable pub status : Libraries → Core → StatusResponse
unfolding run_mode_of sort_by_id lookup
status l c =
    let reconnecting = reconnecting_of c.reconnecting_since (connecting_conn c.phase) in
    record {
      run_mode = run_mode_of l c c.phase;
      destinations =
          map
            (λ d. record {
              destination = d;
              route_health = map_some view (lookup d.id c.route_healths);
            })
            (sort_by_id (values c.destinations));
      target_destination = map_some (λ d. d.id) c.target_destination;
      connecting_info = connecting_of reconnecting (connecting_conn c.phase);
      reconnecting = reconnecting;
      connected_info =
          map_some (λ conn. record { destination_id = conn.destination.id; since = conn.since })
            (connected_conn c.phase);
      disconnecting = map disconnecting_info c.ongoing_disconnections;
    }
