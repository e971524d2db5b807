-- ===== src/Core/Runners.antt =====
-- gnosis_vpn-lib/src/core/mod.rs: results of the runners that watch the node (peers, channels,
-- balances, the edge client itself). Maps are association lists in any order.
use gnosis_vpn_client.Prelude.{
  ℕ, ◌+◌, ◌*◌, String, Bool, true, false, ◌&&◌, ◌||◌, Option, none, some, List, [], ◌∷◌, ◌++◌, map,
  Result, ok, err, any, is_some, if◌then◌else◌,
}
use gnosis_vpn_client.Prelude.Maps.{lookup}
use gnosis_vpn_client.Types.{Destination, HealthCheckIntervals, from_secs, from_millis}
use gnosis_vpn_client.Runtime.{
  Env, ideal_balance_recommendation, minimum_balance_recommendation, capacity_allocations, balances,
  node_wxhopr_withdraw, wait_for_running, announced_peers, retry_reactor,
}
use gnosis_vpn_client.RouteHealth.Tracker.{
  RouteHealth, any_needs_peers, any_needs_channel, needs_channel_query,
}
use gnosis_vpn_client.RouteHealth.Transitions.{peers, any_channel_available}
use gnosis_vpn_client.Balance.{BalanceRecommendation, CapacityAllocator, Capacity, is_peer}
use gnosis_vpn_client.Core.State.{
  Core, hopr_syncing, hopr_running, SafeModule, update_peer_ips, to_root, send, spawn_runner,
  spawn_with,
}
use gnosis_vpn_client.Core.Target.{act_on_target}
use gnosis_vpn_client.Core.Safe.{retry_hopr_runner}

abbrev pub routes : Core → List RouteHealth
routes c = map (λ e. e.1) c.route_healths

-- `any_channel_available` on every route that has a destination.
abbrev channel_one :
    Option Destination → HealthCheckIntervals → RouteHealth → Env → RouteHealth × Env
channel_one none intervals rh e = (rh, e)
channel_one (some dest) intervals rh e = any_channel_available rh dest intervals e

unfoldable pub channels_all :
    List (ℕ × Destination)
    → HealthCheckIntervals
    → List (ℕ × RouteHealth)
    → Env
    → List (ℕ × RouteHealth) × Env
unfolding lookup any_channel_available
channels_all dests intervals [] e = ([], e)
channels_all dests intervals ((id, rh) ∷ m) e =
    let (rh', e') = channel_one (lookup id dests) intervals rh e in
    let (m', last) = channels_all dests intervals m e' in ((id, rh') ∷ m', last)

-- Fresh peers on every route that has a destination, half a second apart. A route that now waits
-- for a channel takes one that is already there.
abbrev peers_one :
    Option Destination
    → HealthCheckIntervals
    → List ℕ
    → Bool
    → ℕ
    → RouteHealth
    → Env
    → RouteHealth × Env
peers_one none intervals addresses has_channels idx rh e = (rh, e)
peers_one (some dest) intervals addresses has_channels idx rh e =
    let (rh', e') = peers rh addresses dest intervals (from_millis (idx * 500)) e in
    if has_channels && needs_channel_query rh'
    then any_channel_available rh' dest intervals e'
    else (rh', e')

unfoldable pub peers_all :
    List (ℕ × Destination)
    → HealthCheckIntervals
    → List ℕ
    → Bool
    → ℕ
    → List (ℕ × RouteHealth)
    → Env
    → List (ℕ × RouteHealth) × Env
unfolding lookup peers any_channel_available needs_channel_query
peers_all dests intervals addresses has_channels idx [] e = ([], e)
peers_all dests intervals addresses has_channels idx ((id, rh) ∷ m) e =
    let (rh', e') = peers_one (lookup id dests) intervals addresses has_channels idx rh e in
    let (m', last) = peers_all dests intervals addresses has_channels (idx + 1) m e' in
    ((id, rh') ∷ m', last)

abbrev pub put_routes : List (ℕ × RouteHealth) × Env → Core → Core
put_routes (m, e) c = record c { route_healths = m; env = e }

abbrev pub has_channels : Option (List (CapacityAllocator × Capacity)) → Bool
has_channels none = false
has_channels (some allocations) = any is_peer allocations

unfoldable pub spawn_announced_peers : ℕ → Core → Core
unfolding spawn_with
spawn_announced_peers delay c = spawn_with c.hopr c.cancel_announced_peers delay announced_peers c

unfoldable pub spawn_capacity_allocations_runner : ℕ → Core → Core
unfolding spawn_with
spawn_capacity_allocations_runner delay c =
    spawn_with c.hopr c.cancel_on_shutdown delay capacity_allocations c

unfoldable pub spawn_ideal_balance_recommendation_runner : ℕ → Core → Core
unfolding spawn_with
spawn_ideal_balance_recommendation_runner delay c =
    spawn_with c.hopr c.cancel_on_shutdown delay ideal_balance_recommendation c

unfoldable pub spawn_minimum_balance_recommendation_runner : ℕ → Core → Core
unfolding spawn_with
spawn_minimum_balance_recommendation_runner delay c =
    spawn_with c.incentive_operations c.cancel_on_shutdown delay minimum_balance_recommendation c

unfoldable pub spawn_balances_runner : ℕ → Core → Core
unfolding spawn_with
spawn_balances_runner delay c = spawn_with c.hopr c.cancel_balances delay balances c

abbrev pub both : Option ℕ → Option ℕ → Option ℕ
both (some a) b = b
both none b = none

unfoldable pub spawn_node_wxhopr_withdraw_runner : ℕ → Core → Core
unfolding spawn_with
spawn_node_wxhopr_withdraw_runner delay c =
    spawn_with (both c.incentive_operations c.hopr) c.cancel_node_wxhopr delay node_wxhopr_withdraw
      c

unfoldable pub spawn_wait_for_running : ℕ → Core → Core
unfolding spawn_with
spawn_wait_for_running delay c = spawn_with c.hopr c.cancel_on_shutdown delay wait_for_running c

abbrev pub routes_with_channel : Bool → Option ℕ → Core → Core
routes_with_channel true (some hopr) c =
    put_routes (channels_all c.destinations c.intervals c.route_healths c.env) c
routes_with_channel _ _ c = c

unfoldable pub on_capacity_allocations :
    Result (List (CapacityAllocator × Capacity)) String → Core → Core
unfolding channels_all spawn_capacity_allocations_runner any_needs_channel
on_capacity_allocations (ok allocations) c =
    let c' =
      routes_with_channel (any is_peer allocations) c.hopr
        (record c { capacity_allocations = some allocations }) in
    spawn_capacity_allocations_runner
      (if any_needs_channel (routes c') then from_secs 10 else from_secs 60) c'
on_capacity_allocations (err e) c = spawn_capacity_allocations_runner (from_secs 10) c

-- A peer is its address and its addresses on the internet.
abbrev pub PeerInfo : Type 0
PeerInfo = ℕ × List ℕ

abbrev pub ips_of : List PeerInfo → List ℕ
ips_of [] = []
ips_of ((_, ips) ∷ rest) = ips ++ ips_of rest

abbrev pub routes_with_peers : List ℕ → Option ℕ → Core → Core
routes_with_peers addresses none c = c
routes_with_peers addresses (some hopr) c =
    put_routes
      (peers_all c.destinations c.intervals addresses (has_channels c.capacity_allocations) 0
        c.route_healths c.env)
      c

unfoldable pub on_announced_peers : Result (List PeerInfo) String → Core → Core
unfolding peers_all spawn_announced_peers any_needs_peers send
on_announced_peers (ok peer_map) c =
    let c' =
      send (to_root (update_peer_ips (ips_of peer_map)))
        (routes_with_peers (map (λ p. p.0) peer_map) c.hopr c) in
    spawn_announced_peers
      (if is_some c'.target_destination || any_needs_peers (routes c')
        then from_secs 10
        else from_secs 90)
      c'
on_announced_peers (err e) c = spawn_announced_peers (from_secs 10) c

unfoldable pub on_minimum_balance_recommendation : Result BalanceRecommendation String → Core → Core
unfolding spawn_minimum_balance_recommendation_runner
on_minimum_balance_recommendation (ok rec) c = record c {
  minimum_balance_recommendation = some rec;
}
on_minimum_balance_recommendation (err e) c =
    spawn_minimum_balance_recommendation_runner (from_secs 10) c

unfoldable pub on_ideal_balance_recommendation : Result BalanceRecommendation String → Core → Core
unfolding spawn_ideal_balance_recommendation_runner
on_ideal_balance_recommendation (ok rec) c =
    spawn_ideal_balance_recommendation_runner (from_secs 60)
      (record c { ideal_balance_recommendation = some rec })
on_ideal_balance_recommendation (err e) c =
    spawn_ideal_balance_recommendation_runner (from_secs 10) c

unfoldable pub on_balances : Result ℕ String → Core → Core
unfolding spawn_balances_runner
on_balances (ok b) c = spawn_balances_runner (from_secs 60) (record c { balances = some b })
on_balances (err e) c = spawn_balances_runner (from_secs 10) c

-- What `start_telemetry_reactor` answers is given.
abbrev pub try_reactor : Option ℕ → Option ℕ → Result ℕ String → Core → Core
try_reactor (some handle) hopr answer c = c
try_reactor none none answer c = c
try_reactor none (some hopr) (ok handle) c = record c { strategy_handle = some handle }
try_reactor none (some hopr) (err e) c =
    spawn_runner c.cancel_on_shutdown (from_secs 10) retry_reactor c

unfoldable pub try_start_reactor : Result ℕ String → Core → Core
unfolding spawn_runner
try_start_reactor answer c = try_reactor c.strategy_handle c.hopr answer c

unfoldable pub on_hopr : Result ℕ String → SafeModule → Result ℕ String → Core → Core
unfolding spawn_node_wxhopr_withdraw_runner try_start_reactor spawn_wait_for_running
    retry_hopr_runner
on_hopr (ok hopr) module_ answer c = spawn_wait_for_running (from_secs 1) (
    try_start_reactor answer
      (spawn_node_wxhopr_withdraw_runner 0 (record c { phase = hopr_syncing; hopr = some hopr })))
on_hopr (err e) module_ answer c = retry_hopr_runner e module_ (from_secs 10) c

-- The three runners that start with the running edge client.
unfoldable pub spawn_node_runners : Core → Core
unfolding spawn_ideal_balance_recommendation_runner spawn_capacity_allocations_runner
    spawn_balances_runner
spawn_node_runners c =
    spawn_balances_runner 0
      (spawn_capacity_allocations_runner 0 (spawn_ideal_balance_recommendation_runner 0 c))

unfoldable pub on_hopr_running : (ℕ → Option ℕ) → ℕ → Core → Option Core
unfolding spawn_announced_peers any_needs_peers act_on_target
on_hopr_running from_hex now c =
    let c' = spawn_node_runners (record c { phase = hopr_running }) in
    if any_needs_peers (routes c')
    then some (spawn_announced_peers 0 c')
    else act_on_target from_hex now c'
