-- ===== src/RouteHealth/Tracker.antt =====
-- gnosis_vpn-lib/src/route_health.rs: the `RouteHealth` record, its construction and queries, and
-- the scheduling of its health-check task.
--
-- The number of hops of a routing is the library's, `hop_count`. The counters are u32 and wrap.
use gnosis_vpn_client.Prelude.{
  ℕ, ◌-◌, ◌*◌, ◌%◌, min, String, Bool, true, false, not, ◌&&◌, ◌||◌, Option, none, some, List, ◌==◌,
  ltb, leb, if◌then◌else◌, any,
}
use gnosis_vpn_client.Types.{
  Destination, HealthCheckIntervals, StaticNeed, any_channel, peering, not_allowed, ExitHealth,
  RouteHealthState, unrecoverable, needs_peering, needs_channel, ready_to_connect, connecting,
  CheckScope, from_secs, duration_max,
}
use gnosis_vpn_client.Runtime.{Env, health_check, child_token, spawn, renew}

abbrev pub u32 : ℕ → ℕ
u32 n = n % 4_294_967_296

abbrev pub max_interval_between_failures : ℕ
max_interval_between_failures = from_secs 300

abbrev pub failure_interval : ℕ
failure_interval = from_secs 30

abbrev pub graph_warmup_retry_interval : ℕ
graph_warmup_retry_interval = from_secs 90

abbrev pub graph_warmup_retry_count : ℕ
graph_warmup_retry_count = 3

pub record RouteHealth : Type 0 where
  pub id : ℕ
  pub static_need : StaticNeed
  pub state : RouteHealthState
  pub health_check_cancel : ℕ
  pub cancel_on_shutdown : ℕ
  pub check_cycle : ℕ
  pub checking_since : Option ℕ
  pub exit_failures : ℕ
  pub exit_last_error : Option String
  pub tunnel_ping_failures : ℕ
  pub tunnel_ping_last_error : Option String

-- A 0-hop route needs its exit as a peer, any other route an outgoing channel.
unfoldable pub derive_static_need : (hop_count : ℕ → ℕ) → ℕ → ℕ → StaticNeed
derive_static_need hop_count routing dest_address =
    if hop_count routing == 0 then peering dest_address else any_channel

unfoldable pub derive_initial_state : (hop_count : ℕ → ℕ) → ℕ → Bool → Bool → RouteHealthState
derive_initial_state hop_count routing allow_insecure allow_experimental =
    let hops = hop_count routing in
    if (hops == 0 && not allow_insecure) || (ltb 1 hops && not allow_experimental)
    then unrecoverable not_allowed
    else needs_peering false

unfoldable pub new : (hop_count : ℕ → ℕ) → Destination → Bool → Bool → ℕ → Env → RouteHealth × Env
unfolding derive_static_need derive_initial_state child_token
new hop_count dest allow_insecure allow_experimental cancel_on_shutdown e =
    let (token, e') = child_token cancel_on_shutdown e in
    (
      record {
        id = dest.id;
        static_need = derive_static_need hop_count dest.routing dest.address;
        state = derive_initial_state hop_count dest.routing allow_insecure allow_experimental;
        health_check_cancel = token;
        cancel_on_shutdown = cancel_on_shutdown;
        check_cycle = 0;
        checking_since = none;
        exit_failures = 0;
        exit_last_error = none;
        tunnel_ping_failures = 0;
        tunnel_ping_last_error = none;
      },
      e',
    )

-- The queries match on the state alone.
abbrev pub is_needs_peering : RouteHealthState → Bool
is_needs_peering (needs_peering _) = true
is_needs_peering _ = false

abbrev pub is_needs_channel : RouteHealthState → Bool
is_needs_channel needs_channel = true
is_needs_channel _ = false

abbrev pub is_ready : RouteHealthState → Bool
is_ready (ready_to_connect _) = true
is_ready _ = false

abbrev pub is_connecting : RouteHealthState → Bool
is_connecting (connecting _ _) = true
is_connecting _ = false

abbrev pub is_unrecoverable_state : RouteHealthState → Bool
is_unrecoverable_state (unrecoverable _) = true
is_unrecoverable_state _ = false

abbrev pub ready_exit : RouteHealthState → Option ExitHealth
ready_exit (ready_to_connect exit) = some exit
ready_exit _ = none

abbrev pub cached_exit : RouteHealthState → Option ExitHealth
cached_exit (ready_to_connect exit) = some exit
cached_exit (connecting exit _) = some exit
cached_exit _ = none

unfoldable pub needs_peer : RouteHealth → Bool
needs_peer rh = is_needs_peering rh.state

unfoldable pub needs_channel_query : RouteHealth → Bool
needs_channel_query rh = is_needs_channel rh.state

unfoldable pub ready_to_connect_query : RouteHealth → Option ExitHealth
ready_to_connect_query rh = ready_exit rh.state

unfoldable pub is_ready_to_connect : RouteHealth → Bool
is_ready_to_connect rh = is_ready rh.state

unfoldable pub current_exit_health : RouteHealth → Option ExitHealth
current_exit_health rh = cached_exit rh.state

unfoldable pub is_unrecoverable : RouteHealth → Bool
is_unrecoverable rh = is_unrecoverable_state rh.state

unfoldable pub any_needs_peers : List RouteHealth → Bool
unfolding needs_peer
any_needs_peers healths = any needs_peer healths

unfoldable pub any_needs_channel : List RouteHealth → Bool
unfolding needs_channel_query
any_needs_channel healths = any needs_channel_query healths

-- `Duration::saturating_mul`.
abbrev pub saturating_mul : ℕ → ℕ → ℕ
saturating_mul d n = min (d * n) duration_max

unfoldable pub failure_backoff : RouteHealth → ℕ
failure_backoff rh =
    if leb rh.exit_failures graph_warmup_retry_count
    then graph_warmup_retry_interval
    else min (saturating_mul failure_interval (rh.exit_failures - graph_warmup_retry_count))
        max_interval_between_failures

-- `u32::is_multiple_of`: only 0 is a multiple of 0. The library's `n % 0` is `n`.
abbrev pub is_multiple_of : ℕ → ℕ → Bool
is_multiple_of n k = n % k == 0

unfoldable pub cancel_health_check : RouteHealth → Env → RouteHealth × Env
unfolding renew
cancel_health_check rh e =
    let (token, e') = renew rh.cancel_on_shutdown rh.health_check_cancel e in
    (record rh { health_check_cancel = token }, e')

-- What the next cycle checks besides the ping.
unfoldable pub next_scope : RouteHealth → HealthCheckIntervals → CheckScope
next_scope rh intervals =
    if is_connecting rh.state then record { version = false; health = true } else record {
      version = is_multiple_of rh.check_cycle intervals.version_every_n_pings;
      health = is_multiple_of rh.check_cycle intervals.health_every_n_pings;
    }

-- Cancels the task in flight and spawns the next under a new token.
unfoldable pub spawn_health_check :
    RouteHealth → ℕ → Destination → HealthCheckIntervals → Env → RouteHealth × Env
unfolding cancel_health_check next_scope spawn
spawn_health_check rh delay dest intervals e =
    let (rh', e') = cancel_health_check rh e in
    (rh', spawn rh'.health_check_cancel delay (health_check dest (next_scope rh intervals)) e')
