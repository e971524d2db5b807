-- ===== src/RouteHealth/Transitions.antt =====
-- gnosis_vpn-lib/src/route_health.rs: the methods that move the state of a route. Each returns the
-- new record and the trace of its runtime calls. The handle of the edge client, the connection
-- options without their intervals, and the result channel are only handed on to the spawned task.
use gnosis_vpn_client.Prelude.{
  ℕ, ◌+◌, ◌*◌, ◌≤◌, ◌≡◌, refl, arith, ltb, String, Bool, true, false, not, ◌||◌, Option, none, some,
  List, ◌==◌, if◌then◌else◌, contains, is_empty, unwrap_or, Result, ok, err,
}
use gnosis_vpn_client.Types.{
  Destination, HealthCheckIntervals, Versions, Health, StaticNeed, any_channel, peering, ExitHealth,
  RouteHealthState, unrecoverable, needs_peering, needs_channel, routable, ready_to_connect,
  connecting, HealthCheckOutcome, duration_max, started, unrecoverable_outcome, failed, completed,
}
use gnosis_vpn_client.Runtime.{Env}
use gnosis_vpn_client.RouteHealth.Tracker.{
  RouteHealth, u32, is_needs_channel, is_unrecoverable_state, failure_backoff, cancel_health_check,
  spawn_health_check,
}

unfoldable pub is_peered : StaticNeed → List ℕ → Bool
is_peered (peering addr) addresses = contains addresses addr
is_peered any_channel addresses = not (is_empty addresses)

abbrev pub is_peering_need : StaticNeed → Bool
is_peering_need (peering _) = true
is_peering_need any_channel = false

-- The reset of a route that loses its peers.
unfoldable pub lose_peers : RouteHealth → Env → RouteHealth × Env
unfolding cancel_health_check
lose_peers rh e =
    let (rh', e') = cancel_health_check rh e in
    (
      record rh' {
        checking_since = none;
        check_cycle = 0;
        exit_failures = 0;
        tunnel_ping_failures = 0;
        state = needs_peering (not (is_peering_need rh'.static_need));
      },
      e',
    )

-- The match of `peers` on the state.
unfoldable pub peers_in :
    RouteHealthState
    → Bool
    → Destination
    → HealthCheckIntervals
    → ℕ
    → RouteHealth
    → Env
    → RouteHealth × Env
unfolding spawn_health_check lose_peers
peers_in (needs_peering has_channel) peered dest intervals initial_delay rh e =
    if not peered
    then (rh, e)
    else if is_peering_need rh.static_need || has_channel
    then spawn_health_check (record rh { state = routable }) initial_delay dest intervals e
    else (record rh { state = needs_channel }, e)
peers_in needs_channel peered dest intervals initial_delay rh e =
    if peered then (rh, e) else (record rh { state = needs_peering false }, e)
peers_in routable peered dest intervals initial_delay rh e =
    if peered then (rh, e) else lose_peers rh e
peers_in (ready_to_connect _) peered dest intervals initial_delay rh e =
    if peered then (rh, e) else lose_peers rh e
peers_in (connecting _ _) peered dest intervals initial_delay rh e =
    if peered then (rh, e) else lose_peers rh e
peers_in (unrecoverable _) peered dest intervals initial_delay rh e = (rh, e)

unfoldable pub peers :
    RouteHealth → List ℕ → Destination → HealthCheckIntervals → ℕ → Env → RouteHealth × Env
unfolding is_peered peers_in
peers rh addresses dest intervals initial_delay e =
    peers_in rh.state (is_peered rh.static_need addresses) dest intervals initial_delay rh e

unfoldable pub any_channel_available :
    RouteHealth → Destination → HealthCheckIntervals → Env → RouteHealth × Env
unfolding spawn_health_check
any_channel_available rh dest intervals e =
    if not (is_needs_channel rh.state)
    then (rh, e)
    else spawn_health_check (record rh { state = routable }) 0 dest intervals e

-- The state after a failed cycle, and the cycle counter.
abbrev pub state_after_failed : RouteHealthState → ℕ → RouteHealthState
state_after_failed (ready_to_connect _) checked_at = routable
state_after_failed (connecting exit rtt) checked_at =
    connecting (record exit { checked_at = checked_at }) rtt
state_after_failed s checked_at = s

abbrev pub cycle_after_failed : RouteHealthState → ℕ → ℕ
cycle_after_failed (ready_to_connect _) cycle = 0
cycle_after_failed _ cycle = cycle

-- A skipped field is carried over from the last snapshot.
abbrev pub merge_exit : ExitHealth → ℕ → Option Versions → Option ℕ → Option Health → ExitHealth
merge_exit exit checked_at versions ping_rtt health = record {
  checked_at = checked_at;
  versions = unwrap_or versions exit.versions;
  ping_rtt = unwrap_or ping_rtt exit.ping_rtt;
  health = unwrap_or health exit.health;
}

abbrev pub full_exit : ℕ → Option Versions → Option ℕ → Option Health → RouteHealthState
full_exit checked_at (some versions) (some ping_rtt) (some health) =
    ready_to_connect (record {
      checked_at = checked_at;
      versions = versions;
      ping_rtt = ping_rtt;
      health = health;
    })
full_exit _ _ _ _ = routable

abbrev pub state_after_completed :
    RouteHealthState → ℕ → Option Versions → Option ℕ → Option Health → RouteHealthState
state_after_completed (connecting exit rtt) checked_at versions ping_rtt health =
    connecting (merge_exit exit checked_at versions ping_rtt health) rtt
state_after_completed (ready_to_connect exit) checked_at versions ping_rtt health =
    ready_to_connect (merge_exit exit checked_at versions ping_rtt health)
state_after_completed _ checked_at versions ping_rtt health =
    full_exit checked_at versions ping_rtt health

-- While connecting, the pings between two health checks are left out. A product above the largest
-- `Duration` panics: `delay_panics`.
abbrev pub delay_after_completed : RouteHealthState → HealthCheckIntervals → ℕ
delay_after_completed (connecting _ _) intervals = intervals.ping * intervals.health_every_n_pings
delay_after_completed _ intervals = intervals.ping

-- Whether the handling of an outcome panics at this product.
unfoldable pub delay_panics : RouteHealth → HealthCheckOutcome → HealthCheckIntervals → Bool
delay_panics rh (completed checked_at versions ping_rtt health) intervals =
    elim (state_after_completed rh.state checked_at versions ping_rtt health) [
      | connecting _ _ ↦ ltb duration_max (intervals.ping * intervals.health_every_n_pings)
      | _ ↦ false
    ]
delay_panics rh (started since) intervals = false
delay_panics rh (unrecoverable_outcome reason) intervals = false
delay_panics rh (failed checked_at error) intervals = false

-- The product fits a `Duration`.
abbrev pub DelayFits : HealthCheckIntervals → Type 0
DelayFits intervals = intervals.ping * intervals.health_every_n_pings ≤ duration_max

pub delay_panics_fits :
    (rh : RouteHealth) (outcome : HealthCheckOutcome) (intervals : HealthCheckIntervals)
    → DelayFits intervals
    → delay_panics rh outcome intervals ≡ false
unfolding delay_panics
delay_panics_fits rh (completed checked_at versions ping_rtt health) intervals fits = ground arith
delay_panics_fits rh (started since) intervals fits = refl
delay_panics_fits rh (unrecoverable_outcome reason) intervals fits = refl
delay_panics_fits rh (failed checked_at error) intervals fits = refl

unfoldable pub health_check_result :
    RouteHealth → HealthCheckOutcome → Destination → HealthCheckIntervals → Env → RouteHealth × Env
unfolding spawn_health_check failure_backoff
health_check_result rh (started since) dest intervals e =
    (record rh { checking_since = some since }, e)
health_check_result rh (unrecoverable_outcome reason) dest intervals e =
    (record rh { checking_since = none; state = unrecoverable reason }, e)
health_check_result rh (failed checked_at error) dest intervals e =
    let rh' : RouteHealth = record rh {
      checking_since = none;
      exit_failures = u32 (rh.exit_failures + 1);
      exit_last_error = some error;
      check_cycle = cycle_after_failed rh.state rh.check_cycle;
      state = state_after_failed rh.state checked_at;
    } in
    spawn_health_check rh' (failure_backoff rh') dest intervals e
health_check_result rh (completed checked_at versions ping_rtt health) dest intervals e =
    let rh' : RouteHealth = record rh {
      checking_since = none;
      exit_failures = 0;
      exit_last_error = none;
      check_cycle = u32 (rh.check_cycle + 1);
      state = state_after_completed rh.state checked_at versions ping_rtt health;
    } in
    spawn_health_check rh' (delay_after_completed rh'.state intervals) dest intervals e

-- The method `connecting`.
unfoldable pub start_connecting :
    RouteHealth → Destination → ExitHealth → HealthCheckIntervals → Env → RouteHealth × Env
unfolding spawn_health_check
start_connecting rh dest exit intervals e =
    let rh' : RouteHealth = record rh {
      checking_since = none;
      exit_failures = 0;
      exit_last_error = none;
      tunnel_ping_failures = 0;
      tunnel_ping_last_error = none;
      state = connecting exit none;
    } in
    spawn_health_check rh' intervals.ping dest intervals e

unfoldable pub disconnecting_in :
    RouteHealthState → RouteHealth → Destination → HealthCheckIntervals → Env → RouteHealth × Env
unfolding spawn_health_check
disconnecting_in (connecting exit _) rh dest intervals e =
    let rh' : RouteHealth =
      if rh.exit_failures == 0
      then record rh { state = ready_to_connect exit }
      else record rh { check_cycle = 0; state = routable } in
    spawn_health_check rh' 0 dest intervals e
disconnecting_in _ rh dest intervals e = (rh, e)

unfoldable pub disconnecting :
    RouteHealth → Destination → HealthCheckIntervals → Env → RouteHealth × Env
unfolding disconnecting_in
disconnecting rh dest intervals e = disconnecting_in rh.state rh dest intervals e

-- The `if let` of `tunnel_ping_result`, with the count that it returns.
unfoldable pub tunnel_ping_in : RouteHealthState → RouteHealth → Result ℕ String → RouteHealth × ℕ
tunnel_ping_in (connecting exit _) rh (ok rtt) = (
  record rh {
    tunnel_ping_failures = 0;
    tunnel_ping_last_error = none;
    state = connecting exit (some rtt);
  },
  0,
)
tunnel_ping_in (connecting exit old) rh (err error) =
    let failures = u32 (rh.tunnel_ping_failures + 1) in
    (record rh { tunnel_ping_failures = failures; tunnel_ping_last_error = some error }, failures)
tunnel_ping_in _ rh _ = (rh, 0)

unfoldable pub tunnel_ping_result : RouteHealth → Result ℕ String → RouteHealth × ℕ
unfolding tunnel_ping_in
tunnel_ping_result rh rtt = tunnel_ping_in rh.state rh rtt

unfoldable pub with_error : RouteHealth → String → RouteHealth
with_error rh error =
    if is_unrecoverable_state rh.state then rh else record rh { exit_last_error = some error }
