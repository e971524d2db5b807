-- ===== src/Core/Target.antt =====
-- gnosis_vpn-lib/src/core/mod.rs: the connection to the target destination. `none` is a panic, the
-- `unwrap` of a missing edge client. The clock is read once in a handler, as `now`.
--
-- `act_on_target` and `disconnect_from_connection` call each other, so they take fuel.
use gnosis_vpn_client.Prelude.{
  ℕ, zero, suc, Option, none, some, [], ◌∷◌, ◌++◌, if◌then◌else◌, first,
}
use gnosis_vpn_client.Prelude.Maps.{lookup}
use gnosis_vpn_client.Types.{Destination, Destination_eq, ExitHealth}
use gnosis_vpn_client.Runtime.{renew, connection_runner, disconnection_runner}
use gnosis_vpn_client.RouteHealth.Tracker.{RouteHealth, ready_to_connect_query, current_exit_health}
use gnosis_vpn_client.RouteHealth.Transitions.{start_connecting, disconnecting}
use gnosis_vpn_client.Connection.Up.{Up, SessionKind, SessionClientMetadata, WireGuard}
use gnosis_vpn_client.Connection.Up
use gnosis_vpn_client.Connection.Down.{Down, try_from}
use gnosis_vpn_client.Connection.PseudonymCache
use gnosis_vpn_client.Core.State.{
  Core, Phase, hopr_running, connecting, connected, tear_down_wg, to_root, send, spawn_runner,
  put_route,
}

-- `Option` as the monad of panics.
infixl 5 ◌>>=◌
abbrev pub ◌>>=◌ {ℓ κ} : {A : Type ℓ} {B : Type κ} → Option A → (A → Option B) → Option B
none >>= f = none
some a >>= f = f a

-- The method `connecting` of the destination's route, if it has one.
unfoldable pub route_connecting : Destination → ExitHealth → Option RouteHealth → Core → Core
unfolding put_route start_connecting
route_connecting dest exit none c = c
route_connecting dest exit (some rh) c =
    put_route dest.id (start_connecting rh dest exit c.intervals c.env) c

unfoldable pub spawn_connection_with :
    Option ℕ → Destination → ExitHealth → Option ℕ → ℕ → Core → Core
unfolding route_connecting spawn_runner PseudonymCache.get Up.new lookup
spawn_connection_with none dest exit prev_key now c = c
spawn_connection_with (some hopr) dest exit prev_key now c =
    let (pseudonym, cache) = PseudonymCache.get c.pseudonym_cache dest now in
    let task = connection_runner dest c.cached_resolved_blokli_ips pseudonym prev_key in
    let routed =
      route_connecting dest exit (lookup dest.id c.route_healths)
        (record c { pseudonym_cache = cache }) in
    spawn_runner c.cancel_connection 0 task (record routed { phase = connecting (Up.new dest now) })

unfoldable pub spawn_connection_runner : Destination → ExitHealth → Option ℕ → ℕ → Core → Core
unfolding spawn_connection_with
spawn_connection_runner dest exit prev_key now c =
    spawn_connection_with c.hopr dest exit prev_key now c

unfoldable pub spawn_disconnection_with : Option ℕ → Down → Core → Core
unfolding spawn_runner send
spawn_disconnection_with none down c = c
spawn_disconnection_with (some hopr) down c =
    spawn_runner c.cancel_on_shutdown 0 (disconnection_runner down.destination down.wg_public_key) (
      send (to_root tear_down_wg)
        (record c { ongoing_disconnections = c.ongoing_disconnections ++ down ∷ [] }))

unfoldable pub spawn_disconnection_runner : Down → Core → Core
unfolding spawn_disconnection_with
spawn_disconnection_runner down c = spawn_disconnection_with c.hopr down c

-- The branch of `act_on_target` for an idle edge client.
unfoldable pub connect_route : Option RouteHealth → Destination → ℕ → Core → Core
unfolding spawn_connection_runner ready_to_connect_query
connect_route none dest now c = c
connect_route (some rh) dest now c = elim (ready_to_connect_query rh) [
  | some exit ↦ spawn_connection_runner dest exit none now c
  | none ↦ c
]

-- The session id of the first active client, parsed by the library, is cached for the destination.
unfoldable pub cache_pseudonym :
    (ℕ → Option ℕ) → Destination → Option (SessionKind × SessionClientMetadata) → ℕ → Core → Core
unfolding PseudonymCache.insert
cache_pseudonym from_hex dest none now c = c
cache_pseudonym from_hex dest (some (kind, session)) now c =
    elim (first session.active_clients >>= from_hex) [
      | some pseudonym ↦ record c {
        pseudonym_cache = PseudonymCache.insert c.pseudonym_cache dest pseudonym now;
      }
      | none ↦ c
    ]

-- The method `disconnecting` of the destination's route, if both are there. Only here the edge
-- client is unwrapped.
unfoldable pub route_disconnecting :
    Option Destination → Option RouteHealth → Option ℕ → Core → Option Core
unfolding put_route disconnecting
route_disconnecting none rh hopr c = some c
route_disconnecting (some dest) none hopr c = some c
route_disconnecting (some dest) (some rh) none c = none
route_disconnecting (some dest) (some rh) (some hopr) c =
    some (put_route dest.id (disconnecting rh dest c.intervals c.env) c)

-- The last step of `disconnect_from_connection`: an attempt without a key has nothing to take down.
unfoldable pub take_down : (Core → Option Core) → Option Down → Core → Option Core
unfolding spawn_disconnection_runner
take_down act (some down) c = some (spawn_disconnection_runner down c)
take_down act none c = act c

unfoldable pub cancel_connection_tasks : Core → Core
unfolding renew
cancel_connection_tasks c =
    let (token, e) = renew c.cancel_on_shutdown c.cancel_connection c.env in
    record c { cancel_connection = token; env = e }

unfoldable pub disconnect_with : (ℕ → Option ℕ) → (Core → Option Core) → Up → ℕ → Core → Option Core
unfolding cache_pseudonym cancel_connection_tasks route_disconnecting take_down try_from lookup
disconnect_with from_hex act conn now c = do
  let cached = cache_pseudonym from_hex conn.destination conn.ping_session now c
  let cleared : Core = record (cancel_connection_tasks cached) {
    responders = [];
    phase = hopr_running;
  }
  let id = conn.destination.id
  routed ←
      route_disconnecting (lookup id cleared.destinations) (lookup id cleared.route_healths)
        cleared.hopr cleared
  take_down act (try_from conn now) routed

-- The match of `act_on_target`, with the calls that it makes.
unfoldable pub act_in :
    (Up → Core → Option Core) → Option Destination → Phase → ℕ → Core → Option Core
unfolding connect_route Destination_eq lookup
act_in disconnect (some dest) hopr_running now c =
    some (connect_route (lookup dest.id c.route_healths) dest now c)
act_in disconnect (some dest) (connected conn) now c =
    if Destination_eq dest conn.destination then some c else disconnect conn c
act_in disconnect (some dest) (connecting conn) now c =
    if Destination_eq dest conn.destination then some c else disconnect conn c
act_in disconnect none (connected conn) now c = disconnect conn c
act_in disconnect none (connecting conn) now c = disconnect conn c
act_in disconnect _ _ now c = some c

-- With no fuel left the result is `none` as well.
unfoldable pub act_with_fuel : ℕ → (ℕ → Option ℕ) → ℕ → Core → Option Core
unfolding act_in disconnect_with
act_with_fuel zero from_hex now c = none
act_with_fuel (suc fuel) from_hex now c =
    act_in (λ conn. disconnect_with from_hex (act_with_fuel fuel from_hex now) conn now)
      c.target_destination c.phase now c

-- Two calls deep: `disconnect_from_connection` leaves the edge client idle.
unfoldable pub act_on_target : (ℕ → Option ℕ) → ℕ → Core → Option Core
unfolding act_with_fuel
act_on_target from_hex now c = act_with_fuel 2 from_hex now c

unfoldable pub disconnect_from_connection : (ℕ → Option ℕ) → Up → ℕ → Core → Option Core
unfolding disconnect_with act_on_target
disconnect_from_connection from_hex conn now c =
    disconnect_with from_hex (act_on_target from_hex now) conn now c

abbrev pub key_of : Option WireGuard → Option ℕ
key_of none = none
key_of (some wg) = some wg.key_pair.public_key

abbrev pub exit_of : Option RouteHealth → Option ExitHealth
exit_of none = none
exit_of (some rh) = current_exit_health rh

-- With the exit that the route knows the next attempt starts at once.
unfoldable pub reconnect_with : (ℕ → Option ℕ) → Option ExitHealth → Up → ℕ → Core → Option Core
unfolding spawn_connection_runner act_on_target
reconnect_with from_hex (some exit) conn now c =
    some (spawn_connection_runner conn.destination exit (key_of conn.wireguard) now c)
reconnect_with from_hex none conn now c = act_on_target from_hex now c

unfoldable pub force_reconnect : (ℕ → Option ℕ) → Up → ℕ → Core → Option Core
unfolding cancel_connection_tasks send reconnect_with current_exit_health lookup
force_reconnect from_hex conn now c =
    reconnect_with from_hex (exit_of (lookup conn.destination.id c.route_healths)) conn now
      (record (send (to_root tear_down_wg) (cancel_connection_tasks c)) { phase = hopr_running })
