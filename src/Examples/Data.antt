-- ===== src/Examples/Data.antt =====
-- Concrete inputs: an exit one hop away, its route, a connection with a tunnel, and a core.
use gnosis_vpn_client.Prelude.{ℕ, Option, none, some, [], ◌∷◌, true}
use gnosis_vpn_client.Types.{
  Destination, HealthCheckIntervals, Versions, Health, ExitHealth, any_channel, RouteHealthState,
  from_secs,
}
use gnosis_vpn_client.Runtime.{Env}
use gnosis_vpn_client.RouteHealth.Tracker.{RouteHealth}
use gnosis_vpn_client.Connection.Up.{
  Up, WireGuard, Registration, SessionClientMetadata, main_kind, connection_established,
}
use gnosis_vpn_client.Connection.Down.{Down}
use gnosis_vpn_client.Connection.Down
use gnosis_vpn_client.Core.State.{Core, Phase, hopr_running, Responder}
use gnosis_vpn_client.Core.State

-- A routing is its number of hops, and a session id parses to itself.
abbrev pub hops : ℕ → ℕ
hops routing = routing

abbrev pub parse : ℕ → Option ℕ
parse id = some id

abbrev pub exit_dest : Destination
exit_dest = record { id = 1; meta = 0; address = 7; routing = 1 }

abbrev pub intervals : HealthCheckIntervals
intervals = record {
  ping = from_secs 30;
  health_every_n_pings = 2;
  version_every_n_pings = 4;
  tunnel_ping = from_secs 5;
  tunnel_ping_max_failures = 3;
}

abbrev pub env : Env
env = record { next_token = 10; log = [] }

abbrev pub versions : Versions
versions = record { versions = "v1" ∷ []; latest = "v1" }

abbrev pub health : Health
health = record { slots = record { available = 3; connected = 1 }; load_avg = 0 }

abbrev pub exit_health : ExitHealth
exit_health = record { checked_at = 2; versions = versions; ping_rtt = 40; health = health }

abbrev pub route : RouteHealthState → ℕ → RouteHealth
route state ping_failures = record {
  id = 1;
  static_need = any_channel;
  state = state;
  health_check_cancel = 5;
  cancel_on_shutdown = 0;
  check_cycle = 0;
  checking_since = none;
  exit_failures = 0;
  exit_last_error = none;
  tunnel_ping_failures = ping_failures;
  tunnel_ping_last_error = none;
}

abbrev pub session : SessionClientMetadata
session = record { bound_host = 80; protocol = 0; active_clients = 99 ∷ []; handed_on = 0 }

abbrev pub wireguard : WireGuard
wireguard = record { config = 3; key_pair = record { priv_key = 41; public_key = 42 } }

abbrev pub registration : Registration
registration = record {
  public_key = 42;
  ip = 6;
  newly_registered = true;
  server_public_key = 43;
  preshared_key = 44;
}

abbrev pub conn : Up
conn = record {
  destination = exit_dest;
  since = 1;
  phase = connection_established;
  wireguard = some wireguard;
  registration = some registration;
  bridge_session = none;
  ping_session = some (main_kind, session);
}

abbrev pub down : Down
down = record {
  destination = exit_dest;
  since = 20;
  phase = Down.disconnecting;
  wg_public_key = 42;
}

abbrev pub core : Phase → Option Destination → RouteHealth → Core
core phase target rh = record {
  destinations = (1, exit_dest) ∷ [];
  intervals = intervals;
  cancel_connection = 1;
  cancel_node_wxhopr = 2;
  cancel_on_shutdown = 0;
  cancel_presafe_queries = 3;
  cancel_balances = 4;
  cancel_announced_peers = 6;
  target_destination = target;
  phase = phase;
  incentive_operations = some 1;
  hopr = some 1;
  minimum_balance_recommendation = none;
  ideal_balance_recommendation = none;
  capacity_allocations = none;
  balances = none;
  strategy_handle = none;
  route_healths = (1, rh) ∷ [];
  next_request_id = 4;
  responders = (2, State.unit 17) ∷ [];
  ongoing_disconnections = [];
  cached_resolved_blokli_ips = [];
  reconnecting_since = none;
  pseudonym_cache = record { inner = []; ttl = from_secs 60 };
  env = env;
  outbox = [];
}
