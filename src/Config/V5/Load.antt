-- ===== src/Config/V5/Load.antt =====
-- gnosis_vpn-lib/src/config/v5.rs: the sections of the file and their conversion.
use gnosis_vpn_client.Prelude.{
  ℕ, true, false, Option, none, some, List, [], ◌∷◌, Result, ok, err, and_then, unwrap_or, min,
  length,
}
use gnosis_vpn_client.Prelude.Maps.{insert}
use gnosis_vpn_client.Types
use gnosis_vpn_client.Types.{from_secs}
use gnosis_vpn_client.Connection.Options
use gnosis_vpn_client.Connection.Options.{
  tcp_stream, udp_stream, SurbBalancing, session_surb, default_surb_balancing,
  default_path_planner_min_ack_rate,
}
use gnosis_vpn_client.Config.Parts
use gnosis_vpn_client.Config.Parts.{Error, no_destinations, Edge}
use gnosis_vpn_client.Config.V6.Sections.{
  ConnectionProtocol, PingOptions, HealthCheckIntervalOptions, WireGuard, BlokliConfig,
}
use gnosis_vpn_client.Config.V6.Checks.{max_hops}
use gnosis_vpn_client.Config.V6.Convert.{
  default_bridge_capabilities, default_wg_capabilities, default_bridge_target, default_wg_target,
  default_http_timeout, session_parameters, ping_options, health_check_intervals, wireguard, blokli,
}
use gnosis_vpn_client.Config.V6.Load.{◌>>=◌, try_routing, destination}

pub record BufferOptions : Type 0 where
  pub bridge : Option ℕ
  pub ping : Option ℕ
  pub main : Option ℕ

pub record MaxSurbUpstreamOptions : Type 0 where
  pub bridge : Option ℕ
  pub ping : Option ℕ
  pub main : Option ℕ

pub record Connection : Type 0 where
  pub http_timeout : Option ℕ
  pub bridge : Option ConnectionProtocol
  pub wg : Option ConnectionProtocol
  pub ping : Option PingOptions
  pub buffer : Option BufferOptions
  pub max_surb_upstream : Option MaxSurbUpstreamOptions
  pub announced_peer_minimum_score : Option ℕ
  pub health_check_intervals : Option HealthCheckIntervalOptions

pub data DestinationPath : Type 0 where
  intermediates : List ℕ → DestinationPath
  hops : ℕ → DestinationPath

pub record Destination : Type 0 where
  pub address : ℕ
  pub meta : Option ℕ
  pub path : Option DestinationPath

pub record Config : Type 0 where
  pub version : ℕ
  pub destinations : Option (List (ℕ × Destination))
  pub connection : Option Connection
  pub wireguard : Option WireGuard
  pub blokli : Option BlokliConfig

unfoldable pub build_surb_balancing :
    Option BufferOptions → Option MaxSurbUpstreamOptions → SurbBalancing
build_surb_balancing buf surbs =
    let def = default_surb_balancing in
    let buf' = unwrap_or buf (record { bridge = none; ping = none; main = none }) in
    let surbs' = unwrap_or surbs (record { bridge = none; ping = none; main = none }) in
    record {
      ping =
          session_surb true (unwrap_or buf'.ping def.ping.buffer)
            (unwrap_or surbs'.ping def.ping.max_surb_upstream);
      main =
          session_surb true (unwrap_or buf'.main def.main.buffer)
            (unwrap_or surbs'.main def.main.max_surb_upstream);
      bridge =
          session_surb false (unwrap_or buf'.bridge def.bridge.buffer)
            (unwrap_or surbs'.bridge def.bridge.max_surb_upstream);
      health_check = def.health_check;
    }

-- `From<Option<Connection>> for options::Options`.
unfoldable pub options : Edge → Option Connection → Options.Options
unfolding build_surb_balancing session_parameters ping_options health_check_intervals
options l conn = record {
  timeouts = record { http = unwrap_or (and_then conn (λ c. c.http_timeout)) default_http_timeout };
  sessions = record {
    bridge =
        session_parameters l tcp_stream default_bridge_target default_bridge_capabilities
          (and_then conn (λ c. c.bridge));
    wg =
        session_parameters l udp_stream default_wg_target default_wg_capabilities
          (and_then conn (λ c. c.wg));
  };
  ping_options = ping_options (and_then conn (λ c. c.ping));
  surb_balancing =
      build_surb_balancing (and_then conn (λ c. c.buffer))
        (and_then conn (λ c. c.max_surb_upstream));
  health_check_intervals = health_check_intervals (and_then conn (λ c. c.health_check_intervals));
  lan_lockdown = false;
  session_pseudonym_ttl = from_secs 1;
  path_planner_min_ack_rate = default_path_planner_min_ack_rate;
}

-- The routing of a destination's path; versions 3 and 4 use it too.
abbrev pub path_routing : Edge → Option DestinationPath → Result ℕ Error
path_routing l (some (intermediates p)) = try_routing (l.hop_routing (min (length p) max_hops))
path_routing l (some (hops h)) = try_routing (l.hop_routing h)
path_routing l none = try_routing (l.hop_routing 1)

unfoldable pub add_destinations :
    Edge
    → List (ℕ × Types.Destination)
    → List (ℕ × Destination)
    → Result (List (ℕ × Types.Destination)) Error
add_destinations l result [] = ok result
add_destinations l result ((id, dest) ∷ rest) = do
  routing ← path_routing l dest.path
  add_destinations l (insert id (destination id dest.address routing dest.meta) result) rest

unfoldable pub convert_destinations :
    Edge → Option (List (ℕ × Destination)) → Result (List (ℕ × Types.Destination)) Error
unfolding add_destinations
convert_destinations l none = err no_destinations
convert_destinations l (some []) = err no_destinations
convert_destinations l (some (entry ∷ rest)) = add_destinations l [] (entry ∷ rest)

unfoldable pub try_from : Edge → Config → Result Parts.Config Error
unfolding convert_destinations options wireguard blokli
try_from l value = do
  destinations ← convert_destinations l value.destinations
  ok (record {
    connection = options l value.connection;
    destinations = destinations;
    wireguard = wireguard value.wireguard;
    blokli = blokli l value.blokli;
    strategy = l.default_strategy;
  })
