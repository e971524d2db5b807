-- ===== src/Config/V6/Convert.antt =====
-- gnosis_vpn-lib/src/config/v6.rs: the conversions of the sections, from `to_flags` to `TryFrom`.
use gnosis_vpn_client.Prelude.{
  ℕ, String, false, Option, none, some, List, [], ◌∷◌, if◌then◌else◌, and_then, map_some, unwrap_or,
}
use gnosis_vpn_client.Types.{HealthCheckIntervals, from_secs}
use gnosis_vpn_client.Connection.Options
use gnosis_vpn_client.Connection.Options.{
  SocketAddr, ipv4, SessionTarget, tcp_stream, udp_stream, SessionParameters, SessionSurbOptions,
  SurbBalancing, default_surb_balancing, default_health_check_intervals, default_ping_options,
  default_path_planner_min_ack_rate,
}
use gnosis_vpn_client.Config.Parts
use gnosis_vpn_client.Config.Parts.{
  Error, no_destinations, surb_balancing_mismatch, hopr_general, Edge, default_blokli,
  WireGuardConfig, StrategyConfig, SessionCapability,
}
use gnosis_vpn_client.Config.V6.Sections.{
  Capability, segmentation, retransmission, retransmission_ack_only, no_delay, no_rate_control,
  ConnectionProtocol, PingOptions, HealthCheckIntervalOptions, WireGuardDns, WireGuard,
  BlokliConfig, SessionSurbConfig, SurbBalancingConfig, Connection, ChannelAllowlistConfig,
  Strategy,
}

abbrev session_capability : Capability → SessionCapability
session_capability segmentation = SessionCapability.segmentation
session_capability retransmission = SessionCapability.retransmission_nack
session_capability retransmission_ack_only = SessionCapability.retransmission_ack
session_capability no_delay = SessionCapability.no_delay
session_capability no_rate_control = SessionCapability.no_rate_control

-- The loop of `to_flags`, from the flags so far; `empty` is 0.
add_flags : Edge → ℕ → List Capability → ℕ
add_flags l flags [] = flags
add_flags l flags (cap ∷ caps) =
    add_flags l (l.union_bits flags (l.capability_bits (session_capability cap))) caps

unfoldable pub to_flags : Edge → List Capability → ℕ
unfolding add_flags
to_flags l caps = add_flags l 0 caps

abbrev pub default_bridge_capabilities : List Capability
default_bridge_capabilities = segmentation ∷ no_rate_control ∷ []

abbrev pub default_wg_capabilities : List Capability
default_wg_capabilities = segmentation ∷ no_delay ∷ []

abbrev pub default_bridge_target : SessionTarget
default_bridge_target = tcp_stream (record { ip = ipv4 172 30 0 1; port = 8_000 })

abbrev pub default_wg_target : SessionTarget
default_wg_target = udp_stream (record { ip = ipv4 172 30 0 1; port = 51_820 })

abbrev pub default_http_timeout : ℕ
default_http_timeout = from_secs 60

unfoldable pub apply_session_surb :
    Option SessionSurbConfig → SessionSurbOptions → SessionSurbOptions
apply_session_surb none def = def
apply_session_surb (some c) def =
    let enabled = unwrap_or c.enabled def.enabled in
    record {
      enabled = enabled;
      buffer = unwrap_or c.buffer def.buffer;
      max_surb_upstream = unwrap_or c.max_surb_upstream def.max_surb_upstream;
      always_max_out_surbs = unwrap_or c.always_max_out_surbs enabled;
    }

-- The parameters of a session, from its section if there is one.
unfoldable pub session_parameters :
    Edge
    → (SocketAddr → SessionTarget)
    → SessionTarget
    → List Capability
    → Option ConnectionProtocol
    → SessionParameters
unfolding to_flags
session_parameters l stream default_target default_caps protocol = record {
  target = unwrap_or (map_some stream (and_then protocol (λ p. p.target))) default_target;
  capabilities = to_flags l (unwrap_or (and_then protocol (λ p. p.capabilities)) default_caps);
}

unfoldable pub ping_options : Option PingOptions → Options.PingOptions
ping_options none = default_ping_options
ping_options (some p) = record {
  address = unwrap_or p.address default_ping_options.address;
  timeout = unwrap_or p.timeout default_ping_options.timeout;
  ttl = unwrap_or p.ttl default_ping_options.ttl;
  seq_count = unwrap_or p.seq_count default_ping_options.seq_count;
}

unfoldable pub health_check_intervals : Option HealthCheckIntervalOptions → HealthCheckIntervals
health_check_intervals none = default_health_check_intervals
health_check_intervals (some h) =
    let def = default_health_check_intervals in
    record {
      ping = unwrap_or h.ping def.ping;
      health_every_n_pings = unwrap_or h.health_every_n_pings def.health_every_n_pings;
      version_every_n_pings = unwrap_or h.version_every_n_pings def.version_every_n_pings;
      tunnel_ping = unwrap_or h.tunnel_ping def.tunnel_ping;
      tunnel_ping_max_failures = unwrap_or h.tunnel_ping_max_failures def.tunnel_ping_max_failures;
    }

unfoldable pub surb_balancing : Option SurbBalancingConfig → SurbBalancing
unfolding apply_session_surb
surb_balancing cfg =
    let def = default_surb_balancing in
    record {
      ping = apply_session_surb (and_then cfg (λ s. s.ping)) def.ping;
      main = apply_session_surb (and_then cfg (λ s. s.main)) def.main;
      bridge = apply_session_surb (and_then cfg (λ s. s.bridge)) def.bridge;
      health_check = apply_session_surb (and_then cfg (λ s. s.health_check)) def.health_check;
    }

-- `From<Option<Connection>> for options::Options`.
unfoldable pub options : Edge → Option Connection → Options.Options
unfolding session_parameters ping_options health_check_intervals surb_balancing
options l conn = record {
  timeouts = record { http = unwrap_or (and_then conn (λ c. c.http_timeout)) default_http_timeout };
  sessions = record {
    bridge =
        session_parameters l tcp_stream default_bridge_target default_bridge_capabilities
          (and_then conn (λ c. c.bridge));
    wg =
        session_parameters l udp_stream default_wg_target default_wg_capabilities
          (and_then conn (λ c. c.wg));
  };
  ping_options = ping_options (and_then conn (λ c. c.ping));
  surb_balancing = surb_balancing (and_then conn (λ c. c.surb_balancing));
  health_check_intervals = health_check_intervals (and_then conn (λ c. c.health_check_intervals));
  lan_lockdown = unwrap_or (and_then conn (λ c. c.lan_lockdown)) false;
  session_pseudonym_ttl = unwrap_or (and_then conn (λ c. c.session_pseudonym_ttl)) (from_secs 1);
  path_planner_min_ack_rate =
      unwrap_or (and_then conn (λ c. c.path_planner_min_ack_rate))
        default_path_planner_min_ack_rate;
}

abbrev pub default_server : String
default_server = "1.1.1.1,8.8.8.8"

abbrev dns_servers : WireGuardDns → Option String
dns_servers dns = if dns.overwrite then some (unwrap_or dns.servers default_server) else none

-- `From<Option<WireGuard>> for WireGuardConfig`.
unfoldable pub wireguard : Option WireGuard → WireGuardConfig
wireguard value = record {
  listen_port = and_then value (λ wg. wg.listen_port);
  force_private_key = and_then value (λ wg. wg.force_private_key);
  allowed_ips = and_then value (λ wg. wg.allowed_ips);
  dns = unwrap_or (and_then value (λ wg. map_some dns_servers wg.dns)) (some default_server);
}

-- `From<Option<BlokliConfig>> for HoprBlokliConfig`.
unfoldable pub blokli : Edge → Option BlokliConfig → Parts.BlokliConfig
unfolding default_blokli
blokli l value = record {
  connection_sync_timeout =
      unwrap_or (and_then value (λ b. b.connection_sync_timeout))
        (default_blokli l).connection_sync_timeout;
  sync_tolerance =
      unwrap_or (and_then value (λ b. b.sync_tolerance)) (default_blokli l).sync_tolerance;
}

-- The allowlist of an enabled section; the source collects it into a set.
abbrev allowlist : ChannelAllowlistConfig → Option (List ℕ)
allowlist c = if c.enabled then some c.peers else none

-- `From<Option<Strategy>> for StrategyConfig`.
unfoldable pub strategy : Edge → Option Strategy → StrategyConfig
strategy l v =
    let def = l.default_strategy in
    record {
      desired_message_count =
          unwrap_or (and_then v (λ s. s.desired_message_count)) def.desired_message_count;
      min_open_channels = unwrap_or (and_then v (λ s. s.min_open_channels)) def.min_open_channels;
      target_open_channels =
          unwrap_or (and_then v (λ s. s.target_open_channels)) def.target_open_channels;
      channel_allowlist = and_then (and_then v (λ s. s.channel_allowlist)) allowlist;
    }
