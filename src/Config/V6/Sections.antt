-- ===== src/Config/V6/Sections.antt =====
-- gnosis_vpn-lib/src/config/v6.rs: the sections of the file, as `serde` reads them. Those up to
-- `BlokliConfig` are shared with version 5.
use gnosis_vpn_client.Prelude.{ℕ, String, Bool, Option, List}
use gnosis_vpn_client.Connection.Options.{SocketAddr}

pub data Capability : Type 0 where
  segmentation retransmission retransmission_ack_only no_delay no_rate_control : Capability

pub record ConnectionProtocol : Type 0 where
  pub capabilities : Option (List Capability)
  pub target : Option SocketAddr

pub record PingOptions : Type 0 where
  pub address : Option ℕ
  pub timeout : Option ℕ
  pub ttl : Option ℕ
  pub seq_count : Option ℕ

pub record HealthCheckIntervalOptions : Type 0 where
  pub ping : Option ℕ
  pub health_every_n_pings : Option ℕ
  pub version_every_n_pings : Option ℕ
  pub tunnel_ping : Option ℕ
  pub tunnel_ping_max_failures : Option ℕ

pub record WireGuardDns : Type 0 where
  pub overwrite : Bool
  pub servers : Option String

pub record WireGuard : Type 0 where
  pub listen_port : Option ℕ
  pub allowed_ips : Option String
  pub force_private_key : Option String
  pub dns : Option WireGuardDns

pub record BlokliConfig : Type 0 where
  pub connection_sync_timeout : Option ℕ
  pub sync_tolerance : Option ℕ

pub record SessionSurbConfig : Type 0 where
  pub enabled : Option Bool
  pub buffer : Option ℕ
  pub max_surb_upstream : Option ℕ
  pub always_max_out_surbs : Option Bool

pub record SurbBalancingConfig : Type 0 where
  pub ping : Option SessionSurbConfig
  pub main : Option SessionSurbConfig
  pub bridge : Option SessionSurbConfig
  pub health_check : Option SessionSurbConfig

pub record Connection : Type 0 where
  pub http_timeout : Option ℕ
  pub bridge : Option ConnectionProtocol
  pub wg : Option ConnectionProtocol
  pub ping : Option PingOptions
  pub surb_balancing : Option SurbBalancingConfig
  pub health_check_intervals : Option HealthCheckIntervalOptions
  pub lan_lockdown : Option Bool
  pub session_pseudonym_ttl : Option ℕ
  pub path_planner_min_ack_rate : Option ℕ

pub record ChannelAllowlistConfig : Type 0 where
  pub enabled : Bool
  pub peers : List ℕ

pub record Strategy : Type 0 where
  pub desired_message_count : Option ℕ
  pub min_open_channels : Option ℕ
  pub target_open_channels : Option ℕ
  pub channel_allowlist : Option ChannelAllowlistConfig

pub data DestinationPath : Type 0 where
  hops : ℕ → DestinationPath

pub record Destination : Type 0 where
  pub address : ℕ
  pub meta : Option ℕ
  pub path : Option DestinationPath

pub record Config : Type 0 where
  pub version : ℕ
  pub destinations : Option (List (ℕ × Destination))
  pub connection : Option Connection
  pub wireguard : Option WireGuard
  pub blokli : Option BlokliConfig
  pub strategy : Option Strategy
