-- ===== src/Config/Parts.antt =====
-- gnosis_vpn-lib/src/config/mod.rs, `Config` and `Error`, with the parts of a configuration that other
-- files define: wireguard.rs (`Config`), hopr/blokli_config.rs and hopr/strategy_config.rs.
--
-- The id of a destination, its address and its metadata are numbers that stand for them. A HashMap is
-- an association list, in the order in which it is iterated.
use gnosis_vpn_client.Prelude.{ℕ, String, Option, List, Result}
use gnosis_vpn_client.Types.{Destination}
use gnosis_vpn_client.Connection.Options.{Options}

pub record WireGuardConfig : Type 0 where
  pub listen_port : Option ℕ
  pub force_private_key : Option String
  pub allowed_ips : Option String
  pub dns : Option String

pub record BlokliConfig : Type 0 where
  pub connection_sync_timeout : ℕ
  pub sync_tolerance : ℕ

pub record StrategyConfig : Type 0 where
  pub desired_message_count : ℕ
  pub min_open_channels : ℕ
  pub target_open_channels : ℕ
  pub channel_allowlist : Option (List ℕ)

pub record Config : Type 0 where
  pub connection : Options
  pub destinations : List (ℕ × Destination)
  pub wireguard : WireGuardConfig
  pub blokli : BlokliConfig
  pub strategy : StrategyConfig

pub data Error : Type 0 where
  no_file version_not_found no_destinations surb_balancing_mismatch : Error
  io toml_deserialization hopr_general : String → Error
  version_mismatch : ℕ → Error

pub data SessionCapability : Type 0 where
  segmentation retransmission_ack retransmission_nack no_delay no_rate_control : SessionCapability

-- What the conversions take from the edge client's library: the bits of a session's capability and the
-- union of such bits, the check of a number of hops, the text of an
-- address, the default of the chain connector's timeout, and
-- the default strategy (`IncentiveConfiguration::default`).
pub record Edge : Type 0 where
  pub capability_bits : SessionCapability → ℕ
  pub union_bits : ℕ → ℕ → ℕ
  pub hop_routing : ℕ → Result ℕ String
  pub address_text : ℕ → ℕ
  pub connection_sync_timeout : ℕ
  pub default_strategy : StrategyConfig

-- `BlokliConfig::default`.
unfoldable pub default_blokli : Edge → BlokliConfig
default_blokli l = record {
  connection_sync_timeout = l.connection_sync_timeout;
  sync_tolerance = 50;
}
