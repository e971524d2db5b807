-- ===== src/Config/V3.antt =====
-- gnosis_vpn-lib/src/config/v3.rs: a configuration file of version 3, which is one of version 4 with
-- the settings of the hoprd node; these are read and not used.
pub mod Keys
use gnosis_vpn_client.Prelude.{ℕ, String, Option, List, Result, ok, err}
use gnosis_vpn_client.Config.Parts
use gnosis_vpn_client.Config.Parts.{Error, Edge}
use gnosis_vpn_client.Config.V6.Sections.{WireGuard, BlokliConfig}
use gnosis_vpn_client.Config.V6.Convert.{wireguard, blokli}
use gnosis_vpn_client.Config.V6.Load.{◌>>=◌}
use gnosis_vpn_client.Config.V5.Load.{Connection, options}
use gnosis_vpn_client.Config.V4.{Destination, convert_destinations}

pub record HoprdNode : Type 0 where
  pub endpoint : String
  pub api_token : String
  pub internal_connection_port : Option ℕ

pub record Config : Type 0 where
  pub version : ℕ
  pub hoprd_node : HoprdNode
  pub destinations : Option (List (ℕ × Destination))
  pub connection : Option Connection
  pub wireguard : Option WireGuard
  pub blokli : Option BlokliConfig

unfoldable pub try_from : Edge → Config → Result Parts.Config Error
unfolding convert_destinations options wireguard blokli
try_from l value = do
  destinations ← convert_destinations l value.destinations
  ok (record {
    connection = options l value.connection;
    destinations = destinations;
    wireguard = wireguard value.wireguard;
    blokli = blokli l value.blokli;
    strategy = l.default_strategy;
  })
