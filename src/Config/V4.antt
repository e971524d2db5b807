-- ===== src/Config/V4.antt =====
-- gnosis_vpn-lib/src/config/v4.rs: a configuration file of version 4, whose destinations go by the
-- address of the exit; the id of a destination is the text of its address. The other sections are
-- those of version 5.
pub mod Keys
use text.Mathlib.Text.{◌==◌}
use gnosis_vpn_client.Prelude.{
  ℕ, String, ◌||◌, Option, none, some, List, [], ◌∷◌, Result, ok, err, if◌then◌else◌,
}
use gnosis_vpn_client.Prelude.Maps.{insert}
use gnosis_vpn_client.Types
use gnosis_vpn_client.Config.Parts
use gnosis_vpn_client.Config.Parts.{Error, no_destinations, Edge}
use gnosis_vpn_client.Config.Toml.{Value, table, integer, other, Table, each, each_in, joined}
use gnosis_vpn_client.Config.V6.Sections.{WireGuard, BlokliConfig}
use gnosis_vpn_client.Config.V6.Convert.{wireguard, blokli}
use gnosis_vpn_client.Config.V6.Load.{◌>>=◌, destination}
use gnosis_vpn_client.Config.V6.Keys.{ping_key}
use gnosis_vpn_client.Config.V5.Load.{Connection, DestinationPath, path_routing, options}

pub record Destination : Type 0 where
  pub meta : Option ℕ
  pub path : Option DestinationPath

pub record Config : Type 0 where
  pub version : ℕ
  pub destinations : Option (List (ℕ × Destination))
  pub connection : Option Connection
  pub wireguard : Option WireGuard
  pub blokli : Option BlokliConfig

unfoldable pub add_destinations :
    Edge
    → List (ℕ × Types.Destination)
    → List (ℕ × Destination)
    → Result (List (ℕ × Types.Destination)) Error
add_destinations l result [] = ok result
add_destinations l result ((address, dest) ∷ rest) = do
  routing ← path_routing l dest.path
  let id = l.address_text address
  add_destinations l (insert id (destination id address routing dest.meta) result) rest

unfoldable pub convert_destinations :
    Edge → Option (List (ℕ × Destination)) → Result (List (ℕ × Types.Destination)) Error
unfolding add_destinations
convert_destinations l none = err no_destinations
convert_destinations l (some []) = err no_destinations
convert_destinations l (some (entry ∷ rest)) = add_destinations l [] (entry ∷ rest)

unfoldable pub try_from : Edge → Config → Result Parts.Config Error
unfolding convert_destinations options wireguard blokli
try_from l value = do
  destinations ← convert_destinations l value.destinations
  ok (record {
    connection = options l value.connection;
    destinations = destinations;
    wireguard = wireguard value.wireguard;
    blokli = blokli l value.blokli;
    strategy = l.default_strategy;
  })
