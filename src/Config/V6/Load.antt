-- ===== src/Config/V6/Load.antt =====
-- gnosis_vpn-lib/src/config/v6.rs: `convert_destinations` and `TryFrom<Config>`.
use gnosis_vpn_client.Prelude.{
  ℕ, String, Bool, true, false, Option, none, some, List, [], ◌∷◌, Result, ok, err, if◌then◌else◌,
  unwrap_or,
}
use gnosis_vpn_client.Prelude.Maps.{insert}
use gnosis_vpn_client.Types
use gnosis_vpn_client.Connection.Options.{Options}
use gnosis_vpn_client.Config.Parts
use gnosis_vpn_client.Config.Parts.{
  Error, no_destinations, surb_balancing_mismatch, hopr_general, Edge, default_blokli,
}
use gnosis_vpn_client.Config.V6.Sections.{DestinationPath, hops, Destination, Config}
use gnosis_vpn_client.Config.V6.Convert.{options, wireguard, blokli, strategy}

-- `x?`, with an error of the function's own type.
infixl 5 ◌>>=◌
abbrev pub ◌>>=◌ {ℓ κ} :
    {A : Type ℓ} {B : Type κ} → Result A Error → (A → Result B Error) → Result B Error
ok a >>= f = f a
err e >>= f = err e

-- `HopRouting::try_from(n)?`.
abbrev pub try_routing : Result ℕ String → Result ℕ Error
try_routing (ok r) = ok r
try_routing (err e) = err (hopr_general e)

-- `ConnDestination::new`, with the metadata of a section.
abbrev pub destination : ℕ → ℕ → ℕ → Option ℕ → Types.Destination
destination id address routing meta = record {
  id = id;
  meta = unwrap_or meta 0;
  address = address;
  routing = routing;
}

abbrev pub path_routing : Edge → Option DestinationPath → Result ℕ Error
path_routing l (some (hops h)) = try_routing (l.hop_routing h)
path_routing l none = try_routing (l.hop_routing 1)

-- The loop of `convert_destinations`, from the map so far.
unfoldable pub add_destinations :
    Edge
    → List (ℕ × Types.Destination)
    → List (ℕ × Destination)
    → Result (List (ℕ × Types.Destination)) Error
add_destinations l result [] = ok result
add_destinations l result ((id, dest) ∷ rest) = do
  routing ← path_routing l dest.path
  add_destinations l (insert id (destination id dest.address routing dest.meta) result) rest

unfoldable pub convert_destinations :
    Edge → Option (List (ℕ × Destination)) → Result (List (ℕ × Types.Destination)) Error
unfolding add_destinations
convert_destinations l none = err no_destinations
convert_destinations l (some []) = err no_destinations
convert_destinations l (some (entry ∷ rest)) = add_destinations l [] (entry ∷ rest)

-- `bool`'s `!=`.
abbrev pub differs : Bool → Bool → Bool
differs true true = false
differs false false = false
differs a b = true

-- Whether ping and main differ in having a balancer.
unfoldable pub mismatched : Options → Bool
mismatched o = differs o.surb_balancing.ping.enabled o.surb_balancing.main.enabled

unfoldable pub try_from : Edge → Config → Result Parts.Config Error
unfolding convert_destinations mismatched options wireguard blokli strategy
try_from l value =
    let connection = options l value.connection in
    if mismatched connection then err surb_balancing_mismatch else do
      destinations ← convert_destinations l value.destinations
      ok (record {
        connection = connection;
        destinations = destinations;
        wireguard = wireguard value.wireguard;
        blokli = blokli l value.blokli;
        strategy = strategy l value.strategy;
      })
