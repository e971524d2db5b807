-- ===== src/Config/Migrate.antt =====
-- What files of versions 3 and 4 become in version 5, and that they then mean the same.
use mathlib.Core.Path.{fun_ext}
use gnosis_vpn_client.Prelude.{
  ℕ, none, some, Option, List, [], ◌∷◌, map, Result, ◌≡◌, refl, ap, ◌∙◌, map_some,
}
use gnosis_vpn_client.Prelude.Maps.{insert}
use gnosis_vpn_client.Types
use gnosis_vpn_client.Config.Parts.{Edge, Error}
use gnosis_vpn_client.Config.V6.Load.{◌>>=◌, destination}
use gnosis_vpn_client.Config.V6.Load as V6
use gnosis_vpn_client.Config.V5.Load as V5
use gnosis_vpn_client.Config.V5.Load.{path_routing}
use gnosis_vpn_client.Config.V5.Migrate.{migrate, migrate-same}
use gnosis_vpn_client.Config.V4
use gnosis_vpn_client.Config.V3

-- A destination of version 4 goes by its address, whose text becomes its id.
abbrev pub name_entry : Edge → ℕ × V4.Destination → ℕ × V5.Destination
name_entry l (address, dest) =
    (l.address_text address, record { address = address; meta = dest.meta; path = dest.path })

abbrev pub migrate_v4 : Edge → V4.Config → V5.Config
migrate_v4 l c = record {
  version = 5;
  destinations = map_some (map (name_entry l)) c.destinations;
  connection = c.connection;
  wireguard = c.wireguard;
  blokli = c.blokli;
}

abbrev pub migrate_v3 : V3.Config → V4.Config
migrate_v3 c = record {
  version = 4;
  destinations = c.destinations;
  connection = c.connection;
  wireguard = c.wireguard;
  blokli = c.blokli;
}

add_same :
    (l : Edge) (result : List (ℕ × Types.Destination)) (dests : List (ℕ × V4.Destination))
    → V4.add_destinations l result dests ≡ V5.add_destinations l result (map (name_entry l) dests)
unfolding V4.add_destinations V5.add_destinations
add_same l result [] = refl
add_same l result ((address, dest) ∷ rest) =
    let id = l.address_text address in
    ap (λ (k : ℕ → Result (List (ℕ × Types.Destination)) Error). path_routing l dest.path >>= k)
      (fun_ext
        λ routing. add_same l (insert id (destination id address routing dest.meta) result) rest)

destinations_same :
    (l : Edge) (dests : Option (List (ℕ × V4.Destination)))
    → V4.convert_destinations l dests
      ≡ V5.convert_destinations l (map_some (map (name_entry l)) dests)
unfolding V4.convert_destinations V5.convert_destinations
destinations_same l none = refl
destinations_same l (some []) = refl
destinations_same l (some (entry ∷ rest)) = add_same l [] (entry ∷ rest)

pub migrate_v4-same : (l : Edge) (c : V4.Config) → V4.try_from l c ≡ V5.try_from l (migrate_v4 l c)
unfolding V4.try_from V5.try_from
migrate_v4-same l c = rw (destinations_same l c.destinations) refl

pub migrate_v3-same : (l : Edge) (c : V3.Config) → V3.try_from l c ≡ V4.try_from l (migrate_v3 c)
unfolding V3.try_from V4.try_from
migrate_v3-same l c = refl

-- A configuration of version 3, 4 or 5 and the one of version 6 that it becomes give the same
-- configuration or fail with the same error, provided that the default strategy has no allowlist. On
-- the way, the settings of the hoprd node are dropped, the text of an address becomes the id of its
-- destination, the number of intermediates, at most three, becomes the hops, and the sizes of the
-- sessions go under surb_balancing, with ping and main enabled and bridge not.
pub versions_agree :
    (l : Edge) (c3 : V3.Config) (c4 : V4.Config) (c5 : V5.Config)
    → l.default_strategy.channel_allowlist ≡ none
    → (V3.try_from l c3 ≡ V6.try_from l (migrate (migrate_v4 l (migrate_v3 c3))))
      × (V4.try_from l c4 ≡ V6.try_from l (migrate (migrate_v4 l c4)))
      × (V5.try_from l c5 ≡ V6.try_from l (migrate c5))
versions_agree l c3 c4 c5 h = (
  migrate_v3-same l c3
      ∙ migrate_v4-same l (migrate_v3 c3)
      ∙ migrate-same l (migrate_v4 l (migrate_v3 c3)) h,
  migrate_v4-same l c4 ∙ migrate-same l (migrate_v4 l c4) h,
  migrate-same l c5 h,
)
