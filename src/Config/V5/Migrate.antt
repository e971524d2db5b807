-- ===== src/Config/V5/Migrate.antt =====
-- What a file of version 5 becomes in version 6, and that it then means the same.
use mathlib.Core.Path.{fun_ext}
use gnosis_vpn_client.Prelude.{
  ap, ℕ, true, false, Option, none, some, List, [], ◌∷◌, map, Result, ◌≡◌, refl, and_then, map_some,
  min, length, arith,
}
use gnosis_vpn_client.Prelude.Maps.{insert}
use gnosis_vpn_client.Types
use gnosis_vpn_client.Config.Parts.{Edge, Error}
use gnosis_vpn_client.Config.V6.Checks.{max_hops}
use gnosis_vpn_client.Config.V6.Sections as V6
use gnosis_vpn_client.Config.V6.Convert
use gnosis_vpn_client.Config.V6.Load
use gnosis_vpn_client.Config.V6.Load.{◌>>=◌, destination}
use gnosis_vpn_client.Config.V5.Load as V5
use gnosis_vpn_client.Config.V5.Load.{intermediates, hops, path_routing}

-- A list of intermediates becomes the number of its hops, at most three.
abbrev pub migrate_path : V5.DestinationPath → V6.DestinationPath
migrate_path (intermediates p) = V6.hops (min (length p) max_hops)
migrate_path (hops h) = V6.hops h

abbrev pub migrate_entry : ℕ × V5.Destination → ℕ × V6.Destination
migrate_entry (id, dest) = (
  id,
  record { address = dest.address; meta = dest.meta; path = map_some migrate_path dest.path },
)

-- The sizes of `buffer` and `max_surb_upstream` go to the sessions of `surb_balancing`, where ping and
-- main are enabled and bridge is not.
abbrev migrate_surb :
    Option V5.BufferOptions → Option V5.MaxSurbUpstreamOptions → V6.SurbBalancingConfig
migrate_surb buffer upstream = record {
  ping = some (record {
    enabled = some true;
    buffer = and_then buffer (λ b. b.ping);
    max_surb_upstream = and_then upstream (λ u. u.ping);
    always_max_out_surbs = none;
  });
  main = some (record {
    enabled = some true;
    buffer = and_then buffer (λ b. b.main);
    max_surb_upstream = and_then upstream (λ u. u.main);
    always_max_out_surbs = none;
  });
  bridge = some (record {
    enabled = some false;
    buffer = and_then buffer (λ b. b.bridge);
    max_surb_upstream = and_then upstream (λ u. u.bridge);
    always_max_out_surbs = none;
  });
  health_check = none;
}

abbrev migrate_connection : V5.Connection → V6.Connection
migrate_connection c = record {
  http_timeout = c.http_timeout;
  bridge = c.bridge;
  wg = c.wg;
  ping = c.ping;
  surb_balancing = some (migrate_surb c.buffer c.max_surb_upstream);
  health_check_intervals = c.health_check_intervals;
  lan_lockdown = none;
  session_pseudonym_ttl = none;
  path_planner_min_ack_rate = none;
}

abbrev pub migrate : V5.Config → V6.Config
migrate c = record {
  version = 6;
  destinations = map_some (map migrate_entry) c.destinations;
  connection = map_some migrate_connection c.connection;
  wireguard = c.wireguard;
  blokli = c.blokli;
  strategy = none;
}

surb_same :
    (buffer : Option V5.BufferOptions) (upstream : Option V5.MaxSurbUpstreamOptions)
    → V5.build_surb_balancing buffer upstream
      ≡ Convert.surb_balancing (some (migrate_surb buffer upstream))
unfolding V5.build_surb_balancing Convert.surb_balancing
surb_same none none = refl
surb_same none (some u) = refl
surb_same (some b) none = refl
surb_same (some b) (some u) = refl

options_same :
    (l : Edge) (c : Option V5.Connection)
    → V5.options l c ≡ Convert.options l (map_some migrate_connection c)
unfolding V5.options Convert.options
options_same l none = refl
options_same l (some c) = rw (surb_same c.buffer c.max_surb_upstream) refl

path_same :
    (l : Edge) (p : Option V5.DestinationPath)
    → path_routing l p ≡ Load.path_routing l (map_some migrate_path p)
path_same l none = refl
path_same l (some (intermediates p)) = refl
path_same l (some (hops h)) = refl

-- The next step of the loop over the destinations, after the routing is known.
add_same :
    (l : Edge) (result : List (ℕ × Types.Destination)) (dests : List (ℕ × V5.Destination))
    → V5.add_destinations l result dests ≡ Load.add_destinations l result (map migrate_entry dests)
unfolding V5.add_destinations Load.add_destinations
add_same l result [] = refl
add_same l result ((id, dest) ∷ rest) = rw (path_same l dest.path) (
    ap
      (λ (k : ℕ → Result (List (ℕ × Types.Destination)) Error).
        Load.path_routing l (map_some migrate_path dest.path) >>= k)
      (fun_ext λ routing.
        add_same l (insert id (destination id dest.address routing dest.meta) result) rest))

destinations_same :
    (l : Edge) (dests : Option (List (ℕ × V5.Destination)))
    → V5.convert_destinations l dests
      ≡ Load.convert_destinations l (map_some (map migrate_entry) dests)
unfolding V5.convert_destinations Load.convert_destinations
destinations_same l none = refl
destinations_same l (some []) = refl
destinations_same l (some (entry ∷ rest)) = add_same l [] (entry ∷ rest)

never_mismatched :
    (l : Edge) (c : Option V5.Connection)
    → Load.mismatched (Convert.options l (map_some migrate_connection c)) ≡ false
unfolding Load.mismatched Convert.options
never_mismatched l none = refl
never_mismatched l (some c) = refl

strategy_same :
    (l : Edge)
    → l.default_strategy.channel_allowlist ≡ none
    → Convert.strategy l none ≡ l.default_strategy
unfolding Convert.strategy
strategy_same l h = ground arith

-- A configuration of version 5 and the one of version 6 that it becomes, with the number of
-- intermediates, at most three, as hops and with the sizes of the sessions under surb_balancing, give
-- the same configuration or fail with the same error, provided that the default strategy has no
-- allowlist.
pub migrate-same :
    (l : Edge) (c : V5.Config)
    → l.default_strategy.channel_allowlist ≡ none
    → V5.try_from l c ≡ Load.try_from l (migrate c)
unfolding V5.try_from Load.try_from
migrate-same l c h = rw (never_mismatched l c.connection) (
    rw (options_same l c.connection)
      (rw (destinations_same l c.destinations) (rw (strategy_same l h) refl)))
