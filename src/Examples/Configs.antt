-- ===== src/Examples/Configs.antt =====
-- Configuration files at which the theorems about them are applied.
use mathlib.Core.Path.{subst}
use gnosis_vpn_client.Prelude.{
  ℕ, ◌<◌, ◌+◌, String, true, none, some, [], ◌∷◌, Result, ok, err, ◌≡◌, refl, arith, leb,
  if◌then◌else◌,
}
use gnosis_vpn_client.Prelude.Maps.{insert}
use gnosis_vpn_client.Connection.Options.{default_surb_balancing, surb_config_for}
use gnosis_vpn_client.Connection.Surbs.{Answer, surb_config_for-Answer}
use gnosis_vpn_client.Config.Parts.{Edge, Config, version_mismatch}
use gnosis_vpn_client.Config.Toml.{Table, nonnegative, integer, other, table, end, entry, get, each}
use gnosis_vpn_client.Config.V6.Sections
use gnosis_vpn_client.Config.V6.Checks.{validate_hops}
use gnosis_vpn_client.Config.V6.Convert
use gnosis_vpn_client.Config.V6.Load as V6
use gnosis_vpn_client.Config.V6.Load.{mismatched}
use gnosis_vpn_client.Config.V6.Keys.{wrong_keys}
use gnosis_vpn_client.Config.V6.Valid.{IsValid, TakesThreeHops, try_from-total}
use gnosis_vpn_client.Config.V5.Load as V5
use gnosis_vpn_client.Config.V5.Keys as V5Keys
use gnosis_vpn_client.Config.V5.Migrate.{migrate}
use gnosis_vpn_client.Config.V5.Reported.{mentions, buffer_honoured_and_reported}
use gnosis_vpn_client.Config.V4
use gnosis_vpn_client.Config.V3
use gnosis_vpn_client.Config.Migrate.{migrate_v4, migrate_v3, versions_agree}
use gnosis_vpn_client.Config.Read.{File, read}
use gnosis_vpn_client.Config.Read.Valid.{
  IsDecoded, EachIsChecked, PathIsChecked, OldPathIsChecked, read-IsValid,
}
use gnosis_vpn_client.Config.Read.Errors.{IsCongruent, read-unsupported}

abbrev edge : Edge
edge = record {
  capability_bits = λ c. 1;
  union_bits = λ a b. a + b;
  hop_routing = λ n. if leb n 3 then ok n else err "too many hops";
  address_text = λ a. a + 1_000;
  connection_sync_timeout = 7;
  default_strategy = record {
    desired_message_count = 10;
    min_open_channels = 1;
    target_open_channels = 3;
    channel_allowlist = none;
  };
}

abbrev v5_connection : V5.Connection
v5_connection = record {
  http_timeout = none;
  bridge = none;
  wg = none;
  ping = none;
  buffer = some (record { bridge = none; ping = none; main = some 64_000 });
  max_surb_upstream = none;
  announced_peer_minimum_score = none;
  health_check_intervals = none;
}

abbrev v4_config : V4.Config
v4_config = record {
  version = 4;
  destinations =
      some ((9, record { meta = none; path = some (V5.intermediates (1 ∷ 2 ∷ [])) }) ∷ []);
  connection = some v5_connection;
  wireguard = none;
  blokli = none;
}

abbrev v3_config : V3.Config
v3_config = record {
  version = 3;
  hoprd_node = record {
    endpoint = "http://localhost";
    api_token = "token";
    internal_connection_port = none;
  };
  destinations = v4_config.destinations;
  connection = none;
  wireguard = none;
  blokli = none;
}

abbrev v5_config : V5.Config
v5_config = migrate_v4 edge v4_config

abbrev dest : ℕ × Sections.Destination
dest = (5, record { address = 9; meta = none; path = some (Sections.hops 2) })

abbrev v6_config : Sections.Config
v6_config = record {
  version = 6;
  destinations = some (dest ∷ []);
  connection = none;
  wireguard = none;
  blokli = none;
  strategy = none;
}

abbrev connection_table : Table
connection_table =
    entry "lan_lockdown" (other 1) (entry "buffer" (table (entry "main" (other 2) end)) end)

abbrev file_table : ℕ → Table
file_table version =
    entry "version" (integer (nonnegative version))
      (entry "connection" (table connection_table) end)

abbrev file : ℕ → File
file version = record {
  contents = ok tt;
  parsed = ok (file_table version);
  v3 = ok v3_config;
  v4 = ok v4_config;
  v5 = ok v5_config;
  v6 = ok v6_config;
}

versions_agree_example :
    (V3.try_from edge v3_config
      ≡ V6.try_from edge (migrate (migrate_v4 edge (migrate_v3 v3_config))))
    × (V4.try_from edge v4_config ≡ V6.try_from edge (migrate (migrate_v4 edge v4_config)))
    × (V5.try_from edge v5_config ≡ V6.try_from edge (migrate v5_config))
versions_agree_example = versions_agree edge v3_config v4_config v5_config refl

-- The buffer of version 5 is no key of version 6.
wrong_keys_test : wrong_keys (file_table 6) ≡ "connection.buffer" ∷ []
unfolding wrong_keys each
wrong_keys_test = refl

buffer_honoured_and_reported_example :
    ((V5.options edge (some v5_connection)).surb_balancing.main.buffer ≡ 64_000)
    × (mentions "connection.buffer" (V5Keys.wrong_keys (file_table 5)) ≡ true)
unfolding get
buffer_honoured_and_reported_example =
    buffer_honoured_and_reported edge (file_table 5) connection_table
      (table (entry "main" (other 2) end)) v5_connection
      (record { bridge = none; ping = none; main = some 64_000 }) 64_000 refl refl refl refl

read-unsupported_example :
    (m : ℕ) × (m < 256)
    × IsCongruent (nonnegative 259) m
    × ((read edge (file 259)).0 ≡ err (version_mismatch m))
unfolding get
read-unsupported_example =
    read-unsupported edge (file 259) (file_table 259) (nonnegative 259) refl refl refl
      (λ h. omega arith)

surb_config_for-Answer_example :
    Answer
      (record { session_mtu = 1_000; surb_size = 400 })
      default_surb_balancing.main
      (surb_config_for
        (record { session_mtu = 1_000; surb_size = 400 })
        default_surb_balancing.main)
surb_config_for-Answer_example =
    surb_config_for-Answer (record { session_mtu = 1_000; surb_size = 400 })
      default_surb_balancing.main (omega arith) (omega arith)

takes_three : TakesThreeHops edge
takes_three n h = (n, ground arith)

try_from-total_example : (c : Config) × (V6.try_from edge v6_config ≡ ok c)
unfolding mismatched Convert.options
try_from-total_example =
    try_from-total edge v6_config dest [] takes_three refl (omega arith, tt) refl

ok-injective : {A : Type 0} {a b : A} → ◌≡◌ {A = Result A String} (ok a) (ok b) → a ≡ b
ok-injective h = cc

decoded : IsDecoded (file 4)
unfolding validate_hops
decoded = record {
  v6 = λ c h.
      subst
        (λ (c : Sections.Config).
          EachIsChecked (λ (d : Sections.Destination). PathIsChecked d.path) c.destinations)
        (ok-injective h) ((2, refl), tt);
  v5 = λ c h.
      subst
        (λ (c : V5.Config).
          EachIsChecked (λ (d : V5.Destination). OldPathIsChecked d.path) c.destinations)
        (ok-injective h) (tt, tt);
  v4 = λ c h.
      subst
        (λ (c : V4.Config).
          EachIsChecked (λ (d : V4.Destination). OldPathIsChecked d.path) c.destinations)
        (ok-injective h) (tt, tt);
  v3 = λ c h.
      subst
        (λ (c : V3.Config).
          EachIsChecked (λ (d : V4.Destination). OldPathIsChecked d.path) c.destinations)
        (ok-injective h) (tt, tt);
}

abbrev read_config : Config
read_config = record {
  connection = V5.options edge (some v5_connection);
  destinations = (1_009, record { id = 1_009; meta = 0; address = 9; routing = 2 }) ∷ [];
  wireguard = Convert.wireguard none;
  blokli = Convert.blokli edge none;
  strategy = edge.default_strategy;
}

read_v4 : (read edge (file 4)).0 ≡ ok read_config
unfolding read get V4.try_from insert
read_v4 = refl

read-IsValid_example : IsValid edge read_config
read-IsValid_example = read-IsValid edge (file 4) read_config refl decoded read_v4
