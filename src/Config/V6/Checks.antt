-- ===== src/Config/V6/Checks.antt =====
-- gnosis_vpn-lib/src/config/v6.rs: the checks that `serde` runs on values while it reads them
-- (`deserialize_with`). The argument is what the file holds for the key.
use gnosis_vpn_client.Prelude.{
  ℕ, ◌^◌, String, Bool, ◌||◌, Option, none, some, Result, ok, err, leb, ◌==◌, if◌then◌else◌,
}
use gnosis_vpn_client.Config.Toml.{Integer, nonnegative, negative}

abbrev pub max_hops : ℕ
max_hops = 3

unfoldable pub validate_hops : ℕ → Result ℕ String
validate_hops value =
    if leb value max_hops then ok value else err "hops must be less than or equal to 3"

unfoldable pub validate_n_pings : Option ℕ → Result (Option ℕ) String
validate_n_pings none = ok none
validate_n_pings (some n) = if n == 0 then err "value must be greater than zero" else ok (some n)

-- `negative n` is -(n + 1). `u32::try_from` fails above the largest `u32`.
unfoldable pub validate_tunnel_ping_max_failures : Option Integer → Result (Option ℕ) String
validate_tunnel_ping_max_failures none = ok none
validate_tunnel_ping_max_failures (some (negative n)) =
    err "tunnel_ping_max_failures must be at least 1"
validate_tunnel_ping_max_failures (some (nonnegative n)) =
    if n == 0
    then err "tunnel_ping_max_failures must be at least 1"
    else if leb (2 ^ 32) n
    then err "tunnel_ping_max_failures is out of range"
    else ok (some n)

-- The bits of a float in [0.0, 1.0]: those of the non-negative floats are ordered as the floats are,
-- and -0.0 lies in the range. The bits of a NaN lie above those of 1.0.
unfoldable pub in_unit_range : ℕ → Bool
in_unit_range bits = leb bits 0x3FF0000000000000 || bits == 0x8000000000000000

unfoldable pub validate_path_planner_min_ack_rate : Option ℕ → Result (Option ℕ) String
unfolding in_unit_range
validate_path_planner_min_ack_rate none = ok none
validate_path_planner_min_ack_rate (some v) =
    if in_unit_range v
    then ok (some v)
    else err "path_planner_min_ack_rate must be in the range [0.0, 1.0]"
