-- ===== src/Config/V5/Keys.antt =====
-- gnosis_vpn-lib/src/config/v5.rs, `wrong_keys`. The loops over the sections of WireGuard, blokli, a
-- protocol, ping, the intervals and the destinations are those of version 6.
use text.Mathlib.Text.{◌==◌}
use gnosis_vpn_client.Prelude.{String, not, ◌||◌, List, [], ◌∷◌, if◌then◌else◌}
use gnosis_vpn_client.Config.Toml.{Value, Table, each, each_in, joined}
use gnosis_vpn_client.Config.V6.Keys.{
  wireguard_key, blokli_key, protocol_key, ping_key, session_key, intervals_key, destinations_key,
}

unfoldable pub surb_key : String → Value → List String
unfolding session_key
surb_key session_key' session_val =
    if not (
      session_key' == "bridge"
      || session_key' == "ping"
      || session_key' == "main"
      || session_key' == "health_check")
    then joined "connection.surb_balancing" session_key' ∷ []
    else each_in (session_key session_key') session_val

unfoldable pub connection_key : String → Value → List String
unfolding protocol_key ping_key surb_key intervals_key
connection_key k v =
    if k == "http_timeout" || k == "announced_peer_minimum_score" || k == "lan_lockdown"
    then []
    else if k == "bridge" || k == "wg"
    then each_in (protocol_key k) v
    else if k == "ping"
    then each_in ping_key v
    else if k == "surb_balancing"
    then each_in surb_key v
    else if k == "health_check_intervals"
    then each_in intervals_key v
    else joined "connection" k ∷ []

unfoldable pub root_key : String → Value → List String
unfolding wireguard_key blokli_key connection_key destinations_key
root_key key value =
    if key == "version"
    then []
    else if key == "wireguard"
    then each_in wireguard_key value
    else if key == "blokli"
    then each_in blokli_key value
    else if key == "connection"
    then each_in connection_key value
    else if key == "destinations"
    then each_in destinations_key value
    else key ∷ []

unfoldable pub wrong_keys : Table → List String
unfolding root_key
wrong_keys = each root_key
