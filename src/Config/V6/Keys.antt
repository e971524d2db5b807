-- ===== src/Config/V6/Keys.antt =====
-- gnosis_vpn-lib/src/config/v6.rs, `wrong_keys`: the keys of a file that are not supported, one
-- function for each nested loop.
use text.Mathlib.Text.{◌==◌}
use gnosis_vpn_client.Prelude.{String, ◌||◌, List, [], ◌∷◌, if◌then◌else◌}
use gnosis_vpn_client.Config.Toml.{Value, table, integer, other, Table, each, each_in, joined}

unfoldable pub dns_key : String → Value → List String
dns_key k v = if k == "overwrite" || k == "servers" then [] else joined "wireguard.dns" k ∷ []

unfoldable pub wireguard_key : String → Value → List String
unfolding dns_key
wireguard_key k v =
    if k == "listen_port" || k == "allowed_ips" || k == "force_private_key"
    then []
    else if k == "dns"
    then each_in dns_key v
    else joined "wireguard" k ∷ []

unfoldable pub blokli_key : String → Value → List String
blokli_key k v =
    if k == "connection_sync_timeout" || k == "sync_tolerance" then [] else joined "blokli" k ∷ []

unfoldable pub protocol_key : String → String → Value → List String
protocol_key k k2 v =
    if k2 == "capabilities" || k2 == "target" then [] else joined (joined "connection" k) k2 ∷ []

unfoldable pub ping_key : String → Value → List String
ping_key k2 v =
    if k2 == "address" || k2 == "timeout" || k2 == "ttl" || k2 == "seq_count"
    then []
    else joined "connection.ping" k2 ∷ []

unfoldable pub session_key : String → String → Value → List String
session_key k2 k3 v =
    if k3 == "enabled"
      || k3 == "buffer"
      || k3 == "max_surb_upstream"
      || k3 == "always_max_out_surbs"
    then []
    else joined (joined "connection.surb_balancing" k2) k3 ∷ []

unfoldable pub surb_key : String → Value → List String
unfolding session_key
surb_key k2 v2 =
    if k2 == "ping" || k2 == "main" || k2 == "bridge" || k2 == "health_check"
    then each_in (session_key k2) v2
    else joined "connection.surb_balancing" k2 ∷ []

unfoldable pub intervals_key : String → Value → List String
intervals_key k2 v =
    if k2 == "ping"
      || k2 == "health_every_n_pings"
      || k2 == "version_every_n_pings"
      || k2 == "tunnel_ping"
      || k2 == "tunnel_ping_max_failures"
    then []
    else joined "connection.health_check_intervals" k2 ∷ []

unfoldable pub connection_key : String → Value → List String
unfolding protocol_key ping_key surb_key intervals_key
connection_key k v =
    if k == "http_timeout"
      || k == "announced_peer_minimum_score"
      || k == "lan_lockdown"
      || k == "session_pseudonym_ttl"
      || k == "path_planner_min_ack_rate"
    then []
    else if k == "bridge" || k == "wg"
    then each_in (protocol_key k) v
    else if k == "ping"
    then each_in ping_key v
    else if k == "surb_balancing"
    then each_in surb_key v
    else if k == "health_check_intervals"
    then each_in intervals_key v
    else joined "connection" k ∷ []

unfoldable pub dest_key : String → String → Value → List String
dest_key id k v =
    if k == "address" || k == "meta" || k == "path"
    then []
    else joined (joined "destinations" id) k ∷ []

unfoldable pub destinations_key : String → Value → List String
unfolding dest_key
destinations_key id (table dest) = each (dest_key id) dest
destinations_key id (integer n) = joined "destinations" id ∷ []
destinations_key id (other n) = joined "destinations" id ∷ []

unfoldable pub allowlist_key : String → Value → List String
allowlist_key k2 v =
    if k2 == "enabled" || k2 == "peers" then [] else joined "strategy.channel_allowlist" k2 ∷ []

unfoldable pub strategy_key : String → Value → List String
unfolding allowlist_key
strategy_key k v =
    if k == "desired_message_count" || k == "min_open_channels" || k == "target_open_channels"
    then []
    else if k == "channel_allowlist"
    then each_in allowlist_key v
    else joined "strategy" k ∷ []

unfoldable pub root_key : String → Value → List String
unfolding wireguard_key blokli_key connection_key destinations_key strategy_key
root_key key value =
    if key == "version"
    then []
    else if key == "wireguard"
    then each_in wireguard_key value
    else if key == "blokli"
    then each_in blokli_key value
    else if key == "connection"
    then each_in connection_key value
    else if key == "destinations"
    then each_in destinations_key value
    else if key == "strategy"
    then each_in strategy_key value
    else key ∷ []

unfoldable pub wrong_keys : Table → List String
unfolding root_key
wrong_keys = each root_key
