-- ===== src/Config/V3/Keys.antt =====
-- gnosis_vpn-lib/src/config/v3.rs, `wrong_keys`. The loops over WireGuard, the sizes of the balancer
-- and the destinations are those of version 4.
use text.Mathlib.Text.{◌==◌}
use gnosis_vpn_client.Prelude.{String, ◌||◌, List, [], ◌∷◌, if◌then◌else◌}
use gnosis_vpn_client.Config.Toml.{Value, Table, each, each_in, joined}
use gnosis_vpn_client.Config.V4.Keys.{
  wireguard_key, buffer_key, max_surb_upstream_key, destinations_key,
}

unfoldable pub hoprd_node_key : String → Value → List String
hoprd_node_key k v =
    if k == "endpoint" || k == "api_token" || k == "internal_connection_port"
    then []
    else joined "hoprd_node" k ∷ []

unfoldable pub protocol_key : String → Value → List String
protocol_key k v =
    if k == "capabilities" || k == "target" || k == "target_type"
    then []
    else joined "connection.bridge" k ∷ []

unfoldable pub interval_key : String → Value → List String
interval_key k v = if k == "min" || k == "max" then [] else joined "connection.ping.interval" k ∷ []

unfoldable pub ping_key : String → Value → List String
unfolding interval_key
ping_key k v =
    if k == "address" || k == "timeout" || k == "ttl" || k == "seq_count"
    then []
    else if k == "interval"
    then each_in interval_key v
    else joined "connection.ping" k ∷ []

unfoldable pub connection_key : String → Value → List String
unfolding protocol_key ping_key buffer_key max_surb_upstream_key
connection_key k v =
    if k == "listen_host"
    then []
    else if k == "http_timeout"
    then []
    else if k == "session_timeout"
    then []
    else if k == "ping_retries_timeout"
    then []
    else if k == "bridge" || k == "wg"
    then each_in protocol_key v
    else if k == "ping"
    then each_in ping_key v
    else if k == "buffer"
    then each_in buffer_key v
    else if k == "max_surb_upstream"
    then each_in max_surb_upstream_key v
    else joined "connection" k ∷ []

unfoldable pub root_key : String → Value → List String
unfolding hoprd_node_key wireguard_key connection_key destinations_key
root_key key value =
    if key == "version"
    then []
    else if key == "hoprd_node"
    then each_in hoprd_node_key value
    else if key == "wireguard"
    then each_in wireguard_key value
    else if key == "connection"
    then each_in connection_key value
    else if key == "destinations"
    then each_in destinations_key value
    else key ∷ []

unfoldable pub wrong_keys : Table → List String
unfolding root_key
wrong_keys = each root_key
