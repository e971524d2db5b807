-- ===== src/Config/V4/Keys.antt =====
-- gnosis_vpn-lib/src/config/v4.rs, `wrong_keys`.
use text.Mathlib.Text.{◌==◌}
use gnosis_vpn_client.Prelude.{String, ◌||◌, List, [], ◌∷◌, if◌then◌else◌}
use gnosis_vpn_client.Config.Toml.{Value, table, integer, other, Table, each, each_in, joined}
use gnosis_vpn_client.Config.V6.Keys.{ping_key}

unfoldable pub wireguard_key : String → Value → List String
wireguard_key k v =
    if k == "listen_port" || k == "allowed_ips" || k == "force_private_key"
    then []
    else joined "wireguard" k ∷ []

-- The path names the bridge for both protocols.
unfoldable pub protocol_key : String → Value → List String
protocol_key k v =
    if k == "capabilities" || k == "target" then [] else joined "connection.bridge" k ∷ []

unfoldable pub buffer_key : String → Value → List String
buffer_key k v =
    if k == "bridge" || k == "ping" || k == "main" then [] else joined "connection.buffer" k ∷ []

unfoldable pub max_surb_upstream_key : String → Value → List String
max_surb_upstream_key k v =
    if k == "bridge" || k == "ping" || k == "main"
    then []
    else joined "connection.max_surb_upstream" k ∷ []

unfoldable pub connection_key : String → Value → List String
unfolding protocol_key ping_key buffer_key max_surb_upstream_key
connection_key k v =
    if k == "http_timeout"
    then []
    else if k == "bridge" || k == "wg"
    then each_in protocol_key v
    else if k == "ping"
    then each_in ping_key v
    else if k == "buffer"
    then each_in buffer_key v
    else if k == "max_surb_upstream"
    then each_in max_surb_upstream_key v
    else joined "connection" k ∷ []

unfoldable pub dest_key : String → String → Value → List String
dest_key address k v =
    if k == "meta" || k == "path" then [] else joined (joined "destinations" address) k ∷ []

unfoldable pub destinations_key : String → Value → List String
unfolding dest_key
destinations_key address (table dest) = each (dest_key address) dest
destinations_key address (integer n) = joined "destinations" address ∷ []
destinations_key address (other n) = joined "destinations" address ∷ []

unfoldable pub root_key : String → Value → List String
unfolding wireguard_key connection_key destinations_key
root_key key value =
    if key == "version"
    then []
    else if key == "wireguard"
    then each_in wireguard_key value
    else if key == "connection"
    then each_in connection_key value
    else if key == "destinations"
    then each_in destinations_key value
    else key ∷ []

unfoldable pub wrong_keys : Table → List String
unfolding root_key
wrong_keys = each root_key
