-- ===== src/Config/V6/Known.antt =====
-- The keys that a configuration file of version 6 may have, and that `wrong_keys` finds the others.
use gnosis_vpn_client.Prelude.{String, List}
use gnosis_vpn_client.Config.Toml.{Value, table, other, Table, end, entry, each_in, joined}
use gnosis_vpn_client.Config.Schema.{any, keys, ids, Fields, nothing_else, key, unknown_key}

abbrev dns_fields : Fields
dns_fields = key "overwrite" any (key "servers" any nothing_else)

abbrev wireguard_fields : Fields
wireguard_fields =
    key "listen_port" any (
      key "allowed_ips" any
        (key "force_private_key" any (key "dns" (keys dns_fields) nothing_else)))

abbrev blokli_fields : Fields
blokli_fields = key "connection_sync_timeout" any (key "sync_tolerance" any nothing_else)

abbrev protocol_fields : Fields
protocol_fields = key "capabilities" any (key "target" any nothing_else)

abbrev ping_fields : Fields
ping_fields =
    key "address" any (key "timeout" any (key "ttl" any (key "seq_count" any nothing_else)))

abbrev session_fields : Fields
session_fields =
    key "enabled" any
      (key "buffer" any (key "max_surb_upstream" any (key "always_max_out_surbs" any nothing_else)))

abbrev surb_fields : Fields
surb_fields =
    let session = keys session_fields in
    key "ping" session
      (key "main" session (key "bridge" session (key "health_check" session nothing_else)))

abbrev intervals_fields : Fields
intervals_fields = key "ping" any (
    key "health_every_n_pings" any (
      key "version_every_n_pings" any
        (key "tunnel_ping" any (key "tunnel_ping_max_failures" any nothing_else))))

-- `Connection`, with keys beside its fields.
abbrev connection_with : (Fields → Fields) → Fields
connection_with extra = key "http_timeout" any (
    extra (
      key "lan_lockdown" any (
        key "session_pseudonym_ttl" any (
          key "path_planner_min_ack_rate" any (
            key "bridge" (keys protocol_fields) (
              key "wg" (keys protocol_fields) (
                key "ping" (keys ping_fields) (
                  key "surb_balancing" (keys surb_fields)
                    (key "health_check_intervals" (keys intervals_fields) nothing_else)))))))))

abbrev dest_fields : Fields
dest_fields = key "address" any (key "meta" any (key "path" any nothing_else))

abbrev allowlist_fields : Fields
allowlist_fields = key "enabled" any (key "peers" any nothing_else)

abbrev strategy_fields : Fields
strategy_fields = key "desired_message_count" any (
    key "min_open_channels" any (
      key "target_open_channels" any
        (key "channel_allowlist" (keys allowlist_fields) nothing_else)))

abbrev pub schema_with : (Fields → Fields) → Fields
schema_with extra = key "version" any (
    key "wireguard" (keys wireguard_fields) (
      key "blokli" (keys blokli_fields) (
        key "connection" (keys (connection_with extra)) (
          key "destinations" (ids dest_fields)
            (key "strategy" (keys strategy_fields) nothing_else)))))

-- The fields of the sections of version 6.
abbrev pub schema : Fields
schema = schema_with (λ fields. fields)

-- A key of the connection that is none of its fields.
abbrev pub stray : Fields → Fields
stray fields = key "announced_peer_minimum_score" any fields

-- A file that has this key alone.
abbrev pub stray_file : Table
stray_file = entry "connection" (table (entry "announced_peer_minimum_score" (other 1) end)) end

abbrev keys_of_protocol : Value → String → List String
keys_of_protocol v n = each_in (unknown_key protocol_fields (joined (joined "connection" n))) v
