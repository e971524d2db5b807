-- ===== src/Core/Pseudonyms.antt =====
-- gnosis_vpn-lib/src/core/mod.rs: the pseudonym that an attempt takes over from the connection
-- before it.
use gnosis_vpn_client.Prelude.{ℕ, ◌-◌, ◌<◌, ◌≡◌, ap, ◌∙◌, true, Option, some, arith, is_some, first}
use gnosis_vpn_client.Types.{Destination, ExitHealth}
use gnosis_vpn_client.Runtime.{spawned, connection_runner}
use gnosis_vpn_client.Connection.Up.{SessionKind, SessionClientMetadata}
use gnosis_vpn_client.Connection.PseudonymCache
use gnosis_vpn_client.Connection.PseudonymCache.{PseudonymCache, same_key, get-insert}
use gnosis_vpn_client.Core.State.{Core}
use gnosis_vpn_client.Core.Target.{
  ◌>>=◌, cache_pseudonym, spawn_connection_runner, spawn_connection_with, route_connecting,
}

get-insert_self :
    (cache : PseudonymCache) (d : Destination) (p at now : ℕ)
    → now - at < cache.ttl
    → (PseudonymCache.get (PseudonymCache.insert cache d p at) d now).0 ≡ some p
get-insert_self cache d p at now live = ground (arith, get-insert cache d d p at now)

spawn_connection_runner-log :
    (dest : Destination) (exit : ExitHealth) (key : Option ℕ) (now : ℕ) (c : Core)
    → is_some c.hopr ≡ true
    → first (spawn_connection_runner dest exit key now c).env.log
      ≡ some (
          spawned c.cancel_connection 0 (
            connection_runner dest c.cached_resolved_blokli_ips
              (PseudonymCache.get c.pseudonym_cache dest now).0
              key))
unfolding spawn_connection_runner spawn_connection_with route_connecting
spawn_connection_runner-log dest exit key now c h = ground arith

-- The first client of the session of a connection that ends, if it parses, is the pseudonym that the
-- next attempt to the same destination runs with, as long as less than the time to live has passed.
pseudonym_survives :
    (from_hex : ℕ → Option ℕ) (dest : Destination) (kind : SessionKind)
    (session : SessionClientMetadata) (exit : ExitHealth) (key : Option ℕ) (p at now : ℕ) (c : Core)
    → is_some c.hopr ≡ true
    → (first session.active_clients >>= from_hex) ≡ some p
    → now - at < c.pseudonym_cache.ttl
    → let d = cache_pseudonym from_hex dest (some (kind, session)) at c in
      first (spawn_connection_runner dest exit key now d).env.log
      ≡ some (
          spawned c.cancel_connection 0
            (connection_runner dest c.cached_resolved_blokli_ips (some p) key))
unfolding cache_pseudonym
pseudonym_survives from_hex dest kind session exit key p at now c h parsed live =
    let e : Core = record c {
      pseudonym_cache = PseudonymCache.insert c.pseudonym_cache dest p at;
    } in
    let cached : cache_pseudonym from_hex dest (some (kind, session)) at c ≡ e =
      ground (arith, parsed) in
    ap (λ x. first (spawn_connection_runner dest exit key now x).env.log) cached
    ∙ spawn_connection_runner-log dest exit key now e h
    ∙ ap
        (λ q. some (
          spawned c.cancel_connection 0
            (connection_runner dest c.cached_resolved_blokli_ips q key)))
        (get-insert_self c.pseudonym_cache dest p at now live)
