-- ===== src/Connection/Attempt.antt =====
-- gnosis_vpn-lib/src/connection: what a connection attempt leaves behind, as the core sees it: the
-- core applies the progress events of the runner in order to the `Up` of the attempt.
use gnosis_vpn_client.Prelude.{
  ℕ, ◌≡◌, Bool, true, false, Option, none, some, List, [], ◌∷◌, Result, ok, err, arith, is_some,
  ◌==◌, any,
}
use gnosis_vpn_client.Connection.Up.{
  Up, SessionClientMetadata, main_kind, connect_progress, connected,
}
use gnosis_vpn_client.Connection.Down.{Down, try_from}
use gnosis_vpn_client.Connection.Runner.{
  Answers, PreviousConnection, Action, sent, registered, tunnel_asked, lockdown_asked, Error, run,
  run_tunnel,
}

abbrev pub up_after : Up → List Action → Up
up_after up [] = up
up_after up (sent p ∷ rest) = connect_progress (up_after up rest) p 0
up_after up (_ ∷ rest) = up_after up rest

abbrev pub down_key : Option Down → Option ℕ
down_key none = none
down_key (some d) = some d.wg_public_key

abbrev pub registers : ℕ → Action → Bool
registers key (registered k) = k == key
registers key _ = false

abbrev pub asks_lockdown : Action → Bool
asks_lockdown (lockdown_asked _ _) = true
asks_lockdown _ = false

abbrev pub is_ok : {A : Type 0} → Result A Error → Bool
is_ok (ok a) = true
is_ok (err e) = false

-- Whatever an attempt ends with, a key that it registered at the exit is the key that taking the
-- attempt down unregisters.
pub registered_key_is_undone :
    (a : Answers) (prev : PreviousConnection) (up : Up) (now key : ℕ)
    → any (registers key) (run a prev []).1 ≡ true
    → down_key (try_from (up_after up (run a prev []).1) now) ≡ some key
unfolding run run_tunnel connect_progress try_from
registered_key_is_undone a prev up now key h = ground arith

-- An attempt that succeeds has locked the killswitch down and leaves a key, a registration and the
-- session that it returns, which is the main session once the core marks the connection as made.
pub run_succeeds :
    (a : Answers) (prev : PreviousConnection) (up : Up) (now : ℕ) (session : SessionClientMetadata)
    → (run a prev []).0 ≡ ok session
    → let u = connected (up_after up (run a prev []).1) now in
      (any asks_lockdown (run a prev []).1 ≡ true)
      × (is_some u.wireguard ≡ true)
      × (is_some u.registration ≡ true)
      × (u.ping_session ≡ some (main_kind, session))
unfolding run run_tunnel connect_progress connected
run_succeeds a prev up now session h = ground arith

-- The peers of the last tunnel asked for.
abbrev pub tunnel_peers : List Action → Option (List ℕ)
tunnel_peers [] = none
tunnel_peers (tunnel_asked ips ∷ rest) = some ips
tunnel_peers (_ ∷ rest) = tunnel_peers rest

-- In a trace, newest first, the killswitch is asked for only after a tunnel, for its peers.
abbrev pub IsLockedAfterTunnel : List Action → Type 0
IsLockedAfterTunnel [] = Unit {0}
IsLockedAfterTunnel (lockdown_asked ips interface ∷ rest) =
    (tunnel_peers rest ≡ some ips) × IsLockedAfterTunnel rest
IsLockedAfterTunnel (_ ∷ rest) = IsLockedAfterTunnel rest

run_tunnel-IsLockedAfterTunnel :
    (a : Answers) (ips : List ℕ) (session : SessionClientMetadata) (t : List Action)
    → IsLockedAfterTunnel t
    → IsLockedAfterTunnel (run_tunnel a ips session t).1
unfolding run_tunnel
run_tunnel-IsLockedAfterTunnel a ips session t h = ground arith

-- An attempt asks for the killswitch only after the tunnel, for the peers that the tunnel was given.
pub run-IsLockedAfterTunnel :
    (a : Answers) (prev : PreviousConnection) → IsLockedAfterTunnel (run a prev []).1
unfolding run
run-IsLockedAfterTunnel a prev = grind (arith, run_tunnel-IsLockedAfterTunnel)
