-- ===== src/Connection/Runner.antt =====
-- gnosis_vpn-lib/src/connection/up/runner.rs: the steps of a connection attempt (`Runner::run`).
-- What each step answers, retries included, is the argument `Answers`; the result is that of the
-- attempt, with what it did, newest first: progress events sent, its key registered at the exit, the
-- cleanup of the bridge started, root asked for the tunnel and the killswitch, the session adjusted.
use gnosis_vpn_client.Prelude.{
  ℕ, String, Option, none, some, List, [], ◌∷◌, ◌++◌, Result, ok, err, if◌then◌else◌, is_empty,
}
use gnosis_vpn_client.Connection.Options.{SurbBalancerConfig, SurbParams}
use gnosis_vpn_client.Connection.Up.{
  WireGuard, Registration, SessionClientMetadata, Progress, resolve_blokli_ips, generate_wg,
  open_bridge, bridge_opened, register_wg, open_ping, peer_ips, killswitch_lockdown,
  static_wg_tunnel, ping, adjust_to_main,
}

pub data Error : Type 0 where
  hopr gvpn_client ping_error runtime surb_config routing wireguard remote_data : String → Error
  session_not_found session_ambiguous_client : Error

pub record Answers : Type 0 where
  pub resolve_ips : Result (List ℕ) Error
  pub wg_from_config : Result WireGuard Error
  pub bridge_surb : Result SurbParams Error
  pub bridge : Result SessionClientMetadata Error
  pub registration : Result Registration Error
  pub ping_surb : Result SurbParams Error
  pub ping_session : Result SessionClientMetadata Error
  pub announced_ips : Result (List ℕ) Error
  pub wg_tunnel : Result ℕ Error
  pub lockdown : Result (Unit {0}) Error
  pub round_trip : Result ℕ Error
  pub main_surb : Result SurbParams Error
  pub adjust : Result (Unit {0}) Error

pub record PreviousConnection : Type 0 where
  pub blokli_ips : List ℕ
  pub pseudonym : Option ℕ
  pub wg_public_key : Option ℕ

pub data Action : Type 0 where
  sent : Progress → Action
  registered : ℕ → Action
  cleanup_started : SessionClientMetadata → Option ℕ → Action
  tunnel_asked : List ℕ → Action
  lockdown_asked : List ℕ → ℕ → Action
  adjust_asked : ℕ → Action

abbrev pub M : Type 0 → Type 0
M A = List Action → Result A Error × List Action

infixl 5 ◌>>=◌ ◌>>◌
abbrev ◌>>=◌ : {A B : Type 0} → M A → (A → M B) → M B
◌>>=◌ m f t = let (r, t') = m t in elim r [ ok a ↦ f a t' | err e ↦ (err e, t') ]

abbrev ◌>>◌ : {B : Type 0} → M (Unit {0}) → M B → M B
m >> k = m >>= λ _. k

abbrev act : Action → M (Unit {0})
act a t = (ok tt, a ∷ t)

abbrev try_ : {A : Type 0} → Result A Error → M A
try_ r t = (r, t)

-- The one active client of the session, to which the main configuration goes.
abbrev adjust_client : Answers → List ℕ → M (Unit {0})
adjust_client a [] t = (err session_not_found, t)
adjust_client a (client ∷ []) t = (a.adjust, adjust_asked client ∷ t)
adjust_client a (c ∷ d ∷ cs) t = (err session_ambiguous_client, t)

abbrev adjust_main : Answers → List ℕ → Option SurbBalancerConfig → M (Unit {0})
adjust_main a clients none t = (ok tt, t)
adjust_main a clients (some config) t = adjust_client a clients t

-- Steps 7 to 11, from the ping session on.
unfoldable pub run_tunnel : Answers → List ℕ → SessionClientMetadata → M SessionClientMetadata
run_tunnel a blokli_ips session = do
  act (sent peer_ips)
  announced ← try_ a.announced_ips
  let ips = announced ++ blokli_ips
  act (sent (static_wg_tunnel session))
  act (tunnel_asked ips)
  interface ← try_ a.wg_tunnel
  act (sent killswitch_lockdown)
  act (lockdown_asked ips interface)
  try_ a.lockdown
  act (sent ping)
  round_trip_time ← try_ a.round_trip
  act (sent (adjust_to_main round_trip_time))
  main_surb ← try_ a.main_surb
  adjust_main a session.active_clients main_surb.management
  try_ (ok session)

-- Steps 1 to 6. A key counts as registered when the exit confirms it.
unfoldable pub run : Answers → PreviousConnection → M SessionClientMetadata
run a prev = do
  act (sent resolve_blokli_ips)
  blokli_ips ← try_ (if is_empty prev.blokli_ips then a.resolve_ips else ok prev.blokli_ips)
  act (sent (generate_wg blokli_ips))
  wg ← try_ a.wg_from_config
  act (sent (open_bridge wg))
  bridge_surb ← try_ a.bridge_surb
  bridge_session ← try_ a.bridge
  act (sent (bridge_opened bridge_session))
  act (sent register_wg)
  registration ← try_ a.registration
  act (registered wg.key_pair.public_key)
  act (sent (open_ping registration))
  act (cleanup_started bridge_session prev.wg_public_key)
  ping_surb ← try_ a.ping_surb
  session ← try_ a.ping_session
  run_tunnel a blokli_ips session
