-- ===== src/Connection/Up.antt =====
-- gnosis_vpn-lib/src/connection/up/mod.rs: the progress of a connection attempt. Times are given by
-- the caller. Of a session's metadata the fields that are only handed on are one number.
use gnosis_vpn_client.Prelude.{ℕ, Bool, Option, none, some, List, String}
use gnosis_vpn_client.Types.{Destination}

pub record KeyPair : Type 0 where
  pub priv_key : ℕ
  pub public_key : ℕ

pub record WireGuard : Type 0 where
  pub config : ℕ
  pub key_pair : KeyPair

pub record Registration : Type 0 where
  pub public_key : ℕ
  pub ip : ℕ
  pub newly_registered : Bool
  pub server_public_key : ℕ
  pub preshared_key : ℕ

pub record SessionClientMetadata : Type 0 where
  pub bound_host : ℕ
  pub protocol : ℕ
  pub active_clients : List ℕ
  pub handed_on : ℕ

pub data SessionKind : Type 0 where
  ping_kind main_kind : SessionKind

pub data Progress : Type 0 where
  resolve_blokli_ips : Progress
  generate_wg : List ℕ → Progress
  open_bridge : WireGuard → Progress
  bridge_opened : SessionClientMetadata → Progress
  register_wg : Progress
  open_ping : Registration → Progress
  bridge_closed peer_ips killswitch_lockdown : Progress
  static_wg_tunnel : SessionClientMetadata → Progress
  ping : Progress
  adjust_to_main : ℕ → Progress

-- The setbacks carry the text of the error.
pub data Setback : Type 0 where
  open_bridge_failed register_wg_failed open_ping_failed ping_failed : String → Setback

pub data Event : Type 0 where
  progress : Progress → Event
  setback : Setback → Event

pub data Phase : Type 0 where
  init resolving_blokli_ips generating_wg opening_bridge registering_wg opening_ping : Phase
  gather_peer_ips lockdown establish_wg_tunnel verify_ping adjusting connection_established : Phase

pub record Up : Type 0 where
  pub destination : Destination
  pub since : ℕ
  pub phase : Phase
  pub wireguard : Option WireGuard
  pub registration : Option Registration
  pub bridge_session : Option SessionClientMetadata
  pub ping_session : Option (SessionKind × SessionClientMetadata)

unfoldable pub new : Destination → ℕ → Up
new destination now = record {
  destination = destination;
  since = now;
  phase = init;
  wireguard = none;
  registration = none;
  bridge_session = none;
  ping_session = none;
}

unfoldable pub connect_progress : Up → Progress → ℕ → Up
connect_progress up resolve_blokli_ips now = record up { since = now; phase = resolving_blokli_ips }
connect_progress up (generate_wg _) now = record up { since = now; phase = generating_wg }
connect_progress up (open_bridge wg) now = record up {
  since = now;
  phase = opening_bridge;
  wireguard = some wg;
}
connect_progress up (bridge_opened meta) now = record up { bridge_session = some meta }
connect_progress up register_wg now = record up { since = now; phase = registering_wg }
connect_progress up (open_ping reg) now = record up {
  since = now;
  phase = opening_ping;
  registration = some reg;
}
connect_progress up bridge_closed now = record up { bridge_session = none }
connect_progress up peer_ips now = record up { since = now; phase = gather_peer_ips }
connect_progress up killswitch_lockdown now = record up { since = now; phase = lockdown }
connect_progress up (static_wg_tunnel session) now = record up {
  since = now;
  phase = establish_wg_tunnel;
  ping_session = some (ping_kind, session);
}
connect_progress up ping now = record up { since = now; phase = verify_ping }
connect_progress up (adjust_to_main _) now = record up { since = now; phase = adjusting }

-- A ping session becomes the main session. The `take` drops a session of any other kind.
abbrev pub promoted :
    Option (SessionKind × SessionClientMetadata) → Option (SessionKind × SessionClientMetadata)
promoted (some (ping_kind, meta)) = some (main_kind, meta)
promoted _ = none

unfoldable pub connected : Up → ℕ → Up
connected up now = record up {
  since = now;
  phase = connection_established;
  ping_session = promoted up.ping_session;
}
