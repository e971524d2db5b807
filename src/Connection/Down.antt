-- ===== src/Connection/Down.antt =====
-- gnosis_vpn-lib/src/connection/down/mod.rs: the progress of a disconnection.
use gnosis_vpn_client.Prelude.{ℕ, Option, none, some}
use gnosis_vpn_client.Types.{Destination}
use gnosis_vpn_client.Connection.Up.{Up, WireGuard}

pub data Phase : Type 0 where
  disconnecting opening_bridge unregistering_wg closing_bridge : Phase

pub data Event : Type 0 where
  open_bridge unregister_wg close_bridge : Event

pub record Down : Type 0 where
  pub destination : Destination
  pub since : ℕ
  pub phase : Phase
  pub wg_public_key : ℕ

abbrev pub of_wireguard : Destination → ℕ → Option WireGuard → Option Down
of_wireguard destination now (some wg) = some (record {
  destination = destination;
  since = now;
  phase = disconnecting;
  wg_public_key = wg.key_pair.public_key;
})
of_wireguard destination now none = none

-- `TryFrom<&Up>`: an attempt that made no key has nothing to take down.
unfoldable pub try_from : Up → ℕ → Option Down
try_from up now = of_wireguard up.destination now up.wireguard

unfoldable pub disconnect_evt : Down → Event → ℕ → Down
disconnect_evt down open_bridge now = record down { since = now; phase = opening_bridge }
disconnect_evt down unregister_wg now = record down { since = now; phase = unregistering_wg }
disconnect_evt down close_bridge now = record down { since = now; phase = closing_bridge }
