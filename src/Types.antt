-- ===== src/Types.antt =====
-- The data that the components share: destinations and connection options
-- (gnosis_vpn-lib/src/connection/destination.rs, options.rs), what an exit reports of itself
-- (gvpn_client.rs) and the state of a route (route_health.rs).
--
-- Values that the code only stores, hands on or compares are numbers that stand for them:
-- destination ids, addresses, routings, keys, pseudonyms, the metadata of a destination. Durations
-- count nanoseconds. What the code does with the text of a message is kept, so messages are texts.
use gnosis_vpn_client.Prelude.{
  ℕ, ◌+◌, ◌*◌, String, Bool, true, Option, List, ◌==◌, ◌&&◌, ◌≡◌, arith, ◌↔◌,
}

abbrev pub from_secs : ℕ → ℕ
from_secs n = n * 1_000_000_000

abbrev pub from_millis : ℕ → ℕ
from_millis n = n * 1_000_000

-- `Duration::MAX`: u64::MAX seconds and 999_999_999 nanoseconds.
abbrev pub duration_max : ℕ
duration_max = 18_446_744_073_709_551_615 * 1_000_000_000 + 999_999_999

pub record Destination : Type 0 where
  pub id : ℕ
  pub meta : ℕ
  pub address : ℕ
  pub routing : ℕ

-- The derived `PartialEq`.
unfoldable pub Destination_eq : Destination → Destination → Bool
Destination_eq a b =
    a.id == b.id && (a.meta == b.meta && (a.address == b.address && a.routing == b.routing))

pub Destination_eq_iff : (a b : Destination) → (Destination_eq a b ≡ true) ↔ (a ≡ b)
unfolding Destination_eq
Destination_eq_iff a b = ground arith

pub record HealthCheckIntervals : Type 0 where
  pub ping : ℕ
  pub health_every_n_pings : ℕ
  pub version_every_n_pings : ℕ
  pub tunnel_ping : ℕ
  pub tunnel_ping_max_failures : ℕ

pub record Versions : Type 0 where
  pub versions : List String
  pub latest : String

pub record Slots : Type 0 where
  pub available : ℕ
  pub connected : ℕ

-- The load averages are floats that the code only prints.
pub record Health : Type 0 where
  pub slots : Slots
  pub load_avg : ℕ

pub data StaticNeed : Type 0 where
  any_channel : StaticNeed
  peering : ℕ → StaticNeed

pub data UnrecoverableReason : Type 0 where
  not_allowed invalid_path : UnrecoverableReason
  incompatible_api_version : List String → UnrecoverableReason

pub record ExitHealth : Type 0 where
  pub checked_at : ℕ
  pub versions : Versions
  pub ping_rtt : ℕ
  pub health : Health

pub data RouteHealthState : Type 0 where
  unrecoverable : UnrecoverableReason → RouteHealthState
  needs_peering : Bool → RouteHealthState
  needs_channel : RouteHealthState
  routable : RouteHealthState
  ready_to_connect : ExitHealth → RouteHealthState
  connecting : ExitHealth → Option ℕ → RouteHealthState

pub data HealthCheckOutcome : Type 0 where
  started : ℕ → HealthCheckOutcome
  unrecoverable_outcome : UnrecoverableReason → HealthCheckOutcome
  failed : ℕ → String → HealthCheckOutcome
  completed : ℕ → Option Versions → Option ℕ → Option Health → HealthCheckOutcome

pub record CheckScope : Type 0 where
  pub version : Bool
  pub health : Bool
