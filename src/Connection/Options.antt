-- ===== src/Connection/Options.antt =====
-- gnosis_vpn-lib/src/connection/options.rs and the options of ping.rs: the options of a connection
-- with their defaults, and the parameters that keep a session supplied with SURBs.
--
-- Byte sizes count bytes, bandwidths bits per second, durations nanoseconds. A float is the number of
-- its IEEE 754 bits. The sizes of the session library are the record `SessionSizes`; the other fields
-- of its `SurbBalancerConfig` have its defaults and are left out.
use gnosis_vpn_client.Prelude.{
  ℕ, ◌+◌, ◌*◌, ◌/◌, ◌^◌, Bool, true, false, Option, none, some, Result, ok, err, ltb, leb, ◌==◌,
  if◌then◌else◌,
}
use gnosis_vpn_client.Types.{HealthCheckIntervals, from_secs}

pub record SocketAddr : Type 0 where
  pub ip : ℕ
  pub port : ℕ

-- `Ipv4Addr::new`.
abbrev pub ipv4 : ℕ → ℕ → ℕ → ℕ → ℕ
ipv4 a b c d = a * 2 ^ 24 + b * 2 ^ 16 + c * 2 ^ 8 + d

pub data SessionTarget : Type 0 where
  tcp_stream udp_stream : SocketAddr → SessionTarget

pub record SessionParameters : Type 0 where
  pub target : SessionTarget
  pub capabilities : ℕ

pub record Sessions : Type 0 where
  pub bridge : SessionParameters
  pub wg : SessionParameters

pub record Timeouts : Type 0 where
  pub http : ℕ

pub record PingOptions : Type 0 where
  pub address : ℕ
  pub timeout : ℕ
  pub ttl : ℕ
  pub seq_count : ℕ

pub record SessionSurbOptions : Type 0 where
  pub enabled : Bool
  pub buffer : ℕ
  pub max_surb_upstream : ℕ
  pub always_max_out_surbs : Bool

pub record SurbBalancing : Type 0 where
  pub ping : SessionSurbOptions
  pub main : SessionSurbOptions
  pub bridge : SessionSurbOptions
  pub health_check : SessionSurbOptions

pub record Options : Type 0 where
  pub timeouts : Timeouts
  pub sessions : Sessions
  pub ping_options : PingOptions
  pub surb_balancing : SurbBalancing
  pub health_check_intervals : HealthCheckIntervals
  pub lan_lockdown : Bool
  pub session_pseudonym_ttl : ℕ
  pub path_planner_min_ack_rate : ℕ

-- `SessionSurbOptions::new`.
abbrev pub session_surb : Bool → ℕ → ℕ → SessionSurbOptions
session_surb enabled buffer max_surb_upstream = record {
  enabled = enabled;
  buffer = buffer;
  max_surb_upstream = max_surb_upstream;
  always_max_out_surbs = enabled;
}

abbrev pub kb : ℕ → ℕ
kb n = n * 1_000

abbrev pub mb : ℕ → ℕ
mb n = n * 1_000_000

abbrev pub from_kbps : ℕ → ℕ
from_kbps n = n * 1_000

abbrev pub from_mbps : ℕ → ℕ
from_mbps n = n * 1_000_000

-- The `Default` of each of the options.
abbrev pub default_surb_balancing : SurbBalancing
default_surb_balancing = record {
  ping = session_surb true (mb 1) (from_kbps 512);
  main = session_surb true (mb 10) (from_mbps 16);
  bridge = session_surb false (kb 16) (from_kbps 128);
  health_check = session_surb false (kb 16) (from_kbps 128);
}

abbrev pub default_health_check_intervals : HealthCheckIntervals
default_health_check_intervals = record {
  ping = from_secs 15;
  health_every_n_pings = 4;
  version_every_n_pings = 20;
  tunnel_ping = from_secs 10;
  tunnel_ping_max_failures = 3;
}

abbrev pub default_ping_options : PingOptions
default_ping_options = record {
  address = ipv4 10 128 0 1;
  timeout = from_secs 15;
  ttl = 6;
  seq_count = 3;
}

-- The bits of 0.1.
abbrev pub default_path_planner_min_ack_rate : ℕ
default_path_planner_min_ack_rate = 0x3FB999999999999A

pub record SurbBalancerConfig : Type 0 where
  pub target_surb_buffer_size : ℕ
  pub max_surbs_per_sec : ℕ

pub record SurbParams : Type 0 where
  pub management : Option SurbBalancerConfig
  pub always_max_out_surbs : Bool

pub data SurbConfigError : Type 0 where
  response_buffer_too_small max_surb_upstream_cannot_be_zero max_surbs_per_sec_overflow :
      SurbConfigError

-- `SESSION_MTU` and `SURB_SIZE`.
pub record SessionSizes : Type 0 where
  pub session_mtu : ℕ
  pub surb_size : ℕ

-- `u64::try_from` of the rate fails above the largest `u64`.
unfoldable pub to_surb_balancer_config :
    SessionSizes → ℕ → ℕ → Result SurbBalancerConfig SurbConfigError
to_surb_balancer_config sizes response_buffer max_surb_upstream =
    if ltb response_buffer (2 * sizes.session_mtu)
    then err response_buffer_too_small
    else if max_surb_upstream == 0
    then err max_surb_upstream_cannot_be_zero
    else let rate = max_surb_upstream / (8 * sizes.surb_size) in
      if leb (2 ^ 64) rate
      then err max_surbs_per_sec_overflow
      else ok (record {
        target_surb_buffer_size = response_buffer / sizes.session_mtu;
        max_surbs_per_sec = rate;
      })

unfoldable pub managed :
    Bool → Result SurbBalancerConfig SurbConfigError → Result SurbParams SurbConfigError
managed always (ok config) = ok (record { management = some config; always_max_out_surbs = always })
managed always (err e) = err e

unfoldable pub surb_config_for :
    SessionSizes → SessionSurbOptions → Result SurbParams SurbConfigError
unfolding managed to_surb_balancer_config
surb_config_for sizes opts =
    if opts.enabled
    then managed opts.always_max_out_surbs
        (to_surb_balancer_config sizes opts.buffer opts.max_surb_upstream)
    else ok (record { management = none; always_max_out_surbs = opts.always_max_out_surbs })
