-- ===== src/Examples/Attempts.antt =====
-- The theorems about connection attempts, the cache and the funds at concrete inputs.
use gnosis_vpn_client.Prelude.{ℕ, ◌≡◌, refl, false, none, some, List, [], ◌∷◌, ok, err}
use gnosis_vpn_client.Connection.Up.{Up, connected, main_kind}
use gnosis_vpn_client.Connection.Up
use gnosis_vpn_client.Connection.Down.{try_from}
use gnosis_vpn_client.Connection.Options.{SurbParams}
use gnosis_vpn_client.Connection.Runner.{Answers, PreviousConnection, run, run_tunnel, ping_error}
use gnosis_vpn_client.Connection.Attempt.{up_after, down_key, registered_key_is_undone}
use gnosis_vpn_client.Connection.PseudonymCache.{PseudonymCache}
use gnosis_vpn_client.Balance.{BalanceRecommendation, CapacityAllocator, safe, peer, Capacity}
use gnosis_vpn_client.Examples.Data.{exit_dest, session, wireguard, registration}

abbrev surb : SurbParams
surb = record {
  management = some (record { target_surb_buffer_size = 5; max_surbs_per_sec = 7 });
  always_max_out_surbs = false;
}

-- Everything goes well.
abbrev good : Answers
good = record {
  resolve_ips = ok (31 ∷ []);
  wg_from_config = ok wireguard;
  bridge_surb = ok surb;
  bridge = ok session;
  registration = ok registration;
  ping_surb = ok surb;
  ping_session = ok session;
  announced_ips = ok (32 ∷ []);
  wg_tunnel = ok 4;
  lockdown = ok tt;
  round_trip = ok 12;
  main_surb = ok surb;
  adjust = ok tt;
}

-- The ping through the tunnel fails.
abbrev bad_ping : Answers
bad_ping = record good { round_trip = err (ping_error "timeout") }

abbrev first_connection : PreviousConnection
first_connection = record { blokli_ips = []; pseudonym = none; wg_public_key = none }

registered_key_is_undone_example :
    down_key (try_from (up_after (Up.new exit_dest 0) (run bad_ping first_connection []).1) 20)
    ≡ some 42
unfolding run run_tunnel
registered_key_is_undone_example =
    registered_key_is_undone bad_ping first_connection (Up.new exit_dest 0) 20 42 refl

abbrev cache : PseudonymCache
cache = record { inner = []; ttl = 60 }

abbrev ideal : BalanceRecommendation
ideal = record { wxhopr = 100; xdai = 200_000_000_000 }

abbrev capacity : ℕ → Capacity
capacity stake = record {
  stake = stake;
  expected_messages = 20;
  min_guaranteed_messages = 10;
  byte_capacity = 1000;
}

abbrev allocations : List (CapacityAllocator × Capacity)
allocations = (safe, capacity 40) ∷ (peer 7, capacity 30) ∷ []
