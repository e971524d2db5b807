-- ===== src/Examples/Routes.antt =====
-- The theorems about routes and their health checks at concrete inputs.
use gnosis_vpn_client.Prelude.{
  ℕ, ◌≤◌, ◌≡◌, refl, ◌⊎◌, true, false, String, some, List, [], ◌∷◌, Result, ok, err,
}
use gnosis_vpn_client.Types.{completed, failed, CheckScope}
use gnosis_vpn_client.RouteHealth.Tracker.{new, is_ready, is_connecting}
use gnosis_vpn_client.RouteHealth.Transitions.{peers, health_check_result, any_channel_available}
use gnosis_vpn_client.RouteHealth.Machine.{Op, op_peers, op_channel, op_outcome, step, run}
use gnosis_vpn_client.RouteHealth.Live.{live_checks, at_most_one_check}
use gnosis_vpn_client.RouteHealth.Runner.{Answers}
use gnosis_vpn_client.RouteHealth.Schedule.{sys_new, sys_run, sys_step, completed_promotes}
use gnosis_vpn_client.Examples.Data.{hops, exit_dest, intervals, env, versions, health}

-- Peers arrive, the channel is there, and the first check fails.
abbrev first_ops : List Op
first_ops = op_peers (7 ∷ []) 0 ∷ op_channel ∷ op_outcome (failed 1 "no session") ∷ []

at_most_one_check_example :
    live_checks 1 []
      (run exit_dest intervals (new hops exit_dest false false 0 env) first_ops).1.log
    ≤ 1
unfolding live_checks
at_most_one_check_example =
    at_most_one_check hops exit_dest false false 0 env intervals first_ops refl (tt, (tt, (tt, tt)))

completed_promotes_example :
    let s = sys_run exit_dest intervals (sys_new hops exit_dest false false 0 env) first_ops in
    (is_connecting s.rh.state ≡ true)
    ⊎ (is_ready
          (sys_step exit_dest intervals s
            (op_outcome (completed 2 (some versions) (some 40) (some health)))).rh.state
        ≡ true)
unfolding sys_run sys_step sys_new step new peers health_check_result any_channel_available
completed_promotes_example =
    completed_promotes hops exit_dest false false 0 env intervals first_ops 2 (some versions)
      (some 40) (some health) (tt, (tt, (tt, tt))) (refl, refl, refl)

abbrev pings : List (Result ℕ String)
pings = err "a" ∷ ok 12 ∷ err "b" ∷ err "c" ∷ []

abbrev full : CheckScope
full = record { version = true; health = true }

-- The exit opens a session and answers all but the ping.
abbrev no_ping : Answers
no_ping = record {
  session = ok 8;
  versions = ok versions;
  health = ok health;
  ping = err "timeout";
  ping_rtt = 0;
}
