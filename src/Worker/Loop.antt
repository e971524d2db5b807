-- ===== src/Worker/Loop.antt =====
-- gnosis_vpn-worker/src/main.rs: runs of the worker's loop.
use gnosis_vpn_client.Prelude.{ℕ, ◌+◌, ◌≤◌, Bool, true, false, List, [], ◌∷◌, arith}
use gnosis_vpn_client.Worker.{
  State, Effect, core_started, Answers, Input, new, step, daemon_loop, incoming_command,
}

-- How often a core was started.
abbrev pub starts : List Effect → ℕ
starts [] = 0
starts (core_started config ips target ∷ log) = starts log + 1
starts (_ ∷ log) = starts log

abbrev pub count : Bool → ℕ
count true = 1
count false = 0

-- Each start of a core took the receiver.
abbrev IsSingle : State → Type 0
IsSingle s = starts s.log + count s.receiver ≤ 1

step-IsSingle : (a : Answers) (i : Input) (s : State) → IsSingle s → IsSingle (step a i s).1
unfolding step incoming_command
step-IsSingle a i s single = ground arith

loop-IsSingle :
    (inputs : List (Answers × Input)) (s : State) → IsSingle s → IsSingle (daemon_loop inputs s).1
unfolding daemon_loop
loop-IsSingle [] s single = single
loop-IsSingle ((a, i) ∷ rest) s single =
    ground (arith, step-IsSingle a i s single, loop-IsSingle rest (step a i s).1)

-- Over any inputs and answers, a worker starts its core at most once.
pub one_core :
    (inputs : List (Answers × Input)) (log_handle : Bool)
    → starts (daemon_loop inputs (new log_handle)).1.log ≤ 1
unfolding new
one_core inputs log_handle = ground (arith, loop-IsSingle inputs (new log_handle) (omega arith))
