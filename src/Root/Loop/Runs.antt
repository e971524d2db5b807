-- ===== src/Root/Loop/Runs.antt =====
-- gnosis_vpn-root/src/main.rs: runs of the daemon's main loop.
use gnosis_vpn_client.Prelude.{
  Bool, List, [], ◌∷◌, Result, ok, err, ◌≡◌, refl, ap, ◌∙◌, ◌++◌, arith,
}
use mathlib.Core.Path.{subst}
use gnosis_vpn_client.Root.State.{DaemonState, Answers, ExitCode}
use gnosis_vpn_client.Root.Lifecycle
use gnosis_vpn_client.Root.Lifecycle.{SignalMessage, shut_worker_down}
use gnosis_vpn_client.Root.Worker.{cleanup_worker_resources}
use gnosis_vpn_client.Root.Loop.{Input, signal, worker_exit, handle, daemon_loop}
use gnosis_vpn_client.Root.Loop.Phases.{
  Phase, ending, phase_of, next, is_readable, Leaves, handle-next,
}

-- The machine of the five phases over the inputs of a run.
abbrev pub run : List (Answers × Input) → Phase → Phase
run [] p = p
run ((a, i) ∷ rest) p = run rest (next (is_readable a.read_config) i p)

-- The loop goes on from where a handler left the daemon.
abbrev pub goes_on :
    List (Answers × Input)
    → Result (Unit {0}) ExitCode × DaemonState
    → Result (Unit {0}) ExitCode × DaemonState
goes_on rest (ok _, s) = daemon_loop rest s
goes_on rest (err code, s) = (err code, s)

goes_on-Leaves :
    (rest : List (Answers × Input)) (q : Phase) (r : Result (Unit {0}) ExitCode × DaemonState)
    → Leaves q r
    → ((s : DaemonState) → Leaves (run rest (phase_of s)) (daemon_loop rest s))
    → Leaves (run rest q) (goes_on rest r)
goes_on-Leaves rest q (ok _, s) h later = ground (arith, later s)
goes_on-Leaves rest q (err code, s) h later = tt

pub daemon_loop-goes_on :
    (a : Answers) (i : Input) (rest : List (Answers × Input)) (s : DaemonState)
    → daemon_loop ((a, i) ∷ rest) s ≡ goes_on rest (handle a i s)
unfolding daemon_loop
daemon_loop-goes_on a i rest s = ground arith

-- A run of the loop that returns has moved the daemon as the machine of the five phases moves
-- over the same inputs.
pub daemon_loop-run :
    (inputs : List (Answers × Input)) (s : DaemonState)
    → Leaves (run inputs (phase_of s)) (daemon_loop inputs s)
daemon_loop-run [] s = unfold daemon_loop in refl
daemon_loop-run ((a, i) ∷ rest) s = rw (daemon_loop-goes_on a i rest s) (
    goes_on-Leaves rest (next (is_readable a.read_config) i (phase_of s)) (handle a i s)
      (handle-next a i s) (daemon_loop-run rest))

-- The loop has ended with an exit code.
abbrev pub Ends : Result (Unit {0}) ExitCode × DaemonState → Type 0
Ends (ok _, s) = ⊥
Ends (err code, s) = Unit {0}

-- What ends a daemon that shuts down as a service.
pub data IsFinal : Input → Type 0 where
  second_signal : IsFinal (signal Lifecycle.shutdown)
  exited : (success : Bool) → IsFinal (worker_exit success)

next-ending : (readable : Bool) (i : Input) → next readable i ending ≡ ending
next-ending readable i = ground arith

handle-Ends :
    (a : Answers) (i : Input) (s : DaemonState)
    → IsFinal i
    → phase_of s ≡ ending
    → Ends (handle a i s)
unfolding handle Lifecycle.incoming_signal Lifecycle.incoming_worker_exit
handle-Ends a _ s second_signal h = ground arith
handle-Ends a _ s (exited success) h = ground arith

-- From a handler's result, the loop ends when it does from every state the handler can leave.
goes_on-Ends :
    (rest : List (Answers × Input)) (q : Phase) (r : Result (Unit {0}) ExitCode × DaemonState)
    → Leaves q r
    → ((s : DaemonState) → phase_of s ≡ q → Ends (daemon_loop rest s))
    → Ends (goes_on rest r)
goes_on-Ends rest q (ok _, s) h later = later s h
goes_on-Ends rest q (err code, s) h later = tt

ended-Ends :
    (rest : List (Answers × Input)) (r : Result (Unit {0}) ExitCode × DaemonState)
    → Ends r
    → Ends (goes_on rest r)
ended-Ends rest (ok _, s) h = elim h [ ]
ended-Ends rest (err code, s) h = tt

handle_ending :
    (a : Answers) (i : Input) (s : DaemonState) → phase_of s ≡ ending → Leaves ending (handle a i s)
handle_ending a i s h =
    subst (λ p. Leaves p (handle a i s))
      (ap (next (is_readable a.read_config) i) h ∙ next-ending (is_readable a.read_config) i)
      (handle-next a i s)

ending-Ends :
    (between : List (Answers × Input)) (b : Answers) (i : Input) (after : List (Answers × Input))
    (s : DaemonState)
    → IsFinal i
    → phase_of s ≡ ending
    → Ends (daemon_loop (between ++ (b, i) ∷ after) s)
ending-Ends [] b i after s final h =
    rw (daemon_loop-goes_on b i after s)
      (ended-Ends after (handle b i s) (handle-Ends b i s final h))
ending-Ends ((a, j) ∷ between) b i after s final h =
    rw (daemon_loop-goes_on a j (between ++ (b, i) ∷ after) s) (
      goes_on-Ends (between ++ (b, i) ∷ after) ending (handle a j s) (handle_ending a j s h)
        (λ s' h'. ending-Ends between b i after s' final h'))

signal-Leaves :
    (a : Answers) (s : DaemonState) → Leaves ending (handle a (signal Lifecycle.shutdown) s)
unfolding handle Lifecycle.incoming_signal shut_worker_down cleanup_worker_resources
signal-Leaves a s = ground arith

-- Once the signal to shut down has come, the exit of the worker or a second signal ends the
-- daemon, whatever comes in between and whatever the system answers.
pub shutdown_signal-Ends :
    (a b : Answers) (i : Input) (between after : List (Answers × Input)) (s : DaemonState)
    → IsFinal i
    → Ends (daemon_loop ((a, signal Lifecycle.shutdown) ∷ between ++ (b, i) ∷ after) s)
shutdown_signal-Ends a b i between after s final =
    rw (daemon_loop-goes_on a (signal Lifecycle.shutdown) (between ++ (b, i) ∷ after) s) (
      goes_on-Ends (between ++ (b, i) ∷ after) ending (handle a (signal Lifecycle.shutdown) s)
        (signal-Leaves a s) (λ s' h. ending-Ends between b i after s' final h))
