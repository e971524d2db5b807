-- ===== src/Worker/RoundTrip.antt =====
-- gnosis_vpn-root/src/main.rs and gnosis_vpn-worker/src/main.rs: the way of a command from the socket
-- over root and the worker to the core, and of its response back.
use gnosis_vpn_client.Prelude.{
  ℕ, ◌+◌, length, false, Option, none, some, List, [], ◌∷◌, Result, ok, err, ◌≡◌, ◌≢◌, arith,
}
use mathlib.Core.Path.{subst}
use gnosis_vpn_client.Prelude.Maps.{remove}
use gnosis_vpn_client.Core.Requests.{u64}
use gnosis_vpn_client.Root.Messages.{
  Response, force_reconnect_acknowledged, WorkerCommand, RootToWorker, response, worker_command,
}
use gnosis_vpn_client.Root.State.{DaemonState, to_worker, answered}
use gnosis_vpn_client.Root.State
use gnosis_vpn_client.Root.Commands.{handle_hybrid_cmd, ask_worker, worker_socket_command}
use gnosis_vpn_client.Root.Loop.{Input, handle, worker_line, daemon_loop}
use gnosis_vpn_client.Root.Loop.Phases.{phase_of, running}
use gnosis_vpn_client.Root.Loop.Soundness.{IsSound, u64-next}
use gnosis_vpn_client.Root.Loop.Responses.{IsUp, has_answer, response_reaches_command}
use gnosis_vpn_client.Worker.{
  Effect, to_root, command_to_core, Answers, step, incoming_command, command,
}
use gnosis_vpn_client.Worker

-- The last message that root wrote to the worker.
abbrev pub last_written : List State.Effect → Option RootToWorker
last_written [] = none
last_written (to_worker msg ∷ log) = some msg
last_written (_ ∷ log) = last_written log

-- The message with the command was written, and its id is the next one.
abbrev IsAsked : WorkerCommand → ℕ → {A : Type 0} → Result A State.ExitCode × DaemonState → Type 0
IsAsked cmd id (ok _, s) = last_written s.log ≡ some (worker_command cmd id)
IsAsked cmd id (err _, s) = Unit {0}

asked_lem :
    (a : State.Answers) (cmd : WorkerCommand) (channel : ℕ) (s : DaemonState)
    → u64 (s.pending_response_counter + 1) ≡ s.pending_response_counter + 1
    → phase_of s ≡ running
    → IsAsked cmd (s.pending_response_counter + 1) (worker_socket_command a cmd channel s)
unfolding worker_socket_command handle_hybrid_cmd ask_worker
asked_lem a cmd channel s fits up = ground (arith, fits)

-- A command for the worker that comes while the worker runs is written to it under the next id.
-- When the core responds to it and the worker can write, the worker writes the response under the
-- same id. When root reads this line, after a run that returns, in which the worker kept running and
-- did not respond to the id, it hands the response to the channel of the command and to no other:
-- provided that the response is not that of a forced reconnect, that the daemon is sound, and that
-- the counter of the ids does not wrap around while the command and the inputs of the run are handled.
pub command_round_trip :
    (a b : State.Answers) (w : Answers) (cmd : WorkerCommand) (channel : ℕ) (resp : Response)
    (between : List (State.Answers × Input)) (s s' s'' : DaemonState) (worker : Worker.State)
    → IsSound (length between + 1) s
    → phase_of s ≡ running
    → worker_socket_command a cmd channel s ≡ (ok tt, s')
    → w.core_response ≡ some resp
    → w.write (response (s.pending_response_counter + 1) resp) ≡ ok tt
    → IsUp between running
    → has_answer between (s.pending_response_counter + 1) ≡ false
    → daemon_loop between s' ≡ (ok tt, s'')
    → resp ≢ force_reconnect_acknowledged
    → (last_written s'.log ≡ some (worker_command cmd (s.pending_response_counter + 1)))
      × ((step w (command (worker_command cmd (s.pending_response_counter + 1))) worker).1.log
          ≡ to_root (response (s.pending_response_counter + 1) resp)
            ∷ command_to_core cmd
            ∷ worker.log)
      × (handle b (worker_line (some (response (s.pending_response_counter + 1) resp))) s'' ≡ (
        ok tt,
        record s'' {
          pending_responses = remove (s.pending_response_counter + 1) s''.pending_responses;
          log = answered channel resp ∷ s''.log;
        },
      ))
unfolding step incoming_command
command_round_trip a b w cmd channel resp between s s' s'' worker sound up asked responds writes ups
      others run other =
    (
      subst (IsAsked cmd (s.pending_response_counter + 1)) asked (
          asked_lem a cmd channel s (u64-next s.pending_response_counter (length between) sound.2)
            up),
      ground (arith, responds, writes),
      response_reaches_command a b cmd channel resp between s s' s'' sound up asked ups others run
          other,
    )
