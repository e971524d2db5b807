-- ===== src/Root/Loop/Outcomes.antt =====
-- gnosis_vpn-root/src/main.rs: with which exit code a handler ends the daemon.
use gnosis_vpn_client.Prelude.{
  ℕ, ◌+◌, Bool, true, false, String, Option, none, some, Result, ok, err, ◌≡◌, refl, arith,
}
use gnosis_vpn_client.Core.State.{
  RequestToRoot, killswitch_lockdown, static_wg_routing, tear_down_wg, ping, cache_blokli_ips,
  update_peer_ips, Answer, unit_answer, str_answer, duration_answer,
}
use gnosis_vpn_client.Core.Requests.{u64}
use gnosis_vpn_client.Root.Messages.{
  Command, start_client, stop_client, WorkerCommand, Response, WorkerToRoot, response,
  request_to_root, RootToWorker,
}
use gnosis_vpn_client.Root.State.{
  DaemonState, Answers, ExitCode, not_ongoing, ok_code, ioerr, tempfail, dataerr,
}
use gnosis_vpn_client.Root.Worker.{setup_worker, cleanup_worker_resources}
use gnosis_vpn_client.Root.Commands.{
  handle_hybrid_cmd, ask_worker, worker_socket_command, incoming_root_command,
  incoming_socket_command,
}
use gnosis_vpn_client.Root.Requests.{
  incoming_worker_response, outgoing_response_from_root, incoming_worker_request,
  incoming_worker_line, ping_joined,
}
use gnosis_vpn_client.Root.Lifecycle
use gnosis_vpn_client.Root.Lifecycle.{SignalMessage, shut_worker_down}
use gnosis_vpn_client.Root.Loop.{
  Input, signal, socket_cmd, config_changed, ping_task, worker_line, worker_exit,
  keep_alive_expired, reconnect, channels_closed, handle,
}
use gnosis_vpn_client.Root.Loop.Phases.{Phase, off, running, ending, phase_of}

-- The system does what it is asked: every write, the start of a worker and the new log file.
abbrev pub IsWilling : Answers → Type 0
IsWilling a =
    ((msg : RootToWorker) → a.write msg ≡ ok tt) × (a.spawn ≡ ok tt) × (a.reload_log ≡ true)

abbrev pub on_signal : Phase → Result (Unit {0}) ExitCode
on_signal off = err ok_code
on_signal ending = err ok_code
on_signal _ = ok tt

abbrev pub on_client_command : Phase → Result (Unit {0}) ExitCode
on_client_command ending = err tempfail
on_client_command _ = ok tt

abbrev pub on_exit : Phase → Bool → Result (Unit {0}) ExitCode
on_exit ending true = err ok_code
on_exit ending false = err ioerr
on_exit off false = err tempfail
on_exit running false = err tempfail
on_exit _ _ = ok tt

-- Whether an input ends the daemon in a phase, and with which code.
abbrev pub outcome : Phase → Input → Result (Unit {0}) ExitCode
outcome p (signal Lifecycle.shutdown) = on_signal p
outcome p (socket_cmd (start_client _) _) = on_client_command p
outcome p (socket_cmd stop_client _) = on_client_command p
outcome p (worker_line none) = err dataerr
outcome p (worker_exit success) = on_exit p success
outcome p channels_closed = err ioerr
outcome p _ = ok tt

module _ (a : Answers) (willing : IsWilling a) where
  signal-outcome :
      (m : SignalMessage) (s : DaemonState)
      → (Lifecycle.incoming_signal a m s).0 ≡ outcome (phase_of s) (signal m)
  unfolding Lifecycle.incoming_signal shut_worker_down cleanup_worker_resources
  signal-outcome Lifecycle.shutdown s = ground (arith, willing.0 RootToWorker.shutdown)
  signal-outcome Lifecycle.rotate_logs s =
      ground (arith, willing.0 RootToWorker.rotate_logs, willing.2)

  config_change-outcome : (s : DaemonState) → (Lifecycle.incoming_config_change a s).0 ≡ ok tt
  unfolding Lifecycle.incoming_config_change shut_worker_down cleanup_worker_resources
  config_change-outcome s = ground (arith, willing.0 RootToWorker.shutdown)

  setup_worker-outcome : (s : DaemonState) → (setup_worker a s).0 ≡ ok tt
  unfolding setup_worker
  setup_worker-outcome s = ground (
    arith,
    willing.0 (RootToWorker.startup_params s.config s.cached_blokli_ips s.target_dest_id),
    willing.1,
  )

  restart-outcome : (s : DaemonState) → (Lifecycle.restart_exited_worker a s).0 ≡ ok tt
  restart-outcome s = ground (arith, setup_worker-outcome s)

  worker_exit-outcome :
      (success : Bool) (s : DaemonState)
      → (Lifecycle.incoming_worker_exit a success s).0 ≡ outcome (phase_of s) (worker_exit success)
  unfolding Lifecycle.incoming_worker_exit
  worker_exit-outcome success s = ground (
    arith,
    restart-outcome (record s { worker_child = false }),
    restart-outcome (record s { worker_child = false; shutdown_ongoing = not_ongoing }),
  )

  expired-outcome : (s : DaemonState) → (Lifecycle.keep_alive_expired a s).0 ≡ ok tt
  unfolding Lifecycle.keep_alive_expired shut_worker_down cleanup_worker_resources
  expired-outcome s = ground (arith, willing.0 RootToWorker.shutdown)

  reconnect-outcome :
      (s : DaemonState) → (Lifecycle.force_reconnect_on_network_change a s).0 ≡ ok tt
  unfolding Lifecycle.force_reconnect_on_network_change
  reconnect-outcome s = ground arith

  answer-outcome :
      (id : ℕ) (res : Answer) (s : DaemonState) → (outgoing_response_from_root a id res s).0 ≡ ok tt
  unfolding outgoing_response_from_root
  answer-outcome id res s = ground (arith, willing.0 (RootToWorker.response_from_root id res))

  ping_task-outcome :
      (id : ℕ) (res : Option (Result ℕ String)) (s : DaemonState)
      → (ping_joined a id res s).0 ≡ ok tt
  unfolding ping_joined
  ping_task-outcome id (some res) s = answer-outcome id (duration_answer res) _
  ping_task-outcome id none s = refl

  request-outcome :
      (request : RequestToRoot) (s : DaemonState) → (incoming_worker_request a request s).0 ≡ ok tt
  unfolding incoming_worker_request
  request-outcome (killswitch_lockdown id ips interface) s =
      answer-outcome id (unit_answer a.killswitch) _
  request-outcome (static_wg_routing id wg ips) s = answer-outcome id (str_answer a.routing) _
  request-outcome tear_down_wg s = refl
  request-outcome (ping id options) s = refl
  request-outcome (cache_blokli_ips ips) s = refl
  request-outcome (update_peer_ips ips) s = refl

  response-outcome :
      (id : ℕ) (resp : Response) (s : DaemonState) → (incoming_worker_response id resp s).0 ≡ ok tt
  unfolding incoming_worker_response
  response-outcome id resp s = ground arith

  line-outcome :
      (line : Option WorkerToRoot) (s : DaemonState)
      → (incoming_worker_line a line s).0 ≡ outcome (phase_of s) (worker_line line)
  unfolding incoming_worker_line
  line-outcome (some (response id resp)) s = response-outcome id resp s
  line-outcome (some (request_to_root request)) s = request-outcome request s
  line-outcome none s = refl

  ask-outcome :
      (cmd : WorkerCommand) (channel : ℕ) (s : DaemonState) → (ask_worker a cmd channel s).0 ≡ ok tt
  unfolding ask_worker
  ask-outcome cmd channel s =
      ground
        (arith, willing.0 (RootToWorker.worker_command cmd (u64 (s.pending_response_counter + 1))))

  asked-outcome :
      (cmd : WorkerCommand) (channel : ℕ) (s : DaemonState)
      → (worker_socket_command a cmd channel s).0 ≡ ok tt
  unfolding worker_socket_command handle_hybrid_cmd
  asked-outcome cmd channel s = ground (arith, ask-outcome cmd channel (handle_hybrid_cmd cmd s).1)

  command-outcome :
      (cmd : Command) (channel : ℕ) (s : DaemonState)
      → (incoming_socket_command a cmd channel s).0 ≡ outcome (phase_of s) (socket_cmd cmd channel)
  unfolding incoming_socket_command incoming_root_command cleanup_worker_resources
  command-outcome Command.status channel s = asked-outcome WorkerCommand.status channel s
  command-outcome Command.nerd_stats channel s = asked-outcome WorkerCommand.nerd_stats channel s
  command-outcome (Command.connect id) channel s =
      asked-outcome (WorkerCommand.connect id) channel s
  command-outcome Command.disconnect channel s = asked-outcome WorkerCommand.disconnect channel s
  command-outcome Command.balance channel s = asked-outcome WorkerCommand.balance channel s
  command-outcome (Command.funding_tool secret) channel s =
      asked-outcome (WorkerCommand.funding_tool secret) channel s
  command-outcome Command.telemetry channel s = asked-outcome WorkerCommand.telemetry channel s
  command-outcome Command.ping channel s = refl
  command-outcome Command.info channel s = refl
  command-outcome (start_client keepalive) channel s = ground (arith, setup_worker-outcome s)
  command-outcome stop_client channel s = ground (arith, willing.0 RootToWorker.shutdown)
  command-outcome Command.destinations channel s = refl

-- With a system that does what it is asked, a handler ends the daemon exactly as the table of
-- exit codes says: at a worker line that is no message (DATAERR), at a closed channel (IOERR), at
-- the signal to shut down without a worker or a second time (OK), at StartClient and StopClient
-- during the shutdown of the service (TEMPFAIL), at the worker's exit during it (OK, or IOERR after
-- a failure), and at a failure of a worker that was not told to stop (TEMPFAIL).
pub handle-outcome :
    (a : Answers) (i : Input) (s : DaemonState)
    → IsWilling a
    → (handle a i s).0 ≡ outcome (phase_of s) i
unfolding handle
handle-outcome a (signal message) s willing = signal-outcome a willing message s
handle-outcome a (socket_cmd cmd channel) s willing = command-outcome a willing cmd channel s
handle-outcome a config_changed s willing = config_change-outcome a willing s
handle-outcome a (ping_task id res) s willing = ping_task-outcome a willing id res s
handle-outcome a (worker_line line) s willing = line-outcome a willing line s
handle-outcome a (worker_exit success) s willing = worker_exit-outcome a willing success s
handle-outcome a keep_alive_expired s willing = expired-outcome a willing s
handle-outcome a reconnect s willing = reconnect-outcome a willing s
handle-outcome a channels_closed s willing = refl
