-- ===== src/Root/Loop/Silence.antt =====
-- gnosis_vpn-root/src/main.rs: what root writes to a worker that it has told to stop.
use gnosis_vpn_client.Prelude.{
  ℕ, ◌+◌, Bool, true, false, ◌||◌, String, Option, none, some, List, [], ◌∷◌, Result, ◌≡◌, refl,
  arith,
}
use gnosis_vpn_client.Core.State.{
  RequestToRoot, killswitch_lockdown, static_wg_routing, tear_down_wg, ping, cache_blokli_ips,
  update_peer_ips,
}
use gnosis_vpn_client.Root.Messages.{
  Command, start_client, stop_client, WorkerCommand, Response, WorkerToRoot, response,
  request_to_root,
}
use gnosis_vpn_client.Root.State.{DaemonState, Answers, ExitCode, Effect, to_worker, is_not_ongoing}
use gnosis_vpn_client.Root.Worker.{cleanup_worker_resources}
use gnosis_vpn_client.Root.Commands.{
  handle_hybrid_cmd, worker_socket_command, incoming_root_command, incoming_socket_command,
}
use gnosis_vpn_client.Root.Requests.{
  incoming_worker_response, outgoing_response_from_root, incoming_worker_request,
  incoming_worker_line, ping_joined,
}
use gnosis_vpn_client.Root.Lifecycle
use gnosis_vpn_client.Root.Lifecycle.{SignalMessage, shut_worker_down}
use gnosis_vpn_client.Root.Loop.{
  Input, signal, socket_cmd, config_changed, ping_task, worker_line, worker_exit,
  keep_alive_expired, reconnect, channels_closed, handle, daemon_loop,
}

-- How many messages were written to workers.
abbrev pub writes : List Effect → ℕ
writes [] = 0
writes (to_worker msg ∷ log) = writes log + 1
writes (_ ∷ log) = writes log

abbrev pub IsTold : DaemonState → Type 0
IsTold s = is_not_ongoing s.shutdown_ongoing ≡ false

abbrev pub is_worker_exit : Input → Bool
is_worker_exit (worker_exit _) = true
is_worker_exit _ = false

-- Nothing was written, and the worker is still told to stop.
abbrev pub Silent : {A : Type 0} → DaemonState → Result A ExitCode × DaemonState → Type 0
Silent s r = IsTold r.1 × (writes r.1.log ≡ writes s.log)

module _ (a : Answers) where
  signal-Silent :
      (m : SignalMessage) (s : DaemonState) → IsTold s → Silent s (Lifecycle.incoming_signal a m s)
  unfolding Lifecycle.incoming_signal
  signal-Silent Lifecycle.shutdown s told = ground arith
  signal-Silent Lifecycle.rotate_logs s told = ground arith

  config_change-Silent :
      (s : DaemonState) → IsTold s → Silent s (Lifecycle.incoming_config_change a s)
  unfolding Lifecycle.incoming_config_change shut_worker_down cleanup_worker_resources
  config_change-Silent s told = ground arith

  expired-Silent : (s : DaemonState) → IsTold s → Silent s (Lifecycle.keep_alive_expired a s)
  unfolding Lifecycle.keep_alive_expired shut_worker_down cleanup_worker_resources
  expired-Silent s told = ground arith

  reconnect-Silent :
      (s : DaemonState) → IsTold s → Silent s (Lifecycle.force_reconnect_on_network_change a s)
  unfolding Lifecycle.force_reconnect_on_network_change
  reconnect-Silent s told = ground arith

  ping_task-Silent :
      (id : ℕ) (res : Option (Result ℕ String)) (s : DaemonState)
      → IsTold s
      → Silent s (ping_joined a id res s)
  unfolding ping_joined outgoing_response_from_root
  ping_task-Silent id (some res) s told = ground arith
  ping_task-Silent id none s told = (told, refl)

  request-Silent :
      (request : RequestToRoot) (s : DaemonState)
      → IsTold s
      → Silent s (incoming_worker_request a request s)
  unfolding incoming_worker_request outgoing_response_from_root
  request-Silent (killswitch_lockdown id ips interface) s told = ground arith
  request-Silent (static_wg_routing id wg ips) s told = ground arith
  request-Silent tear_down_wg s told = (told, refl)
  request-Silent (ping id options) s told = (told, refl)
  request-Silent (cache_blokli_ips ips) s told = (told, refl)
  request-Silent (update_peer_ips ips) s told = (told, refl)

  response-Silent :
      (id : ℕ) (resp : Response) (s : DaemonState)
      → IsTold s
      → Silent s (incoming_worker_response id resp s)
  unfolding incoming_worker_response
  response-Silent id resp s told = ground arith

  line-Silent :
      (line : Option WorkerToRoot) (s : DaemonState)
      → IsTold s
      → Silent s (incoming_worker_line a line s)
  unfolding incoming_worker_line
  line-Silent (some (response id resp)) s told = response-Silent id resp s told
  line-Silent (some (request_to_root request)) s told = request-Silent request s told
  line-Silent none s told = (told, refl)

  asked-Silent :
      (cmd : WorkerCommand) (channel : ℕ) (s : DaemonState)
      → IsTold s
      → Silent s (worker_socket_command a cmd channel s)
  unfolding worker_socket_command handle_hybrid_cmd
  asked-Silent cmd channel s told = ground arith

  command-Silent :
      (cmd : Command) (channel : ℕ) (s : DaemonState)
      → IsTold s
      → Silent s (incoming_socket_command a cmd channel s)
  unfolding incoming_socket_command incoming_root_command
  command-Silent Command.status channel s told = asked-Silent WorkerCommand.status channel s told
  command-Silent Command.nerd_stats channel s told =
      asked-Silent WorkerCommand.nerd_stats channel s told
  command-Silent (Command.connect id) channel s told =
      asked-Silent (WorkerCommand.connect id) channel s told
  command-Silent Command.disconnect channel s told =
      asked-Silent WorkerCommand.disconnect channel s told
  command-Silent Command.balance channel s told = asked-Silent WorkerCommand.balance channel s told
  command-Silent (Command.funding_tool secret) channel s told =
      asked-Silent (WorkerCommand.funding_tool secret) channel s told
  command-Silent Command.telemetry channel s told =
      asked-Silent WorkerCommand.telemetry channel s told
  command-Silent Command.ping channel s told = (told, refl)
  command-Silent Command.info channel s told = (told, refl)
  command-Silent (start_client keepalive) channel s told = ground arith
  command-Silent stop_client channel s told = ground arith
  command-Silent Command.destinations channel s told = (told, refl)

  handle-Silent :
      (i : Input) (s : DaemonState) → is_worker_exit i ≡ false → IsTold s → Silent s (handle a i s)
  unfolding handle
  handle-Silent (signal message) s other told = signal-Silent message s told
  handle-Silent (socket_cmd cmd channel) s other told = command-Silent cmd channel s told
  handle-Silent config_changed s other told = config_change-Silent s told
  handle-Silent (ping_task id res) s other told = ping_task-Silent id res s told
  handle-Silent (worker_line line) s other told = line-Silent line s told
  handle-Silent (worker_exit success) s other told = ground arith
  handle-Silent keep_alive_expired s other told = expired-Silent s told
  handle-Silent reconnect s other told = reconnect-Silent s told
  handle-Silent channels_closed s other told = (told, refl)

abbrev pub has_worker_exit : List (Answers × Input) → Bool
has_worker_exit [] = false
has_worker_exit ((a, i) ∷ rest) = is_worker_exit i || has_worker_exit rest

-- A worker that root has told to stop gets no further message until it exits, whatever else
-- comes in and whether or not the run ends the daemon, and it stays told to stop.
pub daemon_loop-Silent :
    (inputs : List (Answers × Input)) (s : DaemonState)
    → has_worker_exit inputs ≡ false
    → IsTold s
    → Silent s (daemon_loop inputs s)
unfolding daemon_loop
daemon_loop-Silent [] s others told = (told, refl)
daemon_loop-Silent ((a, i) ∷ rest) s others told =
    ground (arith, handle-Silent a i s, daemon_loop-Silent rest (handle a i s).1)
