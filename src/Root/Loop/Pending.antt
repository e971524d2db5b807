-- ===== src/Root/Loop/Pending.antt =====
-- gnosis_vpn-root/src/main.rs: the commands that wait for a response of the worker.
use gnosis_vpn_client.Prelude.{
  ℕ, ◌+◌, Bool, false, ◌==◌, String, Option, none, some, Result, ok, err, ◌≡◌, arith,
}
use gnosis_vpn_client.Core.State.{
  RequestToRoot, killswitch_lockdown, static_wg_routing, tear_down_wg, ping, cache_blokli_ips,
  update_peer_ips,
}
use gnosis_vpn_client.Core.Requests.{u64}
use gnosis_vpn_client.Root.Messages.{
  Command, start_client, stop_client, WorkerCommand, Response, WorkerToRoot, response,
  request_to_root,
}
use gnosis_vpn_client.Prelude.Maps.{lookup, KeysBelow, lookup-insert_fresh, lookup-remove}
use gnosis_vpn_client.Root.State.{DaemonState, Answers, ExitCode}
use gnosis_vpn_client.Root.Worker.{setup_worker, cleanup_worker_resources}
use gnosis_vpn_client.Root.Commands.{
  handle_hybrid_cmd, ask_worker, worker_socket_command, incoming_root_command,
  incoming_socket_command,
}
use gnosis_vpn_client.Root.Requests.{
  incoming_worker_response, outgoing_response_from_root, incoming_worker_request,
  incoming_worker_line, ping_joined,
}
use gnosis_vpn_client.Root.Lifecycle
use gnosis_vpn_client.Root.Lifecycle.{SignalMessage, shut_worker_down}
use gnosis_vpn_client.Root.Loop.{
  Input, signal, socket_cmd, config_changed, ping_task, worker_line, worker_exit,
  keep_alive_expired, reconnect, channels_closed, handle,
}
use gnosis_vpn_client.Root.Loop.Phases.{running, phase_of}
use gnosis_vpn_client.Root.Loop.Soundness.{IsSound, u64-next}

abbrev pub Waits : ℕ → ℕ → DaemonState → Type 0
Waits id channel s = lookup id s.pending_responses ≡ some channel

-- The command still waits, unless the worker was told to stop.
abbrev pub Kept : {A : Type 0} → ℕ → ℕ → Result A ExitCode × DaemonState → Type 0
Kept id channel (ok _, s) = phase_of s ≡ running → Waits id channel s
Kept id channel (err _, s) = Unit {0}

-- Whether an input is the worker's response to an id.
abbrev pub answers : Input → ℕ → Bool
answers (worker_line (some (response other resp))) id = other == id
answers _ id = false

module _ (a : Answers) (n waiting reader : ℕ) where
  signal-Kept :
      (m : SignalMessage) (s : DaemonState)
      → Waits waiting reader s
      → Kept waiting reader (Lifecycle.incoming_signal a m s)
  unfolding Lifecycle.incoming_signal
  signal-Kept Lifecycle.shutdown s waits = ground arith
  signal-Kept Lifecycle.rotate_logs s waits = ground arith

  config_change-Kept :
      (s : DaemonState)
      → Waits waiting reader s
      → Kept waiting reader (Lifecycle.incoming_config_change a s)
  unfolding Lifecycle.incoming_config_change shut_worker_down cleanup_worker_resources
  config_change-Kept s waits = ground arith

  expired-Kept :
      (s : DaemonState)
      → Waits waiting reader s
      → Kept waiting reader (Lifecycle.keep_alive_expired a s)
  unfolding Lifecycle.keep_alive_expired shut_worker_down cleanup_worker_resources
  expired-Kept s waits = ground arith

  reconnect-Kept :
      (s : DaemonState)
      → Waits waiting reader s
      → Kept waiting reader (Lifecycle.force_reconnect_on_network_change a s)
  unfolding Lifecycle.force_reconnect_on_network_change
  reconnect-Kept s waits = ground arith

  ping_task-Kept :
      (id : ℕ) (res : Option (Result ℕ String)) (s : DaemonState)
      → Waits waiting reader s
      → Kept waiting reader (ping_joined a id res s)
  unfolding ping_joined outgoing_response_from_root
  ping_task-Kept id (some res) s waits = ground arith
  ping_task-Kept id none s waits = λ up. waits

  request-Kept :
      (request : RequestToRoot) (s : DaemonState)
      → Waits waiting reader s
      → Kept waiting reader (incoming_worker_request a request s)
  unfolding incoming_worker_request outgoing_response_from_root
  request-Kept (killswitch_lockdown id ips interface) s waits = ground arith
  request-Kept (static_wg_routing id wg ips) s waits = ground arith
  request-Kept tear_down_wg s waits = λ up. waits
  request-Kept (ping id options) s waits = λ up. waits
  request-Kept (cache_blokli_ips ips) s waits = λ up. waits
  request-Kept (update_peer_ips ips) s waits = λ up. waits

  response-Kept :
      (id : ℕ) (resp : Response) (s : DaemonState)
      → (id == waiting) ≡ false
      → Waits waiting reader s
      → Kept waiting reader (incoming_worker_response id resp s)
  unfolding incoming_worker_response
  response-Kept id resp s other waits = ground (arith, lookup-remove id waiting s.pending_responses)

  line-Kept :
      (line : Option WorkerToRoot) (s : DaemonState)
      → answers (worker_line line) waiting ≡ false
      → Waits waiting reader s
      → Kept waiting reader (incoming_worker_line a line s)
  unfolding incoming_worker_line
  line-Kept (some (response id resp)) s other waits = response-Kept id resp s other waits
  line-Kept (some (request_to_root request)) s other waits = request-Kept request s waits
  line-Kept none s other waits = tt

  ask-Kept :
      (cmd : WorkerCommand) (channel : ℕ) (s : DaemonState)
      → u64 (s.pending_response_counter + 1) ≡ s.pending_response_counter + 1
      → KeysBelow (s.pending_response_counter + 1) s.pending_responses
      → Waits waiting reader s
      → Kept waiting reader (ask_worker a cmd channel s)
  unfolding ask_worker
  ask-Kept cmd channel s fits below waits = ground (
    arith,
    fits,
    lookup-insert_fresh (s.pending_response_counter + 1) waiting channel reader s.pending_responses
        below waits,
  )

  hybrid-Waits :
      (cmd : WorkerCommand) (s : DaemonState)
      → ((handle_hybrid_cmd cmd s).1.pending_responses ≡ s.pending_responses)
        × ((handle_hybrid_cmd cmd s).1.pending_response_counter ≡ s.pending_response_counter)
  unfolding handle_hybrid_cmd
  hybrid-Waits cmd s = ground arith

  asked-Kept :
      (cmd : WorkerCommand) (channel : ℕ) (s : DaemonState)
      → IsSound (n + 1) s
      → Waits waiting reader s
      → Kept waiting reader (worker_socket_command a cmd channel s)
  unfolding worker_socket_command
  asked-Kept cmd channel s sound waits = ground (
    arith,
    u64-next s.pending_response_counter n sound.2,
    hybrid-Waits cmd s,
    ask-Kept cmd channel (handle_hybrid_cmd cmd s).1,
  )

  command-Kept :
      (cmd : Command) (channel : ℕ) (s : DaemonState)
      → IsSound (n + 1) s
      → Waits waiting reader s
      → Kept waiting reader (incoming_socket_command a cmd channel s)
  unfolding incoming_socket_command incoming_root_command
  command-Kept Command.status channel s sound waits =
      asked-Kept WorkerCommand.status channel s sound waits
  command-Kept Command.nerd_stats channel s sound waits =
      asked-Kept WorkerCommand.nerd_stats channel s sound waits
  command-Kept (Command.connect id) channel s sound waits =
      asked-Kept (WorkerCommand.connect id) channel s sound waits
  command-Kept Command.disconnect channel s sound waits =
      asked-Kept WorkerCommand.disconnect channel s sound waits
  command-Kept Command.balance channel s sound waits =
      asked-Kept WorkerCommand.balance channel s sound waits
  command-Kept (Command.funding_tool secret) channel s sound waits =
      asked-Kept (WorkerCommand.funding_tool secret) channel s sound waits
  command-Kept Command.telemetry channel s sound waits =
      asked-Kept WorkerCommand.telemetry channel s sound waits
  command-Kept Command.ping channel s sound waits = λ up. waits
  command-Kept Command.info channel s sound waits = λ up. waits
  command-Kept (start_client keepalive) channel s sound waits = ground arith
  command-Kept stop_client channel s sound waits = ground arith
  command-Kept Command.destinations channel s sound waits = λ up. waits

  worker_exit-Kept :
      (success : Bool) (s : DaemonState)
      → Waits waiting reader s
      → Kept waiting reader (Lifecycle.incoming_worker_exit a success s)
  unfolding Lifecycle.incoming_worker_exit setup_worker
  worker_exit-Kept success s waits = ground arith

  pub handle-Kept :
      (i : Input) (s : DaemonState)
      → answers i waiting ≡ false
      → IsSound (n + 1) s
      → Waits waiting reader s
      → Kept waiting reader (handle a i s)
  unfolding handle
  handle-Kept (signal message) s other sound waits = signal-Kept message s waits
  handle-Kept (socket_cmd cmd channel) s other sound waits = command-Kept cmd channel s sound waits
  handle-Kept config_changed s other sound waits = config_change-Kept s waits
  handle-Kept (ping_task id res) s other sound waits = ping_task-Kept id res s waits
  handle-Kept (worker_line line) s other sound waits = line-Kept line s other waits
  handle-Kept (worker_exit success) s other sound waits = worker_exit-Kept success s waits
  handle-Kept keep_alive_expired s other sound waits = expired-Kept s waits
  handle-Kept reconnect s other sound waits = reconnect-Kept s waits
  handle-Kept channels_closed s other sound waits = tt
