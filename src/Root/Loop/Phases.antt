-- ===== src/Root/Loop/Phases.antt =====
-- gnosis_vpn-root/src/main.rs: what the shutdown under way and the worker say of the daemon's life,
-- and an account of it as a machine of five phases.
use gnosis_vpn_client.Prelude.{
  ℕ, Bool, true, false, String, Option, none, some, Result, ok, err, ◌≡◌, refl, arith,
}
use gnosis_vpn_client.Root.Messages.{
  Command, start_client, stop_client, Config, WorkerCommand, Response, WorkerToRoot, response,
  request_to_root,
}
use gnosis_vpn_client.Root.State.{
  DaemonState, Answers, Shutdown, worker, restart_worker, service, not_ongoing, ExitCode,
}
use gnosis_vpn_client.Root.Worker.{setup_worker, cleanup_worker_resources}
use gnosis_vpn_client.Root.Commands.{
  handle_hybrid_cmd, ask_worker, worker_socket_command, incoming_root_command,
  incoming_socket_command,
}
use gnosis_vpn_client.Root.Requests.{
  incoming_worker_response, outgoing_response_from_root, incoming_worker_request,
  incoming_worker_line, ping_joined,
}
use gnosis_vpn_client.Core.State.{
  RequestToRoot, killswitch_lockdown, static_wg_routing, tear_down_wg, ping, cache_blokli_ips,
  update_peer_ips,
}
use gnosis_vpn_client.Root.Lifecycle
use gnosis_vpn_client.Root.Lifecycle.{SignalMessage, shut_worker_down}
use gnosis_vpn_client.Root.Loop.{
  Input, signal, socket_cmd, config_changed, ping_task, worker_line, worker_exit,
  keep_alive_expired, reconnect, channels_closed, handle,
}

pub data Phase : Type 0 where
  off running stopping restarting ending : Phase

abbrev pub phase_in : Shutdown → Bool → Phase
phase_in not_ongoing true = running
phase_in not_ongoing false = off
phase_in worker child = stopping
phase_in restart_worker child = restarting
phase_in service child = ending

abbrev pub phase_of : DaemonState → Phase
phase_of s = phase_in s.shutdown_ongoing s.worker_child

-- A handler that returns leaves the daemon in this phase; one that ends the daemon says nothing.
abbrev pub Leaves : {A : Type 0} → Phase → Result A ExitCode × DaemonState → Type 0
Leaves p (ok _, s) = phase_of s ≡ p
Leaves p (err _, s) = Unit {0}

abbrev pub on_shutdown_signal : Phase → Phase
on_shutdown_signal off = off
on_shutdown_signal _ = ending

abbrev pub on_start_client : Phase → Phase
on_start_client off = running
on_start_client stopping = restarting
on_start_client p = p

abbrev pub on_stop_client : Phase → Phase
on_stop_client running = stopping
on_stop_client restarting = stopping
on_stop_client p = p

abbrev pub on_config_change : Bool → Phase → Phase
on_config_change true running = restarting
on_config_change _ p = p

abbrev pub on_worker_exit : Phase → Phase
on_worker_exit stopping = off
on_worker_exit ending = ending
on_worker_exit _ = running

abbrev pub on_expiry : Phase → Phase
on_expiry running = stopping
on_expiry p = p

-- The phase after an input, by whether the new configuration can be read.
abbrev pub next : Bool → Input → Phase → Phase
next readable (signal Lifecycle.shutdown) p = on_shutdown_signal p
next readable (socket_cmd (start_client _) _) p = on_start_client p
next readable (socket_cmd stop_client _) p = on_stop_client p
next readable config_changed p = on_config_change readable p
next readable (worker_exit _) p = on_worker_exit p
next readable keep_alive_expired p = on_expiry p
next readable _ p = p

-- Whether the new configuration can be read.
abbrev pub is_readable : Option Config → Bool
is_readable (some config) = true
is_readable none = false

module _ (a : Answers) where
  signal-next :
      (m : SignalMessage) (s : DaemonState) (readable : Bool)
      → Leaves (next readable (signal m) (phase_of s)) (Lifecycle.incoming_signal a m s)
  unfolding Lifecycle.incoming_signal shut_worker_down cleanup_worker_resources
  signal-next Lifecycle.shutdown s readable = ground arith
  signal-next Lifecycle.rotate_logs s readable = ground arith

  config_change-next :
      (s : DaemonState)
      → Leaves
          (next (is_readable a.read_config) config_changed (phase_of s))
          (Lifecycle.incoming_config_change a s)
  unfolding Lifecycle.incoming_config_change shut_worker_down cleanup_worker_resources
  config_change-next s = ground arith

  worker_exit-next :
      (success : Bool) (s : DaemonState) (readable : Bool)
      → Leaves
          (next readable (worker_exit success) (phase_of s))
          (Lifecycle.incoming_worker_exit a success s)
  unfolding Lifecycle.incoming_worker_exit setup_worker
  worker_exit-next success s readable = ground arith

  expired-next :
      (s : DaemonState) (readable : Bool)
      → Leaves (next readable keep_alive_expired (phase_of s)) (Lifecycle.keep_alive_expired a s)
  unfolding Lifecycle.keep_alive_expired shut_worker_down cleanup_worker_resources
  expired-next s readable = ground arith

  reconnect-next :
      (s : DaemonState) → Leaves (phase_of s) (Lifecycle.force_reconnect_on_network_change a s)
  unfolding Lifecycle.force_reconnect_on_network_change
  reconnect-next s = ground arith

  ping_task-next :
      (id : ℕ) (res : Option (Result ℕ String)) (s : DaemonState)
      → Leaves (phase_of s) (ping_joined a id res s)
  unfolding ping_joined outgoing_response_from_root
  ping_task-next id (some res) s = ground arith
  ping_task-next id none s = refl

  request-next :
      (request : RequestToRoot) (s : DaemonState)
      → Leaves (phase_of s) (incoming_worker_request a request s)
  unfolding incoming_worker_request outgoing_response_from_root
  request-next (killswitch_lockdown id ips interface) s = ground arith
  request-next (static_wg_routing id data_ ips) s = ground arith
  request-next tear_down_wg s = refl
  request-next (ping id options) s = refl
  request-next (cache_blokli_ips ips) s = refl
  request-next (update_peer_ips ips) s = refl

  response-next :
      (id : ℕ) (resp : Response) (s : DaemonState)
      → Leaves (phase_of s) (incoming_worker_response id resp s)
  unfolding incoming_worker_response
  response-next id resp s = ground arith

  line-next :
      (line : Option WorkerToRoot) (s : DaemonState)
      → Leaves (phase_of s) (incoming_worker_line a line s)
  unfolding incoming_worker_line
  line-next (some (response id resp)) s = response-next id resp s
  line-next (some (request_to_root request)) s = request-next request s
  line-next none s = tt

  pub worker_command-next :
      (cmd : WorkerCommand) (channel : ℕ) (s : DaemonState)
      → Leaves (phase_of s) (worker_socket_command a cmd channel s)
  unfolding worker_socket_command handle_hybrid_cmd ask_worker
  worker_command-next cmd channel s = ground arith

  command-next :
      (cmd : Command) (channel : ℕ) (s : DaemonState) (readable : Bool)
      → Leaves
          (next readable (socket_cmd cmd channel) (phase_of s))
          (incoming_socket_command a cmd channel s)
  unfolding incoming_socket_command incoming_root_command setup_worker cleanup_worker_resources
  command-next Command.status channel s readable =
      worker_command-next WorkerCommand.status channel s
  command-next Command.nerd_stats channel s readable =
      worker_command-next WorkerCommand.nerd_stats channel s
  command-next (Command.connect id) channel s readable =
      worker_command-next (WorkerCommand.connect id) channel s
  command-next Command.disconnect channel s readable =
      worker_command-next WorkerCommand.disconnect channel s
  command-next Command.balance channel s readable =
      worker_command-next WorkerCommand.balance channel s
  command-next (Command.funding_tool secret) channel s readable =
      worker_command-next (WorkerCommand.funding_tool secret) channel s
  command-next Command.telemetry channel s readable =
      worker_command-next WorkerCommand.telemetry channel s
  command-next Command.ping channel s readable = refl
  command-next Command.info channel s readable = refl
  command-next (start_client keepalive) channel s readable = ground arith
  command-next stop_client channel s readable = ground arith
  command-next Command.destinations channel s readable = refl

  -- A handler that returns moves the daemon as the machine of the five phases moves.
  pub handle-next :
      (i : Input) (s : DaemonState)
      → Leaves (next (is_readable a.read_config) i (phase_of s)) (handle a i s)
  unfolding handle
  handle-next (signal message) s = signal-next message s (is_readable a.read_config)
  handle-next (socket_cmd cmd channel) s = command-next cmd channel s (is_readable a.read_config)
  handle-next config_changed s = config_change-next s
  handle-next (ping_task id res) s = ping_task-next id res s
  handle-next (worker_line line) s = line-next line s
  handle-next (worker_exit success) s = worker_exit-next success s (is_readable a.read_config)
  handle-next keep_alive_expired s = expired-next s (is_readable a.read_config)
  handle-next reconnect s = reconnect-next s
  handle-next channels_closed s = tt
