-- ===== src/Root/Loop/Killswitch.antt =====
-- gnosis_vpn-root/src/main.rs: which inputs make root lift the killswitch.
use gnosis_vpn_client.Prelude.{
  ℕ, ◌+◌, ◌≤◌, Bool, String, Option, none, some, List, [], ◌∷◌, Result, arith,
}
use gnosis_vpn_client.Core.State.{
  RequestToRoot, killswitch_lockdown, static_wg_routing, tear_down_wg, ping, cache_blokli_ips,
  update_peer_ips,
}
use gnosis_vpn_client.Root.Messages.{
  Command, start_client, stop_client, WorkerCommand, Response, WorkerToRoot, response,
  request_to_root, Config,
}
use gnosis_vpn_client.Root.State.{
  DaemonState, Answers, ExitCode, Effect, to_routing, routing_cancelled,
}
use gnosis_vpn_client.Root.Messages
use gnosis_vpn_client.Root.Worker.{setup_worker, cleanup_worker_resources}
use gnosis_vpn_client.Root.Commands.{
  handle_hybrid_cmd, ask_worker, worker_socket_command, incoming_root_command,
  incoming_socket_command,
}
use gnosis_vpn_client.Root.Requests.{
  incoming_worker_response, outgoing_response_from_root, incoming_worker_request,
  incoming_worker_line, ping_joined,
}
use gnosis_vpn_client.Root.Lifecycle
use gnosis_vpn_client.Root.Lifecycle.{SignalMessage, shut_worker_down}
use gnosis_vpn_client.Root.Loop.{
  Input, signal, socket_cmd, config_changed, ping_task, worker_line, worker_exit,
  keep_alive_expired, reconnect, channels_closed, handle, daemon_loop, daemon, autostart,
}

-- How often the routing actor was made to lift the killswitch. A cancelled actor lifts it at its end.
abbrev pub lifts : List Effect → ℕ
lifts [] = 0
lifts (routing_cancelled ∷ log) = lifts log + 1
lifts (to_routing Messages.disable_killswitch ∷ log) = lifts log + 1
lifts (_ ∷ log) = lifts log

-- The commands of the user that lift the killswitch.
abbrev pub lifts_killswitch : Input → ℕ
lifts_killswitch (socket_cmd Command.disconnect _) = 1
lifts_killswitch (socket_cmd stop_client _) = 1
lifts_killswitch _ = 0

abbrev pub Lifts : {A : Type 0} → ℕ → DaemonState → Result A ExitCode × DaemonState → Type 0
Lifts n s r = lifts r.1.log ≤ n + lifts s.log

module _ (a : Answers) where
  setup_worker-Lifts : (s : DaemonState) → Lifts 0 s (setup_worker a s)
  unfolding setup_worker
  setup_worker-Lifts s = ground arith

  shut_worker_down-Lifts : (s : DaemonState) → Lifts 0 s (shut_worker_down a s)
  unfolding shut_worker_down cleanup_worker_resources
  shut_worker_down-Lifts s = ground arith

  signal-Lifts : (m : SignalMessage) (s : DaemonState) → Lifts 0 s (Lifecycle.incoming_signal a m s)
  unfolding Lifecycle.incoming_signal
  signal-Lifts Lifecycle.shutdown s = ground (arith, λ (t : DaemonState). shut_worker_down-Lifts t)
  signal-Lifts Lifecycle.rotate_logs s = ground arith

  config_change-Lifts : (s : DaemonState) → Lifts 0 s (Lifecycle.incoming_config_change a s)
  unfolding Lifecycle.incoming_config_change shut_worker_down cleanup_worker_resources
  config_change-Lifts s = ground arith

  worker_exit-Lifts :
      (success : Bool) (s : DaemonState) → Lifts 0 s (Lifecycle.incoming_worker_exit a success s)
  unfolding Lifecycle.incoming_worker_exit setup_worker
  worker_exit-Lifts success s = ground arith

  expired-Lifts : (s : DaemonState) → Lifts 0 s (Lifecycle.keep_alive_expired a s)
  unfolding Lifecycle.keep_alive_expired shut_worker_down cleanup_worker_resources
  expired-Lifts s = ground arith

  reconnect-Lifts : (s : DaemonState) → Lifts 0 s (Lifecycle.force_reconnect_on_network_change a s)
  unfolding Lifecycle.force_reconnect_on_network_change
  reconnect-Lifts s = ground arith

  ping_task-Lifts :
      (id : ℕ) (res : Option (Result ℕ String)) (s : DaemonState)
      → Lifts 0 s (ping_joined a id res s)
  unfolding ping_joined outgoing_response_from_root
  ping_task-Lifts id (some res) s = ground arith
  ping_task-Lifts id none s = omega arith

  request-Lifts :
      (request : RequestToRoot) (s : DaemonState) → Lifts 0 s (incoming_worker_request a request s)
  unfolding incoming_worker_request outgoing_response_from_root
  request-Lifts (killswitch_lockdown id ips interface) s = ground arith
  request-Lifts (static_wg_routing id wg ips) s = ground arith
  request-Lifts tear_down_wg s = omega arith
  request-Lifts (ping id options) s = omega arith
  request-Lifts (cache_blokli_ips ips) s = omega arith
  request-Lifts (update_peer_ips ips) s = omega arith

  response-Lifts :
      (id : ℕ) (resp : Response) (s : DaemonState) → Lifts 0 s (incoming_worker_response id resp s)
  unfolding incoming_worker_response
  response-Lifts id resp s = ground arith

  line-Lifts :
      (line : Option WorkerToRoot) (s : DaemonState) → Lifts 0 s (incoming_worker_line a line s)
  unfolding incoming_worker_line
  line-Lifts (some (response id resp)) s = response-Lifts id resp s
  line-Lifts (some (request_to_root request)) s = request-Lifts request s
  line-Lifts none s = omega arith

  ask-Lifts :
      (cmd : WorkerCommand) (channel : ℕ) (s : DaemonState) → Lifts 0 s (ask_worker a cmd channel s)
  unfolding ask_worker
  ask-Lifts cmd channel s = ground arith

  abbrev hybrid_lifts : WorkerCommand → ℕ
  hybrid_lifts WorkerCommand.disconnect = 1
  hybrid_lifts _ = 0

  asked-Lifts :
      (cmd : WorkerCommand) (channel : ℕ) (s : DaemonState)
      → Lifts (hybrid_lifts cmd) s (worker_socket_command a cmd channel s)
  unfolding worker_socket_command handle_hybrid_cmd
  asked-Lifts cmd channel s = ground (arith, ask-Lifts cmd channel (handle_hybrid_cmd cmd s).1)

  command-Lifts :
      (cmd : Command) (channel : ℕ) (s : DaemonState)
      → Lifts
          (lifts_killswitch (socket_cmd cmd channel))
          s
          (incoming_socket_command a cmd channel s)
  unfolding incoming_socket_command incoming_root_command setup_worker cleanup_worker_resources
  command-Lifts Command.status channel s = asked-Lifts WorkerCommand.status channel s
  command-Lifts Command.nerd_stats channel s = asked-Lifts WorkerCommand.nerd_stats channel s
  command-Lifts (Command.connect id) channel s = asked-Lifts (WorkerCommand.connect id) channel s
  command-Lifts Command.disconnect channel s = asked-Lifts WorkerCommand.disconnect channel s
  command-Lifts Command.balance channel s = asked-Lifts WorkerCommand.balance channel s
  command-Lifts (Command.funding_tool secret) channel s =
      asked-Lifts (WorkerCommand.funding_tool secret) channel s
  command-Lifts Command.telemetry channel s = asked-Lifts WorkerCommand.telemetry channel s
  command-Lifts Command.ping channel s = omega arith
  command-Lifts Command.info channel s = omega arith
  command-Lifts (start_client keepalive) channel s = ground arith
  command-Lifts stop_client channel s = ground arith
  command-Lifts Command.destinations channel s = omega arith

  handle-Lifts : (i : Input) (s : DaemonState) → Lifts (lifts_killswitch i) s (handle a i s)
  unfolding handle
  handle-Lifts (signal message) s = signal-Lifts message s
  handle-Lifts (socket_cmd cmd channel) s = command-Lifts cmd channel s
  handle-Lifts config_changed s = config_change-Lifts s
  handle-Lifts (ping_task id res) s = ping_task-Lifts id res s
  handle-Lifts (worker_line line) s = line-Lifts line s
  handle-Lifts (worker_exit success) s = worker_exit-Lifts success s
  handle-Lifts keep_alive_expired s = expired-Lifts s
  handle-Lifts reconnect s = reconnect-Lifts s
  handle-Lifts channels_closed s = omega arith

-- How many of the inputs are commands that lift the killswitch.
abbrev pub lifting : List (Answers × Input) → ℕ
lifting [] = 0
lifting ((a, i) ∷ rest) = lifts_killswitch i + lifting rest

daemon_loop-Lifts :
    (inputs : List (Answers × Input)) (s : DaemonState)
    → Lifts (lifting inputs) s (daemon_loop inputs s)
unfolding daemon_loop
daemon_loop-Lifts [] s = omega arith
daemon_loop-Lifts ((a, i) ∷ rest) s =
    ground (arith, handle-Lifts a i s, daemon_loop-Lifts rest (handle a i s).1)

-- In its loop the daemon tells the routing actor to lift the killswitch at most as often as it is
-- given the commands Disconnect and StopClient: no exit or crash of the worker, no signal, no new
-- configuration, no expiry and no failed write makes it do so. From its start to its end it lifts the
-- killswitch at most once more, when it has left the loop and cancels the routing actor, which resets
-- the firewall.
pub daemon-Lifts :
    (a : Answers) (client_autostart : Option ℕ) (inputs : List (Answers × Input)) (s : DaemonState)
    → Lifts (lifting inputs) s (daemon_loop inputs s)
      × Lifts (lifting inputs + 1) s (daemon a client_autostart inputs s)
unfolding daemon cleanup_worker_resources
daemon-Lifts a none inputs s =
    (daemon_loop-Lifts inputs s, ground (arith, daemon_loop-Lifts inputs s))
daemon-Lifts a (some keepalive) inputs s = (
  daemon_loop-Lifts inputs s,
  ground
      (arith, setup_worker-Lifts a s, daemon_loop-Lifts inputs (autostart a (some keepalive) s).1),
)
