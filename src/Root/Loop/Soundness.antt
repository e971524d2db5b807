-- ===== src/Root/Loop/Soundness.antt =====
-- gnosis_vpn-root/src/main.rs: what holds of the daemon between two inputs, of the worker that is
-- told to stop and of the commands that wait for their response.
use gnosis_vpn_client.Prelude.{
  ℕ, ◌+◌, ◌<◌, length, Bool, true, String, Option, none, some, List, [], ◌∷◌, Result, ok, err, ◌≡◌,
  arith,
}
use gnosis_vpn_client.Prelude.Maps.{
  insert, remove, KeysBelow, KeysBelow-mono, KeysBelow-insert, KeysBelow-remove,
}
use gnosis_vpn_client.Core.State.{
  RequestToRoot, killswitch_lockdown, static_wg_routing, tear_down_wg, ping, cache_blokli_ips,
  update_peer_ips, Answer,
}
use gnosis_vpn_client.Core.Requests.{u64}
use gnosis_vpn_client.Root.Messages.{
  Command, start_client, stop_client, WorkerCommand, Response, WorkerToRoot, response,
  request_to_root,
}
use gnosis_vpn_client.Root.State.{DaemonState, Answers, ExitCode, Shutdown, not_ongoing}
use gnosis_vpn_client.Root.Worker.{setup_worker, cleanup_worker_resources}
use gnosis_vpn_client.Root.Commands.{
  handle_hybrid_cmd, ask_worker, worker_socket_command, incoming_root_command,
  incoming_socket_command,
}
use gnosis_vpn_client.Root.Requests.{
  incoming_worker_response, outgoing_response_from_root, incoming_worker_request,
  incoming_worker_line, ping_joined,
}
use gnosis_vpn_client.Root.Lifecycle
use gnosis_vpn_client.Root.Lifecycle.{SignalMessage, shut_worker_down}
use gnosis_vpn_client.Root.Loop.{
  Input, signal, socket_cmd, config_changed, ping_task, worker_line, worker_exit,
  keep_alive_expired, reconnect, channels_closed, handle, daemon_loop,
}

-- While a shutdown is under way there is a worker, and no command waits for it.
abbrev pub IsQuiet : Shutdown → Bool → List (ℕ × ℕ) → Type 0
IsQuiet not_ongoing child pending = Unit {0}
IsQuiet _ child pending = (child ≡ true) × (pending ≡ [])

-- The next id of a command is fresh, and the counter does not wrap around during the next `n` commands.
abbrev pub IsSound : ℕ → DaemonState → Type 0
IsSound n s =
    IsQuiet s.shutdown_ongoing s.worker_child s.pending_responses
    × KeysBelow (s.pending_response_counter + 1) s.pending_responses
    × (s.pending_response_counter + n < 18_446_744_073_709_551_616)

-- A handler that returns leaves the daemon sound.
abbrev pub Keeps : {A : Type 0} → ℕ → Result A ExitCode × DaemonState → Type 0
Keeps n (ok _, s) = IsSound n s
Keeps n (err _, s) = Unit {0}

IsSound-next : (n : ℕ) (s : DaemonState) → IsSound (n + 1) s → IsSound n s
IsSound-next n s sound = (sound.0, sound.1, omega (arith, sound.2))

pub u64-next : (c n : ℕ) → c + (n + 1) < 18_446_744_073_709_551_616 → u64 (c + 1) ≡ c + 1
u64-next c n h = omega arith

IsQuiet-remove :
    (id : ℕ) (ongoing : Shutdown) (child : Bool) (pending : List (ℕ × ℕ))
    → IsQuiet ongoing child pending
    → IsQuiet ongoing child (remove id pending)
unfolding remove
IsQuiet-remove id ongoing child pending quiet = ground arith

IsSound-remove :
    (n id : ℕ) (s : DaemonState)
    → IsSound n s
    → IsSound n (record s { pending_responses = remove id s.pending_responses })
IsSound-remove n id s sound = (
  IsQuiet-remove id s.shutdown_ongoing s.worker_child s.pending_responses sound.0,
  KeysBelow-remove (s.pending_response_counter + 1) id s.pending_responses sound.1,
  sound.2,
)

-- The next id under which a command waits is fresh, and stays below the one after.
KeysBelow-next :
    (n channel : ℕ) (pending : List (ℕ × ℕ))
    → KeysBelow (n + 1) pending
    → KeysBelow (n + 1 + 1) (insert (n + 1) channel pending)
KeysBelow-next n channel pending below =
    KeysBelow-insert (n + 1 + 1) (n + 1) channel pending
      (KeysBelow-mono (n + 1) (n + 1 + 1) pending (omega arith) below) (omega arith)

module _ (a : Answers) (n : ℕ) where
  setup_worker-Keeps :
      (s : DaemonState)
      → s.shutdown_ongoing ≡ not_ongoing
      → IsSound n s
      → Keeps n (setup_worker a s)
  unfolding setup_worker
  setup_worker-Keeps s h sound = ground arith

  shut_worker_down-Keeps :
      (s : DaemonState)
      → s.worker_child ≡ true
      → s.pending_response_counter + n < 18_446_744_073_709_551_616
      → Keeps n (shut_worker_down a s)
  unfolding shut_worker_down cleanup_worker_resources
  shut_worker_down-Keeps s h fits = ground arith

  signal-Keeps :
      (m : SignalMessage) (s : DaemonState)
      → IsSound n s
      → Keeps n (Lifecycle.incoming_signal a m s)
  unfolding Lifecycle.incoming_signal
  signal-Keeps Lifecycle.shutdown s sound =
      ground (arith, λ (t : DaemonState). shut_worker_down-Keeps t)
  signal-Keeps Lifecycle.rotate_logs s sound = ground arith

  config_change-Keeps :
      (s : DaemonState) → IsSound n s → Keeps n (Lifecycle.incoming_config_change a s)
  unfolding Lifecycle.incoming_config_change shut_worker_down cleanup_worker_resources
  config_change-Keeps s sound = ground arith

  worker_exit-Keeps :
      (success : Bool) (s : DaemonState)
      → IsSound n s
      → Keeps n (Lifecycle.incoming_worker_exit a success s)
  unfolding Lifecycle.incoming_worker_exit setup_worker
  worker_exit-Keeps success s sound = ground arith

  expired-Keeps : (s : DaemonState) → IsSound n s → Keeps n (Lifecycle.keep_alive_expired a s)
  unfolding Lifecycle.keep_alive_expired shut_worker_down cleanup_worker_resources
  expired-Keeps s sound = ground arith

  reconnect-Keeps :
      (s : DaemonState) → IsSound n s → Keeps n (Lifecycle.force_reconnect_on_network_change a s)
  unfolding Lifecycle.force_reconnect_on_network_change
  reconnect-Keeps s sound = ground arith

  answer-Keeps :
      (id : ℕ) (res : Answer) (s : DaemonState)
      → IsSound n s
      → Keeps n (outgoing_response_from_root a id res s)
  unfolding outgoing_response_from_root
  answer-Keeps id res s sound = ground arith

  ping_task-Keeps :
      (id : ℕ) (res : Option (Result ℕ String)) (s : DaemonState)
      → IsSound n s
      → Keeps n (ping_joined a id res s)
  unfolding ping_joined
  ping_task-Keeps id (some res) s sound = answer-Keeps id _ _ sound
  ping_task-Keeps id none s sound = sound

  request-Keeps :
      (request : RequestToRoot) (s : DaemonState)
      → IsSound n s
      → Keeps n (incoming_worker_request a request s)
  unfolding incoming_worker_request
  request-Keeps (killswitch_lockdown id ips interface) s sound = answer-Keeps id _ _ sound
  request-Keeps (static_wg_routing id wg ips) s sound = answer-Keeps id _ _ sound
  request-Keeps tear_down_wg s sound = sound
  request-Keeps (ping id options) s sound = sound
  request-Keeps (cache_blokli_ips ips) s sound = sound
  request-Keeps (update_peer_ips ips) s sound = sound

  response-Keeps :
      (id : ℕ) (resp : Response) (s : DaemonState)
      → IsSound n s
      → Keeps n (incoming_worker_response id resp s)
  unfolding incoming_worker_response
  response-Keeps id resp s sound = ground (arith, IsSound-remove n id s)

  ask-Keeps :
      (cmd : WorkerCommand) (channel : ℕ) (s : DaemonState)
      → s.shutdown_ongoing ≡ not_ongoing
      → IsSound (n + 1) s
      → Keeps n (ask_worker a cmd channel s)
  unfolding ask_worker
  ask-Keeps cmd channel s h sound = ground (
    arith,
    u64-next s.pending_response_counter n sound.2,
    KeysBelow-next s.pending_response_counter channel s.pending_responses sound.1,
    IsSound-next n s sound,
  )

  line-Keeps :
      (line : Option WorkerToRoot) (s : DaemonState)
      → IsSound n s
      → Keeps n (incoming_worker_line a line s)
  unfolding incoming_worker_line
  line-Keeps (some (response id resp)) s sound = response-Keeps id resp s sound
  line-Keeps (some (request_to_root request)) s sound = request-Keeps request s sound
  line-Keeps none s sound = tt

  hybrid-Keeps :
      (cmd : WorkerCommand) (k : ℕ) (s : DaemonState)
      → IsSound k s
      → Keeps k (handle_hybrid_cmd cmd s)
  unfolding handle_hybrid_cmd
  hybrid-Keeps cmd k s sound = ground arith

  pub asked-Keeps :
      (cmd : WorkerCommand) (channel : ℕ) (s : DaemonState)
      → IsSound (n + 1) s
      → Keeps n (worker_socket_command a cmd channel s)
  unfolding worker_socket_command
  asked-Keeps cmd channel s sound =
      ground
        (arith, hybrid-Keeps cmd (n + 1) s sound, ask-Keeps cmd channel (handle_hybrid_cmd cmd s).1)

  command-Keeps :
      (cmd : Command) (channel : ℕ) (s : DaemonState)
      → IsSound (n + 1) s
      → Keeps n (incoming_socket_command a cmd channel s)
  unfolding incoming_socket_command incoming_root_command setup_worker cleanup_worker_resources
  command-Keeps Command.status channel s sound = asked-Keeps WorkerCommand.status channel s sound
  command-Keeps Command.nerd_stats channel s sound =
      asked-Keeps WorkerCommand.nerd_stats channel s sound
  command-Keeps (Command.connect id) channel s sound =
      asked-Keeps (WorkerCommand.connect id) channel s sound
  command-Keeps Command.disconnect channel s sound =
      asked-Keeps WorkerCommand.disconnect channel s sound
  command-Keeps Command.balance channel s sound = asked-Keeps WorkerCommand.balance channel s sound
  command-Keeps (Command.funding_tool secret) channel s sound =
      asked-Keeps (WorkerCommand.funding_tool secret) channel s sound
  command-Keeps Command.telemetry channel s sound =
      asked-Keeps WorkerCommand.telemetry channel s sound
  command-Keeps Command.ping channel s sound = IsSound-next n s sound
  command-Keeps Command.info channel s sound = IsSound-next n s sound
  command-Keeps (start_client keepalive) channel s sound = ground (arith, IsSound-next n s sound)
  command-Keeps stop_client channel s sound = ground (arith, IsSound-next n s sound)
  command-Keeps Command.destinations channel s sound = IsSound-next n s sound

  pub handle-Keeps : (i : Input) (s : DaemonState) → IsSound (n + 1) s → Keeps n (handle a i s)
  unfolding handle
  handle-Keeps (signal message) s sound = signal-Keeps message s (IsSound-next n s sound)
  handle-Keeps (socket_cmd cmd channel) s sound = command-Keeps cmd channel s sound
  handle-Keeps config_changed s sound = config_change-Keeps s (IsSound-next n s sound)
  handle-Keeps (ping_task id res) s sound = ping_task-Keeps id res s (IsSound-next n s sound)
  handle-Keeps (worker_line line) s sound = line-Keeps line s (IsSound-next n s sound)
  handle-Keeps (worker_exit success) s sound = worker_exit-Keeps success s (IsSound-next n s sound)
  handle-Keeps keep_alive_expired s sound = expired-Keeps s (IsSound-next n s sound)
  handle-Keeps reconnect s sound = reconnect-Keeps s (IsSound-next n s sound)
  handle-Keeps channels_closed s sound = tt

-- From a sound daemon whose counter does not wrap around while the inputs are handled, a run of the
-- loop that returns leaves a sound daemon: while a shutdown is under way the worker is there and no
-- command waits, and the ids of the commands that wait are at most the counter.
pub daemon_loop-Keeps :
    (inputs : List (Answers × Input)) (s : DaemonState)
    → IsSound (length inputs) s
    → Keeps 0 (daemon_loop inputs s)
unfolding daemon_loop
daemon_loop-Keeps [] s sound = sound
daemon_loop-Keeps ((a, i) ∷ rest) s sound = ground (
  arith,
  handle-Keeps a (length rest) i s (sound.0, sound.1, omega (arith, sound.2)),
  daemon_loop-Keeps rest (handle a i s).1,
)
