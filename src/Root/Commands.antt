-- ===== src/Root/Commands.antt =====
-- gnosis_vpn-root/src/main.rs: the commands of the socket (`incoming_socket_command`), those that
-- root passes to the worker and those that it answers itself.
use gnosis_vpn_client.Prelude.{ℕ, ◌+◌, Bool, true, false, Option, none, some, [], ok, sort}
use gnosis_vpn_client.Prelude.Maps.{insert}
use gnosis_vpn_client.Core.Requests.{u64}
use gnosis_vpn_client.Root.Messages.{
  Command, WorkerCommand, to_worker_command, Response, of_worker, pong, worker_offline,
  worker_restarting, start_client, stop_client, started, already_running, stopped, not_running,
  RunMode, RootToWorker, worker_command, ignite, suspend, resume, restart,
}
use gnosis_vpn_client.Root.Messages
use gnosis_vpn_client.Root.State.{
  DaemonState, Answers, answered, Shutdown, worker, restart_worker, service, not_ongoing, M, ◌>>=◌,
  ◌>>◌, return, exit, modify, get, did, send_to_worker, tempfail, is_serving,
}
use gnosis_vpn_client.Root.Worker.{
  setup_worker, cleanup_worker_resources, send_disable_killswitch, instruct_keep_alive,
}

abbrev pub run_mode : Shutdown → RunMode
run_mode restart_worker = Messages.restarting
run_mode _ = RunMode.not_running

-- The status while no worker can be asked.
unfoldable pub status_response_offline : DaemonState → Response
unfolding sort
status_response_offline s =
    Response.status (run_mode s.shutdown_ongoing) (sort s.config.destinations) s.target_dest_id

-- What root remembers of a command that it passes on.
unfoldable pub handle_hybrid_cmd : WorkerCommand → M (Unit {0})
handle_hybrid_cmd (WorkerCommand.connect id) = do
  modify (λ s. record s { target_dest_id = some id })
  instruct_keep_alive suspend
handle_hybrid_cmd WorkerCommand.disconnect = do
  modify (λ s. record s { target_dest_id = none; cached_blokli_ips = [] })
  send_disable_killswitch
  instruct_keep_alive resume
handle_hybrid_cmd _ = return tt

-- A command without a worker to ask.
abbrev pub offline_response : WorkerCommand → DaemonState → Response
offline_response WorkerCommand.status s = status_response_offline s
offline_response _ s = elim s.shutdown_ongoing [
  | restart_worker ↦ worker_restarting
  | _ ↦ worker_offline
]

-- The worker is asked under a fresh id, and the channel waits under it.
unfoldable pub ask_worker : Answers → WorkerCommand → ℕ → M (Unit {0})
unfolding insert
ask_worker a cmd channel = do
  modify (λ s. record s { pending_response_counter = u64 (s.pending_response_counter + 1) })
  modify (λ s. record s {
    pending_responses = insert s.pending_response_counter channel s.pending_responses;
  })
  s ← get
  send_to_worker a (worker_command cmd s.pending_response_counter)
  instruct_keep_alive restart

unfoldable pub worker_socket_command : Answers → WorkerCommand → ℕ → M (Unit {0})
unfolding handle_hybrid_cmd ask_worker status_response_offline
worker_socket_command a cmd channel = do
  handle_hybrid_cmd cmd
  s ← get
  elim (is_serving s.shutdown_ongoing s.worker_child) [
    | true ↦ ask_worker a cmd channel
    | false ↦ did (answered channel (offline_response cmd s))
  ]

-- `StartClient`, by the shutdown under way and the worker.
abbrev pub start_client_in : Answers → ℕ → Shutdown → Bool → M Response
start_client_in a keepalive not_ongoing true = do
  instruct_keep_alive (ignite keepalive)
  return (start_client already_running)
start_client_in a keepalive not_ongoing false = do
  setup_worker a
  instruct_keep_alive (ignite keepalive)
  return (start_client started)
start_client_in a keepalive worker child = do
  modify (λ s. record s { shutdown_ongoing = restart_worker })
  instruct_keep_alive (ignite keepalive)
  return (start_client started)
start_client_in a keepalive restart_worker child = do
  instruct_keep_alive (ignite keepalive)
  return (start_client started)
start_client_in a keepalive service child = exit tempfail

-- `StopClient`. The killswitch goes down with the client.
abbrev pub stop_client_in : Answers → Shutdown → Bool → M Response
stop_client_in a not_ongoing false = return (stop_client not_running)
stop_client_in a not_ongoing true = do
  modify (λ s. record s { shutdown_ongoing = worker })
  send_to_worker a Messages.shutdown
  cleanup_worker_resources
  send_disable_killswitch
  modify (λ s. record s { target_dest_id = none })
  return (stop_client stopped)
stop_client_in a worker child = return (stop_client stopped)
stop_client_in a restart_worker child = do
  modify (λ s. record s { shutdown_ongoing = worker })
  send_disable_killswitch
  modify (λ s. record s { target_dest_id = none })
  return (stop_client stopped)
stop_client_in a service child = exit tempfail

-- The commands of the worker come here only in the source's types.
unfoldable pub incoming_root_command : Answers → Command → M Response
unfolding status_response_offline setup_worker cleanup_worker_resources sort
incoming_root_command a Command.status s = (ok (status_response_offline s), s)
incoming_root_command a Command.ping s = (ok pong, s)
incoming_root_command a Command.destinations s =
    (ok (Response.destinations (sort s.config.destinations)), s)
incoming_root_command a Command.info s = (ok Response.info, s)
incoming_root_command a (Command.start_client keepalive) s =
    start_client_in a keepalive s.shutdown_ongoing s.worker_child s
incoming_root_command a Command.stop_client s = stop_client_in a s.shutdown_ongoing s.worker_child s
incoming_root_command a _ s =
    (ok (elim s.shutdown_ongoing [ restart_worker ↦ worker_restarting | _ ↦ worker_offline ]), s)

abbrev pub root_socket_command : Answers → Command → ℕ → M (Unit {0})
root_socket_command a cmd channel = do
  response ← incoming_root_command a cmd
  did (answered channel response)

abbrev pub socket_command_as : Answers → Command → Option WorkerCommand → ℕ → M (Unit {0})
socket_command_as a cmd (some w_cmd) channel = worker_socket_command a w_cmd channel
socket_command_as a cmd none channel = root_socket_command a cmd channel

unfoldable pub incoming_socket_command : Answers → Command → ℕ → M (Unit {0})
unfolding worker_socket_command incoming_root_command
incoming_socket_command a cmd channel = socket_command_as a cmd (to_worker_command cmd) channel
