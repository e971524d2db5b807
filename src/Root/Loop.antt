-- ===== src/Root/Loop.antt =====
-- gnosis_vpn-root/src/main.rs: the main loop of the daemon (`daemon_loop`) over the inputs in the
-- order in which it takes them, and its start and end (`daemon`, `teardown`).
pub mod Phases
pub mod Outcomes
pub mod Runs
pub mod Soundness
pub mod Killswitch
pub mod Silence
pub mod Pending
pub mod Responses
pub mod Countdown
pub mod Routed
use gnosis_vpn_client.Prelude.{ℕ, Bool, String, Option, none, some, List, [], ◌∷◌, Result, ok, err}
use gnosis_vpn_client.Root.Messages.{Command, WorkerToRoot, Config, ignite}
use gnosis_vpn_client.Root.State.{
  DaemonState, Answers, M, ◌>>=◌, ◌>>◌, return, exit, did, routing_cancelled, ExitCode, ioerr,
  not_ongoing,
}
use gnosis_vpn_client.Root.Worker.{setup_worker, cleanup_worker_resources, instruct_keep_alive}
use gnosis_vpn_client.Root.Commands.{incoming_socket_command}
use gnosis_vpn_client.Root.Lifecycle.{
  SignalMessage, incoming_signal, incoming_config_change, incoming_worker_exit,
  force_reconnect_on_network_change,
}
use gnosis_vpn_client.Root.Lifecycle
use gnosis_vpn_client.Root.Requests.{incoming_worker_line, ping_joined}

-- What the channels of the loop deliver. A line that cannot be parsed is none.
pub data Input : Type 0 where
  signal : SignalMessage → Input
  socket_cmd : Command → (channel : ℕ) → Input
  config_changed : Input
  ping_task : (request_id : ℕ) → Option (Result ℕ String) → Input
  worker_line : Option WorkerToRoot → Input
  worker_exit : (success : Bool) → Input
  keep_alive_expired reconnect channels_closed : Input

unfoldable pub handle : Answers → Input → M (Unit {0})
unfolding incoming_signal incoming_socket_command incoming_config_change ping_joined
    incoming_worker_line incoming_worker_exit Lifecycle.keep_alive_expired
    force_reconnect_on_network_change
handle a (signal message) = incoming_signal a message
handle a (socket_cmd cmd channel) = incoming_socket_command a cmd channel
handle a config_changed = incoming_config_change a
handle a (ping_task request_id res) = ping_joined a request_id res
handle a (worker_line line) = incoming_worker_line a line
handle a (worker_exit success) = incoming_worker_exit a success
handle a keep_alive_expired = Lifecycle.keep_alive_expired a
handle a reconnect = force_reconnect_on_network_change a
handle a channels_closed = exit ioerr

-- The loop ends at the first exit code. Each input comes with the answers to its handler.
unfoldable pub daemon_loop : List (Answers × Input) → M (Unit {0})
unfolding handle
daemon_loop [] = return tt
daemon_loop ((a, i) ∷ rest) = handle a i >> daemon_loop rest

-- The daemon before its loop, without a worker unless one is started with it.
unfoldable pub initial_state : Config → Option ℕ → Option ℕ → List ℕ → DaemonState
initial_state config log_file reload_handle blokli_ips = record {
  config = config;
  log_file = log_file;
  reload_handle = reload_handle;
  cached_blokli_ips = blokli_ips;
  shutdown_ongoing = not_ongoing;
  target_dest_id = none;
  worker_child = Bool.false;
  ping_tasks = [];
  pending_response_counter = 0;
  pending_responses = [];
  log = [];
}

abbrev pub autostart : Answers → Option ℕ → M (Unit {0})
autostart a none = return tt
autostart a (some keepalive) = setup_worker a >> instruct_keep_alive (ignite keepalive)

-- `teardown`, after the loop has ended.
abbrev pub torn_down : {A : Type 0} → Result A ExitCode × DaemonState → DaemonState
torn_down r = (cleanup_worker_resources r.1).1

-- The cancelling of the routing actor, whose end is awaited. The other tasks are only cancelled.
abbrev pub actor_ended : DaemonState → DaemonState
actor_ended s = (did routing_cancelled s).1

unfoldable pub daemon :
    Answers → (client_autostart : Option ℕ) → List (Answers × Input) → M (Unit {0})
unfolding daemon_loop setup_worker cleanup_worker_resources
daemon a client_autostart inputs s =
    let (r, s') = autostart a client_autostart s in
    elim r [
      | ok _ ↦ let r' = daemon_loop inputs s' in (r'.0, actor_ended (torn_down r'))
      | err e ↦ (err e, s')
    ]
