-- ===== src/Root/Messages.antt =====
-- The messages of the root daemon: socket commands and their responses
-- (gnosis_vpn-lib/src/command/mod.rs), messages to and from the worker
-- (gnosis_vpn-lib/src/event/mod.rs), to the routing actor (gnosis_vpn-root/src/routing_actor.rs)
-- and to the keepalive timer (gnosis_vpn-root/src/main.rs). Ids, addresses and texts are numbers.
use gnosis_vpn_client.Prelude.{ℕ, Bool, Option, none, some, List}
use gnosis_vpn_client.Core.State.{RequestToRoot, Answer}

pub data Command : Type 0 where
  status nerd_stats : Command
  connect : ℕ → Command
  disconnect balance : Command
  funding_tool : ℕ → Command
  telemetry ping info : Command
  start_client : ℕ → Command
  stop_client destinations : Command

pub data WorkerCommand : Type 0 where
  status nerd_stats : WorkerCommand
  connect : ℕ → WorkerCommand
  disconnect balance : WorkerCommand
  funding_tool : ℕ → WorkerCommand
  telemetry force_reconnect : WorkerCommand

-- `TryFrom<Command> for WorkerCommand`.
abbrev pub to_worker_command : Command → Option WorkerCommand
to_worker_command Command.status = some WorkerCommand.status
to_worker_command Command.nerd_stats = some WorkerCommand.nerd_stats
to_worker_command (Command.connect id) = some (WorkerCommand.connect id)
to_worker_command Command.disconnect = some WorkerCommand.disconnect
to_worker_command Command.balance = some WorkerCommand.balance
to_worker_command (Command.funding_tool secret) = some (WorkerCommand.funding_tool secret)
to_worker_command Command.telemetry = some WorkerCommand.telemetry
to_worker_command Command.ping = none
to_worker_command Command.info = none
to_worker_command (Command.start_client keepalive) = none
to_worker_command Command.stop_client = none
to_worker_command Command.destinations = none

pub data StartClientResponse : Type 0 where
  started already_running : StartClientResponse

pub data StopClientResponse : Type 0 where
  stopped not_running : StopClientResponse

-- The run modes that root itself reports.
pub data RunMode : Type 0 where
  restarting not_running : RunMode

-- The responses that root makes, and those of the worker, which it only passes on.
pub data Response : Type 0 where
  status : RunMode → (destinations : List ℕ) → (target_destination : Option ℕ) → Response
  of_worker : ℕ → Response
  force_reconnect_acknowledged pong info : Response
  start_client : StartClientResponse → Response
  stop_client : StopClientResponse → Response
  destinations : List ℕ → Response
  worker_offline worker_restarting : Response

pub record Config : Type 0 where
  pub destinations : List ℕ
  pub lan_lockdown : Bool

pub data RootToWorker : Type 0 where
  shutdown rotate_logs : RootToWorker
  startup_params :
      Config → (cached_blokli_ips : List ℕ) → (target_dest_id : Option ℕ) → RootToWorker
  worker_command : WorkerCommand → (id : ℕ) → RootToWorker
  response_from_root : (request_id : ℕ) → Answer → RootToWorker

pub data WorkerToRoot : Type 0 where
  response : (id : ℕ) → Response → WorkerToRoot
  request_to_root : RequestToRoot → WorkerToRoot

-- The messages of the routing actor, without the channels for their replies.
pub data Msg : Type 0 where
  setup_routing : (wg_data : ℕ) → (peer_ips : List ℕ) → Msg
  teardown_routing : Msg
  set_allowed_ips : (ips : List ℕ) → (interface : ℕ) → (lan_lockdown : Bool) → Msg
  disable_killswitch : Msg
  update_peer_ips : List ℕ → Msg

pub data KeepAliveInstruction : Type 0 where
  ignite : ℕ → KeepAliveInstruction
  suspend resume restart : KeepAliveInstruction
