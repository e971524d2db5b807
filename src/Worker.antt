-- ===== src/Worker.antt =====
-- gnosis_vpn-worker/src/main.rs: the loop of the worker process between root and the core, one
-- function per method of `State`.
--
-- `log` is what the worker did, the newest first. What the core, the socket and the log file answer
-- is an argument.
pub mod Loop
pub mod RoundTrip
use gnosis_vpn_client.Prelude.{
  ℕ, ◌+◌, Bool, true, false, Option, none, some, List, [], ◌∷◌, Result, ok, err,
}
use gnosis_vpn_client.Core.State.{RequestToRoot, Answer}
use gnosis_vpn_client.Root.Messages.{
  Config, Response, WorkerCommand, RootToWorker, startup_params, worker_command, response_from_root,
  WorkerToRoot, response, request_to_root,
}

pub data ExitCode : Type 0 where
  ok_code ioerr software oserr : ExitCode

pub data IncomingResolution : Type 0 where
  response_to_core : (request_id : ℕ) → Answer → IncomingResolution
  roundtrip_via_core : WorkerCommand → (id : ℕ) → IncomingResolution
  shutdown : ExitCode → IncomingResolution
  shutdown_to_core sustain_loop : IncomingResolution

pub data Effect : Type 0 where
  to_root : WorkerToRoot → Effect
  command_to_core : WorkerCommand → Effect
  response_to_core : (request_id : ℕ) → Answer → Effect
  shutdown_to_core logs_reloaded : Effect
  core_started : Config → List ℕ → Option ℕ → Effect

pub record State : Type 0 where
  pub log_handle : Bool
  -- Whether the task of the core runs.
  pub core_task : Bool
  -- Whether the receiver for the core was not taken yet.
  pub receiver : Bool
  pub log : List Effect

pub record Answers : Type 0 where
  pub reload_log : Bool
  pub core_init : Bool
  -- The core's response to a command, unless it drops the channel.
  pub core_response : Option Response
  pub write : WorkerToRoot → Result (Unit {0}) ExitCode

unfoldable pub new : Bool → State
new log_handle = record { log_handle = log_handle; core_task = false; receiver = true; log = [] }

abbrev pub did : Effect → State → State
did e s = record s { log = e ∷ s.log }

abbrev pub cmd_shutdown : Bool → IncomingResolution
cmd_shutdown false = IncomingResolution.shutdown ok_code
cmd_shutdown true = IncomingResolution.shutdown_to_core

abbrev pub cmd_rotate_logs : Answers → Bool → State → IncomingResolution × State
cmd_rotate_logs a false s = (sustain_loop, s)
cmd_rotate_logs a true s = elim a.reload_log [
  | true ↦ (sustain_loop, did logs_reloaded s)
  | false ↦ (IncomingResolution.shutdown ioerr, s)
]

-- By whether the core runs, could be made, and can have the receiver.
abbrev pub cmd_startup_params_in :
    Bool → Bool → Bool → Config → List ℕ → Option ℕ → State → IncomingResolution × State
cmd_startup_params_in true made left config ips target s = (sustain_loop, s)
cmd_startup_params_in false true true config ips target s = (
  sustain_loop,
  did (core_started config ips target) (record s { core_task = true; receiver = false }),
)
cmd_startup_params_in false true false config ips target s =
    (IncomingResolution.shutdown software, s)
cmd_startup_params_in false false left config ips target s =
    (IncomingResolution.shutdown oserr, record s { receiver = false })

unfoldable pub incoming_command : Answers → RootToWorker → State → IncomingResolution × State
incoming_command a RootToWorker.shutdown s = (cmd_shutdown s.core_task, s)
incoming_command a RootToWorker.rotate_logs s = cmd_rotate_logs a s.log_handle s
incoming_command a (startup_params config ips target) s =
    cmd_startup_params_in s.core_task a.core_init s.receiver config ips target s
incoming_command a (worker_command cmd id) s = (roundtrip_via_core cmd id, s)
incoming_command a (response_from_root request_id answer) s =
    (IncomingResolution.response_to_core request_id answer, s)

abbrev pub wrote :
    Result (Unit {0}) ExitCode → WorkerToRoot → State → Option (Result (Unit {0}) ExitCode) × State
wrote (ok _) msg s = (none, did (to_root msg) s)
wrote (err code) msg s = (some (err code), s)

abbrev pub send_to_root :
    Answers → WorkerToRoot → State → Option (Result (Unit {0}) ExitCode) × State
send_to_root a msg s = wrote (a.write msg) msg s

-- The loop waits for the core's response before it goes on.
abbrev pub respond :
    Answers → ℕ → Option Response → State → Option (Result (Unit {0}) ExitCode) × State
respond a id (some resp) s = send_to_root a (response id resp) s
respond a id none s = (none, s)

abbrev pub resolve :
    Answers → IncomingResolution → State → Option (Result (Unit {0}) ExitCode) × State
resolve a (IncomingResolution.response_to_core request_id answer) s =
    (none, did (Effect.response_to_core request_id answer) s)
resolve a (roundtrip_via_core cmd id) s = respond a id a.core_response (did (command_to_core cmd) s)
resolve a (IncomingResolution.shutdown code) s = (some (err code), s)
resolve a IncomingResolution.shutdown_to_core s = (none, did Effect.shutdown_to_core s)
resolve a sustain_loop s = (none, s)

pub data Input : Type 0 where
  command : RootToWorker → Input
  event : RequestToRoot → Input
  core_ended channels_closed : Input

-- What one input does: the loop goes on, or ends with a result.
unfoldable pub step : Answers → Input → State → Option (Result (Unit {0}) ExitCode) × State
unfolding incoming_command
step a (command cmd) s = let r = incoming_command a cmd s in resolve a r.0 r.1
step a (event req) s = send_to_root a (request_to_root req) s
step a core_ended s = (some (ok tt), record s { core_task = false })
step a channels_closed s = (some (err ioerr), s)

-- The inputs in their order; nothing is the result while the loop waits for more.
unfoldable pub daemon_loop :
    List (Answers × Input) → State → Option (Result (Unit {0}) ExitCode) × State
unfolding step
daemon_loop [] s = (none, s)
daemon_loop ((a, i) ∷ rest) s =
    let (r, s') = step a i s in
    elim r [ some result ↦ (some result, s') | none ↦ daemon_loop rest s' ]
