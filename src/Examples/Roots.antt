-- ===== src/Examples/Roots.antt =====
-- The theorems about the root daemon and the worker at concrete inputs.
use gnosis_vpn_client.Prelude.{
  ◌≡◌, ◌+◌, refl, true, false, none, some, List, [], ◌∷◌, ◌++◌, ok, err, arith,
}
use gnosis_vpn_client.Prelude.Maps.{insert, remove}
use gnosis_vpn_client.Root.Messages.{
  Command, WorkerCommand, Config, of_worker, info, response, worker_command, set_allowed_ips,
  restart,
}
use gnosis_vpn_client.Root.State.{DaemonState, Answers, answered, not_ongoing, service}
use gnosis_vpn_client.Root.State
use gnosis_vpn_client.Root.KeepAlive.{Timer}
use gnosis_vpn_client.Root.Lifecycle
use gnosis_vpn_client.Root.Commands.{
  incoming_socket_command, incoming_root_command, worker_socket_command, ask_worker,
  handle_hybrid_cmd,
}
use gnosis_vpn_client.Root.Loop.{
  Input, signal, socket_cmd, config_changed, worker_line, worker_exit, handle, daemon_loop, daemon,
}
use gnosis_vpn_client.Root.Loop.Phases.{off, running, phase_of, Leaves}
use gnosis_vpn_client.Root.Loop.Outcomes.{IsWilling, outcome, handle-outcome}
use gnosis_vpn_client.Root.Loop.Runs.{run, Ends, exited, daemon_loop-run, shutdown_signal-Ends}
use gnosis_vpn_client.Root.Loop.Soundness.{Keeps, daemon_loop-Keeps}
use gnosis_vpn_client.Root.Loop.Killswitch.{Lifts, lifting, daemon-Lifts}
use gnosis_vpn_client.Root.Loop.Silence.{Silent, daemon_loop-Silent}
use gnosis_vpn_client.Root.Loop.Responses.{response_reaches_command}
use gnosis_vpn_client.Root.Loop.Countdown.{IsHalted, timer_of, reload_halts_countdown}
use gnosis_vpn_client.Core.State.{RequestToRoot, killswitch_lockdown}
use gnosis_vpn_client.Root.Loop.Routed.{
  actor_of, routing_of, IsLeftBy, after_late_request, late_request_stays,
}
use gnosis_vpn_client.Routing.Actor
use gnosis_vpn_client.Worker.{command_to_core, to_root, step, command}
use gnosis_vpn_client.Worker
use gnosis_vpn_client.Worker.RoundTrip.{last_written, command_round_trip}
use gnosis_vpn_client.Connection.DownRunner.{
  opened, asked_to_close, asked_to_unregister, closes, is_ok, progress, last_phase,
  session_not_found, registration_not_found, runner_closes_bridge,
}
use gnosis_vpn_client.Connection.DownRunner
use gnosis_vpn_client.Examples.Data.{session}

abbrev config : Config
config = record { destinations = 2 ∷ 1 ∷ []; lan_lockdown = true }

abbrev answers : Answers
answers = record {
  write = λ msg. ok tt;
  spawn = ok tt;
  read_config = some config;
  routing = ok "wg0_gnosisvpn";
  killswitch = ok tt;
  reload_log = true;
}

abbrev willing : IsWilling answers
willing = (λ msg. refl, refl, refl)

abbrev idle : DaemonState
idle = record {
  config = config;
  log_file = none;
  reload_handle = none;
  cached_blokli_ips = [];
  shutdown_ongoing = not_ongoing;
  target_dest_id = none;
  worker_child = false;
  ping_tasks = [];
  pending_response_counter = 0;
  pending_responses = [];
  log = [];
}

abbrev up : DaemonState
up = record idle { worker_child = true }

abbrev ending : DaemonState
ending = record up { shutdown_ongoing = service }

-- A client that is started, connected, reloaded and stopped.
abbrev day : List (Answers × Input)
day =
    (answers, socket_cmd (Command.start_client 600) 1)
    ∷ (answers, socket_cmd (Command.connect 2) 2)
    ∷ (answers, worker_line (some (response 1 (of_worker 5))))
    ∷ (answers, config_changed)
    ∷ (answers, worker_exit true)
    ∷ (answers, socket_cmd Command.stop_client 3)
    ∷ (answers, worker_exit true)
    ∷ []

daemon_loop-run_example : Leaves (run day (phase_of idle)) (daemon_loop day idle)
daemon_loop-run_example = daemon_loop-run day idle

shutdown_signal-Ends_example : Ends (
    daemon_loop
      ((answers, signal Lifecycle.shutdown) ∷ (answers, socket_cmd Command.status 4) ∷ []
        ++ (answers, worker_exit false) ∷ [])
      up)
shutdown_signal-Ends_example =
    shutdown_signal-Ends answers answers (worker_exit false)
      ((answers, socket_cmd Command.status 4) ∷ []) [] up (exited false)

daemon_loop-Keeps_example : Keeps 0 (daemon_loop day idle)
daemon_loop-Keeps_example = daemon_loop-Keeps day idle (tt, tt, omega arith)

handle-outcome_example :
    (handle answers (worker_exit false) ending).0 ≡ outcome (phase_of ending) (worker_exit false)
handle-outcome_example = handle-outcome answers (worker_exit false) ending willing

daemon-Lifts_example :
    Lifts (lifting day) idle (daemon_loop day idle)
    × Lifts (lifting day + 1) idle (daemon answers (some 600) day idle)
daemon-Lifts_example = daemon-Lifts answers (some 600) day idle

daemon_loop-Silent_example :
    Silent ending (daemon_loop ((answers, socket_cmd (Command.connect 2) 2) ∷ []) ending)
daemon_loop-Silent_example =
    daemon_loop-Silent ((answers, socket_cmd (Command.connect 2) 2) ∷ []) ending refl refl

-- The running daemon after it was asked for the balance.
abbrev asked : DaemonState
asked = record up {
  pending_response_counter = 1;
  pending_responses = (1, 9) ∷ [];
  log = State.keep_alive restart ∷ State.to_worker (worker_command WorkerCommand.balance 1) ∷ [];
}

asked_lem : worker_socket_command answers WorkerCommand.balance 9 up ≡ (ok tt, asked)
unfolding worker_socket_command ask_worker handle_hybrid_cmd insert
asked_lem = refl

response_reaches_command_example :
    handle answers (worker_line (some (response 1 (of_worker 5)))) asked ≡ (
      ok tt,
      record asked {
        pending_responses = remove 1 asked.pending_responses;
        log = answered 9 (of_worker 5) ∷ asked.log;
      },
    )
response_reaches_command_example =
    response_reaches_command answers answers WorkerCommand.balance 9 (of_worker 5) [] up asked asked
      (tt, tt, omega arith) refl asked_lem refl refl (unfold daemon_loop in refl) (ground arith)

abbrev worker : Worker.State
worker = record { log_handle = false; core_task = true; receiver = false; log = [] }

abbrev worker_answers : Worker.Answers
worker_answers = record {
  reload_log = true;
  core_init = true;
  core_response = some (of_worker 5);
  write = λ msg. ok tt;
}

-- The version is asked for in the meantime.
abbrev meantime : List (Answers × Input)
meantime = (answers, socket_cmd Command.info 4) ∷ []

abbrev informed : DaemonState
informed = record asked { log = answered 4 info ∷ asked.log }

informed_lem : daemon_loop meantime asked ≡ (ok tt, informed)
unfolding daemon_loop handle incoming_socket_command incoming_root_command
informed_lem = refl

command_round_trip_example :
    (last_written asked.log ≡ some (worker_command WorkerCommand.balance 1))
    × ((step worker_answers (command (worker_command WorkerCommand.balance 1)) worker).1.log
        ≡ to_root (response 1 (of_worker 5)) ∷ command_to_core WorkerCommand.balance ∷ [])
    × (handle answers (worker_line (some (response 1 (of_worker 5)))) informed ≡ (
      ok tt,
      record informed {
        pending_responses = remove 1 informed.pending_responses;
        log = answered 9 (of_worker 5) ∷ informed.log;
      },
    ))
command_round_trip_example =
    command_round_trip answers answers worker_answers WorkerCommand.balance 9 (of_worker 5) meantime
      up asked informed worker (tt, tt, omega arith) refl asked_lem refl refl (refl, refl) refl
      informed_lem (ground arith)

abbrev timer : Timer
timer = record { active = true; suspended = false; dur = 600; keepalive = 650 }

reload_halts_countdown_example :
    (phase_of (daemon_loop ((answers, config_changed) ∷ (answers, worker_exit true) ∷ []) up).1
      ≡ running)
    × IsHalted (
        timer_of 70
          (daemon_loop ((answers, config_changed) ∷ (answers, worker_exit true) ∷ []) up).1.log)
reload_halts_countdown_example =
    reload_halts_countdown answers answers config true up 70 willing willing refl refl

-- A disconnection whose registration is gone already, and the bridge too.
abbrev down_answers : DownRunner.Answers
down_answers = record {
  bridge_surb = ok (record { management = none; always_max_out_surbs = false });
  bridge = ok session;
  unregister = err registration_not_found;
  close = err session_not_found;
}

abbrev ra : Actor.Answers
ra = record {
  static_router = ok tt;
  setup = ok 7;
  apply_policy = ok tt;
  reset_policy = ok tt;
  wan_changed = ok false;
}

abbrev stopping : DaemonState
stopping = record up { shutdown_ongoing = State.worker }

abbrev late : RequestToRoot
late = killswitch_lockdown 4 (20 ∷ []) 7

late_request_stays_example :
    (phase_of (after_late_request answers answers late true stopping) ≡ off)
    × (routing_of (after_late_request answers answers late true stopping).log
        ≡ set_allowed_ips (20 ∷ []) 7 true ∷ [])
    × IsLeftBy late
        (actor_of ra 70 (routing_of (after_late_request answers answers late true stopping).log))
late_request_stays_example =
    late_request_stays answers answers ra 7 70 late true stopping refl refl refl refl
