-- ===== src/Root/Lifecycle.antt =====
-- gnosis_vpn-root/src/main.rs: what starts and stops the worker besides commands: signals, a new
-- configuration, the exit of the process, the keepalive timer and a change of the network.
use gnosis_vpn_client.Prelude.{ℕ, Bool, true, false, Option, none, some, ok}
use gnosis_vpn_client.Root.Messages.{RootToWorker, worker_command, force_reconnect, restart, Config}
use gnosis_vpn_client.Root.Messages
use gnosis_vpn_client.Root.State.{
  Answers, logs_rotated, Shutdown, worker, restart_worker, service, not_ongoing, M, ◌>>◌, return,
  exit, modify, did, when, send_to_worker, ok_code, ioerr, tempfail, is_serving,
}
use gnosis_vpn_client.Root.Worker.{setup_worker, cleanup_worker_resources, instruct_keep_alive}

pub data SignalMessage : Type 0 where
  shutdown rotate_logs : SignalMessage

-- The worker that is there is told to stop, and its resources are cleared.
unfoldable pub shut_worker_down : Answers → M (Unit {0})
unfolding cleanup_worker_resources
shut_worker_down a = do send_to_worker a Messages.shutdown; cleanup_worker_resources

-- The signal to shut down, by the shutdown under way and the worker.
abbrev pub shutdown_signal_in : Answers → Shutdown → Bool → M (Unit {0})
shutdown_signal_in a not_ongoing true = do
  modify (λ s. record s { shutdown_ongoing = service })
  shut_worker_down a
shutdown_signal_in a not_ongoing false = do
  modify (λ s. record s { shutdown_ongoing = service })
  exit ok_code
shutdown_signal_in a worker child = modify (λ s. record s { shutdown_ongoing = service })
shutdown_signal_in a service child = exit ok_code
shutdown_signal_in a restart_worker child = modify (λ s. record s { shutdown_ongoing = service })

-- The signal to rotate the logs, by the handle and the path of the log file.
abbrev pub rotate_logs_with : Answers → Option ℕ → Option ℕ → Bool → M (Unit {0})
rotate_logs_with a (some handle) (some path) serving = elim a.reload_log [
  | true ↦ did logs_rotated >> when serving (send_to_worker a Messages.rotate_logs)
  | false ↦ exit ioerr
]
rotate_logs_with a _ _ serving = return tt

unfoldable pub incoming_signal : Answers → SignalMessage → M (Unit {0})
unfolding shut_worker_down
incoming_signal a shutdown s = shutdown_signal_in a s.shutdown_ongoing s.worker_child s
incoming_signal a rotate_logs s =
    rotate_logs_with a s.reload_handle s.log_file (is_serving s.shutdown_ongoing s.worker_child) s

-- A configuration that cannot be read changes nothing.
abbrev pub config_change_with : Answers → Option Config → Bool → M (Unit {0})
config_change_with a (some new_config) serving = do
  modify (λ s. record s { config = new_config })
  when serving (modify (λ s. record s { shutdown_ongoing = restart_worker }) >> shut_worker_down a)
config_change_with a none serving = return tt

unfoldable pub incoming_config_change : Answers → M (Unit {0})
unfolding shut_worker_down
incoming_config_change a s =
    config_change_with a a.read_config (is_serving s.shutdown_ongoing s.worker_child) s

abbrev pub restart_exited_worker : Answers → M (Unit {0})
restart_exited_worker a = do setup_worker a; instruct_keep_alive restart

-- The exit of the worker, by the shutdown under way and whether it succeeded.
abbrev pub worker_exit_in : Answers → Shutdown → Bool → M (Unit {0})
worker_exit_in a not_ongoing true = restart_exited_worker a
worker_exit_in a not_ongoing false = exit tempfail
worker_exit_in a worker success = modify (λ s. record s { shutdown_ongoing = not_ongoing })
worker_exit_in a service true = exit ok_code
worker_exit_in a service false = exit ioerr
worker_exit_in a restart_worker success = do
  modify (λ s. record s { shutdown_ongoing = not_ongoing })
  restart_exited_worker a

unfoldable pub incoming_worker_exit : Answers → (success : Bool) → M (Unit {0})
unfolding setup_worker
incoming_worker_exit a success s =
    worker_exit_in a s.shutdown_ongoing success (record s { worker_child = false })

unfoldable pub keep_alive_expired : Answers → M (Unit {0})
unfolding shut_worker_down
keep_alive_expired a s =
    when (is_serving s.shutdown_ongoing s.worker_child)
      (modify (λ s. record s { shutdown_ongoing = worker })
        >> shut_worker_down a
        >> modify (λ s. record s { target_dest_id = none }))
      s

-- A message that cannot be sent is only logged.
abbrev pub ignored : M (Unit {0}) → M (Unit {0})
ignored m s = (ok tt, (m s).1)

unfoldable pub force_reconnect_on_network_change : Answers → M (Unit {0})
force_reconnect_on_network_change a s =
    when (is_serving s.shutdown_ongoing s.worker_child)
      (ignored (send_to_worker a (worker_command force_reconnect 0))) s
