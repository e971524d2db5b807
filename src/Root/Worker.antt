-- ===== src/Root/Worker.antt =====
-- gnosis_vpn-root/src/main.rs: starting the worker process, and what is cleared when it is told to
-- stop.
use gnosis_vpn_client.Prelude.{true, [], map, Result, ok, err}
use gnosis_vpn_client.Root.Messages.{
  startup_params, teardown_routing, disable_killswitch, KeepAliveInstruction, suspend,
}
use gnosis_vpn_client.Root.State.{
  Answers, dropped, to_routing, keep_alive, worker_spawned, pings_stopped, M, ◌>>=◌, ◌>>◌, return,
  exit, modify, get, did, send_to_worker, ExitCode,
}

abbrev pub lift : {A : Type 0} → Result A ExitCode → M A
lift (ok a) = return a
lift (err code) = exit code

-- The socket pair, the process and its listener; the worker is there once it has its parameters.
unfoldable pub setup_worker : Answers → M (Unit {0})
setup_worker a = do
  lift a.spawn
  did worker_spawned
  s ← get
  send_to_worker a (startup_params s.config s.cached_blokli_ips s.target_dest_id)
  modify (λ s. record s { worker_child = true })

abbrev pub teardown_any_routing : M (Unit {0})
teardown_any_routing = did (to_routing teardown_routing)

abbrev pub send_disable_killswitch : M (Unit {0})
send_disable_killswitch = did (to_routing disable_killswitch)

abbrev pub instruct_keep_alive : KeepAliveInstruction → M (Unit {0})
instruct_keep_alive i = did (keep_alive i)

-- The channels of the commands that still wait are dropped without an answer.
unfoldable pub cleanup_worker_resources : M (Unit {0})
cleanup_worker_resources = do
  did pings_stopped
  modify (λ s. record s { ping_tasks = [] })
  teardown_any_routing
  s ← get
  did (dropped (map (λ e. e.1) s.pending_responses))
  modify (λ s. record s { pending_responses = [] })
  instruct_keep_alive suspend
