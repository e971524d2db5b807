-- ===== src/Root/Loop/Countdown.antt =====
-- gnosis_vpn-root/src/main.rs: the keepalive timer under the instructions that the daemon sends it.
use gnosis_vpn_client.Prelude.{
  ℕ, ◌+◌, Bool, true, false, Option, none, some, List, [], ◌∷◌, ok, ◌≡◌, refl, arith,
}
use gnosis_vpn_client.Root.Messages.{
  Config, KeepAliveInstruction, ignite, suspend, resume, restart, RootToWorker,
}
use gnosis_vpn_client.Root.State.{DaemonState, Answers, Effect, keep_alive}
use gnosis_vpn_client.Root.KeepAlive.{Timer, new, instruct, fire}
use gnosis_vpn_client.Root.Worker.{setup_worker, cleanup_worker_resources}
use gnosis_vpn_client.Root.Lifecycle
use gnosis_vpn_client.Root.Lifecycle.{shut_worker_down}
use gnosis_vpn_client.Root.Loop.{config_changed, worker_exit, handle, daemon_loop}
use gnosis_vpn_client.Root.Loop.Phases.{running, restarting, phase_of}
use gnosis_vpn_client.Root.Loop.Outcomes.{IsWilling}

-- What the timer does next: an instruction, or the passing of time.
pub data Event : Type 0 where
  instructed : KeepAliveInstruction → (now : ℕ) → Event
  passed : (now : ℕ) → Event

abbrev pub step : Event → Timer → Timer
step (instructed i now) t = instruct t i now
step (passed now) t = (fire t now).1

-- How often the timer fires over events, the first first.
abbrev pub fired : Option ℕ → ℕ
fired (some dur) = 1
fired none = 0

abbrev pub firings : List Event → Timer → ℕ
firings [] t = 0
firings (instructed i now ∷ rest) t = firings rest (instruct t i now)
firings (passed now ∷ rest) t = fired (fire t now).0 + firings rest (fire t now).1

-- Instructions that do not end a suspension.
abbrev pub keeps_suspended : Event → Bool
keeps_suspended (instructed suspend now) = true
keeps_suspended (instructed restart now) = true
keeps_suspended (passed now) = true
keeps_suspended _ = false

abbrev pub all_keep_suspended : List Event → Bool
all_keep_suspended [] = true
all_keep_suspended (e ∷ rest) = elim (keeps_suspended e) [
  | true ↦ all_keep_suspended rest
  | false ↦ false
]

-- A timer without a countdown that is suspended.
abbrev pub IsHalted : Timer → Type 0
IsHalted t = (t.active ≡ false) × (t.suspended ≡ true)

suspended-Halted :
    (events : List Event) (t : Timer)
    → IsHalted t
    → all_keep_suspended events ≡ true
    → firings events t ≡ 0
unfolding instruct fire
suspended-Halted [] t halted keep = refl
suspended-Halted (instructed suspend now ∷ rest) t halted keep =
    suspended-Halted rest _ (refl, refl) keep
suspended-Halted (instructed restart now ∷ rest) t halted keep =
    ground (arith, suspended-Halted rest t halted keep)
suspended-Halted (instructed (ignite d) now ∷ rest) t halted keep = ground arith
suspended-Halted (instructed resume now ∷ rest) t halted keep = ground arith
suspended-Halted (passed now ∷ rest) t halted keep =
    ground (arith, suspended-Halted rest t halted keep)

-- After Suspend the timer does not fire, however much time passes and however often it is told
-- to restart its countdown, until it is ignited or resumed.
pub suspend_silences :
    (events : List Event) (t : Timer) (now : ℕ)
    → all_keep_suspended events ≡ true
    → firings events (instruct t suspend now) ≡ 0
unfolding instruct
suspend_silences events t now keep =
    suspended-Halted events (instruct t suspend now) (refl, refl) keep

-- The timer under the instructions of a log, the newest first, all at one time.
abbrev pub timer_of : ℕ → List Effect → Timer
timer_of now [] = new now
timer_of now (keep_alive i ∷ log) = instruct (timer_of now log) i now
timer_of now (_ ∷ log) = timer_of now log

reload_lem :
    (a : Answers) (c : Config) (s : DaemonState) (now : ℕ)
    → IsWilling a
    → phase_of s ≡ running
    → a.read_config ≡ some c
    → ((Lifecycle.incoming_config_change a s).0 ≡ ok tt)
      × (phase_of (Lifecycle.incoming_config_change a s).1 ≡ restarting)
      × IsHalted (timer_of now (Lifecycle.incoming_config_change a s).1.log)
unfolding Lifecycle.incoming_config_change shut_worker_down cleanup_worker_resources instruct
reload_lem a c s now willing up readable = ground (arith, willing.0 RootToWorker.shutdown)

restart_lem :
    (b : Answers) (success : Bool) (s : DaemonState) (now : ℕ)
    → IsWilling b
    → phase_of s ≡ restarting
    → IsHalted (timer_of now s.log)
    → ((Lifecycle.incoming_worker_exit b success s).0 ≡ ok tt)
      × (phase_of (Lifecycle.incoming_worker_exit b success s).1 ≡ running)
      × IsHalted (timer_of now (Lifecycle.incoming_worker_exit b success s).1.log)
unfolding Lifecycle.incoming_worker_exit setup_worker instruct
restart_lem b success s now willing restarts halted = ground (
  arith,
  willing.0 (RootToWorker.startup_params s.config s.cached_blokli_ips s.target_dest_id),
  willing.1,
)

-- When the configuration of a running client is reloaded, the client runs again after the exit of
-- its worker, but the keepalive timer is suspended and has no countdown, whether or not there is
-- a target: the Restart that follows the exit does nothing after the Suspend of the reload.
pub reload_halts_countdown :
    (a b : Answers) (c : Config) (success : Bool) (s : DaemonState) (now : ℕ)
    → IsWilling a
    → IsWilling b
    → phase_of s ≡ running
    → a.read_config ≡ some c
    → (phase_of (daemon_loop ((a, config_changed) ∷ (b, worker_exit success) ∷ []) s).1 ≡ running)
      × IsHalted
          (timer_of now (daemon_loop ((a, config_changed) ∷ (b, worker_exit success) ∷ []) s).1.log)
unfolding daemon_loop handle
reload_halts_countdown a b c success s now willing_a willing_b up readable = ground (
  arith,
  reload_lem a c s now willing_a up readable,
  restart_lem b success (Lifecycle.incoming_config_change a s).1 now willing_b,
)
