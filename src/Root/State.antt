-- ===== src/Root/State.antt =====
-- gnosis_vpn-root/src/main.rs: the record `DaemonState`, what its handlers do, and the monad in which
-- they run: a handler may end with an exit code, at which the daemon stops.
--
-- `log` is what the daemon did, the newest first. The answers of the operating system and of the
-- routing actor during one handler are an argument.
use gnosis_vpn_client.Prelude.{ℕ, Bool, true, false, String, Option, List, ◌∷◌, Result, ok, err}
use gnosis_vpn_client.Root.Messages.{Config, Response, RootToWorker, Msg, KeepAliveInstruction}

pub data Shutdown : Type 0 where
  worker restart_worker service not_ongoing : Shutdown

pub data ExitCode : Type 0 where
  ok_code ioerr tempfail dataerr : ExitCode

pub data Effect : Type 0 where
  to_worker : RootToWorker → Effect
  -- A response on the channel of a socket command.
  answered : (channel : ℕ) → Response → Effect
  -- The channels of the commands that still waited were dropped.
  dropped : List ℕ → Effect
  to_routing : Msg → Effect
  keep_alive : KeepAliveInstruction → Effect
  worker_spawned pings_stopped logs_rotated : Effect
  -- The routing actor was cancelled: it tears the routing down and resets the firewall.
  routing_cancelled : Effect

pub record DaemonState : Type 0 where
  pub config : Config
  pub log_file : Option ℕ
  pub reload_handle : Option ℕ
  pub cached_blokli_ips : List ℕ
  pub shutdown_ongoing : Shutdown
  pub target_dest_id : Option ℕ
  -- Whether there is a worker process, with its socket.
  pub worker_child : Bool
  -- The ids of the requests whose ping is under way.
  pub ping_tasks : List ℕ
  pub pending_response_counter : ℕ
  pub pending_responses : List (ℕ × ℕ)
  pub log : List Effect

-- What the operating system and the routing actor answer while one handler runs.
pub record Answers : Type 0 where
  -- A message that cannot be serialised or written ends the daemon.
  pub write : RootToWorker → Result (Unit {0}) ExitCode
  -- Everything of `setup_worker` up to its first message.
  pub spawn : Result (Unit {0}) ExitCode
  pub read_config : Option Config
  pub routing : Result String String
  pub killswitch : Result (Unit {0}) String
  pub reload_log : Bool

abbrev pub M : Type 0 → Type 0
M A = DaemonState → Result A ExitCode × DaemonState

infixl 5 ◌>>=◌ ◌>>◌
abbrev pub ◌>>=◌ : {A B : Type 0} → M A → (A → M B) → M B
◌>>=◌ m f s = let (r, s') = m s in elim r [ ok a ↦ f a s' | err e ↦ (err e, s') ]

abbrev pub ◌>>◌ : {B : Type 0} → M (Unit {0}) → M B → M B
m >> k = m >>= λ _. k

abbrev pub return : {A : Type 0} → A → M A
return a s = (ok a, s)

abbrev pub exit : {A : Type 0} → ExitCode → M A
exit code s = (err code, s)

abbrev pub modify : (DaemonState → DaemonState) → M (Unit {0})
modify f s = (ok tt, f s)

abbrev pub get : M DaemonState
get s = (ok s, s)

abbrev pub did : Effect → M (Unit {0})
did e s = (ok tt, record s { log = e ∷ s.log })

abbrev pub when : Bool → M (Unit {0}) → M (Unit {0})
when true m = m
when false m = return tt

-- A message counts as sent when it was written.
abbrev pub sent : Result (Unit {0}) ExitCode → RootToWorker → M (Unit {0})
sent (ok _) msg s = (ok tt, record s { log = to_worker msg ∷ s.log })
sent (err code) msg s = (err code, s)

abbrev pub send_to_worker : Answers → RootToWorker → M (Unit {0})
send_to_worker a msg = sent (a.write msg) msg

-- `matches!(self.shutdown_ongoing, Shutdown::None)`.
abbrev pub is_not_ongoing : Shutdown → Bool
is_not_ongoing not_ongoing = true
is_not_ongoing _ = false

-- A worker that is there and is not told to stop.
abbrev pub is_serving : Shutdown → Bool → Bool
is_serving not_ongoing true = true
is_serving _ _ = false
