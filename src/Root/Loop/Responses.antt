-- ===== src/Root/Loop/Responses.antt =====
-- gnosis_vpn-root/src/main.rs: the responses of the worker to the commands that wait for them.
use gnosis_vpn_client.Prelude.{
  ℕ, ◌+◌, length, Bool, false, ◌||◌, ◌≢◌, some, List, [], ◌∷◌, Result, ok, err, ◌≡◌, sym, ◌∙◌,
  arith,
}
use gnosis_vpn_client.Core.Requests.{u64}
use gnosis_vpn_client.Root.Messages.{
  WorkerCommand, Response, response, force_reconnect_acknowledged,
}
use gnosis_vpn_client.Prelude.Maps.{remove, lookup-insert_self}
use gnosis_vpn_client.Root.State.{DaemonState, Answers, ExitCode, answered}
use gnosis_vpn_client.Root.Commands.{handle_hybrid_cmd, ask_worker, worker_socket_command}
use gnosis_vpn_client.Root.Requests.{incoming_worker_response, incoming_worker_line}
use gnosis_vpn_client.Root.Loop.{Input, worker_line, handle, daemon_loop}
use gnosis_vpn_client.Root.Loop.Phases.{
  Phase, running, phase_of, next, is_readable, Leaves, handle-next, worker_command-next,
}
use gnosis_vpn_client.Root.Loop.Runs.{goes_on, daemon_loop-goes_on}
use mathlib.Core.Path.{subst}
use gnosis_vpn_client.Root.Loop.Soundness.{IsSound, Keeps, u64-next, handle-Keeps, asked-Keeps}
use gnosis_vpn_client.Root.Loop.Pending.{Waits, Kept, answers, handle-Kept}

-- The daemon is running, with its worker, between all the inputs.
abbrev pub IsUp : List (Answers × Input) → Phase → Type 0
IsUp [] p = p ≡ running
IsUp ((a, i) ∷ rest) p = (p ≡ running) × IsUp rest (next (is_readable a.read_config) i p)

abbrev pub has_answer : List (Answers × Input) → ℕ → Bool
has_answer [] id = false
has_answer ((a, i) ∷ rest) id = answers i id || has_answer rest id

IsUp-running : (rest : List (Answers × Input)) (p : Phase) → IsUp rest p → p ≡ running
IsUp-running [] p up = up
IsUp-running ((a, i) ∷ rest) p up = up.0

-- A run that returns keeps the command waiting.
abbrev WaitsAfter : ℕ → ℕ → Result (Unit {0}) ExitCode × DaemonState → Type 0
WaitsAfter id channel (ok _, s) = Waits id channel s
WaitsAfter id channel (err _, s) = Unit {0}

goes_on-WaitsAfter :
    (id channel : ℕ) (rest : List (Answers × Input)) (q : Phase)
    (r : Result (Unit {0}) ExitCode × DaemonState)
    → Leaves q r
    → Keeps (length rest) r
    → Kept id channel r
    → IsUp rest q
    → ((s : DaemonState)
        → IsSound (length rest) s
        → Waits id channel s
        → IsUp rest (phase_of s)
        → WaitsAfter id channel (daemon_loop rest s))
    → WaitsAfter id channel (goes_on rest r)
goes_on-WaitsAfter id channel rest q (ok _, s) leaves sound kept up later =
    later s sound (kept (leaves ∙ IsUp-running rest q up)) (subst (IsUp rest) (sym leaves) up)
goes_on-WaitsAfter id channel rest q (err code, s) leaves sound kept up later = tt

daemon_loop-WaitsAfter :
    (id channel : ℕ) (between : List (Answers × Input)) (s : DaemonState)
    → IsSound (length between) s
    → Waits id channel s
    → has_answer between id ≡ false
    → IsUp between (phase_of s)
    → WaitsAfter id channel (daemon_loop between s)
daemon_loop-WaitsAfter id channel [] s sound waits others up = unfold daemon_loop in waits
daemon_loop-WaitsAfter id channel ((a, i) ∷ rest) s sound waits others up =
    rw (daemon_loop-goes_on a i rest s) (
      goes_on-WaitsAfter id channel rest (next (is_readable a.read_config) i (phase_of s))
        (handle a i s) (handle-next a i s)
        (handle-Keeps a (length rest) i s (sound.0, sound.1, omega (arith, sound.2)))
        (handle-Kept a (length rest) id channel i s (ground (arith, others))
          (sound.0, sound.1, omega (arith, sound.2)) waits)
        up.1
        (λ (t : DaemonState) (t_sound : IsSound (length rest) t) (t_waits : Waits id channel t)
            (t_up : IsUp rest (phase_of t)).
          daemon_loop-WaitsAfter id channel rest t t_sound t_waits (ground (arith, others)) t_up))

-- What the running worker is asked for waits under the next id.
asked-WaitsAfter :
    (a : Answers) (cmd : WorkerCommand) (channel : ℕ) (s : DaemonState)
    → u64 (s.pending_response_counter + 1) ≡ s.pending_response_counter + 1
    → phase_of s ≡ running
    → WaitsAfter (s.pending_response_counter + 1) channel (worker_socket_command a cmd channel s)
unfolding worker_socket_command handle_hybrid_cmd ask_worker
asked-WaitsAfter a cmd channel s fits up =
    ground
      (arith, fits, lookup-insert_self (s.pending_response_counter + 1) channel s.pending_responses)

-- The response to an id that a command waits under.
response-answered :
    (id channel : ℕ) (resp : Response) (s : DaemonState)
    → Waits id channel s
    → resp ≢ force_reconnect_acknowledged
    → incoming_worker_response id resp s ≡ (
      ok tt,
      record s {
        pending_responses = remove id s.pending_responses;
        log = answered channel resp ∷ s.log;
      },
    )
unfolding incoming_worker_response
response-answered id channel resp s waits other = ground arith

-- A command for the worker that comes while it runs waits under the next id. The response to this
-- id, after a run that returns, in which the worker kept running and did not respond to the id,
-- goes to the channel of the command and to no other, and the id no longer waits: provided that the
-- response is not that of a forced reconnect, that the daemon is sound, and that the counter of the
-- ids does not wrap around while the command and the inputs of the run are handled.
pub response_reaches_command :
    (a b : Answers) (cmd : WorkerCommand) (channel : ℕ) (resp : Response)
    (between : List (Answers × Input)) (s s' s'' : DaemonState)
    → IsSound (length between + 1) s
    → phase_of s ≡ running
    → worker_socket_command a cmd channel s ≡ (ok tt, s')
    → IsUp between running
    → has_answer between (s.pending_response_counter + 1) ≡ false
    → daemon_loop between s' ≡ (ok tt, s'')
    → resp ≢ force_reconnect_acknowledged
    → (handle b (worker_line (some (response (s.pending_response_counter + 1) resp))) s'' ≡ (
      ok tt,
      record s'' {
        pending_responses = remove (s.pending_response_counter + 1) s''.pending_responses;
        log = answered channel resp ∷ s''.log;
      },
    ))
response_reaches_command a b cmd channel resp between s s' s'' sound up asked ups others run other =
    let later_sound : IsSound (length between) s' =
      subst (Keeps (length between)) asked (asked-Keeps a (length between) cmd channel s sound) in
    let later_waits : Waits (s.pending_response_counter + 1) channel s' =
      subst (WaitsAfter (s.pending_response_counter + 1) channel) asked (
        asked-WaitsAfter a cmd channel s
          (u64-next s.pending_response_counter (length between) sound.2) up) in
    let later_up : phase_of s' ≡ running =
      subst (Leaves (phase_of s)) asked (worker_command-next a cmd channel s) ∙ up in
    let end_waits : Waits (s.pending_response_counter + 1) channel s'' =
      subst (WaitsAfter (s.pending_response_counter + 1) channel) run (
        daemon_loop-WaitsAfter (s.pending_response_counter + 1) channel between s' later_sound
          later_waits others (subst (IsUp between) (sym later_up) ups)) in
    unfold handle in
    unfold incoming_worker_line in
    response-answered (s.pending_response_counter + 1) channel resp s'' end_waits other
