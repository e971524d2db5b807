-- ===== src/RouteHealth/Live.antt =====
-- gnosis_vpn-lib/src/route_health.rs: how many health checks of a destination are in flight.
use gnosis_vpn_client.Prelude.{
  ℕ, suc, ◌≤◌, ◌≡◌, refl, Bool, true, false, not, ◌&&◌, List, [], ◌∷◌, arith, ◌==◌, if◌then◌else◌,
  contains, All, sym, ◌∙◌,
}
use gnosis_vpn_client.Types.{Destination, HealthCheckIntervals}
use gnosis_vpn_client.Runtime.{Env, Call, spawned, cancelled, health_check}
use gnosis_vpn_client.RouteHealth.Tracker.{
  RouteHealth, new, spawn_health_check, cancel_health_check,
}
use gnosis_vpn_client.RouteHealth.Transitions.{
  peers, any_channel_available, health_check_result, start_connecting, disconnecting,
  tunnel_ping_result, with_error,
}
use gnosis_vpn_client.RouteHealth.Machine.{Op, op_foreign, step, run, is_foreign, IsAllowed}

-- Whether a call starts a health check of `id` under a token that is not in `cs`.
abbrev pub starts : ℕ → List ℕ → Call → Bool
starts id cs (spawned t delay (health_check dest scope)) = dest.id == id && not (contains cs t)
starts id cs _ = false

abbrev pub with_cancelled : Call → List ℕ → List ℕ
with_cancelled (cancelled t) cs = t ∷ cs
with_cancelled _ cs = cs

-- The health checks of `id` whose token was not cancelled after they were spawned. The tokens in
-- `cs` count as cancelled after the whole log.
unfoldable pub live_checks : ℕ → List ℕ → List Call → ℕ
live_checks id cs [] = 0
live_checks id cs (c ∷ log) =
    let rest = live_checks id (with_cancelled c cs) log in if starts id cs c then suc rest else rest

-- `cs` holds all of `ds`.
abbrev Covers : List ℕ → List ℕ → Type 0
Covers cs ds = (t : ℕ) → contains ds t ≡ true → contains cs t ≡ true

Covers-cons : (t : ℕ) (cs ds : List ℕ) → Covers cs ds → Covers (t ∷ cs) (t ∷ ds)
Covers-cons t cs ds h u k = ground (arith, h u)

Covers-skip : (t : ℕ) (cs : List ℕ) → Covers (t ∷ cs) cs
Covers-skip t cs u k = ground arith

Covers-with_cancelled :
    (c : Call) (cs ds : List ℕ) → Covers cs ds → Covers (with_cancelled c cs) (with_cancelled c ds)
Covers-with_cancelled (cancelled t) cs ds h = Covers-cons t cs ds h
Covers-with_cancelled _ cs ds h = h

starts_mono :
    (id : ℕ) (c : Call) (cs ds : List ℕ)
    → Covers cs ds
    → starts id cs c ≡ true
    → starts id ds c ≡ true
starts_mono id (spawned t delay (health_check dest scope)) cs ds h k = ground (arith, h t)
starts_mono id _ cs ds h k = k

-- More cancelled tokens leave fewer checks alive.
live_checks_mono :
    (id : ℕ) (log : List Call) (cs ds : List ℕ)
    → Covers cs ds
    → live_checks id cs log ≤ live_checks id ds log
unfolding live_checks
live_checks_mono id [] cs ds h = omega arith
live_checks_mono id (c ∷ log) cs ds h =
    let ih =
      live_checks_mono id log (with_cancelled c cs) (with_cancelled c ds)
        (Covers-with_cancelled c cs ds h) in
    let s = starts_mono id c cs ds h in ground (arith, ih, s)

pub record Live (rh : RouteHealth) (e : Env) : Type 0 where
  pub at_most_one : live_checks rh.id [] e.log ≤ 1
  -- Cancelling the route's token leaves none.
  pub under_token : live_checks rh.id (rh.health_check_cancel ∷ []) e.log ≡ 0

-- Two cancelled tokens leave no more checks alive than one.
pub live_checks-pair :
    (id t u : ℕ) (log : List Call) → live_checks id (t ∷ u ∷ []) log ≤ live_checks id (t ∷ []) log
live_checks-pair id t u log = live_checks_mono id log (t ∷ u ∷ []) (t ∷ []) (λ v k. ground arith)

cancel_health_check-Live :
    (rh : RouteHealth) (e : Env)
    → Live rh e
    → Live (cancel_health_check rh e).0 (cancel_health_check rh e).1
unfolding cancel_health_check live_checks
cancel_health_check-Live rh e v =
    ground (arith, live_checks-pair rh.id rh.health_check_cancel e.next_token e.log)

spawn_health_check-Live :
    (rh : RouteHealth) (delay : ℕ) (dest : Destination) (intervals : HealthCheckIntervals) (e : Env)
    → dest.id ≡ rh.id
    → Live rh e
    → Live
        (spawn_health_check rh delay dest intervals e).0
        (spawn_health_check rh delay dest intervals e).1
unfolding spawn_health_check live_checks
spawn_health_check-Live rh delay dest intervals e h v =
    ground (arith, live_checks-pair rh.id rh.health_check_cancel e.next_token e.log)

foreign-Live :
    (rh : RouteHealth) (e : Env) (c : Call)
    → is_foreign rh.id c ≡ true
    → Live rh e
    → Live rh (record e { log = c ∷ e.log })
unfolding live_checks
foreign-Live rh e (spawned t delay (health_check dest scope)) h v = ground arith
foreign-Live rh e (cancelled t) h v =
    let k = rh.health_check_cancel in
    ground (
      arith,
      live_checks_mono rh.id e.log (t ∷ []) [] (λ u k. cc),
      live_checks_mono rh.id e.log (t ∷ k ∷ []) (k ∷ []) (Covers-skip t (k ∷ [])),
    )
foreign-Live rh e _ h v = ground arith

step-id :
    (dest : Destination) (intervals : HealthCheckIntervals) (rh : RouteHealth) (e : Env) (o : Op)
    → (step dest intervals (rh, e) o).0.id ≡ rh.id
unfolding step peers any_channel_available health_check_result start_connecting disconnecting
    tunnel_ping_result with_error
step-id dest intervals rh e (op_foreign c) = refl
step-id dest intervals rh e _ = ground arith

-- The destination that a route is called with is its own.
pub step-Live :
    (dest : Destination) (intervals : HealthCheckIntervals) (rh : RouteHealth) (e : Env) (o : Op)
    → dest.id ≡ rh.id
    → IsAllowed rh.id o
    → Live rh e
    → Live (step dest intervals (rh, e) o).0 (step dest intervals (rh, e) o).1
unfolding step peers any_channel_available health_check_result start_connecting disconnecting
    tunnel_ping_result with_error live_checks
step-Live dest intervals rh e (op_foreign c) h a v = foreign-Live rh e c a v
step-Live dest intervals rh e _ h a v =
    ground (arith, live_checks-pair rh.id rh.health_check_cancel e.next_token e.log)

pub run-Live :
    (dest : Destination) (intervals : HealthCheckIntervals) (rh : RouteHealth) (e : Env)
    (os : List Op)
    → dest.id ≡ rh.id
    → All (IsAllowed rh.id) os
    → Live rh e
    → Live (run dest intervals (rh, e) os).0 (run dest intervals (rh, e) os).1
unfolding run
run-Live dest intervals rh e [] h a v = v
run-Live dest intervals rh e (o ∷ os) h a v =
    let (r, e') = step dest intervals (rh, e) o in
    let same = step-id dest intervals rh e o in
    run-Live dest intervals r e' os (h ∙ sym same) (rw same a.1)
      (step-Live dest intervals rh e o h a.0 v)

run-id :
    (dest : Destination) (intervals : HealthCheckIntervals) (rh : RouteHealth) (e : Env)
    (os : List Op)
    → (run dest intervals (rh, e) os).0.id ≡ rh.id
unfolding run
run-id dest intervals rh e [] = refl
run-id dest intervals rh e (o ∷ os) =
    let s = step dest intervals (rh, e) o in
    run-id dest intervals s.0 s.1 os ∙ step-id dest intervals rh e o

new-Live :
    (hop_count : ℕ → ℕ) (dest : Destination) (insecure experimental : Bool) (token : ℕ) (e : Env)
    → live_checks dest.id [] e.log ≡ 0
    → let (rh, e') = new hop_count dest insecure experimental token e in Live rh e'
unfolding new live_checks
new-Live hop_count dest insecure experimental token e h =
    ground (arith, live_checks_mono dest.id e.log (e.next_token ∷ []) [] (λ u k. cc))

-- From a new route on, in any order of operations, at most one health check of the destination is
-- in flight, provided that none is when the route is made.
pub at_most_one_check :
    (hop_count : ℕ → ℕ) (dest : Destination) (insecure experimental : Bool) (token : ℕ) (e : Env)
    (intervals : HealthCheckIntervals) (os : List Op)
    → live_checks dest.id [] e.log ≡ 0
    → All (IsAllowed dest.id) os
    → live_checks dest.id []
        (run dest intervals (new hop_count dest insecure experimental token e) os).1.log
      ≤ 1
unfolding new
at_most_one_check hop_count dest insecure experimental token e intervals os none_live a =
    let (rh, e') = new hop_count dest insecure experimental token e in
    let last =
      run-Live dest intervals rh e' os refl a
        (new-Live hop_count dest insecure experimental token e none_live) in
    rw run-id at (last.at_most_one)
