-- ===== src/RouteHealth/Readiness.antt =====
-- gnosis_vpn-lib/src/route_health.rs: when a route is ready to connect, and what a connection
-- leaves behind.
use gnosis_vpn_client.Prelude.{
  ℕ, suc, ◌+◌, ◌<◌, ◌≡◌, refl, String, Bool, true, false, ◌⊎◌, some, List, [], ◌∷◌, Result, ok, err,
  arith, length,
}
use gnosis_vpn_client.Types.{
  Destination, HealthCheckIntervals, ExitHealth, Versions, Health, HealthCheckOutcome, completed,
  failed, ready_to_connect, routable,
}
use gnosis_vpn_client.Runtime.{Env}
use gnosis_vpn_client.RouteHealth.Tracker.{RouteHealth, u32, is_ready, is_connecting}
use gnosis_vpn_client.RouteHealth.Transitions.{
  peers, any_channel_available, health_check_result, start_connecting, disconnecting,
  tunnel_ping_result, with_error,
}
use gnosis_vpn_client.RouteHealth.Machine.{Op, op_outcome, op_disconnecting, op_foreign, step}

-- An outcome that carries a full report.
abbrev pub is_full : HealthCheckOutcome → Bool
is_full (completed _ (some _) (some _) (some _)) = true
is_full _ = false

-- The two ways for a route to become ready: a full report, or the end of a connection.
abbrev pub MakesReady : RouteHealth → Op → Type 0
MakesReady rh (op_outcome o) = is_full o ≡ true
MakesReady rh op_disconnecting = (is_connecting rh.state ≡ true) × (rh.exit_failures ≡ 0)
MakesReady rh _ = ⊥

-- In one operation, a route becomes ready to connect only by a full report of its exit, or by leaving
-- a connection with no failed check counted.
pub becomes_ready :
    (dest : Destination) (intervals : HealthCheckIntervals) (rh : RouteHealth) (e : Env) (o : Op)
    → is_ready rh.state ≡ false
    → is_ready (step dest intervals (rh, e) o).0.state ≡ true
    → MakesReady rh o
unfolding step peers any_channel_available health_check_result start_connecting disconnecting
    tunnel_ping_result with_error
becomes_ready dest intervals rh e (op_outcome (completed t (some v) (some p) (some h))) n r = refl
becomes_ready dest intervals rh e (op_foreign c) n r = cc
becomes_ready dest intervals rh e _ n r = ground arith

-- A connection that is ended with nothing in between gives back the exit that it was started with,
-- and the route is ready again.
pub disconnecting-start_connecting :
    (dest : Destination) (intervals : HealthCheckIntervals) (rh : RouteHealth) (e : Env)
    (exit : ExitHealth)
    → let (r, f) = start_connecting rh dest exit intervals e in
      (disconnecting r dest intervals f).0.state ≡ ready_to_connect exit
unfolding start_connecting disconnecting
disconnecting-start_connecting dest intervals rh e exit = ground arith

-- A full report is taken in every state but `Connecting` and `ReadyToConnect`, also where no check
-- should be running: a route that has no peer or is unrecoverable becomes ready to connect.
pub full_report_revives :
    (dest : Destination) (intervals : HealthCheckIntervals) (rh : RouteHealth) (e : Env) (t : ℕ)
    (versions : Versions) (rtt : ℕ) (health : Health)
    → is_connecting rh.state ≡ false
    → is_ready rh.state ≡ false
    → (health_check_result rh
        (completed t (some versions) (some rtt) (some health))
        dest
        intervals
        e).0.state
      ≡ ready_to_connect
          (record { checked_at = t; versions = versions; ping_rtt = rtt; health = health })
unfolding health_check_result
full_report_revives dest intervals rh e t versions rtt health n r = ground arith

-- A failed check leaves a route under connection in place, takes a ready route back to routable at
-- the start of its cycle, makes no route ready, and keeps the error and the count of failures.
pub failed_demotes :
    (dest : Destination) (intervals : HealthCheckIntervals) (rh : RouteHealth) (e : Env) (t : ℕ)
    (error : String)
    → let r = (health_check_result rh (failed t error) dest intervals e).0 in
      (is_ready r.state ≡ false)
      × (is_connecting r.state ≡ is_connecting rh.state)
      × ((is_ready rh.state ≡ false) ⊎ ((r.state ≡ routable) × (r.check_cycle ≡ 0)))
      × (r.exit_last_error ≡ some error)
      × (r.exit_failures ≡ u32 (rh.exit_failures + 1))
unfolding health_check_result
failed_demotes dest intervals rh e t error = ground arith

-- The tunnel pings of a connection, in order.
unfoldable pub ping_all : RouteHealth → ℕ → List (Result ℕ String) → RouteHealth × ℕ
ping_all rh count [] = (rh, count)
ping_all rh count (r ∷ rs) = let (rh', count') = tunnel_ping_result rh r in ping_all rh' count' rs

-- The failures at the end of a list of pings, after `n` failures before it.
abbrev pub trailing_failures : ℕ → List (Result ℕ String) → ℕ
trailing_failures n [] = n
trailing_failures n (ok _ ∷ rs) = trailing_failures 0 rs
trailing_failures n (err _ ∷ rs) = trailing_failures (suc n) rs

ping_ok :
    (rh : RouteHealth) (rtt : ℕ)
    → is_connecting rh.state ≡ true
    → let (rh', count) = tunnel_ping_result rh (ok rtt) in
      (is_connecting rh'.state ≡ true)
      × (count ≡ rh'.tunnel_ping_failures)
      × (rh'.tunnel_ping_failures ≡ 0)
unfolding tunnel_ping_result
ping_ok rh rtt h = ground arith

ping_err :
    (rh : RouteHealth) (error : String)
    → is_connecting rh.state ≡ true
    → rh.tunnel_ping_failures + 1 < 4_294_967_296
    → let (rh', count) = tunnel_ping_result rh (err error) in
      (is_connecting rh'.state ≡ true)
      × (count ≡ rh'.tunnel_ping_failures)
      × (rh'.tunnel_ping_failures ≡ suc rh.tunnel_ping_failures)
unfolding tunnel_ping_result
ping_err rh error h b = ground arith

-- Over the pings of a connection, the count that the core compares with its limit is the number of
-- failures since the last answer, and the route stays connecting, as long as the count fits u32.
pub ping_all_lem :
    (rh : RouteHealth) (rs : List (Result ℕ String))
    → is_connecting rh.state ≡ true
    → rh.tunnel_ping_failures + length rs < 4_294_967_296
    → ((ping_all rh rh.tunnel_ping_failures rs).1 ≡ trailing_failures rh.tunnel_ping_failures rs)
      × (is_connecting (ping_all rh rh.tunnel_ping_failures rs).0.state ≡ true)
unfolding ping_all
ping_all_lem rh [] h b = (refl, h)
ping_all_lem rh (ok rtt ∷ rs) h b =
    let rh' = (tunnel_ping_result rh (ok rtt)).0 in
    let (c, same, z) = ping_ok rh rtt h in
    let ih = ping_all_lem rh' rs c (omega arith) in rw (same, ping_all) (rw (← z) ih)
ping_all_lem rh (err error ∷ rs) h b =
    let rh' = (tunnel_ping_result rh (err error)).0 in
    let (c, same, z) = ping_err rh error h (omega arith) in
    let ih = ping_all_lem rh' rs c (omega arith) in rw (same, ping_all) (rw (← z) ih)
