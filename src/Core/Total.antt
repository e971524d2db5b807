-- ===== src/Core/Total.antt =====
-- gnosis_vpn-lib/src/core/mod.rs: `act_on_target` and `disconnect_from_connection`, their fuel, and
-- the edge client that they unwrap.
use gnosis_vpn_client.Prelude.{
  ℕ, suc, ◌≡◌, refl, ◌∙◌, Bool, true, false, Option, none, some, [], arith, is_some, if◌then◌else◌,
}
use gnosis_vpn_client.Prelude.Maps.{lookup}
use gnosis_vpn_client.Types.{Destination, ExitHealth}
use gnosis_vpn_client.RouteHealth.Tracker.{RouteHealth}
use gnosis_vpn_client.Connection.Up.{Up}
use gnosis_vpn_client.Connection.Down.{Down, try_from}
use gnosis_vpn_client.Core.State.{Core, Phase, hopr_syncing, hopr_running, connecting, connected}
use gnosis_vpn_client.Core.Target.{
  connect_route, spawn_connection_runner, route_disconnecting, take_down, cache_pseudonym,
  cancel_connection_tasks, disconnect_with, act_in, act_with_fuel, act_on_target,
  spawn_disconnection_runner, disconnect_from_connection,
}

-- A computation returns, and what it returns satisfies `P`.
abbrev pub Returns : {A : Type 0} → (A → Type 0) → Option A → Type 0
Returns P none = ⊥
Returns P (some a) = P a

-- A test between two computations.
pub Returns-if :
    {A : Type 0} (P : A → Type 0) (b : Bool) (m n : Option A)
    → Returns P m
    → Returns P n
    → Returns P (if b then m else n)
Returns-if P true m n h k = h
Returns-if P false m n h k = k

abbrev pub needs_hopr : Phase → Bool
needs_hopr hopr_syncing = true
needs_hopr hopr_running = true
needs_hopr (connecting _) = true
needs_hopr (connected _) = true
needs_hopr _ = false

-- From the sync of the edge client on, its handle is there.
pub record HasHopr (c : Core) : Type 0 where
  pub handle : needs_hopr c.phase ≡ true → is_some c.hopr ≡ true

pub spawn_connection_runner-hopr :
    (dest : Destination) (exit : ExitHealth) (key : Option ℕ) (now : ℕ) (c : Core)
    → (spawn_connection_runner dest exit key now c).hopr ≡ c.hopr
unfolding spawn_connection_runner
spawn_connection_runner-hopr dest exit key now c = ground arith

pub connect_route-hopr :
    (rh : Option RouteHealth) (dest : Destination) (now : ℕ) (c : Core)
    → (connect_route rh dest now c).hopr ≡ c.hopr
unfolding connect_route
connect_route-hopr rh dest now c = ground arith

-- The core that a disconnection hands to its last step: idle, with its handle, its target and its
-- disconnections, and with no one waiting for root.
pub record IsIdleOf (c d : Core) : Type 0 where
  pub idle : d.phase ≡ hopr_running
  pub hopr : d.hopr ≡ c.hopr
  pub target : d.target_destination ≡ c.target_destination
  pub disconnections : d.ongoing_disconnections ≡ c.ongoing_disconnections
  pub outbox : d.outbox ≡ c.outbox
  pub nobody_waits : d.responders ≡ []

cache_pseudonym_keeps :
    (from_hex : ℕ → Option ℕ) (conn : Up) (now : ℕ) (c : Core)
    → let d = cache_pseudonym from_hex conn.destination conn.ping_session now c in
      (d.hopr ≡ c.hopr)
      × (d.target_destination ≡ c.target_destination)
      × (d.ongoing_disconnections ≡ c.ongoing_disconnections)
      × (d.outbox ≡ c.outbox)
unfolding cache_pseudonym
cache_pseudonym_keeps from_hex conn now c = ground arith

route_disconnecting-IsIdleOf :
    (dest : Option Destination) (rh : Option RouteHealth) (c : Core)
    → is_some c.hopr ≡ true
    → c.phase ≡ hopr_running
    → c.responders ≡ []
    → Returns (IsIdleOf c) (route_disconnecting dest rh c.hopr c)
unfolding route_disconnecting
route_disconnecting-IsIdleOf dest rh c h p r = ground arith

-- A computation that returns has a value.
Returns-value :
    {A : Type 0} (P : A → Type 0) (m : Option A) → Returns P m → (a : A) × (m ≡ some a) × P a
Returns-value P none h = absurd h
Returns-value P (some a) h = (a, refl, h)

-- All but the last step of a disconnection, whatever the last step is.
pub disconnect_with_lem :
    (from_hex : ℕ → Option ℕ) (conn : Up) (now : ℕ) (c : Core)
    → is_some c.hopr ≡ true
    → (d : Core) × IsIdleOf c d
      × ((act : Core → Option Core)
          → disconnect_with from_hex act conn now c ≡ take_down act (try_from conn now) d)
unfolding disconnect_with cancel_connection_tasks
disconnect_with_lem from_hex conn now c h =
    let cached = cache_pseudonym from_hex conn.destination conn.ping_session now c in
    let cleared : Core = record (cancel_connection_tasks cached) {
      responders = [];
      phase = hopr_running;
    } in
    let (kept, same, downs, out) = cache_pseudonym_keeps from_hex conn now c in
    let id = conn.destination.id in
    let (d, e, idle) = Returns-value (IsIdleOf cleared) _ (
      route_disconnecting-IsIdleOf (lookup id cleared.destinations)
        (lookup id cleared.route_healths) cleared (rw kept h) refl refl) in
    (d, ground arith, λ act. rw e refl)

-- What `act_on_target` does with an idle edge client.
abbrev pub act_idle : Option Destination → ℕ → Core → Core
act_idle none now c = c
act_idle (some dest) now c = connect_route (lookup dest.id c.route_healths) dest now c

act_with_fuel-idle :
    (k : ℕ) (from_hex : ℕ → Option ℕ) (now : ℕ) (c : Core)
    → c.phase ≡ hopr_running
    → act_with_fuel (suc k) from_hex now c ≡ some (act_idle c.target_destination now c)
unfolding act_with_fuel
act_with_fuel-idle k from_hex now c h = ground arith

-- The last step of a disconnection.
abbrev pub last_step : Option Down → ℕ → Core → Core
last_step (some down) now d = spawn_disconnection_runner down d
last_step none now d = act_idle d.target_destination now d

take_down-last_step :
    (k : ℕ) (from_hex : ℕ → Option ℕ) (down : Option Down) (now : ℕ) (d : Core)
    → d.phase ≡ hopr_running
    → take_down (act_with_fuel (suc k) from_hex now) down d ≡ some (last_step down now d)
unfolding take_down
take_down-last_step k from_hex none now d h = act_with_fuel-idle k from_hex now d h
take_down-last_step k from_hex (some down) now d h = refl

-- With an edge client a disconnection returns, at any fuel of the call that it makes: what it returns
-- is the last step on an idle core with the same target.
pub disconnect-Returns :
    (from_hex : ℕ → Option ℕ) (conn : Up) (now : ℕ) (c : Core)
    → is_some c.hopr ≡ true
    → (d : Core) × IsIdleOf c d
      × ((k : ℕ)
          → disconnect_with from_hex (act_with_fuel (suc k) from_hex now) conn now c
            ≡ some (last_step (try_from conn now) now d))
disconnect-Returns from_hex conn now c h =
    let (d, idle, steps) = disconnect_with_lem from_hex conn now c h in
    (
      d,
      idle,
      λ k.
          steps (act_with_fuel (suc k) from_hex now)
          ∙ take_down-last_step k from_hex (try_from conn now) now d idle.idle,
    )

act_in-fuel :
    (k : ℕ) (from_hex : ℕ → Option ℕ) (target : Option Destination) (phase : Phase) (now : ℕ)
    (c : Core)
    → (needs_hopr phase ≡ true → is_some c.hopr ≡ true)
    → act_in
        (λ conn. disconnect_with from_hex (act_with_fuel (suc k) from_hex now) conn now)
        target
        phase
        now
        c
      ≡ act_in
          (λ conn. disconnect_with from_hex (act_with_fuel 1 from_hex now) conn now)
          target
          phase
          now
          c
unfolding act_in
act_in-fuel k from_hex target (connected conn) now c h =
    let (d, idle, e) = disconnect-Returns from_hex conn now c (h refl) in ground (arith, e k, e 0)
act_in-fuel k from_hex target (connecting conn) now c h =
    let (d, idle, e) = disconnect-Returns from_hex conn now c (h refl) in ground (arith, e k, e 0)
act_in-fuel k from_hex none _ now c h = refl
act_in-fuel k from_hex (some dest) _ now c h = refl

-- On a core that has the edge client wherever its phase needs it, two calls deep is enough: more fuel
-- changes nothing.
act_with_fuel_enough :
    (k : ℕ) (from_hex : ℕ → Option ℕ) (now : ℕ) (c : Core)
    → HasHopr c
    → act_with_fuel (suc (suc k)) from_hex now c ≡ act_on_target from_hex now c
unfolding act_on_target act_with_fuel
act_with_fuel_enough k from_hex now c v =
    act_in-fuel k from_hex c.target_destination c.phase now c v.handle

spawn_disconnection_runner_keeps :
    (down : Down) (c : Core)
    → let d = spawn_disconnection_runner down c in (d.hopr ≡ c.hopr) × (d.phase ≡ c.phase)
unfolding spawn_disconnection_runner
spawn_disconnection_runner_keeps down c = ground arith

-- Operations on the target keep the handle of the edge client.
abbrev pub SameHopr : Core → Core → Type 0
SameHopr c d = d.hopr ≡ c.hopr

act_idle-hopr :
    (target : Option Destination) (now : ℕ) (c : Core) → (act_idle target now c).hopr ≡ c.hopr
act_idle-hopr none now c = refl
act_idle-hopr (some dest) now c = connect_route-hopr (lookup dest.id c.route_healths) dest now c

last_step-hopr : (down : Option Down) (now : ℕ) (d : Core) → (last_step down now d).hopr ≡ d.hopr
last_step-hopr none now d = act_idle-hopr d.target_destination now d
last_step-hopr (some down) now d = (spawn_disconnection_runner_keeps down d).0

pub disconnect_from_connection-SameHopr :
    (from_hex : ℕ → Option ℕ) (conn : Up) (now : ℕ) (c : Core)
    → is_some c.hopr ≡ true
    → Returns (SameHopr c) (disconnect_from_connection from_hex conn now c)
unfolding disconnect_from_connection act_on_target
disconnect_from_connection-SameHopr from_hex conn now c h =
    let (d, idle, e) = disconnect-Returns from_hex conn now c h in
    rw (e 1) (last_step-hopr (try_from conn now) now d ∙ idle.hopr)

act_in-SameHopr :
    (from_hex : ℕ → Option ℕ) (target : Option Destination) (phase : Phase) (now : ℕ) (c : Core)
    → (needs_hopr phase ≡ true → is_some c.hopr ≡ true)
    → Returns (SameHopr c) (
        act_in
          (λ conn. disconnect_with from_hex (act_with_fuel 1 from_hex now) conn now)
          target
          phase
          now
          c)
unfolding act_in
act_in-SameHopr from_hex target (connected conn) now c h =
    let (d, idle, e) = disconnect-Returns from_hex conn now c (h refl) in
    ground (arith, e 0, last_step-hopr (try_from conn now) now d)
act_in-SameHopr from_hex target (connecting conn) now c h =
    let (d, idle, e) = disconnect-Returns from_hex conn now c (h refl) in
    ground (arith, e 0, last_step-hopr (try_from conn now) now d)
act_in-SameHopr from_hex (some dest) hopr_running now c h =
    connect_route-hopr (lookup dest.id c.route_healths) dest now c
act_in-SameHopr from_hex none _ now c h = refl
act_in-SameHopr from_hex (some dest) _ now c h = refl

pub act_on_target-SameHopr :
    (from_hex : ℕ → Option ℕ) (now : ℕ) (c : Core)
    → HasHopr c
    → Returns (SameHopr c) (act_on_target from_hex now c)
unfolding act_on_target act_with_fuel
act_on_target-SameHopr from_hex now c v =
    act_in-SameHopr from_hex c.target_destination c.phase now c v.handle
