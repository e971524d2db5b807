-- ===== src/Core/Traces.antt =====
-- gnosis_vpn-lib/src/core/mod.rs: runs of the core, the loop of `start`: it handles what the worker
-- and the runners send, in any order, until a handler says to stop.
use gnosis_vpn_client.Prelude.{
  ℕ, ◌≡◌, arith, String, Bool, true, false, Option, none, some, List, [], ◌∷◌,
}
use gnosis_vpn_client.Core.State.{Core, initial}
use gnosis_vpn_client.Core.Dispatch.{Results, on_results, WorkerToCore, on_event}
use gnosis_vpn_client.Core.Total.{Returns, HasHopr}
use gnosis_vpn_client.Core.NoPanic.{IsExpected, KeepsHopr, on_results-Returns, on_event-Returns}

-- What arrives, each with the time at which it is handled.
pub data Input : Type 0 where
  event : (now : ℕ) → WorkerToCore → Input
  result : (now : ℕ) → Results → Input

unfoldable pub handle : (ℕ → Option ℕ) → Input → Core → Option (Core × Bool)
unfolding on_event on_results
handle from_hex (event now e) c = on_event from_hex e now c
handle from_hex (result now r) c = on_results from_hex r now c

-- What the loop does after a handler. `none` is a panic.
abbrev pub after : (Core → Option Core) → Option (Core × Bool) → Option Core
after run none = none
after run (some (c, false)) = some c
after run (some (c, true)) = run c

unfoldable pub run_all : (ℕ → Option ℕ) → List Input → Core → Option Core
unfolding handle
run_all from_hex [] c = some c
run_all from_hex (i ∷ is) c = after (run_all from_hex is) (handle from_hex i c)

abbrev pub IsExpectedInput : Core → Input → Type 0
IsExpectedInput c (event now e) = Unit {0}
IsExpectedInput c (result now r) = IsExpected c r

-- What holds of the core that a handler leaves to the rest of the inputs.
abbrev pub Then : (Core → Type 0) → Option (Core × Bool) → Type 0
Then P (some (c, true)) = P c
Then P _ = Unit {0}

-- Every result that arrives is expected when it arrives.
abbrev pub AllExpected : (ℕ → Option ℕ) → List Input → Core → Type 0
AllExpected from_hex [] c = Unit {0}
AllExpected from_hex (i ∷ is) c =
    IsExpectedInput c i × Then (AllExpected from_hex is) (handle from_hex i c)

handle-KeepsHopr :
    (from_hex : ℕ → Option ℕ) (i : Input) (c : Core)
    → IsExpectedInput c i
    → HasHopr c
    → Returns KeepsHopr (handle from_hex i c)
unfolding handle
handle-KeepsHopr from_hex (event now e) c x v = on_event-Returns from_hex e now c v
handle-KeepsHopr from_hex (result now r) c x v = on_results-Returns from_hex r now c x v

after-Returns :
    (P Q : Core → Type 0) (run : Core → Option Core) (m : Option (Core × Bool))
    → ((c : Core) → P c → Q c → Returns P (run c))
    → Returns (λ d. P d.0) m
    → Then Q m
    → Returns P (after run m)
after-Returns P Q run none go kept then = kept
after-Returns P Q run (some (c, false)) go kept then = kept
after-Returns P Q run (some (c, true)) go kept then = go c kept then

run_all-HasHopr :
    (from_hex : ℕ → Option ℕ) (is : List Input) (c : Core)
    → AllExpected from_hex is c
    → HasHopr c
    → Returns HasHopr (run_all from_hex is c)
unfolding run_all
run_all-HasHopr from_hex [] c x v = v
run_all-HasHopr from_hex (i ∷ is) c x v =
    after-Returns HasHopr (AllExpected from_hex is) (run_all from_hex is) (handle from_hex i c)
      (λ d v' x'. run_all-HasHopr from_hex is d x' v') (handle-KeepsHopr from_hex i c x.0 v) x.1

-- From a core in its initial phase on, whatever events and results arrive and in whatever order, the
-- core panics neither at an unwrapped edge client nor at the product of the intervals of the health
-- checks, and has the edge client wherever its phase needs it. Health checks and the start of the
-- edge client are reported only to a core that has the edge client, and health checks only to one
-- whose product of the intervals fits a duration.
pub run_all-Returns :
    (from_hex : ℕ → Option ℕ) (is : List Input) (c : Core) (error : Option String)
    → c.phase ≡ initial error
    → AllExpected from_hex is c
    → Returns HasHopr (run_all from_hex is c)
run_all-Returns from_hex is c error p x =
    run_all-HasHopr from_hex is c x (record { handle = λ h. ground (arith, p) })
