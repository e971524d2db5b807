-- ===== src/RouteHealth/Runner.antt =====
-- gnosis_vpn-lib/src/route_health.rs: one health-check cycle (`run_health_check`). What the exit
-- answers is its argument, and what it does its result, in order: outcomes sent to the core, and
-- the session to the exit (a number) opened and closed. On every way out but the last the guard
-- `HealthSession` closes the session when it is dropped.
use Prim.Native.Nat.{pred}
use Prim.Native.String.{◌++◌}
use text.Mathlib.Text.{◌==◌ as str_eq}
use gnosis_vpn_client.Prelude.{
  ℕ, suc, ◌≡◌, String, Bool, true, false, Option, none, some, List, [], ◌∷◌, Result, ok, err, arith,
  any, find, if◌then◌else◌, is_some, All, length, not, ◌&&◌, ◌||◌,
}
use gnosis_vpn_client.Types.{
  Versions, Health, CheckScope, HealthCheckOutcome, started, unrecoverable_outcome, failed,
  completed, incompatible_api_version,
}

-- The versions that the client speaks.
abbrev supported : List String
supported = "v1" ∷ []

unfoldable pub select_api_version : List String → Option String
select_api_version server_versions = find (λ v. any (λ sv. str_eq sv v) server_versions) supported

pub record Answers : Type 0 where
  pub session : Result ℕ String
  pub versions : Result Versions String
  pub health : Result Health String
  pub ping : Result (Unit {0}) String
  pub ping_rtt : ℕ

pub data Action : Type 0 where
  sent : HealthCheckOutcome → Action
  opened : ℕ → Action
  closed : ℕ → Action

-- Step 3: the ping, and the close that comes before the outcome.
unfoldable pub check_ping : Answers → ℕ → ℕ → Option Versions → Option Health → List Action
check_ping a checked_at s versions health =
    closed s
    ∷ sent (elim a.ping [
      | ok _ ↦ completed checked_at versions (some a.ping_rtt) health
      | err e ↦ failed checked_at ("Ping error: " ++ e)
    ])
    ∷ []

-- Step 2: the exit's health, when due.
unfoldable pub check_health : CheckScope → Answers → ℕ → ℕ → Option Versions → List Action
unfolding check_ping
check_health scope a checked_at s versions =
    if scope.health
    then elim a.health [
      | ok h ↦ check_ping a checked_at s versions (some h)
      | err e ↦ sent (failed checked_at ("Health request error: " ++ e)) ∷ closed s ∷ []
    ]
    else check_ping a checked_at s versions none

-- Step 1: the API versions, when due.
unfoldable pub check_version : CheckScope → Answers → ℕ → ℕ → List Action
unfolding check_health select_api_version
check_version scope a checked_at s =
    if scope.version
    then elim a.versions [
      | ok v ↦
          if is_some (select_api_version v.versions)
          then check_health scope a checked_at s (some v)
          else sent (unrecoverable_outcome (incompatible_api_version v.versions)) ∷ closed s ∷ []
      | err e ↦ sent (failed checked_at ("Version check error: " ++ e)) ∷ closed s ∷ []
    ]
    else check_health scope a checked_at s none

unfoldable pub run_health_check : CheckScope → Answers → ℕ → List Action
unfolding check_version
run_health_check scope a checked_at = sent (started checked_at) ∷ elim a.session [
  | ok s ↦ opened s ∷ check_version scope a checked_at s
  | err e ↦ sent (failed checked_at ("Session creation error: " ++ e)) ∷ []
]

-- Whether an outcome ends the cycle.
abbrev pub is_final : HealthCheckOutcome → Bool
is_final (started _) = false
is_final _ = true

-- The outcomes of a trace that end a cycle.
abbrev pub finals : List Action → List HealthCheckOutcome
finals [] = []
finals (sent o ∷ rest) = let more = finals rest in if is_final o then o ∷ more else more
finals (opened s ∷ rest) = finals rest
finals (closed s ∷ rest) = finals rest

-- The number of sessions open after a trace, from the number before it.
abbrev pub still_open : ℕ → List Action → ℕ
still_open n [] = n
still_open n (sent o ∷ rest) = still_open n rest
still_open n (opened s ∷ rest) = still_open (suc n) rest
still_open n (closed s ∷ rest) = still_open (pred n) rest

-- What a completed cycle reports: a field for each check in its scope, and always the ping.
abbrev pub Fits : CheckScope → HealthCheckOutcome → Type 0
Fits scope (completed checked_at versions ping_rtt health) =
    (is_some versions ≡ scope.version) × (is_some ping_rtt ≡ true) × (is_some health ≡ scope.health)
Fits scope _ = Unit {0}

-- Every cycle ends with exactly one outcome, which has a field for each check in scope, and leaves
-- no session to the exit open.
pub run_health_check_once :
    (scope : CheckScope) (a : Answers) (checked_at : ℕ)
    → (length (finals (run_health_check scope a checked_at)) ≡ 1)
      × All (Fits scope) (finals (run_health_check scope a checked_at))
      × (still_open 0 (run_health_check scope a checked_at) ≡ 0)
unfolding run_health_check
run_health_check_once scope a checked_at = ground arith

abbrev is_ok {ℓ} : {A : Type ℓ} → Result A String → Bool
is_ok (ok a) = true
is_ok (err e) = false

abbrev speaks : Result Versions String → Bool
speaks (ok v) = any (λ sv. str_eq sv "v1") v.versions
speaks (err e) = false

-- The checks in scope pass: the exit opens a session, offers v1, reports its health, and answers the
-- ping.
abbrev pub passes : CheckScope → Answers → Bool
passes scope a =
    is_ok a.session
    && ((not scope.version || speaks a.versions)
        && ((not scope.health || is_ok a.health) && is_ok a.ping))

abbrev pub is_completed : HealthCheckOutcome → Bool
is_completed (completed _ _ _ _) = true
is_completed _ = false

-- A cycle reports `Completed` exactly when every check in its scope passes.
pub run_health_check_completed :
    (scope : CheckScope) (a : Answers) (checked_at : ℕ)
    → any is_completed (finals (run_health_check scope a checked_at)) ≡ passes scope a
unfolding run_health_check
run_health_check_completed scope a checked_at = ground arith
