-- ===== src/Examples/Steps.antt =====
-- The theorem about retried pings at a concrete library of retries.

use gnosis_vpn_client.Prelude.{
  ℕ, zero, suc, String, Bool, true, false, List, [], ◌∷◌, Result, ok, err, ◌≡◌, refl, ap,
  if◌then◌else◌,
}
use gnosis_vpn_client.Connection.Options.{PingOptions}
use gnosis_vpn_client.Connection.Runner.{Error}
use gnosis_vpn_client.Connection.Steps.{Backon, Reply, answered, request_ping}
use gnosis_vpn_client.Connection.Steps.Retries.{IsPinged, request_ping-IsPinged}

-- What is returned after an attempt, if the later attempts return `later`.
attempted : {A E : Type 0} → Result A E → (E → Bool) → Result A E × List E → Result A E × List E
attempted (ok a) when later = (ok a, [])
attempted (err e) when later = if when e then (later.0, e ∷ later.1) else (err e, [])

retries : (A E : Type 0) → ℕ → (E → Bool) → (ℕ → Result A E) → Result A E × List E
unfolding attempted
retries A E zero when attempt = (attempt 0, [])
retries A E (suc n) when attempt =
    attempted (attempt 0) when (retries A E n when (λ i. attempt (suc i)))

retries-success :
    (A E : Type 0) (n : ℕ) (when : E → Bool) (attempt : ℕ → Result A E) (a : A)
    → attempt 0 ≡ ok a
    → retries A E n when attempt ≡ (ok a, [])
unfolding retries attempted
retries-success A E zero when attempt a first = ap (λ r. (r, [])) first
retries-success A E (suc n) when attempt a first = rw first refl

retries-fatal :
    (A E : Type 0) (n : ℕ) (when : E → Bool) (attempt : ℕ → Result A E) (e : E)
    → attempt 0 ≡ err e
    → when e ≡ false
    → retries A E n when attempt ≡ (err e, [])
unfolding retries attempted
retries-fatal A E zero when attempt e first fatal = ap (λ r. (r, [])) first
retries-fatal A E (suc n) when attempt e first fatal = rw first (rw fatal refl)

retries-again :
    (A E : Type 0) (n : ℕ) (when : E → Bool) (attempt : ℕ → Result A E) (e : E)
    → attempt 0 ≡ err e
    → when e ≡ true
    → retries A E (suc n) when attempt ≡ (
      (retries A E n when (λ i. attempt (suc i))).0,
      e ∷ (retries A E n when (λ i. attempt (suc i))).1,
    )
unfolding retries attempted
retries-again A E n when attempt e first retried = rw first (rw retried refl)

at_once : Backon
unfolding retries
at_once = record {
  retry = retries;
  default_max_times = 3;
  retry_success = retries-success;
  retry_fatal = retries-fatal;
  retry_spent = λ A E when attempt e first. ap (λ r. (r, [])) first;
  retry_again = retries-again;
}

-- Two pings fail, the third is answered.
abbrev replies : PingOptions → ℕ → Reply ℕ
replies options zero = answered (err "no route")
replies options (suc zero) = answered (err "timeout")
replies options (suc (suc i)) = answered (ok 12)

abbrev ping_options : PingOptions
ping_options = record { address = 41; timeout = 4; ttl = 6; seq_count = 1 }

abbrev text : Error → String
text e = "ping failed"

request_ping-IsPinged_example :
    IsPinged 3 (replies ping_options) (request_ping at_once text replies ping_options 3)
request_ping-IsPinged_example = request_ping-IsPinged at_once text replies ping_options 3
