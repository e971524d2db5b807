-- ===== src/Connection/Steps/Retries.antt =====
-- How often a step of a connection attempt is tried, and what it reports
-- (gnosis_vpn-lib/src/connection/up/runner.rs).
use mathlib.Core.Path.{subst, ◌∙◌}
use gnosis_vpn_client.Prelude.{
  ℕ, zero, suc, ◌+◌, ◌≤◌, ◌<◌, String, Bool, true, false, List, [], ◌∷◌, map, Result, ok, err, ◌≡◌,
  ◌≢◌, ◌⊎◌, inl, inr, refl, arith, ap, sym, length, Bool-cases,
}
use gnosis_vpn_client.Connection.Runner.{Error}
use gnosis_vpn_client.Connection.Options.{PingOptions}
use gnosis_vpn_client.Connection.Steps.{
  Backon, Reply, answered, channel_closed, timed_out, ping_reply, is_ping_error, request_ping,
  Reported,
}

-- Why the last attempt was the last one.
abbrev pub IsFinal : {A E : Type 0} → (E → Bool) → (left : ℕ) → Result A E → Type 0
IsFinal when left (ok a) = Unit
IsFinal when left (err e) = (when e ≡ false) ⊎ (left ≡ 0)

-- Attempts 0 to k - 1 failed and were retried, and attempt k was the last one.
abbrev IsOutcome : {A E : Type 0} → ℕ → (E → Bool) → (ℕ → Result A E) → Result A E × List E → Type 0
IsOutcome {A} {E} n when attempt p =
    (k : ℕ) × (left : ℕ) × (k + left ≡ n)
    × (length p.1 ≡ k)
    × (p.0 ≡ attempt k)
    × ((i : ℕ) → i < k → (e : E) × (attempt i ≡ err e) × (when e ≡ true))
    × IsFinal when left p.0

length-map : {A B : Type 0} (f : A → B) (xs : List A) → length (map f xs) ≡ length xs
length-map f [] = refl
length-map f (x ∷ xs) = ap suc (length-map f xs)

Result-cases : {A E : Type 0} (r : Result A E) → ((a : A) × (r ≡ ok a)) ⊎ ((e : E) × (r ≡ err e))
Result-cases (ok a) = inl (a, refl)
Result-cases (err e) = inr (e, refl)

-- One attempt before those that an outcome tells of.
earlier_too :
    {A E : Type 0} (when : E → Bool) (attempt : ℕ → Result A E) (k : ℕ) (e : E)
    → attempt 0 ≡ err e
    → when e ≡ true
    → ((i : ℕ) → i < k → (f : E) × (attempt (suc i) ≡ err f) × (when f ≡ true))
    → (i : ℕ) → i < suc k
    → (f : E) × (attempt i ≡ err f) × (when f ≡ true)
earlier_too when attempt k e first retried rest zero lt = (e, first, retried)
earlier_too when attempt k e first retried rest (suc i) lt = rest i (omega arith)

once :
    {A E : Type 0} (n : ℕ) (when : E → Bool) (attempt : ℕ → Result A E) (r : Result A E)
    → attempt 0 ≡ r
    → IsFinal when n r
    → IsOutcome n when attempt (r, [])
once n when attempt r first final =
    (0, n, omega arith, refl, sym first, λ i lt. absurd (omega arith), final)

retry_again-IsOutcome :
    (b : Backon) (A E : Type 0) (n : ℕ) (when : E → Bool) (attempt : ℕ → Result A E) (e : E)
    → attempt 0 ≡ err e
    → when e ≡ true
    → IsOutcome n when (λ i. attempt (suc i)) (b.retry A E n when (λ i. attempt (suc i)))
    → IsOutcome (suc n) when attempt (b.retry A E (suc n) when attempt)
retry_again-IsOutcome b A E n when attempt e first retried
      (k, left, sum, len, result, earlier, final) =
    subst (IsOutcome (suc n) when attempt) (sym (b.retry_again A E n when attempt e first retried))
      (
        suc k,
        left,
        omega arith,
        ap suc len,
        result,
        earlier_too when attempt k e first retried earlier,
        final,
      )

retry_ends :
    (b : Backon) (A E : Type 0) (n : ℕ) (when : E → Bool) (attempt : ℕ → Result A E)
    (r : Result A E)
    → attempt 0 ≡ r
    → IsFinal when n r
    → b.retry A E n when attempt ≡ (r, [])
    → IsOutcome n when attempt (b.retry A E n when attempt)
retry_ends b A E n when attempt r first final ends =
    subst (IsOutcome n when attempt) (sym ends) (once n when attempt r first final)

retry-IsOutcome :
    (b : Backon) (A E : Type 0) (n : ℕ) (when : E → Bool) (attempt : ℕ → Result A E)
    → IsOutcome n when attempt (b.retry A E n when attempt)
retry-IsOutcome b A E zero when attempt = elim (Result-cases (attempt 0)) [
  | inl (a, first) ↦
      retry_ends b A E 0 when attempt (ok a) first tt (b.retry_success A E 0 when attempt a first)
  | inr (e, first) ↦
      retry_ends b A E 0 when attempt (err e) first (inr refl)
        (b.retry_spent A E when attempt e first)
]
retry-IsOutcome b A E (suc m) when attempt = elim (Result-cases (attempt 0)) [
  | inl (a, first) ↦
      retry_ends b A E (suc m) when attempt (ok a) first tt
        (b.retry_success A E (suc m) when attempt a first)
  | inr (e, first) ↦ elim (Bool-cases (when e)) [
    | inl retried ↦
        retry_again-IsOutcome b A E m when attempt e first retried
          (retry-IsOutcome b A E m when (λ i. attempt (suc i)))
    | inr fatal ↦
        retry_ends b A E (suc m) when attempt (err e) first (inl fatal)
          (b.retry_fatal A E (suc m) when attempt e first fatal)
  ]
]

-- What a request of a ping that is allowed `n` retries comes to: `k` retries, each after a failed
-- ping and each reported, and the reply to the last one.
abbrev pub IsPinged : ℕ → (ℕ → Reply ℕ) → Reported ℕ Error → Type 0
IsPinged n replies p =
    (k : ℕ) × (k ≤ n)
    × (length p.1 ≡ k)
    × (p.0 ≡ ping_reply (replies k))
    × ((i : ℕ) → i < k → (e : String) × (replies i ≡ answered (err e)))
    × ((k ≡ n) ⊎ ((e : String) → replies k ≢ answered (err e)))

abbrev is_ping_failure : Result ℕ Error → Bool
is_ping_failure (ok d) = false
is_ping_failure (err e) = is_ping_error e

ping_failed_only :
    (r : Reply ℕ) → is_ping_failure (ping_reply r) ≡ true → (t : String) × (r ≡ answered (err t))
unfolding ping_reply is_ping_error
ping_failed_only (answered (ok d)) h = cc
ping_failed_only (answered (err t)) h = (t, refl)
ping_failed_only (channel_closed t) h = cc
ping_failed_only timed_out h = cc

retried_only :
    (r : Reply ℕ)
    → ((e : Error) × (ping_reply r ≡ err e) × (is_ping_error e ≡ true))
    → (t : String) × (r ≡ answered (err t))
retried_only r (e, failed, retried) = ping_failed_only r (ap is_ping_failure failed ∙ retried)

gives_up :
    (r : Reply ℕ) (left : ℕ)
    → IsFinal is_ping_error left (ping_reply r)
    → (left ≡ 0) ⊎ ((t : String) → r ≢ answered (err t))
unfolding ping_reply is_ping_error
gives_up (answered (ok d)) left final = inr λ t eq. cc
gives_up (answered (err t)) left (inl not_retried) = cc
gives_up (answered (err t)) left (inr spent) = inl spent
gives_up (channel_closed t) left final = inr λ u eq. cc
gives_up timed_out left final = inr λ t eq. cc

last_of : (k left n : ℕ) (P : Type 0) → k + left ≡ n → (left ≡ 0) ⊎ P → (k ≡ n) ⊎ P
last_of k left n P sum (inl spent) = inl (omega arith)
last_of k left n P sum (inr p) = inr p

-- A request of a ping asks at most `max_backoff` times again: only while the answer is that the ping
-- failed, each time reporting one setback; it returns what the last reply comes to, and gives up on a
-- failed ping only when no retry is left.
pub request_ping-IsPinged :
    (b : Backon) (text : Error → String) (root : PingOptions → ℕ → Reply ℕ) (options : PingOptions)
    (max_backoff : ℕ)
    → IsPinged max_backoff (root options) (request_ping b text root options max_backoff)
unfolding request_ping
request_ping-IsPinged b text root options max_backoff =
    let (k, left, sum, len, result, earlier, final) =
      retry-IsOutcome b ℕ Error max_backoff is_ping_error (λ i. ping_reply (root options i)) in
    (
      k,
      omega arith,
      length-map _ (b.retry ℕ Error max_backoff is_ping_error (λ i. ping_reply (root options i))).1
          ∙ len,
      result,
      λ i lt. retried_only (root options i) (earlier i lt),
      last_of k left max_backoff _ sum
          (gives_up (root options k) left (subst (IsFinal is_ping_error left) result final)),
    )
