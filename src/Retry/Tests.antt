-- ===== src/Retry/Tests.antt =====
-- Runs of packages/protocol/src/retry.ts, of an operation that fails twice.
use dnsid_ts.Common.{
  ℕ, ◌≤◌, ◌/◌, true, false, none, some, String, [], ◌∷◌, Result, ok, err, ◌≡◌, refl, arith, ltb,
  if◌then◌else◌,
}
use dnsid_ts.Retry.{
  Thrown, verification_error, range_error, thrown, RetryBackoffOptions, delay_for_attempt,
  is_transient_verification_error, attempt_once, retry_loop, retry_transient_verification,
}
use dnsid_ts.Retry.Attempts.{IsRun, retry_transient_verification-IsRun}

runs : Unit {0}
unfolding delay_for_attempt is_transient_verification_error attempt_once retry_loop
    retry_transient_verification
runs = tt

abbrev defaults : RetryBackoffOptions
defaults = record {
  max_attempts = none;
  initial_delay_ms = none;
  max_delay_ms = none;
  multiplier = none;
  jitter = some false;
  should_retry = none;
}

-- A transient failure, twice, and then the answer.
abbrev answers_third : ℕ → Result Thrown String
answers_third attempt = if ltb attempt 3 then err (verification_error true) else ok "answer"

abbrev fails_for_good : ℕ → Result Thrown String
fails_for_good n = err (verification_error false)

abbrev half : ℕ → ℕ → ℕ
half attempt capped = capped / 2

half-le : (n c : ℕ) → half n c ≤ c
half-le n c = omega arith

third :
    retry_transient_verification half answers_third defaults
    ≡ record { result = ok "answer"; attempts = 3; sleeps = 100 ∷ 200 ∷ [] }
unfolding runs
third = refl

jittered :
    retry_transient_verification half answers_third (record defaults { jitter = none })
    ≡ record { result = ok "answer"; attempts = 3; sleeps = 50 ∷ 100 ∷ [] }
unfolding runs
jittered = refl

out_of_attempts_left :
    retry_transient_verification half answers_third (record defaults { max_attempts = some 2 })
    ≡ record { result = err (thrown (verification_error true)); attempts = 2; sleeps = 100 ∷ [] }
unfolding runs
out_of_attempts_left = refl

not_retried :
    retry_transient_verification half fails_for_good defaults
    ≡ record { result = err (thrown (verification_error false)); attempts = 1; sleeps = [] }
unfolding runs
not_retried = refl

none_allowed :
    retry_transient_verification half answers_third (record defaults { max_attempts = some 0 })
    ≡ record { result = err range_error; attempts = 0; sleeps = [] }
unfolding runs
none_allowed = refl

retry_transient_verification-IsRun_example :
    IsRun half half-le answers_third defaults 1
      (retry_transient_verification half answers_third defaults)
retry_transient_verification-IsRun_example =
    retry_transient_verification-IsRun half half-le answers_third defaults (omega arith)
