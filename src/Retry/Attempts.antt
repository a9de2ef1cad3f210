-- ===== src/Retry/Attempts.antt =====
-- How often retryTransientVerification calls its operation, and how long it sleeps.
use dnsid_ts.Common.{
  ℕ, zero, suc, ◌+◌, ◌*◌, ◌-◌, ◌^◌, ◌≤◌, ◌<◌, min, Bool, true, false, [], ◌∷◌, length, leb, ltb,
  if◌then◌else◌, Result, ok, err, Bool-cases, All, ◌≡◌, ◌⊎◌, inl, inr, refl, arith, le_or_lt,
}
use dnsid_ts.Retry.{
  Thrown, RetryError, thrown, RetryBackoffOptions, attempts_allowed, longest_delay, or_default,
  retry_policy, Run, delay_for_attempt, delay_of, attempt_once, retry_loop,
  retry_transient_verification,
}

reached : (allowed attempt : ℕ) → leb allowed attempt ≡ true → attempt ≤ allowed → allowed ≡ attempt
reached allowed attempt full within = ground arith

left_over : (allowed attempt : ℕ) → leb allowed attempt ≡ false → attempt < allowed
left_over allowed attempt more = ground arith

none_allowed : (allowed : ℕ) → ltb allowed 1 ≡ true → 1 ≤ allowed → ⊥
none_allowed allowed few some_allowed = ground arith

module _ (random : ℕ → ℕ → ℕ) (bounded : (n c : ℕ) → random n c ≤ c) {A : Type 0}
    (operation : ℕ → Result Thrown A) (options : RetryBackoffOptions) where
  -- The last attempt's outcome is the run's: a value, or an error at the last attempt allowed or one
  -- that the policy does not retry.
  pub data Ends (attempt : ℕ) : Result RetryError A → Type 0 where
    returned : (value : A) → operation attempt ≡ ok value → Ends attempt (ok value)
    gave_up :
        (error : Thrown)
        → operation attempt ≡ err error
        → (attempts_allowed options ≡ attempt) ⊎ (retry_policy options error attempt ≡ false)
        → Ends attempt (err (thrown error))

  -- A run of attempts from `first` on.
  pub record IsRun (first : ℕ) (run : Run A) : Type 0 where
    pub from : first ≤ run.attempts
    pub within : run.attempts ≤ attempts_allowed options
    pub ends : Ends run.attempts run.result
    pub retried :
        (k : ℕ)
        → first ≤ k
        → k < run.attempts
        → (error : Thrown) × (operation k ≡ err error) × (retry_policy options error k ≡ true)
    pub one_sleep_between : length run.sleeps + first ≡ run.attempts
    pub short : All (λ ms. ms ≤ longest_delay options) run.sleeps

  drawn-le :
      (jitter : Bool) (longest uncapped drawn : ℕ)
      → drawn ≤ min longest uncapped
      → (if jitter then drawn else min longest uncapped) ≤ longest
  drawn-le true longest uncapped drawn h = omega arith
  drawn-le false longest uncapped drawn h = omega arith

  delay_of-le : (attempt : ℕ) → delay_of random options attempt ≤ longest_delay options
  unfolding delay_for_attempt
  delay_of-le attempt =
      drawn-le (or_default options.jitter true) (longest_delay options)
        (or_default options.initial_delay_ms 100 * or_default options.multiplier 2 ^ (attempt - 1))
        _ (bounded attempt _)

  stopped :
      (attempt : ℕ) (result : Result RetryError A)
      → attempt ≤ attempts_allowed options
      → Ends attempt result
      → IsRun attempt (record { result = result; attempts = attempt; sleeps = [] })
  stopped attempt result within ends = record {
    from = omega arith;
    within = within;
    ends = ends;
    retried = λ k low high. grind arith;
    one_sleep_between = omega arith;
    short = tt;
  }

  continued :
      (attempt : ℕ) (rest : Run A) (error : Thrown)
      → operation attempt ≡ err error
      → retry_policy options error attempt ≡ true
      → IsRun (suc attempt) rest
      → IsRun attempt (record rest { sleeps = delay_of random options attempt ∷ rest.sleeps })
  continued attempt rest error threw retry run =
      let from = run.from in
      let slept = run.one_sleep_between in
      record {
        from = omega arith;
        within = run.within;
        ends = run.ends;
        retried = λ k low high. elim (le_or_lt k attempt) [
          | inl here ↦ let e : k ≡ attempt = omega arith in (error, rw e threw, rw e retry)
          | inr later ↦ run.retried k (omega arith) high
        ];
        one_sleep_between = omega arith;
        short = (delay_of-le attempt, run.short);
      }

  attempt_once-IsRun :
      (attempt : ℕ) (r : Result Thrown A) (rest : Run A)
      → operation attempt ≡ r
      → attempt ≤ attempts_allowed options
      → (attempt < attempts_allowed options → IsRun (suc attempt) rest)
      → IsRun attempt (attempt_once random operation options attempt r rest)
  unfolding attempt_once
  attempt_once-IsRun attempt (ok value) rest answer within later =
      stopped attempt (ok value) within (returned value answer)
  attempt_once-IsRun attempt (err error) rest answer within later =
      elim (Bool-cases (leb (attempts_allowed options) attempt)) [
        | inl full ↦ rw full (
            stopped attempt _ within
              (gave_up error answer (inl (reached (attempts_allowed options) attempt full within))))
        | inr more ↦ elim (Bool-cases (retry_policy options error attempt)) [
          | inl retry ↦ rw more (
              rw retry (
                continued attempt rest error answer retry
                  (later (left_over (attempts_allowed options) attempt more))))
          | inr refused ↦
              rw more (rw refused (stopped attempt _ within (gave_up error answer (inr refused))))
        ]
      ]

  retry_loop-IsRun :
      (fuel attempt : ℕ)
      → fuel + attempt ≡ suc (attempts_allowed options)
      → attempt ≤ attempts_allowed options
      → IsRun attempt (retry_loop random operation options fuel attempt)
  unfolding retry_loop
  retry_loop-IsRun zero attempt enough within = grind arith
  retry_loop-IsRun (suc fuel) attempt enough within =
      attempt_once-IsRun attempt (operation attempt)
        (retry_loop random operation options fuel (suc attempt)) refl within
        (λ more. retry_loop-IsRun fuel (suc attempt) (omega arith) (omega arith))

  -- Where at least one attempt is allowed and the jitter of a delay is at most the delay, the loop ends,
  -- by the last attempt allowed: every attempt but the last threw an error that the policy retries, the
  -- result is the last attempt's value, or its error where no attempt was left or the policy does not
  -- retry it, and between two attempts it sleeps once, for the largest delay at most.
  pub retry_transient_verification-IsRun :
      1 ≤ attempts_allowed options → IsRun 1 (retry_transient_verification random operation options)
  unfolding retry_transient_verification
  retry_transient_verification-IsRun allowed =
      elim (Bool-cases (ltb (attempts_allowed options) 1)) [
        | inl few ↦ absurd (none_allowed (attempts_allowed options) few allowed)
        | inr enough ↦
            rw enough (retry_loop-IsRun (attempts_allowed options) 1 (omega arith) allowed)
      ]
