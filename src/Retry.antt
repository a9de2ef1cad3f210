-- ===== src/Retry.antt =====
-- packages/protocol/src/retry.ts: retryTransientVerification. The operation is called once for each
-- attempt, counted from 1, and answers by that number. Numbers are natural; the delays are exact as long
-- as the numbers are safe integers, and the largest delay where they no longer are, but for an initial
-- delay of 0: behind a power that is infinite the source then computes NaN, and the model 0.
pub mod Attempts
mod Tests
use dnsid_ts.Common.{
  ℕ, zero, suc, ◌-◌, ◌*◌, ◌^◌, min, Bool, true, false, not, ◌||◌, Option, none, some, List, [], ◌∷◌,
  leb, ltb, if◌then◌else◌, Result, ok, err,
}

-- What an operation throws, as far as `isTransientVerificationError` reads it.
pub data Thrown : Type 0 where
  verification_error : (transient : Bool) → Thrown
  other_error : Thrown

-- `range_error` is the RangeError of `positiveInteger`; `out_of_attempts` is no error of the source.
pub data RetryError : Type 0 where
  range_error out_of_attempts : RetryError
  thrown : (error : Thrown) → RetryError

pub record RetryBackoffOptions : Type 0 where
  pub max_attempts : Option ℕ
  pub initial_delay_ms : Option ℕ
  pub max_delay_ms : Option ℕ
  pub multiplier : Option ℕ
  pub jitter : Option Bool
  pub should_retry : Option (Thrown → ℕ → Bool)

-- `value ?? otherwise`
abbrev pub or_default : {A : Type 0} → Option A → A → A
or_default none otherwise = otherwise
or_default (some value) otherwise = value

unfoldable pub is_transient_verification_error : Thrown → Bool
is_transient_verification_error (verification_error transient) = transient
is_transient_verification_error other_error = false

abbrev pub attempts_allowed : RetryBackoffOptions → ℕ
attempts_allowed options = or_default options.max_attempts 3

abbrev pub longest_delay : RetryBackoffOptions → ℕ
longest_delay options = or_default options.max_delay_ms 2000

abbrev pub retry_policy : RetryBackoffOptions → Thrown → ℕ → Bool
retry_policy options =
    or_default options.should_retry (λ error attempt. is_transient_verification_error error)

-- The result, the number of the last attempt, and the delays slept.
pub record Run (A : Type 0) : Type 0 where
  pub result : Result RetryError A
  pub attempts : ℕ
  pub sleeps : List ℕ

-- `random attempt capped` is `Math.floor(Math.random() * capped)` behind that attempt.
module _ (random : ℕ → ℕ → ℕ) where
  unfoldable pub delay_for_attempt : ℕ → (initial max multiplier : ℕ) → Bool → ℕ
  delay_for_attempt attempt initial max multiplier jitter =
      let capped = min max (initial * multiplier ^ (attempt - 1)) in
      if jitter then random attempt capped else capped

  abbrev pub delay_of : RetryBackoffOptions → ℕ → ℕ
  delay_of options attempt =
      delay_for_attempt attempt (or_default options.initial_delay_ms 100) (longest_delay options)
        (or_default options.multiplier 2) (or_default options.jitter true)

  module _ {A : Type 0} (operation : ℕ → Result Thrown A) (options : RetryBackoffOptions) where
    -- One round of the loop, with the run that the later rounds make.
    unfoldable pub attempt_once : ℕ → Result Thrown A → Run A → Run A
    attempt_once attempt (ok value) rest = record {
      result = ok value;
      attempts = attempt;
      sleeps = [];
    }
    attempt_once attempt (err error) rest =
        if leb (attempts_allowed options) attempt || not (retry_policy options error attempt)
        then record { result = err (thrown error); attempts = attempt; sleeps = [] }
        else record rest { sleeps = delay_of options attempt ∷ rest.sleeps }

    unfoldable pub retry_loop : (fuel attempt : ℕ) → Run A
    retry_loop zero attempt = record {
      result = err out_of_attempts;
      attempts = attempt;
      sleeps = [];
    }
    retry_loop (suc fuel) attempt =
        attempt_once attempt (operation attempt) (retry_loop fuel (suc attempt))

    -- The fuel is the number of attempts allowed.
    unfoldable pub retry_transient_verification : Run A
    retry_transient_verification =
        if ltb (attempts_allowed options) 1
        then record { result = err range_error; attempts = 0; sleeps = [] }
        else retry_loop (attempts_allowed options) 1
