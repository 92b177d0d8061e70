-- ===== src/Retries/Examples.antt =====
-- Tests of the retry code, and instances of the theorems about it.
use serdes_ai.Prelude.{
  ℕ, zero, suc, ◌+◌, ◌*◌, ◌≤◌, ◌≡◌, refl, none, some, List, min, max, ltb, nat_key, arith,
}
use serdes_ai.Prelude.Int.{ℤ, pos, negsuc}
use serdes_ai.Prelude.Result.{Result, ok, err}
use serdes_ai.Retries.Error.{RetryFailure, RetryableError, timeout, http}
use serdes_ai.Retries.Floats.{Floats, checked}
use serdes_ai.Retries.Wait.{fixed, calculate}
use serdes_ai.Retries.Backoff.{ExponentialBackoff, LinearBackoff}
use serdes_ai.Retries.Policy.{
  Run, Tokio, Locals, retry, for_model_requests, disabled, set_max_attempts, deadline,
  with_retry_policy,
}
use serdes_ai.Retries.Policy.Outcome.{AllFail, Explains, InRange, with_retry_policy-Explains}
use serdes_ai.Retries.Config.{
  Call, AttemptInfo, RetryState, max_attempts, wait_for, default_config, no_retry, for_api,
  with_retry, with_retry_state,
}
use serdes_ai.Retries.Config.History.{Failures, Ends, WaitsFit, total_wait, with_retry-history}

-- Numbers of seconds in place of floats.
abbrev pub powi_whole : ℕ → ℤ → ℕ
powi_whole b (pos zero) = 1
powi_whole b (pos (suc n)) = b * powi_whole b (pos n)
powi_whole b (negsuc n) = 0

abbrev pub whole : Floats
whole = record {
  Float = ℕ;
  times = λ x y. x * y;
  plus = λ x y. x + y;
  powi = powi_whole;
  fmin = min;
  fmax = max;
  zero_float = 0;
  as_secs_f64 = λ d. d;
  from_secs_f64 = checked;
}

pub sum-some : (a b c : ℕ) → some (a + b) ≡ some c → c ≡ a + b
sum-some a b c h = cc h

pub wake-ge : (t : ℕ) → t ≤ t
wake-ge t = omega arith

abbrev pub exact : Tokio
exact = record {
  in_time = ltb;
  checked_add = λ a b. some (a + b);
  checked_add-some = sum-some;
  wake = λ t. t;
  wake-ge = wake-ge;
}

-- Every attempt takes 10 and fails with a number that is worth another attempt.
abbrev failing : Run whole ℕ ℕ
failing = record {
  policy = record { max_attempts = 3; wait = fixed 5; total_timeout = some 100 };
  operation = λ n. record { duration = 10; result = err n };
  classify = λ e. retry none;
  tokio = exact;
  jitter_draw = λ n. 0;
  started = 7;
}

-- A call that fails twice and then returns 8.
flaky : ℕ → Result ℕ (RetryableError ℕ)
flaky (suc (suc (suc n))) = ok 8
flaky n = err timeout

abbrev flaky_call : Call whole ℕ ℕ
flaky_call = record {
  config = record (default_config 2) { wait = fixed 5 };
  operation = flaky;
  display = λ e. "timeout";
  jitter_draw = λ n. 0;
}

abbrev steps : LinearBackoff
steps = record { initial_delay = 1; increment = 2; max_delay = 50; max_retries = 4 }

abbrev doubling : ExponentialBackoff whole
doubling = record { max_retries = 3; initial_delay = 1; max_delay = 9; jitter = 0; multiplier = 2 }

abbrev slow : RetryableError ℕ
slow = timeout

abbrev missing : RetryableError ℕ
missing = http 404 "" none

failing-InRange : InRange failing
unfolding deadline calculate
failing-InRange = (λ n after. (5, refl), (some 107, refl))

with_retry_policy-Explains_example :
    (res : Result ℕ (RetryFailure ℕ)) × (t : Locals ℕ) × (n : ℕ) × (with_retry_policy failing
      ≡ some (ok (res, t)))
    × AllFail failing n
    × (suc n ≤ 3)
    × Explains failing n res
with_retry_policy-Explains_example = with_retry_policy-Explains failing failing-InRange

flaky_call-WaitsFit : WaitsFit flaky_call 5
unfolding wait_for max_attempts calculate
flaky_call-WaitsFit = (λ n e. (5, refl, omega arith), omega arith)

with_retry-history_example :
    (res : Result ℕ (RetryableError ℕ)) × (t : RetryState) × (n : ℕ) × (before : List AttemptInfo)
    × (with_retry_state flaky_call ≡ some (ok (res, t)))
    × (with_retry flaky_call ≡ some (ok res))
    × (t.attempt ≡ suc n)
    × (suc n ≤ max_attempts flaky_call)
    × (flaky_call.operation (suc n) ≡ res)
    × Failures flaky_call n before
    × Ends flaky_call (suc n) before res t.history
    × (t.total_wait_time ≡ total_wait t.history)
with_retry-history_example = with_retry-history flaky_call 5 flaky_call-WaitsFit

-- The constructors of a policy keep at least one attempt.
policies :
    ((for_model_requests {f = whole} 2 0).max_attempts ≡ 3)
    × ((set_max_attempts 0 (disabled {f = whole})).max_attempts ≡ 1)
unfolding set_max_attempts
policies = (refl, refl)

configs :
    ((no_retry {f = whole} {X = ℕ} 2).max_retries ≡ 0)
    × ((for_api {f = whole} {X = ℕ} 2 0).max_retries ≡ 3)
unfolding for_api
configs = (refl, refl)
