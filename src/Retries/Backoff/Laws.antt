-- ===== src/Retries/Backoff/Laws.antt =====
-- The strategies give up alike, and `LinearBackoff` agrees with `WaitStrategy::Linear`.
use serdes_ai.Prelude.{ℕ, ◌+◌, ◌-◌, ◌%◌, ◌≤◌, ◌<◌, ◌≡◌, ◌↔◌, true, Option, some, arith}
use serdes_ai.Prelude.Words.{u32_mod}
use serdes_ai.Retries.Error.{RetryableError, is_retryable}
use serdes_ai.Retries.Floats.{Floats}
use serdes_ai.Prelude.Result.{ok}
use serdes_ai.Retries.Wait.{WaitStrategy, linear, calculate}
use serdes_ai.Retries.Backoff.{
  ExponentialBackoff, FixedDelay, LinearBackoff, exponential_delay, linear_delay, gives_up,
  exponential_should_retry, fixed_should_retry, linear_should_retry,
}

-- On an attempt counted from 1 a linear back-off and a linear wait strategy with the same numbers
-- wait equally long. (At attempt 0 they differ: one saturates at 0 and the other wraps.)
pub linear_delay-eq-calculate :
    (f : Floats) (draw : f.Float) (b : LinearBackoff) (attempt : ℕ) (after : Option ℕ)
    → 1 ≤ attempt
    → attempt < u32_mod
    → let s : WaitStrategy f = linear b.initial_delay b.increment b.max_delay in
      linear_delay b attempt ≡ calculate draw s attempt after
unfolding linear_delay calculate
linear_delay-eq-calculate f draw b attempt after h k =
    let e : (attempt + u32_mod - 1) % u32_mod ≡ attempt - 1 = omega arith in rw e

-- Each of the three strategies retries exactly the retryable errors of the attempts up to its
-- maximum, and then waits for its own delay.
pub should_retry_iff :
    {X : Type 0} (f : Floats) (draw : f.Float) (e : ExponentialBackoff f) (d : FixedDelay)
    (l : LinearBackoff) (error : RetryableError X) (attempt wait : ℕ)
    → ((exponential_should_retry draw e error attempt ≡ ok (some wait)) ↔ (
        (attempt ≤ e.max_retries)
        × (is_retryable error ≡ true)
        × (exponential_delay draw e attempt ≡ ok wait)))
      × ((fixed_should_retry d error attempt ≡ ok (some wait))
          ↔ ((attempt ≤ d.max_retries) × (is_retryable error ≡ true) × (d.delay ≡ wait)))
      × ((linear_should_retry l error attempt ≡ ok (some wait)) ↔ (
          (attempt ≤ l.max_retries)
          × (is_retryable error ≡ true)
          × (linear_delay l attempt ≡ ok wait)))
unfolding exponential_should_retry fixed_should_retry linear_should_retry gives_up
should_retry_iff f draw e d l error attempt wait = (ground arith, ground arith, ground arith)
