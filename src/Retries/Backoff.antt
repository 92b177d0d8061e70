-- ===== src/Retries/Backoff.antt =====
-- serdes-ai-retries/src/backoff.rs: the three implementations of `RetryStrategy`.
pub mod Laws
use serdes_ai.Prelude.{
  ℕ, ◌+◌, ◌-◌, ◌*◌, Bool, ◌||◌, not, Option, none, some, min, ltb, unwrap_or, if◌then◌else◌,
}
use serdes_ai.Prelude.Result.{Result, ok, ◌>>=◌}
use serdes_ai.Prelude.Int.{pos}
use serdes_ai.Retries.Error.{RetryableError, is_retryable}
use serdes_ai.Retries.Floats.{Floats, DurationPanic, checked}

pub record ExponentialBackoff (f : Floats) : Type 0 where
  pub max_retries : ℕ
  pub initial_delay : ℕ
  pub max_delay : ℕ
  pub jitter : f.Float
  pub multiplier : f.Float

pub record FixedDelay : Type 0 where
  pub delay : ℕ
  pub max_retries : ℕ

pub record LinearBackoff : Type 0 where
  pub initial_delay : ℕ
  pub increment : ℕ
  pub max_delay : ℕ
  pub max_retries : ℕ

-- `attempt as i32` is `pos attempt`, for attempts below 2 ^ 31.
module _ {f : Floats} (jitter_draw : f.Float) where
  open f use {times, plus, powi, fmin, fmax, zero_float, as_secs_f64, from_secs_f64}

  pub exponential_delay : ExponentialBackoff f → ℕ → Result ℕ DurationPanic
  exponential_delay b attempt =
      let base_delay = times (as_secs_f64 b.initial_delay) (powi b.multiplier (pos attempt)) in
      let jitter = times (times base_delay b.jitter) jitter_draw in
      let delay = fmin (plus base_delay jitter) (as_secs_f64 b.max_delay) in
      from_secs_f64 (fmax delay zero_float)

pub linear_delay : LinearBackoff → ℕ → Result ℕ DurationPanic
linear_delay b attempt =
    checked (b.initial_delay + b.increment * (attempt - 1)) >>= λ delay. ok (min delay b.max_delay)

module _ {X : Type 0} where
  -- The guard `attempt > self.max_retries || !error.is_retryable()` of the three methods.
  gives_up : ℕ → RetryableError X → ℕ → Bool
  gives_up max_retries error attempt = ltb max_retries attempt || not (is_retryable error)

  pub exponential_should_retry :
      {f : Floats}
      → f.Float
      → ExponentialBackoff f
      → RetryableError X
      → ℕ
      → Result (Option ℕ) DurationPanic
  unfolding gives_up exponential_delay
  exponential_should_retry draw b error attempt =
      if gives_up b.max_retries error attempt
      then ok none
      else exponential_delay draw b attempt >>= λ delay. ok (some delay)

  pub fixed_should_retry : FixedDelay → RetryableError X → ℕ → Result (Option ℕ) DurationPanic
  unfolding gives_up
  fixed_should_retry b error attempt =
      if gives_up b.max_retries error attempt then ok none else ok (some b.delay)

  pub linear_should_retry : LinearBackoff → RetryableError X → ℕ → Result (Option ℕ) DurationPanic
  unfolding gives_up
  linear_should_retry b error attempt =
      if gives_up b.max_retries error attempt
      then ok none
      else linear_delay b attempt >>= λ delay. ok (some delay)
