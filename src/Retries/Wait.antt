-- ===== src/Retries/Wait.antt =====
-- `WaitStrategy` of serdes-ai-retries/src/config.rs.
use serdes_ai.Prelude.{ℕ, ◌+◌, ◌-◌, ◌*◌, ◌%◌, min, Option, none, some}
use serdes_ai.Prelude.Result.{Result, ok, ◌>>=◌}
use serdes_ai.Prelude.Int.{pred_ℤ}
use serdes_ai.Prelude.Words.{u32_mod}
use serdes_ai.Retries.Floats.{Floats, DurationPanic, checked}

pub data WaitStrategy (f : Floats) : Type 0 where
  no_wait : WaitStrategy f
  fixed : ℕ → WaitStrategy f
  exponential_backoff : (initial max : ℕ) (multiplier : f.Float) → WaitStrategy f
  exponential_jitter : (initial max : ℕ) (multiplier jitter : f.Float) → WaitStrategy f
  linear : (initial increment max : ℕ) → WaitStrategy f
  retry_after : (fallback : WaitStrategy f) (max_wait : ℕ) → WaitStrategy f

-- `attempt as i32 - 1` is `pred_ℤ attempt`, for attempts below 2 ^ 31; `attempt - 1` on a `u32` wraps
-- at 0. `jitter_draw` is the number that `random_jitter` draws.
module _ {f : Floats} (jitter_draw : f.Float) where
  open f use {times, plus, powi, fmin, as_secs_f64, from_secs_f64}

  unfoldable pub calculate : WaitStrategy f → ℕ → Option ℕ → Result ℕ DurationPanic
  calculate no_wait attempt after = ok 0
  calculate (fixed d) attempt after = ok d
  calculate (exponential_backoff initial max multiplier) attempt after =
      let delay = times (as_secs_f64 initial) (powi multiplier (pred_ℤ attempt)) in
      from_secs_f64 (fmin delay (as_secs_f64 max))
  calculate (exponential_jitter initial max multiplier jitter) attempt after =
      let base = times (as_secs_f64 initial) (powi multiplier (pred_ℤ attempt)) in
      let jitter_amount = times (times base jitter) jitter_draw in
      let delay = fmin (plus base jitter_amount) (as_secs_f64 max) in from_secs_f64 delay
  calculate (linear initial increment max) attempt after =
      checked (initial + increment * ((attempt + u32_mod - 1) % u32_mod)) >>= λ delay.
      ok (min delay max)
  calculate (retry_after fallback max_wait) attempt none = calculate fallback attempt none
  calculate (retry_after fallback max_wait) attempt (some d) = ok (min d max_wait)
