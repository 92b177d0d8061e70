-- ===== src/Retries/Floats.antt =====
-- The `f64` operations and the operations of `std::time::Duration` that the back-off code calls. A
-- duration is its nanoseconds.
use serdes_ai.Prelude.{ℕ, ◌*◌, ◌^◌, ltb, if◌then◌else◌}
use serdes_ai.Prelude.Int.{ℤ}
use serdes_ai.Prelude.Result.{Result, ok, err}

-- A duration that cannot be represented: the operation panics.
pub data DurationPanic : Type 0 where
  duration_panics : DurationPanic

-- One more than the longest duration, whose seconds are a `u64`.
abbrev pub duration_mod : ℕ
duration_mod = 2 ^ 64 * 1_000_000_000

-- The result of `+` and `*` on durations.
abbrev pub checked : ℕ → Result ℕ DurationPanic
checked n = if ltb n duration_mod then ok n else err duration_panics

-- `from_secs_f64` panics on a number that is negative, not a number, or too large.
pub record Floats : Type 1 where
  pub Float : Type 0
  pub times : Float → Float → Float
  pub plus : Float → Float → Float
  pub powi : Float → ℤ → Float
  pub fmin : Float → Float → Float
  pub fmax : Float → Float → Float
  pub zero_float : Float
  pub as_secs_f64 : ℕ → Float
  pub from_secs_f64 : Float → Result ℕ DurationPanic
