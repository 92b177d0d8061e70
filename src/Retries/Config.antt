-- ===== src/Retries/Config.antt =====
-- `RetryConfig` of serdes-ai-retries/src/config.rs, and `with_retry` and `with_retry_state` of
-- src/executor.rs. The operation is a script: the result of the n-th attempt. `sleep` only passes
-- time, which these functions do not read. `display` is the error's `Display`.
pub mod Total
pub mod Plain
pub mod History
use serdes_ai.Prelude.{
  ℕ, zero, suc, ◌+◌, String, Bool, true, false, not, ◌&&◌, Option, none, some, List, [], ◌∷◌, ◌++◌,
  ltb, if◌then◌else◌,
}
use serdes_ai.Prelude.Result.{Result, ok, err, ◌>>=◌}
use serdes_ai.Prelude.Words.{saturating_add32}
use serdes_ai.Retries.Error.{RetryableError, retry_after}
use serdes_ai.Retries.Floats.{Floats, DurationPanic, checked}
use serdes_ai.Retries.Wait.{
  WaitStrategy, fixed, exponential_backoff, exponential_jitter, linear, calculate,
}
use serdes_ai.Retries.Condition.{
  RetryCondition, new_condition, on_rate_limit, on_server_errors, condition_should_retry,
}

pub record RetryConfig (f : Floats) (X : Type 0) : Type 0 where
  pub max_retries : ℕ
  pub wait : WaitStrategy f
  pub retry_on : RetryCondition X
  pub reraise : Bool

-- The float 2.0 is the argument `two`, and 0.1 is `tenth`.
module _ {f : Floats} {X : Type 0} (two : f.Float) where
  abbrev pub default_config : RetryConfig f X
  default_config = record {
    max_retries = 3;
    wait = exponential_backoff 500_000_000 60_000_000_000 two;
    retry_on = new_condition;
    reraise = true;
  }

  abbrev pub no_retry : RetryConfig f X
  no_retry = record default_config { max_retries = 0 }

unfoldable pub for_api : {f : Floats} {X : Type 0} → f.Float → f.Float → RetryConfig f X
unfolding on_rate_limit on_server_errors
for_api two tenth = record (default_config two) {
  max_retries = 3;
  wait = exponential_jitter 500_000_000 60_000_000_000 two tenth;
  retry_on = on_server_errors (on_rate_limit new_condition);
}

pub record AttemptInfo : Type 0 where
  pub attempt : ℕ
  pub success : Bool
  pub error : Option String
  pub wait_time : ℕ

pub record RetryState : Type 0 where
  pub attempt : ℕ
  pub last_error : Option String
  pub total_wait_time : ℕ
  pub history : List AttemptInfo

abbrev pub default_state : RetryState
default_state = record { attempt = 0; last_error = none; total_wait_time = 0; history = [] }

pub record Call (f : Floats) (X A : Type 0) : Type 0 where
  pub config : RetryConfig f X
  pub operation : ℕ → Result A (RetryableError X)
  pub display : RetryableError X → String
  pub jitter_draw : ℕ → f.Float

module _ {f : Floats} {X A : Type 0} (c : Call f X A) where
  open c use {config, operation, display, jitter_draw}

  unfoldable pub max_attempts : ℕ
  unfolding saturating_add32
  max_attempts = saturating_add32 config.max_retries 1

  pub data Turn : Type 0 where
    done : Result A (RetryableError X) → RetryState → Turn
    again : RetryState → Turn
    panics : DurationPanic → Turn

  unfoldable pub wait_for : ℕ → RetryableError X → Result ℕ DurationPanic
  wait_for n error = calculate (jitter_draw n) config.wait n (retry_after error)

  -- A failed attempt that is retried, after its wait and the sum of the waits.
  waited : ℕ → RetryableError X → RetryState → ℕ → ℕ → RetryState
  waited n error s wait total = record {
    attempt = n;
    last_error = some (display error);
    total_wait_time = total;
    history =
        s.history
        ++ record { attempt = n; success = false; error = some (display error); wait_time = wait }
          ∷ [];
  }

  -- `state.total_wait_time += wait`, and what is recorded with it
  pub retried : ℕ → RetryableError X → RetryState → Result RetryState DurationPanic
  unfolding wait_for waited
  retried n error s = do
    wait ← wait_for n error
    total ← checked (s.total_wait_time + wait)
    ok (waited n error s wait total)

  -- The `match operation().await` of `with_retry_state` at attempt `n`, which is below 2 ^ 32.
  settle : ℕ → Result A (RetryableError X) → RetryState → Turn
  unfolding retried max_attempts
  settle n (ok value) s = done (ok value) (record s {
    attempt = n;
    history = s.history ++ record { attempt = n; success = true; error = none; wait_time = 0 } ∷ [];
  })
  settle n (err error) s =
      if ltb n max_attempts && condition_should_retry config.retry_on error
      then elim (retried n error s) [ ok t ↦ again t | err p ↦ panics p ]
      else done (err error) (record s { attempt = n })

  pub turn : RetryState → Turn
  unfolding settle
  turn s = settle (suc s.attempt) (operation (suc s.attempt)) s

  -- `none`: out of fuel.
  loop : ℕ → RetryState → Option (Result (Result A (RetryableError X) × RetryState) DurationPanic)
  loop zero s = none
  loop (suc fuel) s = elim (turn s) [
    | done result t ↦ some (ok (result, t))
    | again t ↦ loop fuel t
    | panics p ↦ some (err p)
  ]

  pub with_retry_state : Option (Result (Result A (RetryableError X) × RetryState) DurationPanic)
  with_retry_state = loop (suc config.max_retries) default_state

  -- `with_retry` has a loop of its own, which gives up the state: a turn of it returns or goes on.
  plain_settle :
      (RetryState → Option (Result (Result A (RetryableError X)) DurationPanic))
      → ℕ
      → Result A (RetryableError X)
      → RetryState
      → Option (Result (Result A (RetryableError X)) DurationPanic)
  unfolding retried max_attempts
  plain_settle rest n (ok value) s = some (ok (ok value))
  plain_settle rest n (err error) s =
      if not (ltb n max_attempts && condition_should_retry config.retry_on error)
      then some (ok (err error))
      else elim (retried n error s) [ ok t ↦ rest t | err p ↦ some (err p) ]

  plain_loop : ℕ → RetryState → Option (Result (Result A (RetryableError X)) DurationPanic)
  unfolding plain_settle
  plain_loop zero s = none
  plain_loop (suc fuel) s =
      plain_settle (plain_loop fuel) (suc s.attempt) (operation (suc s.attempt)) s

  pub with_retry : Option (Result (Result A (RetryableError X)) DurationPanic)
  unfolding plain_loop
  with_retry = plain_loop (suc config.max_retries) default_state
