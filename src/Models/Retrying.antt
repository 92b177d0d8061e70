-- ===== src/Models/Retrying.antt =====
-- `RetryingModel` of serdes-ai-models/src/retry.rs. The wrapped model is a script: the time and the
-- result of its n-th call. The environment of `with_retry_policy` (timers, drawn jitter, clock) is
-- as in Retries.
pub mod Outcome
use serdes_ai.Prelude.{ℕ, zero, suc, Bool, true, false, Option, none, some, List, [], ◌∷◌, ◌%◌}
use serdes_ai.Prelude.Result.{Result, ok, err}
use serdes_ai.Retries.Error.{RetryFailure, permanent, exhausted, deadline_exceeded}
use serdes_ai.Retries.Floats.{Floats, DurationPanic}
use serdes_ai.Retries.Policy.{
  RetryPolicy, RetryDecision, retry, do_not_retry, Tokio, Attempt, Run, Locals, Answer,
  with_retry_policy,
}
use serdes_ai.Models.Error.{
  Foreign, ModelError, LastError, nothing, boxed, Texts, retry_exhausted, retry_deadline_exceeded,
  is_retryable, retry_after,
}
use serdes_ai.Models.Fallback.{StreamedResponse}

pub record RetryingModel (f : Floats) (x : Foreign) (Response Event : Type 0) : Type 0 where
  pub policy : RetryPolicy f
  pub request : ℕ → Attempt Response (ModelError x)
  pub request_stream : ℕ → Attempt (StreamedResponse x Event) (ModelError x)

pub record Environment (f : Floats) : Type 0 where
  pub tokio : Tokio
  pub jitter_draw : ℕ → f.Float
  pub started : ℕ

abbrev decide : Bool → Option ℕ → RetryDecision
decide true after = retry after
decide false after = do_not_retry

module _ {x : Foreign} where
  abbrev pub classify : Texts x → ModelError x → RetryDecision
  classify t error = decide (is_retryable t error) (retry_after t error)

  boxed_option : Option (ModelError x) → LastError x
  boxed_option none = nothing
  boxed_option (some error) = boxed error

  adapt_exhausted : ModelError x → ℕ → ℕ → ModelError x
  adapt_exhausted error (suc zero) elapsed = error
  adapt_exhausted error attempts elapsed = retry_exhausted attempts elapsed error

  adapt_failure : RetryFailure (ModelError x) → ModelError x
  unfolding boxed_option adapt_exhausted
  adapt_failure (permanent error attempts elapsed) = error
  adapt_failure (exhausted error attempts elapsed) = adapt_exhausted error attempts elapsed
  adapt_failure (deadline_exceeded last_error attempts elapsed) =
      retry_deadline_exceeded attempts elapsed (boxed_option last_error)

  -- `map_err`, where the run does not panic.
  adapted :
      {A : Type 0}
      → Answer A (ModelError x)
      → Option (Result (Result A (ModelError x)) DurationPanic)
  unfolding adapt_failure
  adapted none = none
  adapted (some (err p)) = some (err p)
  adapted (some (ok (ok value, s))) = some (ok (ok value))
  adapted (some (ok (err failure, s))) = some (ok (err (adapt_failure failure)))

  -- The stream that an attempt gives, after its first event was read.
  first_read :
      {Event : Type 0}
      → Result (StreamedResponse x Event) (ModelError x)
      → Result (StreamedResponse x Event) (ModelError x)
  first_read (err error) = err error
  first_read (ok (ok event ∷ rest)) = ok (ok event ∷ rest)
  first_read (ok (err error ∷ rest)) = err error
  first_read (ok []) = ok []

  module _ {f : Floats} (t : Texts x) (env : Environment f) {Response Event : Type 0}
      (m : RetryingModel f x Response Event) where
    abbrev pub run_of : {A : Type 0} → (ℕ → Attempt A (ModelError x)) → Run f A (ModelError x)
    run_of operation = record {
      policy = m.policy;
      operation = operation;
      classify = classify t;
      tokio = env.tokio;
      jitter_draw = env.jitter_draw;
      started = env.started;
    }

    -- `none`: out of fuel.
    pub request : Option (Result (Result Response (ModelError x)) DurationPanic)
    unfolding adapted
    request = adapted (with_retry_policy (run_of m.request))

    abbrev pub opening : ℕ → Attempt (StreamedResponse x Event) (ModelError x)
    unfolding first_read
    opening n = record {
      duration = (m.request_stream n).duration;
      result = first_read (m.request_stream n).result;
    }

    pub request_stream :
        Option (Result (Result (StreamedResponse x Event) (ModelError x)) DurationPanic)
    unfolding adapted
    request_stream = adapted (with_retry_policy (run_of opening))
