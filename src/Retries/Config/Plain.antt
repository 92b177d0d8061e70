-- ===== src/Retries/Config/Plain.antt =====
-- The loop of `with_retry` against that of `with_retry_state`, of serdes-ai-retries/src/executor.rs.
use serdes_ai.Prelude.{ℕ, zero, suc, ◌≡◌, refl, inl, inr, ◌&&◌, Option, none, some, ltb, Bool-cases}
use serdes_ai.Prelude.Result.{Result, ok, err, Result-cases}
use serdes_ai.Retries.Error.{RetryableError}
use serdes_ai.Retries.Floats.{Floats, DurationPanic}
use serdes_ai.Retries.Condition.{condition_should_retry}
use serdes_ai.Retries.Config.{
  Call, RetryState, default_state, max_attempts, retried, settle, turn, loop, plain_settle,
  plain_loop, with_retry, with_retry_state,
}

module _ {f : Floats} {X A : Type 0} (c : Call f X A) where
  -- An answer without its state.
  abbrev pub forget :
      Option (Result (Result A (RetryableError X) × RetryState) DurationPanic)
      → Option (Result (Result A (RetryableError X)) DurationPanic)
  forget none = none
  forget (some (ok (result, s))) = some (ok result)
  forget (some (err p)) = some (err p)

  plain_loop-forget : (fuel : ℕ) (s : RetryState) → plain_loop c fuel s ≡ forget (loop c fuel s)
  unfolding plain_loop loop plain_settle turn settle
  plain_loop-forget zero s = refl
  plain_loop-forget (suc fuel) s = elim (Result-cases (c.operation (suc s.attempt))) [
    | inl (value, o) ↦ rw (o, plain_loop, loop, plain_settle, settle) refl
    | inr (e, o) ↦
        elim (Bool-cases
          (ltb (suc s.attempt) (max_attempts c) && condition_should_retry c.config.retry_on e)) [
            | inl more ↦ elim (Result-cases (retried c (suc s.attempt) e s)) [
              | inl (t, q) ↦
                  rw (o, plain_loop, loop, plain_settle, settle, more, q) (plain_loop-forget fuel t)
              | inr (p, q) ↦ rw (o, plain_loop, loop, plain_settle, settle, more, q) refl
            ]
            | inr stop ↦ rw (o, plain_loop, loop, plain_settle, settle, stop) refl
          ]
  ]

  pub with_retry-forget : with_retry c ≡ forget (with_retry_state c)
  unfolding with_retry with_retry_state
  with_retry-forget = plain_loop-forget (suc c.config.max_retries) default_state
