-- ===== src/Models/Retrying/Outcome.antt =====
-- What the answers of a retrying model mean.
use serdes_ai.Prelude.{ℕ, zero, suc, ◌≡◌, ◌⊎◌, ◌≤◌, true, false, Option, some, max}
use serdes_ai.Prelude.Result.{Result, ok, err}
use serdes_ai.Retries.Floats.{Floats, DurationPanic}
use serdes_ai.Retries.Policy.{Attempt, Run}
use serdes_ai.Models.Error.{
  Foreign, ModelError, LastError, nothing, boxed, Texts, retry_exhausted, retry_deadline_exceeded,
  is_retryable,
}
use serdes_ai.Models.Retrying.{RetryingModel, Environment, run_of}

module _ {x : Foreign} (t : Texts x) where
  -- The n-th attempt failed with `e`, an error that is retryable.
  abbrev pub FailsSafely : {A : Type 0} → (ℕ → Attempt A (ModelError x)) → ℕ → ModelError x → Type 0
  FailsSafely op n e = ((op n).result ≡ err e) × (is_retryable t e ≡ true)

  abbrev pub AllSafe : {A : Type 0} → (ℕ → Attempt A (ModelError x)) → ℕ → Type 0
  AllSafe op zero = Unit
  AllSafe op (suc n) = ((e : ModelError x) × FailsSafely op (suc n) e) × AllSafe op n

  -- Of `n` failed attempts and one more, the error of the last that failed.
  abbrev pub LastFailed : {A : Type 0} → (ℕ → Attempt A (ModelError x)) → ℕ → LastError x → Type 0
  LastFailed op n nothing = n ≡ 0
  LastFailed op n (boxed e) = ((op n).result ≡ err e) ⊎ ((op (suc n)).result ≡ err e)

  module _ {f : Floats} {Response Event : Type 0} (m : RetryingModel f x Response Event)
      {A : Type 0} (op : ℕ → Attempt A (ModelError x)) (n : ℕ) where
    -- The answer after `n` attempts that failed safely and one more.
    pub data Answer : Result A (ModelError x) → Type 0 where
      answered : (a : A) → (op (suc n)).result ≡ ok a → Answer (ok a)
      unsafe :
          (e : ModelError x)
          → (op (suc n)).result ≡ err e
          → is_retryable t e ≡ false
          → Answer (err e)
      only_attempt :
          (e : ModelError x)
          → n ≡ 0
          → FailsSafely op 1 e
          → m.policy.max_attempts ≤ 1
          → Answer (err e)
      used_up :
          (e : ModelError x) (elapsed : ℕ)
          → 1 ≤ n
          → FailsSafely op (suc n) e
          → m.policy.max_attempts ≤ suc n
          → Answer (err (retry_exhausted (suc n) elapsed e))
      late :
          (last : LastError x) (elapsed budget : ℕ)
          → m.policy.total_timeout ≡ some budget
          → budget ≤ elapsed
          → LastFailed op n last
          → Answer (err (retry_deadline_exceeded (suc n) elapsed last))

  module _ {f : Floats} (env : Environment f) {Response Event : Type 0}
      (m : RetryingModel f x Response Event) {A : Type 0} (op : ℕ → Attempt A (ModelError x)) where
    abbrev the_run : Run f A (ModelError x)
    the_run = run_of t env m op

    -- The call returned, after some number of attempts that failed safely and one more.
    abbrev pub Returns : Option (Result (Result A (ModelError x)) DurationPanic) → Type 0
    Returns call =
        (answer : Result A (ModelError x)) × (n : ℕ) × (call ≡ some (ok answer))
        × (suc n ≤ max m.policy.max_attempts 1)
        × AllSafe op n
        × Answer m op n answer
