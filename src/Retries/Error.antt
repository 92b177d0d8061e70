-- ===== src/Retries/Error.antt =====
-- serdes-ai-retries/src/error.rs. `Other` wraps an `anyhow::Error`, the type parameter `X`.
use serdes_ai.Prelude.{ℕ, String, Bool, true, false, ◌||◌, ◌&&◌, Option, none, some, leb, nat_beq}

pub data RetryFailure {ℓ} (E : Type ℓ) : Type ℓ where
  permanent : E → (attempts elapsed : ℕ) → RetryFailure E
  exhausted : E → (attempts elapsed : ℕ) → RetryFailure E
  deadline_exceeded : (last_error : Option E) → (attempts elapsed : ℕ) → RetryFailure E

pub data RetryableError (X : Type 0) : Type 0 where
  http : (status : ℕ) (body : String) (retry_after : Option ℕ) → RetryableError X
  rate_limited : (retry_after : Option ℕ) → RetryableError X
  timeout : RetryableError X
  connection : String → RetryableError X
  other : X → RetryableError X

module _ {X : Type 0} where
  pub retry_after : RetryableError X → Option ℕ
  retry_after (http status body after) = after
  retry_after (rate_limited after) = after
  retry_after _ = none

  pub is_retryable : RetryableError X → Bool
  is_retryable (http status body after) = nat_beq status 429 || leb 500 status && leb status 599
  is_retryable (rate_limited after) = true
  is_retryable timeout = true
  is_retryable (connection message) = true
  is_retryable (other error) = false

  pub status : RetryableError X → Option ℕ
  status (http code body after) = some code
  status (rate_limited after) = some 429
  status _ = none
