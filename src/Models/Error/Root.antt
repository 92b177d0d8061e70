-- ===== src/Models/Error/Root.antt =====
-- Errors that wrap others: what the classification says of them.
use serdes_ai.Prelude.{
  ℕ, ◌≡◌, refl, Bool, true, false, ◌%◌, Option, none, some, length, if◌then◌else◌,
}
use serdes_ai.Prelude.Words.{u32_mod}
use serdes_ai.Models.Failure.{api_model_failure, http_model_failure}
use serdes_ai.Models.Error.{
  Foreign, ModelError, LastError, nothing, boxed, Texts, http, api, provider, timeout, rate_limited,
  authentication, invalid_response, not_found, not_supported, serialization, cancelled, connection,
  content_filtered, context_length_exceeded, configuration, incomplete_stream, network,
  fallback_exhausted, retry_exhausted, retry_deadline_exceeded, core_api, core_http, other,
  retry_after, last_retry_after, model_failure, last_failure, finished, or_else,
}

module _ {x : Foreign} where
  mutual
    -- The error inside all retries and fallbacks.
    pub root : ModelError x → ModelError x
    root (fallback_exhausted attempts last_error) = root last_error
    root (retry_exhausted attempts elapsed last_error) = root last_error
    root (retry_deadline_exceeded attempts elapsed last_error) =
        last_root attempts elapsed last_error
    root error = error

    last_root : ℕ → ℕ → LastError x → ModelError x
    last_root attempts elapsed nothing = retry_deadline_exceeded attempts elapsed nothing
    last_root attempts elapsed (boxed last_error) = root last_error

  -- The attempts that the outermost wrapper counts.
  abbrev pub outer_attempt : ModelError x → Option ℕ
  outer_attempt (fallback_exhausted attempts last_error) = some (length attempts % u32_mod)
  outer_attempt (retry_exhausted attempts elapsed last_error) = some attempts
  outer_attempt (retry_deadline_exceeded attempts elapsed last_error) = some attempts
  outer_attempt _ = none

  abbrev pub is_core : ModelError x → Bool
  is_core (core_api error) = true
  is_core (core_http error) = true
  is_core _ = false

module _ {x : Foreign} (t : Texts x) where
  abbrev IsRooted : ModelError x → Type 0
  IsRooted e =
      (retry_after t e ≡ retry_after t (root e))
      × (model_failure t e ≡ record (model_failure t (root e)) { attempt = outer_attempt e })

  mutual
    unfolding root last_root retry_after last_retry_after model_failure last_failure finished
        api_model_failure http_model_failure

    model_failure-IsRooted : (e : ModelError x) → IsRooted e
    model_failure-IsRooted (fallback_exhausted attempts e) =
        ((model_failure-IsRooted e).0, rw ((model_failure-IsRooted e).1))
    model_failure-IsRooted (retry_exhausted attempts elapsed e) =
        ((model_failure-IsRooted e).0, rw ((model_failure-IsRooted e).1))
    model_failure-IsRooted (retry_deadline_exceeded attempts elapsed e) =
        last_failure-IsRooted attempts elapsed e
    model_failure-IsRooted (http status body headers) = (refl, refl)
    model_failure-IsRooted (api message code) = (refl, refl)
    model_failure-IsRooted (provider name code message kind status after) = (refl, refl)
    model_failure-IsRooted (timeout d) = (refl, refl)
    model_failure-IsRooted (rate_limited after) = (refl, refl)
    model_failure-IsRooted (authentication m) = (refl, refl)
    model_failure-IsRooted (invalid_response m) = (refl, refl)
    model_failure-IsRooted (not_found m) = (refl, refl)
    model_failure-IsRooted (not_supported m) = (refl, refl)
    model_failure-IsRooted (serialization error) = (refl, refl)
    model_failure-IsRooted cancelled = (refl, refl)
    model_failure-IsRooted (connection m) = (refl, refl)
    model_failure-IsRooted (content_filtered m) = (refl, refl)
    model_failure-IsRooted (context_length_exceeded m n) = (refl, refl)
    model_failure-IsRooted (configuration m) = (refl, refl)
    model_failure-IsRooted (incomplete_stream m) = (refl, refl)
    model_failure-IsRooted (network m) = (refl, refl)
    model_failure-IsRooted (core_api error) = (refl, refl)
    model_failure-IsRooted (core_http error) = (refl, refl)
    model_failure-IsRooted (other error) = (refl, refl)

    last_failure-IsRooted :
        (attempts elapsed : ℕ) (e : LastError x)
        → IsRooted (retry_deadline_exceeded attempts elapsed e)
    last_failure-IsRooted attempts elapsed nothing = (refl, refl)
    last_failure-IsRooted attempts elapsed (boxed e) =
        ((model_failure-IsRooted e).0, rw ((model_failure-IsRooted e).1))

  abbrev Asks : ModelError x → Type 0
  Asks e = retry_after t e ≡ (if is_core (root e) then none else (model_failure t e).retry_after)

  or_else_self : (o : Option ℕ) → o ≡ or_else o o
  or_else_self none = refl
  or_else_self (some a) = refl

  mutual
    unfolding root last_root retry_after last_retry_after model_failure last_failure finished

    retry_after-Asks : (e : ModelError x) → Asks e
    retry_after-Asks (fallback_exhausted attempts e) = retry_after-Asks e
    retry_after-Asks (retry_exhausted attempts elapsed e) = retry_after-Asks e
    retry_after-Asks (retry_deadline_exceeded attempts elapsed e) = last-Asks attempts elapsed e
    retry_after-Asks (rate_limited after) = or_else_self after
    retry_after-Asks (provider name code message kind status after) = or_else_self after
    retry_after-Asks (http status body headers) = refl
    retry_after-Asks (api message code) = refl
    retry_after-Asks (timeout d) = refl
    retry_after-Asks (authentication m) = refl
    retry_after-Asks (invalid_response m) = refl
    retry_after-Asks (not_found m) = refl
    retry_after-Asks (not_supported m) = refl
    retry_after-Asks (serialization error) = refl
    retry_after-Asks cancelled = refl
    retry_after-Asks (connection m) = refl
    retry_after-Asks (content_filtered m) = refl
    retry_after-Asks (context_length_exceeded m n) = refl
    retry_after-Asks (configuration m) = refl
    retry_after-Asks (incomplete_stream m) = refl
    retry_after-Asks (network m) = refl
    retry_after-Asks (core_api error) = refl
    retry_after-Asks (core_http error) = refl
    retry_after-Asks (other error) = refl

    last-Asks :
        (attempts elapsed : ℕ) (e : LastError x) → Asks (retry_deadline_exceeded attempts elapsed e)
    last-Asks attempts elapsed nothing = refl
    last-Asks attempts elapsed (boxed e) = retry_after-Asks e

  -- An error is classified as the error at its root, whatever retries and fallbacks it has passed
  -- through, and asks for the same delay; only the attempt is the number that the outermost of them
  -- counted.
  pub model_failure-root :
      (e : ModelError x)
      → (retry_after t e ≡ retry_after t (root e))
        × (model_failure t e ≡ record (model_failure t (root e)) { attempt = outer_attempt e })
  model_failure-root = model_failure-IsRooted

  -- The delay that an error asks for is the one of its classification, except where the error at its
  -- root is an error of the core: then it asks for none, whatever its classification says.
  pub retry_after-model_failure :
      (e : ModelError x)
      → retry_after t e ≡ (if is_core (root e) then none else (model_failure t e).retry_after)
  retry_after-model_failure = retry_after-Asks
