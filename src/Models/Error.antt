-- ===== src/Models/Error.antt =====
-- `ModelError` of serdes-ai-models/src/error.rs, its retry delay and its classification.
pub mod Root
use serdes_ai.Prelude.{
  ℕ, String, Bool, true, false, Option, none, some, List, [], ◌∷◌, ◌%◌, length, if◌then◌else◌, ◌==◌,
  string_key,
}
use serdes_ai.Prelude.Map.{Map}
use serdes_ai.Prelude.Words.{u32_mod}
use serdes_ai.Models.Failure.{
  ModelFailureKind, ModelFailure, ModelApiError, ModelHttpError, new_failure, kind_of_status,
  from_secs, is_retryable_failure, api_model_failure, http_model_failure, is_rate_limited,
  is_transient,
}
use Prim.Native.String as Str

-- The errors of other packages that a `ModelError` can hold.
pub record Foreign : Type 1 where
  pub JsonError : Type 0
  pub AnyError : Type 0

mutual
  pub data ModelError (x : Foreign) : Type 0 where
    -- The headers stand in the order in which the hash map iterates over them.
    http : (status : ℕ) (body : String) (headers : Map String String) → ModelError x
    api : (message : String) (code : Option String) → ModelError x
    provider :
        (provider code message : String) (kind : ModelFailureKind) (status retry_after : Option ℕ)
        → ModelError x
    timeout : ℕ → ModelError x
    rate_limited : (retry_after : Option ℕ) → ModelError x
    authentication : String → ModelError x
    invalid_response : String → ModelError x
    not_found : String → ModelError x
    not_supported : String → ModelError x
    serialization : x.JsonError → ModelError x
    cancelled : ModelError x
    connection : String → ModelError x
    content_filtered : String → ModelError x
    context_length_exceeded : (max_tokens requested_tokens : ℕ) → ModelError x
    configuration : String → ModelError x
    incomplete_stream : String → ModelError x
    network : String → ModelError x
    fallback_exhausted : (attempts : List ModelFailure) (last_error : ModelError x) → ModelError x
    retry_exhausted : (attempts elapsed : ℕ) (last_error : ModelError x) → ModelError x
    retry_deadline_exceeded : (attempts elapsed : ℕ) (last_error : LastError x) → ModelError x
    core_api : ModelApiError → ModelError x
    core_http : ModelHttpError → ModelError x
    other : x.AnyError → ModelError x

  -- `Option<Box<ModelError>>`
  pub data LastError (x : Foreign) : Type 0 where
    nothing : LastError x
    boxed : ModelError x → LastError x

-- What the errors' code calls: of the standard library, and of the code that `thiserror` derives.
pub record Texts (x : Foreign) : Type 0 where
  pub decimal : ℕ → String
  pub debug_duration : ℕ → String
  pub eq_ignore_ascii_case : String → String → Bool
  pub parse_u64 : String → Option ℕ
  pub json_to_string : x.JsonError → String
  pub any_to_string : x.AnyError → String
  pub to_string : ModelError x → String

abbrev or_else : Option ℕ → Option ℕ → Option ℕ
or_else none b = b
or_else (some a) b = some a

module _ {x : Foreign} (t : Texts x) where
  open t use {
    decimal, debug_duration, eq_ignore_ascii_case, parse_u64, json_to_string, any_to_string,
    to_string,
  }

  -- The first value whose name is `retry-after`, and no other, is parsed.
  abbrev retry_after_header : Map String String → Option ℕ
  retry_after_header [] = none
  retry_after_header ((name, value) ∷ headers) =
      let rest = retry_after_header headers in
      if eq_ignore_ascii_case name "retry-after"
      then elim (parse_u64 value) [ none ↦ none | some secs ↦ some (from_secs secs) ]
      else rest

  unfoldable mutual
    pub retry_after : ModelError x → Option ℕ
    retry_after (rate_limited after) = after
    retry_after (provider name code message kind status after) = after
    retry_after (http status body headers) = retry_after_header headers
    retry_after (fallback_exhausted attempts last_error) = retry_after last_error
    retry_after (retry_exhausted attempts elapsed last_error) = retry_after last_error
    retry_after (retry_deadline_exceeded attempts elapsed last_error) = last_retry_after last_error
    retry_after _ = none

    pub last_retry_after : LastError x → Option ℕ
    last_retry_after nothing = none
    last_retry_after (boxed last_error) = retry_after last_error

  abbrev kind_of_code : Option String → ModelFailureKind
  kind_of_code none = ModelFailureKind.other
  kind_of_code (some code) =
      if code == "rate_limit_error"
      then ModelFailureKind.rate_limited
      else if code == "overloaded_error"
      then ModelFailureKind.overloaded
      else if code == "authentication_error"
      then ModelFailureKind.authentication
      else if code == "invalid_request_error"
      then ModelFailureKind.invalid_request
      else ModelFailureKind.other

  -- The two statements after the `match`.
  finished : ModelError x → ModelFailure → ModelFailure
  finished error failure = record failure {
    retry_after = or_else failure.retry_after (retry_after error);
    cause = some (to_string error);
  }

  abbrev at_attempt : ℕ → ModelFailure → ModelFailure
  at_attempt n failure = record failure { attempt = some n }

  unfoldable mutual
    unfolding finished

    pub model_failure : ModelError x → ModelFailure
    model_failure (http status body headers) =
        finished (http status body headers)
          (record (new_failure (kind_of_status status) body) { status = some status })
    model_failure (api message code) =
        finished (api message code)
          (record (new_failure (kind_of_code code) message) { provider_code = code })
    model_failure (provider name code message kind status after) =
        finished (provider name code message kind status after) (record (new_failure kind message) {
          provider = some name;
          provider_code = some code;
          status = status;
          retry_after = after;
        })
    model_failure (timeout duration) = finished (timeout duration) (
        new_failure ModelFailureKind.timeout
          (Str.◌++◌ "request timeout after " (debug_duration duration)))
    model_failure (rate_limited after) =
        finished (rate_limited after)
          (record (new_failure ModelFailureKind.rate_limited "rate limited") {
            retry_after = after;
          })
    model_failure (authentication message) =
        finished (authentication message) (new_failure ModelFailureKind.authentication message)
    model_failure (invalid_response message) =
        finished (invalid_response message) (new_failure ModelFailureKind.invalid_response message)
    model_failure (not_found message) =
        finished (not_found message) (new_failure ModelFailureKind.not_found message)
    model_failure cancelled =
        finished cancelled (new_failure ModelFailureKind.cancelled "request cancelled")
    model_failure (connection message) =
        finished (connection message) (new_failure ModelFailureKind.connection message)
    model_failure (network message) =
        finished (network message) (new_failure ModelFailureKind.connection message)
    model_failure (context_length_exceeded max_tokens requested_tokens) =
        let error = context_length_exceeded max_tokens requested_tokens in
        finished error (new_failure ModelFailureKind.invalid_request (to_string error))
    model_failure (configuration message) =
        finished (configuration message) (new_failure ModelFailureKind.configuration message)
    model_failure (not_supported message) =
        finished (not_supported message) (new_failure ModelFailureKind.configuration message)
    model_failure (incomplete_stream message) =
        finished (incomplete_stream message)
          (new_failure ModelFailureKind.incomplete_stream message)
    model_failure (serialization error) =
        finished (serialization error)
          (new_failure ModelFailureKind.invalid_response (json_to_string error))
    model_failure (fallback_exhausted attempts last_error) =
        at_attempt (length attempts % u32_mod) (model_failure last_error)
    model_failure (retry_exhausted attempts elapsed last_error) =
        at_attempt attempts (model_failure last_error)
    model_failure (retry_deadline_exceeded attempts elapsed last_error) =
        last_failure attempts elapsed last_error
    model_failure (content_filtered message) =
        finished (content_filtered message) (new_failure ModelFailureKind.other message)
    model_failure (other error) =
        finished (other error) (new_failure ModelFailureKind.other (any_to_string error))
    model_failure (core_api error) = api_model_failure decimal error
    model_failure (core_http error) = http_model_failure decimal error

    -- The two arms of `RetryDeadlineExceeded`.
    pub last_failure : ℕ → ℕ → LastError x → ModelFailure
    last_failure attempts elapsed nothing =
        let error = retry_deadline_exceeded attempts elapsed nothing in
        finished error
          (at_attempt attempts (new_failure ModelFailureKind.timeout (to_string error)))
    last_failure attempts elapsed (boxed last_error) =
        at_attempt attempts (model_failure last_error)

  abbrev pub is_retryable : ModelError x → Bool
  is_retryable error = is_retryable_failure (model_failure error)

  abbrev pub is_rate_limited_error : ModelError x → Bool
  is_rate_limited_error error = is_rate_limited (model_failure error).kind

  abbrev pub is_transient_error : ModelError x → Bool
  is_transient_error error = is_transient (model_failure error).kind
