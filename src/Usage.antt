-- ===== src/Usage.antt =====
-- serdes-ai-core/src/usage.rs: token usage of a request and of a run, and the limits on a run.
-- The records come from `serde_json` with a `details` value, whose type is the parameter `V`.
pub mod Merge
pub mod Totals
pub mod Limits
mod Examples
use serdes_ai.Prelude.{
  ℕ, String, Bool, true, false, not, ◌&&◌, ◌||◌, Option, none, some, List, [], ◌∷◌, ◌++◌, length,
  ltb, is_some, unwrap_or, if◌then◌else◌,
}
use serdes_ai.Prelude.Result.{Result, ok, err}
use serdes_ai.Prelude.Words.{add64}

pub record RequestUsage {ℓ} (V : Type ℓ) : Type ℓ where
  pub request_tokens : Option ℕ
  pub response_tokens : Option ℕ
  pub total_tokens : Option ℕ
  pub cache_creation_tokens : Option ℕ
  pub cache_read_tokens : Option ℕ
  pub details : Option V

-- The `match` on two optional counts that `merge` and `recalculate_total` repeat.
pub add_counts : Option ℕ → Option ℕ → Option ℕ
unfolding add64
add_counts (some a) (some b) = some (add64 a b)
add_counts (some a) none = some a
add_counts none (some b) = some b
add_counts none none = none

module _ {ℓ} {V : Type ℓ} where
  abbrev pub empty_usage : RequestUsage V
  empty_usage = record {
    request_tokens = none;
    response_tokens = none;
    total_tokens = none;
    cache_creation_tokens = none;
    cache_read_tokens = none;
    details = none;
  }

  pub with_tokens : ℕ → ℕ → RequestUsage V
  unfolding add64
  with_tokens request response = record empty_usage {
    request_tokens = some request;
    response_tokens = some response;
    total_tokens = some (add64 request response);
  }

  pub recalculate_total : RequestUsage V → RequestUsage V
  recalculate_total u = record u { total_tokens = add_counts u.request_tokens u.response_tokens }

  pub set_request_tokens : ℕ → RequestUsage V → RequestUsage V
  unfolding recalculate_total
  set_request_tokens tokens u = recalculate_total (record u { request_tokens = some tokens })

  pub set_response_tokens : ℕ → RequestUsage V → RequestUsage V
  unfolding recalculate_total
  set_response_tokens tokens u = recalculate_total (record u { response_tokens = some tokens })

  set_cache_creation_tokens : ℕ → RequestUsage V → RequestUsage V
  set_cache_creation_tokens tokens u = record u { cache_creation_tokens = some tokens }

  set_cache_read_tokens : ℕ → RequestUsage V → RequestUsage V
  set_cache_read_tokens tokens u = record u { cache_read_tokens = some tokens }

  set_details : V → RequestUsage V → RequestUsage V
  set_details value u = record u { details = some value }

  -- Only the four counts are merged; `details` stays that of the receiver.
  pub merge : RequestUsage V → RequestUsage V → RequestUsage V
  unfolding recalculate_total
  merge u other = recalculate_total (record u {
    request_tokens = add_counts u.request_tokens other.request_tokens;
    response_tokens = add_counts u.response_tokens other.response_tokens;
    cache_creation_tokens = add_counts u.cache_creation_tokens other.cache_creation_tokens;
    cache_read_tokens = add_counts u.cache_read_tokens other.cache_read_tokens;
  })

  pub total : RequestUsage V → ℕ
  unfolding add64
  total u =
      unwrap_or u.total_tokens
        (add64 (unwrap_or u.request_tokens 0) (unwrap_or u.response_tokens 0))

  is_empty : RequestUsage V → Bool
  is_empty u =
      not (is_some u.request_tokens)
      && not (is_some u.response_tokens)
      && not (is_some u.total_tokens)

pub record RunUsage {ℓ} (V : Type ℓ) : Type ℓ where
  pub requests : List (RequestUsage V)
  pub total_request_tokens : ℕ
  pub total_response_tokens : ℕ
  pub total_tokens : ℕ

module _ {ℓ} {V : Type ℓ} where
  abbrev pub new_run : RunUsage V
  new_run = record {
    requests = [];
    total_request_tokens = 0;
    total_response_tokens = 0;
    total_tokens = 0;
  }

  pub add_request : RunUsage V → RequestUsage V → RunUsage V
  unfolding add64
  add_request run usage = record {
    requests = run.requests ++ usage ∷ [];
    total_request_tokens = add64 run.total_request_tokens (unwrap_or usage.request_tokens 0);
    total_response_tokens = add64 run.total_response_tokens (unwrap_or usage.response_tokens 0);
    total_tokens = add64 run.total_tokens (total usage);
  }

  pub request_count : RunUsage V → ℕ
  request_count run = length run.requests

-- serdes-ai-core/src/errors.rs
pub data UsageLimitType : Type 0 where
  request_tokens response_tokens total_tokens requests : UsageLimitType

pub record UsageLimitExceeded : Type 0 where
  pub limit_type : UsageLimitType
  pub current : ℕ
  pub max : ℕ
  pub message : Option String

pub record UsageLimits : Type 0 where
  pub max_request_tokens : Option ℕ
  pub max_response_tokens : Option ℕ
  pub max_total_tokens : Option ℕ
  pub max_requests : Option ℕ

abbrev pub no_limits : UsageLimits
no_limits = record {
  max_request_tokens = none;
  max_response_tokens = none;
  max_total_tokens = none;
  max_requests = none;
}

pub exceeds : UsageLimitType → ℕ → ℕ → UsageLimitExceeded
exceeds limit_type current max = record {
  limit_type = limit_type;
  current = current;
  max = max;
  message = none;
}

-- One `if let Some(max) = self.… { if current > max { return Err(…) } }`; `rest` is the code below.
check_one :
    UsageLimitType
    → Option ℕ
    → ℕ
    → Result (Unit {0}) UsageLimitExceeded
    → Result (Unit {0}) UsageLimitExceeded
unfolding exceeds
check_one limit_type none current rest = rest
check_one limit_type (some max) current rest =
    if ltb max current then err (exceeds limit_type current max) else rest

module _ {ℓ} {V : Type ℓ} where
  pub check : UsageLimits → RunUsage V → Result (Unit {0}) UsageLimitExceeded
  unfolding check_one request_count
  check limits usage =
      check_one request_tokens limits.max_request_tokens usage.total_request_tokens (
        check_one response_tokens limits.max_response_tokens usage.total_response_tokens (
          check_one total_tokens limits.max_total_tokens usage.total_tokens
            (check_one requests limits.max_requests (request_count usage) (ok tt))))

pub has_limits : UsageLimits → Bool
has_limits limits =
    is_some limits.max_request_tokens
    || is_some limits.max_response_tokens
    || is_some limits.max_total_tokens
    || is_some limits.max_requests
