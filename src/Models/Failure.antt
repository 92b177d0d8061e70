-- ===== src/Models/Failure.antt =====
-- The normalized model failure of serdes-ai-core/src/errors.rs, and the two core errors that are
-- classified as one. A status is a `u16`; durations are in nanoseconds.
use serdes_ai.Prelude.{
  ℕ, ◌*◌, String, Bool, true, false, ◌&&◌, ◌||◌, Option, none, some, leb, nat_beq, unwrap_or,
  if◌then◌else◌,
}
use serdes_ai.Prelude.Map.{Map}
use Prim.Native.String as Str

pub data ModelFailureKind : Type 0 where
  rate_limited : ModelFailureKind
  overloaded : ModelFailureKind
  server : ModelFailureKind
  timeout : ModelFailureKind
  connection : ModelFailureKind
  incomplete_stream : ModelFailureKind
  authentication : ModelFailureKind
  invalid_request : ModelFailureKind
  not_found : ModelFailureKind
  permission_denied : ModelFailureKind
  billing : ModelFailureKind
  request_too_large : ModelFailureKind
  invalid_response : ModelFailureKind
  cancelled : ModelFailureKind
  configuration : ModelFailureKind
  other : ModelFailureKind

abbrev pub is_rate_limited : ModelFailureKind → Bool
is_rate_limited rate_limited = true
is_rate_limited _ = false

abbrev pub is_transient : ModelFailureKind → Bool
is_transient overloaded = true
is_transient server = true
is_transient timeout = true
is_transient connection = true
is_transient incomplete_stream = true
is_transient _ = false

abbrev pub is_retryable_kind : ModelFailureKind → Bool
is_retryable_kind kind = is_rate_limited kind || is_transient kind

pub record ModelFailure : Type 0 where
  pub kind : ModelFailureKind
  pub message : String
  pub status : Option ℕ
  pub provider_code : Option String
  pub retry_after : Option ℕ
  pub provider : Option String
  pub model : Option String
  pub attempt : Option ℕ
  pub cause : Option String

abbrev pub new_failure : ModelFailureKind → String → ModelFailure
new_failure kind message = record {
  kind = kind;
  message = message;
  status = none;
  provider_code = none;
  retry_after = none;
  provider = none;
  model = none;
  attempt = none;
  cause = none;
}

abbrev pub is_retryable_failure : ModelFailure → Bool
is_retryable_failure failure = is_retryable_kind failure.kind

-- The `match` on a status, the same in the three errors that have one.
abbrev pub kind_of_status : ℕ → ModelFailureKind
kind_of_status status =
    if nat_beq status 429
    then rate_limited
    else if leb 500 status && leb status 599
    then server
    else if nat_beq status 400
    then invalid_request
    else if nat_beq status 401
    then authentication
    else if nat_beq status 403
    then permission_denied
    else if nat_beq status 404
    then not_found
    else other

abbrev pub from_secs : ℕ → ℕ
from_secs n = n * 1_000_000_000

pub record ModelApiError : Type 0 where
  pub status_code : ℕ
  pub body : String
  pub headers : Map String String
  pub message : Option String
  pub error_code : Option String
  pub retryable : Bool
  pub retry_after : Option ℕ

pub data HttpErrorKind : Type 0 where
  timed_out : HttpErrorKind
  connect : HttpErrorKind
  request : HttpErrorKind
  response : (status : Option ℕ) → HttpErrorKind

pub record ModelHttpError : Type 0 where
  pub kind : HttpErrorKind
  pub message : String
  pub retry_after : Option ℕ

-- `decimal` is the `Display` of a number.
module _ (decimal : ℕ → String) where
  api_message : Option String → String
  api_message none = ""
  api_message (some message) = Str.◌++◌ ": " message

  api_code : Option String → String
  api_code none = ""
  api_code (some code) = Str.◌++◌ " [" (Str.◌++◌ code "]")

  pub api_error_display : ModelApiError → String
  unfolding api_message api_code
  api_error_display error = Str.◌++◌ "Model API error (status " (
      Str.◌++◌ (decimal error.status_code)
        (Str.◌++◌ ")" (Str.◌++◌ (api_message error.message) (api_code error.error_code))))

  http_prefix : HttpErrorKind → String
  http_prefix timed_out = "Request timeout: "
  http_prefix connect = "Connection error: "
  http_prefix request = "HTTP request error: "
  http_prefix (response (some status)) =
      Str.◌++◌ "HTTP response error (status " (Str.◌++◌ (decimal status) "): ")
  http_prefix (response none) = "HTTP response error: "

  pub http_error_display : ModelHttpError → String
  unfolding http_prefix
  http_error_display error = Str.◌++◌ (http_prefix error.kind) error.message

  unfoldable pub api_model_failure : ModelApiError → ModelFailure
  unfolding api_error_display
  api_model_failure error =
      record (new_failure (kind_of_status error.status_code) (unwrap_or error.message error.body)) {
        status = some error.status_code;
        provider_code = error.error_code;
        retry_after = elim error.retry_after [ none ↦ none | some secs ↦ some (from_secs secs) ];
        cause = some (api_error_display error);
      }

  abbrev kind_of_http : HttpErrorKind → ModelFailureKind
  kind_of_http timed_out = timeout
  kind_of_http connect = connection
  kind_of_http request = invalid_request
  kind_of_http (response none) = other
  kind_of_http (response (some status)) = kind_of_status status

  abbrev status_of_http : HttpErrorKind → Option ℕ
  status_of_http (response status) = status
  status_of_http _ = none

  unfoldable pub http_model_failure : ModelHttpError → ModelFailure
  unfolding http_error_display
  http_model_failure error = record (new_failure (kind_of_http error.kind) error.message) {
    status = status_of_http error.kind;
    retry_after = error.retry_after;
    cause = some (http_error_display error);
  }
