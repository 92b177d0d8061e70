-- ===== src/Models/Examples.antt =====
-- Tests of the model wrappers, and instances of the theorems about them.
use serdes_ai.Prelude.{
  ℕ, ◌≡◌, refl, String, true, none, some, List, [], ◌∷◌, ◌++◌, ltb, if◌then◌else◌, ◌==◌, string_key,
}
use serdes_ai.Prelude.Result.{Result, ok, err}
use serdes_ai.Models.Failure.{HttpErrorKind, http_model_failure}
use serdes_ai.Models.Error.{
  Foreign, ModelError, Texts, http, cancelled, retry_exhausted, core_http, fallback_exhausted,
  retry_after, model_failure, is_retryable,
}
use serdes_ai.Models.Error.Root.{
  root, is_core, outer_attempt, model_failure-root, retry_after-model_failure,
}
use serdes_ai.Models.Fallback.{
  Model, FallbackModel, rate_limits, request, request_stream, first_event,
}
use serdes_ai.Models.Fallback.Outcome.{Outcome, request-Outcome}
use serdes_ai.Models.Fallback.Stream.{IsOpen, request_stream-whole}
use serdes_ai.Models.Retrying.{RetryingModel, Environment}
use serdes_ai.Models.Retrying as Retrying
use serdes_ai.Retries.Wait.{fixed}
use serdes_ai.Retries.Examples.{whole, exact}

abbrev plain : Foreign
plain = record { JsonError = Unit; AnyError = Unit }

abbrev texts : Texts plain
texts = record {
  decimal = λ n. "n";
  debug_duration = λ d. "30s";
  eq_ignore_ascii_case = λ a b. a == b;
  parse_u64 = λ s. if s == "7" then some 7 else none;
  json_to_string = λ e. "json";
  any_to_string = λ e. "any";
  to_string = λ e. "error";
}

abbrev Event : Type 0
Event = Result ℕ (ModelError plain)

-- A model with the given answers.
abbrev model :
    String
    → Result ℕ (ModelError plain)
    → Result (List Event) (ModelError plain)
    → Model plain ℕ ℕ ℕ
model name answer stream = record {
  system = "test";
  identifier = name;
  request = λ r. answer;
  request_stream = λ r. stream;
}

abbrev limited : ModelError plain
limited = http 429 "limited" (("retry-after", "7") ∷ [])

abbrev chain : FallbackModel plain ℕ ℕ ℕ
chain = record {
  models =
      model "a" (err limited) (ok (err limited ∷ ok 3 ∷ []))
      ∷ model "b" (ok 5) (ok (ok 1 ∷ err cancelled ∷ []))
      ∷ model "c" (ok 6) (ok [])
      ∷ [];
  retry_on = rate_limits;
}

chain_streams : request_stream texts chain 0 ≡ ok (ok 1 ∷ err cancelled ∷ [])
unfolding request_stream retry_after model_failure
chain_streams = refl

chain_answers : request texts chain 0 ≡ ok 5
unfolding request retry_after model_failure
chain_answers = refl

request-Outcome_example :
    Outcome texts chain (λ m. m.request 0) (request texts chain 0)
    × Outcome texts chain (λ m. first_event (m.request_stream 0)) (request_stream texts chain 0)
request-Outcome_example = request-Outcome texts chain 0

request_stream-whole_example :
    (before : List (Model plain ℕ ℕ ℕ)) × (m : Model plain ℕ ℕ ℕ) × (after : List
      (Model plain ℕ ℕ ℕ))
    × (chain.models ≡ before ++ m ∷ after)
    × (m.request_stream 0 ≡ ok (ok 1 ∷ err cancelled ∷ []))
    × IsOpen {x = plain} {Event = ℕ} (ok 1 ∷ err cancelled ∷ [])
request_stream-whole_example =
    request_stream-whole texts chain 0 (ok 1 ∷ err cancelled ∷ []) chain_streams

-- A limited model that was tried again, inside a fallback chain.
abbrev nested : ModelError plain
nested = fallback_exhausted [] (retry_exhausted 3 9 limited)

model_failure-root_example :
    (retry_after texts nested ≡ retry_after texts (root nested))
    × (model_failure texts nested
        ≡ record (model_failure texts (root nested)) { attempt = outer_attempt nested })
model_failure-root_example = model_failure-root texts nested

retry_after-model_failure_example :
    retry_after texts nested
    ≡ (if is_core (root nested) then none else (model_failure texts nested).retry_after)
retry_after-model_failure_example = retry_after-model_failure texts nested

-- An error of the core that is retryable, and whose delay is not asked for.
abbrev core_limited : ModelError plain
core_limited =
    core_http
      (record { kind = HttpErrorKind.response (some 429); message = ""; retry_after = some 5 })

core_delay_ignored :
    (retry_after texts core_limited ≡ none)
    × ((model_failure texts core_limited).retry_after ≡ some 5)
    × (is_retryable texts core_limited ≡ true)
unfolding retry_after model_failure http_model_failure
core_delay_ignored = (refl, refl, refl)

-- Two failures, and then an answer; the stream ends at once.
abbrev wrapped : RetryingModel whole plain ℕ ℕ
wrapped = record {
  policy = record { max_attempts = 3; wait = fixed 5; total_timeout = some 100 };
  request = λ n. record { duration = 10; result = if ltb n 3 then err limited else ok n };
  request_stream = λ n. record { duration = 10; result = ok [] };
}

abbrev environment : Environment whole
environment = record { tokio = exact; jitter_draw = λ n. 0; started = 0 }
