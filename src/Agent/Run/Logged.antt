-- ===== src/Agent/Run/Logged.antt =====
-- What the handling of a response, of serdes-ai-agent/src/run.rs, does to the log of a run.
use serdes_ai.Prelude.{
  ℕ, ◌≡◌, refl, ap, ◌∙◌, Bool, true, false, Option, none, some, List, [], ◌∷◌, ltb,
}
use serdes_ai.Prelude.Words.{add32}
use serdes_ai.Prelude.Result.{Result, ok, err}
use serdes_ai.Streaming.Text.{Text}
use serdes_ai.Agent.Types.{
  Types, RunContext, ModelResponse, is_stop, OutputValidationError, OutputParseError,
}
use serdes_ai.Agent.State.{
  EndStrategy, early, exhaustive, Agent, Runtime, State, Outcome, M, and_then,
}
use serdes_ai.Agent.Tools.{execute_tool_calls}
use serdes_ai.Agent.Tools.Keeps.{core, execute_tool_calls-Keeps}
use serdes_ai.Agent.Response.{first_text, Scanned}
use serdes_ai.Agent.Run.{
  StepResult, add_tool_returns, add_retry_message, validate_output, after_last_validation,
  parsed_again, parse_again, stop_with, check_stop, check_finish, end_or_check, retry_or_fail,
  after_validation, act,
}

-- The responses and the number of requests
abbrev pub log : {t : Types} {W : Type 0} → State t W → List (ModelResponse t) × ℕ
log s = (s.responses, s.usage.request_count)

module _ {t : Types} {W : Type 0} (a : Agent t W) (ctx : RunContext t) (rt : Runtime t W) where
  after_last_validation-log :
      (r : Result t.Output OutputValidationError) (s : State t W)
      → log ((after_last_validation a ctx r s).1) ≡ log s
  unfolding after_last_validation
  after_last_validation-log (ok output) s = refl
  after_last_validation-log (err e) s = refl

  parsed_again-log :
      (r : Result t.Output (OutputParseError t)) (s : State t W)
      → log ((parsed_again a ctx r s).1) ≡ log s
  unfolding parsed_again
  parsed_again-log (err e) s = refl
  parsed_again-log (ok output) s =
      after_last_validation-log ((validate_output a ctx output s.world).0) _

  stop_with-log :
      (response : ModelResponse t) (o : Option t.Output) (s : State t W)
      → log ((stop_with a ctx response o s).1) ≡ log s
  unfolding stop_with parse_again
  stop_with-log response (some output) s = refl
  stop_with-log response none s = parse_log (first_text t response.parts)
    where
      parse_log : (o : Option Text) → log ((parse_again a ctx o s).1) ≡ log s
      parse_log none = refl
      parse_log (some content) = parsed_again-log (a.output_schema.parse_text content) s

  check_stop-log :
      (b : Bool) (response : ModelResponse t) (s : State t W)
      → log ((check_stop a ctx b response s).1) ≡ log s
  unfolding check_stop
  check_stop-log true response s = stop_with-log response s.final_output s
  check_stop-log false response s = refl

  check_finish-log :
      (response : ModelResponse t) (s : State t W) → log ((check_finish a ctx response s).1) ≡ log s
  unfolding check_finish
  check_finish-log response s = check_stop-log (is_stop response.finish_reason) response s

  end_or_check-log :
      (strategy : EndStrategy) (response : ModelResponse t) (s : State t W)
      → log ((end_or_check a ctx strategy response s).1) ≡ log s
  unfolding end_or_check
  end_or_check-log early response s = refl
  end_or_check-log exhaustive response s = check_finish-log response s

  retry_or_fail-log :
      (b : Bool) (e : OutputValidationError) (s : State t W)
      → log ((retry_or_fail a ctx b e s).1) ≡ log s
  unfolding retry_or_fail add_retry_message
  retry_or_fail-log true e s = refl
  retry_or_fail-log false e s = refl

  after_validation-log :
      (response : ModelResponse t) (r : Result t.Output OutputValidationError) (s : State t W)
      → log ((after_validation a ctx response r s).1) ≡ log s
  unfolding after_validation
  after_validation-log response (ok output) s = end_or_check-log a.end_strategy response _
  after_validation-log response (err e) s =
      retry_or_fail-log (ltb a.max_output_retries (add32 s.output_retries 1)) e _

  answered-log :
      {A : Type 0} (o : Outcome t W A) (k : A → M t W StepResult) (s : State t W)
      → core (o.1) ≡ core s
      → ((x : A) (s' : State t W) → log ((k x s').1) ≡ log s')
      → log ((and_then o k).1) ≡ log s
  answered-log (ok x, s') k s c h = h x s' ∙ ap (λ y. (y.1, y.6)) c
  answered-log (err e, s') k s c h = ap (λ y. (y.1, y.6)) c

  pub act-log :
      (response : ModelResponse t) (scanned : Scanned t) (s : State t W)
      → log ((act a ctx rt response scanned s).1) ≡ log s
  unfolding act add_tool_returns
  act-log response ([], none) s = check_finish-log response s
  act-log response ([], some output) s =
      after_validation-log response ((validate_output a ctx output s.world).0) _
  act-log response (tc ∷ calls, found) s =
      answered-log (execute_tool_calls a rt ctx (tc ∷ calls) s) _ s
        (execute_tool_calls-Keeps a rt ctx (tc ∷ calls) s) λ x s'. refl
