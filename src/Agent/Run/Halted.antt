-- ===== src/Agent/Run/Halted.antt =====
-- Steps of a run, of serdes-ai-agent/src/run.rs, that do not hang.
use serdes_ai.Prelude.{◌≢◌, Bool, true, false, Option, none, some, [], ◌∷◌, ltb}
use serdes_ai.Prelude.Words.{add32}
use serdes_ai.Prelude.Result.{Result, ok, err}
use serdes_ai.Streaming.Text.{Text}
use serdes_ai.Models.Error.{ModelError}
use serdes_ai.Agent.Types.{
  Types, RunContext, ModelResponse, is_stop, OutputValidationError, OutputParseError,
  UsageLimitError,
}
use serdes_ai.Agent.Limits.{UsageLimits, check_all}
use serdes_ai.Agent.State.{EndStrategy, early, exhaustive, Agent, Runtime, State, no_fault}
use serdes_ai.Agent.Tools.{execute_tool_calls, is_cancelled}
use serdes_ai.Agent.Tools.Halts.{Halts, and_then-Halts, no_fault-Halts, execute_tool_calls-Halts}
use serdes_ai.Agent.Response.{canonical, first_text, Scanned, scan}
use serdes_ai.Agent.Run.{
  validate_output, after_last_validation, parsed_again, parse_again, stop_with, check_stop,
  check_finish, end_or_check, retry_or_fail, after_validation, act, store, process_history,
  process_response, after_request, within_limits, check_limits, request_step, step_unless, step,
}

module _ {t : Types} {W : Type 0} (a : Agent t W) (ctx : RunContext t) (rt : Runtime t W) where
  after_last_validation-Halts :
      (r : Result t.Output OutputValidationError) (s : State t W)
      → Halts (after_last_validation a ctx r s)
  unfolding after_last_validation
  after_last_validation-Halts (ok output) s = tt
  after_last_validation-Halts (err e) s = tt

  parsed_again-Halts :
      (r : Result t.Output (OutputParseError t)) (s : State t W) → Halts (parsed_again a ctx r s)
  unfolding parsed_again
  parsed_again-Halts (err e) s = tt
  parsed_again-Halts (ok output) s =
      after_last_validation-Halts ((validate_output a ctx output s.world).0) _

  parse_again-Halts : (o : Option Text) (s : State t W) → Halts (parse_again a ctx o s)
  unfolding parse_again
  parse_again-Halts none s = tt
  parse_again-Halts (some content) s = parsed_again-Halts (a.output_schema.parse_text content) s

  stop_with-Halts :
      (response : ModelResponse t) (o : Option t.Output) (s : State t W)
      → Halts (stop_with a ctx response o s)
  unfolding stop_with
  stop_with-Halts response (some output) s = tt
  stop_with-Halts response none s = parse_again-Halts (first_text t response.parts) s

  check_stop-Halts :
      (b : Bool) (response : ModelResponse t) (s : State t W)
      → Halts (check_stop a ctx b response s)
  unfolding check_stop
  check_stop-Halts true response s = stop_with-Halts response s.final_output s
  check_stop-Halts false response s = tt

  check_finish-Halts :
      (response : ModelResponse t) (s : State t W) → Halts (check_finish a ctx response s)
  unfolding check_finish
  check_finish-Halts response s = check_stop-Halts (is_stop response.finish_reason) response s

  end_or_check-Halts :
      (strategy : EndStrategy) (response : ModelResponse t) (s : State t W)
      → Halts (end_or_check a ctx strategy response s)
  unfolding end_or_check
  end_or_check-Halts early response s = tt
  end_or_check-Halts exhaustive response s = check_finish-Halts response s

  retry_or_fail-Halts :
      (b : Bool) (e : OutputValidationError) (s : State t W) → Halts (retry_or_fail a ctx b e s)
  unfolding retry_or_fail
  retry_or_fail-Halts true e s = tt
  retry_or_fail-Halts false e s = tt

  after_validation-Halts :
      (response : ModelResponse t) (r : Result t.Output OutputValidationError) (s : State t W)
      → Halts (after_validation a ctx response r s)
  unfolding after_validation
  after_validation-Halts response (ok output) s = end_or_check-Halts a.end_strategy response _
  after_validation-Halts response (err e) s =
      retry_or_fail-Halts (ltb a.max_output_retries (add32 s.output_retries 1)) e _

  module _ (permits : a.max_concurrent_tools ≢ some 0) where
    act-Halts :
        (response : ModelResponse t) (scanned : Scanned t) (s : State t W)
        → Halts (act a ctx rt response scanned s)
    unfolding act
    act-Halts response ([], none) s = check_finish-Halts response s
    act-Halts response ([], some output) s =
        after_validation-Halts response ((validate_output a ctx output s.world).0) _
    act-Halts response (tc ∷ calls, found) s =
        and_then-Halts (execute_tool_calls a rt ctx (tc ∷ calls) s) _
          (execute_tool_calls-Halts a rt ctx (tc ∷ calls) s permits) λ returns s'. tt

    process_response-Halts :
        (response : ModelResponse t) (s : State t W) → Halts (process_response a ctx rt response s)
    unfolding process_response
    process_response-Halts response s =
        and_then-Halts (no_fault (scan a response.parts ([], none)) s) _
          (no_fault-Halts (scan a response.parts ([], none)) s)
          λ scanned s'. act-Halts response scanned s'

    after_request-Halts :
        (r : Result (ModelResponse t) (ModelError t.foreign)) (s : State t W)
        → Halts (after_request a ctx rt r s)
    unfolding after_request
    after_request-Halts (err e) s = tt
    after_request-Halts (ok answer) s =
        and_then-Halts (no_fault (canonical t answer) s) _ (no_fault-Halts (canonical t answer) s)
          λ response s'. process_response-Halts response (store response s')

    within_limits-Halts :
        (r : Result (Unit {0}) UsageLimitError) (s : State t W) → Halts (within_limits a ctx rt r s)
    within_limits-Halts (ok u) s = tt
    within_limits-Halts (err e) s = tt

    module _ (limits : Option UsageLimits) where
      request_step-Halts : (s : State t W) → Halts (request_step a ctx rt limits s)
      unfolding request_step process_history
      request_step-Halts s =
          and_then-Halts (check_limits a ctx rt a.usage_limits (record s { step = add32 s.step 1 }))
            _
            (within_limits-Halts (check_all a.usage_limits s.usage (rt.elapsed_seconds s.world)) _)
            λ u s'.
              and_then-Halts (check_limits a ctx rt limits s') _
                (within_limits-Halts (check_all limits s'.usage (rt.elapsed_seconds s'.world)) s')
                λ u' s''. and_then-Halts (process_history a ctx s'') _ tt λ messages s₃.
                  after_request-Halts
                    (a.request messages ctx.model_settings a.cached_tool_defs s₃.world).0
                    (record s₃ {
                      world = (a.request messages ctx.model_settings a.cached_tool_defs s₃.world).1;
                    })

      step_unless-Halts :
          (done stopped : Bool) (s : State t W) → Halts (step_unless a ctx rt limits done stopped s)
      unfolding step_unless
      step_unless-Halts true stopped s = tt
      step_unless-Halts false true s = tt
      step_unless-Halts false false s = request_step-Halts s

      -- Where at least one tool at a time is allowed, no step hangs.
      pub step-Halts : (s : State t W) → Halts (step a ctx rt limits s)
      unfolding step
      step-Halts s = step_unless-Halts s.finished (is_cancelled a rt ctx s) s
