-- ===== src/Agent/Run.antt =====
-- A step of a run: `AgentRun::step`, `process_history`, `process_response` and what they call, of
-- serdes-ai-agent/src/run.rs.
pub mod Judged
pub mod Acted
pub mod Logged
pub mod Turn
pub mod Halted
pub mod Complete
use serdes_ai.Prelude.{
  ℕ, zero, suc, String, Bool, true, false, not, ◌&&◌, Option, none, some, List, [], ◌∷◌, ◌++◌, map,
  length, ltb, is_some, if◌then◌else◌, string_key, ◌==◌,
}
use serdes_ai.Prelude.Result.{Result, ok, err}
use serdes_ai.Prelude.Result as R
use serdes_ai.Prelude.Words.{add32}
use serdes_ai.Usage.{RequestUsage}
use serdes_ai.Models.Error.{ModelError}
use serdes_ai.Streaming.Text.{Text, is_empty}
use serdes_ai.Streaming.Part.{ModelResponsePart, ToolCallPart, text, tool_call, ToolCallArgs, json}
use serdes_ai.Repair.{Fault, to_json}
use serdes_ai.Tools.Toolset.{ToolError, join}
use serdes_ai.Agent.Types.{
  Types, RunContext, RunToolError, FinishReason, is_stop, ModelResponse, ModelRequest,
  ModelRequestPart, request_of, system_prompt, user_prompt, tool_return, retry_prompt,
  model_response, OutputValidationError, OutputParseError, retry_message, AgentRunError,
  UsageLimitError,
}
use serdes_ai.Agent.Limits.{RunUsage, new_usage, add_request, UsageLimits, check_all}
use serdes_ai.Agent.State.{
  EndStrategy, early, exhaustive, Agent, Runtime, State, Failure, failed, panics, Outcome, M, ◌>>=◌,
  ◌>>◌, pure, raise, get, modify, outside, no_fault, is_output_tool,
}
use serdes_ai.Agent.Tools.{Returned, execute_tool_calls, is_cancelled}
use serdes_ai.Agent.Response.{
  canonical, first_text, return_part, last, push_parts, push_response, Scanned, scan,
}
use Prim.Native.String as Str

pub data StepResult : Type 0 where
  go_on : StepResult
  tools_executed : ℕ → StepResult
  output_ready : StepResult
  retrying_output : StepResult
  finished : StepResult

abbrev pub retry_request : {t : Types} → OutputValidationError → ModelRequest t
retry_request e = request_of (
    retry_prompt (record { content = retry_message e; tool_name = none; tool_call_id = none }) ∷ [])

module _ {t : Types} {W : Type 0} where
  -- The runtime is there for the texts of the tool errors.
  pub add_tool_returns : Runtime t W → List (Returned t) → State t W → State t W
  unfolding return_part
  add_tool_returns rt returns s = record s {
    messages =
        push_parts (map (return_part rt.display_tool_error) returns)
          (push_response (last s.responses) s.messages);
  }

  pub add_retry_message : OutputValidationError → State t W → State t W
  add_retry_message e s = record s { messages = s.messages ++ retry_request e ∷ [] }

  -- The usage, the finish reason and the response are stored.
  pub store : ModelResponse t → State t W → State t W
  store response s = record s {
    usage = elim response.usage [ none ↦ s.usage | some usage ↦ add_request s.usage usage ];
    finish_reason = elim response.finish_reason [ none ↦ s.finish_reason | some r ↦ some r ];
    responses = s.responses ++ response ∷ [];
  }

  abbrev pub finish_with : t.Output → State t W → State t W
  finish_with output s = record s { final_output = some output; finished = true }

  module _ (a : Agent t W) where
    module _ (ctx : RunContext t) where
      -- The loop over the validators; `?` ends it.
      pub validate_by :
          List (t.Output → RunContext t → W → Result t.Output OutputValidationError × W)
          → t.Output
          → W
          → Result t.Output OutputValidationError × W
      validate_by [] output w = (ok output, w)
      validate_by (validator ∷ validators) output w =
          let (r, w') = validator output ctx w in
          elim r [ ok output' ↦ validate_by validators output' w' | err e ↦ (err e, w') ]

      pub validate_output : t.Output → W → Result t.Output OutputValidationError × W
      unfolding validate_by
      validate_output = validate_by a.output_validators

      process_by :
          List (RunContext t → List (ModelRequest t) → W → List (ModelRequest t) × W)
          → List (ModelRequest t)
          → W
          → List (ModelRequest t) × W
      process_by [] messages w = (messages, w)
      process_by (processor ∷ processors) messages w =
          let (messages', w') = processor ctx messages w in process_by processors messages' w'

      process_history : M t W (List (ModelRequest t))
      unfolding process_by
      process_history s = outside (process_by a.history_processors s.messages) s

      after_last_validation : Result t.Output OutputValidationError → M t W StepResult
      after_last_validation (ok validated) = do modify (finish_with validated); pure finished
      after_last_validation (err e) = raise (AgentRunError.output_validation_failed e)

      -- "Try one more time to parse"
      parsed_again : Result t.Output (OutputParseError t) → M t W StepResult
      unfolding validate_output after_last_validation
      parsed_again (err e) = raise AgentRunError.unexpected_stop
      parsed_again (ok output) = outside (validate_output output) >>= after_last_validation

      parse_again : Option Text → M t W StepResult
      unfolding parsed_again
      parse_again none = raise AgentRunError.unexpected_stop
      parse_again (some content) = parsed_again (a.output_schema.parse_text content)

      stop_with : ModelResponse t → Option t.Output → M t W StepResult
      unfolding parse_again
      stop_with response (some output) = do
        modify (λ s. record s { finished = true })
        pure finished
      stop_with response none = parse_again (first_text t response.parts)

      -- "Check if we should finish"
      check_stop : Bool → ModelResponse t → M t W StepResult
      unfolding stop_with
      check_stop true response = get >>= λ s. stop_with response s.final_output
      check_stop false response = pure go_on

      check_finish : ModelResponse t → M t W StepResult
      unfolding check_stop
      check_finish response = check_stop (is_stop response.finish_reason) response

      end_or_check : EndStrategy → ModelResponse t → M t W StepResult
      unfolding check_finish
      end_or_check early response = do modify (λ s. record s { finished = true }); pure output_ready
      end_or_check exhaustive response = check_finish response

      -- Whether the retries are used up
      retry_or_fail : Bool → OutputValidationError → M t W StepResult
      unfolding add_retry_message
      retry_or_fail true e = raise (AgentRunError.output_validation_failed e)
      retry_or_fail false e = do modify (add_retry_message e); pure retrying_output

      after_validation : ModelResponse t → Result t.Output OutputValidationError → M t W StepResult
      unfolding end_or_check retry_or_fail add32
      after_validation response (ok validated) = do
        modify (λ s. record s { final_output = some validated })
        end_or_check a.end_strategy response
      after_validation response (err e) = do
        modify (λ s. record s { output_retries = add32 s.output_retries 1 })
        s ← get
        retry_or_fail (ltb a.max_output_retries s.output_retries) e

      module _ (rt : Runtime t W) where
        -- The part of `process_response` after its loop
        pub act : ModelResponse t → Scanned t → M t W StepResult
        unfolding check_finish validate_output after_validation add_tool_returns
        act response ([], none) = check_finish response
        act response ([], some output) =
            outside (validate_output output) >>= after_validation response
        act response (tc ∷ calls, found) = do
          returns ← execute_tool_calls a rt ctx (tc ∷ calls)
          modify (add_tool_returns rt returns)
          pure (tools_executed (length (tc ∷ calls)))

        process_response : ModelResponse t → M t W StepResult
        unfolding scan act
        process_response response = do
          scanned ← no_fault (scan a response.parts ([], none))
          act response scanned

        after_request : Result (ModelResponse t) (ModelError t.foreign) → M t W StepResult
        unfolding canonical store process_response
        after_request (err e) = raise (AgentRunError.model e)
        after_request (ok answer) = do
          response ← no_fault (canonical t answer)
          modify (store response)
          process_response response

        abbrev within_limits : Result (Unit {0}) UsageLimitError → M t W (Unit {0})
        within_limits (ok u) = pure tt
        within_limits (err e) = raise (AgentRunError.usage_limit_exceeded e)

        abbrev check_limits : Option UsageLimits → M t W (Unit {0})
        check_limits limits s =
            within_limits (check_all limits s.usage (rt.elapsed_seconds s.world)) s

        module _ (limits : Option UsageLimits) where
          -- A step that is neither finished nor cancelled
          request_step : M t W StepResult
          unfolding process_history after_request add32
          request_step = do
            modify (λ s. record s { step = add32 s.step 1 })
            check_limits a.usage_limits
            check_limits limits
            messages ← process_history
            answer ← outside (a.request messages ctx.model_settings a.cached_tool_defs)
            after_request answer

          step_unless : (done stopped : Bool) → M t W StepResult
          unfolding request_step
          step_unless true stopped = pure finished
          step_unless false true = raise AgentRunError.cancelled
          step_unless false false = request_step

          unfoldable pub step : M t W StepResult
          unfolding step_unless
          step s = step_unless s.finished (is_cancelled a rt ctx s) s
