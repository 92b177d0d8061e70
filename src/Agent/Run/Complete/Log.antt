-- ===== src/Agent/Run/Complete/Log.antt =====
-- The messages of a run.
use serdes_ai.Prelude.{◌≡◌, Option, none, List, [], ◌∷◌, ◌++◌, map}
use serdes_ai.Prelude.Result.{ok}
use serdes_ai.Streaming.Part.{ToolCallPart}
use serdes_ai.Agent.Types.{
  Types, RunContext, ModelResponse, ModelRequest, OutputValidationError, request_of, model_response,
  retry_prompt, retry_message,
}
use serdes_ai.Agent.Limits.{UsageLimits}
use serdes_ai.Agent.State.{Agent, Runtime, State}
use serdes_ai.Agent.Tools.{Returned}
use serdes_ai.Agent.Tools.Keeps.{keys, call_keys}
use serdes_ai.Agent.Response.{return_part, scan}
use serdes_ai.Agent.Run.Acted.{Acted, Executed, Refused, NoCalls}

module _ {t : Types} {W : Type 0} (a : Agent t W) (ctx : RunContext t) (rt : Runtime t W)
    (limits : Option UsageLimits) where
  -- What a response adds to the messages: itself and what the execution of the calls that its scan
  -- left returns, with their names and IDs in their order; or the reason with which the validators refuse an output of it; or
  -- nothing, where its scan left no calls.
  pub data Added (response : ModelResponse t) : List (ModelRequest t) → Type 0 where
    answers :
        (calls : List (ToolCallPart t.json)) (found : Option t.Output) (returns : List (Returned t))
        → scan a response.parts ([], none) ≡ ok (calls, found)
        → keys returns ≡ call_keys calls
        → Executed a ctx rt calls returns
        → Added response (
            request_of (model_response response ∷ [])
            ∷ request_of (map (return_part rt.display_tool_error) returns)
            ∷ [])
    refusal :
        (e : OutputValidationError)
        → Refused a ctx rt response e
        → Added response (
            request_of (
              retry_prompt
                (record { content = retry_message e; tool_name = none; tool_call_id = none })
              ∷ [])
            ∷ [])
    nothing : NoCalls a ctx rt response → Added response []

  -- The responses in turn, with the messages that they add.
  pub data Log : List (ModelResponse t) → List (ModelRequest t) → Type 0 where
    start : Log [] []
    then :
        (rs rs' : List (ModelResponse t)) (ms ms' : List (ModelRequest t))
        (response : ModelResponse t) (added : List (ModelRequest t))
        → Log rs ms
        → Added response added
        → rs' ≡ rs ++ response ∷ []
        → ms' ≡ ms ++ added
        → Log rs' ms'

  module _ (first : List (ModelRequest t)) where
    abbrev Logged : State t W → Type 0
    Logged s = (ms : List (ModelRequest t)) × (s.messages ≡ first ++ ms) × Log s.responses ms
