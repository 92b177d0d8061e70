-- ===== src/Agent/State.antt =====
-- The agent (serdes-ai-agent/src/agent.rs), the state of a run (`AgentRunState` of run.rs) with the
-- world outside of it, and the actions that a run consists of.
use serdes_ai.Prelude.{
  ℕ, String, Bool, false, Option, none, some, List, [], ◌∷◌, if◌then◌else◌, string_key, ◌==◌,
}
use serdes_ai.Prelude.Result.{Result, ok, err}
use serdes_ai.Streaming.Text.{Text}
use serdes_ai.Repair.{Fault}
use serdes_ai.Models.Error.{ModelError}
use serdes_ai.Tools.Toolset.{ToolDefinition}
use serdes_ai.Agent.Types.{
  Types, RunContext, tool_types, RunToolError, FinishReason, ModelResponse, ModelRequest,
  OutputValidationError, OutputParseError, AgentRunError,
}
use serdes_ai.Agent.Limits.{RunUsage, UsageLimits}

pub data EndStrategy : Type 0 where
  early exhaustive : EndStrategy

-- The executor is a callback.
pub record RegisteredTool (t : Types) (W : Type 0) : Type 0 where
  pub definition : ToolDefinition (tool_types t)
  pub execute : t.json.Value → RunContext t → W → Result t.ToolReturn (RunToolError t) × W
  pub max_retries : ℕ

-- The trait `OutputSchema`, as the run uses it.
pub record OutputSchema (t : Types) : Type 0 where
  pub tool_name : Option String
  pub parse_text : Text → Result t.Output (OutputParseError t)
  pub parse_tool_call : String → t.json.Value → Result t.Output (OutputParseError t)

pub record Agent (t : Types) (W : Type 0) : Type 0 where
  pub request :
      List (ModelRequest t)
      → t.ModelSettings
      → List (ToolDefinition (tool_types t))
      → W
      → Result (ModelResponse t) (ModelError t.foreign) × W
  pub model_name : String
  pub model_settings : t.ModelSettings
  pub static_system_prompt : String
  pub instruction_fns : List (RunContext t → W → Option String × W)
  pub system_prompt_fns : List (RunContext t → W → Option String × W)
  pub tools : List (RegisteredTool t W)
  pub cached_tool_defs : List (ToolDefinition (tool_types t))
  pub output_schema : OutputSchema t
  pub output_validators :
      List (t.Output → RunContext t → W → Result t.Output OutputValidationError × W)
  pub end_strategy : EndStrategy
  pub max_output_retries : ℕ
  pub usage_limits : Option UsageLimits
  pub history_processors :
      List (RunContext t → List (ModelRequest t) → W → List (ModelRequest t) × W)
  pub parallel_tool_calls : Bool
  pub max_concurrent_tools : Option ℕ

-- What the runtime decides: whether the token of a run that has one is cancelled, the seconds since
-- the start as a `u64`, and the order in which the futures of tool calls get to run; and the text of
-- a tool error, which is derived.
pub record Runtime (t : Types) (W : Type 0) : Type 0 where
  pub cancel_token : Option (W → Bool)
  pub elapsed_seconds : W → ℕ
  pub schedule : W → List ℕ
  pub display_tool_error : RunToolError t → String

-- `AgentRunState`, whose `run_id` is also the context's, and the world.
pub record State (t : Types) (W : Type 0) : Type 0 where
  pub messages : List (ModelRequest t)
  pub responses : List (ModelResponse t)
  pub usage : RunUsage
  pub step : ℕ
  pub output_retries : ℕ
  pub final_output : Option t.Output
  pub finished : Bool
  pub finish_reason : Option FinishReason
  pub world : W

-- How an action ends that does not return: with an error, in a panic, or never.
pub data Failure (t : Types) : Type 0 where
  failed : AgentRunError t → Failure t
  panics : Failure t
  hangs : Failure t

abbrev pub Outcome : Types → Type 0 → Type 0 → Type 0
Outcome t W A = Result A (Failure t) × State t W

abbrev pub M : Types → Type 0 → Type 0 → Type 0
M t W A = State t W → Outcome t W A

module _ {t : Types} {W : Type 0} where
  -- The rest of a block, after what its first action came to.
  abbrev pub and_then : {A B : Type 0} → Outcome t W A → (A → M t W B) → Outcome t W B
  and_then (ok a, s) f = f a s
  and_then (err e, s) f = (err e, s)

  infixl 5 ◌>>=◌ ◌>>◌
  abbrev pub ◌>>=◌ : {A B : Type 0} → M t W A → (A → M t W B) → M t W B
  ◌>>=◌ m f s = and_then (m s) f

  abbrev pub ◌>>◌ : {B : Type 0} → M t W (Unit {0}) → M t W B → M t W B
  m >> k = m >>= λ _. k

  abbrev pub pure : {A : Type 0} → A → M t W A
  pure a s = (ok a, s)

  abbrev pub raise : {A : Type 0} → AgentRunError t → M t W A
  raise e s = (err (failed e), s)

  abbrev pub get : M t W (State t W)
  get s = (ok s, s)

  abbrev pub modify : (State t W → State t W) → M t W (Unit {0})
  modify f s = (ok tt, f s)

  -- A call that changes the world alone.
  abbrev pub outside : {A : Type 0} → (W → A × W) → M t W A
  outside f s = (ok ((f s.world).0), record s { world = (f s.world).1 })

  -- `to_json`, whose faults end the run.
  abbrev pub no_fault : {A : Type 0} → Result A Fault → M t W A
  no_fault (ok a) s = (ok a, s)
  no_fault (err e) s = (err panics, s)

  unfoldable pub find_tool : List (RegisteredTool t W) → String → Option (RegisteredTool t W)
  find_tool [] name = none
  find_tool (tool ∷ tools) name =
      if tool.definition.name == name then some tool else find_tool tools name

  unfoldable pub is_output_tool : Agent t W → String → Bool
  is_output_tool a name = elim a.output_schema.tool_name [ none ↦ false | some n ↦ n == name ]
