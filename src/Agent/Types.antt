-- ===== src/Agent/Types.antt =====
-- The data of an agent run: messages (serdes-ai-core/src/messages), the run's context
-- (serdes-ai-agent/src/context.rs), its errors (errors.rs), and the agent itself (agent.rs). `W` is
-- the world outside of the program, which the model, the tools and other callbacks change. The
-- timestamps of messages and parts are left out.
use serdes_ai.Prelude.{ℕ, String, Bool, true, false, Option, none, some, List}
use serdes_ai.Usage.{RequestUsage}
use serdes_ai.Models.Error.{Foreign, ModelError, Texts, model_failure}
use serdes_ai.Models.Failure.{is_retryable_failure}
use serdes_ai.Streaming.Part.{Json, ModelResponsePart}
use serdes_ai.Repair.{Objects}
use serdes_ai.Tools.Toolset as Toolset
use serdes_ai.Tools.Toolset.{ToolError, ToolDefinition}
use Prim.Native.String as Str

-- What a run passes on, and the calls of other packages on it.
pub record Types : Type 1 where
  pub json : Json
  pub objects : Objects json
  pub foreign : Foreign
  pub texts : Texts foreign
  pub Deps : Type 0
  pub Output : Type 0
  pub UserContent : Type 0
  pub ToolReturn : Type 0
  pub ReturnContent : Type 0
  pub ModelSettings : Type 0
  pub ValidationError : Type 0
  pub content : ToolReturn → ReturnContent

pub record RunContext (t : Types) : Type 0 where
  pub deps : t.Deps
  pub run_id : String
  pub model_name : String
  pub model_settings : t.ModelSettings
  pub tool_name : Option String
  pub tool_call_id : Option String
  pub retry_count : ℕ
  pub metadata : Option t.json.Value

abbrev pub for_tool : {t : Types} → RunContext t → String → Option String → RunContext t
for_tool ctx tool_name tool_call_id = record ctx {
  tool_name = some tool_name;
  tool_call_id = tool_call_id;
  retry_count = 0;
}

-- The types of a toolset's errors and definitions.
abbrev pub tool_types : Types → Toolset.Types
tool_types t = record {
  RunContext = RunContext t;
  Json = t.json.Value;
  ToolReturn = t.ToolReturn;
  ValidationError = t.ValidationError;
  JsonError = t.foreign.JsonError;
  AnyError = t.foreign.AnyError;
}

abbrev pub RunToolError : Types → Type 0
RunToolError t = ToolError (tool_types t)

pub data FinishReason : Type 0 where
  stop length content_filter tool_call error end_turn stop_sequence : FinishReason

-- `response.finish_reason == Some(FinishReason::Stop)`
abbrev pub is_stop : Option FinishReason → Bool
is_stop none = false
is_stop (some FinishReason.stop) = true
is_stop (some _) = false

pub record ModelResponse (t : Types) : Type 0 where
  pub parts : List (ModelResponsePart t.json)
  pub model_name : Option String
  pub finish_reason : Option FinishReason
  pub usage : Option (RequestUsage t.json.Value)
  pub vendor_id : Option String
  pub vendor_details : Option t.json.Value
  pub kind : String

pub record ToolReturnPart (t : Types) : Type 0 where
  pub tool_name : String
  pub content : t.ReturnContent
  pub tool_call_id : Option String

pub record RetryPromptPart : Type 0 where
  pub content : String
  pub tool_name : Option String
  pub tool_call_id : Option String

pub data ModelRequestPart (t : Types) : Type 0 where
  system_prompt : String → ModelRequestPart t
  user_prompt : t.UserContent → ModelRequestPart t
  tool_return : ToolReturnPart t → ModelRequestPart t
  retry_prompt : RetryPromptPart → ModelRequestPart t
  builtin_tool_return : String → t.ReturnContent → ModelRequestPart t
  model_response : ModelResponse t → ModelRequestPart t

pub record ModelRequest (t : Types) : Type 0 where
  pub parts : List (ModelRequestPart t)
  pub kind : String

-- `ModelRequest::new()` with its parts pushed.
abbrev pub request_of : {t : Types} → List (ModelRequestPart t) → ModelRequest t
request_of parts = record { parts = parts; kind = "request" }

pub data OutputValidationError : Type 0 where
  validation_failed : (message : String) (field : Option String) → OutputValidationError
  custom : String → OutputValidationError
  type_mismatch : (expected actual : String) → OutputValidationError
  missing_field : String → OutputValidationError

pub retry_message : OutputValidationError → String
retry_message (validation_failed message (some field)) =
    Str.◌++◌ "Validation failed for field '" (Str.◌++◌ field (Str.◌++◌ "': " message))
retry_message (validation_failed message none) = Str.◌++◌ "Validation failed: " message
retry_message (custom message) = message
retry_message (type_mismatch expected actual) =
    Str.◌++◌ "Type mismatch: expected " (Str.◌++◌ expected (Str.◌++◌ ", got " actual))
retry_message (missing_field field) = Str.◌++◌ "Missing required field: " field

pub data OutputParseError (t : Types) : Type 0 where
  json : t.foreign.JsonError → OutputParseError t
  not_found : OutputParseError t
  tool_not_called : OutputParseError t
  invalid_format : String → OutputParseError t
  schema_mismatch : String → OutputParseError t

pub data UsageLimitError : Type 0 where
  request_tokens response_tokens total_tokens : (used limit : ℕ) → UsageLimitError
  request_count tool_calls : (count limit : ℕ) → UsageLimitError
  time_limit : (elapsed_seconds limit_seconds : ℕ) → UsageLimitError

pub data AgentRunError (t : Types) : Type 0 where
  model : ModelError t.foreign → AgentRunError t
  tool : RunToolError t → AgentRunError t
  output_validation_failed : OutputValidationError → AgentRunError t
  output_parse_failed : OutputParseError t → AgentRunError t
  usage_limit_exceeded : UsageLimitError → AgentRunError t
  unexpected_stop : AgentRunError t
  no_output : AgentRunError t
  max_retries_exceeded : String → AgentRunError t
  serialization : t.foreign.JsonError → AgentRunError t
  configuration : String → AgentRunError t
  cancelled : AgentRunError t
  timeout : ℕ → AgentRunError t
  provider : String → AgentRunError t
  other : t.foreign.AnyError → AgentRunError t

unfoldable pub is_retryable_tool_error : {t : Types} → RunToolError t → Bool
is_retryable_tool_error (ToolError.execution_failed message retryable) = retryable
is_retryable_tool_error (ToolError.model_retry _) = true
is_retryable_tool_error (ToolError.timeout _) = true
is_retryable_tool_error _ = false

is_retryable_run_error : {t : Types} → AgentRunError t → Bool
unfolding is_retryable_tool_error
is_retryable_run_error {t} (model e) = is_retryable_failure (model_failure t.texts e)
is_retryable_run_error (tool e) = is_retryable_tool_error e
is_retryable_run_error (usage_limit_exceeded _) = false
is_retryable_run_error cancelled = false
is_retryable_run_error (timeout _) = false
is_retryable_run_error (max_retries_exceeded _) = false
is_retryable_run_error _ = true
