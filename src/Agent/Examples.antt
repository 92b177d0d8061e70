-- ===== src/Agent/Examples.antt =====
-- A run with one tool, and the theorems about runs at it.
use serdes_ai.Prelude.{
  ℕ, zero, suc, ◌≡◌, refl, ap, sym, String, true, false, none, some, List, [], ◌∷◌, inl, arith,
}
use serdes_ai.Prelude.Result.{Result, ok, err}
use serdes_ai.Prelude.Words.{add64}
use serdes_ai.Usage.{RequestUsage}
use serdes_ai.Models.Error.{Foreign, ModelError, Texts}
use serdes_ai.Streaming.Text.{Text, is_blank}
use serdes_ai.Streaming.Part.{
  Json, ModelResponsePart, ToolCallPart, ToolCallArgs, json, string, text, tool_call,
}
use serdes_ai.Repair.{Objects, to_json}
use serdes_ai.Agent.Types.{
  Types, RunContext, FinishReason, ModelResponse, request_of, user_prompt, system_prompt,
  model_response, tool_return,
}
use serdes_ai.Agent.Limits.{no_limits, new_usage, add_request, check_all}
use serdes_ai.Agent.State.{
  RegisteredTool, EndStrategy, Agent, Runtime, State, find_tool, is_output_tool,
}
use serdes_ai.Agent.Tools.{Returned, not_found, execute_tool_calls}
use serdes_ai.Agent.Run.{step}
use serdes_ai.Agent.Run.Acted.{Validated}
use serdes_ai.Agent.Run.Complete.{AgentRunResult, new, run_to_completion}
use serdes_ai.Agent.Run.Complete.Output.{Some, run-Validated}
use serdes_ai.Agent.Run.Complete.Log.{Log}
use serdes_ai.Agent.Run.Complete.Ends.{Ends, run_to_completion-Ends}

-- Values are numbers, all of them objects, and no text is parsed.
abbrev numbers : Json
numbers = record {
  Value = ℕ;
  Details = Unit;
  Binary = Unit;
  from_str = λ s. none;
  to_string_or_default = λ v. [];
}

abbrev number_objects : Objects numbers
number_objects = record {
  is_object = λ v. true;
  value_object = λ v. v;
  parse_failed_object = λ s. 0;
}

abbrev plain : Foreign
plain = record { JsonError = Unit; AnyError = Unit }

abbrev texts : Texts plain
texts = record {
  decimal = λ n. "n";
  debug_duration = λ d. "30s";
  eq_ignore_ascii_case = λ a b. false;
  parse_u64 = λ s. none;
  json_to_string = λ e. "json";
  any_to_string = λ e. "any";
  to_string = λ e. "error";
}

abbrev sample : Types
sample = record {
  json = numbers;
  objects = number_objects;
  foreign = plain;
  texts = texts;
  Deps = Unit;
  Output = Text;
  UserContent = String;
  ToolReturn = ℕ;
  ReturnContent = ℕ;
  ModelSettings = Unit;
  ValidationError = Unit;
  content = λ r. r;
}

abbrev used : RequestUsage ℕ
used = record {
  request_tokens = some 5;
  response_tokens = some 2;
  total_tokens = none;
  cache_creation_tokens = none;
  cache_read_tokens = none;
  details = none;
}

abbrev response_of : List (ModelResponsePart numbers) → FinishReason → ModelResponse sample
response_of parts reason = record {
  parts = parts;
  model_name = none;
  finish_reason = some reason;
  usage = some used;
  vendor_id = none;
  vendor_details = none;
  kind = "response";
}

abbrev call_with : ToolCallArgs numbers → ToolCallPart numbers
call_with args = record {
  tool_name = "add";
  args = args;
  tool_call_id = some "c1";
  id = none;
  provider_details = none;
}

abbrev hi : Text
hi = 104 ∷ 105 ∷ []

-- The first answer calls the tool, with arguments that are no JSON, and any other is a text.
abbrev answer_of : ℕ → ModelResponse sample
answer_of zero = response_of (tool_call (call_with (string (123 ∷ []))) ∷ []) FinishReason.tool_call
answer_of (suc n) =
    response_of (text (record { content = hi; id = none; provider_details = none }) ∷ [])
      FinishReason.stop

-- The world counts the requests.
abbrev add_tool : RegisteredTool sample ℕ
add_tool = record {
  definition = record {
    name = "add";
    description = "";
    parameters_json_schema = 0;
    strict = none;
    outer_typed_dict_key = none;
  };
  execute = λ args ctx w. (ok 7, w);
  max_retries = 1;
}

abbrev agent : Agent sample ℕ
agent = record {
  request = λ messages settings tools w. (ok (answer_of w), suc w);
  model_name = "test";
  model_settings = tt;
  static_system_prompt = "";
  instruction_fns = [];
  system_prompt_fns = [];
  tools = add_tool ∷ [];
  cached_tool_defs = add_tool.definition ∷ [];
  output_schema = record {
    tool_name = none;
    parse_text = λ s. ok s;
    parse_tool_call = λ name args. err (serdes_ai.Agent.Types.OutputParseError.tool_not_called);
  };
  output_validators = (λ output ctx w. (ok (33 ∷ output), w)) ∷ [];
  end_strategy = EndStrategy.early;
  max_output_retries = 1;
  usage_limits = some (record no_limits { max_requests = some 5 });
  history_processors = [];
  parallel_tool_calls = true;
  max_concurrent_tools = some 2;
}

abbrev ctx : RunContext sample
ctx = record {
  deps = tt;
  run_id = "run";
  model_name = "test";
  model_settings = tt;
  tool_name = none;
  tool_call_id = none;
  retry_count = 0;
  metadata = none;
}

abbrev runtime : Runtime sample ℕ
runtime = record {
  cancel_token = none;
  elapsed_seconds = λ w. w;
  schedule = λ w. 0 ∷ [];
  display_tool_error = λ e. "failed";
}

abbrev result : AgentRunResult sample
result = record {
  output = 33 ∷ hi;
  messages =
      request_of (user_prompt "hello" ∷ [])
      ∷ request_of (
          model_response (response_of (tool_call (call_with (json 0)) ∷ []) FinishReason.tool_call)
          ∷ [])
      ∷ request_of
          (tool_return (record { tool_name = "add"; content = 7; tool_call_id = some "c1" }) ∷ [])
      ∷ [];
  responses =
      response_of (tool_call (call_with (json 0)) ∷ []) FinishReason.tool_call ∷ answer_of 1 ∷ [];
  usage = record new_usage {
    request_tokens = 10;
    response_tokens = 4;
    total_tokens = 14;
    request_count = 2;
    tool_call_count = 1;
  };
  run_id = "run";
  finish_reason = FinishReason.stop;
  metadata = none;
}

usage_of :
    (w : ℕ) (answer : ModelResponse sample)
    → ◌≡◌ {A = Result (ModelResponse sample) (ModelError plain)} (ok (answer_of w)) (ok answer)
    → (u : RequestUsage ℕ) × (answer.usage ≡ some u)
usage_of zero answer e = (used, ap (λ r. elim r [ ok x ↦ x.usage | err y ↦ none ]) (sym e))
usage_of (suc n) answer e = (used, ap (λ r. elim r [ ok x ↦ x.usage | err y ↦ none ]) (sym e))

abbrev begun : State sample ℕ
begun = new agent none "hello" ctx 0

run_returns : run_to_completion agent ctx runtime none 3 begun ≡ some (ok result)
unfolding run_to_completion step new check_all to_json is_output_tool find_tool is_blank
    execute_tool_calls add_request add64
run_returns = refl

run-Validated_example :
    Some (λ response. Validated agent ctx runtime response (33 ∷ hi)) result.responses
run-Validated_example = run-Validated agent ctx runtime none none "hello" 0 3 result run_returns

run_to_completion-Ends_example :
    Ends agent ctx runtime none 5 (run_to_completion agent ctx runtime none 7 begun)
run_to_completion-Ends_example =
    run_to_completion-Ends agent ctx runtime none 5
      (record no_limits { max_requests = some 5 }, refl, inl refl) (omega arith)
      (λ messages settings tools w answer e. usage_of w answer e) (λ e. cc e) none "hello" 0

abbrev two_calls : List (ToolCallPart numbers)
two_calls = call_with (json 3) ∷ record (call_with (json 4)) { tool_name = "other" } ∷ []

abbrev two_results : List (Returned sample)
two_results = ("add", some "c1", ok 7) ∷ ("other", some "c1", not_found "other") ∷ []
