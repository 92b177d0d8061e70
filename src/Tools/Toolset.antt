-- ===== src/Tools/Toolset.antt =====
-- The trait `AbstractToolset` of serdes-ai-toolsets/src/abstract_toolset.rs, over the tool definitions
-- and errors of serdes-ai-tools. A toolset answers as its code does at the time of the call; `enter`
-- and `exit` are left out.
use serdes_ai.Prelude.{ℕ, String, Bool, Option, List, [], ◌∷◌, string_key}
use serdes_ai.Prelude.Map.{Map}
use serdes_ai.Prelude.Result.{Result}
use Prim.Native.String as Str

-- What the toolsets pass on without looking into it.
pub record Types : Type 1 where
  pub RunContext : Type 0
  pub Json : Type 0
  pub ToolReturn : Type 0
  pub ValidationError : Type 0
  pub JsonError : Type 0
  pub AnyError : Type 0

pub data ToolError (x : Types) : Type 0 where
  execution_failed : (message : String) (retryable : Bool) → ToolError x
  not_found : String → ToolError x
  model_retry : String → ToolError x
  approval_required : (tool_name : String) (args : x.Json) → ToolError x
  call_deferred : (tool_name : String) (args : x.Json) → ToolError x
  timeout : ℕ → ToolError x
  validation_failed : (tool_name : String) (errors : List x.ValidationError) → ToolError x
  cancelled : ToolError x
  tool_returned_error : String → ToolError x
  json : x.JsonError → ToolError x
  other : x.AnyError → ToolError x

pub record ToolDefinition (x : Types) : Type 0 where
  pub name : String
  pub description : String
  pub parameters_json_schema : x.Json
  pub strict : Option Bool
  pub outer_typed_dict_key : Option String

pub record ToolsetTool (x : Types) : Type 0 where
  pub toolset_id : Option String
  pub tool_def : ToolDefinition x
  pub max_retries : ℕ

-- `tool.tool_def.name = name`
abbrev pub renamed : {x : Types} → String → ToolsetTool x → ToolsetTool x
renamed name tool = record tool { tool_def = record tool.tool_def { name = name } }

pub record Toolset (x : Types) : Type 0 where
  pub id : Option String
  pub label : String
  pub get_tools : x.RunContext → Result (Map String (ToolsetTool x)) (ToolError x)
  pub call_tool :
      (name : String) → x.Json → x.RunContext → ToolsetTool x → Result x.ToolReturn (ToolError x)

-- `join(separator)`
abbrev pub join : String → List String → String
join separator [] = ""
join separator (s ∷ []) = s
join separator (s ∷ rest) = Str.◌++◌ s (Str.◌++◌ separator (join separator rest))
