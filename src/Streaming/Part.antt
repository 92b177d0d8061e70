-- ===== src/Streaming/Part.antt =====
-- The parts of a response and the stream events (serdes-ai-core/src/messages), and the accumulators
-- of serdes-ai-streaming/src/parts_manager.rs. `serde_json` is a parameter: its values, its maps (the
-- provider details), its parser and its printer. So is the content of a file.
use serdes_ai.Prelude.{ℕ, String, Bool, true, false, Option, none, some, [], is_some}
use serdes_ai.Streaming.Text.{Text}

pub record Json : Type 1 where
  pub Value : Type 0
  pub Details : Type 0
  pub Binary : Type 0
  -- `from_str`, and `to_string(v).unwrap_or_default()`
  pub from_str : Text → Option Value
  pub to_string_or_default : Value → Text

pub data ToolCallArgs (j : Json) : Type 0 where
  json : j.Value → ToolCallArgs j
  string : Text → ToolCallArgs j

pub record TextPart (j : Json) : Type 0 where
  pub content : Text
  pub id : Option String
  pub provider_details : Option j.Details

pub record ThinkingPart (j : Json) : Type 0 where
  pub content : Text
  pub id : Option String
  pub signature : Option String
  pub provider_name : Option String
  pub provider_details : Option j.Details

pub record ToolCallPart (j : Json) : Type 0 where
  pub tool_name : String
  pub args : ToolCallArgs j
  pub tool_call_id : Option String
  pub id : Option String
  pub provider_details : Option j.Details

pub record FilePart (j : Json) : Type 0 where
  pub content : j.Binary
  pub id : Option String
  pub provider_name : Option String
  pub provider_details : Option j.Details

-- `BuiltinToolCallPart` has the fields of `ToolCallPart`, and their accumulators are alike too.
abbrev pub BuiltinToolCallPart : Json → Type 0
BuiltinToolCallPart = ToolCallPart

pub data ModelResponsePart (j : Json) : Type 0 where
  text : TextPart j → ModelResponsePart j
  tool_call : ToolCallPart j → ModelResponsePart j
  thinking : ThinkingPart j → ModelResponsePart j
  file : FilePart j → ModelResponsePart j
  builtin_tool_call : BuiltinToolCallPart j → ModelResponsePart j

-- The deltas that the manager emits hold text alone: their other fields are `None`.
pub data Delta : Type 0 where
  text_delta tool_call_delta thinking_delta builtin_tool_call_delta : Text → Delta

-- The two kinds of event that the manager emits.
pub data Event (j : Json) : Type 0 where
  part_start : ℕ → ModelResponsePart j → Event j
  part_delta : ℕ → Delta → Event j

pub record ToolCallAccumulator (j : Json) : Type 0 where
  pub tool_name : Option String
  pub args_buffer : Text
  pub tool_call_id : Option String
  pub id : Option String
  pub provider_details : Option j.Details

abbrev pub BuiltinToolCallAccumulator : Json → Type 0
BuiltinToolCallAccumulator = ToolCallAccumulator

pub data ManagedPart (j : Json) : Type 0 where
  text : TextPart j → ManagedPart j
  thinking : ThinkingPart j → ManagedPart j
  tool_call : ToolCallPart j → ManagedPart j
  tool_call_accumulating : ToolCallAccumulator j → ManagedPart j
  file : FilePart j → ManagedPart j
  builtin_tool_call : BuiltinToolCallPart j → ManagedPart j
  builtin_tool_call_accumulating : BuiltinToolCallAccumulator j → ManagedPart j

module _ {j : Json} where
  -- `From<String>`
  unfoldable pub args_from : Text → ToolCallArgs j
  args_from s = elim (j.from_str s) [ some v ↦ json v | none ↦ string s ]

  -- `to_json_string().unwrap_or_default()`
  unfoldable pub args_text : ToolCallArgs j → Text
  args_text (json v) = j.to_string_or_default v
  args_text (string s) = s

  unfoldable pub to_tool_call_part : ToolCallAccumulator j → Option (ToolCallPart j)
  unfolding args_from
  to_tool_call_part acc = elim acc.tool_name [
    | none ↦ none
    | some name ↦ some (record {
      tool_name = name;
      args = args_from acc.args_buffer;
      tool_call_id = acc.tool_call_id;
      id = acc.id;
      provider_details = acc.provider_details;
    })
  ]

  unfoldable pub has_tool_name : ToolCallAccumulator j → Bool
  has_tool_name acc = is_some acc.tool_name

  abbrev pub new_accumulator : ToolCallAccumulator j
  new_accumulator = record {
    tool_name = none;
    args_buffer = [];
    tool_call_id = none;
    id = none;
    provider_details = none;
  }

  unfoldable pub is_text : ManagedPart j → Bool
  is_text (ManagedPart.text p) = true
  is_text _ = false

  unfoldable pub is_thinking : ManagedPart j → Bool
  is_thinking (ManagedPart.thinking p) = true
  is_thinking _ = false

  unfoldable pub is_tool_call : ManagedPart j → Bool
  is_tool_call (ManagedPart.tool_call p) = true
  is_tool_call (ManagedPart.tool_call_accumulating p) = true
  is_tool_call _ = false

  unfoldable pub is_file : ManagedPart j → Bool
  is_file (ManagedPart.file p) = true
  is_file _ = false

  unfoldable pub is_builtin_tool_call : ManagedPart j → Bool
  is_builtin_tool_call (ManagedPart.builtin_tool_call p) = true
  is_builtin_tool_call (ManagedPart.builtin_tool_call_accumulating p) = true
  is_builtin_tool_call _ = false

  unfoldable pub to_response_part : ManagedPart j → Option (ModelResponsePart j)
  unfolding to_tool_call_part
  to_response_part (ManagedPart.text p) = some (ModelResponsePart.text p)
  to_response_part (ManagedPart.thinking p) = some (ModelResponsePart.thinking p)
  to_response_part (ManagedPart.tool_call p) = some (ModelResponsePart.tool_call p)
  to_response_part (ManagedPart.tool_call_accumulating acc) = elim (to_tool_call_part acc) [
    | none ↦ none
    | some p ↦ some (ModelResponsePart.tool_call p)
  ]
  to_response_part (ManagedPart.file p) = some (ModelResponsePart.file p)
  to_response_part (ManagedPart.builtin_tool_call p) = some (ModelResponsePart.builtin_tool_call p)
  to_response_part (ManagedPart.builtin_tool_call_accumulating acc) = elim (to_tool_call_part acc) [
    | none ↦ none
    | some p ↦ some (ModelResponsePart.builtin_tool_call p)
  ]
