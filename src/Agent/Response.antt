-- ===== src/Agent/Response.antt =====
-- What a run does with a response and with the results of its calls, apart from the run's state: the
-- canonical arguments, the search for calls and an output, and the parts of the messages that answer
-- (serdes-ai-agent/src/run.rs).
pub mod Found
use serdes_ai.Prelude.{
  String, Bool, true, false, Option, none, some, List, [], ◌∷◌, ◌++◌, if◌then◌else◌,
}
use serdes_ai.Prelude.Result.{Result, ok, err, ◌>>=◌}
use serdes_ai.Streaming.Text.{Text, is_empty}
use serdes_ai.Streaming.Part.{ModelResponsePart, ToolCallPart, text, tool_call, json}
use serdes_ai.Repair.{Fault, to_json}
use serdes_ai.Agent.Types.{
  Types, RunToolError, ModelResponse, ModelRequest, ModelRequestPart, request_of, tool_return,
  retry_prompt, model_response,
}
use serdes_ai.Agent.State.{Agent, is_output_tool}
use serdes_ai.Agent.Tools.{Returned}
use Prim.Native.String as Str

module _ (t : Types) where
  -- The loop of `canonicalize_tool_call_args_in_response`
  pub canonical_parts :
      List (ModelResponsePart t.json) → Result (List (ModelResponsePart t.json)) Fault
  canonical_parts [] = ok []
  canonical_parts (tool_call tc ∷ parts) = do
    repaired ← to_json t.objects tc.args
    rest ← canonical_parts parts
    ok (tool_call (record tc { args = json repaired }) ∷ rest)
  canonical_parts (part ∷ parts) = do rest ← canonical_parts parts; ok (part ∷ rest)

  unfoldable pub canonical : ModelResponse t → Result (ModelResponse t) Fault
  unfolding canonical_parts
  canonical response = do
    parts ← canonical_parts response.parts
    ok (record response { parts = parts })

  -- The content of the first text part that is not empty
  pub first_text : List (ModelResponsePart t.json) → Option Text
  first_text [] = none
  first_text (text p ∷ parts) = if is_empty p.content then first_text parts else some p.content
  first_text (part ∷ parts) = first_text parts

module _ {t : Types} where
  -- The parts that answer the calls.
  unfoldable pub return_part : (RunToolError t → String) → Returned t → ModelRequestPart t
  return_part display (name, id, ok ret) =
      tool_return (record { tool_name = name; content = t.content ret; tool_call_id = id })
  return_part display (name, id, err e) = retry_prompt (record {
    content = Str.◌++◌ "Tool error: " (display e);
    tool_name = some name;
    tool_call_id = id;
  })

  abbrev pub last : List (ModelResponse t) → Option (ModelResponse t)
  last [] = none
  last (r ∷ []) = some r
  last (r ∷ r' ∷ rs) = last (r' ∷ rs)

  -- A message, unless it has no parts
  abbrev pub push_parts : List (ModelRequestPart t) → List (ModelRequest t) → List (ModelRequest t)
  push_parts [] messages = messages
  push_parts (part ∷ parts) messages = messages ++ request_of (part ∷ parts) ∷ []

  abbrev pub push_response :
      Option (ModelResponse t) → List (ModelRequest t) → List (ModelRequest t)
  push_response none messages = messages
  push_response (some response) messages =
      messages ++ request_of (model_response response ∷ []) ∷ []

-- A response's parts: the calls to run, and the output found last.
abbrev pub Scanned : Types → Type 0
Scanned t = List (ToolCallPart t.json) × Option t.Output

-- The output that a text is parsed to, or else the one found before
abbrev pub or_parsed : {O E : Type 0} → Result O E → Option O → Option O
or_parsed (ok output) found = some output
or_parsed (err e) found = found

-- The call of an output tool is the output if its arguments are parsed; otherwise it is run.
abbrev pub output_or_call :
    {O E C : Type 0} → Result O E → C → List C × Option O → List C × Option O
output_or_call (ok output) tc scanned = (scanned.0, some output)
output_or_call (err e) tc scanned = (scanned.0 ++ tc ∷ [], scanned.1)

module _ {t : Types} {W : Type 0} (a : Agent t W) where
  scan_call : Bool → ToolCallPart t.json → Scanned t → Result (Scanned t) Fault
  scan_call true tc scanned = do
    args ← to_json t.objects tc.args
    ok (output_or_call (a.output_schema.parse_tool_call tc.tool_name args) tc scanned)
  scan_call false tc scanned = ok (scanned.0 ++ tc ∷ [], scanned.1)

  scan_part : ModelResponsePart t.json → Scanned t → Result (Scanned t) Fault
  unfolding scan_call
  scan_part (text p) scanned = ok (
    scanned.0,
    if is_empty p.content
        then scanned.1
        else or_parsed (a.output_schema.parse_text p.content) scanned.1,
  )
  scan_part (tool_call tc) scanned = scan_call (is_output_tool a tc.tool_name) tc scanned
  scan_part part scanned = ok scanned

  -- The loop over the parts in `process_response`
  unfoldable pub scan : List (ModelResponsePart t.json) → Scanned t → Result (Scanned t) Fault
  unfolding scan_part
  scan [] scanned = ok scanned
  scan (part ∷ parts) scanned = do later ← scan_part part scanned; scan parts later
