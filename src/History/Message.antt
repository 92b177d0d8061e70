-- ===== src/History/Message.antt =====
-- The messages of a history (serdes-ai-core/src/messages/request.rs and response.rs), with what the
-- processors look at: the kinds of the parts and the IDs of tool calls. All else in a part, such as
-- its text, is one value of the parameter `C`.
use serdes_ai.Prelude.{String, Option, List}

pub data ModelResponsePart (C : Type 0) : Type 0 where
  text : C → ModelResponsePart C
  tool_call : Option String → C → ModelResponsePart C
  thinking : C → ModelResponsePart C
  file : C → ModelResponsePart C
  builtin_tool_call : Option String → C → ModelResponsePart C

pub record ModelResponse (C : Type 0) : Type 0 where
  pub parts : List (ModelResponsePart C)
  pub rest : C

pub data ModelRequestPart (C : Type 0) : Type 0 where
  system_prompt : C → ModelRequestPart C
  user_prompt : C → ModelRequestPart C
  tool_return : Option String → C → ModelRequestPart C
  retry_prompt : Option String → C → ModelRequestPart C
  builtin_tool_return : String → C → ModelRequestPart C
  model_response : ModelResponse C → ModelRequestPart C

pub record ModelRequest (C : Type 0) : Type 0 where
  pub parts : List (ModelRequestPart C)
  pub kind : String
