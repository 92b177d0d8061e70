-- ===== src/History/Pairs.antt =====
-- Orphaned tool calls and results (serdes-ai-agent/src/history.rs). A set of IDs is a list.
pub mod Laws
pub mod Orphans
use serdes_ai.Prelude.{
  String, Bool, true, not, ◌&&◌, Option, none, some, List, [], ◌∷◌, ◌++◌, map, retain, filter_map,
  flat_map, contains, string_key, ◌==◌,
}
use serdes_ai.History.Message.{
  ModelResponse, ModelResponsePart, ModelRequest, ModelRequestPart, system_prompt, user_prompt,
  tool_return, retry_prompt, builtin_tool_return, model_response,
}

abbrev pub to_list : Option String → List String
to_list none = []
to_list (some id) = id ∷ []

-- `id.as_ref().map_or(true, |id| valid_ids.contains(id))`
abbrev pub none_or_valid : Option String → List String → Bool
none_or_valid none valid_ids = true
none_or_valid (some id) valid_ids = contains id valid_ids

module _ {C : Type 0} where
  pub response_use_ids : ModelResponsePart C → List String
  response_use_ids (ModelResponsePart.tool_call id c) = to_list id
  response_use_ids (ModelResponsePart.builtin_tool_call id c) = to_list id
  response_use_ids _ = []

  pub use_ids : ModelRequestPart C → List String
  unfolding response_use_ids
  use_ids (model_response response) = flat_map response_use_ids response.parts
  use_ids _ = []

  pub result_ids : ModelRequestPart C → List String
  result_ids (tool_return id c) = to_list id
  result_ids (builtin_tool_return id c) = id ∷ []
  result_ids (retry_prompt id c) = to_list id
  result_ids _ = []

  abbrev pub extract_tool_use_ids : ModelRequest C → List String
  extract_tool_use_ids message = flat_map use_ids message.parts

  abbrev pub extract_tool_result_ids : ModelRequest C → List String
  extract_tool_result_ids message = flat_map result_ids message.parts

  abbrev pub collect_all_tool_use_ids : List (ModelRequest C) → List String
  collect_all_tool_use_ids = flat_map extract_tool_use_ids

  abbrev pub collect_all_tool_result_ids : List (ModelRequest C) → List String
  collect_all_tool_result_ids = flat_map extract_tool_result_ids

  pub keeps_result : List String → ModelRequestPart C → Bool
  keeps_result valid_ids (tool_return id c) = none_or_valid id valid_ids
  keeps_result valid_ids (builtin_tool_return id c) = not (id == "") && contains id valid_ids
  keeps_result valid_ids (retry_prompt id c) = none_or_valid id valid_ids
  keeps_result valid_ids _ = true

  pub keeps_use : List String → ModelResponsePart C → Bool
  keeps_use valid_ids (ModelResponsePart.tool_call id c) = none_or_valid id valid_ids
  keeps_use valid_ids (ModelResponsePart.builtin_tool_call none c) = true
  keeps_use valid_ids (ModelResponsePart.builtin_tool_call (some id) c) =
      not (id == "") && contains id valid_ids
  keeps_use valid_ids _ = true

  -- Only a response that still has parts is kept.
  non_empty_response : ModelResponse C → Option (ModelRequestPart C)
  non_empty_response response = elim response.parts [
    | [] ↦ none
    | p ∷ ps ↦ some (model_response response)
  ]

  pub without_uses : List String → ModelRequestPart C → Option (ModelRequestPart C)
  unfolding keeps_use non_empty_response
  without_uses valid_ids (model_response response) =
      non_empty_response (record response { parts = retain (keeps_use valid_ids) response.parts })
  without_uses valid_ids part = some part

  -- Only a message that still has parts is kept.
  unfoldable pub non_empty : ModelRequest C → Option (ModelRequest C)
  non_empty msg = elim msg.parts [ [] ↦ none | p ∷ ps ↦ some msg ]

  -- The parts of every message are changed.
  unfoldable pub with_parts :
      (List (ModelRequestPart C) → List (ModelRequestPart C))
      → List (ModelRequest C)
      → List (ModelRequest C)
  unfolding non_empty
  with_parts change = filter_map (λ msg. non_empty (record msg { parts = change msg.parts }))

  abbrev pub remove_orphaned_tool_results :
      List (ModelRequest C) → List String → List (ModelRequest C)
  remove_orphaned_tool_results messages valid_tool_ids =
      with_parts (retain (keeps_result valid_tool_ids)) messages

  abbrev pub remove_orphaned_tool_uses : List (ModelRequest C) → List String → List (ModelRequest C)
  remove_orphaned_tool_uses messages valid_result_ids =
      with_parts (filter_map (without_uses valid_result_ids)) messages

  -- What the two truncating processors do at their end.
  unfoldable pub remove_orphans : List (ModelRequest C) → List (ModelRequest C)
  unfolding use_ids result_ids keeps_result without_uses with_parts
  remove_orphans messages =
      let result = remove_orphaned_tool_results messages (collect_all_tool_use_ids messages) in
      remove_orphaned_tool_uses result (collect_all_tool_result_ids result)
