-- ===== src/Streaming/Handlers.antt =====
-- The delta handlers of `ModelResponsePartsManager` (serdes-ai-streaming/src/parts_manager.rs).
use serdes_ai.Prelude.{
  ℕ, String, Bool, true, false, not, ◌&&◌, Option, none, some, [], ◌∷◌, ◌++◌, length, get_elem?,
  is_some, unwrap_or, if◌then◌else◌,
}
use serdes_ai.Prelude.Result.{ok, err}
use serdes_ai.Streaming.Part.{
  Json, ManagedPart, ToolCallPart, FilePart, ModelResponsePart, ToolCallAccumulator, part_start,
  part_delta, Delta, text_delta, thinking_delta, tool_call_delta, builtin_tool_call_delta,
  args_from, args_text, new_accumulator, is_text, is_thinking, is_tool_call, is_builtin_tool_call,
  has_tool_name, to_tool_call_part,
}
use serdes_ai.Streaming.Manager.{
  VendorId, Manager, Step, get_or_create_part_index, push_part, set_part, rposition,
}
use serdes_ai.Streaming.Text.{Text, index_out_of_bounds, is_empty, is_blank}

-- `if let Some(new) = new { field = Some(new) }`
abbrev pub or_else {ℓ} : {A : Type ℓ} → Option A → Option A → Option A
or_else (some a) old = some a
or_else none old = old

-- What differs between a call and a built-in call: the constructors and the events.
pub record CallKind (j : Json) : Type 0 where
  pub call : ToolCallPart j → ManagedPart j
  pub accumulating : ToolCallAccumulator j → ManagedPart j
  pub part : ToolCallPart j → ModelResponsePart j
  pub delta : Text → Delta

module _ {j : Json} where
  -- The part at an index that `get_or_create_part_index` gave.
  abbrev pub at_index :
      ℕ × Bool × Manager j → (ℕ → Bool → Manager j → ManagedPart j → Step j) → Step j
  at_index (idx, is_new, m) body = elim (get_elem? m.parts idx) [
    | none ↦ err index_out_of_bounds
    | some part ↦ body idx is_new m part
  ]

  -- `if let ManagedPart::Text(ref mut text_part) = self.parts[idx]`
  unfoldable pub update_text :
      Text → Option String → Option j.Details → ℕ → Bool → Manager j → ManagedPart j → Step j
  update_text content id details idx true m (ManagedPart.text p) =
      let q = record p { content = content } in
      ok (set_part idx (ManagedPart.text q) m, part_start idx (ModelResponsePart.text q) ∷ [])
  update_text content id details idx false m (ManagedPart.text p) = ok (
    set_part idx
        (ManagedPart.text (record {
          content = p.content ++ content;
          id = or_else id p.id;
          provider_details = or_else details p.provider_details;
        }))
        m,
    part_delta idx (text_delta content) ∷ [],
  )
  update_text content id details idx is_new m part = ok (m, [])

  -- `handle_text_delta` without thinking tags, which is `emit_text_delta`.
  unfoldable pub emit_text_delta :
      Option VendorId → Text → Option String → Option j.Details → Bool → Manager j → Step j
  unfolding update_text
  emit_text_delta vid content id details ignore_leading_whitespace m =
      if ignore_leading_whitespace
        && is_blank content
        && not (is_some vid)
        && not (is_some (rposition is_text m.parts))
      then ok (m, [])
      else at_index
          (get_or_create_part_index vid is_text
            (ManagedPart.text (record { content = []; id = id; provider_details = details })) m)
          (update_text content id details)

  unfoldable pub update_thinking :
      Text
      → Option String
      → Option String
      → Option String
      → Option j.Details
      → ℕ
      → Bool
      → Manager j
      → ManagedPart j
      → Step j
  update_thinking content id signature name details idx true m (ManagedPart.thinking p) =
      let q = record p { content = content } in
      ok (
        set_part idx (ManagedPart.thinking q) m,
        part_start idx (ModelResponsePart.thinking q) ∷ [],
      )
  update_thinking content id signature name details idx false m (ManagedPart.thinking p) = ok (
    set_part idx
        (ManagedPart.thinking (record {
          content = p.content ++ content;
          id = or_else id p.id;
          signature = or_else signature p.signature;
          provider_name = or_else name p.provider_name;
          provider_details = or_else details p.provider_details;
        }))
        m,
    (if is_empty content then [] else part_delta idx (thinking_delta content) ∷ []),
  )
  update_thinking content id signature name details idx is_new m part = ok (m, [])

  unfoldable pub handle_thinking_delta :
      Option VendorId
      → Option Text
      → Option String
      → Option String
      → Option String
      → Option j.Details
      → Manager j
      → Step j
  unfolding update_thinking
  handle_thinking_delta vid content id signature name details m =
      at_index
        (get_or_create_part_index vid is_thinking
          (ManagedPart.thinking (record {
            content = [];
            id = id;
            signature = signature;
            provider_name = name;
            provider_details = details;
          }))
          m)
        (update_thinking (unwrap_or content []) id signature name details)

  -- `emit_thinking_delta`
  abbrev emit_thinking_delta : Text → Manager j → Step j
  emit_thinking_delta content = handle_thinking_delta none (some content) none none none none

  -- The accumulator after a delta.
  unfoldable pub accumulate :
      Option String
      → Option Text
      → Option String
      → Option j.Details
      → ToolCallAccumulator j
      → ToolCallAccumulator j
  accumulate name args_delta call_id details acc = record acc {
    tool_name = or_else name acc.tool_name;
    args_buffer = acc.args_buffer ++ unwrap_or args_delta [];
    tool_call_id = or_else acc.tool_call_id call_id;
    provider_details = or_else details acc.provider_details;
  }

  -- The accumulator of a new part.
  abbrev pub opened : Option String → Option j.Details → ToolCallAccumulator j
  opened call_id details = record new_accumulator {
    tool_call_id = call_id;
    provider_details = details;
  }

  -- A complete call after a delta.
  unfoldable pub extend_call :
      Option Text → Option String → Option j.Details → ToolCallPart j → ToolCallPart j
  extend_call args_delta call_id details p = record p {
    args = elim args_delta [ none ↦ p.args | some delta ↦ args_from (args_text p.args ++ delta) ];
    tool_call_id = or_else p.tool_call_id call_id;
    provider_details = or_else details p.provider_details;
  }

  abbrev pub tool_kind : CallKind j
  tool_kind = record {
    call = ManagedPart.tool_call;
    accumulating = ManagedPart.tool_call_accumulating;
    part = ModelResponsePart.tool_call;
    delta = tool_call_delta;
  }

  abbrev pub builtin_kind : CallKind j
  builtin_kind = record {
    call = ManagedPart.builtin_tool_call;
    accumulating = ManagedPart.builtin_tool_call_accumulating;
    part = ModelResponsePart.builtin_tool_call;
    delta = builtin_tool_call_delta;
  }

  -- The updated accumulator stays one, or gives way to its call.
  unfoldable pub promote :
      CallKind j → ℕ → Manager j → ToolCallAccumulator j → Option (ToolCallPart j) → Step j
  promote k idx m acc none = ok (set_part idx (k.accumulating acc) m, [])
  promote k idx m acc (some p) = ok (set_part idx (k.call p) m, part_start idx (k.part p) ∷ [])

  -- The accumulator is updated, and becomes a call once it has a name that it did not have.
  unfoldable pub update_accumulator :
      CallKind j
      → Option String
      → Option Text
      → Option String
      → Option j.Details
      → ℕ
      → Manager j
      → ToolCallAccumulator j
      → Step j
  unfolding accumulate has_tool_name to_tool_call_part promote
  update_accumulator k name args_delta call_id details idx m acc =
      let acc' = accumulate name args_delta call_id details acc in
      promote k idx m acc' (if has_tool_name acc then none else to_tool_call_part acc')

  unfoldable pub update_call :
      CallKind j
      → Option Text
      → Option String
      → Option j.Details
      → ℕ
      → Manager j
      → ToolCallPart j
      → Step j
  unfolding extend_call
  update_call k args_delta call_id details idx m p = ok (
    set_part idx (k.call (extend_call args_delta call_id details p)) m,
    elim args_delta [ none ↦ [] | some delta ↦ part_delta idx (k.delta delta) ∷ [] ],
  )

  unfoldable pub update_tool_call :
      Option String
      → Option Text
      → Option String
      → Option j.Details
      → ℕ
      → Bool
      → Manager j
      → ManagedPart j
      → Step j
  unfolding update_accumulator update_call
  update_tool_call name args_delta call_id details idx is_new m
        (ManagedPart.tool_call_accumulating acc) =
      update_accumulator tool_kind name args_delta call_id details idx m acc
  update_tool_call name args_delta call_id details idx is_new m (ManagedPart.tool_call p) =
      update_call tool_kind args_delta call_id details idx m p
  update_tool_call name args_delta call_id details idx is_new m part = ok (m, [])

  unfoldable pub handle_tool_call_delta :
      Option VendorId
      → Option String
      → Option Text
      → Option String
      → Option j.Details
      → Manager j
      → Step j
  unfolding update_tool_call
  handle_tool_call_delta vid name args_delta call_id details m =
      at_index
        (get_or_create_part_index vid is_tool_call
          (ManagedPart.tool_call_accumulating (opened call_id details)) m)
        (update_tool_call name args_delta call_id details)

  unfoldable pub update_builtin_tool_call :
      Option String
      → Option Text
      → Option String
      → Option j.Details
      → ℕ
      → Bool
      → Manager j
      → ManagedPart j
      → Step j
  unfolding update_accumulator update_call
  update_builtin_tool_call name args_delta call_id details idx is_new m
        (ManagedPart.builtin_tool_call_accumulating acc) =
      update_accumulator builtin_kind name args_delta call_id details idx m acc
  update_builtin_tool_call name args_delta call_id details idx is_new m
        (ManagedPart.builtin_tool_call p) =
      update_call builtin_kind args_delta call_id details idx m p
  update_builtin_tool_call name args_delta call_id details idx is_new m part = ok (m, [])

  unfoldable pub handle_builtin_tool_call_delta :
      Option VendorId
      → Option String
      → Option Text
      → Option String
      → Option j.Details
      → Manager j
      → Step j
  unfolding update_builtin_tool_call
  handle_builtin_tool_call_delta vid name args_delta call_id details m =
      at_index
        (get_or_create_part_index vid is_builtin_tool_call
          (ManagedPart.builtin_tool_call_accumulating (opened call_id details)) m)
        (update_builtin_tool_call name args_delta call_id details)

  unfoldable pub handle_file_part : Option VendorId → FilePart j → Manager j → Step j
  handle_file_part vid part m = ok (
    push_part vid (ManagedPart.file part) m,
    part_start (length m.parts) (ModelResponsePart.file part) ∷ [],
  )
