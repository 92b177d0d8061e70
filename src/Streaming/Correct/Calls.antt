-- ===== src/Streaming/Correct/Calls.antt =====
-- The deltas of tool calls and of built-in tool calls (serdes-ai-streaming/src/parts_manager.rs) never
-- panic, keep the indices in range, and leave every text as it is.
use serdes_ai.Prelude.{
  ℕ, String, ◌≡◌, refl, false, Option, none, some, List, [], ◌∷◌, length, get_elem?, sym,
}
use serdes_ai.Streaming.Part.{
  Json, ManagedPart, Event, part_start, part_delta, ToolCallAccumulator, ToolCallPart, is_tool_call,
  is_builtin_tool_call,
}
use serdes_ai.Streaming.Text.{Text}
use serdes_ai.Streaming.Manager.{VendorId, Manager, push_part, set_part}
use serdes_ai.Streaming.Handlers.{
  CallKind, handle_tool_call_delta, promote, opened, handle_builtin_tool_call_delta,
  update_accumulator, update_call, update_tool_call, update_builtin_tool_call, accumulate,
  tool_kind, builtin_kind,
}
use serdes_ai.Streaming.View.{
  IsValid, IsGood, receive, response_content, Local, Succeeds, succeeds, content_of,
  set_part-IsGood, IsGood-same,
}
use serdes_ai.Streaming.Valid.{pushed-IsGood, at_index-IsGood}
use serdes_ai.Streaming.Correct.{unchanged}

module _ {j : Json} where
  -- The parts and events of a call have no text.
  record IsSilent (c : CallKind j) : Type 0 where
    accumulating : (acc : ToolCallAccumulator j) → content_of (c.accumulating acc) ≡ none
    call : (p : ToolCallPart j) → content_of (c.call p) ≡ none
    part : (p : ToolCallPart j) → response_content (c.part p) ≡ none
    delta :
        (i : ℕ) (d : Text) (seen : ℕ → Option Text)
        → receive {j = j} (part_delta i (c.delta d)) seen ≡ seen

  tool_kind-IsSilent : IsSilent tool_kind
  tool_kind-IsSilent = record {
    accumulating = λ acc. refl;
    call = λ p. refl;
    part = λ p. refl;
    delta = λ i d seen. refl;
  }

  builtin_kind-IsSilent : IsSilent builtin_kind
  builtin_kind-IsSilent = record {
    accumulating = λ acc. refl;
    call = λ p. refl;
    part = λ p. refl;
    delta = λ i d seen. refl;
  }

  -- A part without text may be put at the index `i` of `m'`.
  Writable : Manager j → Manager j → ℕ → Type 0
  Writable m m' i =
      (q : ManagedPart j) (es : List (Event j))
      → Local i none (content_of q) es
      → IsGood m (set_part i q m') es

  module _ (c : CallKind j) (s : IsSilent c) (m m' : Manager j) (i : ℕ) where
    promote-IsGood :
        (acc : ToolCallAccumulator j) (o : Option (ToolCallPart j))
        → Writable m m' i
        → Succeeds (IsGood m) (promote c i m' acc o)
    unfolding promote Writable
    promote-IsGood acc none w = succeeds (w _ [] (unchanged i none _ (sym (s.accumulating acc))))
    promote-IsGood acc (some p) w =
        succeeds (w _ (part_start i (c.part p) ∷ []) (λ seen h k. rw (s.part p, s.call p) refl))

    update_accumulator-IsGood :
        (name : Option String) (args : Option Text) (call_id : Option String)
        (details : Option j.Details) (acc : ToolCallAccumulator j)
        → Writable m m' i
        → Succeeds (IsGood m) (update_accumulator c name args call_id details i m' acc)
    unfolding update_accumulator Writable
    update_accumulator-IsGood name args call_id details acc w =
        promote-IsGood (accumulate name args call_id details acc) _ w

    update_call-IsGood :
        (args : Option Text) (call_id : Option String) (details : Option j.Details)
        (p : ToolCallPart j)
        → Writable m m' i
        → Succeeds (IsGood m) (update_call c args call_id details i m' p)
    unfolding update_call Writable
    update_call-IsGood none call_id details p w =
        succeeds (w _ [] (unchanged i none _ (sym (s.call _))))
    update_call-IsGood (some d) call_id details p w = succeeds (
        w _ (part_delta i (c.delta d) ∷ [])
          (λ seen h k. rw (s.delta i d seen) (unchanged i none _ (sym (s.call _)) seen h k)))

  update_tool_call-IsGood :
      (m : Manager j) (name : Option String) (args : Option Text) (call_id : Option String)
      (details : Option j.Details) (i : ℕ) (p : ManagedPart j)
      → IsValid m
      → get_elem? m.parts i ≡ some p
      → Succeeds (IsGood m) (update_tool_call name args call_id details i false m p)
  unfolding update_tool_call Writable
  update_tool_call-IsGood m name args call_id details i (ManagedPart.tool_call_accumulating acc) v
        e =
      update_accumulator-IsGood tool_kind tool_kind-IsSilent m m i name args call_id details acc
        (λ q es. set_part-IsGood m i _ q es v e)
  update_tool_call-IsGood m name args call_id details i (ManagedPart.tool_call p) v e =
      update_call-IsGood tool_kind tool_kind-IsSilent m m i args call_id details p
        (λ q es. set_part-IsGood m i _ q es v e)
  update_tool_call-IsGood m name args call_id details i p v e = succeeds (IsGood-same m v)

  pub handle_tool_call_delta-IsGood :
      (m : Manager j) (vid : Option VendorId) (name : Option String) (args : Option Text)
      (call_id : Option String) (details : Option j.Details)
      → IsValid m
      → Succeeds (IsGood m) (handle_tool_call_delta vid name args call_id details m)
  unfolding handle_tool_call_delta update_tool_call Writable
  handle_tool_call_delta-IsGood m vid name args call_id details v =
      at_index-IsGood m vid is_tool_call (tool_kind.accumulating (opened call_id details))
        (update_tool_call name args call_id details) v
        (λ i p h. update_tool_call-IsGood m name args call_id details i p v h)
        (update_accumulator-IsGood tool_kind tool_kind-IsSilent m
          (push_part vid (tool_kind.accumulating (opened call_id details)) m) (length m.parts) name
          args call_id details (opened call_id details)
          (λ q es. pushed-IsGood m vid (tool_kind.accumulating (opened call_id details)) q es v))

  update_builtin_tool_call-IsGood :
      (m : Manager j) (name : Option String) (args : Option Text) (call_id : Option String)
      (details : Option j.Details) (i : ℕ) (p : ManagedPart j)
      → IsValid m
      → get_elem? m.parts i ≡ some p
      → Succeeds (IsGood m) (update_builtin_tool_call name args call_id details i false m p)
  unfolding update_builtin_tool_call Writable
  update_builtin_tool_call-IsGood m name args call_id details i
        (ManagedPart.builtin_tool_call_accumulating acc) v e =
      update_accumulator-IsGood builtin_kind builtin_kind-IsSilent m m i name args call_id details
        acc (λ q es. set_part-IsGood m i _ q es v e)
  update_builtin_tool_call-IsGood m name args call_id details i (ManagedPart.builtin_tool_call p) v
        e =
      update_call-IsGood builtin_kind builtin_kind-IsSilent m m i args call_id details p
        (λ q es. set_part-IsGood m i _ q es v e)
  update_builtin_tool_call-IsGood m name args call_id details i p v e = succeeds (IsGood-same m v)

  pub handle_builtin_tool_call_delta-IsGood :
      (m : Manager j) (vid : Option VendorId) (name : Option String) (args : Option Text)
      (call_id : Option String) (details : Option j.Details)
      → IsValid m
      → Succeeds (IsGood m) (handle_builtin_tool_call_delta vid name args call_id details m)
  unfolding handle_builtin_tool_call_delta update_builtin_tool_call Writable
  handle_builtin_tool_call_delta-IsGood m vid name args call_id details v =
      at_index-IsGood m vid is_builtin_tool_call
        (builtin_kind.accumulating (opened call_id details))
        (update_builtin_tool_call name args call_id details) v
        (λ i p h. update_builtin_tool_call-IsGood m name args call_id details i p v h)
        (update_accumulator-IsGood builtin_kind builtin_kind-IsSilent m
          (push_part vid (builtin_kind.accumulating (opened call_id details)) m) (length m.parts)
          name args call_id details (opened call_id details)
          (λ q es. pushed-IsGood m vid (builtin_kind.accumulating (opened call_id details)) q es v))
