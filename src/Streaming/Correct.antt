-- ===== src/Streaming/Correct.antt =====
-- The delta handlers (serdes-ai-streaming/src/parts_manager.rs) never panic, keep the indices in
-- range, and announce every change of a text by their events.
pub mod Calls
use serdes_ai.Prelude.{
  ℕ, suc, String, ◌≡◌, refl, ◌⊎◌, inl, inr, Bool, true, false, Bool-cases, Option, none, some,
  Option-cases, List, [], ◌∷◌, ◌++◌, append-nil, length, get_elem?, nat_beq, nat_beq_iff, sym, ap,
  is_some, unwrap_or, if◌then◌else◌, ◌&&◌, not, arith,
}
use serdes_ai.Prelude.Map
use serdes_ai.Prelude.Result.{ok, err}
use serdes_ai.Streaming.Part.{
  Json, ManagedPart, Event, part_start, part_delta, FilePart, ToolCallAccumulator, ToolCallPart,
  to_tool_call_part, has_tool_name, is_text, is_thinking,
}
use serdes_ai.Streaming.Text.{Text, is_empty, is_blank}
use serdes_ai.Streaming.Manager.{
  VendorId, Manager, Step, push_part, set_part, rposition, new, clear, get_parts,
}
use serdes_ai.Streaming.Handlers.{
  CallKind, emit_text_delta, handle_thinking_delta, handle_tool_call_delta,
  handle_builtin_tool_call_delta, handle_file_part, update_text, update_thinking,
  update_accumulator, update_call, update_tool_call, update_builtin_tool_call, accumulate,
  tool_kind, builtin_kind,
}
use serdes_ai.Streaming.View.{
  IsValid, IsGood, receive, response_content, Local, Succeeds, succeeds, content_of, append_to,
  set_part-IsGood, IsGood-same,
}
use serdes_ai.Streaming.Valid.{push_part-IsGood, pushed-IsGood, at_index-IsGood}

pub appended :
    (i : ℕ) (s d : Text) (seen : ℕ → Option Text)
    → seen i ≡ some s
    → (k : ℕ)
    → (if nat_beq i k then append_to (seen k) d else seen k)
      ≡ (if nat_beq i k then some (s ++ d) else seen k)
appended i s d seen h k = elim (Bool-cases (nat_beq i k)) [
  | inl e ↦ rw (e, sym (ap seen ((nat_beq_iff i k).0 e)), h) refl
  | inr e ↦ rw e refl
]

pub unchanged :
    (i : ℕ) (a b : Option Text)
    → a ≡ b
    → (seen : ℕ → Option Text) → seen i ≡ a
    → (k : ℕ) → seen k ≡ (if nat_beq i k then b else seen k)
unchanged i a b e seen h k = elim (Bool-cases (nat_beq i k)) [
  | inl t ↦ rw (t, sym (ap seen ((nat_beq_iff i k).0 t)), h) e
  | inr t ↦ rw t refl
]

module _ {j : Json} where
  update_text-IsGood :
      (m : Manager j) (content : Text) (id : Option String) (details : Option j.Details) (i : ℕ)
      (p : ManagedPart j)
      → IsValid m
      → get_elem? m.parts i ≡ some p
      → Succeeds (IsGood m) (update_text content id details i false m p)
  unfolding update_text
  update_text-IsGood m content id details i (ManagedPart.text p) v e =
      succeeds (set_part-IsGood m i (ManagedPart.text p) _ _ v e (appended i p.content content))
  update_text-IsGood m content id details i p v e = succeeds (IsGood-same m v)

  pub emit_text_delta-IsGood :
      (m : Manager j) (vid : Option VendorId) (content : Text) (id : Option String)
      (details : Option j.Details) (ignore : Bool)
      → IsValid m
      → Succeeds (IsGood m) (emit_text_delta vid content id details ignore m)
  unfolding emit_text_delta update_text
  emit_text_delta-IsGood m vid content id details ignore v =
      elim (Bool-cases (
        ignore
        && is_blank content
        && not (is_some vid)
        && not (is_some (rposition is_text m.parts)))) [
          | inl e ↦ rw e (succeeds (IsGood-same m v))
          | inr e ↦ rw e (
              at_index-IsGood m vid is_text _ (update_text content id details) v
                (λ i p h. update_text-IsGood m content id details i p v h)
                (succeeds (pushed-IsGood m vid _ _ _ v (λ seen h k. refl))))
        ]

  update_thinking-IsGood :
      (m : Manager j) (content : Text) (id signature name : Option String)
      (details : Option j.Details) (i : ℕ) (p : ManagedPart j)
      → IsValid m
      → get_elem? m.parts i ≡ some p
      → Succeeds (IsGood m) (update_thinking content id signature name details i false m p)
  unfolding update_thinking
  update_thinking-IsGood m [] id signature name details i (ManagedPart.thinking p) v e = succeeds (
      set_part-IsGood m i (ManagedPart.thinking p) _ _ v e
        (unchanged i (some p.content) (some (p.content ++ [])) (rw append-nil refl)))
  update_thinking-IsGood m (b ∷ content) id signature name details i (ManagedPart.thinking p) v e =
      succeeds
        (set_part-IsGood m i (ManagedPart.thinking p) _ _ v e (appended i p.content (b ∷ content)))
  update_thinking-IsGood m content id signature name details i p v e = succeeds (IsGood-same m v)

  pub handle_thinking_delta-IsGood :
      (m : Manager j) (vid : Option VendorId) (content : Option Text)
      (id signature name : Option String) (details : Option j.Details)
      → IsValid m
      → Succeeds (IsGood m) (handle_thinking_delta vid content id signature name details m)
  unfolding handle_thinking_delta update_thinking
  handle_thinking_delta-IsGood m vid content id signature name details v =
      at_index-IsGood m vid is_thinking _
        (update_thinking (unwrap_or content []) id signature name details) v
        (λ i p h. update_thinking-IsGood m (unwrap_or content []) id signature name details i p v h)
        (succeeds (pushed-IsGood m vid _ _ _ v (λ seen h k. refl)))

  pub handle_file_part-IsGood :
      (m : Manager j) (vid : Option VendorId) (part : FilePart j)
      → IsValid m
      → Succeeds (IsGood m) (handle_file_part vid part m)
  unfolding handle_file_part
  handle_file_part-IsGood m vid part v = succeeds (push_part-IsGood m vid _ _ v (λ seen h k. refl))

  -- A new manager is valid, and so is a cleared one, which has no parts.
  pub new-IsValid : IsValid (new {j = j})
  unfolding Map.get
  new-IsValid = record { in_range = λ vid i h. absurd (cc h) }

  pub clear-eq-new : (m : Manager j) → clear m ≡ new
  unfolding clear
  clear-eq-new m = refl
