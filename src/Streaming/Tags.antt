-- ===== src/Streaming/Tags.antt =====
-- Thinking tags inside text: `handle_text_with_thinking_tags`, `handle_text_delta` and
-- `find_partial_tag_suffix` of serdes-ai-streaming/src/parts_manager.rs.
pub mod Sound
pub mod Panics
use serdes_ai.Prelude.{
  ℕ, zero, suc, ◌+◌, ◌-◌, String, Bool, true, false, not, ◌&&◌, Option, none, some, List, [], ◌∷◌,
  ◌++◌, length, if◌then◌else◌,
}
use serdes_ai.Prelude.Result.{Result, ok, err, ◌>>=◌}
use serdes_ai.Streaming.Part.{Json, Event}
use serdes_ai.Streaming.Manager.{VendorId, Manager, Step}
use serdes_ai.Streaming.Handlers.{emit_text_delta, handle_thinking_delta}
use serdes_ai.Streaming.Text.{Text, Panic, is_empty, slice_from, slice_to, starts_with, find}

-- The loop over `i in 1..tag.len()`, with the rounds that are left. A suffix is always one that the
-- content ends with.
partial_from : ℕ → ℕ → Text → Text → Result (Option Text) Panic
partial_from zero i content tag = ok none
partial_from (suc rounds) i content tag =
    let later = partial_from rounds (i + 1) content tag in
    do
      suffix ← slice_from content (length content - i)
      if starts_with tag suffix then ok (some suffix) else later

unfoldable pub find_partial_tag_suffix : Text → Text → Result (Option Text) Panic
unfolding partial_from
find_partial_tag_suffix content tag = partial_from (length tag - 1) 1 content tag

-- The state of a turn of the `while` loop after it: the manager, the events, and what remains; `none`
-- is a `break`.
pub record Turn (j : Json) : Type 0 where
  pub manager : Manager j
  pub events : List (Event j)
  pub remaining : Option Text

module _ {j : Json} where
  -- `if !content.is_empty() { … }`
  abbrev unless_empty : Text → (Text → Manager j → Step j) → Manager j → Step j
  unless_empty content emit m = if is_empty content then ok (m, []) else emit content m

  -- The tag is not there. What may be the start of one waits in the buffer.
  turn_without_tag :
      (Text → Manager j → Step j) → Text → Manager j → Option Text → Result (Turn j) Panic
  turn_without_tag emit remaining m (some p) = do
    content ← slice_to remaining (length remaining - length p)
    (m', events) ← unless_empty content emit m
    ok (record {
      manager = record m' { partial_tag_buffer = p };
      events = events;
      remaining = none;
    })
  turn_without_tag emit remaining m none = do
    (m', events) ← emit remaining m
    ok (record { manager = m'; events = events; remaining = none })

  -- The tag, where it is found, ends the segment.
  turn_at :
      Text
      → Bool
      → (Text → Manager j → Step j)
      → Text
      → Manager j
      → Option ℕ
      → Result (Turn j) Panic
  unfolding turn_without_tag
  turn_at tag inside emit remaining m (some pos) = do
    before ← slice_to remaining pos
    (m', events) ← unless_empty before emit m
    rest ← slice_from remaining (pos + length tag)
    ok (record {
      manager = record m' { in_thinking = not inside };
      events = events;
      remaining = some rest;
    })
  turn_at tag inside emit remaining m none = do
    partial ← find_partial_tag_suffix remaining tag
    turn_without_tag emit remaining m partial

  -- One turn inside or outside a thinking tag: `tag` ends the segment, and `emit` takes its content.
  turn : Text → Bool → (Text → Manager j → Step j) → Text → Manager j → Result (Turn j) Panic
  unfolding turn_at
  turn tag inside emit remaining m = turn_at tag inside emit remaining m (find remaining tag)

  -- What comes after a turn: the loop over what remains, whose events stand after the turn's.
  continue_with :
      (Text → Manager j → Option (Step j))
      → Manager j
      → List (Event j)
      → Option Text
      → Option (Step j)
  continue_with loop m events none = some (ok (m, events))
  continue_with loop m events (some rest) = elim (loop rest m) [
    | none ↦ none
    | some r ↦ some (do (m', events') ← r; ok (m', events ++ events'))
  ]

  next_turn : (Text → Manager j → Option (Step j)) → Result (Turn j) Panic → Option (Step j)
  unfolding continue_with
  next_turn loop (err p) = some (err p)
  next_turn loop (ok t) = continue_with loop t.manager t.events t.remaining

-- The arguments of a delta that stay the same over the loop.
pub record TextDelta (j : Json) : Type 0 where
  pub vendor_part_id : Option VendorId
  pub id : Option String
  pub provider_details : Option j.Details
  pub ignore_leading_whitespace : Bool

module _ {j : Json} (d : TextDelta j) where
  abbrev emit_text : Text → Manager j → Step j
  emit_text content =
      emit_text_delta d.vendor_part_id content d.id d.provider_details d.ignore_leading_whitespace

  abbrev emit_thinking : Text → Manager j → Step j
  emit_thinking content = handle_thinking_delta none (some content) none none none none

  module _ (start_tag end_tag : Text) where
    -- `if self.thinking_state.in_thinking`
    either_turn : Bool → Text → Manager j → Result (Turn j) Panic
    unfolding turn
    either_turn true = turn end_tag true emit_thinking
    either_turn false = turn start_tag false emit_text

    -- `none`: out of fuel.
    tags_loop : ℕ → Text → Manager j → Option (Step j)
    unfolding either_turn next_turn
    tags_loop zero remaining m = none
    tags_loop (suc fuel) [] m = some (ok (m, []))
    tags_loop (suc fuel) (b ∷ s) m =
        next_turn (tags_loop fuel) (either_turn m.in_thinking (b ∷ s) m)

    -- A buffered partial tag stands before the content, and the buffer is emptied first.
    pub handle_text_with_thinking_tags : Text → Manager j → Option (Step j)
    unfolding tags_loop
    handle_text_with_thinking_tags content m =
        let combined = m.partial_tag_buffer ++ content in
        tags_loop (suc (length combined)) combined (record m { partial_tag_buffer = [] })

  unfoldable pub handle_text_delta : Option (Text × Text) → Text → Manager j → Option (Step j)
  unfolding handle_text_with_thinking_tags
  handle_text_delta none content m = some (emit_text content m)
  handle_text_delta (some (start_tag, end_tag)) content m =
      handle_text_with_thinking_tags start_tag end_tag content m
