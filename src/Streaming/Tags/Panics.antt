-- ===== src/Streaming/Tags/Panics.antt =====
-- Where `find_partial_tag_suffix` of serdes-ai-streaming/src/parts_manager.rs cuts a character.
use serdes_ai.Prelude.{
  ℕ, suc, ◌-◌, ◌<◌, ◌≡◌, refl, true, false, none, some, [], ◌∷◌, ◌++◌, length, length-append, arith,
}
use serdes_ai.Prelude.Result.{err}
use serdes_ai.Streaming.Part.{Json}
use serdes_ai.Streaming.Text.{
  Text, slice_not_at_boundary, is_continuation, is_char_boundary, slice_from, find,
}
use serdes_ai.Streaming.Manager.{Manager}
use serdes_ai.Streaming.Tags.{
  find_partial_tag_suffix, partial_from, TextDelta, turn, turn_at, either_turn, next_turn,
  tags_loop, handle_text_with_thinking_tags, handle_text_delta,
}

last-is_char_boundary :
    (a : ℕ) (s : Text) (c : ℕ)
    → is_continuation c ≡ true
    → is_char_boundary (a ∷ s ++ c ∷ []) (suc (length s)) ≡ false
unfolding is_char_boundary
last-is_char_boundary a [] c h = rw h refl
last-is_char_boundary a (b ∷ s) c h = last-is_char_boundary b s c h

slice_last : (a : ℕ) (s : Text) (c : ℕ) → length (a ∷ s ++ c ∷ []) - 1 ≡ suc (length s)
slice_last a s c = omega (arith, length-append s (c ∷ []))

partial_from-err :
    (a : ℕ) (s : Text) (c : ℕ) (tag : Text) (rounds : ℕ)
    → is_continuation c ≡ true
    → partial_from (suc rounds) 1 (a ∷ s ++ c ∷ []) tag ≡ err slice_not_at_boundary
unfolding partial_from slice_from
partial_from-err a s c tag rounds h = rw (slice_last a s c, last-is_char_boundary a s c h) refl

find_partial_tag_suffix-err :
    (a : ℕ) (s : Text) (c : ℕ) (tag : Text)
    → is_continuation c ≡ true
    → 1 < length tag
    → find_partial_tag_suffix (a ∷ s ++ c ∷ []) tag ≡ err slice_not_at_boundary
unfolding find_partial_tag_suffix
find_partial_tag_suffix-err a s c tag h l =
    let rounds : length tag - 1 ≡ suc (length tag - 2) = omega arith in
    rw rounds (partial_from-err a s c tag (length tag - 2) h)

module _ {j : Json} where
  -- Content whose last character has two bytes or more makes the handler panic, where nothing is
  -- buffered, no thinking tag is open, and the start tag has two bytes or more and is not in the
  -- content.
  pub handle_text_delta-panics :
      (d : TextDelta j) (start_tag end_tag : Text) (m : Manager j) (a : ℕ) (s : Text) (c : ℕ)
      → is_continuation c ≡ true
      → 1 < length start_tag
      → m.in_thinking ≡ false
      → m.partial_tag_buffer ≡ []
      → find (a ∷ s ++ c ∷ []) start_tag ≡ none
      → handle_text_delta d (some (start_tag, end_tag)) (a ∷ s ++ c ∷ []) m
        ≡ some (err slice_not_at_boundary)
  unfolding handle_text_delta handle_text_with_thinking_tags tags_loop either_turn turn turn_at
      next_turn
  handle_text_delta-panics d start_tag end_tag m a s c hc hl ht hb hf =
      rw (hb, ht, hf, find_partial_tag_suffix-err a s c start_tag hc hl) refl
