-- ===== src/Sse.antt =====
-- The boundaries of server-sent events: `find_event_boundary` of serdes-ai-streaming/src/sse.rs. A
-- buffer is a list of bytes, from the next one on.
pub mod Boundary
pub mod Event
pub mod Parser
pub mod Stream
mod Examples
use serdes_ai.Prelude.{
  ℕ, zero, suc, Bool, true, false, ◌&&◌, Option, none, some, List, [], ◌∷◌, filter_map, length,
  if◌then◌else◌, ltb, nat_beq,
}

-- A window of the length of a delimiter, at the head of the buffer, is the delimiter.
unfoldable pub starts : (delimiter buffer : List ℕ) → Bool
starts [] buffer = true
starts (d ∷ ds) [] = false
starts (d ∷ ds) (b ∷ bs) = nat_beq b d && starts ds bs

abbrev pub later : Option ℕ → Option ℕ
later none = none
later (some n) = some (suc n)

-- `windows(delimiter.len()).position(|window| window == *delimiter)`, of a delimiter that is not empty.
unfoldable pub position : (delimiter buffer : List ℕ) → Option ℕ
unfolding starts
position delimiter [] = none
position delimiter (b ∷ bs) =
    let rest = later (position delimiter bs) in if starts delimiter (b ∷ bs) then some 0 else rest

-- `min_by_key` of the position: the first of those that are least.
abbrev pub at_least : ℕ × ℕ → Option (ℕ × ℕ) → ℕ × ℕ
at_least p none = p
at_least p (some q) = if ltb (q.0) (p.0) then q else p

unfoldable pub min_by_position : List (ℕ × ℕ) → Option (ℕ × ℕ)
min_by_position [] = none
min_by_position (p ∷ ps) = some (at_least p (min_by_position ps))

abbrev pub delimiters : List (List ℕ)
delimiters = (13 ∷ 10 ∷ 13 ∷ 10 ∷ []) ∷ (10 ∷ 10 ∷ []) ∷ (13 ∷ 13 ∷ []) ∷ []

abbrev pub with_length : List ℕ → Option ℕ → Option (ℕ × ℕ)
with_length delimiter none = none
with_length delimiter (some n) = some (n, length delimiter)

unfoldable pub find_event_boundary : List ℕ → Option (ℕ × ℕ)
unfolding position min_by_position
find_event_boundary buffer =
    min_by_position (filter_map (λ d. with_length d (position d buffer)) delimiters)
