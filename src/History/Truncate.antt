-- ===== src/History/Truncate.antt =====
-- `TruncateHistory`, `TruncateByTokens` and `SummarizeHistory` (serdes-ai-agent/src/history.rs).
pub mod Bounds
pub mod Tokens
use serdes_ai.Prelude.{
  ℕ, zero, suc, ◌+◌, ◌-◌, min, Bool, ◌&&◌, Option, List, [], ◌∷◌, ◌++◌, length, take, drop, reverse,
  leb, ltb, if◌then◌else◌,
}
use serdes_ai.History.Message.{ModelRequest}
use serdes_ai.History.Pairs.{remove_orphans}

pub record TruncateHistory : Type 0 where
  pub max_messages : ℕ
  pub keep_first : Bool

pub record SummarizeHistory : Type 0 where
  pub keep_recent : ℕ
  pub threshold_tokens : ℕ

-- The token estimate of a message, which is computed in floats, is an argument.
pub record TruncateByTokens (C : Type 0) : Type 0 where
  pub max_tokens : ℕ
  pub estimate_tokens : ModelRequest C → ℕ
  pub keep_first_n : ℕ

-- The last elements, at most `n` of them.
abbrev pub last_n {ℓ} : {A : Type ℓ} → ℕ → List A → List A
last_n n messages = drop (length messages - n) messages

module _ {C : Type 0} where
  -- What stays of a history that is too long.
  unfoldable pub select : TruncateHistory → List (ModelRequest C) → List (ModelRequest C)
  select t [] = []
  select t (first ∷ messages) =
      if t.keep_first
      then first ∷ last_n (t.max_messages - 1) messages
      else last_n t.max_messages (first ∷ messages)

  unfoldable pub truncate : TruncateHistory → List (ModelRequest C) → List (ModelRequest C)
  unfolding select remove_orphans
  truncate t messages =
      if leb (length messages) t.max_messages then messages else remove_orphans (select t messages)

  unfoldable pub summarize : SummarizeHistory → List (ModelRequest C) → List (ModelRequest C)
  summarize s messages =
      if leb (length messages) s.keep_recent then messages else last_n s.keep_recent messages

  -- The estimate of all messages together.
  unfoldable pub tokens : (ModelRequest C → ℕ) → List (ModelRequest C) → ℕ
  tokens estimate [] = 0
  tokens estimate (m ∷ ms) = estimate m + tokens estimate ms

  -- The loop from the end, over the messages in reverse: those that stay, newest first.
  unfoldable pub take_while_within :
      ℕ → (ModelRequest C → ℕ) → ℕ → List (ModelRequest C) → List (ModelRequest C)
  take_while_within max estimate total [] = []
  take_while_within max estimate total (m ∷ ms) =
      let rest = take_while_within max estimate (total + estimate m) ms in
      if ltb max (total + estimate m) then [] else m ∷ rest

  unfoldable pub select_by_tokens :
      TruncateByTokens C → List (ModelRequest C) → List (ModelRequest C)
  unfolding tokens take_while_within
  select_by_tokens t messages =
      let keep_n = min t.keep_first_n (length messages) in
      take keep_n messages
      ++ reverse (
          take_while_within t.max_tokens t.estimate_tokens
            (tokens t.estimate_tokens (take keep_n messages)) (reverse (drop keep_n messages)))

  unfoldable pub truncate_by_tokens :
      TruncateByTokens C → List (ModelRequest C) → List (ModelRequest C)
  unfolding select_by_tokens remove_orphans
  truncate_by_tokens t [] = []
  truncate_by_tokens t (m ∷ ms) = remove_orphans (select_by_tokens t (m ∷ ms))
