-- ===== src/History/Truncate/Bounds.antt =====
-- How much of a history the truncating processors keep (serdes-ai-agent/src/history.rs).
use serdes_ai.Prelude.{
  ◌-◌, ◌≤◌, min, max, ◌≡◌, refl, inl, inr, Bool-cases, List, [], ◌∷◌, ◌++◌, length, length-drop,
  take, take-append-drop, leb, arith,
}
use serdes_ai.History.Message.{ModelRequest}
use serdes_ai.History.Pairs.Orphans.{length-remove_orphans}
use serdes_ai.History.Truncate.{TruncateHistory, SummarizeHistory, select, truncate, summarize}

module _ {C : Type 0} where
  select-length :
      (t : TruncateHistory) (ms : List (ModelRequest C))
      → length (select t ms) ≤ max t.max_messages 1
  unfolding select
  select-length t [] = omega arith
  select-length t (m ∷ ms) = ground (
    arith,
    length-drop (length ms - (t.max_messages - 1)) ms,
    length-drop (length (m ∷ ms) - t.max_messages) (m ∷ ms),
  )

  -- A truncated history has at most `max_messages` messages, or one.
  pub truncate-length :
      (t : TruncateHistory) (ms : List (ModelRequest C))
      → length (truncate t ms) ≤ max t.max_messages 1
  unfolding truncate
  truncate-length t ms = ground (arith, select-length t ms, length-remove_orphans (select t ms))

  -- Summarizing keeps the end of the history: its `keep_recent` newest messages, or all.
  pub summarize-newest :
      (s : SummarizeHistory) (ms : List (ModelRequest C))
      → (length (summarize s ms) ≡ min s.keep_recent (length ms))
        × (dropped : List (ModelRequest C)) × (dropped ++ summarize s ms ≡ ms)
  unfolding summarize
  summarize-newest s ms = elim (Bool-cases (leb (length ms) s.keep_recent)) [
    | inl e ↦ rw e (ground (arith, e), [], refl)
    | inr e ↦ rw e (
      ground (arith, e, length-drop (length ms - s.keep_recent) ms),
      take (length ms - s.keep_recent) ms,
      take-append-drop (length ms - s.keep_recent) ms,
    )
  ]
