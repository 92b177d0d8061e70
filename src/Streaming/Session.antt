-- ===== src/Streaming/Session.antt =====
-- A whole response (serdes-ai-streaming/src/parts_manager.rs): the deltas of a stream, one after the
-- other, and what a consumer of their events has seen at the end.
use serdes_ai.Prelude.{ℕ, String, ◌≡◌, refl, Bool, Option, none, List, [], ◌∷◌, ◌++◌}
use serdes_ai.Prelude.Result.{ok, ◌>>=◌}
use serdes_ai.Streaming.Part.{Json, Event, FilePart}
use serdes_ai.Streaming.Text.{Text}
use serdes_ai.Streaming.Manager.{VendorId, Manager, Step, new}
use serdes_ai.Streaming.Handlers.{
  emit_text_delta, handle_thinking_delta, handle_tool_call_delta, handle_builtin_tool_call_delta,
  handle_file_part,
}
use serdes_ai.Streaming.View.{
  IsValid, IsGood, Succeeds, succeeds, receive, receive_all, content_at, IsGood-same,
}
use serdes_ai.Streaming.Correct.{
  emit_text_delta-IsGood, handle_thinking_delta-IsGood, handle_file_part-IsGood, new-IsValid,
}
use serdes_ai.Streaming.Correct.Calls.{
  handle_tool_call_delta-IsGood, handle_builtin_tool_call_delta-IsGood,
}

-- A call of a handler. Text comes without thinking tags.
pub data Call (j : Json) : Type 0 where
  text : Option VendorId → Text → Option String → Option j.Details → Bool → Call j
  thinking :
      Option VendorId
      → Option Text
      → Option String
      → Option String
      → Option String
      → Option j.Details
      → Call j
  tool_call builtin_tool_call :
      Option VendorId → Option String → Option Text → Option String → Option j.Details → Call j
  file : Option VendorId → FilePart j → Call j

module _ {j : Json} where
  unfoldable pub apply : Call j → Manager j → Step j
  apply (text vid content id details ignore) = emit_text_delta vid content id details ignore
  apply (thinking vid content id signature name details) =
      handle_thinking_delta vid content id signature name details
  apply (tool_call vid name args call_id details) =
      handle_tool_call_delta vid name args call_id details
  apply (builtin_tool_call vid name args call_id details) =
      handle_builtin_tool_call_delta vid name args call_id details
  apply (file vid part) = handle_file_part vid part

  -- `self.run(calls)`: the events in the order in which they are returned.
  unfoldable pub run : List (Call j) → Manager j → Step j
  unfolding apply
  run [] m = ok (m, [])
  run (c ∷ cs) m = do (m', es) ← apply c m; (m'', es') ← run cs m'; ok (m'', es ++ es')

  receive_all-append :
      (es es' : List (Event j)) (seen : ℕ → Option Text)
      → receive_all (es ++ es') seen ≡ receive_all es' (receive_all es seen)
  receive_all-append [] es' seen = refl
  receive_all-append (e ∷ es) es' seen = receive_all-append es es' (receive e seen)

  pub IsGood-trans :
      {m m' m'' : Manager j} {es es' : List (Event j)}
      → IsGood m m' es
      → IsGood m' m'' es'
      → IsGood m m'' (es ++ es')
  IsGood-trans {es = es} {es' = es'} g h = record {
    valid = h.valid;
    tracks = λ seen s k.
        rw (receive_all-append es es' seen) (h.tracks (receive_all es seen) (g.tracks seen s) k);
  }

  pub weaken :
      {P Q : Manager j → List (Event j) → Type 0} {s : Step j}
      → ((m : Manager j) (es : List (Event j)) → P m es → Q m es)
      → Succeeds P s
      → Succeeds Q s
  weaken f (succeeds {m = m} {es = es} g) = succeeds (f m es g)

  apply-IsGood : (c : Call j) (m : Manager j) → IsValid m → Succeeds (IsGood m) (apply c m)
  unfolding apply
  apply-IsGood (text vid content id details ignore) m v =
      emit_text_delta-IsGood m vid content id details ignore v
  apply-IsGood (thinking vid content id signature name details) m v =
      handle_thinking_delta-IsGood m vid content id signature name details v
  apply-IsGood (tool_call vid name args call_id details) m v =
      handle_tool_call_delta-IsGood m vid name args call_id details v
  apply-IsGood (builtin_tool_call vid name args call_id details) m v =
      handle_builtin_tool_call_delta-IsGood m vid name args call_id details v
  apply-IsGood (file vid part) m v = handle_file_part-IsGood m vid part v

  pub after :
      {P Q : Manager j → List (Event j) → Type 0} {s : Step j} (es : List (Event j))
      → ((m : Manager j) (es' : List (Event j)) → P m es' → Q m (es ++ es'))
      → Succeeds P s
      → Succeeds Q (do (m', es') ← s; ok (m', es ++ es'))
  after es f (succeeds {m = m} {es = es'} p) = succeeds (f m es' p)

  and_then :
      {m : Manager j} {s : Step j} (f : Manager j → Step j)
      → Succeeds (IsGood m) s
      → ((m' : Manager j) → IsValid m' → Succeeds (IsGood m') (f m'))
      → Succeeds (IsGood m) (do (m', es) ← s; (m'', es') ← f m'; ok (m'', es ++ es'))
  and_then f (succeeds {m = m'} {es = es} g) h = after es (λ m'' es'. IsGood-trans g) (h m' g.valid)

  pub run-IsGood : (cs : List (Call j)) (m : Manager j) → IsValid m → Succeeds (IsGood m) (run cs m)
  unfolding run
  run-IsGood [] m v = succeeds (IsGood-same m v)
  run-IsGood (c ∷ cs) m v = and_then (run cs) (apply-IsGood c m v) (λ m' v'. run-IsGood cs m' v')

  -- The events of a new manager's run over such deltas hold every text in full: what a consumer has collected
  -- for an index is the content of the part at that index, and nothing where there is none.
  pub run-new :
      (cs : List (Call j))
      → Succeeds (λ m es. (k : ℕ) → receive_all es (λ i. none) k ≡ content_at m k) (run cs new)
  run-new cs = weaken (λ m es g. g.tracks (λ i. none) (λ k. refl)) (run-IsGood cs new new-IsValid)
