-- ===== src/Sse/Parser/Drained.antt =====
-- What `SseParser::feed` of serdes-ai-streaming/src/sse.rs leaves in the buffer.
use serdes_ai.Prelude.{
  ℕ, zero, suc, ◌≤◌, ◌<◌, Option, none, some, List, [], ◌++◌, ◌≡◌, ◌≢◌, refl, inl, inr, arith,
  length, ltb, Bool-cases, Option-cases,
}
use serdes_ai.Prelude.Result.{ok, err}
use serdes_ai.Sse.{find_event_boundary}
use serdes_ai.Sse.Event.{Utf8, invalid, from_utf8, SseEvent}
use serdes_ai.Sse.Parser.{
  StreamError, SseParser, extend, Step, done, failed, parsed, step, push_event, check_utf8,
  validate_buffer, feed,
}
use serdes_ai.Sse.Parser.Steps.{Shorter, step-Shorter, step-moves}
use serdes_ai.Sse.Parser.Cut.{Outcome, run, turn, run-step}
use serdes_ai.Sse.Parser.Chunks.{feed-Passed}

-- The buffer has no boundary.
abbrev Bare : SseParser → Type 0
Bare p = find_event_boundary p.buffer ≡ none

abbrev BareIfOk : {J I : Type 0} → Outcome J I → Type 0
BareIfOk (q, ok es) = Bare q
BareIfOk (q, err x) = Unit

module _ (J I : Type 0) where
  push_event-BareIfOk :
      (e : Option SseEvent) (r : Outcome J I) → BareIfOk r → BareIfOk (push_event e r)
  push_event-BareIfOk none r h = h
  push_event-BareIfOk (some e) (p, ok es) h = h
  push_event-BareIfOk (some e) (p, err x) h = tt

  run-BareIfOk : (n : ℕ) (p : SseParser) → length p.buffer < n → BareIfOk (run {J = J} {I = I} p)
  run-BareIfOk zero p h = absurd (omega (arith, h))
  run-BareIfOk (suc n) p h =
      rw (run-step J I p)
        (bare (step p) refl (step-Shorter J I p) (λ q l. run-BareIfOk n q (omega (arith, h, l))))
    where
      bare :
          (s : Step (StreamError J I))
          → step p ≡ s
          → Shorter (length p.buffer) s
          → ((q : SseParser) → length q.buffer < length p.buffer → BareIfOk (run {J = J} {I = I} q))
          → BareIfOk (turn s p run)
      bare done e l again = elim (Option-cases (find_event_boundary p.buffer)) [
        | inl none_found ↦ none_found
        | inr (r, found) ↦ absurd (step-moves J I r p found e)
      ]
      bare (failed q x) e l again = tt
      bare (parsed q o) e l again = push_event-BareIfOk o (run q) (again q l)

  check_utf8-ok : (u : Utf8) → check_utf8 {J = J} {I = I} u ≡ ok tt → u ≢ invalid
  check_utf8-ok u h e = cc (rw e at h)

  validate_buffer-ok :
      (p : SseParser)
      → validate_buffer {J = J} {I = I} p ≡ ok tt
      → (length p.buffer ≤ p.max_buffer_size) × (from_utf8 [] p.buffer ≢ invalid)
  unfolding validate_buffer
  validate_buffer-ok p h = elim (Bool-cases (ltb p.max_buffer_size (length p.buffer))) [
    | inl e ↦ absurd (cc (rw e at h))
    | inr e ↦ (ground arith, check_utf8-ok _ (rw e at h))
  ]

  -- Where bytes are fed and accepted, what stays in the buffer has no boundary, has no more bytes than the
  -- maximum, and is not invalid as UTF-8 (its last character may be incomplete).
  pub feed-Drained :
      (bytes : List ℕ) (p q : SseParser) (es : List SseEvent)
      → feed {J = J} {I = I} bytes p ≡ (q, ok es)
      → (find_event_boundary q.buffer ≡ none)
        × (length q.buffer ≤ q.max_buffer_size)
        × (from_utf8 [] q.buffer ≢ invalid)
  feed-Drained bytes p q es h =
      let passed = feed-Passed J I bytes p q es h in
      let bare = run-BareIfOk (suc (length (p.buffer ++ bytes))) (extend bytes p) (omega arith) in
      let rest = validate_buffer-ok q (passed.1) in (rw (passed.0) at bare, rest.0, rest.1)
