-- ===== src/Sse/Stream/Ends.antt =====
-- The end of `SseStream`, of serdes-ai-streaming/src/sse.rs.
use serdes_ai.Prelude.{ℕ, Bool, true, false, Option, none, some, List, [], ◌∷◌, ◌≡◌, refl}
use serdes_ai.Prelude.Result.{Result, ok, err}
use serdes_ai.Sse.Event.{SseEvent}
use serdes_ai.Sse.Parser.{
  StreamError, SseParser, extend, parse_buffer, or_clear, at_boundary, finished_with, feed, finish,
}
use serdes_ai.Sse.Stream.{
  Poll, pending, ready, SseStream, Item, pop, event_or, event_after, poll_inner, unless_finished,
  buffered, poll_next,
}

-- The stream is finished and has no events left.
abbrev pub IsOver : SseStream → Type 0
IsOver s = (s.finished ≡ true) × (s.parser.events ≡ [])

module _ {J I : Type 0} where
  -- What answers the end, an error or `none`, leaves a stream that is over.
  abbrev pub EndsOver : Item J I × SseStream → Type 0
  EndsOver (pending, s) = Unit
  EndsOver (ready none, s) = IsOver s
  EndsOver (ready (some (ok e)), s) = Unit
  EndsOver (ready (some (err x)), s) = IsOver s

  -- An error or the end
  abbrev pub IsEnd : Item J I → Type 0
  IsEnd pending = ⊥
  IsEnd (ready none) = Unit
  IsEnd (ready (some (ok e))) = ⊥
  IsEnd (ready (some (err x))) = Unit

  -- An error comes with a parser that has no events.
  abbrev Emptied : SseParser × Result (List SseEvent) (StreamError J I) → Type 0
  Emptied (p, ok es) = Unit
  Emptied (p, err x) = p.events ≡ []

module _ (J I : Type 0) where
  or_clear-Emptied :
      (r : SseParser × Result (List SseEvent) (StreamError J I)) → Emptied (or_clear r)
  or_clear-Emptied (p, ok es) = tt
  or_clear-Emptied (p, err x) = refl

  at_boundary-Emptied :
      (b : List ℕ) (p : SseParser) (es : List SseEvent)
      → Emptied (at_boundary {J = J} {I = I} b p es)
  at_boundary-Emptied [] p es = tt
  at_boundary-Emptied (b ∷ bs) p es = refl

  finished_with-Emptied :
      (r : SseParser × Result (List SseEvent) (StreamError J I)) → Emptied (finished_with r)
  finished_with-Emptied (p, ok es) = at_boundary-Emptied p.buffer p es
  finished_with-Emptied (p, err x) = refl

  feed-Emptied : (bytes : List ℕ) (p : SseParser) → Emptied {J = J} {I = I} (feed bytes p)
  unfolding feed
  feed-Emptied bytes p = or_clear-Emptied (parse_buffer (extend bytes p))

  finish-Emptied : (p : SseParser) → Emptied {J = J} {I = I} (finish p)
  unfolding finish
  finish-Emptied p = finished_with-Emptied (parse_buffer p)

  pop-EndsOver :
      (es : List SseEvent) (p : SseParser)
      → p.events ≡ es
      → EndsOver {J = J} {I = I} (event_or pending (pop es p) false)
        × EndsOver {J = J} {I = I} (event_or (ready none) (pop es p) true)
  pop-EndsOver [] p h = (tt, (refl, h))
  pop-EndsOver (e ∷ es) p h = (tt, tt)

  event_after-EndsOver :
      (r : SseParser × Result (List SseEvent) (StreamError J I))
      → Emptied r
      → EndsOver (event_after pending r false) × EndsOver (event_after (ready none) r true)
  event_after-EndsOver (p, ok es) h = pop-EndsOver p.events p refl
  event_after-EndsOver (p, err x) h = ((refl, h), (refl, h))

  poll_inner-EndsOver :
      (inner : Poll (Option (Result (List ℕ) I))) (p : SseParser)
      → EndsOver (poll_inner {J = J} inner p)
  unfolding poll_inner
  poll_inner-EndsOver pending p = tt
  poll_inner-EndsOver (ready none) p = (event_after-EndsOver (finish p) (finish-Emptied p)).1
  poll_inner-EndsOver (ready (some (ok bytes))) p =
      (event_after-EndsOver (feed bytes p) (feed-Emptied bytes p)).0
  poll_inner-EndsOver (ready (some (err e))) p = (refl, refl)

  unless_finished-EndsOver :
      (finished : Bool) (inner : Poll (Option (Result (List ℕ) I))) (p : SseParser)
      → p.events ≡ []
      → EndsOver (unless_finished {J = J} finished inner p)
  unless_finished-EndsOver true inner p h = (refl, h)
  unless_finished-EndsOver false inner p h = poll_inner-EndsOver inner p

  buffered-EndsOver :
      (es : List SseEvent) (p : SseParser) (finished : Bool)
      (inner : Poll (Option (Result (List ℕ) I)))
      → p.events ≡ es
      → EndsOver (buffered {J = J} (pop es p) finished inner)
  buffered-EndsOver [] p finished inner h = unless_finished-EndsOver finished inner p h
  buffered-EndsOver (e ∷ es) p finished inner h = tt

  over : (r : Item J I × SseStream) → EndsOver r → IsEnd (r.0) → IsOver (r.1)
  over (pending, s) h e = absurd e
  over (ready none, s) h e = h
  over (ready (some (ok a)), s) h e = absurd e
  over (ready (some (err x)), s) h e = h

  buffered-over :
      (es : List SseEvent) (p : SseParser) (b : Bool) (inner : Poll (Option (Result (List ℕ) I)))
      → es ≡ []
      → b ≡ true
      → buffered {J = J} (pop es p) b inner ≡ (ready none, record { parser = p; finished = b })
  buffered-over [] p true inner h k = refl
  buffered-over [] p false inner h k = absurd (cc k)
  buffered-over (e ∷ es) p b inner h k = absurd (cc h)

  poll_next-IsOver :
      (s : SseStream) (inner : Poll (Option (Result (List ℕ) I)))
      → IsOver s
      → poll_next {J = J} s inner ≡ (ready none, s)
  unfolding poll_next
  poll_next-IsOver s inner h = buffered-over s.parser.events s.parser s.finished inner (h.1) (h.0)

  -- Once a stream has answered a poll with an error or with its end, the next poll answers its end,
  -- whatever the stream of bytes would answer, and changes nothing, and so do all later ones.
  pub poll_next-IsEnd :
      (s : SseStream) (inner later : Poll (Option (Result (List ℕ) I)))
      → IsEnd ((poll_next {J = J} s inner).0)
      → poll_next {J = J} ((poll_next {J = J} s inner).1) later
        ≡ (ready none, (poll_next {J = J} s inner).1)
  unfolding poll_next
  poll_next-IsEnd s inner later e = poll_next-IsOver _ later (
      over (poll_next s inner) (buffered-EndsOver s.parser.events s.parser s.finished inner refl) e)
