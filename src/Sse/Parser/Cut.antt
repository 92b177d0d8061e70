-- ===== src/Sse/Parser/Cut.antt =====
-- The loop of `SseParser::parse_buffer`, of serdes-ai-streaming/src/sse.rs, over a buffer that is cut in two.
use serdes_ai.Prelude.{
  ℕ, zero, suc, ◌<◌, Option, none, some, List, [], ◌∷◌, ◌++◌, ◌≡◌, ◌≢◌, refl, sym, ap, ◌∙◌, inl,
  inr, arith, length, Option-cases,
}
use serdes_ai.Prelude.Result.{Result, ok, err}
use serdes_ai.Sse.{find_event_boundary}
use serdes_ai.Sse.Event.{SseEvent}
use serdes_ai.Sse.Parser.{
  StreamError, SseParser, extend, Step, done, failed, parsed, step, push_event, parse_frames,
}
use serdes_ai.Sse.Parser.Steps.{extend_step, step-extend, step-moves, Shorter, step-Shorter}

abbrev pub Outcome : (J I : Type 0) → Type 0
Outcome J I = SseParser × Result (List SseEvent) (StreamError J I)

module _ {J I : Type 0} where
  -- The loop with enough fuel.
  abbrev pub run : SseParser → Outcome J I
  run p = parse_frames (suc (length p.buffer)) p

  -- A turn, and what comes after it.
  abbrev pub turn : Step (StreamError J I) → SseParser → (SseParser → Outcome J I) → Outcome J I
  turn s p rest = elim s [
    | done ↦ (p, ok [])
    | failed q x ↦ (q, err x)
    | parsed q e ↦ push_event e (rest q)
  ]

  turn-ap :
      (s : Step (StreamError J I)) (p : SseParser) (n : ℕ) (f g : SseParser → Outcome J I)
      → Shorter n s
      → ((q : SseParser) → length q.buffer < n → f q ≡ g q)
      → turn s p f ≡ turn s p g
  turn-ap done p n f g l same = refl
  turn-ap (failed q x) p n f g l same = refl
  turn-ap (parsed q e) p n f g l same = ap (push_event e) (same q l)

  -- Events before those of an outcome.
  abbrev pub prepend : List SseEvent → Outcome J I → Outcome J I
  prepend es (p, ok fs) = (p, ok (es ++ fs))
  prepend es (p, err x) = (p, err x)

  -- The loop goes on with more bytes, where it has not failed.
  abbrev pub go_on : List ℕ → Outcome J I → Outcome J I
  go_on bytes (p, ok es) = prepend es (run (extend bytes p))
  go_on bytes (p, err x) = (extend bytes p, err x)

module _ (J I : Type 0) where
  -- More fuel than bytes makes no difference.
  parse_frames-fuel :
      (n m : ℕ) (p : SseParser)
      → length p.buffer < n
      → length p.buffer < m
      → parse_frames {J = J} {I = I} n p ≡ parse_frames m p
  unfolding parse_frames
  parse_frames-fuel zero m p h k = absurd (omega (arith, h))
  parse_frames-fuel (suc n) zero p h k = absurd (omega (arith, k))
  parse_frames-fuel (suc n) (suc m) p h k =
      turn-ap (step p) p (length p.buffer) (parse_frames n) (parse_frames m) (step-Shorter J I p)
        (λ q l. parse_frames-fuel n m q (omega (arith, h, l)) (omega (arith, k, l)))

  pub run-step : (p : SseParser) → run {J = J} {I = I} p ≡ turn (step p) p run
  unfolding parse_frames
  run-step p =
      turn-ap (step p) p (length p.buffer) (parse_frames (length p.buffer)) run (step-Shorter J I p)
        (λ q l. parse_frames-fuel (length p.buffer) (suc (length q.buffer)) q l (omega arith))

  push_event-prepend :
      (e : Option SseEvent) (es : List SseEvent) (r : Outcome J I)
      → push_event e (prepend es r) ≡ prepend (elim e [ none ↦ es | some a ↦ a ∷ es ]) r
  push_event-prepend none es r = refl
  push_event-prepend (some a) es (p, ok fs) = refl
  push_event-prepend (some a) es (p, err x) = refl

  push_event-go_on :
      (e : Option SseEvent) (bytes : List ℕ) (r : Outcome J I)
      → push_event e (go_on bytes r) ≡ go_on bytes (push_event e r)
  push_event-go_on none bytes r = refl
  push_event-go_on (some a) bytes (p, ok es) = push_event-prepend (some a) es (run (extend bytes p))
  push_event-go_on (some a) bytes (p, err x) = refl

  prepend-nil : (r : Outcome J I) → prepend [] r ≡ r
  prepend-nil (p, ok es) = refl
  prepend-nil (p, err x) = refl

  -- The loop over more bytes goes on from where the loop over the first ones stopped.
  pub run-extend :
      (n : ℕ) (bytes : List ℕ) (p : SseParser)
      → length p.buffer < n
      → run {J = J} {I = I} (extend bytes p) ≡ go_on bytes (run p)
  unfolding step
  run-extend zero bytes p h = absurd (omega (arith, h))
  run-extend (suc n) bytes p h = elim (Option-cases (find_event_boundary p.buffer)) [
    | inl e ↦ rw (run-step p, e) (sym (prepend-nil (run (extend bytes p))))
    | inr (r, e) ↦
        rw (run-step (extend bytes p), run-step p, step-extend {J = J} {I = I} r bytes p e)
          (goes_on (step p) (step-Shorter J I p) (λ q l. run-extend n bytes q (omega (arith, h, l)))
            (step-moves J I r p e))
  ]
    where
      goes_on :
          (s : Step (StreamError J I))
          → Shorter (length p.buffer) s
          → ((q : SseParser)
              → length q.buffer < length p.buffer
              → run {J = J} {I = I} (extend bytes q) ≡ go_on bytes (run q))
          → s ≢ done
          → turn (extend_step bytes s) (extend bytes p) run ≡ go_on bytes (turn s p run)
      goes_on done l again some_step = absurd (some_step refl)
      goes_on (failed q x) l again some_step = refl
      goes_on (parsed q e) l again some_step =
          ap (push_event e) (again q l) ∙ push_event-go_on e bytes (run q)
