-- ===== src/Sse/Parser/Steps.antt =====
-- Lemmas on a turn of the loop of `SseParser::parse_buffer`, of serdes-ai-streaming/src/sse.rs.
use serdes_ai.Prelude.{
  ℕ, zero, suc, ◌+◌, ◌≤◌, ◌<◌, Option, none, some, List, [], ◌∷◌, ◌++◌, ◌≡◌, ◌≢◌, refl, ap, inl,
  inr, arith, length, take, drop, length-drop, ltb, Bool-cases, Option-cases,
}
use serdes_ai.Sse.{find_event_boundary}
use serdes_ai.Sse.Boundary.Within.{Within, find_event_boundary-Within}
use serdes_ai.Sse.Boundary.Growth.{find_event_boundary-append}
use serdes_ai.Sse.Event.{Utf8, valid, incomplete, invalid, SseEvent, parse_event}
use serdes_ai.Sse.Parser.{
  StreamError, SseParser, extend, Step, done, failed, parsed, receive_event, read_frame, take_frame,
  step,
}

take-append {ℓ} :
    {A : Type ℓ} (n : ℕ) (xs ys : List A) → n ≤ length xs → take n (xs ++ ys) ≡ take n xs
take-append zero xs ys h = refl
take-append (suc n) [] ys h = absurd (omega (arith, h))
take-append (suc n) (x ∷ xs) ys h = ap (λ l. x ∷ l) (take-append n xs ys (omega (arith, h)))

drop-append {ℓ} :
    {A : Type ℓ} (n : ℕ) (xs ys : List A) → n ≤ length xs → drop n (xs ++ ys) ≡ drop n xs ++ ys
drop-append zero xs ys h = refl
drop-append (suc n) [] ys h = absurd (omega (arith, h))
drop-append (suc n) (x ∷ xs) ys h = drop-append n xs ys (omega (arith, h))

receive_event-extend :
    (e : Option SseEvent) (bytes : List ℕ) (p : SseParser)
    → receive_event e (extend bytes p) ≡ extend bytes (receive_event e p)
receive_event-extend none bytes p = refl
receive_event-extend (some e) bytes p = refl

module _ {J I : Type 0} where
  -- More bytes behind those that a turn leaves.
  abbrev pub extend_step : List ℕ → Step (StreamError J I) → Step (StreamError J I)
  extend_step bytes done = done
  extend_step bytes (failed q x) = failed (extend bytes q) x
  extend_step bytes (parsed q e) = parsed (extend bytes q) e

  read_frame-extend :
      (u : Utf8) (frame bytes : List ℕ) (p : SseParser)
      → read_frame {J = J} {I = I} u frame (extend bytes p)
        ≡ extend_step bytes (read_frame u frame p)
  read_frame-extend valid frame bytes p = rw (receive_event-extend _ bytes p) refl
  read_frame-extend incomplete frame bytes p = refl
  read_frame-extend invalid frame bytes p = refl

  take_frame-extend :
      (r : ℕ × ℕ) (bytes : List ℕ) (p : SseParser)
      → Within p.buffer r
      → take_frame {J = J} {I = I} (some r) (extend bytes p)
        ≡ extend_step bytes (take_frame (some r) p)
  take_frame-extend (n, l) bytes p w = elim (Bool-cases (ltb p.max_buffer_size n)) [
    | inl e ↦ rw e refl
    | inr e ↦
        rw
          (
            e,
            take-append n p.buffer bytes (omega (arith, w.0)),
            drop-append (n + l) p.buffer bytes (w.0),
          )
          (read_frame-extend _ (take n p.buffer) bytes
            (record p { buffer = drop (n + l) p.buffer }))
  ]

  -- A turn that does something does the same with more bytes behind those in the buffer, which then
  -- stand behind what it leaves.
  pub step-extend :
      (r : ℕ × ℕ) (bytes : List ℕ) (p : SseParser)
      → find_event_boundary p.buffer ≡ some r
      → step {J = J} {I = I} (extend bytes p) ≡ extend_step bytes (step p)
  unfolding step
  step-extend r bytes p h =
      rw (find_event_boundary-append p.buffer bytes r h, h)
        (take_frame-extend r bytes p (find_event_boundary-Within p.buffer r h))

-- A turn that reads a frame leaves fewer bytes.
abbrev pub Shorter : {E : Type 0} → ℕ → Step E → Type 0
Shorter n done = Unit
Shorter n (failed q x) = Unit
Shorter n (parsed q e) = length q.buffer < n

receive_event-buffer : (e : Option SseEvent) (p : SseParser) → (receive_event e p).buffer ≡ p.buffer
receive_event-buffer none p = refl
receive_event-buffer (some e) p = refl

module _ (J I : Type 0) where
  read_frame-Shorter :
      (u : Utf8) (frame : List ℕ) (p : SseParser) (n : ℕ)
      → length p.buffer < n
      → Shorter n (read_frame {J = J} {I = I} u frame p)
  read_frame-Shorter valid frame p n h = rw (receive_event-buffer (parse_event frame) p) h
  read_frame-Shorter incomplete frame p n h = tt
  read_frame-Shorter invalid frame p n h = tt

  take_frame-Shorter :
      (r : ℕ × ℕ) (p : SseParser)
      → Within p.buffer r
      → Shorter (length p.buffer) (take_frame {J = J} {I = I} (some r) p)
  take_frame-Shorter (n, l) p w = elim (Bool-cases (ltb p.max_buffer_size n)) [
    | inl e ↦ rw e tt
    | inr e ↦ rw e (
        read_frame-Shorter _ (take n p.buffer) (record p { buffer = drop (n + l) p.buffer }) _
          (omega (arith, w.0, w.1, length-drop (n + l) p.buffer)))
  ]

  pub step-Shorter : (p : SseParser) → Shorter (length p.buffer) (step {J = J} {I = I} p)
  unfolding step
  step-Shorter p = elim (Option-cases (find_event_boundary p.buffer)) [
    | inl e ↦ rw e tt
    | inr (r, e) ↦ rw e (take_frame-Shorter r p (find_event_boundary-Within p.buffer r e))
  ]

  read_frame-moves :
      (u : Utf8) (frame : List ℕ) (p : SseParser) → read_frame {J = J} {I = I} u frame p ≢ done
  read_frame-moves valid frame p h = cc h
  read_frame-moves incomplete frame p h = cc h
  read_frame-moves invalid frame p h = cc h

  pub step-moves :
      (r : ℕ × ℕ) (p : SseParser)
      → find_event_boundary p.buffer ≡ some r
      → step {J = J} {I = I} p ≢ done
  unfolding step
  step-moves (n, l) p e h = elim (Bool-cases (ltb p.max_buffer_size n)) [
    | inl o ↦ cc (rw (e, o) at h)
    | inr o ↦ read_frame-moves _ _ _ (rw (e, o) at h)
  ]
