-- ===== src/Sse/Parser/Chunks.antt =====
-- `SseParser::feed`, of serdes-ai-streaming/src/sse.rs, over bytes that come in chunks.
use serdes_ai.Prelude.{
  ℕ, suc, List, [], ◌∷◌, ◌++◌, append_assoc, append-nil, ◌≡◌, refl, sym, ap, ◌∙◌, arith, length,
  flat_map,
}
use serdes_ai.Prelude.Result.{Result, ok, err}
use serdes_ai.Sse.Event.{SseEvent}
use serdes_ai.Sse.Parser.{
  StreamError, SseParser, extend, validate_buffer, checked, validated, parse_buffer, or_clear, feed,
}
use serdes_ai.Sse.Parser.Cut.{Outcome, run, prepend, run-extend}

module _ {J I : Type 0} where
  abbrev next : Outcome J I → (SseParser → Outcome J I) → Outcome J I
  next (p, ok es) rest = prepend es (rest p)
  next (p, err x) rest = (p, err x)

  -- A chunk after another, up to the first error.
  unfoldable pub feed_all : List (List ℕ) → SseParser → Outcome J I
  unfolding feed
  feed_all [] p = (p, ok [])
  feed_all (c ∷ cs) p = next (feed c p) (feed_all cs)

  prepend-append :
      (es fs : List SseEvent) (r : Outcome J I) → prepend es (prepend fs r) ≡ prepend (es ++ fs) r
  prepend-append es fs (p, ok gs) = rw (append_assoc es fs gs) refl
  prepend-append es fs (p, err x) = refl

  next-prepend :
      (es : List SseEvent) (r : Outcome J I) (rest : SseParser → Outcome J I)
      → next (prepend es r) rest ≡ prepend es (next r rest)
  next-prepend es (p, ok fs) rest = sym (prepend-append es fs (rest p))
  next-prepend es (p, err x) rest = refl

  checked-prepend :
      (c : Result (Unit {0}) (StreamError J I)) (p : SseParser) (es fs : List SseEvent)
      → or_clear (checked c p (es ++ fs)) ≡ prepend es (or_clear (checked c p fs))
  checked-prepend (ok u) p es fs = refl
  checked-prepend (err x) p es fs = refl

  validated-prepend :
      (es : List SseEvent) (r : Outcome J I)
      → or_clear (validated (prepend es r)) ≡ prepend es (or_clear (validated r))
  validated-prepend es (p, ok fs) = checked-prepend (validate_buffer p) p es fs
  validated-prepend es (p, err x) = refl

  checked-ok :
      (c : Result (Unit {0}) (StreamError J I)) (p q : SseParser) (es fs : List SseEvent)
      → or_clear (checked c p fs) ≡ (q, ok es)
      → (◌≡◌ {A = Outcome J I} (p, ok fs) (q, ok es)) × (c ≡ ok tt)
  checked-ok (ok tt) p q es fs h = (h, refl)
  checked-ok (err x) p q es fs h = absurd (cc h)

-- Where a feed succeeds, its loop has given what it returns, and its check of the rest passes.
abbrev pub Passed : (J I : Type 0) → Outcome J I → SseParser → List SseEvent → Type 0
Passed J I r q es = (r ≡ (q, ok es)) × (validate_buffer {J = J} {I = I} q ≡ ok tt)

module _ (J I : Type 0) where
  validated-Passed :
      (r : Outcome J I) (q : SseParser) (es : List SseEvent)
      → or_clear (validated r) ≡ (q, ok es)
      → Passed J I r q es
  validated-Passed (p, ok fs) q es h =
      let c = checked-ok (validate_buffer p) p q es fs h in
      (c.0, ap (λ r. validate_buffer (r.0)) (sym (c.0)) ∙ c.1)
  validated-Passed (p, err x) q es h = absurd (cc h)

  pub feed-Passed :
      (bytes : List ℕ) (p q : SseParser) (es : List SseEvent)
      → feed {J = J} {I = I} bytes p ≡ (q, ok es)
      → Passed J I (run (extend bytes p)) q es
  unfolding feed parse_buffer
  feed-Passed bytes p q es h = validated-Passed (run (extend bytes p)) q es h

  -- Bytes that are fed after others that were accepted.
  feed-append :
      (b c : List ℕ) (p q : SseParser) (es : List SseEvent)
      → feed {J = J} {I = I} b p ≡ (q, ok es)
      → feed {J = J} {I = I} (b ++ c) p ≡ prepend es (feed c q)
  unfolding feed parse_buffer
  feed-append b c p q es h =
      rw
        (
          ← append_assoc p.buffer b c,
          run-extend J I (suc (length (p.buffer ++ b))) c (extend b p) (omega arith),
          (feed-Passed b p q es h).0,
        )
        (validated-prepend es (run (extend c q)))

  -- The last chunks do not matter where there are none.
  next-nil : (r : Outcome J I) → next r (feed_all []) ≡ r
  unfolding feed_all
  next-nil (p, ok es) = rw (append-nil es) refl
  next-nil (p, err x) = refl

  -- Where chunks of bytes, one at least, are fed one after the other to a parser and each is accepted,
  -- feeding all of the bytes at once is accepted too: it returns the same events and leaves the parser in
  -- the same state.
  pub feed-concat :
      (c : List ℕ) (cs : List (List ℕ)) (p q : SseParser) (es : List SseEvent)
      → feed_all {J = J} {I = I} (c ∷ cs) p ≡ (q, ok es)
      → feed {J = J} {I = I} (c ++ flat_map (λ d. d) cs) p ≡ (q, ok es)
  unfolding feed_all
  feed-concat c [] p q es h = rw (append-nil c) (sym (next-nil (feed c p)) ∙ h)
  feed-concat c (d ∷ cs) p q es h =
      rw (← append_assoc c d (flat_map (λ d. d) cs))
        (feed-concat (c ++ d) cs p q es (joined (feed c p) refl h))
    where
      joined :
          (r : Outcome J I)
          → feed {J = J} {I = I} c p ≡ r
          → next r (feed_all (d ∷ cs)) ≡ (q, ok es)
          → feed_all {J = J} {I = I} ((c ++ d) ∷ cs) p ≡ (q, ok es)
      joined (p', ok fs) e k =
          ap (λ r. next r (feed_all cs)) (feed-append c d p p' fs e)
          ∙ next-prepend fs (feed d p') (feed_all cs)
          ∙ k
      joined (p', err x) e k = absurd (cc k)
