-- ===== src/History/Truncate/Tokens.antt =====
-- Which messages `TruncateByTokens` keeps (serdes-ai-agent/src/history.rs).
use serdes_ai.Prelude.{
  ℕ, ◌+◌, ◌≤◌, ◌<◌, min, ◌≡◌, refl, ap, sym, ◌∙◌, ◌⊎◌, inl, inr, Bool-cases, List, [], ◌∷◌, ◌++◌,
  length, take, drop, take-append-drop, reverse, reverse-append, reverse-reverse, reverse-cons, ltb,
  arith,
}
use serdes_ai.History.Message.{ModelRequest}
use serdes_ai.History.Truncate.{TruncateByTokens, tokens, take_while_within, select_by_tokens}

module _ {C : Type 0} where
  tokens-append :
      (e : ModelRequest C → ℕ) (xs ys : List (ModelRequest C))
      → tokens e (xs ++ ys) ≡ tokens e xs + tokens e ys
  unfolding tokens
  tokens-append e [] ys = omega arith
  tokens-append e (x ∷ xs) ys = omega (arith, tokens-append e xs ys)

  tokens-reverse :
      (e : ModelRequest C → ℕ) (xs : List (ModelRequest C)) → tokens e (reverse xs) ≡ tokens e xs
  unfolding tokens
  tokens-reverse e [] = refl
  tokens-reverse e (x ∷ xs) =
      rw (reverse-cons x xs)
        (omega (arith, tokens-append e (reverse xs) (x ∷ []), tokens-reverse e xs))

  -- The loop takes the longest start of its messages that fits what is left.
  pub record Taken (limit : ℕ) (e : ModelRequest C → ℕ) (total : ℕ)
      (ms kept : List (ModelRequest C)) : Type 0 where
    pub left : List (ModelRequest C)
    pub split : kept ++ left ≡ ms
    pub fits : (kept ≡ []) ⊎ (total + tokens e kept ≤ limit)
    pub longest :
        (left ≡ [])
        ⊎ ((m : ModelRequest C) × (r : List (ModelRequest C)) × (left ≡ m ∷ r)
            × (limit < total + tokens e kept + e m))

  cons-Taken :
      (limit : ℕ) (e : ModelRequest C → ℕ) (total : ℕ) (m : ModelRequest C)
      (ms kept : List (ModelRequest C))
      → total + e m ≤ limit
      → Taken limit e (total + e m) ms kept
      → Taken limit e total (m ∷ ms) (m ∷ kept)
  unfolding tokens
  cons-Taken limit e total m ms kept h t = record {
    left = t.left;
    split = rw t.split refl;
    fits = elim t.fits [ inl n ↦ inr (rw n (omega arith)) | inr f ↦ inr (omega (arith, f)) ];
    longest = elim t.longest [ inl n ↦ inl n | inr (o, r, q, l) ↦ inr (o, r, q, omega (arith, l)) ];
  }

  take_while_within-Taken :
      (limit : ℕ) (e : ModelRequest C → ℕ) (total : ℕ) (ms : List (ModelRequest C))
      → Taken limit e total ms (take_while_within limit e total ms)
  unfolding take_while_within tokens
  take_while_within-Taken limit e total [] = record {
    left = [];
    split = refl;
    fits = inl refl;
    longest = inl refl;
  }
  take_while_within-Taken limit e total (m ∷ ms) = elim (Bool-cases (ltb limit (total + e m))) [
    | inl h ↦ rw h (record {
      left = m ∷ ms;
      split = refl;
      fits = inl refl;
      longest = inr (m, ms, refl, ground (arith, h));
    })
    | inr h ↦ rw h (
        cons-Taken limit e total m ms _ (ground (arith, h))
          (take_while_within-Taken limit e (total + e m) ms))
  ]

  -- What stays of a history: its first messages, and the newest of the others.
  pub record IsKept (t : TruncateByTokens C) (ms out : List (ModelRequest C)) : Type 0 where
    pub newest : List (ModelRequest C)
    pub dropped : List (ModelRequest C)
    pub selected : out ≡ take (min t.keep_first_n (length ms)) ms ++ newest
    pub whole : ms ≡ take (min t.keep_first_n (length ms)) ms ++ (dropped ++ newest)
    pub fits : (newest ≡ []) ⊎ (tokens t.estimate_tokens out ≤ t.max_tokens)
    pub longest :
        (dropped ≡ [])
        ⊎ ((m : ModelRequest C) × (older : List (ModelRequest C)) × (dropped ≡ older ++ m ∷ [])
            × (t.max_tokens < tokens t.estimate_tokens out + t.estimate_tokens m))

  -- Truncation by tokens drops one run of messages, after the first `keep_first_n`. What it selects is
  -- within the token limit, unless it is those first messages alone; and the newest message that it
  -- drops would not have fitted.
  pub select_by_tokens-IsKept :
      (t : TruncateByTokens C) (ms : List (ModelRequest C)) → IsKept t ms (select_by_tokens t ms)
  unfolding select_by_tokens
  select_by_tokens-IsKept t ms =
      let n = min t.keep_first_n (length ms) in
      let e = t.estimate_tokens in
      let rs = reverse (drop n ms) in
      let r = take_while_within-Taken t.max_tokens e (tokens e (take n ms)) rs in
      let kept = take_while_within t.max_tokens e (tokens e (take n ms)) rs in
      record {
        newest = reverse kept;
        dropped = reverse r.left;
        selected = refl;
        whole =
            sym (take-append-drop n ms)
            ∙ ap (λ l. take n ms ++ l)
                (sym (reverse-reverse (drop n ms))
                  ∙ ap reverse (sym r.split)
                  ∙ reverse-append kept r.left);
        fits = elim r.fits [
          | inl q ↦ inl (rw q refl)
          | inr f ↦
              inr (
                omega (arith, f, tokens-append e (take n ms) (reverse kept), tokens-reverse e kept))
        ];
        longest = elim r.longest [
          | inl q ↦ inl (rw q refl)
          | inr (m, older, q, l) ↦ inr (
            m,
            reverse older,
            rw q (reverse-cons m older),
            omega (arith, l, tokens-append e (take n ms) (reverse kept), tokens-reverse e kept),
          )
        ];
      }
