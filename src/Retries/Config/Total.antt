-- ===== src/Retries/Config/Total.antt =====
-- The loop of `with_retry_state` always returns, and a rule for what it returns.
use serdes_ai.Prelude.{
  ℕ, zero, suc, ◌+◌, ◌≤◌, ◌<◌, ◌≡◌, refl, sym, ap, inl, inr, false, ◌&&◌, some, [], ◌∷◌, ◌++◌, ltb,
  Bool-cases, arith,
}
use serdes_ai.Prelude.Result.{Result, ok, err, >>=-ok, ok_injective, Result-cases}
use serdes_ai.Retries.Error.{RetryableError}
use serdes_ai.Retries.Floats.{Floats, duration_mod, checked}
use serdes_ai.Retries.Condition.{condition_should_retry}
use serdes_ai.Retries.Config.{
  Call, RetryState, default_state, wait_for, waited, settle, Turn, done, again, panics, retried,
  max_attempts, turn, loop, with_retry_state,
}

module _ {f : Floats} {X A : Type 0} (c : Call f X A) where
  -- What `P` at the start of a turn gives: `Q` of a return, or `P` again.
  pub data Keeps (P : RetryState → Type 0) (Q : Result A (RetryableError X) → RetryState → Type 0)
      : Turn c → Type 0 where
    returns :
        {res : Result A (RetryableError X)} {s : RetryState} → Q res s → Keeps P Q (done res s)
    continues : {s : RetryState} → P s → Keeps P Q (again s)

  abbrev Counts : RetryState → Turn c → Type 0
  Counts s (done res t) = t.attempt ≡ suc s.attempt
  Counts s (again t) = (t.attempt ≡ suc s.attempt) × (suc s.attempt < max_attempts c)
  Counts s (panics p) = Unit

  checked-ok : (n m : ℕ) → checked n ≡ ok m → m ≡ n
  checked-ok n m h = elim (Bool-cases (ltb n duration_mod)) [
    | inl e ↦ cc (rw e at h)
    | inr e ↦ absurd (cc (rw e at h))
  ]

  -- What a retried attempt leaves.
  abbrev pub Waited : ℕ → RetryableError X → RetryState → RetryState → Type 0
  Waited n e s t =
      (wait : ℕ) × (wait_for c n e ≡ ok wait)
      × (t ≡ record {
        attempt = n;
        last_error = some (c.display e);
        total_wait_time = s.total_wait_time + wait;
        history =
            s.history
            ++ record { attempt = n; success = false; error = some (c.display e); wait_time = wait }
              ∷ [];
      })

  pub retried-Waited :
      (n : ℕ) (e : RetryableError X) (s t : RetryState) → retried c n e s ≡ ok t → Waited n e s t
  unfolding retried waited
  retried-Waited n e s t h =
      let (wait, w, h') = >>=-ok (wait_for c n e) _ h in
      let (total, k, g) = >>=-ok (checked (s.total_wait_time + wait)) _ h' in
      let sum = checked-ok (s.total_wait_time + wait) total k in
      (wait, w, rw sum at (sym (ok_injective g)))

  settle-Counts :
      (x : Result A (RetryableError X)) (s : RetryState) → Counts s (settle c (suc s.attempt) x s)
  unfolding settle
  settle-Counts (ok value) s = refl
  settle-Counts (err e) s =
      elim (Bool-cases
        (ltb (suc s.attempt) (max_attempts c) && condition_should_retry c.config.retry_on e)) [
          | inl more ↦ elim (Result-cases (retried c (suc s.attempt) e s)) [
            | inl (t, q) ↦
                let w = retried-Waited (suc s.attempt) e s t q in
                rw (more, settle, q) (ap (λ u. u.attempt) w.2, ground (arith, more))
            | inr (p, q) ↦ rw (more, settle, q) tt
          ]
          | inr stop ↦ rw stop refl
        ]

  turn-Counts : (s : RetryState) → Counts s (turn c s)
  unfolding turn
  turn-Counts s = settle-Counts (c.operation (suc s.attempt)) s

  max_attempts-le : max_attempts c ≤ suc c.config.max_retries
  unfolding max_attempts
  max_attempts-le = omega arith

  module _ (P : RetryState → Type 0) (Q : Result A (RetryableError X) → RetryState → Type 0) where
    abbrev Returns : ℕ → RetryState → Type 0
    Returns fuel s =
        (res : Result A (RetryableError X)) × (t : RetryState) × (loop c fuel s
          ≡ some (ok (res, t)))
        × Q res t

    resume :
        (fuel : ℕ) (s : RetryState) (t : Turn c)
        → turn c s ≡ t
        → Counts s t
        → Keeps P Q t
        → ((u : RetryState)
            → u.attempt ≡ suc s.attempt
            → suc s.attempt < max_attempts c
            → P u
            → Returns fuel u)
        → Returns (suc fuel) s
    unfolding loop
    resume fuel s t e count (returns {res = res} {s = u} q) next = (res, u, rw (e, loop), q)
    resume fuel s t e count (continues {s = u} p) next = rw (e, loop) (next u count.0 count.1 p)

    loop_rule :
        ((s : RetryState) → P s → Keeps P Q (turn c s))
        → (fuel : ℕ) (s : RetryState) → max_attempts c ≤ s.attempt + suc fuel
        → P s
        → Returns (suc fuel) s
    loop_rule keep zero s h p =
        resume zero s (turn c s) refl (turn-Counts s) (keep s p) λ u e more. absurd (omega arith)
    loop_rule keep (suc fuel) s h p =
        resume (suc fuel) s (turn c s) refl (turn-Counts s) (keep s p)
          λ u e more. loop_rule keep fuel u (omega arith)

    pub with_retry_state_rule :
        ((s : RetryState) → P s → Keeps P Q (turn c s))
        → P default_state
        → (res : Result A (RetryableError X)) × (t : RetryState) × (with_retry_state c
            ≡ some (ok (res, t)))
          × Q res t
    unfolding with_retry_state
    with_retry_state_rule keep p =
        loop_rule keep c.config.max_retries default_state (omega (arith, max_attempts-le)) p
