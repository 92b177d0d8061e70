-- ===== src/Retries/Policy/Total.antt =====
-- The loop ends after at most `max_attempts` attempts, and a rule for what it ends with.
use serdes_ai.Prelude.{ℕ, zero, suc, ◌+◌, ◌-◌, Option, none, ◌≤◌, ◌<◌, ◌≡◌, refl, some, max, arith}
use serdes_ai.Prelude.Result.{Result, ok}
use serdes_ai.Retries.Error.{RetryFailure}
use serdes_ai.Retries.Floats.{Floats}
use serdes_ai.Retries.Policy.{
  Run, Locals, Turn, done, again, panics, deadline, turn, loop, with_retry_policy,
}

module _ {ℓ κ} {A E : Type ℓ} where
  -- What `P` at the start of a turn gives: `Q` of a return, or `P` again.
  pub data Keeps (P : Locals E → Type κ) (Q : Result A (RetryFailure E) → Locals E → Type κ)
      : Turn A E → Type (ℓ ⊔ κ) where
    returns : {res : Result A (RetryFailure E)} {s : Locals E} → Q res s → Keeps P Q (done res s)
    continues : {s : Locals E} → P s → Keeps P Q (again s)

module _ {ℓ} {f : Floats} {A E : Type ℓ} (r : Run f A E) (d : Option ℕ) where
  abbrev Counts : Locals E → Turn A E → Type 0
  Counts s (done res t) = t.attempts ≡ suc s.attempts
  Counts s (again t) = (t.attempts ≡ suc s.attempts) × (suc s.attempts < r.policy.max_attempts)
  Counts s (panics p) = Unit

  turn-Counts : (s : Locals E) → Counts s (turn r d s)
  unfolding turn
  turn-Counts s = ground arith

  module _ {κ} (P : Locals E → Type κ) (Q : Result A (RetryFailure E) → Locals E → Type κ) where
    abbrev Returns : ℕ → Locals E → Type (ℓ ⊔ κ)
    Returns fuel s =
        (res : Result A (RetryFailure E)) × (t : Locals E) × (loop r d fuel s ≡ some (ok (res, t)))
        × Q res t

    -- One turn, given what the rest of the loop does.
    resume :
        (fuel : ℕ) (s : Locals E) (t : Turn A E)
        → turn r d s ≡ t
        → Counts s t
        → Keeps P Q t
        → ((u : Locals E)
            → u.attempts ≡ suc s.attempts
            → suc s.attempts < r.policy.max_attempts
            → P u
            → Returns fuel u)
        → Returns (suc fuel) s
    unfolding loop
    resume fuel s t e c (returns {res = res} {s = u} q) next = (res, u, rw (e, loop), q)
    resume fuel s t e c (continues {s = u} p) next = rw (e, loop) (next u c.0 c.1 p)

    loop_rule :
        ((s : Locals E) → P s → Keeps P Q (turn r d s))
        → (fuel : ℕ) (s : Locals E) → r.policy.max_attempts ≤ s.attempts + suc fuel
        → P s
        → Returns (suc fuel) s
    loop_rule keep zero s h p =
        resume zero s (turn r d s) refl (turn-Counts s) (keep s p) λ u e c. absurd (omega arith)
    loop_rule keep (suc fuel) s h p =
        resume (suc fuel) s (turn r d s) refl (turn-Counts s) (keep s p)
          λ u e c. loop_rule keep fuel u (omega arith)

    -- From the first turn on, where the deadline is an instant.
    pub with_retry_policy_rule :
        deadline r ≡ ok d
        → ((s : Locals E) → P s → Keeps P Q (turn r d s))
        → P (record { attempts = 0; last_error = none; now = r.started })
        → (res : Result A (RetryFailure E)) × (t : Locals E) × (with_retry_policy r
            ≡ some (ok (res, t)))
          × Q res t
    unfolding with_retry_policy
    with_retry_policy_rule in_range keep p =
        let m = r.policy.max_attempts in
        let e : max m 1 ≡ suc (m - 1) = omega arith in
        rw (in_range, with_retry_policy, e) (loop_rule keep (m - 1) _ (omega arith) p)
