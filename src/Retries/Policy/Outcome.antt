-- ===== src/Retries/Policy/Outcome.antt =====
-- What the result of `with_retry_policy` says of the attempts that were made.
use serdes_ai.Prelude.{
  ℕ, zero, suc, ◌+◌, ◌-◌, sym, ◌∙◌, unwrap_or, ◌≤◌, ◌<◌, ◌≡◌, refl, ◌⊎◌, inl, inr, Option, none,
  some, max, leb, Bool-cases, arith,
}
use serdes_ai.Prelude.Result.{Result, ok, err}
use serdes_ai.Retries.Error.{RetryFailure, permanent, exhausted, deadline_exceeded}
use serdes_ai.Retries.Floats.{Floats, DurationPanic}
use serdes_ai.Retries.Wait.{calculate}
use serdes_ai.Retries.Policy.{
  Run, RetryDecision, Locals, retry, do_not_retry, turn, attempt, settle, instant, deadline,
  back_off, with_retry_policy,
}
use serdes_ai.Retries.Policy.Total.{Keeps, returns, continues, with_retry_policy_rule}

module _ {ℓ} {f : Floats} {A E : Type ℓ} (r : Run f A E) where
  abbrev outcome : ℕ → Result A E
  outcome n = (r.operation n).result

  -- The n-th attempt failed with `e`, which is worth another attempt.
  abbrev pub FailsWith : ℕ → E → Type ℓ
  FailsWith n e = (outcome n ≡ err e) × ((after : Option ℕ) × (r.classify e ≡ retry after))

  -- The first n attempts all failed so.
  abbrev pub AllFail : ℕ → Type ℓ
  AllFail zero = Unit
  AllFail (suc n) = ((e : E) × FailsWith (suc n) e) × AllFail n

  -- `last_error` is the error of the last of n failed attempts.
  abbrev pub LastOf : ℕ → Option E → Type ℓ
  LastOf zero last = last ≡ none
  LastOf (suc n) last = (e : E) × (last ≡ some e) × (outcome (suc n) ≡ err e)

  -- What a result means, after n failed attempts and one more.
  abbrev pub Explains : ℕ → Result A (RetryFailure E) → Type ℓ
  Explains n (ok value) = outcome (suc n) ≡ ok value
  Explains n (err (permanent e k t)) =
      (k ≡ suc n) × (outcome (suc n) ≡ err e) × (r.classify e ≡ do_not_retry)
  Explains n (err (exhausted e k t)) =
      (k ≡ suc n) × FailsWith (suc n) e × (r.policy.max_attempts ≤ suc n)
  Explains n (err (deadline_exceeded last k t)) =
      (k ≡ suc n)
      × ((budget : ℕ) × (r.policy.total_timeout ≡ some budget) × (budget ≤ t))
      × (LastOf n last ⊎ ((e : E) × (last ≡ some e) × FailsWith (suc n) e))

  record Inv (s : Locals E) : Type ℓ where
    failed : AllFail s.attempts
    last : LastOf s.attempts s.last_error
    room : s.attempts < max r.policy.max_attempts 1

  record Post (res : Result A (RetryFailure E)) (t : Locals E) : Type ℓ where
    n : ℕ
    failed : AllFail n
    bound : suc n ≤ max r.policy.max_attempts 1
    explained : Explains n res

  -- The deadline is that of a budget.
  abbrev IsTimed : Option ℕ → Type 0
  IsTimed none = Unit
  IsTimed (some d) =
      (budget : ℕ) × (r.policy.total_timeout ≡ some budget) × (d ≡ r.started + budget)

  -- A budget whose deadline is past at `now` is over.
  over_budget :
      (d now : ℕ)
      → IsTimed (some d)
      → d ≤ now
      → (budget : ℕ) × (r.policy.total_timeout ≡ some budget) × (budget ≤ now - r.started)
  over_budget d now (budget, e, q) h = (budget, e, omega (arith, q, h))

  instant-IsTimed :
      (budget : ℕ) (o : Option ℕ) (d : Option ℕ)
      → r.policy.total_timeout ≡ some budget
      → r.tokio.checked_add r.started budget ≡ o
      → instant r o ≡ ok d
      → IsTimed d
  unfolding instant
  instant-IsTimed budget none d e q h = absurd (cc h)
  instant-IsTimed budget (some c) none e q h = absurd (cc h)
  instant-IsTimed budget (some c) (some d) e q h =
      let same : c ≡ d = cc h in
      (budget, e, sym same ∙ r.tokio.checked_add-some r.started budget c q)

  deadline_of-IsTimed :
      (b d : Option ℕ)
      → r.policy.total_timeout ≡ b
      → elim b as (λ x. Result (Option ℕ) DurationPanic) [
        | none ↦ ok none
        | some budget ↦ instant r (r.tokio.checked_add r.started budget)
      ]
        ≡ ok d
      → IsTimed d
  deadline_of-IsTimed none none e h = tt
  deadline_of-IsTimed none (some d) e h = absurd (cc h)
  deadline_of-IsTimed (some b) d e h = instant-IsTimed b _ d e refl h

  deadline-IsTimed : (d : Option ℕ) → deadline r ≡ ok d → IsTimed d
  unfolding deadline
  deadline-IsTimed d h = deadline_of-IsTimed r.policy.total_timeout d refl h

  -- No duration that the policy asks for is out of range: the waits can be computed, and the deadline
  -- is an instant.
  abbrev pub InRange : Type 0
  InRange =
      ((n : ℕ) (after : Option ℕ)
        → (delay : ℕ) × (calculate (r.jitter_draw n) r.policy.wait n after ≡ ok delay))
      × ((d : Option ℕ) × (deadline r ≡ ok d))

  module _
      (waits : (n : ℕ) (after : Option ℕ)
        → (delay : ℕ) × (calculate (r.jitter_draw n) r.policy.wait n after ≡ ok delay)) where
    module _ (n : ℕ) (failed : AllFail n) where
      abbrev locals : Option E → ℕ → Locals E
      locals last now = record { attempts = suc n; last_error = last; now = now }

      stopped :
          (res : Result A (RetryFailure E)) (t : Locals E)
          → suc n ≤ max r.policy.max_attempts 1
          → Explains n res
          → Post res t
      stopped res t b x = record { n = n; failed = failed; bound = b; explained = x }

      module _ (e : E) (fails : FailsWith (suc n) e) (more : suc n < r.policy.max_attempts) where
        goes_on : (t : ℕ) → Inv (locals (some e) t)
        goes_on t = record {
          failed = ((e, fails), failed);
          last = (e, refl, fails.0);
          room = omega arith;
        }

        back_off-Keeps :
            (delay : ℕ) (d : Option ℕ) (last : Option E) (t : ℕ)
            → IsTimed d
            → Keeps Inv Post (back_off r e delay d (locals last t))
        unfolding back_off
        back_off-Keeps delay none last t timed = continues (goes_on (r.tokio.wake (t + delay)))
        back_off-Keeps delay (some d) last t timed =
            let late = λ (u : Locals E) (now : ℕ) (h : d ≤ now).
              stopped (err (deadline_exceeded (some e) (suc n) (now - r.started))) u (omega arith)
                (refl, over_budget d now timed h, inr (e, refl, fails)) in
            elim (Bool-cases (leb d t)) [
              | inl over ↦ rw (over, back_off) (returns (late _ t (ground arith)))
              | inr early ↦
                  rw (early, back_off)
                    (elim (Bool-cases (leb d (unwrap_or (r.tokio.checked_add t delay) d))) [
                      | inl over ↦
                          rw (over, back_off)
                            (returns (late _ (r.tokio.wake d) (r.tokio.wake-ge d)))
                      | inr soon ↦ rw (soon, back_off) (continues (goes_on _))
                    ])
            ]

      settle_err-Keeps :
          (b : Option ℕ) (e : E) (d : RetryDecision) (last : Option E) (t : ℕ)
          → n < max r.policy.max_attempts 1
          → outcome (suc n) ≡ err e
          → r.classify e ≡ d
          → IsTimed b
          → Keeps Inv Post (settle r b (err e) (locals last t))
      unfolding settle
      settle_err-Keeps b e do_not_retry last t room o c timed =
          rw (c, settle)
            (returns (stopped (err (permanent e (suc n) _)) _ (omega arith) (refl, o, c)))
      settle_err-Keeps b e (retry after) last t room o c timed =
          let (delay, w) = waits (suc n) after in
          rw (c, settle)
            (elim (Bool-cases (leb r.policy.max_attempts (suc n))) [
              | inl full ↦ rw full (
                  returns (
                    stopped (err (exhausted e (suc n) _)) _ (omega arith)
                      (refl, (o, (after, c)), ground arith)))
              | inr more ↦
                  rw (more, settle, w)
                    (back_off-Keeps e (o, (after, c)) (ground arith) delay b last t timed)
            ])

      settle-Keeps :
          (b : Option ℕ) (x : Result A E) (last : Option E) (t : ℕ)
          → n < max r.policy.max_attempts 1
          → outcome (suc n) ≡ x
          → IsTimed b
          → Keeps Inv Post (settle r b x (locals last t))
      unfolding settle
      settle-Keeps b (ok value) last t room o timed = returns (stopped (ok value) _ (omega arith) o)
      settle-Keeps b (err e) last t room o timed =
          settle_err-Keeps b e (r.classify e) last t room o refl timed

      attempt-Keeps :
          (d : Option ℕ) (last : Option E) (t : ℕ)
          → n < max r.policy.max_attempts 1
          → LastOf n last
          → IsTimed d
          → Keeps Inv Post
              (attempt r d (suc n) (record { attempts = n; last_error = last; now = t }))
      unfolding attempt
      attempt-Keeps none last t room l timed = settle-Keeps none _ last _ room refl tt
      attempt-Keeps (some d) last t room l timed =
          elim (Bool-cases (r.tokio.in_time (t + (r.operation (suc n)).duration) d)) [
            | inl e ↦ rw e (settle-Keeps (some d) _ last _ room refl timed)
            | inr e ↦ rw e (
                returns (
                  stopped (err (deadline_exceeded last (suc n) _)) _ (omega arith)
                    (refl, over_budget d _ timed (r.tokio.wake-ge d), inl l)))
          ]

    turn-Keeps : (d : Option ℕ) → IsTimed d → (s : Locals E) → Inv s → Keeps Inv Post (turn r d s)
    unfolding turn
    turn-Keeps d timed s i =
        attempt-Keeps s.attempts i.failed d s.last_error s.now i.room i.last timed

  -- A run none of whose waits and deadline is out of range always returns, after n failed attempts that
  -- were worth another one and one more attempt, which makes no more attempts than the policy allows (and at least one); and its result is that
  -- of the last attempt, or names why it stopped there: the error of the last attempt and that it is
  -- permanent, or that the attempts are used up, or that a time budget is set and the time
  -- that the result states is no less.
  pub with_retry_policy-Explains :
      InRange
      → (res : Result A (RetryFailure E)) × (t : Locals E) × (n : ℕ) × (with_retry_policy r
          ≡ some (ok (res, t)))
        × AllFail n
        × (suc n ≤ max r.policy.max_attempts 1)
        × Explains n res
  with_retry_policy-Explains (waits, (d, in_range)) =
      let (res, t, e, p) =
        with_retry_policy_rule r d Inv Post in_range
          (turn-Keeps waits d (deadline-IsTimed d in_range))
          (record { failed = tt; last = refl; room = omega arith }) in
      (res, t, p.n, e, p.failed, p.bound, p.explained)
