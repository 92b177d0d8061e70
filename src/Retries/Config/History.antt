-- ===== src/Retries/Config/History.antt =====
-- What the result and the state of `with_retry_state` say of the attempts.
use serdes_ai.Prelude.{
  ℕ, zero, suc, ◌+◌, ◌*◌, ◌≤◌, ◌<◌, ◌≡◌, refl, ap, ◌∙◌, ◌⊎◌, inl, inr, true, false, ◌&&◌, some,
  none, List, [], ◌∷◌, ◌++◌, ltb, Bool-cases, arith,
}
use native.Mathlib.Nat.{mul-le-mul_right}
use serdes_ai.Prelude.Result.{Result, ok, err}
use serdes_ai.Retries.Error.{RetryableError}
use serdes_ai.Retries.Floats.{Floats, duration_mod}
use serdes_ai.Retries.Config.Plain.{forget, with_retry-forget}
use serdes_ai.Retries.Condition.{condition_should_retry}
use serdes_ai.Retries.Config.{
  Call, AttemptInfo, RetryState, max_attempts, wait_for, retried, waited, settle, turn, with_retry,
  with_retry_state,
}
use serdes_ai.Retries.Config.Total.{Keeps, returns, continues, with_retry_state_rule}

abbrev pub total_wait : List AttemptInfo → ℕ
total_wait [] = 0
total_wait (i ∷ is) = i.wait_time + total_wait is

total_wait-append :
    (is js : List AttemptInfo) → total_wait (is ++ js) ≡ total_wait is + total_wait js
total_wait-append [] js = omega arith
total_wait-append (i ∷ is) js = omega (arith, total_wait-append is js)

module _ {f : Floats} {X A : Type 0} (c : Call f X A) where
  abbrev pub failure : ℕ → RetryableError X → ℕ → AttemptInfo
  failure n e wait = record {
    attempt = n;
    success = false;
    error = some (c.display e);
    wait_time = wait;
  }

  abbrev pub success_at : ℕ → AttemptInfo
  success_at n = record { attempt = n; success = true; error = none; wait_time = 0 }

  -- The first n attempts failed with errors that the configuration retries, and `history` has one
  -- entry for each, in order, with the wait that follows the attempt.
  abbrev pub Failures : ℕ → List AttemptInfo → Type 0
  Failures zero history = history ≡ []
  Failures (suc n) history =
      (e : RetryableError X) × (wait : ℕ) × (before : List AttemptInfo) × (c.operation (suc n)
        ≡ err e)
      × (wait_for c (suc n) e ≡ ok wait)
      × (condition_should_retry c.config.retry_on e ≡ true)
      × (history ≡ before ++ failure (suc n) e wait ∷ [])
      × Failures n before

  -- How the last attempt ends the loop, after the entries `before`.
  abbrev pub Ends : ℕ → List AttemptInfo → Result A (RetryableError X) → List AttemptInfo → Type 0
  Ends n before (ok value) history = history ≡ before ++ success_at n ∷ []
  Ends n before (err e) history =
      (history ≡ before)
      × ((max_attempts c ≤ n) ⊎ (condition_should_retry c.config.retry_on e ≡ false))

  -- No wait is more than the bound, and as many as there are attempts are still a duration.
  abbrev pub WaitsFit : ℕ → Type 0
  WaitsFit bound =
      ((n : ℕ) (e : RetryableError X) → (wait : ℕ) × (wait_for c n e ≡ ok wait) × (wait ≤ bound))
      × (max_attempts c * bound < duration_mod)

  record Inv (bound : ℕ) (s : RetryState) : Type 0 where
    failures : Failures s.attempt s.history
    waited : s.total_wait_time ≡ total_wait s.history
    room : s.attempt < max_attempts c
    fits : s.total_wait_time ≤ s.attempt * bound

  -- The n-th attempt was the last.
  record Post (res : Result A (RetryableError X)) (t : RetryState) : Type 0 where
    n : ℕ
    before : List AttemptInfo
    counted : t.attempt ≡ suc n
    bound : suc n ≤ max_attempts c
    last : c.operation (suc n) ≡ res
    failures : Failures n before
    ends : Ends (suc n) before res t.history
    waited : t.total_wait_time ≡ total_wait t.history

  retried-ok :
      (n : ℕ) (e : RetryableError X) (s : RetryState) (wait : ℕ)
      → wait_for c n e ≡ ok wait
      → s.total_wait_time + wait < duration_mod
      → retried c n e s ≡ ok (waited c n e s wait (s.total_wait_time + wait))
  unfolding retried
  retried-ok n e s wait w fit =
      let small : ltb (s.total_wait_time + wait) duration_mod ≡ true = ground (arith, fit) in
      rw (w, small) refl

  module _ (bound : ℕ) (fit : WaitsFit bound) where
    settle_err-Keeps :
        (e : RetryableError X) (s : RetryState)
        → Inv bound s
        → c.operation (suc s.attempt) ≡ err e
        → Keeps c (Inv bound) Post (settle c (suc s.attempt) (err e) s)
    unfolding settle waited
    settle_err-Keeps e s i o =
        let (wait, w, small) = fit.0 (suc s.attempt) e in
        let most : s.total_wait_time + wait ≤ suc s.attempt * bound =
          omega (arith, i.fits, small) in
        let all = mul-le-mul_right {m = suc s.attempt} {n = max_attempts c} bound i.room in
        let done = retried-ok (suc s.attempt) e s wait w (omega (arith, most, all, fit.1)) in
        elim (Bool-cases
          (ltb (suc s.attempt) (max_attempts c) && condition_should_retry c.config.retry_on e)) [
            | inl more ↦
                rw (more, settle, done)
                  (continues (record {
                    failures = (e, wait, s.history, o, w, ground arith, refl, i.failures);
                    waited = omega (
                      arith,
                      i.waited,
                      total_wait-append s.history (failure (suc s.attempt) e wait ∷ []),
                    );
                    room = ground arith;
                    fits = most;
                  }))
            | inr stop ↦ rw stop (
                returns (record {
                  n = s.attempt;
                  before = s.history;
                  counted = refl;
                  bound = i.room;
                  last = o;
                  failures = i.failures;
                  ends = (refl, ground arith);
                  waited = i.waited;
                }))
          ]

    settle-Keeps :
        (x : Result A (RetryableError X)) (s : RetryState)
        → Inv bound s
        → c.operation (suc s.attempt) ≡ x
        → Keeps c (Inv bound) Post (settle c (suc s.attempt) x s)
    unfolding settle
    settle-Keeps (ok value) s i o = returns (record {
      n = s.attempt;
      before = s.history;
      counted = refl;
      bound = i.room;
      last = o;
      failures = i.failures;
      ends = refl;
      waited =
          omega (arith, i.waited, total_wait-append s.history (success_at (suc s.attempt) ∷ []));
    })
    settle-Keeps (err e) s i o = settle_err-Keeps e s i o

    turn-Keeps : (s : RetryState) → Inv bound s → Keeps c (Inv bound) Post (turn c s)
    unfolding turn
    turn-Keeps s i = settle-Keeps (c.operation (suc s.attempt)) s i refl

  max_attempts-pos : 0 < max_attempts c
  unfolding max_attempts
  max_attempts-pos = omega arith

  -- Where every wait is within a bound and the waits of all attempts together are a duration, the two
  -- entry points always return, and with the same result. It is the result of the last
  -- attempt, and the state counts the attempts, which are at most one more than the retries. All
  -- attempts before the last failed with errors that the configuration retries, and the history has
  -- an entry for each of them, with the wait that follows it; a success is entered too, and a final failure is not. A final failure
  -- is one that is not retried, or the attempts are used up. The total wait is the sum over the
  -- history.
  pub with_retry-history :
      (most : ℕ)
      → WaitsFit most
      → (res : Result A (RetryableError X)) × (t : RetryState) × (n : ℕ) × (before : List
          AttemptInfo)
        × (with_retry_state c ≡ some (ok (res, t)))
        × (with_retry c ≡ some (ok res))
        × (t.attempt ≡ suc n)
        × (suc n ≤ max_attempts c)
        × (c.operation (suc n) ≡ res)
        × Failures n before
        × Ends (suc n) before res t.history
        × (t.total_wait_time ≡ total_wait t.history)
  with_retry-history most fit =
      let (res, t, e, p) =
        with_retry_state_rule c (Inv most) Post (turn-Keeps most fit) (record {
          failures = refl;
          waited = refl;
          room = max_attempts-pos;
          fits = omega arith;
        }) in
      (
        res,
        t,
        p.n,
        p.before,
        e,
        with_retry-forget c ∙ ap (forget c) e,
        p.counted,
        p.bound,
        p.last,
        p.failures,
        p.ends,
        p.waited,
      )
