-- ===== src/Retries/Policy.antt =====
-- `RetryPolicy` of serdes-ai-retries/src/config.rs and `with_retry_policy` of src/executor.rs.
-- The future that the operation returns is a script: the n-th attempt takes a time and has a result.
-- Code between two awaits takes no time, and an attempt that never completes is one that is later
-- than any deadline. `Tokio` holds what the loop uses of tokio's timers.
pub mod Total
pub mod Outcome
use serdes_ai.Prelude.{
  ℕ, zero, suc, ◌+◌, ◌-◌, ◌≤◌, ◌<◌, ◌≡◌, Bool, true, false, Option, none, some, max, unwrap_or, ltb,
  leb, if◌then◌else◌,
}
use serdes_ai.Prelude.Result.{Result, ok, err}
use serdes_ai.Retries.Error.{RetryFailure, permanent, exhausted, deadline_exceeded}
use serdes_ai.Retries.Floats.{Floats, DurationPanic, duration_panics}
use serdes_ai.Retries.Wait.{WaitStrategy, no_wait, exponential_jitter, retry_after, calculate}

pub record RetryPolicy (f : Floats) : Type 0 where
  pub max_attempts : ℕ
  pub wait : WaitStrategy f
  pub total_timeout : Option ℕ

-- Durations in nanoseconds; the floats 2.0 and 0.1 are arguments.
abbrev pub for_model_requests : {f : Floats} → f.Float → f.Float → RetryPolicy f
for_model_requests two tenth = record {
  max_attempts = 3;
  wait = retry_after (exponential_jitter 500_000_000 30_000_000_000 two tenth) 60_000_000_000;
  total_timeout = some 120_000_000_000;
}

abbrev pub disabled : {f : Floats} → RetryPolicy f
disabled = record { max_attempts = 1; wait = no_wait; total_timeout = none }

unfoldable pub set_max_attempts : {f : Floats} → ℕ → RetryPolicy f → RetryPolicy f
set_max_attempts n policy = record policy { max_attempts = max n 1 }

pub data RetryDecision : Type 0 where
  retry : (after : Option ℕ) → RetryDecision
  do_not_retry : RetryDecision

pub record Tokio : Type 0 where
  -- `timeout_at`: does it give the result of a future that completes at the first time, with the second
  -- as its deadline? (A future that does not yield may complete later and still be given.)
  pub in_time : ℕ → ℕ → Bool
  -- `Instant::checked_add`; `+` panics where there is no such instant.
  pub checked_add : ℕ → ℕ → Option ℕ
  pub checked_add-some : (a b c : ℕ) → checked_add a b ≡ some c → c ≡ a + b
  -- when a task runs again that sleeps until a time: not before it
  pub wake : ℕ → ℕ
  pub wake-ge : (t : ℕ) → t ≤ wake t

pub record Attempt {ℓ} (A E : Type ℓ) : Type ℓ where
  pub duration : ℕ
  pub result : Result A E

-- The local variables of the loop, and the clock.
pub record Locals {ℓ} (E : Type ℓ) : Type ℓ where
  pub attempts : ℕ
  pub last_error : Option E
  pub now : ℕ

-- One turn of the loop returns, goes on, or panics.
pub data Turn {ℓ} (A E : Type ℓ) : Type ℓ where
  done : Result A (RetryFailure E) → Locals E → Turn A E
  again : Locals E → Turn A E
  panics : DurationPanic → Turn A E

-- What a run comes to: the result with the locals at the `return`, or a panic; `none`: out of fuel.
abbrev pub Answer {ℓ} : (A E : Type ℓ) → Type ℓ
Answer A E = Option (Result (Result A (RetryFailure E) × Locals E) DurationPanic)

-- The arguments of a run: the policy, the operation, the classification, and what the environment
-- decides (the timers, the jitter drawn before each wait, the time at the start).
pub record Run {ℓ} (f : Floats) (A E : Type ℓ) : Type ℓ where
  pub policy : RetryPolicy f
  pub operation : ℕ → Attempt A E
  pub classify : E → RetryDecision
  pub tokio : Tokio
  pub jitter_draw : ℕ → f.Float
  pub started : ℕ

module _ {ℓ} {f : Floats} {A E : Type ℓ} (r : Run f A E) where
  open r use {policy, operation, classify, tokio, jitter_draw, started}
  open policy use {max_attempts, wait, total_timeout}

  -- `Instant + Duration`
  instant : Option ℕ → Result (Option ℕ) DurationPanic
  instant none = err duration_panics
  instant (some d) = ok (some d)

  unfoldable pub deadline : Result (Option ℕ) DurationPanic
  unfolding instant
  deadline = elim total_timeout [
    | none ↦ ok none
    | some budget ↦ instant (tokio.checked_add started budget)
  ]

  elapsed : Locals E → ℕ
  elapsed s = s.now - started

  give_up : Option E → Locals E → Turn A E
  unfolding elapsed
  give_up last_error s = done (err (deadline_exceeded last_error s.attempts (elapsed s))) s

  -- From `let wait = …` to `sleep(wait).await`.
  back_off : E → ℕ → Option ℕ → Locals E → Turn A E
  unfolding give_up
  back_off error delay none s =
      again (record s { last_error = some error; now = tokio.wake (s.now + delay) })
  back_off error delay (some d) s =
      if leb d s.now
      then give_up (some error) s
      else if leb d (unwrap_or (tokio.checked_add s.now delay) d)
      then give_up (some error) (record s { last_error = some error; now = tokio.wake d })
      else again (record s { last_error = some error; now = tokio.wake (s.now + delay) })

  -- `match result`
  settle : Option ℕ → Result A E → Locals E → Turn A E
  unfolding back_off elapsed
  settle d (ok value) s = done (ok value) s
  settle d (err error) s = elim (classify error) [
    | do_not_retry ↦ done (err (permanent error s.attempts (elapsed s))) s
    | retry after ↦
        if leb max_attempts s.attempts
        then done (err (exhausted error s.attempts (elapsed s))) s
        else elim (calculate (jitter_draw s.attempts) wait s.attempts after) [
          | ok delay ↦ back_off error delay d s
          | err p ↦ panics p
        ]
  ]

  -- The attempt, under `timeout_at` if there is a deadline. The counter stays below the `u32` limit,
  -- since the loop stops at `max_attempts`.
  attempt : Option ℕ → ℕ → Locals E → Turn A E
  unfolding settle give_up
  attempt none n s =
      settle none (operation n).result
        (record s { attempts = n; now = s.now + (operation n).duration })
  attempt (some d) n s =
      let finish = s.now + (operation n).duration in
      if tokio.in_time finish d
      then settle (some d) (operation n).result (record s { attempts = n; now = finish })
      else give_up s.last_error (record s { attempts = n; now = tokio.wake d })

  pub turn : Option ℕ → Locals E → Turn A E
  unfolding attempt
  turn d s = attempt d (suc s.attempts) s

  loop : Option ℕ → ℕ → Locals E → Answer A E
  loop d zero s = none
  loop d (suc fuel) s = elim (turn d s) [
    | done result s' ↦ some (ok (result, s'))
    | again s' ↦ loop d fuel s'
    | panics p ↦ some (err p)
  ]

  pub with_retry_policy : Answer A E
  unfolding deadline
  with_retry_policy = elim deadline [
    | ok d ↦ loop d (max max_attempts 1) (record { attempts = 0; last_error = none; now = started })
    | err p ↦ some (err p)
  ]
