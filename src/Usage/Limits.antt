-- ===== src/Usage/Limits.antt =====
-- `UsageLimits::check` against an independent reading of the limits.
use serdes_ai.Prelude.{ℕ, ◌≤◌, ◌<◌, ◌≡◌, ◌↔◌, false, Option, none, some, length, arith}
use serdes_ai.Prelude.Result.{ok, err}
use serdes_ai.Usage.{
  RunUsage, UsageLimits, UsageLimitType, UsageLimitExceeded, request_tokens, response_tokens,
  total_tokens, requests, check, has_limits,
}

-- What a limit bounds, and the value that it is compared with.
abbrev pub limit_of : UsageLimits → UsageLimitType → Option ℕ
limit_of l request_tokens = l.max_request_tokens
limit_of l response_tokens = l.max_response_tokens
limit_of l total_tokens = l.max_total_tokens
limit_of l requests = l.max_requests

abbrev pub value_of {ℓ} : {V : Type ℓ} → RunUsage V → UsageLimitType → ℕ
value_of run request_tokens = run.total_request_tokens
value_of run response_tokens = run.total_response_tokens
value_of run total_tokens = run.total_tokens
value_of run requests = length run.requests

abbrev Within : Option ℕ → ℕ → Type 0
Within none n = Unit
Within (some max) n = n ≤ max

-- The order in which the limits are checked.
abbrev pub rank : UsageLimitType → ℕ
rank request_tokens = 0
rank response_tokens = 1
rank total_tokens = 2
rank requests = 3

module _ {ℓ} {V : Type ℓ} (l : UsageLimits) (run : RunUsage V) where
  abbrev pub IsWithin : UsageLimitType → Type 0
  IsWithin t = Within (limit_of l t) (value_of run t)

  -- `check` accepts a run exactly if each of the four values, which are totals of
  -- the run, is at most its limit, where one is set.
  pub check-ok : (check l run ≡ ok tt) ↔ ((t : UsageLimitType) → IsWithin t)
  unfolding check
  check-ok = (
    λ e. elim [
      | request_tokens ↦ ground arith
      | response_tokens ↦ ground arith
      | total_tokens ↦ ground arith
      | requests ↦ ground arith
    ],
    λ h. ground (arith, h request_tokens, h response_tokens, h total_tokens, h requests),
  )

  -- A refusal names a limit that is set and that the total of the run passes, with this and the bound; and all limits
  -- that are checked before it are kept.
  pub check-err :
      (e : UsageLimitExceeded)
      → check l run ≡ err e
      → (limit_of l e.limit_type ≡ some e.max)
        × (value_of run e.limit_type ≡ e.current)
        × (e.max < e.current)
        × ((t : UsageLimitType) → rank t < rank e.limit_type → IsWithin t)
  unfolding check
  check-err e h = (
    ground arith,
    ground arith,
    ground arith,
    elim [
      | request_tokens ↦ ground arith
      | response_tokens ↦ ground arith
      | total_tokens ↦ ground arith
      | requests ↦ ground arith
    ],
  )

-- A refusal implies that some limit was set.
pub check-has_limits {ℓ} :
    {V : Type ℓ} (l : UsageLimits) (run : RunUsage V) → has_limits l ≡ false → check l run ≡ ok tt
unfolding check has_limits
check-has_limits l run h = ground arith
