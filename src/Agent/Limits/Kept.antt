-- ===== src/Agent/Limits/Kept.antt =====
-- What a check that succeeds says of the number of requests.
use serdes_ai.Prelude.{ℕ, ◌≤◌, ◌≡◌, some, arith}
use serdes_ai.Prelude.Result.{Result, ok, ◌>>=◌, >>=-ok}
use serdes_ai.Agent.Types.{
  UsageLimitError, request_tokens, response_tokens, total_tokens, request_count, tool_calls,
}
use serdes_ai.Agent.Limits.{UsageLimits, RunUsage, within, check, check_time, check_all}

within-le :
    (limit used : ℕ) (error : ℕ → ℕ → UsageLimitError)
    → within (some limit) used error ≡ ok tt
    → used ≤ limit
within-le limit used error h = ground arith

check-le :
    (l : UsageLimits) (u : RunUsage) {limit : ℕ}
    → l.max_requests ≡ some limit
    → check l u ≡ ok tt
    → u.request_count ≤ limit
unfolding check
check-le l u {limit} q h =
    let rest = λ (r : Result (Unit {0}) UsageLimitError). λ (v : Unit {0}). r in
    let calls : Result (Unit {0}) UsageLimitError =
      within l.max_tool_calls u.tool_call_count tool_calls in
    let requests : Result (Unit {0}) UsageLimitError =
      within l.max_requests u.request_count request_count >>= rest calls in
    let total : Result (Unit {0}) UsageLimitError =
      within l.max_total_tokens u.total_tokens total_tokens >>= rest requests in
    let responded : Result (Unit {0}) UsageLimitError =
      within l.max_response_tokens u.response_tokens response_tokens >>= rest total in
    let r1 =
      >>=-ok (within l.max_request_tokens u.request_tokens request_tokens) (rest responded) h in
    let r2 =
      >>=-ok (within l.max_response_tokens u.response_tokens response_tokens) (rest total) r1.2 in
    let r3 = >>=-ok (within l.max_total_tokens u.total_tokens total_tokens) (rest requests) r2.2 in
    let r4 = >>=-ok (within l.max_requests u.request_count request_count) (rest calls) r3.2 in
    within-le limit u.request_count request_count (rw q at (r4.1))

pub check_all-le :
    (l : UsageLimits) (u : RunUsage) (elapsed : ℕ) {limit : ℕ}
    → l.max_requests ≡ some limit
    → check_all (some l) u elapsed ≡ ok tt
    → u.request_count ≤ limit
unfolding check_all
check_all-le l u elapsed q h = check-le l u q ((>>=-ok (check l u) (λ v. check_time l elapsed) h).1)
