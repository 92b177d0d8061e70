-- ===== src/Agent/Limits.antt =====
-- The usage of an agent's run and the limits on it: `RunUsage` and `UsageLimits` of
-- serdes-ai-agent/src/context.rs, which are other types than those of serdes-ai-core.
pub mod Kept
use serdes_ai.Prelude.{
  ℕ, suc, ◌+◌, ◌%◌, ◌≤◌, ◌<◌, ◌≡◌, refl, Bool, true, false, Option, none, some, ltb, if◌then◌else◌,
  Bool-cases, inl, inr, arith,
}
use serdes_ai.Prelude.Result.{Result, ok, err, ◌>>=◌, ◌>>◌}
use serdes_ai.Prelude.Words.{add64, add32}
use serdes_ai.Usage.{RequestUsage}
use serdes_ai.Agent.Types.{
  UsageLimitError, request_tokens, response_tokens, total_tokens, request_count, tool_calls,
  time_limit,
}

pub record RunUsage : Type 0 where
  pub request_tokens : ℕ
  pub response_tokens : ℕ
  pub total_tokens : ℕ
  pub request_count : ℕ
  pub tool_call_count : ℕ
  pub cache_creation_tokens : Option ℕ
  pub cache_read_tokens : Option ℕ

abbrev pub new_usage : RunUsage
new_usage = record {
  request_tokens = 0;
  response_tokens = 0;
  total_tokens = 0;
  request_count = 0;
  tool_call_count = 0;
  cache_creation_tokens = none;
  cache_read_tokens = none;
}

-- `if let Some(n) = … { count += n }`
abbrev pub plus : ℕ → Option ℕ → ℕ
plus count none = count
plus count (some n) = add64 count n

-- `*count.get_or_insert(0) += n`
abbrev pub plus_cached : Option ℕ → Option ℕ → Option ℕ
plus_cached count none = count
plus_cached none (some n) = some (add64 0 n)
plus_cached (some count) (some n) = some (add64 count n)

-- A total that the response names is added; otherwise the total is the sum of the two counts.
abbrev pub new_total : ℕ → Option ℕ → (requested responded : ℕ) → ℕ
new_total total (some n) requested responded = add64 total n
new_total total none requested responded = add64 requested responded

unfoldable pub add_request : {V : Type 0} → RunUsage → RequestUsage V → RunUsage
unfolding add32
add_request u usage =
    let requested = plus u.request_tokens usage.request_tokens in
    let responded = plus u.response_tokens usage.response_tokens in
    record {
      request_tokens = requested;
      response_tokens = responded;
      total_tokens = new_total u.total_tokens usage.total_tokens requested responded;
      request_count = add32 u.request_count 1;
      tool_call_count = u.tool_call_count;
      cache_creation_tokens = plus_cached u.cache_creation_tokens usage.cache_creation_tokens;
      cache_read_tokens = plus_cached u.cache_read_tokens usage.cache_read_tokens;
    }

unfoldable pub record_tool_call : RunUsage → RunUsage
unfolding add32
record_tool_call u = record u { tool_call_count = add32 u.tool_call_count 1 }

pub record UsageLimits : Type 0 where
  pub max_request_tokens : Option ℕ
  pub max_response_tokens : Option ℕ
  pub max_total_tokens : Option ℕ
  pub max_requests : Option ℕ
  pub max_tool_calls : Option ℕ
  pub max_time_seconds : Option ℕ

abbrev pub no_limits : UsageLimits
no_limits = record {
  max_request_tokens = none;
  max_response_tokens = none;
  max_total_tokens = none;
  max_requests = none;
  max_tool_calls = none;
  max_time_seconds = none;
}

-- `if let Some(limit) = … { if used > limit { return Err(…) } }`
abbrev pub within : Option ℕ → ℕ → (ℕ → ℕ → UsageLimitError) → Result (Unit {0}) UsageLimitError
within none used error = ok tt
within (some limit) used error = if ltb limit used then err (error used limit) else ok tt

pub check : UsageLimits → RunUsage → Result (Unit {0}) UsageLimitError
check l u = do
  within l.max_request_tokens u.request_tokens request_tokens
  within l.max_response_tokens u.response_tokens response_tokens
  within l.max_total_tokens u.total_tokens total_tokens
  within l.max_requests u.request_count request_count
  within l.max_tool_calls u.tool_call_count tool_calls

pub check_time : UsageLimits → (elapsed_seconds : ℕ) → Result (Unit {0}) UsageLimitError
check_time l elapsed_seconds = within l.max_time_seconds elapsed_seconds time_limit

-- `limits.check(usage)?; limits.check_time(elapsed)?`, of limits that are set
unfoldable pub check_all : Option UsageLimits → RunUsage → ℕ → Result (Unit {0}) UsageLimitError
unfolding check check_time
check_all none u elapsed_seconds = ok tt
check_all (some l) u elapsed_seconds = do check l u; check_time l elapsed_seconds
