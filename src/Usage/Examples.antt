-- ===== src/Usage/Examples.antt =====
-- Tests of the usage records, and instances of the theorems about them.
use serdes_ai.Prelude.{ℕ, ◌<◌, ◌↔◌, All, ◌≡◌, refl, none, some, List, [], ◌∷◌, false, true, arith}
use serdes_ai.Prelude.Result.{ok, err}
use serdes_ai.Usage.{
  RequestUsage, RunUsage, UsageLimits, UsageLimitType, empty_usage, with_tokens, set_request_tokens,
  set_response_tokens, set_cache_creation_tokens, set_cache_read_tokens, set_details, merge, total,
  add_counts, is_empty, no_limits, check, exceeds, requests,
}
use serdes_ai.Usage.Merge.{
  IsConsistent, InRange, merge_comm, merge-IsConsistent, builders-IsConsistent,
}
use serdes_ai.Usage.Limits.{IsWithin, check-ok, check-err, limit_of, value_of, rank}

abbrev first : RequestUsage ℕ
first = with_tokens 100 20

abbrev second : RequestUsage ℕ
second = set_request_tokens 7 empty_usage

abbrev usages : List (RequestUsage ℕ)
usages = first ∷ second ∷ []

-- Two requests, against limits of 200 tokens and one request.
abbrev run : RunUsage ℕ
run = record {
  requests = usages;
  total_request_tokens = 107;
  total_response_tokens = 20;
  total_tokens = 127;
}

abbrev limits : UsageLimits
limits = record no_limits { max_total_tokens = some 200; max_requests = some 1 }

total-merge : total (merge first second) ≡ 127
unfolding total merge with_tokens set_request_tokens add_counts
total-merge = refl

setters :
    set_details 5 (set_cache_read_tokens 3 (set_cache_creation_tokens 2 (empty_usage {V = ℕ})))
    ≡ record empty_usage {
      cache_creation_tokens = some 2;
      cache_read_tokens = some 3;
      details = some 5;
    }
unfolding set_details set_cache_read_tokens set_cache_creation_tokens
setters = refl

emptiness : (is_empty (empty_usage {V = ℕ}) ≡ true) × (is_empty second ≡ false)
unfolding is_empty set_request_tokens
emptiness = (refl, refl)

refused : check limits run ≡ err (exceeds requests 2 1)
unfolding check exceeds
refused = refl

merge_comm_example : merge first second ≡ record (merge second first) { details = none }
unfolding with_tokens
merge_comm_example = merge_comm first second

first-InRange : InRange first
unfolding with_tokens
first-InRange = omega arith

second-InRange : InRange second
unfolding set_request_tokens add_counts
second-InRange = (omega arith, tt)

merge-IsConsistent_example : InRange (merge first second) × IsConsistent (merge first second)
merge-IsConsistent_example = merge-IsConsistent first second first-InRange second-InRange

builders-IsConsistent_example :
    IsConsistent (with_tokens {V = ℕ} 5 6)
    × IsConsistent (set_request_tokens 5 first)
    × IsConsistent (set_response_tokens 6 first)
builders-IsConsistent_example =
    builders-IsConsistent first 5 6 (omega arith) (omega arith) first-InRange

usages-IsConsistent : All IsConsistent usages
unfolding total with_tokens set_request_tokens add_counts
usages-IsConsistent = (refl, (refl, tt))

check-ok_example : (check no_limits run ≡ ok tt) ↔ ((t : UsageLimitType) → IsWithin no_limits run t)
check-ok_example = check-ok no_limits run

check-err_example :
    (limit_of limits requests ≡ some 1)
    × (value_of run requests ≡ 2)
    × (1 < 2)
    × ((t : UsageLimitType) → rank t < 3 → IsWithin limits run t)
unfolding exceeds
check-err_example = check-err limits run (exceeds requests 2 1) refused
