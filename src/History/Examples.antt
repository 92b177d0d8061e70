-- ===== src/History/Examples.antt =====
-- Runs of the history processors, and the theorems about them at concrete inputs.
use serdes_ai.Prelude.{
  String, true, false, ◌≡◌, ◌≢◌, refl, Option, some, List, [], ◌∷◌, contains, string_key, All,
}
use serdes_ai.History.Message.{ModelRequest, ModelRequestPart, ModelResponsePart}
use serdes_ai.History.Pairs.{collect_all_tool_use_ids, collect_all_tool_result_ids, remove_orphans}
use serdes_ai.History.Pairs.Orphans.{use-has-result, result-has-use}
use serdes_ai.History.Truncate.{TruncateByTokens, select_by_tokens}
use serdes_ai.History.Truncate.Tokens.{IsKept, select_by_tokens-IsKept}
use serdes_ai.History.Filter.{FilterHistory, filter, filter-non_empty}

abbrev msg : List (ModelRequestPart String) → ModelRequest String
msg parts = record { parts = parts; kind = "request" }

abbrev prompt : ModelRequest String
prompt = msg (ModelRequestPart.system_prompt "be brief" ∷ [])

abbrev call : Option String → ModelRequest String
call id = msg (
    ModelRequestPart.model_response
      (record { parts = ModelResponsePart.builtin_tool_call id "search" ∷ []; rest = "" })
    ∷ [])

abbrev result : Option String → ModelRequest String
result id = msg (ModelRequestPart.tool_return id "found" ∷ [])

-- A call without a result, a result without a call, and a pair.
abbrev messages : List (ModelRequest String)
messages = prompt ∷ call (some "a") ∷ call (some "b") ∷ result (some "b") ∷ result (some "c") ∷ []

abbrev pair : List (ModelRequest String)
pair = prompt ∷ call (some "b") ∷ result (some "b") ∷ []

remove_orphans-messages : remove_orphans messages ≡ pair
unfolding remove_orphans
remove_orphans-messages = refl

use_b : contains "b" (collect_all_tool_use_ids (remove_orphans messages)) ≡ true
unfolding remove_orphans
use_b = refl

result_b : contains "b" (collect_all_tool_result_ids (remove_orphans messages)) ≡ true
unfolding remove_orphans
result_b = refl

use-has-result_example : contains "b" (collect_all_tool_result_ids (remove_orphans messages)) ≡ true
use-has-result_example = use-has-result messages "b" use_b

result-has-use_example : contains "b" (collect_all_tool_use_ids (remove_orphans messages)) ≡ true
result-has-use_example = result-has-use messages "b" (λ e. absurd (cc e)) result_b

-- A result with the empty ID stays, and its built-in call does not.
remove_orphans-empty_id :
    remove_orphans (call (some "") ∷ result (some "") ∷ []) ≡ result (some "") ∷ []
unfolding remove_orphans
remove_orphans-empty_id = refl

abbrev by_tokens : TruncateByTokens String
by_tokens = record { max_tokens = 2; estimate_tokens = λ m. 1; keep_first_n = 1 }

select_by_tokens-IsKept_example : IsKept by_tokens messages (select_by_tokens by_tokens messages)
select_by_tokens-IsKept_example = select_by_tokens-IsKept by_tokens messages

abbrev no_system : FilterHistory
no_system = record { remove_system = true; remove_tool_returns = false; remove_retries = false }

filter-non_empty_example : All (λ m. m.parts ≢ []) (filter no_system messages)
filter-non_empty_example = filter-non_empty no_system messages
