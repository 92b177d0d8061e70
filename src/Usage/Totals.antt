-- ===== src/Usage/Totals.antt =====
-- `RunUsage` keeps the requests in order and their running totals.
use mathlib.Core.List.{append-nil, append_assoc}
use serdes_ai.Prelude.{
  ℕ, ◌+◌, ◌%◌, ◌<◌, ◌≡◌, refl, List, [], ◌∷◌, ◌++◌, ◌∙◌, sym, All, unwrap_or, length, arith,
}
use serdes_ai.Prelude.Words.{add64, u64_mod}
use serdes_ai.Usage.{RequestUsage, RunUsage, total, new_run, add_request, request_count}
use serdes_ai.Usage.Merge.{IsConsistent}

abbrev pub sum_by {ℓ} : {A : Type ℓ} → (A → ℕ) → List A → ℕ
sum_by f [] = 0
sum_by f (x ∷ xs) = f x + sum_by f xs

module _ {ℓ} {V : Type ℓ} where
  -- A run that adds the usages of its requests one by one.
  pub add_requests : RunUsage V → List (RequestUsage V) → RunUsage V
  add_requests run [] = run
  add_requests run (u ∷ us) = add_requests (add_request run u) us

  abbrev pub request_part : RequestUsage V → ℕ
  request_part u = unwrap_or u.request_tokens 0

  abbrev pub response_part : RequestUsage V → ℕ
  response_part u = unwrap_or u.response_tokens 0

  -- The totals fit their machine type.
  abbrev IsRun : RunUsage V → Type 0
  IsRun run =
      (run.total_request_tokens < u64_mod)
      × (run.total_response_tokens < u64_mod)
      × (run.total_tokens < u64_mod)

  add_request-IsRun : (run : RunUsage V) (u : RequestUsage V) → IsRun (add_request run u)
  unfolding add_request add64
  add_request-IsRun run u = omega arith

  add_requests_totals :
      (run : RunUsage V) (us : List (RequestUsage V))
      → IsRun run
      → let r = add_requests run us in
        (r.total_request_tokens ≡ (run.total_request_tokens + sum_by request_part us) % u64_mod)
        × (r.total_response_tokens
            ≡ (run.total_response_tokens + sum_by response_part us) % u64_mod)
        × (r.total_tokens ≡ (run.total_tokens + sum_by total us) % u64_mod)
  unfolding add_requests add_request add64
  add_requests_totals run [] h = omega arith
  add_requests_totals run (u ∷ us) h =
      omega (arith, add_requests_totals (add_request run u) us (add_request-IsRun run u))

  add_requests_requests :
      (run : RunUsage V) (us : List (RequestUsage V))
      → (add_requests run us).requests ≡ run.requests ++ us
  unfolding add_requests add_request
  add_requests_requests run [] = sym (append-nil run.requests)
  add_requests_requests run (u ∷ us) =
      add_requests_requests (add_request run u) us ∙ append_assoc run.requests (u ∷ []) us

  -- A run that starts empty holds the usages in the order in which they came, counts them, and its
  -- three totals are the sums over them, modulo 2 ^ 64.
  pub add_requests-new :
      (us : List (RequestUsage V))
      → let run = add_requests new_run us in
        (run.requests ≡ us)
        × (request_count run ≡ length us)
        × (run.total_request_tokens ≡ sum_by request_part us % u64_mod)
        × (run.total_response_tokens ≡ sum_by response_part us % u64_mod)
        × (run.total_tokens ≡ sum_by total us % u64_mod)
  unfolding request_count
  add_requests-new us =
      let t = add_requests_totals new_run us (omega arith) in
      let r = add_requests_requests new_run us in (r, rw r, omega arith, omega arith, omega arith)

  sum-total :
      (us : List (RequestUsage V))
      → All IsConsistent us
      → sum_by total us % u64_mod ≡ (sum_by request_part us + sum_by response_part us) % u64_mod
  unfolding add64
  sum-total [] h = refl
  sum-total (u ∷ us) h = omega (arith, sum-total us h.1, h.0)

  -- If the total of every usage is the sum of its two counts, the run's total is the sum of the
  -- run's two totals, modulo 2 ^ 64.
  pub add_requests-total :
      (us : List (RequestUsage V))
      → All IsConsistent us
      → let run = add_requests new_run us in
        run.total_tokens ≡ (run.total_request_tokens + run.total_response_tokens) % u64_mod
  add_requests-total us h = omega (arith, add_requests-new us, sum-total us h)
