-- ===== src/Agent/Run/Complete/Ends.antt =====
-- A run with a limit on its requests ends.
use serdes_ai.Prelude.{
  ℕ, zero, suc, ◌+◌, ◌≤◌, ◌<◌, ◌≡◌, ◌≢◌, refl, ap, sym, ◌∙◌, ◌⊎◌, inl, inr, Bool, true, false,
  Option, none, some, List, [], ◌∷◌, length, length-append, arith,
}
use serdes_ai.Prelude.Words.{u32_mod, add32, add32_small}
use serdes_ai.Prelude.Result.{Result, ok, err, >>=-ok}
use serdes_ai.Usage.{RequestUsage}
use serdes_ai.Tools.Toolset.{ToolDefinition}
use serdes_ai.Agent.Types.{Types, RunContext, tool_types, ModelResponse, ModelRequest}
use serdes_ai.Agent.Limits.{UsageLimits, add_request}
use serdes_ai.Agent.Limits.Kept.{check_all-le}
use serdes_ai.Agent.State.{Agent, Runtime, State, Failure, failed, panics, hangs, Outcome}
use serdes_ai.Agent.Tools.Halts.{Halts}
use serdes_ai.Agent.Run.Halted.{step-Halts}
use mathlib.Core.Path.{subst}
use serdes_ai.Agent.Response.{canonical_parts, canonical}
use serdes_ai.Agent.Run.{StepResult, store, step}
use serdes_ai.Agent.Run.Turn.{Turn, step-Turn}
use serdes_ai.Agent.Run.Complete.{
  AgentRunResult, new, finalize_with, finalize, after_step, next_turn, run_to_completion,
}
use serdes_ai.Agent.Run.Complete.Final.{finalize-Taken}

canonical-usage :
    (t : Types) (answer response : ModelResponse t)
    → canonical t answer ≡ ok response
    → response.usage ≡ answer.usage
unfolding canonical
canonical-usage t answer response h =
    let parts =
      >>=-ok (canonical_parts t answer.parts) (λ ps. ok (record answer { parts = ps })) h in
    sym (ap (λ r. elim r [ ok x ↦ x.usage | err e ↦ answer.usage ]) parts.2)

module _ {t : Types} {W : Type 0} (a : Agent t W) (ctx : RunContext t) (rt : Runtime t W)
    (limits : Option UsageLimits) (limit : ℕ) where
  -- The agent or the run has the limit on requests.
  abbrev pub Limited : Type 0
  Limited =
      (l : UsageLimits) × (l.max_requests ≡ some limit)
      × ((a.usage_limits ≡ some l) ⊎ (limits ≡ some l))

  -- Every answer of the model reports its usage.
  abbrev pub ReportsUsage : Type 0
  ReportsUsage =
      (messages : List (ModelRequest t)) (settings : t.ModelSettings)
      (tools : List (ToolDefinition (tool_types t))) (w : W) (answer : ModelResponse t)
      → (a.request messages settings tools w).0 ≡ ok answer
      → (u : RequestUsage t.json.Value) × (answer.usage ≡ some u)

  Turn-le : Limited → (s s' : State t W) → Turn a ctx rt limits s s' → s.usage.request_count ≤ limit
  Turn-le (l, m, inl e) s s' turn =
      check_all-le l s.usage (rt.elapsed_seconds s.world) m (rw e at (turn.in_agent_limits))
  Turn-le (l, m, inr e) s s' turn =
      check_all-le l s.usage (rt.elapsed_seconds s.world) m (rw e at (turn.in_run_limits))

  store-count :
      (response : ModelResponse t) (s : State t W) (u : RequestUsage t.json.Value)
      → response.usage ≡ some u
      → (store response s).usage.request_count ≡ add32 s.usage.request_count 1
  unfolding store add_request
  store-count response s u e = rw e refl

  Turn-count :
      ReportsUsage
      → (s s' : State t W) → Turn a ctx rt limits s s'
      → s'.usage.request_count ≡ add32 s.usage.request_count 1
  Turn-count reports s s' turn =
      let (u, e) = reports _ _ _ _ turn.answer turn.requested in
      turn.counted
      ∙ store-count turn.response s u (canonical-usage t turn.answer turn.response turn.stored ∙ e)

  -- A result, of one response more than the limit at most, an error, or a panic.
  abbrev pub FewResponses : Result (AgentRunResult t) (Failure t) → Type 0
  FewResponses (ok res) = length res.responses ≤ limit + 1
  FewResponses (err (failed e)) = Unit
  FewResponses (err panics) = Unit
  FewResponses (err hangs) = ⊥

  abbrev pub Ends : Option (Result (AgentRunResult t) (Failure t)) → Type 0
  Ends o = (r : Result (AgentRunResult t) (Failure t)) × (o ≡ some r) × FewResponses r

  -- The responses and the requests counted so far
  record Counted (s : State t W) : Type 0 where
    pub at_most : s.usage.request_count ≤ limit + 1
    pub each : length s.responses ≡ s.usage.request_count

  module _ (limited : Limited) (small : limit + 1 < u32_mod) (reports : ReportsUsage)
      (permits : a.max_concurrent_tools ≢ some 0) where
    Turn-Counted :
        (s s' : State t W)
        → Counted s
        → Turn a ctx rt limits s s'
        → Counted s' × (s'.usage.request_count ≡ s.usage.request_count + 1)
    Turn-Counted s s' c turn =
        let le = Turn-le limited s s' turn in
        let one : s'.usage.request_count ≡ s.usage.request_count + 1 =
          Turn-count reports s s' turn ∙ add32_small s.usage.request_count 1 (omega arith) in
        let pushed : length s'.responses ≡ length s.responses + 1 =
          ap length turn.pushed ∙ length-append s.responses (turn.response ∷ []) in
        (
          record { at_most = omega (arith, one, le); each = omega (arith, one, pushed, c.each) },
          one,
        )

    finalize_with-few :
        (o : Option t.Output) (s : State t W) (e : Failure t)
        → finalize_with a ctx rt limits o s ≡ err e
        → FewResponses (err e)
    unfolding finalize_with
    finalize_with-few none s (failed e) q = tt
    finalize_with-few none s panics q = tt
    finalize_with-few none s hangs q = absurd (cc q)
    finalize_with-few (some output) s e q = absurd (cc q)

    finalize-few :
        (s : State t W) (e : Failure t) → finalize a ctx rt limits s ≡ err e → FewResponses (err e)
    unfolding finalize
    finalize-few s e q = finalize_with-few s.final_output s e q

    result-few :
        (s : State t W) (r : Result (AgentRunResult t) (Failure t))
        → Counted s
        → finalize a ctx rt limits s ≡ r
        → FewResponses r
    result-few s (err e) c q = finalize-few s e q
    result-few s (ok res) c q =
        rw (← (finalize-Taken a ctx rt limits s q).2) (omega (arith, c.each, c.at_most))

    finalize-Ends : (s : State t W) → Counted s → Ends (some (finalize a ctx rt limits s))
    finalize-Ends s c = (finalize a ctx rt limits s, refl, result-few s _ c refl)

    after_step-Ends :
        (fuel : ℕ) (s : State t W) (o : Outcome t W StepResult)
        → Counted s
        → s.finished ≡ false
        → step a ctx rt limits s ≡ o
        → limit + 2 ≤ suc fuel + s.usage.request_count
        → ((s' : State t W)
            → Counted s'
            → limit + 2 ≤ fuel + s'.usage.request_count
            → Ends (run_to_completion a ctx rt limits fuel s'))
        → Ends (after_step a ctx rt limits (run_to_completion a ctx rt limits fuel) o)
    unfolding after_step
    after_step-Ends fuel s (err (failed e), s') c h q k more = (err (failed e), refl, tt)
    after_step-Ends fuel s (err panics, s') c h q k more = (err panics, refl, tt)
    after_step-Ends fuel s (err hangs, s') c h q k more =
        absurd (subst Halts q (step-Halts a ctx rt permits limits s))
    after_step-Ends fuel s (ok r, s') c h q k more =
        let next = Turn-Counted s s' c (step-Turn a ctx rt limits s s' r h q) in
        more s' next.0 (omega (arith, next.1))

    next_turn-Ends :
        (fuel : ℕ) (b : Bool) (s : State t W)
        → Counted s
        → s.finished ≡ b
        → limit + 2 ≤ suc fuel + s.usage.request_count
        → ((s' : State t W)
            → Counted s'
            → limit + 2 ≤ fuel + s'.usage.request_count
            → Ends (run_to_completion a ctx rt limits fuel s'))
        → Ends (next_turn a ctx rt limits b (run_to_completion a ctx rt limits fuel) s)
    unfolding next_turn
    next_turn-Ends fuel true s c h k more = finalize-Ends s c
    next_turn-Ends fuel false s c h k more =
        after_step-Ends fuel s (step a ctx rt limits s) c h refl k more

    run-Counted :
        (fuel : ℕ) (s : State t W)
        → Counted s
        → limit + 2 ≤ fuel + s.usage.request_count
        → Ends (run_to_completion a ctx rt limits fuel s)
    unfolding run_to_completion
    run-Counted zero s c k = absurd (omega (arith, c.at_most))
    run-Counted (suc fuel) s c k =
        next_turn-Ends fuel s.finished s c refl k λ s' c' k'. run-Counted fuel s' c' k'

    -- A new run of which the agent or the options limit the number of requests, the limit plus one
    -- being a `u32`, and which allows at least one tool at a time, ends, with a result, an error or a
    -- panic, where every answer of the model reports its usage: two turns more than the limit are
    -- enough, and a result has at most one response more than the limit.
    pub run_to_completion-Ends :
        (history : Option (List (ModelRequest t))) (prompt : t.UserContent) (w : W)
        → Ends (run_to_completion a ctx rt limits (limit + 2) (new a history prompt ctx w))
    unfolding new
    run_to_completion-Ends history prompt w =
        run-Counted (limit + 2) (new a history prompt ctx w)
          (record { at_most = omega arith; each = refl }) (omega arith)
