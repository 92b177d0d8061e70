-- ===== src/Agent/Run/Complete/Final.antt =====
-- What holds of the state in which a run ends, by induction on its steps.
use serdes_ai.Prelude.{ℕ, zero, suc, ◌≡◌, refl, ap, ◌∙◌, Bool, true, false, Option, none, some}
use serdes_ai.Prelude.Result.{ok, err}
use serdes_ai.Agent.Types.{Types, RunContext}
use serdes_ai.Agent.Limits.{UsageLimits}
use serdes_ai.Agent.State.{Agent, Runtime, State, Outcome}
use serdes_ai.Agent.Run.{StepResult, step}
use serdes_ai.Agent.Run.Turn.{Turn, step-Turn}
use serdes_ai.Agent.Run.Complete.{
  AgentRunResult, finalize_with, finalize, after_step, next_turn, run_to_completion,
}

module _ {t : Types} {W : Type 0} (a : Agent t W) (ctx : RunContext t) (rt : Runtime t W)
    (limits : Option UsageLimits) where
  -- The last state of a run with a result.
  abbrev pub Final : (State t W → Type 0) → AgentRunResult t → Type 0
  Final P res = (s : State t W) × P s × (finalize a ctx rt limits s ≡ ok res)

  module _ (P : State t W → Type 0)
      (keep : (s s' : State t W) → P s → Turn a ctx rt limits s s' → P s') where
    after_step-Final :
        (fuel : ℕ) (s : State t W) (o : Outcome t W StepResult) {res : AgentRunResult t}
        → P s
        → s.finished ≡ false
        → step a ctx rt limits s ≡ o
        → after_step a ctx rt limits (run_to_completion a ctx rt limits fuel) o ≡ some (ok res)
        → ((s' : State t W)
            → P s'
            → run_to_completion a ctx rt limits fuel s' ≡ some (ok res)
            → Final P res)
        → Final P res
    unfolding after_step
    after_step-Final fuel s (ok r, s') p h q e more =
        more s' (keep s s' p (step-Turn a ctx rt limits s s' r h q)) e
    after_step-Final fuel s (err x, s') p h q e more = absurd (cc e)

    next_turn-Final :
        (fuel : ℕ) (b : Bool) (s : State t W) {res : AgentRunResult t}
        → P s
        → s.finished ≡ b
        → next_turn a ctx rt limits b (run_to_completion a ctx rt limits fuel) s ≡ some (ok res)
        → ((s' : State t W)
            → P s'
            → run_to_completion a ctx rt limits fuel s' ≡ some (ok res)
            → Final P res)
        → Final P res
    unfolding next_turn
    next_turn-Final fuel true s p h e more = (s, p, cc)
    next_turn-Final fuel false s p h e more =
        after_step-Final fuel s (step a ctx rt limits s) p h refl e more

    -- A property that every step keeps holds where the run ends.
    pub run-Final :
        (fuel : ℕ) (s : State t W) {res : AgentRunResult t}
        → P s
        → run_to_completion a ctx rt limits fuel s ≡ some (ok res)
        → Final P res
    unfolding run_to_completion
    run-Final zero s p e = absurd (cc e)
    run-Final (suc fuel) s p e =
        next_turn-Final fuel s.finished s p refl e λ s' p' e'. run-Final fuel s' p' e'

  -- What a result takes from the last state.
  abbrev pub Taken : State t W → AgentRunResult t → Type 0
  Taken s res =
      (s.final_output ≡ some res.output)
      × (s.messages ≡ res.messages)
      × (s.responses ≡ res.responses)

  finalize_with-Taken :
      (o : Option t.Output) (s : State t W) {res : AgentRunResult t}
      → s.final_output ≡ o
      → finalize_with a ctx rt limits o s ≡ ok res
      → Taken s res
  unfolding finalize_with
  finalize_with-Taken none s q e = absurd (cc e)
  finalize_with-Taken (some output) s q e = (
    q ∙ ap (λ x. elim x [ ok r ↦ some r.output | err y ↦ none ]) e,
    ap (λ x. elim x [ ok r ↦ r.messages | err y ↦ s.messages ]) e,
    ap (λ x. elim x [ ok r ↦ r.responses | err y ↦ s.responses ]) e,
  )

  pub finalize-Taken :
      (s : State t W) {res : AgentRunResult t} → finalize a ctx rt limits s ≡ ok res → Taken s res
  unfolding finalize
  finalize-Taken s e = finalize_with-Taken s.final_output s refl e
