-- ===== src/Agent/Run/Turn.antt =====
-- What a step of a run does that makes a request and returns.
use serdes_ai.Prelude.{
  ℕ, ◌≡◌, refl, ap, ◌∙◌, Bool, true, false, Option, none, some, List, [], ◌∷◌, ◌++◌,
}
use mathlib.Core.Path.{subst}
use serdes_ai.Prelude.Words.{add32}
use serdes_ai.Prelude.Result.{Result, ok, err}
use serdes_ai.Repair.{Fault}
use serdes_ai.Models.Error.{ModelError}
use serdes_ai.Agent.Types.{Types, RunContext, ModelResponse, ModelRequest, UsageLimitError}
use serdes_ai.Agent.Limits.{UsageLimits, RunUsage, add_request, check_all}
use serdes_ai.Agent.State.{Agent, Runtime, State, Outcome, and_then, ◌>>=◌, outside, no_fault}
use serdes_ai.Agent.Tools.{is_cancelled}
use serdes_ai.Agent.Tools.Keeps.{core}
use serdes_ai.Agent.Response.{canonical, Scanned, scan}
use serdes_ai.Agent.Run.{
  StepResult, store, act, process_history, process_response, after_request, within_limits,
  check_limits, request_step, step_unless, step,
}
use serdes_ai.Agent.Run.Logged.{log, act-log}
use serdes_ai.Agent.Run.Acted.{Acted, Reaches, act-Reaches}

module _ {t : Types} {W : Type 0} (a : Agent t W) (ctx : RunContext t) (rt : Runtime t W) where
  module _ (limits : Option UsageLimits) where
    -- A request is made within the limits, its answer is stored in canonical form, and the run acts
    -- on it.
    pub record Turn (s s' : State t W) : Type 0 where
      pub messages : List (ModelRequest t)
      pub world : W
      pub answer : ModelResponse t
      pub response : ModelResponse t
      pub in_agent_limits : check_all a.usage_limits s.usage (rt.elapsed_seconds s.world) ≡ ok tt
      pub in_run_limits : check_all limits s.usage (rt.elapsed_seconds s.world) ≡ ok tt
      pub requested : (a.request messages ctx.model_settings a.cached_tool_defs world).0 ≡ ok answer
      pub stored : canonical t answer ≡ ok response
      pub pushed : s'.responses ≡ s.responses ++ response ∷ []
      pub counted : s'.usage.request_count ≡ (store response s).usage.request_count
      pub acted : Acted a ctx rt response s s'

    abbrev counted_in : RunUsage → ModelResponse t → RunUsage
    counted_in u response = elim response.usage [ none ↦ u | some usage ↦ add_request u usage ]

    -- From the scan on, in a state that holds the response.
    process-Turn :
        (response : ModelResponse t) (r : Result (Scanned t) Fault) (s s' : State t W)
        → scan a response.parts ([], none) ≡ r
        → s'.responses ≡ s.responses ++ response ∷ []
        → s'.messages ≡ s.messages
        → s'.final_output ≡ s.final_output
        → ((s'' : State t W) → log s'' ≡ log s' → Acted a ctx rt response s s'' → Turn s s'')
        → Reaches a ctx rt (Turn s) (and_then (no_fault r s') (act a ctx rt response))
    process-Turn response (err e) s s' q b m f turn = tt
    process-Turn response (ok scanned) s s' q b m f turn =
        Reaches-both (act a ctx rt response scanned s') (act-log a ctx rt response scanned s')
          (act-Reaches a ctx rt response scanned s.responses s s' q b m f)
      where
        Reaches-both :
            (o : Outcome t W StepResult)
            → log (o.1) ≡ log s'
            → Reaches a ctx rt (Acted a ctx rt response s) o
            → Reaches a ctx rt (Turn s) o
        Reaches-both (ok x, s'') l h = turn s'' l h
        Reaches-both (err e, s'') l h = tt

    -- After the limits, which came to `l` and `l'`; the request came to `r`, and its canonical form
    -- to `c`.
    stored-Turn :
        (messages : List (ModelRequest t)) (w : W) (answer : ModelResponse t)
        (c : Result (ModelResponse t) Fault) (s s' : State t W)
        → check_all a.usage_limits s.usage (rt.elapsed_seconds s.world) ≡ ok tt
        → check_all limits s.usage (rt.elapsed_seconds s.world) ≡ ok tt
        → (a.request messages ctx.model_settings a.cached_tool_defs w).0 ≡ ok answer
        → canonical t answer ≡ c
        → core s' ≡ core s
        → s'.usage ≡ s.usage
        → Reaches a ctx rt (Turn s) (
            and_then
              (no_fault c s')
              λ response s₁. process_response a ctx rt response (store response s₁))
    unfolding process_response store
    stored-Turn messages w answer (err e) s s' l l' q c k u = tt
    stored-Turn messages w answer (ok response) s s' l l' q c k u =
        process-Turn response (scan a response.parts ([], none)) s (store response s') refl
          (ap (λ y. y.1 ++ response ∷ []) k) (ap (λ y. y.0) k) (ap (λ y. y.3) k)
          λ s'' e acted. record {
            messages = messages;
            world = w;
            answer = answer;
            response = response;
            in_agent_limits = l;
            in_run_limits = l';
            requested = q;
            stored = c;
            pushed = ap (λ y. y.0) e ∙ ap (λ y. y.1 ++ response ∷ []) k;
            counted = ap (λ y. y.1) e ∙ ap (λ v. (counted_in v response).request_count) u;
            acted = acted;
          }

    after_request-Turn :
        (messages : List (ModelRequest t)) (w : W)
        (r : Result (ModelResponse t) (ModelError t.foreign)) (s s' : State t W)
        → check_all a.usage_limits s.usage (rt.elapsed_seconds s.world) ≡ ok tt
        → check_all limits s.usage (rt.elapsed_seconds s.world) ≡ ok tt
        → (a.request messages ctx.model_settings a.cached_tool_defs w).0 ≡ r
        → core s' ≡ core s
        → s'.usage ≡ s.usage
        → Reaches a ctx rt (Turn s) (after_request a ctx rt r s')
    unfolding after_request
    after_request-Turn messages w (err e) s s' l l' q k u = tt
    after_request-Turn messages w (ok answer) s s' l l' q k u =
        stored-Turn messages w answer (canonical t answer) s s' l l' q refl k u

    -- From the second check of limits on
    abbrev after_limits : State t W → Outcome t W StepResult
    after_limits = process_history a ctx >>= λ messages.
        outside (a.request messages ctx.model_settings a.cached_tool_defs)
        >>= after_request a ctx rt

    in_limits-Turn :
        (r : Result (Unit {0}) UsageLimitError) (s : State t W) (n : ℕ)
        → check_all a.usage_limits s.usage (rt.elapsed_seconds s.world) ≡ ok tt
        → check_all limits s.usage (rt.elapsed_seconds s.world) ≡ r
        → Reaches a ctx rt
            (Turn s)
            (and_then (within_limits a ctx rt r (record s { step = n })) λ u. after_limits)
    unfolding process_history
    in_limits-Turn (err e) s n l l' = tt
    in_limits-Turn (ok tt) s n l l' = after_request-Turn _ _ _ s _ l l' refl refl refl

    both_limits-Turn :
        (r : Result (Unit {0}) UsageLimitError) (s : State t W) (n : ℕ)
        → check_all a.usage_limits s.usage (rt.elapsed_seconds s.world) ≡ r
        → Reaches a ctx rt (Turn s) (
            and_then
              (within_limits a ctx rt r (record s { step = n }))
              λ u. check_limits a ctx rt limits >>= λ u'. after_limits)
    both_limits-Turn (err e) s n l = tt
    both_limits-Turn (ok tt) s n l =
        in_limits-Turn (check_all limits s.usage (rt.elapsed_seconds s.world)) s n l refl

    request_step-Turn : (s : State t W) → Reaches a ctx rt (Turn s) (request_step a ctx rt limits s)
    unfolding request_step
    request_step-Turn s =
        both_limits-Turn (check_all a.usage_limits s.usage (rt.elapsed_seconds s.world)) s
          (add32 s.step 1) refl

    step_unless-Turn :
        (done stopped : Bool) (s : State t W)
        → done ≡ false
        → Reaches a ctx rt (Turn s) (step_unless a ctx rt limits done stopped s)
    unfolding step_unless
    step_unless-Turn true stopped s e = absurd (cc e)
    step_unless-Turn false true s e = tt
    step_unless-Turn false false s e = request_step-Turn s

    -- A step of a run that is not finished, if it returns, has made one request within both limits,
    -- stored the canonical form of its answer, counted it where it reports its usage, and either
    -- added the response with the results of its calls, in their order, or added the reason for which
    -- an output is refused, or taken a validated output that a part of the response is parsed to, or
    -- left messages and output as they were.
    pub step-Turn :
        (s s' : State t W) (r : StepResult)
        → s.finished ≡ false
        → step a ctx rt limits s ≡ (ok r, s')
        → Turn s s'
    unfolding step
    step-Turn s s' r h e =
        subst (Reaches a ctx rt (Turn s)) e
          (step_unless-Turn s.finished (is_cancelled a rt ctx s) s h)
