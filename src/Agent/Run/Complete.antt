-- ===== src/Agent/Run/Complete.antt =====
-- The start of a run and the run to completion (serdes-ai-agent/src/run.rs), with
-- `build_system_prompt` of agent.rs.
pub mod Final
pub mod Output
pub mod Log
pub mod Ends
use serdes_ai.Prelude.{
  ℕ, zero, suc, String, Bool, true, false, not, ◌&&◌, ◌||◌, Option, none, some, List, [], ◌∷◌, ◌++◌,
  unwrap_or, if◌then◌else◌, string_key, ◌==◌,
}
use serdes_ai.Prelude.Result.{Result, ok, err}
use serdes_ai.Tools.Toolset.{join}
use serdes_ai.Agent.Types.{
  Types, RunContext, FinishReason, ModelResponse, ModelRequest, request_of, system_prompt,
  user_prompt, AgentRunError,
}
use serdes_ai.Agent.Limits.{RunUsage, new_usage, UsageLimits}
use serdes_ai.Agent.State.{Agent, Runtime, State, Failure, failed, Outcome}
use serdes_ai.Agent.Run.{StepResult, step}

pub record AgentRunResult (t : Types) : Type 0 where
  pub output : t.Output
  pub messages : List (ModelRequest t)
  pub responses : List (ModelResponse t)
  pub usage : RunUsage
  pub run_id : String
  pub finish_reason : FinishReason
  pub metadata : Option t.json.Value

abbrev has_none : {A : Type 0} → List A → Bool
has_none [] = true
has_none (x ∷ xs) = false

abbrev push_prompt : Option String → List String → List String
push_prompt none parts = parts
push_prompt (some prompt) parts = if prompt == "" then parts else prompt ∷ parts

module _ {t : Types} {W : Type 0} (a : Agent t W) where
  -- The texts of the dynamic prompts that are given and not empty
  dynamic_parts : List (RunContext t → W → Option String × W) → RunContext t → W → List String × W
  dynamic_parts [] ctx w = ([], w)
  dynamic_parts (generate ∷ fns) ctx w =
      let (prompt, w') = generate ctx w in
      let (parts, w'') = dynamic_parts fns ctx w' in (push_prompt prompt parts, w'')

  pub build_system_prompt : RunContext t → W → String × W
  unfolding dynamic_parts
  build_system_prompt ctx w =
      if has_none a.system_prompt_fns && has_none a.instruction_fns
      then (a.static_system_prompt, w)
      else let (prompts, w') = dynamic_parts a.system_prompt_fns ctx w in
        let (instructions, w'') = dynamic_parts a.instruction_fns ctx w' in
        (join "\n\n" (push_prompt (some a.static_system_prompt) (prompts ++ instructions)), w'')

  abbrev push_system_prompt : String → List (ModelRequest t) → List (ModelRequest t)
  push_system_prompt prompt messages =
      if prompt == "" then messages else messages ++ request_of (system_prompt prompt ∷ []) ∷ []

  -- `AgentRun::new`, with the context that it makes given.
  unfoldable pub new :
      (history : Option (List (ModelRequest t))) → t.UserContent → RunContext t → W → State t W
  unfolding build_system_prompt
  new history prompt ctx w =
      let (text, w') = build_system_prompt ctx w in
      record {
        messages =
            push_system_prompt text (unwrap_or history [])
            ++ request_of (user_prompt prompt ∷ []) ∷ [];
        responses = [];
        usage = new_usage;
        step = 0;
        output_retries = 0;
        final_output = none;
        finished = false;
        finish_reason = none;
        world = w';
      }

  module _ (ctx : RunContext t) (rt : Runtime t W) (limits : Option UsageLimits) where
    finalize_with : Option t.Output → State t W → Result (AgentRunResult t) (Failure t)
    finalize_with none s = err (failed AgentRunError.no_output)
    finalize_with (some output) s = ok (record {
      output = output;
      messages = s.messages;
      responses = s.responses;
      usage = s.usage;
      run_id = ctx.run_id;
      finish_reason = elim s.finish_reason [ none ↦ FinishReason.stop | some r ↦ r ];
      metadata = ctx.metadata;
    })

    pub finalize : State t W → Result (AgentRunResult t) (Failure t)
    unfolding finalize_with
    finalize s = finalize_with s.final_output s

    after_step :
        (State t W → Option (Result (AgentRunResult t) (Failure t)))
        → Outcome t W StepResult
        → Option (Result (AgentRunResult t) (Failure t))
    after_step rest (ok r, s) = rest s
    after_step rest (err e, s) = some (err e)

    next_turn :
        Bool
        → (State t W → Option (Result (AgentRunResult t) (Failure t)))
        → State t W
        → Option (Result (AgentRunResult t) (Failure t))
    unfolding finalize after_step
    next_turn true rest s = some (finalize s)
    next_turn false rest s = after_step rest (step a ctx rt limits s)

    -- The fuel bounds the number of turns; `none`: out of fuel.
    unfoldable pub run_to_completion :
        ℕ → State t W → Option (Result (AgentRunResult t) (Failure t))
    unfolding next_turn
    run_to_completion zero s = none
    run_to_completion (suc fuel) s = next_turn s.finished (run_to_completion fuel) s
