-- ===== src/Agent/Tools.antt =====
-- The execution of a response's tool calls: `execute_tool_calls`, `execute_tools_sequential`,
-- `execute_tools_parallel` and `execute_with_semaphore` of serdes-ai-agent/src/run.rs. Between two
-- calls of an executor any other future may run, in the order that the runtime's schedule gives; the
-- semaphore only rules some orders out.
pub mod Keeps
pub mod Halts
pub mod Settled
pub mod Parallel
use serdes_ai.Prelude.{
  ℕ, zero, suc, String, Bool, true, false, Option, none, some, List, [], ◌∷◌, ◌++◌, map,
  if◌then◌else◌,
}
use serdes_ai.Prelude.Result.{Result, ok, err}
use serdes_ai.Streaming.Part.{ToolCallPart}
use serdes_ai.Repair.{to_json}
use serdes_ai.Tools.Toolset.{ToolError}
use serdes_ai.Agent.Types.{Types, RunContext, for_tool, RunToolError, is_retryable_tool_error}
use serdes_ai.Agent.Limits.{record_tool_call}
use serdes_ai.Agent.State.{
  RegisteredTool, Agent, Runtime, State, hangs, M, ◌>>=◌, ◌>>◌, pure, get, modify, outside,
  no_fault, find_tool,
}

abbrev pub ToolResult : Types → Type 0
ToolResult t = Result t.ToolReturn (RunToolError t)

-- A tool's name, the call's ID, and the result.
abbrev pub Returned : Types → Type 0
Returned t = String × Option String × ToolResult t

-- The future of a call: it has a result, or it is about to make an attempt.
pub data Progress (t : Types) (W : Type 0) : Type 0 where
  done : ToolResult t → Progress t W
  running : (left : ℕ) → RegisteredTool t W → t.json.Value → RunContext t → Progress t W

abbrev pub CallFuture : Types → Type 0 → Type 0
CallFuture t W = String × Option String × Progress t W

abbrev pub not_found : {t : Types} → String → ToolResult t
not_found name = err (ToolError.not_found name)

module _ {t : Types} {W : Type 0} where
  -- The loop over the attempts, with the retries that are left.
  after_attempt : (W → ToolResult t × W) → ToolResult t × W → ToolResult t × W
  after_attempt again (ok r, w) = (ok r, w)
  after_attempt again (err e, w) = if is_retryable_tool_error e then again w else (err e, w)

  pub execute_with_retries :
      ℕ → RegisteredTool t W → t.json.Value → RunContext t → W → ToolResult t × W
  unfolding after_attempt
  execute_with_retries zero tool args ctx w = tool.execute args ctx w
  execute_with_retries (suc left) tool args ctx w =
      after_attempt (execute_with_retries left tool args ctx) (tool.execute args ctx w)

  -- `self.state.usage.record_tool_call()`
  pub one_more_call : State t W → State t W
  unfolding record_tool_call
  one_more_call s = record s { usage = record_tool_call s.usage }

  module _ (a : Agent t W) (rt : Runtime t W) (ctx : RunContext t) where
    abbrev pub is_cancelled : State t W → Bool
    is_cancelled s = elim rt.cancel_token [ none ↦ false | some token ↦ token s.world ]

    run_found : Option (RegisteredTool t W) → ToolCallPart t.json → M t W (ToolResult t)
    unfolding execute_with_retries
    run_found none tc = pure (not_found tc.tool_name)
    run_found (some tool) tc = do
      args ← no_fault (to_json t.objects tc.args)
      outside (
          execute_with_retries tool.max_retries tool args
            (for_tool ctx tc.tool_name tc.tool_call_id))

    run_unless : Bool → ToolCallPart t.json → M t W (ToolResult t)
    unfolding run_found one_more_call
    run_unless true tc = pure (err ToolError.cancelled)
    run_unless false tc = do modify one_more_call; run_found (find_tool a.tools tc.tool_name) tc

    pub execute_tools_sequential : List (ToolCallPart t.json) → M t W (List (Returned t))
    unfolding run_unless
    execute_tools_sequential [] = pure []
    execute_tools_sequential (tc ∷ calls) = do
      s ← get
      result ← run_unless (is_cancelled s) tc
      returns ← execute_tools_sequential calls
      pure ((tc.tool_name, tc.tool_call_id, result) ∷ returns)

  attempted :
      ℕ → RegisteredTool t W → t.json.Value → RunContext t → ToolResult t × W → Progress t W × W
  attempted left tool args ctx (ok r, w) = (done (ok r), w)
  attempted zero tool args ctx (err e, w) = (done (err e), w)
  attempted (suc left) tool args ctx (err e, w) =
      if is_retryable_tool_error e then (running left tool args ctx, w) else (done (err e), w)

  -- One attempt of a future that is not done.
  pub poll : Progress t W → W → Progress t W × W
  unfolding attempted
  poll (done r) w = (done r, w)
  poll (running left tool args ctx) w = attempted left tool args ctx (tool.execute args ctx w)

  pub poll_at : ℕ → List (CallFuture t W) → W → List (CallFuture t W) × W
  unfolding poll
  poll_at i [] w = ([], w)
  poll_at zero ((name, id, p) ∷ fs) w = let (p', w') = poll p w in ((name, id, p') ∷ fs, w')
  poll_at (suc i) (f ∷ fs) w = let (fs', w') = poll_at i fs w in (f ∷ fs', w')

  pub run_schedule : List ℕ → List (CallFuture t W) → W → List (CallFuture t W) × W
  unfolding poll_at
  run_schedule [] fs w = (fs, w)
  run_schedule (i ∷ schedule) fs w = let (fs', w') = poll_at i fs w in run_schedule schedule fs' w'

  -- To the end of a future.
  pub finish : Progress t W → W → ToolResult t × W
  unfolding execute_with_retries
  finish (done r) w = (r, w)
  finish (running left tool args ctx) w = execute_with_retries left tool args ctx w

  pub finish_all : List (CallFuture t W) → W → List (Returned t) × W
  unfolding finish
  finish_all [] w = ([], w)
  finish_all ((name, id, p) ∷ fs) w =
      let (r, w') = finish p w in let (rs, w'') = finish_all fs w' in ((name, id, r) ∷ rs, w'')

  -- `join_all`: the results in the order of the futures. Those that the schedule does not bring to
  -- their end go on one after the other.
  pub join_all : List ℕ → List (CallFuture t W) → W → List (Returned t) × W
  unfolding run_schedule finish_all
  join_all schedule fs w = let (fs', w') = run_schedule schedule fs w in finish_all fs' w'

  module _ (a : Agent t W) (rt : Runtime t W) (ctx : RunContext t) where
    start_found : Option (RegisteredTool t W) → ToolCallPart t.json → t.json.Value → Progress t W
    start_found none tc args = done (not_found tc.tool_name)
    start_found (some tool) tc args =
        running tool.max_retries tool args (for_tool ctx tc.tool_name tc.tool_call_id)

    pub start_all : List (ToolCallPart t.json) → M t W (List (CallFuture t W))
    unfolding start_found
    start_all [] = pure []
    start_all (tc ∷ calls) = do
      args ← no_fault (to_json t.objects tc.args)
      let f = start_found (find_tool a.tools tc.tool_name) tc args
      fs ← start_all calls
      pure ((tc.tool_name, tc.tool_call_id, f) ∷ fs)

    pub record_all : List (ToolCallPart t.json) → M t W (Unit {0})
    unfolding one_more_call
    record_all [] = pure tt
    record_all (tc ∷ calls) = do modify one_more_call; record_all calls

    -- A semaphore without permits lets no future start.
    pub join_limited : Option ℕ → List (CallFuture t W) → M t W (List (Returned t))
    unfolding join_all
    join_limited (some zero) (f ∷ fs) = λ s. (err hangs, s)
    join_limited max fs = outside (λ w. join_all (rt.schedule w) fs w)

    pub execute_tools_parallel : List (ToolCallPart t.json) → M t W (List (Returned t))
    unfolding record_all start_all join_limited
    execute_tools_parallel calls = do
      record_all calls
      fs ← start_all calls
      join_limited a.max_concurrent_tools fs

    unfoldable pub execute_tool_calls : List (ToolCallPart t.json) → M t W (List (Returned t))
    unfolding execute_tools_sequential execute_tools_parallel
    execute_tool_calls calls =
        if a.parallel_tool_calls
        then execute_tools_parallel calls
        else execute_tools_sequential a rt ctx calls
