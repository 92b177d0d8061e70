-- ===== src/Agent/Tools/Parallel.antt =====
-- Tool calls that run at once against those that run one after the other, of serdes-ai-agent/src/run.rs,
-- where the tools do not depend on the world.
use serdes_ai.Prelude.{◌≡◌, Option, none, some, List, [], ◌∷◌}
use serdes_ai.Streaming.Part.{ToolCallPart, json}
use serdes_ai.Repair.{object_of}
use serdes_ai.Agent.Types.{Types, RunContext, for_tool}
use serdes_ai.Agent.State.{RegisteredTool, Agent, Runtime, State, find_tool}
use serdes_ai.Agent.Tools.Settled.{Gives}
use serdes_ai.Agent.Tools.{Returned, ToolResult, CallFuture, not_found, one_more_call, start_found}

module _ {t : Types} {W : Type 0} where
  -- Every call is counted.
  recorded : List (ToolCallPart t.json) → State t W → State t W
  recorded [] s = s
  recorded (tc ∷ calls) s = recorded calls (one_more_call s)

  module _ (a : Agent t W) (rt : Runtime t W) (ctx : RunContext t) where
    -- The tool of a call with the arguments `v`, if there is one, gives the result.
    abbrev Answers :
        Option (RegisteredTool t W) → ToolCallPart t.json → t.json.Value → ToolResult t → Type 0
    Answers none tc v r = r ≡ not_found tc.tool_name
    Answers (some tool) tc v r =
        Gives tool (object_of t.objects v) (for_tool ctx tc.tool_name tc.tool_call_id) r

    -- The calls have JSON arguments, and their tools the results, in this order.
    abbrev pub AllAnswer : List (ToolCallPart t.json) → List (Returned t) → Type 0
    AllAnswer [] [] = Unit
    AllAnswer (tc ∷ calls) ((name, id, r) ∷ rs) =
        (tc.tool_name ≡ name)
        × (tc.tool_call_id ≡ id)
        × ((v : t.json.Value) × (tc.args ≡ json v)
            × Answers (find_tool a.tools tc.tool_name) tc v r)
        × AllAnswer calls rs
    AllAnswer calls rs = ⊥

    futures :
        (calls : List (ToolCallPart t.json)) (rs : List (Returned t))
        → AllAnswer calls rs
        → List (CallFuture t W)
    futures [] [] h = []
    futures [] (r ∷ rs) h = absurd h
    futures (tc ∷ calls) [] h = absurd h
    futures (tc ∷ calls) ((name, id, r) ∷ rs) (n, d, (v, e, g), h) =
        (
          tc.tool_name,
          tc.tool_call_id,
          start_found a rt ctx (find_tool a.tools tc.tool_name) tc (object_of t.objects v),
        )
        ∷ futures calls rs h
