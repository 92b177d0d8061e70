-- ===== src/Graphs/Run.antt =====
-- The run loop of serdes-ai-graph/src/graph.rs. It takes a turn for each node, and has fuel for one turn
-- more than the maximal number of steps. The counters are `u32`s, which wrap.
pub mod Trace
use serdes_ai.Prelude.{
  ℕ, zero, suc, String, Bool, true, false, Option, none, some, List, [], ◌∷◌, ◌++◌, ltb,
  if◌then◌else◌, string_key,
}
use serdes_ai.Prelude.Map
use serdes_ai.Prelude.Result.{Result, ok, err}
use serdes_ai.Prelude.Words.{add32}
use serdes_ai.Graphs.Graph.{
  Graph, GraphError, no_entry_node, node_not_found, max_steps_exceeded, NodeResult, next,
  next_named, end, Context, RunResult, Nodes,
}

module _ {State Deps : Type 0} where
  abbrev pub new_context : State → Deps → String → ℕ → Context State Deps
  new_context state deps run_id max_steps = record {
    state = state;
    deps = deps;
    step = 0;
    run_id = run_id;
    max_steps = max_steps;
  }

  unfoldable pub increment_step : Context State Deps → Context State Deps
  unfolding add32
  increment_step ctx = record ctx { step = add32 ctx.step 1 }

-- `none`: out of fuel.
abbrev pub Answer : Type 0 → Type 0 → Type 0 → Type 0
Answer State End X = Option (Result (RunResult State End) (GraphError X))

-- The loop from a node's result on, with the steps and the history so far.
abbrev pub Rest : Type 0 → Type 0 → Type 0 → Type 0 → Type 0 → Type 0
Rest Node State Deps End X =
    NodeResult Node End → Context State Deps → ℕ → List String → Answer State End X

module _ {Node State Deps End X : Type 0} (ns : Nodes Node State Deps End X) (g : Graph Node State)
    (max_steps : ℕ) (run_id : String) where
  -- `?` on a node's result
  after_run :
      Rest Node State Deps End X
      → Result (NodeResult Node End) (GraphError X)
      → Context State Deps
      → ℕ
      → List String
      → Answer State End X
  after_run rest (err e) ctx steps history = some (err e)
  after_run rest (ok result) ctx steps history = rest result ctx steps history

  -- Counting the step, the history, and the node's run; `rest` is the loop that follows.
  enter :
      Rest Node State Deps End X
      → (label : String) → Node
      → Context State Deps
      → ℕ
      → List String
      → Answer State End X
  unfolding after_run add32 increment_step
  enter rest label node ctx steps history =
      if ltb max_steps (add32 steps 1)
      then some (err (max_steps_exceeded max_steps))
      else let r = ns.run node (increment_step ctx) in
        after_run rest r.0 r.1 (add32 steps 1) (history ++ label ∷ [])

  -- The node of a name, entered if there is one.
  enter_named :
      Rest Node State Deps End X
      → (name : String) → Option Node
      → Context State Deps
      → ℕ
      → List String
      → Answer State End X
  unfolding enter
  enter_named rest name none ctx steps history = some (err (node_not_found name))
  enter_named rest name (some node) ctx steps history = enter rest name node ctx steps history

  loop : ℕ → NodeResult Node End → Context State Deps → ℕ → List String → Answer State End X
  unfolding enter enter_named
  loop zero result ctx steps history = none
  loop (suc fuel) (next node) ctx steps history =
      enter (loop fuel) (ns.name node) node ctx steps history
  loop (suc fuel) (next_named name) ctx steps history =
      enter_named (loop fuel) name (Map.get name g.nodes) ctx steps history
  loop (suc fuel) (end value) ctx steps history = some (
      ok (record {
        result = value;
        state = ctx.state;
        steps = ctx.step;
        history = history;
        run_id = run_id;
      }))

  unfoldable pub run_from_with_options : Node → State → Deps → Answer State End X
  unfolding enter loop
  run_from_with_options start state deps =
      enter (loop (suc max_steps)) (ns.name start) start (new_context state deps run_id max_steps) 0
        []

  -- The node of the entry's name.
  run_entry : Option Node → String → State → Deps → Answer State End X
  unfolding run_from_with_options
  run_entry none entry state deps = some (err (node_not_found entry))
  run_entry (some node) entry state deps = run_from_with_options node state deps

  pub run_with_options : State → Deps → Answer State End X
  unfolding run_entry
  run_with_options state deps = elim g.entry_node [
    | none ↦ some (err no_entry_node)
    | some entry ↦ run_entry (Map.get entry g.nodes) entry state deps
  ]
