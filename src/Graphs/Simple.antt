-- ===== src/Graphs/Simple.antt =====
-- `SimpleGraph` of serdes-ai-graph/src/graph.rs, whose edges say which node comes next. Nothing bounds its
-- run: it has fuel for one node more than there are edges, which is enough without a cycle.
pub mod Ends
use serdes_ai.Prelude.{
  ℕ, zero, suc, String, Bool, true, false, ◌&&◌, Option, none, some, List, [], ◌∷◌, ◌++◌, length,
  contains, if◌then◌else◌, string_key, ◌==◌,
}
use serdes_ai.Prelude.Map
use serdes_ai.Prelude.Map.{Map}
use serdes_ai.Prelude.Result.{Result, ok, err}
use serdes_ai.Graphs.Graph.{Edge, GraphError, no_entry_node, node_not_found}

pub record SimpleGraph (Node State : Type 0) : Type 0 where
  pub nodes : Map String Node
  pub edges : List (Edge State)
  pub entry_node : Option String
  pub finish_nodes : List String

-- `find`: the first edge from the node whose condition holds.
pub find_edge : {State : Type 0} → String → State → List (Edge State) → Option (Edge State)
find_edge current state [] = none
find_edge current state (e ∷ es) =
    let rest = find_edge current state es in
    if (e.from == current) && e.condition state then some e else rest

-- `execute` is the method of `Node`.
module _ {Node State X : Type 0} (execute : Node → State → Result State (GraphError X))
    (g : SimpleGraph Node State) where
  -- After a node's run, the rest of the loop.
  follow :
      (String → State → Option (Result State (GraphError X)))
      → State
      → Option (Edge State)
      → Option (Result State (GraphError X))
  follow rest state none = some (ok state)
  follow rest state (some edge) = rest edge.to state

  executed :
      (String → State → Option (Result State (GraphError X)))
      → String
      → Result State (GraphError X)
      → Option (Result State (GraphError X))
  unfolding follow find_edge
  executed rest current (err e) = some (err e)
  executed rest current (ok state) = follow rest state (find_edge current state g.edges)

  visit :
      (String → State → Option (Result State (GraphError X)))
      → String
      → State
      → Option Node
      → Option (Result State (GraphError X))
  unfolding executed
  visit rest current state none = some (err (node_not_found current))
  visit rest current state (some node) = executed rest current (execute node state)

  -- `none`: out of fuel.
  loop : ℕ → String → State → Option (Result State (GraphError X))
  unfolding visit
  loop zero current state = none
  loop (suc fuel) current state = elim (contains current g.finish_nodes) [
    | true ↦ some (ok state)
    | false ↦ visit (loop fuel) current state (Map.get current g.nodes)
  ]

  run_from : Option String → State → Option (Result State (GraphError X))
  unfolding loop
  run_from none state = some (err no_entry_node)
  run_from (some entry) state = loop (suc (length g.edges)) entry state

  unfoldable pub run : State → Option (Result State (GraphError X))
  unfolding run_from
  run state = run_from g.entry_node state
