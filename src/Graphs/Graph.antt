-- ===== src/Graphs/Graph.antt =====
-- The types of serdes-ai-graph/src/graph.rs, edge.rs, node.rs, error.rs and state.rs. A node object is
-- a value of the type `Node`, which a run's `Nodes` gives its name and its `run` method. The names
-- and labels that only diagnostics read are left out.
use serdes_ai.Prelude.{ℕ, String, Bool, Option, none, List, [], ◌∷◌, ◌++◌, string_key}
use serdes_ai.Prelude.Map
use serdes_ai.Prelude.Map.{Map}
use serdes_ai.Prelude.Result.{Result}

pub record Edge (State : Type 0) : Type 0 where
  pub from : String
  pub to : String
  pub condition : State → Bool

pub record Graph (Node State : Type 0) : Type 0 where
  pub nodes : Map String Node
  pub edges : List (Edge State)
  pub entry_node : Option String
  pub finish_nodes : List String
  pub max_steps : ℕ

pub data GraphError (X : Type 0) : Type 0 where
  no_entry_node : GraphError X
  node_not_found : String → GraphError X
  cycle_detected : GraphError X
  execution_failed : (node message : String) → GraphError X
  max_steps_exceeded : ℕ → GraphError X
  invalid_graph : String → GraphError X
  persistence : String → GraphError X
  serialization : String → GraphError X
  other : X → GraphError X

pub data NodeResult (Node End : Type 0) : Type 0 where
  next : Node → NodeResult Node End
  next_named : String → NodeResult Node End
  end : End → NodeResult Node End

pub record Context (State Deps : Type 0) : Type 0 where
  pub state : State
  pub deps : Deps
  pub step : ℕ
  pub run_id : String
  pub max_steps : ℕ

pub record RunResult (State End : Type 0) : Type 0 where
  pub result : End
  pub state : State
  pub steps : ℕ
  pub history : List String
  pub run_id : String

-- The methods of `BaseNode`. A run may change the context.
pub record Nodes (Node State Deps End X : Type 0) : Type 0 where
  pub name : Node → String
  pub run :
      Node → Context State Deps → Result (NodeResult Node End) (GraphError X) × Context State Deps

module _ {Node State : Type 0} where
  abbrev pub empty : Graph Node State
  empty = record { nodes = []; edges = []; entry_node = none; finish_nodes = []; max_steps = 100 }

  unfoldable pub add_node : String → Node → Graph Node State → Graph Node State
  add_node name node g = record g { nodes = Map.insert name node g.nodes }

  unfoldable pub add_edge : String → String → (State → Bool) → Graph Node State → Graph Node State
  add_edge from to condition g = record g {
    edges = g.edges ++ record { from = from; to = to; condition = condition } ∷ [];
  }
