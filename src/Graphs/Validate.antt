-- ===== src/Graphs/Validate.antt =====
-- `Graph::validate` and `detect_cycle` of serdes-ai-graph/src/graph.rs. The recursion of the search has
-- fuel for one call more than there are nodes, since the nodes that are being visited differ.
mod Names
pub mod Search
pub mod Acyclic
pub mod Verdict
use serdes_ai.Prelude.{
  ℕ, zero, suc, String, Bool, true, false, not, Option, none, some, List, [], ◌∷◌, ◌++◌, map,
  length, retain, contains, unwrap_or, if◌then◌else◌, string_key, ◌==◌,
}
use serdes_ai.Prelude.Map
use serdes_ai.Prelude.Map.{Map}
use serdes_ai.Prelude.Result.{Result, ok, err, ◌>>◌, ◌>>=◌}
use serdes_ai.Graphs.Graph.{Edge, Graph, GraphError, no_entry_node, node_not_found, cycle_detected}

pub record Sets : Type 0 where
  pub visiting : List String
  pub visited : List String

-- `HashSet::insert` and `HashSet::remove`
abbrev insert_name : String → List String → List String
insert_name name s = if contains name s then s else name ∷ s

abbrev remove_name : String → List String → List String
remove_name name s = retain (λ n. not (n == name)) s

abbrev pub Adjacency : Type 0
Adjacency = Map String (List String)

abbrev pub neighbors : Adjacency → String → List String
neighbors adjacency node = unwrap_or (Map.get node adjacency) []

-- `if detect_cycle(…) { return true; }`, and what follows.
go_on : (Sets → Option (Bool × Sets)) → Option (Bool × Sets) → Option (Bool × Sets)
go_on rest none = none
go_on rest (some (true, s)) = some (true, s)
go_on rest (some (false, s)) = rest s

-- The loop over neighbors, and over all nodes: it stops at the first that is on a cycle. The call is
-- that of `detect_cycle`. `none`: out of fuel.
pub any_cycle : (String → Sets → Option (Bool × Sets)) → List String → Sets → Option (Bool × Sets)
unfolding go_on
any_cycle call [] s = some (false, s)
any_cycle call (n ∷ ns) s = go_on (any_cycle call ns) (call n s)

-- The end of `detect_cycle`.
leave : String → Option (Bool × Sets) → Option (Bool × Sets)
leave node none = none
leave node (some (true, s)) = some (true, s)
leave node (some (false, s)) =
    some (
      false,
      record { visiting = remove_name node s.visiting; visited = insert_name node s.visited },
    )

pub detect_cycle : Adjacency → ℕ → String → Sets → Option (Bool × Sets)
unfolding any_cycle leave
detect_cycle adjacency zero node s = none
detect_cycle adjacency (suc fuel) node s = elim (contains node s.visited) [
  | true ↦ some (false, s)
  | false ↦ elim (contains node s.visiting) [
    | true ↦ some (true, s)
    | false ↦ leave node (
        any_cycle (detect_cycle adjacency fuel) (neighbors adjacency node)
          (record s { visiting = insert_name node s.visiting }))
  ]
]

-- `adjacency.entry(from).or_default().push(to)` for each edge
pub adjacency_of : {State : Type 0} → List (Edge State) → Adjacency → Adjacency
adjacency_of [] adjacency = adjacency
adjacency_of (e ∷ es) adjacency =
    adjacency_of es (Map.insert e.from (neighbors adjacency e.from ++ e.to ∷ []) adjacency)

cycle_result : {X : Type 0} → Option (Bool × Sets) → Option (Result (Unit {0}) (GraphError X))
cycle_result none = none
cycle_result (some (true, s)) = some (err cycle_detected)
cycle_result (some (false, s)) = some (ok tt)

module _ {Node State X : Type 0} where
  check_node : Graph Node State → String → Result (Unit {0}) (GraphError X)
  check_node g name = if Map.contains_key name g.nodes then ok tt else err (node_not_found name)

  check_entry : Graph Node State → Option String → Result (Unit {0}) (GraphError X)
  unfolding check_node
  check_entry g none = err no_entry_node
  check_entry g (some entry) = check_node g entry

  check_edges : Graph Node State → List (Edge State) → Result (Unit {0}) (GraphError X)
  unfolding check_node
  check_edges g [] = ok tt
  check_edges g (e ∷ es) = check_node g e.from >> check_node g e.to >> check_edges g es

  check_finish : Graph Node State → List String → Result (Unit {0}) (GraphError X)
  unfolding check_node
  check_finish g [] = ok tt
  check_finish g (name ∷ names) = check_node g name >> check_finish g names

  check_cycles : Graph Node State → Option (Result (Unit {0}) (GraphError X))
  unfolding any_cycle detect_cycle adjacency_of cycle_result
  check_cycles g = cycle_result (
      any_cycle (detect_cycle (adjacency_of g.edges []) (suc (length g.nodes)))
        (map (λ entry. entry.0) g.nodes) (record { visiting = []; visited = [] }))

  references : Graph Node State → Result (Unit {0}) (GraphError X)
  unfolding check_entry check_edges check_finish
  references g =
      check_entry g g.entry_node >> check_edges g g.edges >> check_finish g g.finish_nodes

  -- `none`: out of fuel.
  unfoldable pub validate : Graph Node State → Option (Result (Unit {0}) (GraphError X))
  unfolding references check_cycles
  validate g = elim (references g) [ err error ↦ some (err error) | ok done ↦ check_cycles g ]
