-- ===== src/Graphs/Examples.antt =====
-- Tests of the graphs, and instances of the theorems about them.
use serdes_ai.Prelude.{
  ℕ, ◌+◌, ◌≡◌, refl, sym, ◌∙◌, ◌==◌, String, true, some, List, [], ◌∷◌, length, string_key, ltb,
  if◌then◌else◌, arith,
}
use serdes_ai.Prelude.Map
use serdes_ai.Prelude.Result.{Result, ok, err}
use serdes_ai.Graphs.Graph.{Graph, GraphError, next_named, end, Nodes, empty, cycle_detected}
use serdes_ai.Graphs.Validate.{validate}
use serdes_ai.Graphs.Validate.Verdict.{Verdict, validate-Verdict}
use serdes_ai.Graphs.Validate.Acyclic.{is_edge, Walk, along, further}
use serdes_ai.Graphs.Simple.{SimpleGraph, run}
use serdes_ai.Graphs.Simple.Ends.{Run, run-Ends}
use serdes_ai.Graphs.Run.{new_context, run_from_with_options}
use serdes_ai.Graphs.Run.Trace.{Ending, Trace, answer, Fits, run_from_with_options-Trace}

-- Nodes are numbers: 0 goes on to the node "b", and the others end with the state.
abbrev labels : ℕ → String
labels n = if ltb n 1 then "a" else "b"

abbrev counting : Nodes ℕ ℕ Unit ℕ Unit
counting = record {
  name = labels;
  run = λ n ctx. (
    ok (if ltb n 1 then next_named "b" else end (ctx.state + n)),
    record ctx { state = ctx.state + 1 },
  );
}

abbrev line : Graph ℕ ℕ
line = record empty {
  nodes = ("a", 0) ∷ ("b", 7) ∷ [];
  edges = record { from = "a"; to = "b"; condition = λ s. true } ∷ [];
  entry_node = some "a";
  finish_nodes = "b" ∷ [];
}

validate-Verdict_example :
    (r : Result (Unit {0}) (GraphError Unit)) × (validate line ≡ some r) × Verdict line Unit r
validate-Verdict_example = validate-Verdict line

run_from_with_options-Trace_example :
    (names : List String) × (o : Ending ℕ Unit ℕ Unit) × Trace counting line "a" 0
      (new_context 5 tt "run" 3)
      names
      o
    × (run_from_with_options counting line 3 "run" 0 5 tt
        ≡ some (answer counting line 3 "run" o names))
    × Fits counting line 3 "run" o (length names)
run_from_with_options-Trace_example =
    run_from_with_options-Trace counting line 3 "run" (omega arith) 0 5 tt (omega arith)

-- With an edge back, the line is refused.
abbrev circle : Graph ℕ ℕ
circle = record line {
  edges =
      record { from = "a"; to = "b"; condition = λ s. true }
      ∷ record { from = "b"; to = "a"; condition = λ s. true }
      ∷ [];
}

circle_refused : validate {X = Unit} circle ≡ some (err cycle_detected)
unfolding validate Map.get Map.insert Map.remove
circle_refused = refl

line_runs :
    run_from_with_options counting line 3 "run" 0 5 tt
    ≡ some (
        ok (record { result = 13; state = 7; steps = 2; history = "a" ∷ "b" ∷ []; run_id = "run" }))
unfolding run_from_with_options Map.get
line_runs = refl

-- A simple graph with two nodes that add to the state.
abbrev adder : SimpleGraph ℕ ℕ
adder = record {
  nodes = ("a", 1) ∷ ("b", 7) ∷ [];
  edges = record { from = "a"; to = "b"; condition = λ s. true } ∷ [];
  entry_node = some "a";
  finish_nodes = [];
}

abbrev adding : ℕ → ℕ → Result ℕ (GraphError Unit)
adding n s = ok (s + n)

adder_edges : (v w : String) → is_edge adder.edges v w ≡ true → (v ≡ "a") × (w ≡ "b")
adder_edges v w h =
    let from : ("a" == v) ≡ true = ground (arith, h) in
    let to : ("b" == w) ≡ true = ground (arith, h) in
    (sym ((string_key.same_iff "a" v).0 from), sym ((string_key.same_iff "b" w).0 to))

adder_walks : (v w : String) → Walk adder.edges v w → (v ≡ "a") × (w ≡ "b")
adder_walks _ _ (along v w h) = adder_edges v w h
adder_walks _ _ (further v w z h l) = ((adder_edges v w h).0, (adder_walks w z l).1)

a-ne-b : ◌≡◌ {A = String} "a" "b" → ⊥
a-ne-b e = cc ((string_key.same_iff "a" "b").1 e)

adder_no_cycle : (v : String) → Walk adder.edges v v → ⊥
adder_no_cycle v l = let (from, to) = adder_walks v v l in a-ne-b (sym from ∙ to)

run-Ends_example :
    (r : Result ℕ (GraphError Unit)) × (run adding adder 5 ≡ some r) × Run adding adder "a" 5 r
run-Ends_example = run-Ends adding adder "a" 5 refl adder_no_cycle
