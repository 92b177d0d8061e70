-- ===== src/Graphs/Run/Trace.antt =====
-- What a run of a graph does: the nodes that it enters, and where it ends.
use serdes_ai.Prelude.{
  ℕ, zero, suc, ◌+◌, ◌≤◌, ◌<◌, ◌≡◌, ◌∙◌, refl, ◌⊎◌, inl, inr, String, true, false, none, some, List,
  [], ◌∷◌, ◌++◌, append_assoc, length, ltb, Option-cases, string_key, arith,
}
use serdes_ai.Prelude.Map
use serdes_ai.Prelude.Words.{u32_mod, add32, add32_small}
use serdes_ai.Prelude.Result.{Result, ok, err}
use serdes_ai.Graphs.Graph.{
  Graph, GraphError, node_not_found, max_steps_exceeded, NodeResult, next, next_named, end, Context,
  RunResult, Nodes,
}
use serdes_ai.Graphs.Run.{
  Answer, Rest, new_context, increment_step, after_run, enter, enter_named, loop,
  run_from_with_options,
}

full_or_room : (n max : ℕ) → n ≤ max → (n ≡ max) ⊎ (suc n ≤ max)
full_or_room n max h = ground (arith, h)

-- How a run ends: with a value and the context, with an error, or cut off.
pub data Ending (State Deps End X : Type 0) : Type 0 where
  ended : End → Context State Deps → Ending State Deps End X
  failed : GraphError X → Ending State Deps End X
  cut : Ending State Deps End X

module _ {Node State Deps End X : Type 0} (ns : Nodes Node State Deps End X)
    (g : Graph Node State) where
  abbrev result_of : Node → Context State Deps → Result (NodeResult Node End) (GraphError X)
  result_of node ctx = (ns.run node (increment_step ctx)).0

  abbrev context_after : Node → Context State Deps → Context State Deps
  context_after node ctx = (ns.run node (increment_step ctx)).1

  -- The run that enters a node under a label, with a context, enters the labelled nodes and ends so.
  pub data Trace
      : String → Node → Context State Deps → List String → Ending State Deps End X → Type 0 where
    ends :
        (label : String) (node : Node) (ctx : Context State Deps) (value : End)
        → result_of node ctx ≡ ok (end value)
        → Trace label node ctx (label ∷ []) (ended value (context_after node ctx))
    fails :
        (label : String) (node : Node) (ctx : Context State Deps) (e : GraphError X)
        → result_of node ctx ≡ err e
        → Trace label node ctx (label ∷ []) (failed e)
    lost :
        (label : String) (node : Node) (ctx : Context State Deps) (name : String)
        → result_of node ctx ≡ ok (next_named name)
        → Map.get name g.nodes ≡ none
        → Trace label node ctx (label ∷ []) (failed (node_not_found name))
    stops :
        (label : String) (node : Node) (ctx : Context State Deps) (node' : Node)
        → result_of node ctx ≡ ok (next node')
        → Trace label node ctx (label ∷ []) cut
    stops_named :
        (label : String) (node : Node) (ctx : Context State Deps) (name : String) (node' : Node)
        → result_of node ctx ≡ ok (next_named name)
        → Map.get name g.nodes ≡ some node'
        → Trace label node ctx (label ∷ []) cut
    goes :
        (label : String) (node : Node) (ctx : Context State Deps) (node' : Node)
        (names : List String) (o : Ending State Deps End X)
        → result_of node ctx ≡ ok (next node')
        → Trace (ns.name node') node' (context_after node ctx) names o
        → Trace label node ctx (label ∷ names) o
    goes_named :
        (label : String) (node : Node) (ctx : Context State Deps) (name : String) (node' : Node)
        (names : List String) (o : Ending State Deps End X)
        → result_of node ctx ≡ ok (next_named name)
        → Map.get name g.nodes ≡ some node'
        → Trace name node' (context_after node ctx) names o
        → Trace label node ctx (label ∷ names) o

  module _ (max_steps : ℕ) (run_id : String) where
    -- What the run returns.
    abbrev pub answer :
        Ending State Deps End X → List String → Result (RunResult State End) (GraphError X)
    answer (ended value ctx) history = ok (record {
      result = value;
      state = ctx.state;
      steps = ctx.step;
      history = history;
      run_id = run_id;
    })
    answer (failed e) history = err e
    answer cut history = err (max_steps_exceeded max_steps)

    -- Only a run with the maximal number of steps is cut off.
    abbrev pub Fits : Ending State Deps End X → ℕ → Type 0
    Fits cut n = n ≡ max_steps
    Fits _ n = n ≤ max_steps

    -- A run after `steps` steps and the history `h`.
    abbrev Runs : String → Node → Context State Deps → ℕ → List String → Answer State End X → Type 0
    Runs label node ctx steps h r =
        (names : List String) × (o : Ending State Deps End X) × Trace label node ctx names o
        × (r ≡ some (answer o (h ++ names)))
        × Fits o (steps + length names)

    -- The counter, a `u32`, holds one step more than the maximum.
    module _ (counts : max_steps + 1 < u32_mod) where
      enter-cut :
          (rest : Rest Node State Deps End X) (label : String) (node : Node)
          (ctx : Context State Deps) (steps : ℕ) (h : List String)
          → steps ≡ max_steps
          → enter ns g max_steps run_id rest label node ctx steps h
            ≡ some (err (max_steps_exceeded max_steps))
      unfolding enter
      enter-cut rest label node ctx steps h full =
          rw (full, add32_small max_steps 1 counts)
            (let e : ltb max_steps (max_steps + 1) ≡ true = ground arith in rw e)

      enter-open :
          (rest : Rest Node State Deps End X) (label : String) (node : Node)
          (ctx : Context State Deps) (steps : ℕ) (h : List String)
          → suc steps ≤ max_steps
          → enter ns g max_steps run_id rest label node ctx steps h
            ≡ after_run ns g max_steps run_id rest
                (result_of node ctx)
                (context_after node ctx)
                (suc steps)
                (h ++ label ∷ [])
      unfolding enter
      enter-open rest label node ctx steps h room =
          let one : add32 steps 1 ≡ suc steps =
            add32_small steps 1 (omega (arith, room, counts)) ∙ omega arith in
          let e : ltb max_steps (suc steps) ≡ false = ground (arith, room) in rw (one, e)

      -- Every way to enter a node with this fuel is a run.
      abbrev Enters : ℕ → Type 0
      Enters fuel =
          (label : String) (node : Node) (ctx : Context State Deps) (steps : ℕ) (h : List String)
          → suc steps ≤ max_steps
          → max_steps ≤ steps + fuel
          → Runs label node ctx steps h
              (enter ns g max_steps run_id (loop ns g max_steps run_id fuel) label node ctx steps h)

      Fits-suc :
          (o : Ending State Deps End X) (steps n : ℕ)
          → Fits o (suc steps + n)
          → Fits o (steps + suc n)
      Fits-suc o steps n h = let e : steps + suc n ≡ suc steps + n = omega arith in rw e h

      -- One node more in front of a run.
      Runs-cons :
          (label label' : String) (node node' : Node) (ctx ctx' : Context State Deps) (steps : ℕ)
          (h : List String) (r : Answer State End X)
          → ((names : List String) (o : Ending State Deps End X)
              → Trace label' node' ctx' names o
              → Trace label node ctx (label ∷ names) o)
          → Runs label' node' ctx' (suc steps) (h ++ label ∷ []) r
          → Runs label node ctx steps h r
      Runs-cons label label' node node' ctx ctx' steps h r more (names, o, tr, e, fit) = (
        label ∷ names,
        o,
        more names o tr,
        rw (e, append_assoc h (label ∷ []) names) refl,
        Fits-suc o steps (length names) fit,
      )

      -- The turn that enters another node, or is the last for want of steps.
      enter-or_cut :
          (fuel : ℕ) (label label' : String) (node node' : Node) (ctx : Context State Deps)
          (steps : ℕ) (h : List String)
          → Enters fuel
          → suc steps ≤ max_steps
          → max_steps ≤ steps + suc fuel
          → Trace label node ctx (label ∷ []) cut
          → ((names : List String) (o : Ending State Deps End X)
              → Trace label' node' (context_after node ctx) names o
              → Trace label node ctx (label ∷ names) o)
          → Runs label node ctx steps h (
              enter ns g max_steps run_id
                (loop ns g max_steps run_id fuel)
                label'
                node'
                (context_after node ctx)
                (suc steps)
                (h ++ label ∷ []))
      enter-or_cut fuel label label' node node' ctx steps h ih room enough stopped more =
          elim (full_or_room (suc steps) max_steps room) [
            | inl full ↦ (
              label ∷ [],
              cut,
              stopped,
              enter-cut (loop ns g max_steps run_id fuel) label' node' (context_after node ctx)
                  (suc steps) (h ++ label ∷ []) full,
              omega (arith, full),
            )
            | inr more_room ↦
                Runs-cons label label' node node' ctx (context_after node ctx) steps h _ more (
                  ih label' node' (context_after node ctx) (suc steps) (h ++ label ∷ []) more_room
                    (omega (arith, enough)))
          ]

      after_run-Runs :
          (fuel : ℕ) (label : String) (node : Node) (ctx : Context State Deps) (steps : ℕ)
          (h : List String) (r : Result (NodeResult Node End) (GraphError X))
          → Enters fuel
          → suc steps ≤ max_steps
          → max_steps ≤ steps + suc fuel
          → result_of node ctx ≡ r
          → Runs label node ctx steps h (
              after_run ns g max_steps run_id
                (loop ns g max_steps run_id (suc fuel))
                r
                (context_after node ctx)
                (suc steps)
                (h ++ label ∷ []))
      unfolding after_run loop
      after_run-Runs fuel label node ctx steps h (err e) ih room enough q =
          (label ∷ [], failed e, fails label node ctx e q, refl, omega (arith, room))
      after_run-Runs fuel label node ctx steps h (ok (end value)) ih room enough q = (
        label ∷ [],
        ended value (context_after node ctx),
        ends label node ctx value q,
        refl,
        omega (arith, room),
      )
      after_run-Runs fuel label node ctx steps h (ok (next node')) ih room enough q =
          enter-or_cut fuel label (ns.name node') node node' ctx steps h ih room enough
            (stops label node ctx node' q) (λ names o tr. goes label node ctx node' names o q tr)
      after_run-Runs fuel label node ctx steps h (ok (next_named name)) ih room enough q =
          elim (Option-cases (Map.get name g.nodes)) [
            | inl k ↦
                rw (k, enter_named)
                  (
                    label ∷ [],
                    failed (node_not_found name),
                    lost label node ctx name q k,
                    refl,
                    omega (arith, room),
                  )
            | inr (node', k) ↦
                rw (k, enter_named)
                  (enter-or_cut fuel label name node node' ctx steps h ih room enough
                    (stops_named label node ctx name node' q k)
                    (λ names o tr. goes_named label node ctx name node' names o q k tr))
          ]

      enter-Runs : (fuel : ℕ) → Enters fuel
      enter-Runs zero label node ctx steps h room enough = absurd (omega (arith, room, enough))
      enter-Runs (suc fuel) label node ctx steps h room enough =
          rw (enter-open (loop ns g max_steps run_id (suc fuel)) label node ctx steps h room) (
            after_run-Runs fuel label node ctx steps h (result_of node ctx) (enter-Runs fuel) room
              enough refl)

      -- A run with at least one step, and fewer than the counter can hold, always returns. It enters the start node and then each node that
      -- the one before asks for, by name or as a value, and ends with the first that returns a value,
      -- fails or asks for a name that no node has; it is cut off only after the maximal number of
      -- nodes, and never enters more. A value comes with the history of the nodes that were entered,
      -- in their order.
      pub run_from_with_options-Trace :
          (start : Node) (state : State) (deps : Deps)
          → 1 ≤ max_steps
          → (names : List String) × (o : Ending State Deps End X) × Trace
              (ns.name start)
              start
              (new_context state deps run_id max_steps)
              names
              o
            × (run_from_with_options ns g max_steps run_id start state deps ≡ some (answer o names))
            × Fits o (length names)
      unfolding run_from_with_options
      run_from_with_options-Trace start state deps some_steps =
          let (names, o, tr, e, fit) =
            enter-Runs (suc max_steps) (ns.name start) start
              (new_context state deps run_id max_steps) 0 [] some_steps (omega arith) in
          let z : 0 + length names ≡ length names = omega arith in (names, o, tr, e, rw z at fit)
