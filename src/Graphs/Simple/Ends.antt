-- ===== src/Graphs/Simple/Ends.antt =====
-- The runs of a simple graph without a cycle end.
use serdes_ai.Prelude.{
  ℕ, zero, suc, ◌<◌, ◌≡◌, refl, sym, ap, ◌∙◌, String, true, false, ◌&&◌, Option, none, some, List,
  [], ◌∷◌, map, All, ◌++◌, length, contains, Bool-cases, Option-cases, inl, inr, string_key, ◌==◌,
  ==_refl, arith,
}
use serdes_ai.Prelude.Map
use serdes_ai.Prelude.Result.{Result, ok, err, Result-cases}
use serdes_ai.Graphs.Graph.{Edge, GraphError, node_not_found}
use serdes_ai.Graphs.Validate.Search.{In, unseen, unseen-nil-le, unseen-cons-lt}
use serdes_ai.Graphs.Validate.Acyclic.{is_edge, Walk, along, further, All-In}
use serdes_ai.Graphs.Simple.{SimpleGraph, find_edge, follow, executed, visit, loop, run_from, run}

module _ {State : Type 0} where
  -- The edge that is found leads from the current node.
  find_edge-some :
      (current : String) (state : State) (es : List (Edge State)) (e : Edge State)
      → find_edge current state es ≡ some e
      → (is_edge es current e.to ≡ true) × In current (map (λ e. e.from) es)
  unfolding find_edge
  find_edge-some current state [] e h = absurd (cc h)
  find_edge-some current state (d ∷ es) e h =
      elim (Bool-cases ((d.from == current) && d.condition state)) [
        | inl q ↦
            let h' : some d ≡ some e = rw q at h in
            let same : d ≡ e = cc h' in
            let here : (d.from == current) ≡ true = ground (arith, q) in
            (rw (sym same, here, ==_refl d.to) refl, rw here refl)
        | inr q ↦
            let (edge, known) = find_edge-some current state es e (rw q at h) in
            (ground (arith, edge), ground (arith, known))
      ]

  -- An edge fits that leads from the current node and whose condition holds.
  abbrev pub IsFitting : String → State → Edge State → Type 0
  IsFitting current state e = ((e.from == current) ≡ true) × (e.condition state ≡ true)

  abbrev pub NotFitting : String → State → Edge State → Type 0
  NotFitting current state e = IsFitting current state e → ⊥

  -- The first edge that fits, if one does.
  abbrev pub FirstFitting : String → State → List (Edge State) → Option (Edge State) → Type 0
  FirstFitting current state es none = All (NotFitting current state) es
  FirstFitting current state es (some e) =
      (before : List (Edge State)) × (after : List (Edge State)) × (es ≡ before ++ e ∷ after)
      × All (NotFitting current state) before
      × IsFitting current state e

  FirstFitting-cons :
      (current : String) (state : State) (d : Edge State) (es : List (Edge State))
      (o : Option (Edge State))
      → NotFitting current state d
      → FirstFitting current state es o
      → FirstFitting current state (d ∷ es) o
  FirstFitting-cons current state d es none h f = (h, f)
  FirstFitting-cons current state d es (some e) h (before, after, q, none_before, fits) =
      (d ∷ before, after, ap (λ l. d ∷ l) q, (h, none_before), fits)

  find_edge-FirstFitting :
      (current : String) (state : State) (es : List (Edge State))
      → FirstFitting current state es (find_edge current state es)
  unfolding find_edge
  find_edge-FirstFitting current state [] = tt
  find_edge-FirstFitting current state (d ∷ es) =
      elim (Bool-cases ((d.from == current) && d.condition state)) [
        | inl q ↦ rw q ([], es, refl, tt, (ground (arith, q), ground (arith, q)))
        | inr q ↦ rw q (
            FirstFitting-cons current state d es (find_edge current state es)
              (λ h. ground (arith, q, h.0, h.1)) (find_edge-FirstFitting current state es))
      ]

module _ {Node State X : Type 0} (execute : Node → State → Result State (GraphError X))
    (g : SimpleGraph Node State) where
  -- What a run from a node gives.
  pub data Run : String → State → Result State (GraphError X) → Type 0 where
    finished :
        (current : String) (state : State)
        → In current g.finish_nodes
        → Run current state (ok state)
    unknown :
        (current : String) (state : State)
        → contains current g.finish_nodes ≡ false
        → Map.get current g.nodes ≡ none
        → Run current state (err (node_not_found current))
    failed :
        (current : String) (state : State) (node : Node) (e : GraphError X)
        → contains current g.finish_nodes ≡ false
        → Map.get current g.nodes ≡ some node
        → execute node state ≡ err e
        → Run current state (err e)
    stays :
        (current : String) (state state' : State) (node : Node)
        → contains current g.finish_nodes ≡ false
        → Map.get current g.nodes ≡ some node
        → execute node state ≡ ok state'
        → FirstFitting current state' g.edges none
        → Run current state (ok state')
    goes :
        (current : String) (state state' : State) (node : Node) (e : Edge State)
        (r : Result State (GraphError X))
        → contains current g.finish_nodes ≡ false
        → Map.get current g.nodes ≡ some node
        → execute node state ≡ ok state'
        → FirstFitting current state' g.edges (some e)
        → Run e.to state' r
        → Run current state r

  abbrev Ends : String → State → Option (Result State (GraphError X)) → Type 0
  Ends current state call =
      (r : Result State (GraphError X)) × (call ≡ some r) × Run current state r

  Walk-snoc : (u v w : String) → Walk g.edges u v → is_edge g.edges v w ≡ true → Walk g.edges u w
  Walk-snoc _ _ w (along u v e) h = further u v w e (along v w h)
  Walk-snoc _ _ w (further u x v e l) h = further u x w e (Walk-snoc x v w l h)

  -- Walks from each of the names to the current one.
  abbrev Behind : String → List String → Type 0
  Behind current names = All (λ v. Walk g.edges v current) names

  Behind-step :
      (current next : String) (names : List String)
      → Behind current names
      → is_edge g.edges current next ≡ true
      → Behind next names
  Behind-step current next [] b h = tt
  Behind-step current next (v ∷ names) b h =
      (Walk-snoc v current next b.0 h, Behind-step current next names b.1 h)

  module _ (no_cycle : (v : String) → Walk g.edges v v → ⊥) where
    abbrev sources : List String
    sources = map (λ e. e.from) g.edges

    not-Behind :
        (current : String) (names : List String)
        → Behind current names
        → contains current names ≡ false
    not-Behind current names b = elim (Bool-cases (contains current names)) [
      | inl q ↦ absurd (no_cycle current (All-In names current (λ v. Walk g.edges v current) b q))
      | inr q ↦ q
    ]

    abbrev LoopEnds : ℕ → Type 0
    LoopEnds fuel =
        (current : String) (state : State) (names : List String)
        → Behind current names
        → unseen sources names < fuel
        → Ends current state (loop execute g fuel current state)

    -- After the node has run.
    follow-Ends :
        (fuel : ℕ) (current : String) (state state' : State) (node : Node) (names : List String)
        → LoopEnds fuel
        → contains current g.finish_nodes ≡ false
        → Map.get current g.nodes ≡ some node
        → execute node state ≡ ok state'
        → Behind current names
        → unseen sources names < suc fuel
        → Ends current state
            (follow execute g (loop execute g fuel) state' (find_edge current state' g.edges))
    unfolding follow
    follow-Ends fuel current state state' node names ih more k q b enough =
        let first = find_edge-FirstFitting current state' g.edges in
        elim (Option-cases (find_edge current state' g.edges)) [
          | inl f ↦
              rw (f, follow)
                (ok state', refl, stays current state state' node more k q (rw f at first))
          | inr (e, f) ↦
              let (edge, source) = find_edge-some current state' g.edges e f in
              let fewer =
                unseen-cons-lt sources names current source (not-Behind current names b) in
              let (r, c, run_on) =
                ih e.to state' (current ∷ names)
                  (along current e.to edge, Behind-step current e.to names b edge)
                  (omega (arith, enough, fewer)) in
              rw (f, follow)
                (r, c, goes current state state' node e r more k q (rw f at first) run_on)
        ]

    visit-Ends :
        (fuel : ℕ) (current : String) (state : State) (names : List String) (o : Option Node)
        → LoopEnds fuel
        → contains current g.finish_nodes ≡ false
        → Map.get current g.nodes ≡ o
        → Behind current names
        → unseen sources names < suc fuel
        → Ends current state (visit execute g (loop execute g fuel) current state o)
    unfolding visit executed
    visit-Ends fuel current state names none ih more k b enough =
        (err (node_not_found current), refl, unknown current state more k)
    visit-Ends fuel current state names (some node) ih more k b enough =
        elim (Result-cases (execute node state)) [
          | inl (state', q) ↦
              rw (q, executed)
                (follow-Ends fuel current state state' node names ih more k q b enough)
          | inr (e, q) ↦ rw (q, executed) (err e, refl, failed current state node e more k q)
        ]

    loop-Ends : (fuel : ℕ) → LoopEnds fuel
    unfolding loop
    loop-Ends zero current state names b enough = absurd (omega (arith, enough))
    loop-Ends (suc fuel) current state names b enough =
        elim (Bool-cases (contains current g.finish_nodes)) [
          | inl q ↦ rw (q, loop) (ok state, refl, finished current state q)
          | inr q ↦
              rw (q, loop)
                (visit-Ends fuel current state names (Map.get current g.nodes) (loop-Ends fuel) q
                  refl b enough)
        ]

    length-sources : (es : List (Edge State)) → length (map (λ e. e.from) es) ≡ length es
    length-sources [] = refl
    length-sources (e ∷ es) = ap suc (length-sources es)

  run-some :
      (entry : String) (state : State)
      → g.entry_node ≡ some entry
      → run execute g state ≡ loop execute g (suc (length g.edges)) entry state
  unfolding run run_from
  run-some entry state e = rw e

  -- If no walk along the edges leads from a name back to it, a run ends, within as many nodes as there
  -- are edges and one more. It runs the nodes from the entry on, each where the first fitting edge
  -- leads, up to a finish node, a node without a fitting edge, a failing node or an unknown name.
  pub run-Ends :
      (entry : String) (state : State)
      → g.entry_node ≡ some entry
      → ((v : String) → Walk g.edges v v → ⊥)
      → (r : Result State (GraphError X)) × (run execute g state ≡ some r) × Run entry state r
  run-Ends entry state e no_cycle =
      let (r, c, ran) = loop-Ends no_cycle (suc (length g.edges)) entry state [] tt (
        omega
          (arith, unseen-nil-le (map (λ d. d.from) g.edges), length-sources no_cycle g.edges)) in
      (r, run-some entry state e ∙ c, ran)
