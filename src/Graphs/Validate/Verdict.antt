-- ===== src/Graphs/Validate/Verdict.antt =====
-- What the verdict of `Graph::validate` says of a graph.
use serdes_ai.Prelude.{
  suc, ◌<◌, ◌≡◌, refl, sym, ap, ◌∙◌, String, Bool, true, false, Option, none, some, List, [], ◌∷◌,
  map, All, length, Bool-cases, ◌&&◌, ==_refl, inl, inr, string_key, ◌==◌, arith,
}
use serdes_ai.Prelude.Map
use serdes_ai.Prelude.Map.{Map}
use serdes_ai.Prelude.Result.{Result, ok, err, ◌>>◌}
use serdes_ai.Graphs.Graph.{Edge, Graph, GraphError, no_entry_node, node_not_found, cycle_detected}
use serdes_ai.Graphs.Validate.{
  Sets, neighbors, any_cycle, detect_cycle, adjacency_of, cycle_result, check_node, check_entry,
  check_edges, check_finish, check_cycles, references, validate,
}
use serdes_ai.Graphs.Validate.Search.{
  In, unseen, Searched, cyclic, clean, AllIn, any_cycle-Searched, detect_cycle-Searched,
  unseen-nil-le, All-self,
}
use serdes_ai.Graphs.Validate.Acyclic.{
  is_edge, Walk, along, further, All-In, neighbor_iff, Walk-Leads, no_cycle,
}

key-In :
    {V : Type 0} (m : Map String V) (name : String)
    → Map.contains_key name m ≡ true
    → In name (map (λ entry. entry.0) m)
unfolding Map.get
key-In [] name h = absurd (cc h)
key-In ((j, v) ∷ m) name h = elim (Bool-cases (j == name)) [
  | inl q ↦ rw q refl
  | inr q ↦ rw q (key-In m name (rw q at h))
]

length-keys : {V : Type 0} (m : Map String V) → length (map (λ entry. entry.0) m) ≡ length m
length-keys [] = refl
length-keys (entry ∷ m) = ap suc (length-keys m)

All-of : (ns : List String) (P : String → Type 0) → ((n : String) → In n ns → P n) → All P ns
All-of [] P f = tt
All-of (n ∷ ns) P f = (f n (rw (==_refl n) refl), All-of ns P (λ m h. f m (ground (arith, h))))

module _ {Node State : Type 0} (g : Graph Node State) where
  abbrev pub Known : String → Type 0
  Known name = Map.contains_key name g.nodes ≡ true

  abbrev pub KnownEnds : Edge State → Type 0
  KnownEnds e = Known e.from × Known e.to

  -- What the verdict means.
  pub data Verdict (X : Type 0) : Result (Unit {0}) (GraphError X) → Type 0 where
    valid :
        (entry : String)
        → g.entry_node ≡ some entry
        → Known entry
        → All KnownEnds g.edges
        → All Known g.finish_nodes
        → ((v : String) → Walk g.edges v v → ⊥)
        → Verdict X (ok tt)
    no_entry : g.entry_node ≡ none → Verdict X (err no_entry_node)
    unknown :
        (name : String)
        → Map.contains_key name g.nodes ≡ false
        → Verdict X (err (node_not_found name))
    cycle : (v : String) → Walk g.edges v v → Verdict X (err cycle_detected)

  abbrev HasEntry : Option String → Type 0
  HasEntry o = (entry : String) × (o ≡ some entry) × Known entry

  abbrev References : Type 0
  References = (HasEntry g.entry_node × All KnownEnds g.edges) × All Known g.finish_nodes

  abbrev keys : List String
  keys = map (λ entry. entry.0) g.nodes

  edge-Known :
      (es : List (Edge State)) (v w : String)
      → All KnownEnds es
      → is_edge es v w ≡ true
      → Known v × Known w
  edge-Known [] v w h k = absurd (cc k)
  edge-Known (e ∷ es) v w h k = elim (Bool-cases ((e.from == v) && (e.to == w))) [
    | inl q ↦
        let f : e.from ≡ v = (string_key.same_iff e.from v).0 (ground (arith, q)) in
        let s : e.to ≡ w = (string_key.same_iff e.to w).0 (ground (arith, q)) in
        (rw (sym f) h.0.0, rw (sym s) h.0.1)
    | inr q ↦ edge-Known es v w h.1 (rw q at k)
  ]

  module _ {X : Type 0} where
    -- A check of references: it finds that something holds, or is the verdict.
    data Check (P : Type 0) : Result (Unit {0}) (GraphError X) → Type 0 where
      good : P → Check P (ok tt)
      bad : (e : GraphError X) → Verdict X (err e) → Check P (err e)

    then-Check :
        {P Q : Type 0} {a b : Result (Unit {0}) (GraphError X)}
        → Check P a
        → Check Q b
        → Check (P × Q) (a >> b)
    then-Check (good p) (good q) = good (p, q)
    then-Check (good p) (bad e v) = bad e v
    then-Check (bad e v) c = bad e v

    check_node-Check : (name : String) → Check (Known name) (check_node g name)
    unfolding check_node
    check_node-Check name = elim (Bool-cases (Map.contains_key name g.nodes)) [
      | inl k ↦ rw k (good refl)
      | inr k ↦ rw k (bad (node_not_found name) (unknown name k))
    ]

    check_entry-Check :
        (o : Option String) → g.entry_node ≡ o → Check (HasEntry o) (check_entry g o)
    unfolding check_entry
    check_entry-Check none e = bad no_entry_node (no_entry e)
    check_entry-Check (some entry) e = with_entry (check_node-Check entry)
      where
        with_entry :
            {r : Result (Unit {0}) (GraphError X)}
            → Check (Known entry) r
            → Check (HasEntry (some entry)) r
        with_entry (good k) = good (entry, refl, k)
        with_entry (bad e v) = bad e v

    check_edges-Check : (es : List (Edge State)) → Check (All KnownEnds es) (check_edges g es)
    unfolding check_edges
    check_edges-Check [] = good tt
    check_edges-Check (e ∷ es) = regroup (
        then-Check (then-Check (check_node-Check e.from) (check_node-Check e.to))
          (check_edges-Check es))
      where
        regroup :
            {r : Result (Unit {0}) (GraphError X)}
            → Check ((Known e.from × Known e.to) × All KnownEnds es) r
            → Check (All KnownEnds (e ∷ es)) r
        regroup (good p) = good p
        regroup (bad e' v) = bad e' v

    check_finish-Check : (names : List String) → Check (All Known names) (check_finish g names)
    unfolding check_finish
    check_finish-Check [] = good tt
    check_finish-Check (name ∷ names) =
        then-Check (check_node-Check name) (check_finish-Check names)

    references-Check : Check References (references g)
    unfolding references
    references-Check =
        then-Check (then-Check (check_entry-Check g.entry_node refl) (check_edges-Check g.edges))
          (check_finish-Check g.finish_nodes)

  module _ (edges_known : All KnownEnds g.edges) where
    known_neighbors : (v : String) → All (λ w. In w keys) (neighbors (adjacency_of g.edges []) v)
    known_neighbors v =
        All-of (neighbors (adjacency_of g.edges []) v) (λ w. In w keys)
          (λ w h.
            key-In g.nodes w
              (edge-Known g.edges v w edges_known (sym (neighbor_iff g.edges v w) ∙ h)).1)

    cycles-Searched :
        Searched
          (adjacency_of g.edges [])
          keys
          known_neighbors
          (AllIn keys)
          (record { visiting = []; visited = [] })
          (any_cycle
            (detect_cycle (adjacency_of g.edges []) (suc (length g.nodes)))
            keys
            (record { visiting = []; visited = [] }))
    cycles-Searched =
        any_cycle-Searched (adjacency_of g.edges []) keys known_neighbors
          (detect_cycle (adjacency_of g.edges []) (suc (length g.nodes))) keys
          (record { visiting = []; visited = [] })
          (λ n s known follows e order.
            let enough : unseen keys s.visiting < suc (length g.nodes) =
              rw e (omega (arith, unseen-nil-le keys, length-keys g.nodes)) in
            detect_cycle-Searched (adjacency_of g.edges []) keys known_neighbors
              (suc (length g.nodes)) n s known (rw e follows) (rw e tt) enough order)
          (All-self keys) (All-of keys (λ n. Unit) (λ n h. tt)) tt

  Walk-start : (v w : String) → Walk g.edges v w → (u : String) × (is_edge g.edges v u ≡ true)
  Walk-start _ _ (along v w e) = (w, e)
  Walk-start _ _ (further v w z e l) = (w, e)

  walk-visited :
      (s : Sets) (v : String)
      → All KnownEnds g.edges
      → AllIn keys s.visited
      → Walk g.edges v v
      → In v s.visited
  walk-visited s v edges all_there l =
      let (w, e) = Walk-start v v l in
      All-In keys v (λ n. In n s.visited) all_there
        (key-In g.nodes v (edge-Known g.edges v w edges e).0)

  module _ (X : Type 0) where
    abbrev pub Returns : Option (Result (Unit {0}) (GraphError X)) → Type 0
    Returns call = (r : Result (Unit {0}) (GraphError X)) × (call ≡ some r) × Verdict X r

    cycles-Returns :
        (o : Option (Bool × Sets)) (refs : References)
        → Searched
            (adjacency_of g.edges [])
            keys
            (known_neighbors refs.0.1)
            (AllIn keys)
            (record { visiting = []; visited = [] })
            o
        → Returns (cycle_result o)
    unfolding cycle_result
    cycles-Returns _ refs (cyclic s v l) =
        (err cycle_detected, refl, cycle v (Walk-Leads g.edges v v l))
    cycles-Returns _ (((entry, e, k), edges), finish) (clean s visiting keeps all_there order) = (
      ok tt,
      refl,
      valid entry e k edges finish
          (λ v l. no_cycle g.edges s.visited v order (walk-visited s v edges all_there l) l),
    )

    checked-Returns :
        (r : Result (Unit {0}) (GraphError X))
        → Check References r
        → Returns (elim r [ err error ↦ some (err error) | ok done ↦ check_cycles g ])
    unfolding check_cycles
    checked-Returns _ (bad e v) = (err e, refl, v)
    checked-Returns _ (good refs) = cycles-Returns _ refs (cycles-Searched refs.0.1)

  -- Validation always ends. It accepts a graph only if the entry, the ends of all edges and the finish
  -- nodes are nodes of the graph and no walk along its edges leads from a name back to it; it reports
  -- a missing entry only if there is none, a node as not found only if the graph does not have it,
  -- and a cycle only if there is a walk from a name back to it.
  pub validate-Verdict :
      {X : Type 0} → (r : Result (Unit {0}) (GraphError X)) × (validate g ≡ some r) × Verdict X r
  unfolding validate
  validate-Verdict {X} = checked-Returns X (references g) references-Check
