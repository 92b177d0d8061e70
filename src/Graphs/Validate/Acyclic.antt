-- ===== src/Graphs/Validate/Acyclic.antt =====
-- Walks along the edges of a graph, and the orders that rule out cycles.
use serdes_ai.Prelude.{
  ◌≡◌, sym, ◌∙◌, String, Bool, true, false, ◌||◌, ◌&&◌, List, [], ◌∷◌, ◌++◌, All, contains,
  contains-append, Bool-cases, inl, inr, string_key, ◌==◌, arith,
}
use serdes_ai.Prelude.Map
use serdes_ai.Prelude.Map.{Map}
use serdes_ai.Graphs.Graph.{Edge}
use serdes_ai.Graphs.Validate.{Adjacency, neighbors, adjacency_of}
use serdes_ai.Graphs.Validate.Search.{In, Topological, Leads, one, more, AllIn}

pub All-In : (ns : List String) (v : String) (P : String → Type 0) → All P ns → In v ns → P v
All-In [] v P h k = absurd (cc k)
All-In (n ∷ ns) v P h k = elim (Bool-cases (n == v)) [
  | inl q ↦ rw (sym ((string_key.same_iff n v).0 q)) h.0
  | inr q ↦ All-In ns v P h.1 (rw q at k)
]

module _ {State : Type 0} where
  abbrev pub is_edge : List (Edge State) → String → String → Bool
  is_edge [] v w = false
  is_edge (e ∷ es) v w = (e.from == v) && (e.to == w) || is_edge es v w

  -- One edge or more lead from a name to another.
  pub data Walk (es : List (Edge State)) : String → String → Type 0 where
    along : (v w : String) → is_edge es v w ≡ true → Walk es v w
    further : (v w z : String) → is_edge es v w ≡ true → Walk es w z → Walk es v z

  -- The neighbors after one more edge.
  abbrev grown : Adjacency → Edge State → Adjacency
  grown adjacency e = Map.insert e.from (neighbors adjacency e.from ++ e.to ∷ []) adjacency

  contains-grown :
      (adjacency : Adjacency) (e : Edge State) (v w : String)
      → contains w (neighbors (grown adjacency e) v)
        ≡ (contains w (neighbors adjacency v) || (e.from == v) && (e.to == w))
  contains-grown adjacency e v w = elim (Bool-cases (e.from == v)) [
    | inl q ↦
        let same : e.from ≡ v = (string_key.same_iff e.from v).0 q in
        rw
          (
            Map.get-insert e.from v (neighbors adjacency e.from ++ e.to ∷ []) adjacency,
            q,
            same,
            contains-append w (neighbors adjacency v) (e.to ∷ []),
          )
          (ground arith)
    | inr q ↦
        rw (Map.get-insert e.from v (neighbors adjacency e.from ++ e.to ∷ []) adjacency, q)
          (ground arith)
  ]

  -- The neighbors are the ends of the edges.
  contains-neighbors_adjacency :
      (es : List (Edge State)) (adjacency : Adjacency) (v w : String)
      → contains w (neighbors (adjacency_of es adjacency) v)
        ≡ (contains w (neighbors adjacency v) || is_edge es v w)
  unfolding adjacency_of
  contains-neighbors_adjacency [] adjacency v w = ground arith
  contains-neighbors_adjacency (e ∷ es) adjacency v w = ground (
    arith,
    contains-neighbors_adjacency es (grown adjacency e) v w,
    contains-grown adjacency e v w,
  )

  pub neighbor_iff :
      (es : List (Edge State)) (v w : String)
      → contains w (neighbors (adjacency_of es []) v) ≡ is_edge es v w
  unfolding Map.get
  neighbor_iff es v w = contains-neighbors_adjacency es [] v w

  pub Walk-Leads :
      (es : List (Edge State)) (v w : String) → Leads (adjacency_of es []) v w → Walk es v w
  Walk-Leads es _ _ (one v w h) = along v w (sym (neighbor_iff es v w) ∙ h)
  Walk-Leads es _ _ (more v w z h l) =
      further v w z (sym (neighbor_iff es v w) ∙ h) (Walk-Leads es w z l)

  -- Edges lead out of an order's name only to the names after it.
  module _ (es : List (Edge State)) where
    abbrev pub IsOrder : List String → Type 0
    IsOrder = Topological (adjacency_of es [])

    edge-In :
        (v : String) (vs : List String) (w : String)
        → AllIn (neighbors (adjacency_of es []) v) vs
        → is_edge es v w ≡ true
        → In w vs
    edge-In v vs w h e =
        All-In (neighbors (adjacency_of es []) v) w (λ u. In u vs) h (neighbor_iff es v w ∙ e)

    step-In :
        (order : List String) (v w : String)
        → IsOrder order
        → In v order
        → is_edge es v w ≡ true
        → In w order
    step-In [] v w o h e = absurd (cc h)
    step-In (u ∷ order) v w o h e = elim (Bool-cases (u == v)) [
      | inl q ↦
          let same : u ≡ v = (string_key.same_iff u v).0 q in
          let later = edge-In v order w (rw same at o.0) e in ground (arith, later)
      | inr q ↦ let later = step-In order v w o.1 (rw q at h) e in ground (arith, later)
    ]

    walk-In :
        (order : List String) (v w : String) → IsOrder order → In v order → Walk es v w → In w order
    walk-In order _ _ o h (along v w e) = step-In order v w o h e
    walk-In order _ _ o h (further v w z e l) = walk-In order w z o (step-In order v w o h e) l

    -- The walk's first edge.
    leaves :
        (v z : String) (order : List String)
        → Walk es v z
        → AllIn (neighbors (adjacency_of es []) v) order
        → IsOrder order
        → In z order
    leaves _ _ order (along v w e) h o = edge-In v order w h e
    leaves _ _ order (further v w z e l) h o = walk-In order w z o (edge-In v order w h e) l

    pub no_cycle : (order : List String) (v : String) → IsOrder order → In v order → Walk es v v → ⊥
    no_cycle [] v o h l = cc h
    no_cycle (u ∷ order) v o h l = elim (Bool-cases (u == v)) [
      | inl q ↦
          let same : u ≡ v = (string_key.same_iff u v).0 q in
          no_cycle order v o.1 (leaves v v order l (rw same at o.0) o.1) l
      | inr q ↦ no_cycle order v o.1 (rw q at h) l
    ]
