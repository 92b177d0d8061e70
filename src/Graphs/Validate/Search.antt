-- ===== src/Graphs/Validate/Search.antt =====
-- The depth-first search for cycles ends, and without a cycle it has put the nodes in an order in
-- which edges lead backwards.
use serdes_ai.Prelude.{
  ℕ, zero, suc, ◌<◌, ◌≡◌, refl, ap, ◌∙◌, String, Bool, true, false, Option, some, List, [], ◌∷◌,
  All, contains, Bool-cases, inl, inr, string_key, arith,
}
use serdes_ai.Graphs.Validate.{
  Sets, Adjacency, neighbors, insert_name, remove_name, go_on, any_cycle, leave, detect_cycle,
}
pub use serdes_ai.Graphs.Validate.Names.{
  In, Topological, Leads, Follows, Chain, Chain-cycle, unseen, unseen-nil-le, unseen-cons-lt,
  remove_name-cons, In-insert_name, In-insert_name_other, All-self, AllIn, one, more,
}

module _ (adjacency : Adjacency) (universe : List String)
    (closed : (v : String) → All (λ w. In w universe) (neighbors adjacency v)) where
  -- What a call or a loop leaves, where `P` says which names are visited then.
  pub data Searched (P : List String → Type 0) (s : Sets) : Option (Bool × Sets) → Type 0 where
    cyclic : (s' : Sets) (v : String) → Leads adjacency v v → Searched P s (some (true, s'))
    clean :
        (s' : Sets)
        → s'.visiting ≡ s.visiting
        → ((v : String) → In v s.visited → In v s'.visited)
        → P s'.visited
        → Topological adjacency s'.visited
        → Searched P s (some (false, s'))

  -- A call that searches well with the given names being visited.
  abbrev pub Searches : (String → Sets → Option (Bool × Sets)) → List String → Type 0
  Searches call visiting =
      (n : String) (s : Sets)
      → In n universe
      → Follows adjacency n visiting
      → s.visiting ≡ visiting
      → Topological adjacency s.visited
      → Searched (In n) s (call n s)

  then-Searched :
      (n : String) (ns : List String) (s : Sets) (rest : Sets → Option (Bool × Sets))
      (r : Option (Bool × Sets))
      → ((s' : Sets)
          → s'.visiting ≡ s.visiting
          → Topological adjacency s'.visited
          → Searched (AllIn ns) s' (rest s'))
      → Searched (In n) s r
      → Searched (AllIn (n ∷ ns)) s (go_on rest r)
  unfolding go_on
  then-Searched n ns s rest _ next (cyclic s' v l) = cyclic s' v l
  then-Searched n ns s rest _ next (clean s' e keeps here order) =
      then_clean (rest s') (next s' e order)
    where
      then_clean :
          (r : Option (Bool × Sets)) → Searched (AllIn ns) s' r → Searched (AllIn (n ∷ ns)) s r
      then_clean _ (cyclic s'' v l) = cyclic s'' v l
      then_clean _ (clean s'' e' keeps' all_there order') =
          clean s'' (e' ∙ e) (λ v h. keeps' v (keeps v h)) (keeps' n here, all_there) order'

  pub any_cycle-Searched :
      (call : String → Sets → Option (Bool × Sets)) (ns : List String) (s : Sets)
      → Searches call s.visiting
      → All (λ n. In n universe) ns
      → All (λ n. Follows adjacency n s.visiting) ns
      → Topological adjacency s.visited
      → Searched (AllIn ns) s (any_cycle call ns s)
  unfolding any_cycle
  any_cycle-Searched call [] s good known follows order = clean s refl (λ v h. h) tt order
  any_cycle-Searched call (n ∷ ns) s good known follows order =
      then-Searched n ns s (any_cycle call ns) (call n s)
        (λ s' e order'. any_cycle-Searched call ns s' (rw e good) known.1 (rw e follows.1) order')
        (good n s known.0 follows.0 refl order)

  insert_name-Topological :
      (node : String) (visited : List String)
      → AllIn (neighbors adjacency node) visited
      → Topological adjacency visited
      → Topological adjacency (insert_name node visited)
  insert_name-Topological node visited all_there order = elim (Bool-cases (contains node visited)) [
    | inl e ↦ rw e order
    | inr e ↦ rw e (all_there, order)
  ]

  leave-Searched :
      (node : String) (s s₁ : Sets) (r : Option (Bool × Sets))
      → contains node s.visiting ≡ false
      → s₁.visiting ≡ node ∷ s.visiting
      → s₁.visited ≡ s.visited
      → Searched (AllIn (neighbors adjacency node)) s₁ r
      → Searched (In node) s (leave node r)
  unfolding leave
  leave-Searched node s s₁ _ new e v (cyclic s' w l) = cyclic _ w l
  leave-Searched node s s₁ _ new e v (clean s' e' keeps all_there order) =
      clean _ (ap (remove_name node) (e' ∙ e) ∙ remove_name-cons node s.visiting new)
        (λ w h. In-insert_name_other w node s'.visited (keeps w (rw v h)))
        (In-insert_name node s'.visited) (insert_name-Topological node s'.visited all_there order)

  pub detect_cycle-Searched :
      (fuel : ℕ) (node : String) (s : Sets)
      → In node universe
      → Follows adjacency node s.visiting
      → Chain adjacency s.visiting
      → unseen universe s.visiting < fuel
      → Topological adjacency s.visited
      → Searched (In node) s (detect_cycle adjacency fuel node s)
  unfolding detect_cycle
  detect_cycle-Searched zero node s known follows chain enough order =
      absurd (omega (arith, enough))
  detect_cycle-Searched (suc fuel) node s known follows chain enough order =
      elim (Bool-cases (contains node s.visited)) [
        | inl seen ↦ rw (seen, detect_cycle) (clean s refl (λ v h. h) seen order)
        | inr unvisited ↦ elim (Bool-cases (contains node s.visiting)) [
          | inl again ↦
              rw (unvisited, again, detect_cycle)
                (cyclic s node (Chain-cycle adjacency node s.visiting chain follows again))
          | inr new ↦
              rw (unvisited, new, detect_cycle, insert_name, new)
                (leave-Searched node s (record s { visiting = node ∷ s.visiting }) _ new refl refl
                  (any_cycle-Searched (detect_cycle adjacency fuel) (neighbors adjacency node)
                    (record s { visiting = node ∷ s.visiting })
                    (λ n s' known' follows' e order'.
                      detect_cycle-Searched fuel n s' known' (rw e follows') (rw e (follows, chain))
                        (rw e (
                          omega (arith, enough, unseen-cons-lt universe s.visiting node known new)))
                        order')
                    (closed node) (All-self (neighbors adjacency node)) order))
        ]
      ]
