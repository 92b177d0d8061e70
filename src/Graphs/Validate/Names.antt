-- ===== src/Graphs/Validate/Names.antt =====
-- The sets of names of the search for cycles: what is being visited is a chain of edges, and leaves
-- fewer names the longer it is.
use serdes_ai.Prelude.{
  ℕ, suc, ◌≤◌, ◌<◌, ◌≡◌, refl, sym, String, true, false, List, [], ◌∷◌, All, length, contains,
  if◌then◌else◌, Bool-cases, inl, inr, ◌⊎◌, string_key, ◌==◌, ==_refl, arith,
}
use serdes_ai.Graphs.Validate.{Adjacency, neighbors, insert_name, remove_name}

abbrev pub In : String → List String → Type 0
In name names = contains name names ≡ true

-- The neighbors of each name stand after it.
abbrev pub Topological : Adjacency → List String → Type 0
Topological adjacency [] = Unit
Topological adjacency (v ∷ vs) =
    All (λ w. In w vs) (neighbors adjacency v) × Topological adjacency vs

-- One edge or more lead from a name to another.
pub data Leads (adjacency : Adjacency) : String → String → Type 0 where
  one : (v w : String) → In w (neighbors adjacency v) → Leads adjacency v w
  more : (v w z : String) → In w (neighbors adjacency v) → Leads adjacency w z → Leads adjacency v z

-- A name follows the last one that is being visited, and each of those the one before it.
abbrev pub Follows : Adjacency → String → List String → Type 0
Follows adjacency n [] = Unit
Follows adjacency n (u ∷ us) = In n (neighbors adjacency u)

abbrev pub Chain : Adjacency → List String → Type 0
Chain adjacency [] = Unit
Chain adjacency (v ∷ us) = Follows adjacency v us × Chain adjacency us

Leads-snoc :
    (adjacency : Adjacency) (u v w : String)
    → Leads adjacency u v
    → In w (neighbors adjacency v)
    → Leads adjacency u w
Leads-snoc adjacency _ _ w (one u v h) k = more u v w h (one v w k)
Leads-snoc adjacency _ _ w (more u x v h l) k = more u x w h (Leads-snoc adjacency x v w l k)

Chain-Leads :
    (adjacency : Adjacency) (u : String) (us : List String) (v : String)
    → Chain adjacency (u ∷ us)
    → In v (u ∷ us)
    → (v ≡ u) ⊎ Leads adjacency v u
Chain-Leads adjacency u [] v chain h = elim (Bool-cases (u == v)) [
  | inl e ↦ inl (sym ((string_key.same_iff u v).0 e))
  | inr e ↦ absurd (cc (rw e at h))
]
Chain-Leads adjacency u (u' ∷ us) v chain h = elim (Bool-cases (u == v)) [
  | inl e ↦ inl (sym ((string_key.same_iff u v).0 e))
  | inr e ↦ inr (elim (Chain-Leads adjacency u' us v chain.1 (rw e at h)) [
    | inl q ↦ rw q (one u' u chain.0)
    | inr l ↦ Leads-snoc adjacency v u' u l chain.0
  ])
]

-- A name that is being visited and follows the last one of them is on a cycle.
pub Chain-cycle :
    (adjacency : Adjacency) (v : String) (us : List String)
    → Chain adjacency us
    → Follows adjacency v us
    → In v us
    → Leads adjacency v v
Chain-cycle adjacency v [] chain f h = absurd (cc h)
Chain-cycle adjacency v (u ∷ us) chain f h = elim (Chain-Leads adjacency u us v chain h) [
  | inl e ↦ rw e (one u u (rw e at f))
  | inr l ↦ Leads-snoc adjacency v u v l f
]

-- How many names of a list are not in another.
pub unseen : List String → List String → ℕ
unseen [] seen = 0
unseen (u ∷ us) seen = let rest = unseen us seen in if contains u seen then rest else suc rest

unseen-cons-le : (us seen : List String) (n : String) → unseen us (n ∷ seen) ≤ unseen us seen
unfolding unseen
unseen-cons-le [] seen n = omega arith
unseen-cons-le (u ∷ us) seen n = ground (arith, unseen-cons-le us seen n)

pub unseen-nil-le : (us : List String) → unseen us [] ≤ length us
unfolding unseen
unseen-nil-le [] = omega arith
unseen-nil-le (u ∷ us) = omega (arith, unseen-nil-le us)

-- Visiting a name that was not seen leaves fewer.
pub unseen-cons-lt :
    (us seen : List String) (n : String)
    → In n us
    → contains n seen ≡ false
    → unseen us (n ∷ seen) < unseen us seen
unfolding unseen
unseen-cons-lt [] seen n h q = absurd (cc h)
unseen-cons-lt (u ∷ us) seen n h q = elim (Bool-cases (u == n)) [
  | inl e ↦
      let same : u ≡ n = (string_key.same_iff u n).0 e in
      rw (same, ==_refl n, q) (omega (arith, unseen-cons-le us seen n))
  | inr e ↦ ground (arith, unseen-cons-lt us seen n (rw e at h) q)
]

retain-absent :
    (n : String) (names : List String) → contains n names ≡ false → remove_name n names ≡ names
retain-absent n [] h = refl
retain-absent n (m ∷ names) h = elim (Bool-cases (m == n)) [
  | inl e ↦ absurd (cc (rw e at h))
  | inr e ↦ rw (e, retain-absent n names (rw e at h)) refl
]

pub remove_name-cons :
    (n : String) (names : List String)
    → contains n names ≡ false
    → remove_name n (n ∷ names) ≡ names
remove_name-cons n names h = rw (==_refl n) (retain-absent n names h)

pub In-insert_name : (n : String) (names : List String) → In n (insert_name n names)
In-insert_name n names = elim (Bool-cases (contains n names)) [
  | inl e ↦ rw (e, e) refl
  | inr e ↦ rw (e, ==_refl n) refl
]

pub In-insert_name_other :
    (v n : String) (names : List String) → In v names → In v (insert_name n names)
In-insert_name_other v n names h = elim (Bool-cases (contains n names)) [
  | inl e ↦ rw e h
  | inr e ↦ rw e (ground (arith, h))
]

All-weaken :
    (n : String) (ns ms : List String) → All (λ w. In w ns) ms → All (λ w. In w (n ∷ ns)) ms
All-weaken n ns [] h = tt
All-weaken n ns (m ∷ ms) h = (ground (arith, h.0), All-weaken n ns ms h.1)

pub All-self : (ns : List String) → All (λ w. In w ns) ns
All-self [] = tt
All-self (n ∷ ns) = (rw (==_refl n) refl, All-weaken n ns ns (All-self ns))

abbrev pub AllIn : List String → List String → Type 0
AllIn ns visited = All (λ n. In n visited) ns
