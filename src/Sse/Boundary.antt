-- ===== src/Sse/Boundary.antt =====
-- `find_event_boundary` against one pass over the buffer, and how it grows with the buffer.
pub mod Growth
pub mod Within
use Prim.Native.Nat.compare
use serdes_ai.Prelude.{
  ℕ, zero, suc, Bool, true, false, Option, none, some, List, [], ◌∷◌, ◌++◌, length, filter_map,
  if◌then◌else◌, Bool-cases, ◌≡◌, refl, ap, ◌∙◌, inl, inr, arith, ltb,
}
use serdes_ai.Sse.{
  starts, later, position, at_least, min_by_position, delimiters, with_length, find_event_boundary,
}

-- The length of the delimiter that stands at the head.
pub delimiter_at : List ℕ → Option ℕ
unfolding starts
delimiter_at buffer =
    if starts (13 ∷ 10 ∷ 13 ∷ 10 ∷ []) buffer
    then some 4
    else if starts (10 ∷ 10 ∷ []) buffer
    then some 2
    else if starts (13 ∷ 13 ∷ []) buffer
    then some 2
    else none

-- One byte further.
abbrev pub further : Option (ℕ × ℕ) → Option (ℕ × ℕ)
further none = none
further (some (n, l)) = some (suc n, l)

abbrev pub or_further : Option ℕ → Option (ℕ × ℕ) → Option (ℕ × ℕ)
or_further none rest = further rest
or_further (some l) rest = some (0, l)

-- The first place from which on a delimiter stands, in one pass.
pub first_boundary : List ℕ → Option (ℕ × ℕ)
unfolding delimiter_at
first_boundary [] = none
first_boundary (b ∷ bs) = or_further (delimiter_at (b ∷ bs)) (first_boundary bs)

-- A candidate before the best of the later ones.
abbrev cons_min : ℕ → Option ℕ → Option (ℕ × ℕ) → Option (ℕ × ℕ)
cons_min l none r = r
cons_min l (some n) r = some (at_least (n, l) r)

ltb-suc : (m n : ℕ) → ltb (suc m) (suc n) ≡ ltb m n
ltb-suc m n = rw (ltb, compare.suc-suc m n) refl

cons_min-zero : (l : ℕ) (r : Option (ℕ × ℕ)) → cons_min l (some 0) r ≡ some (0, l)
cons_min-zero l none = refl
cons_min-zero l (some (zero, k)) = refl
cons_min-zero l (some (suc n, k)) = rw (ltb, compare.suc-zero n) refl

cons_min-later : (l : ℕ) (a : Option ℕ) (k : ℕ) → cons_min l (later a) (some (0, k)) ≡ some (0, k)
cons_min-later l none k = refl
cons_min-later l (some n) k = rw (ltb, compare.zero-suc n) refl

cons_min-further :
    (l : ℕ) (a : Option ℕ) (r : Option (ℕ × ℕ))
    → cons_min l (later a) (further r) ≡ further (cons_min l a r)
cons_min-further l none r = refl
cons_min-further l (some n) none = refl
cons_min-further l (some n) (some (m, k)) = elim (Bool-cases (ltb m n)) [
  | inl e ↦ rw (e, ltb-suc m n, e) refl
  | inr e ↦ rw (e, ltb-suc m n, e) refl
]

-- The candidates, of the three delimiters in turn.
best : Option ℕ → Option ℕ → Option ℕ → Option (ℕ × ℕ)
best a b c = cons_min 4 a (cons_min 2 b (cons_min 2 c none))

abbrev candidates : List ℕ → List (List ℕ) → List (ℕ × ℕ)
candidates buffer = filter_map (λ d. with_length d (position d buffer))

find-cons :
    (d : List ℕ) (a : Option ℕ) (rest : List (ℕ × ℕ))
    → min_by_position (elim (with_length d a) [ none ↦ rest | some p ↦ p ∷ rest ])
      ≡ cons_min (length d) a (min_by_position rest)
unfolding min_by_position
find-cons d none rest = refl
find-cons d (some n) rest = refl

find-best :
    (buffer : List ℕ)
    → find_event_boundary buffer
      ≡ best
          (position (13 ∷ 10 ∷ 13 ∷ 10 ∷ []) buffer)
          (position (10 ∷ 10 ∷ []) buffer)
          (position (13 ∷ 13 ∷ []) buffer)
unfolding find_event_boundary best min_by_position
find-best buffer =
    let a : Option ℕ = position (13 ∷ 10 ∷ 13 ∷ 10 ∷ []) buffer in
    let b : Option ℕ = position (10 ∷ 10 ∷ []) buffer in
    let c : Option ℕ = position (13 ∷ 13 ∷ []) buffer in
    find-cons (13 ∷ 10 ∷ 13 ∷ 10 ∷ []) a (candidates buffer ((10 ∷ 10 ∷ []) ∷ (13 ∷ 13 ∷ []) ∷ []))
    ∙ ap (cons_min 4 a) (
        find-cons (10 ∷ 10 ∷ []) b (candidates buffer ((13 ∷ 13 ∷ []) ∷ []))
        ∙ ap (cons_min 2 b) (find-cons (13 ∷ 13 ∷ []) c []))

-- The delimiter that stands at the head, by the three tests.
best-step :
    (s t u : Bool) (a b c : Option ℕ)
    → best
        (if s then some 0 else later a)
        (if t then some 0 else later b)
        (if u then some 0 else later c)
      ≡ or_further
          (if s then some 4 else if t then some 2 else if u then some 2 else none)
          (best a b c)
unfolding best
best-step true t u a b c =
    cons_min-zero 4 (best none (if t then some 0 else later b) (if u then some 0 else later c))
best-step false true u a b c =
    ap (cons_min 4 (later a)) (cons_min-zero 2 (cons_min 2 (if u then some 0 else later c) none))
    ∙ cons_min-later 4 a 2
best-step false false true a b c =
    ap (λ r. cons_min 4 (later a) (cons_min 2 (later b) r)) (cons_min-zero 2 none)
    ∙ ap (cons_min 4 (later a)) (cons_min-later 2 b 2)
    ∙ cons_min-later 4 a 2
best-step false false false a b c =
    ap (λ r. cons_min 4 (later a) (cons_min 2 (later b) r)) (cons_min-further 2 c none)
    ∙ ap (cons_min 4 (later a)) (cons_min-further 2 b (cons_min 2 c none))
    ∙ cons_min-further 4 a (cons_min 2 b (cons_min 2 c none))

-- In every buffer the boundary that is found is the first place, in one pass from the head, at which a
-- delimiter stands, with the length of that delimiter.
pub find_event_boundary-first :
    (buffer : List ℕ) → find_event_boundary buffer ≡ first_boundary buffer
unfolding first_boundary delimiter_at position best
find_event_boundary-first [] = rw (find-best []) refl
find_event_boundary-first (b ∷ bs) =
    rw (find-best (b ∷ bs), best-step _ _ _ _ _ _, ← find-best bs, find_event_boundary-first bs)
      refl
