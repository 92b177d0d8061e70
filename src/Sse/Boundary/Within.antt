-- ===== src/Sse/Boundary/Within.antt =====
-- Where `find_event_boundary`, of serdes-ai-streaming/src/sse.rs, finds a boundary.
use serdes_ai.Prelude.{
  ℕ, ◌+◌, ◌≤◌, Option, none, some, List, [], ◌∷◌, ◌≡◌, refl, sym, ◌∙◌, arith, length,
  some_injective,
}
use serdes_ai.Sse.{starts, find_event_boundary}
use serdes_ai.Sse.Boundary.{
  delimiter_at, further, or_further, first_boundary, find_event_boundary-first,
}

-- A place and a length in the buffer, of one byte at least and is not empty.
abbrev pub Within : List ℕ → ℕ × ℕ → Type 0
Within bs r = (r.0 + r.1 ≤ length bs) × (1 ≤ r.1)

delimiter_at-Within : (bs : List ℕ) (l : ℕ) → delimiter_at bs ≡ some l → (l ≤ length bs) × (1 ≤ l)
unfolding delimiter_at starts
delimiter_at-Within [] l h = ground arith
delimiter_at-Within (x ∷ []) l h = ground arith
delimiter_at-Within (x ∷ y ∷ []) l h = ground arith
delimiter_at-Within (x ∷ y ∷ z ∷ []) l h = ground arith
delimiter_at-Within (x ∷ y ∷ z ∷ w ∷ bs) l h = ground arith

further-Within :
    (b : ℕ) (bs : List ℕ) (o : Option (ℕ × ℕ)) (r : ℕ × ℕ)
    → ((r' : ℕ × ℕ) → o ≡ some r' → Within bs r')
    → further o ≡ some r
    → Within (b ∷ bs) r
further-Within b bs none r keep h = absurd (cc h)
further-Within b bs (some (n, l)) r keep h =
    let within = keep (n, l) refl in rw (← some_injective h) (omega (arith, within.0), within.1)

or_further-Within :
    (b : ℕ) (bs : List ℕ) (l : Option ℕ) (o : Option (ℕ × ℕ)) (r : ℕ × ℕ)
    → ((k : ℕ) → l ≡ some k → (k ≤ length (b ∷ bs)) × (1 ≤ k))
    → ((r' : ℕ × ℕ) → o ≡ some r' → Within bs r')
    → or_further l o ≡ some r
    → Within (b ∷ bs) r
or_further-Within b bs none o r at keep h = further-Within b bs o r keep h
or_further-Within b bs (some l) o r at keep h =
    let a = at l refl in rw (← some_injective h) (omega (arith, a.0), a.1)

first_boundary-Within : (bs : List ℕ) (r : ℕ × ℕ) → first_boundary bs ≡ some r → Within bs r
unfolding first_boundary
first_boundary-Within [] r h = absurd (cc h)
first_boundary-Within (b ∷ bs) r h =
    or_further-Within b bs (delimiter_at (b ∷ bs)) (first_boundary bs) r
      (delimiter_at-Within (b ∷ bs)) (first_boundary-Within bs) h

pub find_event_boundary-Within :
    (bs : List ℕ) (r : ℕ × ℕ) → find_event_boundary bs ≡ some r → Within bs r
find_event_boundary-Within bs r h =
    first_boundary-Within bs r (sym (find_event_boundary-first bs) ∙ h)
