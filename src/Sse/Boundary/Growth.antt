-- ===== src/Sse/Boundary/Growth.antt =====
-- `find_event_boundary`, of serdes-ai-streaming/src/sse.rs, when more bytes arrive.
use serdes_ai.Prelude.{
  ℕ, true, false, Option, none, some, List, [], ◌∷◌, ◌++◌, ◌≡◌, refl, ap, sym, ◌∙◌, nat_beq, arith,
}
use serdes_ai.Sse.{starts, find_event_boundary}
use serdes_ai.Sse.Boundary.{
  delimiter_at, further, or_further, first_boundary, find_event_boundary-first,
}

-- A byte is not both a carriage return and a line feed.
nat_beq-one : (x : ℕ) → nat_beq x 13 ≡ true → nat_beq x 10 ≡ false
nat_beq-one x h = ground arith

-- A delimiter is looked for in the four bytes at the head.
delimiter_at-append :
    (x y z w : ℕ) (bs cs : List ℕ)
    → delimiter_at (x ∷ y ∷ z ∷ w ∷ bs ++ cs) ≡ delimiter_at (x ∷ y ∷ z ∷ w ∷ bs)
unfolding delimiter_at starts
delimiter_at-append x y z w bs cs = refl

first_boundary-one : (x : ℕ) → first_boundary (x ∷ []) ≡ none
unfolding first_boundary delimiter_at starts
first_boundary-one x = ground arith

first_boundary-two :
    (x y : ℕ) (cs : List ℕ) (r : ℕ × ℕ)
    → first_boundary (x ∷ y ∷ []) ≡ some r
    → first_boundary (x ∷ y ∷ cs) ≡ some r
unfolding first_boundary delimiter_at starts
first_boundary-two x y cs r h = ground arith

-- With three bytes a delimiter stands at the head or one further, and then no long one is begun.
first_boundary-three :
    (x y z : ℕ) (cs : List ℕ) (r : ℕ × ℕ)
    → first_boundary (x ∷ y ∷ z ∷ []) ≡ some r
    → first_boundary (x ∷ y ∷ z ∷ cs) ≡ some r
unfolding first_boundary delimiter_at starts
first_boundary-three x y z cs r h = ground arith

further-some :
    (o o' : Option (ℕ × ℕ)) (r : ℕ × ℕ)
    → ((r' : ℕ × ℕ) → o ≡ some r' → o' ≡ some r')
    → further o ≡ some r
    → further o' ≡ some r
further-some none o' r keep h = absurd (cc h)
further-some (some r') o' r keep h = ap further (keep r' refl) ∙ h

or_further-some :
    (l : Option ℕ) (o o' : Option (ℕ × ℕ)) (r : ℕ × ℕ)
    → ((r' : ℕ × ℕ) → o ≡ some r' → o' ≡ some r')
    → or_further l o ≡ some r
    → or_further l o' ≡ some r
or_further-some none o o' r keep h = further-some o o' r keep h
or_further-some (some l) o o' r keep h = h

first_boundary-append :
    (bs cs : List ℕ) (r : ℕ × ℕ) → first_boundary bs ≡ some r → first_boundary (bs ++ cs) ≡ some r
unfolding first_boundary
first_boundary-append [] cs r h = absurd (cc h)
first_boundary-append (x ∷ []) cs r h = absurd (cc (h, first_boundary-one x))
first_boundary-append (x ∷ y ∷ []) cs r h = first_boundary-two x y cs r h
first_boundary-append (x ∷ y ∷ z ∷ []) cs r h = first_boundary-three x y z cs r h
first_boundary-append (x ∷ y ∷ z ∷ w ∷ bs) cs r h = rw (delimiter_at-append x y z w bs cs) (
    or_further-some (delimiter_at (x ∷ y ∷ z ∷ w ∷ bs)) (first_boundary (y ∷ z ∷ w ∷ bs))
      (first_boundary (y ∷ z ∷ w ∷ bs ++ cs)) r (first_boundary-append (y ∷ z ∷ w ∷ bs) cs) h)

-- A boundary that is found in a buffer is found at the same position and with the same length however
-- many bytes are appended to it.
pub find_event_boundary-append :
    (bs cs : List ℕ) (r : ℕ × ℕ)
    → find_event_boundary bs ≡ some r
    → find_event_boundary (bs ++ cs) ≡ some r
find_event_boundary-append bs cs r h =
    find_event_boundary-first (bs ++ cs)
    ∙ first_boundary-append bs cs r (sym (find_event_boundary-first bs) ∙ h)
