-- ===== src/Repair/Ascii.antt =====
-- Text of ASCII bytes: each is a character, and every index is a boundary.
use serdes_ai.Prelude.{
  ℕ, zero, suc, ◌≤◌, ◌<◌, ◌≡◌, refl, true, false, ◌&&◌, List, [], ◌∷◌, reverse, reverse-cons,
  length, All, All-append, Bool-cases, inl, inr, if◌then◌else◌, arith,
}
use serdes_ai.Streaming.Text.{Text, is_char_boundary}
use serdes_ai.Repair.{
  cons_char, chars, text_of, trim_start, trim, closes_next, remove_commas, remove_trailing_commas,
  is_whitespace, is_char,
}

abbrev pub Ascii : Text → Type 0
Ascii = All (λ b. b < 128)

-- One byte, of ASCII.
abbrev pub Plain : Text → Type 0
Plain [] = ⊥
Plain (b ∷ []) = b < 128
Plain (b ∷ c ∷ s) = ⊥

cons_char-Plain : (b : ℕ) (cs : List Text) → b < 128 → All Plain cs → All Plain (cons_char b cs)
cons_char-Plain b [] h ps = (h, tt)
cons_char-Plain b ([] ∷ cs) h ps = (h, ps.1)
cons_char-Plain b ((c ∷ []) ∷ cs) h ps = ground arith
cons_char-Plain b ((c ∷ d ∷ s) ∷ cs) h ps = absurd ps.0

pub chars-Plain : (s : Text) → Ascii s → All Plain (chars s)
unfolding chars
chars-Plain [] h = tt
chars-Plain (b ∷ s) h = cons_char-Plain b (chars s) h.0 (chars-Plain s h.1)

pub text_of-Ascii : (cs : List Text) → All Plain cs → Ascii (text_of cs)
text_of-Ascii [] h = tt
text_of-Ascii ([] ∷ cs) h = absurd h.0
text_of-Ascii ((b ∷ []) ∷ cs) h = (h.0, text_of-Ascii cs h.1)
text_of-Ascii ((b ∷ c ∷ s) ∷ cs) h = absurd h.0

-- There are as many characters as bytes.
length-cons_char :
    (b : ℕ) (cs : List Text) → b < 128 → All Plain cs → length (cons_char b cs) ≡ suc (length cs)
length-cons_char b [] h ps = refl
length-cons_char b ([] ∷ cs) h ps = absurd ps.0
length-cons_char b ((c ∷ []) ∷ cs) h ps = ground arith
length-cons_char b ((c ∷ d ∷ s) ∷ cs) h ps = absurd ps.0

pub length-chars : (s : Text) → Ascii s → length (chars s) ≡ length s
unfolding chars
length-chars [] h = refl
length-chars (b ∷ s) h =
    omega (arith, length-cons_char b (chars s) h.0 (chars-Plain s h.1), length-chars s h.1)

trim_start-Plain : (cs : List Text) → All Plain cs → All Plain (trim_start cs)
unfolding trim_start
trim_start-Plain [] h = tt
trim_start-Plain (c ∷ cs) h =
    elim (is_whitespace c) as (λ b. All Plain (if b then trim_start cs else c ∷ cs)) [
      | true ↦ trim_start-Plain cs h.1
      | false ↦ h
    ]

reverse-Plain : (cs : List Text) → All Plain cs → All Plain (reverse cs)
reverse-Plain [] h = tt
reverse-Plain (c ∷ cs) h =
    rw (reverse-cons c cs) (All-append Plain (reverse cs) (c ∷ []) (reverse-Plain cs h.1) (h.0, tt))

pub trim-Ascii : (s : Text) → Ascii s → Ascii (trim s)
unfolding trim
trim-Ascii s h =
    text_of-Ascii _ (
      reverse-Plain _ (trim_start-Plain _ (reverse-Plain _ (trim_start-Plain _ (chars-Plain s h)))))

remove_commas-Plain : (cs : List Text) → All Plain cs → All Plain (remove_commas cs)
unfolding remove_commas
remove_commas-Plain [] h = tt
remove_commas-Plain (c ∷ cs) h = elim (Bool-cases (is_char b',' c && closes_next cs)) [
  | inl e ↦ rw e (remove_commas-Plain cs h.1)
  | inr e ↦ rw e (h.0, remove_commas-Plain cs h.1)
]

pub remove_trailing_commas-Ascii : (s : Text) → Ascii s → Ascii (remove_trailing_commas s)
unfolding remove_trailing_commas
remove_trailing_commas-Ascii s h = text_of-Ascii _ (remove_commas-Plain _ (chars-Plain s h))

-- Every index up to the end is a boundary.
pub is_char_boundary-Ascii :
    (s : Text) (i : ℕ) → Ascii s → i ≤ length s → is_char_boundary s i ≡ true
unfolding is_char_boundary
is_char_boundary-Ascii s zero h k = refl
is_char_boundary-Ascii [] (suc i) h k = absurd (omega arith)
is_char_boundary-Ascii (b ∷ []) (suc zero) h k = refl
is_char_boundary-Ascii (b ∷ c ∷ s) (suc zero) h k = ground arith
is_char_boundary-Ascii (b ∷ []) (suc (suc i)) h k = absurd (omega arith)
is_char_boundary-Ascii (b ∷ c ∷ s) (suc (suc i)) h k =
    is_char_boundary-Ascii (c ∷ s) (suc i) h.1 (omega arith)
