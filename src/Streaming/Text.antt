-- ===== src/Streaming/Text.antt =====
-- `&str` as its UTF-8 bytes, with the operations of the standard library that the crate uses. A slice
-- at an index that is no character boundary panics.
use serdes_ai.Prelude.{
  ℕ, zero, suc, Bool, true, false, ◌&&◌, ◌||◌, Option, none, some, List, [], ◌∷◌, ltb, leb, nat_beq,
  take, drop, if◌then◌else◌,
}
use serdes_ai.Prelude.Result.{Result, ok, err}

abbrev pub Text : Type 0
Text = List ℕ

pub data Panic : Type 0 where
  slice_not_at_boundary index_out_of_bounds : Panic

abbrev pub is_empty : Text → Bool
is_empty [] = true
is_empty (b ∷ s) = false

-- A byte 10xxxxxx continues a character.
abbrev pub is_continuation : ℕ → Bool
is_continuation b = leb 128 b && ltb b 192

unfoldable pub is_char_boundary : Text → ℕ → Bool
is_char_boundary s zero = true
is_char_boundary [] (suc i) = false
is_char_boundary (b ∷ []) (suc zero) = true
is_char_boundary (b ∷ c ∷ s) (suc zero) = if is_continuation c then false else true
is_char_boundary (b ∷ s) (suc (suc i)) = is_char_boundary s (suc i)

-- `&s[i..]`, `&s[..i]`
unfoldable pub slice_from : Text → ℕ → Result Text Panic
unfolding is_char_boundary
slice_from s i = if is_char_boundary s i then ok (drop i s) else err slice_not_at_boundary

unfoldable pub slice_to : Text → ℕ → Result Text Panic
unfolding is_char_boundary
slice_to s i = if is_char_boundary s i then ok (take i s) else err slice_not_at_boundary

-- `s.starts_with(tag)`
unfoldable pub starts_with : Text → Text → Bool
starts_with s [] = true
starts_with [] (t ∷ tag) = false
starts_with (b ∷ s) (t ∷ tag) = nat_beq b t && starts_with s tag

-- `s.find(tag)`
unfoldable pub find : Text → Text → Option ℕ
unfolding starts_with
find [] tag = if is_empty tag then some 0 else none
find (b ∷ s) tag =
    let later : Option ℕ = elim (find s tag) [ none ↦ none | some i ↦ some (suc i) ] in
    if starts_with (b ∷ s) tag then some 0 else later

-- `s.trim().is_empty()`: every character has the property White_Space.
unfoldable pub is_blank : Text → Bool
is_blank [] = true
is_blank (b ∷ []) = nat_beq b 32 || leb 9 b && leb b 13
is_blank (b ∷ c ∷ []) =
    (nat_beq b 32 || leb 9 b && leb b 13) && (nat_beq c 32 || leb 9 c && leb c 13)
    || nat_beq b 0xC2 && (nat_beq c 0x85 || nat_beq c 0xA0)
is_blank (b ∷ c ∷ d ∷ s) = elim (nat_beq b 32 || leb 9 b && leb b 13) [
  | true ↦ is_blank (c ∷ d ∷ s)
  | false ↦ elim (nat_beq b 0xC2 && (nat_beq c 0x85 || nat_beq c 0xA0)) [
    | true ↦ is_blank (d ∷ s)
    | false ↦
        elim (nat_beq b 0xE1 && nat_beq c 0x9A && nat_beq d 0x80
          || nat_beq b 0xE2
            && nat_beq c 0x80
            && (leb 0x80 d && leb d 0x8A || nat_beq d 0xA8 || nat_beq d 0xA9 || nat_beq d 0xAF)
          || nat_beq b 0xE2 && nat_beq c 0x81 && nat_beq d 0x9F
          || nat_beq b 0xE3 && nat_beq c 0x80 && nat_beq d 0x80) [
            | true ↦ is_blank s
            | false ↦ false
          ]
  ]
]
