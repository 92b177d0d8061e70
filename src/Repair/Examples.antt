-- ===== src/Repair/Examples.antt =====
-- Runs of `to_json` and of the repair.
use serdes_ai.Prelude.{true, none, some, [], ◌∷◌, ◌≡◌, refl, length, nat_beq, if◌then◌else◌, arith}
use serdes_ai.Prelude.Result.{ok, err}
use serdes_ai.Streaming.Text.{Text, is_blank}
use serdes_ai.Streaming.Part.{Json, string}
use serdes_ai.Repair.Sound.{to_json-is_object}
use serdes_ai.Repair.{Objects, to_json, slice_panics, quote_unquoted_keys, remove_trailing_commas}

-- {ab:1,}
abbrev unquoted : Text
unquoted = b'{' ∷ b'a' ∷ b'b' ∷ b':' ∷ b'1' ∷ b',' ∷ b'}' ∷ []

commas_removed : remove_trailing_commas unquoted ≡ b'{' ∷ b'a' ∷ b'b' ∷ b':' ∷ b'1' ∷ b'}' ∷ []
unfolding remove_trailing_commas is_blank
commas_removed = refl

key_quoted :
    quote_unquoted_keys unquoted
    ≡ ok (b'{' ∷ b'"' ∷ b'a' ∷ b'b' ∷ b'"' ∷ b':' ∷ b'1' ∷ b',' ∷ b'}' ∷ [])
unfolding quote_unquoted_keys is_blank
key_quoted = refl

-- Three characters of two bytes each stand before the key, and the second index cuts the third.
key_panics :
    quote_unquoted_keys
      (0xC3 ∷ 0xA9 ∷ 0xC3 ∷ 0xA9 ∷ 0xC3 ∷ 0xA9 ∷ b'{' ∷ b'k' ∷ b':' ∷ b'1' ∷ b'}' ∷ [])
    ≡ err slice_panics
unfolding quote_unquoted_keys is_blank
key_panics = refl

-- Values are texts, and only braces are parsed.
abbrev braces : Json
braces = record {
  Value = Text;
  Details = Unit;
  Binary = Unit;
  from_str = λ s. if nat_beq (length s) 2 then some s else none;
  to_string_or_default = λ v. v;
}

abbrev objects : Objects braces
objects = record { is_object = λ v. true; value_object = λ v. v; parse_failed_object = λ s. [] }

to_json-is_object_example :
    (v : Text) × (to_json objects (string unquoted) ≡ ok v) × (objects.is_object v ≡ true)
to_json-is_object_example =
    to_json-is_object objects (λ v. refl) (λ s. refl) (string unquoted) (omega arith)
