-- ===== src/Repair/Sound.antt =====
-- `to_json` on ASCII text.
use serdes_ai.Prelude.{
  ℕ, zero, suc, ◌+◌, ◌-◌, ◌≤◌, ◌≡◌, refl, Bool, true, false, Option, none, some, List, [], ◌∷◌,
  ◌++◌, length, take, drop, Bool-cases, inl, inr, arith,
}
use serdes_ai.Prelude.Result.{Result, ok, ◌>>=◌}
use serdes_ai.Streaming.Text.{Text}
use serdes_ai.Streaming.Part.{Json, ToolCallArgs, json, string}
use serdes_ai.Repair.{
  Objects, Fault, chars, trim, remove_trailing_commas, span, slice, starts_key, opens, key_then,
  key_or_not, turn, quote, quote_unquoted_keys, parsed_or_repaired, repair_json, object_of,
  repaired_object, parsed_object, to_json, is_whitespace, is_ident_char, text_of,
}
use serdes_ai.Repair.Ascii.{
  Ascii, length-chars, trim-Ascii, remove_trailing_commas-Ascii, is_char_boundary-Ascii,
}

abbrev Done {ℓ} : {A : Type ℓ} → Result A Fault → Type ℓ
Done {A = A} r = (a : A) × (r ≡ ok a)

Done-bind {ℓ κ} :
    {A : Type ℓ} {B : Type κ} (m : Result A Fault) (f : A → Result B Fault)
    → Done m
    → ((a : A) → Done (f a))
    → Done (m >>= f)
Done-bind m f d k = rw d.1 (k d.0)

length-span :
    (p : Text → Bool) (cs : List Text) → length ((span p cs).0) + length ((span p cs).1) ≡ length cs
unfolding span
length-span p [] = refl
length-span p (c ∷ cs) = ground (arith, length-span p cs)

slice-Done :
    (s : Text) (from to : ℕ) → Ascii s → from ≤ length s → to ≤ length s → Done (slice s from to)
unfolding slice
slice-Done s from to h k l =
    rw (is_char_boundary-Ascii s from h k, is_char_boundary-Ascii s to h l)
      (take (to - from) (drop from s), refl)

-- Arguments whose text, if they are text, is ASCII.
abbrev pub AsciiArgs : {j : Json} → ToolCallArgs j → Type 0
AsciiArgs (json v) = Unit
AsciiArgs (string s) = Ascii s

module _ (s : Text) (ascii : Ascii s) where
  key_then-Done :
      (rest : ℕ → List Text → Result Text Fault) (i : ℕ) (cs : List Text)
      → i + length cs ≤ length s
      → ((j : ℕ) (ds : List Text)
          → j + length ds ≤ length s
          → length ds ≤ length cs
          → Done (rest j ds))
      → Done (key_then s rest i cs)
  unfolding key_then
  key_then-Done rest i cs h more =
      let e = length-span is_ident_char cs in
      let e' = length-span is_whitespace ((span is_ident_char cs).1) in
      Done-bind (slice s i (i + length ((span is_ident_char cs).0))) _
        (slice-Done s _ _ ascii (omega arith) (omega arith))
        λ key. Done-bind (rest _ _) _ (more _ _ (omega arith) (omega arith)) λ out. (_, refl)

  key_or_not-Done :
      (b : Bool) (rest : ℕ → List Text → Result Text Fault) (i : ℕ) (cs : List Text)
      → i + length cs ≤ length s
      → ((j : ℕ) (ds : List Text)
          → j + length ds ≤ length s
          → length ds ≤ length cs
          → Done (rest j ds))
      → Done (key_or_not s b rest i cs)
  unfolding key_or_not
  key_or_not-Done true rest i cs h more = key_then-Done rest i cs h more
  key_or_not-Done false rest i cs h more = more i cs h (omega arith)

  turn-Done :
      (b : Bool) (rest : ℕ → List Text → Result Text Fault) (i : ℕ) (c : Text) (cs : List Text)
      → i + suc (length cs) ≤ length s
      → ((j : ℕ) (ds : List Text)
          → j + length ds ≤ length s
          → length ds ≤ length cs
          → Done (rest j ds))
      → Done (turn s b rest i c cs)
  unfolding turn
  turn-Done false rest i c cs h more =
      Done-bind (rest (i + 1) cs) _ (more (i + 1) cs (omega arith) (omega arith))
        λ out. (c ++ out, refl)
  turn-Done true rest i c cs h more =
      let spaces = (span is_whitespace cs).0 in
      let left = (span is_whitespace cs).1 in
      let e = length-span is_whitespace cs in
      Done-bind (key_or_not s (starts_key left) rest (i + 1 + length spaces) left) _
        (key_or_not-Done (starts_key left) rest (i + 1 + length spaces) left (omega arith)
          λ j ds h' k'. more j ds h' (omega arith))
        λ out. (c ++ text_of spaces ++ out, refl)

  quote-Done :
      (fuel i : ℕ) (cs : List Text)
      → i + length cs ≤ length s
      → length cs ≤ fuel
      → Done (quote s fuel i cs)
  unfolding quote
  quote-Done fuel i [] h k = ([], refl)
  quote-Done zero i (c ∷ cs) h k = absurd (omega arith)
  quote-Done (suc fuel) i (c ∷ cs) h k =
      turn-Done (opens c) (quote s fuel) i c cs h
        λ j ds h' k'. quote-Done fuel j ds h' (omega arith)

quote_unquoted_keys-Done : (s : Text) → Ascii s → Done (quote_unquoted_keys s)
unfolding quote_unquoted_keys
quote_unquoted_keys-Done s h =
    quote-Done s h (length (chars s)) 0 (chars s) (omega (arith, length-chars s h)) (omega arith)

parsed_or_repaired-Done :
    (j : Json) (s : Text) (parsed : Option j.Value) → Ascii s → Done (parsed_or_repaired j s parsed)
unfolding parsed_or_repaired
parsed_or_repaired-Done j s (some v) h = (some v, refl)
parsed_or_repaired-Done j s none h =
    Done-bind (quote_unquoted_keys (remove_trailing_commas s)) _
      (quote_unquoted_keys-Done _ (remove_trailing_commas-Ascii s h)) λ repaired. (_, refl)

repair_json-Done : (j : Json) (s : Text) → Ascii s → Done (repair_json j s)
unfolding repair_json
repair_json-Done j s h = parsed_or_repaired-Done j (trim s) _ (trim-Ascii s h)

module _ {j : Json} (o : Objects j)
    (value_object-law : (v : j.Value) → o.is_object (o.value_object v) ≡ true)
    (parse_failed-law : (s : Text) → o.is_object (o.parse_failed_object s) ≡ true) where
  object_of-law : (v : j.Value) → o.is_object (object_of o v) ≡ true
  object_of-law v = elim (Bool-cases (o.is_object v)) [
    | inl e ↦ rw (e, e) refl
    | inr e ↦ rw (e, value_object-law v) refl
  ]

  repaired_object-law : (s : Text) (v : Option j.Value) → o.is_object (repaired_object o s v) ≡ true
  repaired_object-law s (some v) = object_of-law v
  repaired_object-law s none = parse_failed-law s

  parsed_object-Done :
      (s : Text) (parsed : Option j.Value)
      → Ascii s
      → (v : j.Value) × (parsed_object o s parsed ≡ ok v) × (o.is_object v ≡ true)
  unfolding parsed_object
  parsed_object-Done s (some v) h = (object_of o v, refl, object_of-law v)
  parsed_object-Done s none h =
      let d = repair_json-Done j s h in (repaired_object o s d.0, rw d.1, repaired_object-law s d.0)

  -- `to_json` of arguments that are JSON or a text of ASCII bytes, however malformed, returns without
  -- a panic and with a JSON object, where the two uses of `json!` make objects.
  pub to_json-is_object :
      (args : ToolCallArgs j)
      → AsciiArgs args
      → (v : j.Value) × (to_json o args ≡ ok v) × (o.is_object v ≡ true)
  unfolding to_json
  to_json-is_object (json v) h = (object_of o v, refl, object_of-law v)
  to_json-is_object (string s) h = parsed_object-Done s (j.from_str s) h
