-- ===== src/Repair.antt =====
-- The arguments of a tool call as JSON: `repair_json`, `to_json` and what they call, of
-- serdes-ai-core/src/messages/parts.rs. Text is its UTF-8 bytes, and a character is the list of its
-- bytes. `serde_json` is a parameter.
pub mod Ascii
pub mod Sound
mod Examples
use serdes_ai.Prelude.{
  ℕ, zero, suc, ◌+◌, ◌-◌, Bool, true, false, not, ◌&&◌, ◌||◌, Option, none, some, List, [], ◌∷◌,
  ◌++◌, reverse, map, length, take, drop, any, flat_map, ltb, leb, nat_beq, if◌then◌else◌,
}
use serdes_ai.Prelude.Result.{Result, ok, err, ◌>>=◌}
use serdes_ai.Streaming.Text.{Text, is_continuation, is_char_boundary, is_blank}
use serdes_ai.Streaming.Part.{Json, ToolCallArgs, json, string}

-- `Value::is_object` and the two uses of `json!`.
pub record Objects (j : Json) : Type 0 where
  pub is_object : j.Value → Bool
  pub value_object : j.Value → j.Value
  pub parse_failed_object : Text → j.Value

-- `out_of_fuel` is no behaviour of the code.
pub data Fault : Type 0 where
  slice_panics out_of_fuel : Fault

-- A byte before the characters that follow it.
abbrev pub cons_char : ℕ → List Text → List Text
cons_char b [] = (b ∷ []) ∷ []
cons_char b ([] ∷ cs) = (b ∷ []) ∷ cs
cons_char b ((c ∷ r) ∷ cs) = if is_continuation c then (b ∷ c ∷ r) ∷ cs else (b ∷ []) ∷ (c ∷ r) ∷ cs

-- `s.chars()`
pub chars : Text → List Text
chars [] = []
chars (b ∷ s) = cons_char b (chars s)

abbrev pub text_of : List Text → Text
text_of = flat_map (λ c. c)

-- `c == '…'`, of an ASCII character
abbrev pub is_char : ℕ → Text → Bool
is_char n (b ∷ []) = nat_beq b n
is_char n c = false

abbrev pub is_whitespace : Text → Bool
is_whitespace = is_blank

pub trim_start : List Text → List Text
trim_start [] = []
trim_start (c ∷ cs) = if is_whitespace c then trim_start cs else c ∷ cs

pub trim : Text → Text
unfolding chars trim_start
trim s = text_of (reverse (trim_start (reverse (trim_start (chars s)))))

-- What stands at `chars[j]` after the loop over whitespace closes an object or an array.
pub closes_next : List Text → Bool
closes_next [] = false
closes_next (c ∷ cs) =
    let rest = closes_next cs in if is_whitespace c then rest else is_char b'}' c || is_char b']' c

pub remove_commas : List Text → List Text
unfolding closes_next
remove_commas [] = []
remove_commas (c ∷ cs) =
    if is_char b',' c && closes_next cs then remove_commas cs else c ∷ remove_commas cs

pub remove_trailing_commas : Text → Text
unfolding chars remove_commas
remove_trailing_commas s = text_of (remove_commas (chars s))

abbrev pub is_ascii_alphabetic : ℕ → Bool
is_ascii_alphabetic b = leb b'A' b && leb b b'Z' || leb b'a' b && leb b b'z'

abbrev pub is_ident_start : Text → Bool
is_ident_start (b ∷ []) = is_ascii_alphabetic b || nat_beq b b'_'
is_ident_start c = false

abbrev pub is_ident_char : Text → Bool
is_ident_char (b ∷ []) = is_ascii_alphabetic b || leb b'0' b && leb b b'9' || nat_beq b b'_'
is_ident_char c = false

-- A loop that moves on while the character has the property: those passed, and those left.
pub span : (Text → Bool) → List Text → List Text × List Text
span p [] = ([], [])
span p (c ∷ cs) = let (passed, left) = span p cs in if p c then (c ∷ passed, left) else ([], c ∷ cs)

-- `&s[from..to]`, where `from <= to`. The indices count characters and are used as byte offsets.
pub slice : Text → (from to : ℕ) → Result Text Fault
unfolding is_char_boundary
slice s from to =
    if is_char_boundary s from && is_char_boundary s to
    then ok (take (to - from) (drop from s))
    else err slice_panics

-- A key is quoted if a colon follows it.
abbrev pub quoted : Text → List Text → Text
quoted key [] = key
quoted key (c ∷ cs) = if is_char b':' c then b'"' ∷ key ++ b'"' ∷ [] else key

abbrev pub starts_key : List Text → Bool
starts_key [] = false
starts_key (c ∷ cs) = is_ident_start c

abbrev pub opens : Text → Bool
opens c = is_char b'{' c || is_char b',' c

module _ (s : Text) where
  -- The key at `chars[i]`, and the loop `rest` from the character after it and its whitespace on.
  key_then : (ℕ → List Text → Result Text Fault) → ℕ → List Text → Result Text Fault
  unfolding slice span
  key_then rest i cs = do
    let (name, after) = span is_ident_char cs
    let (spaces, left) = span is_whitespace after
    key ← slice s i (i + length name)
    out ← rest (i + length name + length spaces) left
    ok (quoted key left ++ out)

  -- Whether an identifier starts at `chars[i]`
  key_or_not : Bool → (ℕ → List Text → Result Text Fault) → ℕ → List Text → Result Text Fault
  unfolding key_then
  key_or_not true rest i cs = key_then rest i cs
  key_or_not false rest i cs = rest i cs

  -- Whether the character at `chars[i]` opens an object or goes before an entry
  turn : Bool → (ℕ → List Text → Result Text Fault) → ℕ → Text → List Text → Result Text Fault
  unfolding span key_or_not
  turn false rest i c cs = do out ← rest (i + 1) cs; ok (c ++ out)
  turn true rest i c cs = do
    let (spaces, left) = span is_whitespace cs
    out ← key_or_not (starts_key left) rest (i + 1 + length spaces) left
    ok (c ++ text_of spaces ++ out)

  -- The outer loop: `i` is the number of characters passed, and the third argument is `chars[i..]`.
  quote : ℕ → ℕ → List Text → Result Text Fault
  unfolding turn
  quote fuel i [] = ok []
  quote zero i (c ∷ cs) = err out_of_fuel
  quote (suc fuel) i (c ∷ cs) = turn (opens c) (quote fuel) i c cs

pub quote_unquoted_keys : Text → Result Text Fault
unfolding chars quote
quote_unquoted_keys s = quote s (length (chars s)) 0 (chars s)

abbrev pub contains_byte : ℕ → Text → Bool
contains_byte n = any (λ b. nat_beq b n)

-- `s.matches(c).count()`
pub count_byte : ℕ → Text → ℕ
count_byte n [] = 0
count_byte n (b ∷ s) = if nat_beq b n then suc (count_byte n s) else count_byte n s

abbrev pub replicate : ℕ → ℕ → Text
replicate zero b = []
replicate (suc n) b = b ∷ replicate n b

pub double_quotes : Text → Text
double_quotes s =
    if contains_byte b'\'' s && not (contains_byte b'"' s)
    then map (λ b. if nat_beq b b'\'' then b'"' else b) s
    else s

-- `"}".repeat(open - close)` where more are opened than closed
pub close_open : (opening closing : ℕ) → Text → Text
unfolding count_byte
close_open opening closing s = s ++ replicate (count_byte opening s - count_byte closing s) closing

module _ (j : Json) where
  -- The trimmed text, unless it is parsed as it stands.
  parsed_or_repaired : Text → Option j.Value → Result (Option j.Value) Fault
  unfolding remove_trailing_commas quote_unquoted_keys double_quotes close_open
  parsed_or_repaired s (some v) = ok (some v)
  parsed_or_repaired s none = do
    repaired ← quote_unquoted_keys (remove_trailing_commas s)
    ok (j.from_str (close_open b'[' b']' (close_open b'{' b'}' (double_quotes repaired))))

  pub repair_json : Text → Result (Option j.Value) Fault
  unfolding trim parsed_or_repaired
  repair_json s = parsed_or_repaired (trim s) (j.from_str (trim s))

module _ {j : Json} (o : Objects j) where
  -- Non-objects are wrapped.
  abbrev pub object_of : j.Value → j.Value
  object_of v = if o.is_object v then v else o.value_object v

  -- What the repair came to.
  abbrev pub repaired_object : Text → Option j.Value → j.Value
  repaired_object s (some v) = object_of v
  repaired_object s none = o.parse_failed_object s

  -- A text that is parsed, or one that is repaired if it can be.
  parsed_object : Text → Option j.Value → Result j.Value Fault
  unfolding repair_json
  parsed_object s (some v) = ok (object_of v)
  parsed_object s none = do repaired ← repair_json j s; ok (repaired_object s repaired)

  unfoldable pub to_json : ToolCallArgs j → Result j.Value Fault
  unfolding parsed_object
  to_json (json v) = ok (object_of v)
  to_json (string s) = parsed_object s (j.from_str s)
