-- ===== src/Sse/Event.antt =====
-- One event of a stream: `SseEvent` and `SseParser::parse_event` of serdes-ai-streaming/src/sse.rs. Text
-- is its UTF-8 bytes, and `Utf8` is what `std::str::from_utf8` finds in bytes.
use serdes_ai.Prelude.{
  ℕ, ◌+◌, ◌-◌, ◌*◌, ◌^◌, Bool, true, false, ◌&&◌, not, Option, none, some, List, [], ◌∷◌, ◌++◌, map,
  any, ltb, leb, nat_beq, if◌then◌else◌,
}
use serdes_ai.Streaming.Text.{Text}

-- `Ok`, an error whose `error_len` is `None`, and one whose `error_len` is not.
pub data Utf8 : Type 0 where
  valid incomplete invalid : Utf8

-- The ranges of the bytes that may follow the first byte of a character.
abbrev pub lead : ℕ → Option (List (ℕ × ℕ))
lead b =
    let tail : ℕ × ℕ = (128, 191) in
    if ltb b 128
    then some []
    else if ltb b 194
    then none
    else if ltb b 224
    then some (tail ∷ [])
    else if nat_beq b 224
    then some ((160, 191) ∷ tail ∷ [])
    else if nat_beq b 237
    then some ((128, 159) ∷ tail ∷ [])
    else if ltb b 240
    then some (tail ∷ tail ∷ [])
    else if nat_beq b 240
    then some ((144, 191) ∷ tail ∷ tail ∷ [])
    else if ltb b 244
    then some (tail ∷ tail ∷ tail ∷ [])
    else if nat_beq b 244
    then some ((128, 143) ∷ tail ∷ tail ∷ [])
    else none

-- The bytes from the next one on, where those of the given ranges are still to come.
unfoldable pub from_utf8 : List (ℕ × ℕ) → List ℕ → Utf8
from_utf8 [] [] = valid
from_utf8 (r ∷ rs) [] = incomplete
from_utf8 [] (b ∷ bs) = elim (lead b) [ none ↦ invalid | some rs ↦ from_utf8 rs bs ]
from_utf8 ((low, high) ∷ rs) (b ∷ bs) =
    let rest = from_utf8 rs bs in if leb low b && leb b high then rest else invalid

pub record SseEvent : Type 0 where
  pub event : Option Text
  pub data_text : Text
  pub id : Option Text
  pub retry : Option ℕ

abbrev pub is_line_feed : Text → Bool
is_line_feed [] = false
is_line_feed (b ∷ bs) = nat_beq b 10

-- `replace("\r\n", "\n")`: a carriage return before a line feed is dropped.
unfoldable pub replace_pairs : Text → Text
replace_pairs [] = []
replace_pairs (b ∷ bs) =
    let rest = replace_pairs bs in if nat_beq b 13 && is_line_feed bs then rest else b ∷ rest

-- `replace('\r', "\n")`
abbrev pub replace_returns : Text → Text
replace_returns = map (λ b. if nat_beq b 13 then 10 else b)

abbrev pub push_front : ℕ → List Text → List Text
push_front b [] = (b ∷ []) ∷ []
push_front b (l ∷ ls) = (b ∷ l) ∷ ls

-- `split('\n')`
unfoldable pub split_lines : Text → List Text
split_lines [] = [] ∷ []
split_lines (b ∷ bs) =
    let rest = split_lines bs in if nat_beq b 10 then [] ∷ rest else push_front b rest

abbrev pub before_colon : ℕ → Option (Text × Text) → Option (Text × Text)
before_colon b none = none
before_colon b (some (field, value)) = some (b ∷ field, value)

-- `split_once(':')`
unfoldable pub split_once : Text → Option (Text × Text)
split_once [] = none
split_once (b ∷ bs) =
    let rest = before_colon b (split_once bs) in if nat_beq b b':' then some ([], bs) else rest

abbrev pub strip_space : Text → Text
strip_space [] = []
strip_space (b ∷ bs) = if nat_beq b b' ' then bs else b ∷ bs

-- The field of a line and its value.
abbrev pub field_value : Option (Text × Text) → Text → Text × Text
field_value none line = (line, [])
field_value (some (field, value)) line = (field, strip_space value)

-- The value of digits after those that are worth `n`.
unfoldable pub digits : ℕ → Text → Option ℕ
digits n [] = some n
digits n (b ∷ bs) =
    let rest = digits (10 * n + (b - 48)) bs in if leb 48 b && leb b 57 then rest else none

abbrev pub in_range : Option ℕ → Option ℕ
in_range none = none
in_range (some n) = if ltb n (2 ^ 64) then some n else none

-- `parse::<u64>()`, where one plus sign may stand before the digits.
unfoldable pub parse_u64 : Text → Option ℕ
unfolding digits
parse_u64 [] = none
parse_u64 (b ∷ []) = digits 0 (b ∷ [])
parse_u64 (b ∷ c ∷ bs) =
    in_range (if nat_beq b b'+' then digits 0 (c ∷ bs) else digits 0 (b ∷ c ∷ bs))

unfoldable pub text_beq : Text → Text → Bool
text_beq [] [] = true
text_beq [] (c ∷ cs) = false
text_beq (b ∷ bs) [] = false
text_beq (b ∷ bs) (c ∷ cs) = nat_beq b c && text_beq bs cs

-- The variables of the loop over the lines.
pub record Fields : Type 0 where
  pub event : Option Text
  pub data_lines : List Text
  pub id : Option Text
  pub retry : Option ℕ

-- The names of the fields.
abbrev event_field : Text
event_field = b'e' ∷ b'v' ∷ b'e' ∷ b'n' ∷ b't' ∷ []

abbrev data_field : Text
data_field = b'd' ∷ b'a' ∷ b't' ∷ b'a' ∷ []

abbrev id_field : Text
id_field = b'i' ∷ b'd' ∷ []

abbrev retry_field : Text
retry_field = b'r' ∷ b'e' ∷ b't' ∷ b'r' ∷ b'y' ∷ []

-- The `match` on the field.
unfoldable pub set_field : Text × Text → Fields → Fields
unfolding text_beq parse_u64
set_field (field, value) f =
    if text_beq field event_field
    then record f { event = some value }
    else if text_beq field data_field
    then record f { data_lines = f.data_lines ++ value ∷ [] }
    else if text_beq field id_field && not (any (λ b. nat_beq b 0) value)
    then record f { id = some value }
    else if text_beq field retry_field
    then record f { retry = parse_u64 value }
    else f

abbrev pub is_skipped : Text → Bool
is_skipped [] = true
is_skipped (b ∷ bs) = nat_beq b b':'

unfoldable pub read_lines : List Text → Fields → Fields
unfolding split_once set_field
read_lines [] f = f
read_lines (line ∷ lines) f =
    read_lines lines
      (if is_skipped line then f else set_field (field_value (split_once line) line) f)

-- `join("\n")`
unfoldable pub join_lines : List Text → Text
join_lines [] = []
join_lines (l ∷ []) = l
join_lines (l ∷ k ∷ ls) = l ++ 10 ∷ join_lines (k ∷ ls)

abbrev pub build : Fields → List Text → Option SseEvent
build f [] = none
build f (l ∷ ls) =
    some (record { event = f.event; data_text = join_lines (l ∷ ls); id = f.id; retry = f.retry })

abbrev pub no_fields : Fields
no_fields = record { event = none; data_lines = []; id = none; retry = none }

unfoldable pub parse_event : Text → Option SseEvent
unfolding replace_pairs split_lines read_lines join_lines
parse_event s =
    let f : Fields = read_lines (split_lines (replace_returns (replace_pairs s))) no_fields in
    build f f.data_lines
