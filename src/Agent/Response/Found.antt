-- ===== src/Agent/Response/Found.antt =====
-- The output that the parts of a response hold: what `scan` and `first_text` find is parsed from a
-- part.
use serdes_ai.Prelude.{
  ◌≡◌, refl, ap, ◌∙◌, ◌⊎◌, inl, inr, Bool, true, false, Option, none, some, List, [], ◌∷◌,
  if◌then◌else◌,
}
use serdes_ai.Prelude.Result.{Result, ok, err, ◌>>=◌}
use serdes_ai.Streaming.Text.{Text, is_empty}
use serdes_ai.Streaming.Part.{
  ModelResponsePart, ToolCallPart, text, tool_call, thinking, file, builtin_tool_call,
}
use serdes_ai.Repair.{Fault, to_json}
use serdes_ai.Agent.Types.{Types}
use serdes_ai.Agent.State.{Agent, is_output_tool}
use serdes_ai.Agent.Response.{
  first_text, Scanned, or_parsed, output_or_call, scan_call, scan_part, scan,
}

module _ {t : Types} {W : Type 0} (a : Agent t W) where
  -- A text is parsed to the output, or the arguments of the output tool are.
  abbrev pub Yields : t.Output → ModelResponsePart t.json → Type 0
  Yields output (text p) = a.output_schema.parse_text p.content ≡ ok output
  Yields output (tool_call tc) =
      (args : t.json.Value) × (is_output_tool a tc.tool_name ≡ true)
      × (to_json t.objects tc.args ≡ ok args)
      × (a.output_schema.parse_tool_call tc.tool_name args ≡ ok output)
  Yields output part = ⊥

  -- Some part of the list yields the output.
  abbrev pub Found : t.Output → List (ModelResponsePart t.json) → Type 0
  Found output [] = ⊥
  Found output (part ∷ parts) = Yields output part ⊎ Found output parts

  first_text-text :
      (empty : Bool) {content content' : Text} {rest : Option Text} {output : t.Output}
      (parts : List (ModelResponsePart t.json))
      → (if empty then rest else some content) ≡ some content'
      → a.output_schema.parse_text content' ≡ ok output
      → (rest ≡ some content' → Found output parts)
      → (a.output_schema.parse_text content ≡ ok output) ⊎ Found output parts
  first_text-text true parts e h more = inr (more e)
  first_text-text false parts e h more = inl (cc)

  pub first_text-Found :
      (parts : List (ModelResponsePart t.json)) {content : Text} {output : t.Output}
      → first_text t parts ≡ some content
      → a.output_schema.parse_text content ≡ ok output
      → Found output parts
  unfolding first_text
  first_text-Found [] e h = absurd (cc e)
  first_text-Found (text p ∷ parts) e h =
      first_text-text (is_empty p.content) parts e h λ e'. first_text-Found parts e' h
  first_text-Found (tool_call tc ∷ parts) e h = inr (first_text-Found parts e h)
  first_text-Found (thinking p ∷ parts) e h = inr (first_text-Found parts e h)
  first_text-Found (file p ∷ parts) e h = inr (first_text-Found parts e h)
  first_text-Found (builtin_tool_call p ∷ parts) e h = inr (first_text-Found parts e h)

  abbrev found_of : Result (Scanned t) Fault → Option t.Output
  found_of (ok scanned) = scanned.1
  found_of (err e) = none

  or_parsed-some :
      {E : Type 0} (r : Result t.Output E) {before : Option t.Output} {output : t.Output}
      → or_parsed r before ≡ some output
      → (r ≡ ok output) ⊎ (before ≡ some output)
  or_parsed-some (ok o) e = inl (cc)
  or_parsed-some (err x) e = inr e

  text-found :
      (empty : Bool) (content : Text) {before : Option t.Output} {output : t.Output}
      → (if empty then before else or_parsed (a.output_schema.parse_text content) before)
        ≡ some output
      → (a.output_schema.parse_text content ≡ ok output) ⊎ (before ≡ some output)
  text-found true content e = inr e
  text-found false content e = or_parsed-some (a.output_schema.parse_text content) e

  output_or_call-found :
      {E : Type 0} (r : Result t.Output E) (tc : ToolCallPart t.json) (scanned : Scanned t)
      {output : t.Output}
      → (output_or_call r tc scanned).1 ≡ some output
      → (r ≡ ok output) ⊎ (scanned.1 ≡ some output)
  output_or_call-found (ok o) tc scanned e = inl (cc)
  output_or_call-found (err x) tc scanned e = inr e

  -- The output tool's call with its arguments
  call-found :
      (tc : ToolCallPart t.json) (scanned : Scanned t) (args : Result t.json.Value Fault)
      {output : t.Output}
      → is_output_tool a tc.tool_name ≡ true
      → to_json t.objects tc.args ≡ args
      → found_of (
          args >>= λ v.
          ok (output_or_call (a.output_schema.parse_tool_call tc.tool_name v) tc scanned))
        ≡ some output
      → Yields output (tool_call tc) ⊎ (scanned.1 ≡ some output)
  call-found tc scanned (err x) named q e = absurd (cc e)
  call-found tc scanned (ok args) named q e =
      elim (output_or_call-found (a.output_schema.parse_tool_call tc.tool_name args) tc scanned e) [
        | inl parsed ↦ inl (args, named, q, parsed)
        | inr before ↦ inr before
      ]

  scan_call-found :
      (b : Bool) (tc : ToolCallPart t.json) (scanned : Scanned t) {output : t.Output}
      → is_output_tool a tc.tool_name ≡ b
      → found_of (scan_call a b tc scanned) ≡ some output
      → Yields output (tool_call tc) ⊎ (scanned.1 ≡ some output)
  unfolding scan_call
  scan_call-found true tc scanned named e =
      call-found tc scanned (to_json t.objects tc.args) named refl e
  scan_call-found false tc scanned named e = inr e

  scan_part-found :
      (part : ModelResponsePart t.json) (scanned : Scanned t) {output : t.Output}
      → found_of (scan_part a part scanned) ≡ some output
      → Yields output part ⊎ (scanned.1 ≡ some output)
  unfolding scan_part
  scan_part-found (text p) scanned e = text-found (is_empty p.content) p.content e
  scan_part-found (tool_call tc) scanned e =
      scan_call-found (is_output_tool a tc.tool_name) tc scanned refl e
  scan_part-found (thinking p) scanned e = inr e
  scan_part-found (file p) scanned e = inr e
  scan_part-found (builtin_tool_call p) scanned e = inr e

  -- The rest of the parts after one, which came to `r`.
  scan-rest :
      (part : ModelResponsePart t.json) (parts : List (ModelResponsePart t.json))
      (scanned : Scanned t) (r : Result (Scanned t) Fault) {output : t.Output}
      → scan_part a part scanned ≡ r
      → found_of (r >>= scan a parts) ≡ some output
      → ((later : Scanned t)
          → found_of (scan a parts later) ≡ some output
          → Found output parts ⊎ (later.1 ≡ some output))
      → Found output (part ∷ parts) ⊎ (scanned.1 ≡ some output)
  scan-rest part parts scanned (err x) q e more = absurd (cc e)
  scan-rest part parts scanned (ok later) q e more = elim (more later e) [
    | inl found ↦ inl (inr found)
    | inr here ↦ elim (scan_part-found part scanned (ap found_of q ∙ here)) [
      | inl yields ↦ inl (inl yields)
      | inr before ↦ inr before
    ]
  ]

  scan-found :
      (parts : List (ModelResponsePart t.json)) (scanned : Scanned t) {output : t.Output}
      → found_of (scan a parts scanned) ≡ some output
      → Found output parts ⊎ (scanned.1 ≡ some output)
  unfolding scan
  scan-found [] scanned e = inr e
  scan-found (part ∷ parts) scanned e =
      scan-rest part parts scanned (scan_part a part scanned) refl e λ later. scan-found parts later

  -- The output that the loop over the parts finds, if it finds one, is parsed from a part.
  pub scan-Found :
      (parts : List (ModelResponsePart t.json)) {calls : List (ToolCallPart t.json)}
      {output : t.Output}
      → scan a parts ([], none) ≡ ok (calls, some output)
      → Found output parts
  scan-Found parts e = elim (scan-found parts ([], none) (ap found_of e)) [
    | inl found ↦ found
    | inr nothing ↦ absurd (cc nothing)
  ]
