-- ===== src/Tools/Prefixed/Laws.antt =====
-- Names with a prefix, and what a prefixed toolset lists and calls.
use serdes_ai.Prelude.{
  ◌≡◌, refl, sym, ap, ◌∙◌, String, Bool, true, false, Option, none, some, [], ◌∷◌, map, nat_beq,
  nat_beq_iff, nat_beq_refl, Bool-cases, inl, inr, string_key, ◌==◌,
}
use serdes_ai.Prelude.Map
use serdes_ai.Prelude.Map.{Map}
use serdes_ai.Prelude.Result.{ok, err}
use serdes_ai.Tools.Toolset.{Types, ToolsetTool, renamed}
use serdes_ai.Tools.Prefixed.{
  strip, PrefixedToolset, full_prefix, prefixed_name, strip_prefix, with_prefix, get_tools, missing,
  call_original, call_tool,
}
use Prim.Native.Char.{code}
use Prim.Native.String as Str
use Prim.Native.String.append
use text.Mathlib.TextLemmas as Text
use text.Mathlib.TextEquality.{Char-path}

strip-append : (p s : String) → strip p (Str.◌++◌ p s) ≡ some s
unfolding strip
strip-append Str.[] s = rw (append.nil s) refl
strip-append (Str.◌∷◌ c p) s = rw (append.cons c p s, nat_beq_refl (code c)) (strip-append p s)

strip-some : (p t s : String) → strip p t ≡ some s → t ≡ Str.◌++◌ p s
unfolding strip
strip-some Str.[] t s h = rw (append.nil s) (cc h)
strip-some (Str.◌∷◌ c p) Str.[] s h = absurd (cc h)
strip-some (Str.◌∷◌ c p) (Str.◌∷◌ d t) s h = elim (Bool-cases (nat_beq (code c) (code d))) [
  | inl b ↦
      let same : c ≡ d = Char-path c d ((nat_beq_iff (code c) (code d)).0 b) in
      let e : strip p t ≡ some s = rw b at h in
      rw (append.cons c p s, same, strip-some p t s e) refl
  | inr b ↦ let e : none ≡ some s = rw b at h in absurd (cc e)
]

Bool-path : (a b : Bool) → (a ≡ true → b ≡ true) → (b ≡ true → a ≡ true) → a ≡ b
Bool-path true b f g = sym (f refl)
Bool-path false true f g = absurd (cc (g refl))
Bool-path false false f g = refl

module _ {x : Types} (t : PrefixedToolset x) where
  prefixed_name_eq : (name : String) → prefixed_name t name ≡ Str.◌++◌ (full_prefix t) name
  unfolding prefixed_name
  prefixed_name_eq name = sym (Text.append_assoc t.prefix t.separator name)

  strip_prefix-prefixed_name : (name : String) → strip_prefix t (prefixed_name t name) ≡ some name
  unfolding strip_prefix
  strip_prefix-prefixed_name name = rw (prefixed_name_eq name) (strip-append (full_prefix t) name)

  prefixed_name-strip_prefix :
      (name original : String)
      → strip_prefix t name ≡ some original
      → name ≡ prefixed_name t original
  unfolding strip_prefix
  prefixed_name-strip_prefix name original h =
      rw (prefixed_name_eq original) (strip-some (full_prefix t) name original h)

  -- What the wrapper shows of an entry that the inner map has under the stripped name.
  abbrev pub shown : String → Option (ToolsetTool x) → Option (ToolsetTool x)
  shown name none = none
  shown name (some tool) = some (renamed name tool)

  -- Looking a name up is looking the stripped name up.
  abbrev pub looked_up :
      Option String → String → Map String (ToolsetTool x) → Option (ToolsetTool x)
  looked_up none name tools = none
  looked_up (some original) name tools = shown name (Map.get original tools)

  -- Two names with the prefix are the same exactly if the names are.
  same_name :
      (name original j : String)
      → strip_prefix t name ≡ some original
      → (prefixed_name t j == name) ≡ (j == original)
  same_name name original j h =
      Bool-path (prefixed_name t j == name) (j == original)
        (λ q.
          let e : prefixed_name t j ≡ name = (string_key.same_iff (prefixed_name t j) name).0 q in
          let e' : some j ≡ some original =
            sym (strip_prefix-prefixed_name j) ∙ ap (strip_prefix t) e ∙ h in
          (string_key.same_iff j original).1 (cc e'))
        (λ q.
          let e : j ≡ original = (string_key.same_iff j original).0 q in
          (string_key.same_iff (prefixed_name t j) name).1
            (ap (prefixed_name t) e ∙ sym (prefixed_name-strip_prefix name original h)))

  other_name : (name j : String) → strip_prefix t name ≡ none → (prefixed_name t j == name) ≡ false
  other_name name j h = elim (Bool-cases (prefixed_name t j == name)) [
    | inl q ↦
        let e : prefixed_name t j ≡ name = (string_key.same_iff (prefixed_name t j) name).0 q in
        let e' : some j ≡ none = sym (strip_prefix-prefixed_name j) ∙ ap (strip_prefix t) e ∙ h in
        absurd (cc e')
    | inr q ↦ q
  ]

  get-with_prefix :
      (o : Option String) (name : String) (tools : Map String (ToolsetTool x))
      → strip_prefix t name ≡ o
      → Map.get name (map (with_prefix t) tools) ≡ looked_up o name tools
  unfolding Map.get with_prefix
  get-with_prefix none name [] h = refl
  get-with_prefix none name ((j, tool) ∷ tools) h =
      rw (other_name name j h) (get-with_prefix none name tools h)
  get-with_prefix (some original) name [] h = refl
  get-with_prefix (some original) name ((j, tool) ∷ tools) h = elim (Bool-cases (j == original)) [
    | inl q ↦
        let e : prefixed_name t j ≡ name =
          (string_key.same_iff (prefixed_name t j) name).0 (same_name name original j h ∙ q) in
        rw (same_name name original j h, q, e) refl
    | inr q ↦ rw (same_name name original j h, q) (get-with_prefix (some original) name tools h)
  ]

  -- A prefixed toolset lists what the inner one lists, each tool under its name with the prefix: a
  -- name stands for the tool that the rest of it stands for in the inner toolset, and for none if it
  -- lacks the prefix. Its calls strip the prefix: with such a name the inner toolset is called under
  -- its own name for the tool, and with any other the answer is an error.
  pub prefixed-Lists :
      (ctx : x.RunContext) (inner_tools : Map String (ToolsetTool x)) (name : String)
      (args : x.Json) (tool : ToolsetTool x)
      → t.inner.get_tools ctx ≡ ok inner_tools
      → (strip_prefix t (prefixed_name t name) ≡ some name)
        × ((tools : Map String (ToolsetTool x)) × (get_tools t ctx ≡ ok tools)
            × ((listed : String)
                → Map.get listed tools ≡ looked_up (strip_prefix t listed) listed inner_tools))
        × (call_tool t (prefixed_name t name) args ctx tool
            ≡ t.inner.call_tool name args ctx (renamed name tool))
        × ((other : String)
            → strip_prefix t other ≡ none
            → call_tool t other args ctx tool ≡ err (missing t other))
  unfolding get_tools call_tool call_original
  prefixed-Lists ctx inner_tools name args tool h = (
    strip_prefix-prefixed_name name,
    (
      map (with_prefix t) inner_tools,
      rw h refl,
      λ listed. get-with_prefix (strip_prefix t listed) listed inner_tools refl,
    ),
    rw (strip_prefix-prefixed_name name) refl,
    λ other e. rw e refl,
  )
