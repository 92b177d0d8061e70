-- ===== src/History/Filter.antt =====
-- `FilterHistory`, and `ChainedProcessor` (serdes-ai-agent/src/history.rs).
use serdes_ai.Prelude.{
  String, Bool, true, not, ◌≡◌, ◌≢◌, refl, ap, sym, ◌∙◌, none, some, List, [], ◌∷◌, ◌++◌, retain,
  flat_map, All, arith,
}
use serdes_ai.History.Message.{
  ModelRequest, ModelRequestPart, system_prompt, tool_return, retry_prompt,
}
use serdes_ai.History.Pairs.{with_parts, non_empty}

pub record FilterHistory : Type 0 where
  pub remove_system : Bool
  pub remove_tool_returns : Bool
  pub remove_retries : Bool

-- A processor, applied to its context.
abbrev pub HistoryProcessor : Type 0 → Type 0
HistoryProcessor C = List (ModelRequest C) → List (ModelRequest C)

module _ {C : Type 0} where
  unfoldable pub chained : List (HistoryProcessor C) → List (ModelRequest C) → List (ModelRequest C)
  chained [] messages = messages
  chained (processor ∷ processors) messages = chained processors (processor messages)

  abbrev pub keeps_part : FilterHistory → ModelRequestPart C → Bool
  keeps_part f (system_prompt c) = not f.remove_system
  keeps_part f (tool_return id c) = not f.remove_tool_returns
  keeps_part f (retry_prompt id c) = not f.remove_retries
  keeps_part f _ = true

  unfoldable pub filter : FilterHistory → List (ModelRequest C) → List (ModelRequest C)
  unfolding with_parts
  filter f = with_parts (retain (keeps_part f))

  retain-append :
      (p : ModelRequestPart C → Bool) (xs ys : List (ModelRequestPart C))
      → retain p (xs ++ ys) ≡ retain p xs ++ retain p ys
  retain-append p [] ys = refl
  retain-append p (x ∷ xs) ys = ground (arith, retain-append p xs ys)

  abbrev pub all_parts : List (ModelRequest C) → List (ModelRequestPart C)
  all_parts = flat_map (λ m. m.parts)

  non_empty-parts :
      (ps : List (ModelRequestPart C)) (kind : String) (rest : List (ModelRequest C))
      → all_parts (elim (non_empty (record { parts = ps; kind = kind })) [
        | none ↦ rest
        | some m ↦ m ∷ rest
      ])
        ≡ ps ++ all_parts rest
  unfolding non_empty
  non_empty-parts [] kind rest = refl
  non_empty-parts (p ∷ ps) kind rest = refl

  -- Filtering keeps exactly the parts of the kinds that are not removed, in their order.
  pub filter-parts :
      (f : FilterHistory) (ms : List (ModelRequest C))
      → all_parts (filter f ms) ≡ retain (keeps_part f) (all_parts ms)
  unfolding filter
  filter-parts f [] = refl
  filter-parts f (m ∷ ms) =
      non_empty-parts (retain (keeps_part f) m.parts) m.kind (filter f ms)
      ∙ ap (λ l. retain (keeps_part f) m.parts ++ l) (filter-parts f ms)
      ∙ sym (retain-append (keeps_part f) m.parts (all_parts ms))

  kept_non_empty :
      (ps : List (ModelRequestPart C)) (kind : String) (rest : List (ModelRequest C))
      → All (λ m. m.parts ≢ []) rest
      → All
          (λ m. m.parts ≢ [])
          (elim (non_empty (record { parts = ps; kind = kind })) [
            | none ↦ rest
            | some m ↦ m ∷ rest
          ])
  unfolding non_empty
  kept_non_empty [] kind rest h = h
  kept_non_empty (p ∷ ps) kind rest h = (λ e. absurd (cc e), h)

  -- No message without parts is left.
  pub filter-non_empty :
      (f : FilterHistory) (ms : List (ModelRequest C)) → All (λ m. m.parts ≢ []) (filter f ms)
  unfolding filter
  filter-non_empty f [] = tt
  filter-non_empty f (m ∷ ms) =
      kept_non_empty (retain (keeps_part f) m.parts) m.kind (filter f ms) (filter-non_empty f ms)

  -- A chain is its first part and then its second.
  pub chained-append :
      (ps qs : List (HistoryProcessor C)) (ms : List (ModelRequest C))
      → chained (ps ++ qs) ms ≡ chained qs (chained ps ms)
  unfolding chained
  chained-append [] qs ms = refl
  chained-append (p ∷ ps) qs ms = chained-append ps qs (p ms)
