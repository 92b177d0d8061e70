-- ===== src/History/Pairs/Laws.antt =====
-- What is left of tool calls and results once the orphans are gone (serdes-ai-agent/src/history.rs).
use serdes_ai.Prelude.{
  String, true, not, ◌&&◌, ◌≡◌, ◌≢◌, refl, ap, ◌∙◌, inl, inr, none, some, List, [], ◌∷◌, ◌++◌,
  retain, filter_map, flat_map, All, All-append, contains, contains-append, string_key, ◌==◌,
  Bool-cases, arith,
}
use serdes_ai.History.Message.{
  ModelResponsePart, ModelRequest, ModelRequestPart, system_prompt, user_prompt, tool_return,
  retry_prompt, builtin_tool_return, model_response,
}
use serdes_ai.History.Pairs.{
  response_use_ids, use_ids, result_ids, keeps_result, keeps_use, without_uses, with_parts,
  non_empty, non_empty_response,
}

-- Every ID of the first list is in the second.
abbrev pub AllIn : List String → List String → Type 0
AllIn ids valid = All (λ id. contains id valid ≡ true) ids

valid_call :
    (id y : String) (valid : List String)
    → contains id valid ≡ true
    → id ≢ ""
    → contains id (y ∷ []) ≡ true
    → (not (y == "") && contains y valid) ≡ true
valid_call id y valid v n h =
    let same : y ≡ id = (string_key.same_iff y id).0 (ground (arith, h)) in
    elim (Bool-cases (id == "")) [
      | inl e ↦ absurd (n ((string_key.same_iff id "").0 e))
      | inr e ↦ rw (same, e, v) refl
    ]

module _ {C : Type 0} where
  cons_message :
      (ids : ModelRequestPart C → List String) (ps : List (ModelRequestPart C)) (kind : String)
      (rest : List (ModelRequest C))
      → flat_map
          (λ m. flat_map ids m.parts)
          (elim (non_empty (record { parts = ps; kind = kind })) [
            | none ↦ rest
            | some m ↦ m ∷ rest
          ])
        ≡ flat_map ids ps ++ flat_map (λ m. flat_map ids m.parts) rest
  unfolding non_empty
  cons_message ids [] kind rest = refl
  cons_message ids (p ∷ ps) kind rest = refl

  cons_response :
      (rs : List (ModelResponsePart C)) (c : C) (rest : List (ModelRequestPart C))
      → (flat_map use_ids (elim (non_empty_response (record { parts = rs; rest = c })) [
        | none ↦ rest
        | some p ↦ p ∷ rest
      ])
          ≡ flat_map response_use_ids rs ++ flat_map use_ids rest)
        × (flat_map result_ids (elim (non_empty_response (record { parts = rs; rest = c })) [
          | none ↦ rest
          | some p ↦ p ∷ rest
        ])
            ≡ flat_map result_ids rest)
  unfolding non_empty_response use_ids result_ids
  cons_response [] c rest = (refl, refl)
  cons_response (r ∷ rs) c rest = (refl, refl)

  -- A message that loses all its parts has no IDs to lose.
  pub collect-with_parts :
      (ids : ModelRequestPart C → List String)
      (change : List (ModelRequestPart C) → List (ModelRequestPart C)) (ms : List (ModelRequest C))
      → flat_map (λ m. flat_map ids m.parts) (with_parts change ms)
        ≡ flat_map (λ m. flat_map ids (change m.parts)) ms
  unfolding with_parts
  collect-with_parts ids change [] = refl
  collect-with_parts ids change (m ∷ ms) =
      cons_message ids (change m.parts) m.kind (with_parts change ms)
      ∙ ap (λ l. flat_map ids (change m.parts) ++ l) (collect-with_parts ids change ms)

module _ {C : Type 0} (valid : List String) where
  kept_result-AllIn :
      (p : ModelRequestPart C) → keeps_result valid p ≡ true → AllIn (result_ids p) valid
  unfolding keeps_result result_ids
  kept_result-AllIn (tool_return none c) h = tt
  kept_result-AllIn (tool_return (some id) c) h = (h, tt)
  kept_result-AllIn (builtin_tool_return id c) h = (ground (arith, h), tt)
  kept_result-AllIn (retry_prompt none c) h = tt
  kept_result-AllIn (retry_prompt (some id) c) h = (h, tt)
  kept_result-AllIn (system_prompt c) h = tt
  kept_result-AllIn (user_prompt c) h = tt
  kept_result-AllIn (model_response r) h = tt

  pub results-AllIn :
      (ps : List (ModelRequestPart C))
      → AllIn (flat_map result_ids (retain (keeps_result valid) ps)) valid
  results-AllIn [] = tt
  results-AllIn (p ∷ ps) = elim (Bool-cases (keeps_result valid p)) [
    | inl e ↦ rw e (All-append _ (result_ids p) _ (kept_result-AllIn p e) (results-AllIn ps))
    | inr e ↦ rw e (results-AllIn ps)
  ]

  -- Removing results leaves the calls as they are.
  pub uses-retain :
      (ps : List (ModelRequestPart C))
      → flat_map use_ids (retain (keeps_result valid) ps) ≡ flat_map use_ids ps
  unfolding keeps_result use_ids
  uses-retain [] = refl
  uses-retain (model_response r ∷ ps) = rw (uses-retain ps) refl
  uses-retain (system_prompt c ∷ ps) = uses-retain ps
  uses-retain (user_prompt c ∷ ps) = uses-retain ps
  uses-retain (p ∷ ps) = ground (arith, uses-retain ps)

  kept_use-AllIn :
      (p : ModelResponsePart C) → keeps_use valid p ≡ true → AllIn (response_use_ids p) valid
  unfolding keeps_use response_use_ids
  kept_use-AllIn (ModelResponsePart.tool_call none c) h = tt
  kept_use-AllIn (ModelResponsePart.tool_call (some id) c) h = (h, tt)
  kept_use-AllIn (ModelResponsePart.builtin_tool_call none c) h = tt
  kept_use-AllIn (ModelResponsePart.builtin_tool_call (some id) c) h = (ground (arith, h), tt)
  kept_use-AllIn (ModelResponsePart.text c) h = tt
  kept_use-AllIn (ModelResponsePart.thinking c) h = tt
  kept_use-AllIn (ModelResponsePart.file c) h = tt

  response_uses-AllIn :
      (rs : List (ModelResponsePart C))
      → AllIn (flat_map response_use_ids (retain (keeps_use valid) rs)) valid
  response_uses-AllIn [] = tt
  response_uses-AllIn (r ∷ rs) = elim (Bool-cases (keeps_use valid r)) [
    | inl e ↦
        rw e (All-append _ (response_use_ids r) _ (kept_use-AllIn r e) (response_uses-AllIn rs))
    | inr e ↦ rw e (response_uses-AllIn rs)
  ]

  pub uses-AllIn :
      (ps : List (ModelRequestPart C))
      → AllIn (flat_map use_ids (filter_map (without_uses valid) ps)) valid
  unfolding without_uses use_ids
  uses-AllIn [] = tt
  uses-AllIn (model_response r ∷ ps) =
      rw
        (cons_response (retain (keeps_use valid) r.parts) r.rest
          (filter_map (without_uses valid) ps)).0
        (All-append _ (flat_map response_use_ids (retain (keeps_use valid) r.parts)) _
          (response_uses-AllIn r.parts) (uses-AllIn ps))
  uses-AllIn (system_prompt c ∷ ps) = uses-AllIn ps
  uses-AllIn (user_prompt c ∷ ps) = uses-AllIn ps
  uses-AllIn (tool_return id c ∷ ps) = uses-AllIn ps
  uses-AllIn (retry_prompt id c ∷ ps) = uses-AllIn ps
  uses-AllIn (builtin_tool_return id c ∷ ps) = uses-AllIn ps

  -- Removing calls leaves the results as they are.
  pub results-filter_map :
      (ps : List (ModelRequestPart C))
      → flat_map result_ids (filter_map (without_uses valid) ps) ≡ flat_map result_ids ps
  unfolding without_uses result_ids
  results-filter_map [] = refl
  results-filter_map (model_response r ∷ ps) =
      (cons_response (retain (keeps_use valid) r.parts) r.rest
        (filter_map (without_uses valid) ps)).1
      ∙ results-filter_map ps
  results-filter_map (system_prompt c ∷ ps) = results-filter_map ps
  results-filter_map (user_prompt c ∷ ps) = results-filter_map ps
  results-filter_map (tool_return id c ∷ ps) = rw (results-filter_map ps) refl
  results-filter_map (retry_prompt id c ∷ ps) = rw (results-filter_map ps) refl
  results-filter_map (builtin_tool_return id c ∷ ps) = rw (results-filter_map ps) refl

  module _ (id : String) (valid_id : contains id valid ≡ true) (not_empty : id ≢ "") where
    use-kept :
        (r : ModelResponsePart C)
        → contains id (response_use_ids r) ≡ true
        → keeps_use valid r ≡ true
    unfolding keeps_use response_use_ids
    use-kept (ModelResponsePart.tool_call none c) h = refl
    use-kept (ModelResponsePart.tool_call (some y) c) h =
        ground (arith, valid_call id y valid valid_id not_empty h)
    use-kept (ModelResponsePart.builtin_tool_call none c) h = refl
    use-kept (ModelResponsePart.builtin_tool_call (some y) c) h =
        valid_call id y valid valid_id not_empty h
    use-kept (ModelResponsePart.text c) h = refl
    use-kept (ModelResponsePart.thinking c) h = refl
    use-kept (ModelResponsePart.file c) h = refl

    use-retain :
        (rs : List (ModelResponsePart C))
        → contains id (flat_map response_use_ids rs) ≡ true
        → contains id (flat_map response_use_ids (retain (keeps_use valid) rs)) ≡ true
    use-retain [] h = h
    use-retain (r ∷ rs) h = elim (Bool-cases (keeps_use valid r)) [
      | inl e ↦ rw e (
          ground (
            arith,
            contains-append id (response_use_ids r)
                (flat_map response_use_ids (retain (keeps_use valid) rs)),
            contains-append id (response_use_ids r) (flat_map response_use_ids rs),
            h,
            use-retain rs,
          ))
      | inr e ↦ rw e (
          ground (
            arith,
            contains-append id (response_use_ids r) (flat_map response_use_ids rs),
            h,
            use-retain rs,
            use-kept r,
            e,
          ))
    ]

    pub use-filter_map :
        (ps : List (ModelRequestPart C))
        → contains id (flat_map use_ids ps) ≡ true
        → contains id (flat_map use_ids (filter_map (without_uses valid) ps)) ≡ true
    unfolding without_uses use_ids
    use-filter_map [] h = h
    use-filter_map (model_response r ∷ ps) h =
        rw
          (cons_response (retain (keeps_use valid) r.parts) r.rest
            (filter_map (without_uses valid) ps)).0
          (ground (
            arith,
            contains-append id (flat_map response_use_ids (retain (keeps_use valid) r.parts))
                (flat_map use_ids (filter_map (without_uses valid) ps)),
            contains-append id (flat_map response_use_ids r.parts) (flat_map use_ids ps),
            h,
            use-retain r.parts,
            use-filter_map ps,
          ))
    use-filter_map (system_prompt c ∷ ps) h = use-filter_map ps h
    use-filter_map (user_prompt c ∷ ps) h = use-filter_map ps h
    use-filter_map (tool_return i c ∷ ps) h = use-filter_map ps h
    use-filter_map (retry_prompt i c ∷ ps) h = use-filter_map ps h
    use-filter_map (builtin_tool_return i c ∷ ps) h = use-filter_map ps h
