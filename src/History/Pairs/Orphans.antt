-- ===== src/History/Pairs/Orphans.antt =====
-- After the post-processing of a truncated history (serdes-ai-agent/src/history.rs) calls and results
-- belong together.
use serdes_ai.Prelude.{
  String, true, ◌≡◌, ◌≢◌, refl, sym, ◌∙◌, Bool-cases, inl, inr, List, [], ◌∷◌, retain, length, ◌≤◌,
  length-filter_map-le, filter_map, flat_map, All-append, contains, contains-append, string_key,
  arith,
}
use serdes_ai.History.Message.{ModelRequest}
use serdes_ai.History.Pairs.{
  use_ids, result_ids, collect_all_tool_use_ids, collect_all_tool_result_ids, keeps_result,
  without_uses, with_parts, non_empty, remove_orphaned_tool_results, remove_orphans,
}
use serdes_ai.History.Pairs.Laws.{
  AllIn, collect-with_parts, results-AllIn, uses-retain, uses-AllIn, results-filter_map,
  use-filter_map,
}

AllIn-contains :
    (xs valid : List String) (id : String)
    → AllIn xs valid
    → contains id xs ≡ true
    → contains id valid ≡ true
AllIn-contains [] valid id a h = cc
AllIn-contains (x ∷ xs) valid id a h = elim (Bool-cases (contains id (x ∷ []))) [
  | inl e ↦
      let same : x ≡ id = (string_key.same_iff x id).0 (ground (arith, e)) in rw (sym same) a.0
  | inr e ↦ AllIn-contains xs valid id a.1 (ground (arith, h, e))
]

module _ {A : Type 0} where
  flat_map-ext :
      (f g : A → List String)
      → ((x : A) → f x ≡ g x)
      → (xs : List A) → flat_map f xs ≡ flat_map g xs
  flat_map-ext f g e [] = refl
  flat_map-ext f g e (x ∷ xs) = rw (e x, flat_map-ext f g e xs) refl

  flat_map-AllIn :
      (f : A → List String) (valid : List String)
      → ((x : A) → AllIn (f x) valid)
      → (xs : List A) → AllIn (flat_map f xs) valid
  flat_map-AllIn f valid h [] = tt
  flat_map-AllIn f valid h (x ∷ xs) = All-append _ (f x) _ (h x) (flat_map-AllIn f valid h xs)

  flat_map-contains :
      (f g : A → List String) (id : String)
      → ((x : A) → contains id (f x) ≡ true → contains id (g x) ≡ true)
      → (xs : List A) → contains id (flat_map f xs) ≡ true
      → contains id (flat_map g xs) ≡ true
  flat_map-contains f g id h [] e = e
  flat_map-contains f g id h (x ∷ xs) e = ground (
    arith,
    contains-append id (f x) (flat_map f xs),
    contains-append id (g x) (flat_map g xs),
    e,
    h x,
    flat_map-contains f g id h xs,
  )

module _ {C : Type 0} (ms : List (ModelRequest C)) where
  -- The history after the first of the two steps.
  abbrev paired : List (ModelRequest C)
  paired = remove_orphaned_tool_results ms (collect_all_tool_use_ids ms)

  uses-paired : collect_all_tool_use_ids paired ≡ collect_all_tool_use_ids ms
  uses-paired =
      collect-with_parts use_ids (retain (keeps_result (collect_all_tool_use_ids ms))) ms
      ∙ flat_map-ext _ _ (λ m. uses-retain (collect_all_tool_use_ids ms) m.parts) ms

  results-paired : AllIn (collect_all_tool_result_ids paired) (collect_all_tool_use_ids ms)
  results-paired =
      rw (collect-with_parts result_ids (retain (keeps_result (collect_all_tool_use_ids ms))) ms)
        (flat_map-AllIn _ _ (λ m. results-AllIn (collect_all_tool_use_ids ms) m.parts) ms)

  results-remove_orphans :
      collect_all_tool_result_ids (remove_orphans ms) ≡ collect_all_tool_result_ids paired
  unfolding remove_orphans
  results-remove_orphans =
      collect-with_parts result_ids (filter_map (without_uses (collect_all_tool_result_ids paired)))
        paired
      ∙ flat_map-ext _ _ (λ m. results-filter_map (collect_all_tool_result_ids paired) m.parts)
          paired

  uses-remove_orphans :
      collect_all_tool_use_ids (remove_orphans ms)
      ≡ flat_map
          (λ m.
            flat_map use_ids
              (filter_map (without_uses (collect_all_tool_result_ids paired)) m.parts))
          paired
  unfolding remove_orphans
  uses-remove_orphans =
      collect-with_parts use_ids (filter_map (without_uses (collect_all_tool_result_ids paired)))
        paired

  -- Every call with an ID that is left has a result.
  pub use-has-result :
      (id : String)
      → contains id (collect_all_tool_use_ids (remove_orphans ms)) ≡ true
      → contains id (collect_all_tool_result_ids (remove_orphans ms)) ≡ true
  use-has-result id h = rw results-remove_orphans (
      AllIn-contains _ (collect_all_tool_result_ids paired) id
        (flat_map-AllIn _ _ (λ m. uses-AllIn (collect_all_tool_result_ids paired) m.parts) paired)
        (rw uses-remove_orphans at h))

  -- Every ID, unless it is empty, of a result that is left is that of a call that is left. (A result
  -- without an ID is not spoken of.)
  pub result-has-use :
      (id : String)
      → id ≢ ""
      → contains id (collect_all_tool_result_ids (remove_orphans ms)) ≡ true
      → contains id (collect_all_tool_use_ids (remove_orphans ms)) ≡ true
  result-has-use id n h =
      let found : contains id (collect_all_tool_result_ids paired) ≡ true =
        rw (sym results-remove_orphans) h in
      rw uses-remove_orphans (
        flat_map-contains (λ m. flat_map use_ids m.parts) _ id
          (λ m. use-filter_map (collect_all_tool_result_ids paired) id found n m.parts) paired
          (rw uses-paired (AllIn-contains _ _ id results-paired found)))

  pub length-remove_orphans : length (remove_orphans ms) ≤ length ms
  unfolding remove_orphans with_parts
  length-remove_orphans = omega (
    arith,
    length-filter_map-le
        (λ m.
          non_empty
            (record m { parts = retain (keeps_result (collect_all_tool_use_ids ms)) m.parts }))
        ms,
    length-filter_map-le
        (λ m. non_empty (record m {
          parts = filter_map (without_uses (collect_all_tool_result_ids paired)) m.parts;
        }))
        paired,
  )
