-- ===== src/Tools/Combined/Enters.antt =====
-- How the tools of one toolset are entered among those of the ones before it.
use serdes_ai.Prelude.{
  ℕ, ◌≡◌, refl, String, Bool, true, false, Option, none, some, List, [], ◌∷◌, ◌++◌, is_some,
  if◌then◌else◌, string_key, ◌==◌,
}
use serdes_ai.Prelude.Map
use serdes_ai.Prelude.Map.{Map}
use serdes_ai.Tools.Toolset.{Types, ToolsetTool, Toolset}
use serdes_ai.Tools.Combined.{CombinedToolset, ToolOwnership, Found, enter_tool, enter_tools}

append-cons-ne-nil : {A : Type 0} (xs : List A) (x : A) → xs ++ x ∷ [] ≡ [] → ⊥
append-cons-ne-nil [] x h = cc h
append-cons-ne-nil (y ∷ xs) x h = cc h

module _ {x : Types} (t : CombinedToolset x) where
  enter_tool-conflicts :
      (idx : ℕ) (u : Toolset x) (name : String) (tool : ToolsetTool x)
      (o : Option (ToolOwnership x)) (found : Found x)
      → (enter_tool t idx u name tool o found).conflicts ≡ []
      → (found.conflicts ≡ []) × (o ≡ none)
  unfolding enter_tool
  enter_tool-conflicts idx u name tool (some owner) found h =
      absurd (append-cons-ne-nil found.conflicts _ h)
  enter_tool-conflicts idx u name tool none found h = (h, refl)

  -- A conflict is never forgotten.
  pub enter_tools-conflicts :
      (idx : ℕ) (u : Toolset x) (tools : Map String (ToolsetTool x)) (found : Found x)
      → (enter_tools t idx u tools found).conflicts ≡ []
      → found.conflicts ≡ []
  unfolding enter_tools
  enter_tools-conflicts idx u [] found h = h
  enter_tools-conflicts idx u ((name, tool) ∷ tools) found h =
      (enter_tool-conflicts idx u name tool (Map.get name found.all_tools) found
        (enter_tools-conflicts idx u tools _ h)).0

  abbrev pub owned : ℕ → Option (ToolsetTool x) → Option (ToolOwnership x)
  owned idx none = none
  owned idx (some tool) = some (record { toolset_index = idx; tool = tool })

  abbrev pub first : Option (ToolOwnership x) → Option (ToolOwnership x) → Option (ToolOwnership x)
  first none b = b
  first (some a) b = some a

  -- The owner after the tools of one toolset, and that it had none before if the toolset has it.
  abbrev pub Enters :
      Option (ToolOwnership x) → ℕ → Option (ToolsetTool x) → Option (ToolOwnership x) → Type 0
  Enters before idx tool after =
      (after ≡ first before (owned idx tool)) × (is_some before ≡ true → tool ≡ none)

  pub first-none : (o : Option (ToolOwnership x)) → o ≡ first o none
  first-none none = refl
  first-none (some a) = refl

  abbrev pub own : ℕ → ToolsetTool x → ToolOwnership x
  own idx tool = record { toolset_index = idx; tool = tool }

  abbrev with_owner : ℕ → String → ToolsetTool x → Found x → Found x
  with_owner idx j tool found = record found {
    all_tools = Map.insert j (own idx tool) found.all_tools;
  }

  enter_tools-cons :
      (idx : ℕ) (u : Toolset x) (j : String) (tool : ToolsetTool x)
      (tools : Map String (ToolsetTool x)) (found : Found x)
      → Map.get j found.all_tools ≡ none
      → enter_tools t idx u ((j, tool) ∷ tools) found
        ≡ enter_tools t idx u tools (with_owner idx j tool found)
  unfolding enter_tools enter_tool
  enter_tools-cons idx u j tool tools found e = rw e

  Enters-cons :
      (idx : ℕ) (j name : String) (tool : ToolsetTool x) (tools : Map String (ToolsetTool x))
      (all_tools : Map String (ToolOwnership x)) (after : Option (ToolOwnership x)) (b : Bool)
      → Map.get j all_tools ≡ none
      → (j == name) ≡ b
      → Enters
          (if b then some (own idx tool) else Map.get name all_tools)
          idx
          (Map.get name tools)
          after
      → Enters (Map.get name all_tools) idx (if b then some tool else Map.get name tools) after
  Enters-cons idx j name tool tools all_tools after true e q h =
      let same : j ≡ name = (string_key.same_iff j name).0 q in
      let none_yet : Map.get name all_tools ≡ none = rw same at e in rw none_yet (h.0, λ k. cc k)
  Enters-cons idx j name tool tools all_tools after false e q h = h

  pub enter_tools-Enters :
      (idx : ℕ) (u : Toolset x) (tools : Map String (ToolsetTool x)) (found : Found x)
      (name : String)
      → (enter_tools t idx u tools found).conflicts ≡ []
      → Enters
          (Map.get name found.all_tools)
          idx
          (Map.get name tools)
          (Map.get name (enter_tools t idx u tools found).all_tools)
  unfolding enter_tools Map.get
  enter_tools-Enters idx u [] found name h = (first-none (Map.get name found.all_tools), λ e. refl)
  enter_tools-Enters idx u ((j, tool) ∷ tools) found name h =
      let e : Map.get j found.all_tools ≡ none =
        (enter_tool-conflicts idx u j tool (Map.get j found.all_tools) found
          (enter_tools-conflicts idx u tools _ h)).1 in
      let q = enter_tools-cons idx u j tool tools found e in
      let ih = enter_tools-Enters idx u tools (with_owner idx j tool found) name (rw q at h) in
      rw q (
        Enters-cons idx j name tool tools found.all_tools _ (j == name) e refl
          (rw (Map.get-insert j name (own idx tool) found.all_tools) at ih))
