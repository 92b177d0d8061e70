-- ===== src/Tools/Combined/Laws.antt =====
-- Which toolset of a combination owns a name, and answers for it.
use serdes_ai.Prelude.{
  ℕ, suc, ◌≡◌, refl, sym, ap, ◌∙◌, inl, inr, String, Option, none, some, List, [], ◌∷◌, ◌++◌, All,
  Bool-cases, string_key, ◌==◌,
}
use serdes_ai.Prelude.Map
use serdes_ai.Prelude.Map.{Map}
use serdes_ai.Prelude.Result.{Result, ok, err, Result-cases, ◌>>=◌}
use serdes_ai.Tools.Toolset.{Types, ToolError, ToolsetTool, Toolset}
use serdes_ai.Tools.Combined.{
  CombinedToolset, ToolOwnership, Found, enter_tools, scan, accepted, unowned, get_tools, missing,
  call_in, call_tool,
}
use serdes_ai.Tools.Combined.Enters.{
  own, Enters, first-none, enter_tools-conflicts, enter_tools-Enters,
}

ok_injective : {A E : Type 0} {a b : A} → ◌≡◌ {A = Result A E} (ok a) (ok b) → a ≡ b
ok_injective h = cc h

module _ {x : Types} (ctx : x.RunContext) (name : String) where
  -- The toolset has no tool of the name.
  abbrev pub Lacks : Toolset x → Type 0
  Lacks u = (m : Map String (ToolsetTool x)) × (u.get_tools ctx ≡ ok m) × (Map.get name m ≡ none)

  abbrev pub Has : Toolset x → ToolsetTool x → Type 0
  Has u tool =
      (m : Map String (ToolsetTool x)) × (u.get_tools ctx ≡ ok m) × (Map.get name m ≡ some tool)

  -- Of some toolsets none has the name, and its owner stays; or exactly one has it, which nobody
  -- owned before.
  data Owned (us : List (Toolset x))
      : Option (ToolOwnership x) → Option (ToolOwnership x) → Type 0 where
    kept : (before : Option (ToolOwnership x)) → All Lacks us → Owned us before before
    owner :
        (front : List (Toolset x)) (u : Toolset x) (back : List (Toolset x)) (o : ToolOwnership x)
        → us ≡ front ++ u ∷ back
        → All Lacks front
        → Has u o.tool
        → All Lacks back
        → Owned us none (some o)

  module _ (t : CombinedToolset x) where
    scan-conflicts :
        (idx : ℕ) (us : List (Toolset x)) (found found' : Found x)
        → scan t idx ctx us found ≡ ok found'
        → found'.conflicts ≡ []
        → found.conflicts ≡ []
    unfolding scan
    scan-conflicts idx [] found found' h c = ap (λ f. f.conflicts) (ok_injective h) ∙ c
    scan-conflicts idx (u ∷ us) found found' h c = elim (Result-cases (u.get_tools ctx)) [
      | inl (m, e) ↦
          enter_tools-conflicts t idx u m found
            (scan-conflicts (suc idx) us (enter_tools t idx u m found) found' (rw e at h) c)
      | inr (error, e) ↦ let h' : err error ≡ ok found' = rw e at h in absurd (cc h')
    ]

    Lacks-Owned :
        (u : Toolset x) (us : List (Toolset x)) (before after : Option (ToolOwnership x))
        → Lacks u
        → Owned us before after
        → Owned (u ∷ us) before after
    Lacks-Owned u us before _ lu (kept _ l) = kept before (lu, l)
    Lacks-Owned u us _ _ lu (owner front v back o e lf h lb) =
        owner (u ∷ front) v back o (ap (λ vs. u ∷ vs) e) (lu, lf) h lb

    Has-Owned :
        (u : Toolset x) (us : List (Toolset x)) (idx : ℕ) (tool : ToolsetTool x)
        (after : Option (ToolOwnership x))
        → Has u tool
        → Owned us (some (own t idx tool)) after
        → Owned (u ∷ us) none after
    Has-Owned u us idx tool _ h (kept _ l) = owner [] u us (own t idx tool) refl tt h l

    Owned-cons :
        (u : Toolset x) (us : List (Toolset x)) (idx : ℕ) (m : Map String (ToolsetTool x))
        (before middle after : Option (ToolOwnership x)) (tool : Option (ToolsetTool x))
        → u.get_tools ctx ≡ ok m
        → Map.get name m ≡ tool
        → Enters t before idx tool middle
        → Owned us middle after
        → Owned (u ∷ us) before after
    Owned-cons u us idx m before middle after none e g h o =
        let q : middle ≡ before = h.0 ∙ sym (first-none t before) in
        Lacks-Owned u us before after (m, e, g) (rw q at o)
    Owned-cons u us idx m none middle after (some tool) e g h o =
        Has-Owned u us idx tool after (m, e, g) (rw h.0 at o)
    Owned-cons u us idx m (some b) middle after (some tool) e g h o = absurd (cc (h.1 refl))

    scan-Owned :
        (idx : ℕ) (us : List (Toolset x)) (found found' : Found x)
        → scan t idx ctx us found ≡ ok found'
        → found'.conflicts ≡ []
        → Owned us (Map.get name found.all_tools) (Map.get name found'.all_tools)
    unfolding scan
    scan-Owned idx [] found found' h c =
        rw (ok_injective h) (kept (Map.get name found'.all_tools) tt)
    scan-Owned idx (u ∷ us) found found' h c = elim (Result-cases (u.get_tools ctx)) [
      | inl (m, e) ↦
          let next = enter_tools t idx u m found in
          let h' : scan t (suc idx) ctx us next ≡ ok found' = rw e at h in
          Owned-cons u us idx m _ (Map.get name next.all_tools) _ (Map.get name m) e refl
            (enter_tools-Enters t idx u m found name (scan-conflicts (suc idx) us next found' h' c))
            (scan-Owned (suc idx) us next found' h' c)
      | inr (error, e) ↦ let h' : err error ≡ ok found' = rw e at h in absurd (cc h')
    ]

    call_in-Lacks :
        (us : List (Toolset x)) (args : x.Json) (tool : ToolsetTool x)
        → All Lacks us
        → call_in t us name args ctx tool ≡ err (missing t name)
    unfolding call_in
    call_in-Lacks [] args tool l = refl
    call_in-Lacks (u ∷ us) args tool ((m, e, g), l) = rw (e, g) (call_in-Lacks us args tool l)

    call_in-Has :
        (front : List (Toolset x)) (u : Toolset x) (back : List (Toolset x)) (args : x.Json)
        (tool shown : ToolsetTool x)
        → All Lacks front
        → Has u shown
        → call_in t (front ++ u ∷ back) name args ctx tool ≡ u.call_tool name args ctx tool
    unfolding call_in
    call_in-Has [] u back args tool shown l (m, e, g) = rw (e, g) refl
    call_in-Has (v ∷ front) u back args tool shown ((m, e, g), l) h =
        rw (e, g) (call_in-Has front u back args tool shown l h)

    -- What a combination does for a name that its listing has, and for one that it has not.
    abbrev pub Answers : Option (ToolsetTool x) → Type 0
    Answers none =
        All Lacks t.toolsets
        × ((args : x.Json) (tool : ToolsetTool x)
            → call_tool t name args ctx tool ≡ err (missing t name))
    Answers (some listed) =
        (front : List (Toolset x)) × (u : Toolset x) × (back : List (Toolset x)) × (t.toolsets
          ≡ front ++ u ∷ back)
        × All Lacks front
        × Has u listed
        × All Lacks back
        × ((args : x.Json) (tool : ToolsetTool x)
            → call_tool t name args ctx tool ≡ u.call_tool name args ctx tool)

    abbrev tool_of : Option (ToolOwnership x) → Option (ToolsetTool x)
    tool_of none = none
    tool_of (some o) = some o.tool

    Owned-Answers :
        (after : Option (ToolOwnership x)) → Owned t.toolsets none after → Answers (tool_of after)
    unfolding call_tool
    Owned-Answers _ (kept _ l) = (l, λ args tool. call_in-Lacks t.toolsets args tool l)
    Owned-Answers _ (owner front u back o e lf h lb) = (
      front,
      u,
      back,
      e,
      lf,
      h,
      lb,
      λ args tool. rw e (call_in-Has front u back args tool o.tool lf h),
    )

    get-unowned :
        (all_tools : Map String (ToolOwnership x))
        → Map.get name (unowned t all_tools) ≡ tool_of (Map.get name all_tools)
    unfolding unowned Map.get
    get-unowned [] = refl
    get-unowned ((j, o) ∷ all_tools) = elim (Bool-cases (j == name)) [
      | inl q ↦ rw q refl
      | inr q ↦ rw q (get-unowned all_tools)
    ]

    accepted-ok :
        (found : Found x) (conflicts : List (String × String × String))
        (tools : Map String (ToolsetTool x))
        → accepted t found conflicts ≡ ok tools
        → (conflicts ≡ []) × (unowned t found.all_tools ≡ tools)
    unfolding accepted
    accepted-ok found [] tools h = (refl, ok_injective h)
    accepted-ok found (conflict ∷ conflicts) tools h = absurd (cc h)

    scanned-Answers :
        (r : Result (Found x) (ToolError x)) (tools : Map String (ToolsetTool x))
        → scan t 0 ctx t.toolsets (record { all_tools = []; conflicts = [] }) ≡ r
        → (r >>= λ found. accepted t found found.conflicts) ≡ ok tools
        → Answers (Map.get name tools)
    unfolding Map.get
    scanned-Answers (err error) tools h k = absurd (cc k)
    scanned-Answers (ok found) tools h k =
        let (c, e) = accepted-ok found found.conflicts tools k in
        rw (sym e, get-unowned found.all_tools)
          (Owned-Answers (Map.get name found.all_tools)
            (scan-Owned 0 t.toolsets (record { all_tools = []; conflicts = [] }) found h c))

  -- If a combination lists its tools without a conflict, a name that it lists is that of a tool of
  -- exactly one of its toolsets, and a call of the name is answered by this toolset; a name that it
  -- does not list is in none of the toolsets, and a call of it is an error.
  pub get_tools-Answers :
      (t : CombinedToolset x) (tools : Map String (ToolsetTool x))
      → get_tools t ctx ≡ ok tools
      → Answers t (Map.get name tools)
  unfolding get_tools
  get_tools-Answers t tools h =
      scanned-Answers t (scan t 0 ctx t.toolsets (record { all_tools = []; conflicts = [] })) tools
        refl h
