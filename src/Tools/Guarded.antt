-- ===== src/Tools/Guarded.antt =====
-- The two wrappers that hold calls back: `FilteredToolset` of serdes-ai-toolsets/src/filtered.rs and
-- `ApprovalRequiredToolset` of src/approval.rs.
use serdes_ai.Prelude.{
  ◌≡◌, refl, sym, String, Bool, true, not, Option, some, [], ◌∷◌, retain, if◌then◌else◌, Bool-cases,
  inl, inr, ◌==◌, string_key,
}
use serdes_ai.Prelude.Map
use serdes_ai.Prelude.Map.{Map}
use serdes_ai.Prelude.Result.{Result, ok, err, ◌>>=◌, Result-cases}
use serdes_ai.Tools.Toolset.{
  Types, ToolError, not_found, approval_required, ToolDefinition, ToolsetTool, Toolset,
}
use Prim.Native.String as Str

pub record FilteredToolset (x : Types) : Type 0 where
  pub inner : Toolset x
  pub filter : x.RunContext → ToolDefinition x → Bool
  pub id : Option String

pub record ApprovalRequiredToolset (x : Types) : Type 0 where
  pub inner : Toolset x
  pub approval_checker : x.RunContext → ToolDefinition x → x.Json → Bool

module _ {x : Types} where
  pub filtered_tools :
      FilteredToolset x → x.RunContext → Result (Map String (ToolsetTool x)) (ToolError x)
  filtered_tools t ctx = do
    all_tools ← t.inner.get_tools ctx
    ok (retain (λ entry. t.filter ctx entry.1.tool_def) all_tools)

  filtered_out : String → ToolError x
  filtered_out name =
      not_found (Str.◌++◌ "Tool '" (Str.◌++◌ name "' is not available (filtered out)"))

  pub call_filtered :
      FilteredToolset x
      → String
      → x.Json
      → x.RunContext
      → ToolsetTool x
      → Result x.ToolReturn (ToolError x)
  unfolding filtered_out
  call_filtered t name args ctx tool =
      if not (t.filter ctx tool.tool_def)
      then err (filtered_out name)
      else t.inner.call_tool name args ctx tool

  pub call_approved :
      ApprovalRequiredToolset x
      → String
      → x.Json
      → x.RunContext
      → ToolsetTool x
      → Result x.ToolReturn (ToolError x)
  call_approved t name args ctx tool =
      if t.approval_checker ctx tool.tool_def args
      then err (approval_required name args)
      else t.inner.call_tool name args ctx tool

  get-retain :
      (p : String × ToolsetTool x → Bool) (name : String) (tools : Map String (ToolsetTool x))
      (tool : ToolsetTool x)
      → Map.get name (retain p tools) ≡ some tool
      → (j : String) × (p (j, tool) ≡ true)
  unfolding Map.get
  get-retain p name [] tool h = absurd (cc h)
  get-retain p name ((j, u) ∷ tools) tool h = elim (Bool-cases (p (j, u))) [
    | inl kept ↦
        let h' : (if j == name then some u else Map.get name (retain p tools)) ≡ some tool =
          rw kept at h in
        elim (Bool-cases (j == name)) [
          | inl q ↦
              let e : some u ≡ some tool = rw q at h' in
              let same : u ≡ tool = cc e in (j, rw (sym same) kept)
          | inr q ↦ get-retain p name tools tool (rw q at h')
        ]
    | inr dropped ↦ get-retain p name tools tool (rw dropped at h)
  ]

  -- A tool that a filtered toolset lists can be called: the call goes to the inner toolset.
  pub call_filtered-listed :
      (t : FilteredToolset x) (ctx : x.RunContext) (tools : Map String (ToolsetTool x))
      (name : String) (args : x.Json) (tool : ToolsetTool x)
      → filtered_tools t ctx ≡ ok tools
      → Map.get name tools ≡ some tool
      → call_filtered t name args ctx tool ≡ t.inner.call_tool name args ctx tool
  unfolding filtered_tools call_filtered
  call_filtered-listed t ctx tools name args tool h g =
      elim (Result-cases (t.inner.get_tools ctx)) [
        | inl (all_tools, e) ↦
            let h' : ok (retain (λ entry. t.filter ctx entry.1.tool_def) all_tools) ≡ ok tools =
              rw e at h in
            let same : retain (λ entry. t.filter ctx entry.1.tool_def) all_tools ≡ tools = cc h' in
            let (j, passes) =
              get-retain (λ entry. t.filter ctx entry.1.tool_def) name all_tools tool (rw same g) in
            rw passes refl
        | inr (error, e) ↦ let h' : err error ≡ ok tools = rw e at h in absurd (cc h')
      ]
