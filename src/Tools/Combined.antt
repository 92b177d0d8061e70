-- ===== src/Tools/Combined.antt =====
-- `CombinedToolset` of serdes-ai-toolsets/src/combined.rs.
mod Enters
pub mod Laws
use serdes_ai.Prelude.{
  ℕ, suc, String, Bool, Option, none, some, List, [], ◌∷◌, ◌++◌, map, get_elem?, string_key,
  if◌then◌else◌,
}
use serdes_ai.Prelude.Map
use serdes_ai.Prelude.Map.{Map}
use serdes_ai.Prelude.Result.{Result, ok, err, ◌>>=◌}
use serdes_ai.Tools.Toolset.{
  Types, ToolError, execution_failed, not_found, ToolsetTool, Toolset, join,
}
use Prim.Native.String as Str

pub record CombinedToolset (x : Types) : Type 0 where
  pub id : Option String
  pub toolsets : List (Toolset x)

pub record ToolOwnership (x : Types) : Type 0 where
  pub toolset_index : ℕ
  pub tool : ToolsetTool x

-- The locals of `get_tools`. A conflict is a name and two labels.
pub record Found (x : Types) : Type 0 where
  pub all_tools : Map String (ToolOwnership x)
  pub conflicts : List (String × String × String)

label_of : {x : Types} → Option (Toolset x) → String
label_of none = ""
label_of (some toolset) = toolset.label

module _ {x : Types} (t : CombinedToolset x) where
  id_label : Option String → String
  id_label none = ""
  id_label (some id) = Str.◌++◌ " '" (Str.◌++◌ id "'")

  label : String
  unfolding id_label
  label = Str.◌++◌ "CombinedToolset" (id_label t.id)

  tool_name_conflict_hint : String
  tool_name_conflict_hint =
      "Use PrefixedToolset to add prefixes to tool names from different toolsets."

  -- The `if let Some(existing)`; the index of an owner is in range.
  enter_tool :
      (idx : ℕ) (toolset : Toolset x) (name : String)
      → ToolsetTool x
      → Option (ToolOwnership x)
      → Found x
      → Found x
  unfolding label_of
  enter_tool idx toolset name tool (some existing) found = record found {
    conflicts =
        found.conflicts
        ++ (name, label_of (get_elem? t.toolsets existing.toolset_index), toolset.label) ∷ [];
  }
  enter_tool idx toolset name tool none found = record found {
    all_tools = Map.insert name (record { toolset_index = idx; tool = tool }) found.all_tools;
  }

  pub enter_tools : (idx : ℕ) → Toolset x → Map String (ToolsetTool x) → Found x → Found x
  unfolding enter_tool
  enter_tools idx toolset [] found = found
  enter_tools idx toolset ((name, tool) ∷ tools) found =
      enter_tools idx toolset tools
        (enter_tool idx toolset name tool (Map.get name found.all_tools) found)

  scan : (idx : ℕ) → x.RunContext → List (Toolset x) → Found x → Result (Found x) (ToolError x)
  unfolding enter_tools
  scan idx ctx [] found = ok found
  scan idx ctx (toolset ∷ rest) found = do
    tools ← toolset.get_tools ctx
    scan (suc idx) ctx rest (enter_tools idx toolset tools found)

  conflict_msg : String × String × String → String
  conflict_msg (name, t1, t2) =
      Str.◌++◌ "  - '" (Str.◌++◌ name (Str.◌++◌ "' exists in " (Str.◌++◌ t1 (Str.◌++◌ " and " t2))))

  conflict_error : List (String × String × String) → ToolError x
  unfolding label tool_name_conflict_hint conflict_msg
  conflict_error conflicts =
      execution_failed
        (Str.◌++◌ "Tool name conflicts in " (
          Str.◌++◌ label (
            Str.◌++◌ ":\n" (
              Str.◌++◌ (join "\n" (map conflict_msg conflicts))
                (Str.◌++◌ "\n\nHint: " tool_name_conflict_hint)))))
        Bool.false

  -- The names are those of a map, so that `collect` keeps every entry.
  unowned : Map String (ToolOwnership x) → Map String (ToolsetTool x)
  unowned all_tools = map (λ entry. (entry.0, entry.1.tool)) all_tools

  accepted :
      Found x → List (String × String × String) → Result (Map String (ToolsetTool x)) (ToolError x)
  unfolding conflict_error unowned
  accepted found [] = ok (unowned found.all_tools)
  accepted found (conflict ∷ conflicts) = err (conflict_error (conflict ∷ conflicts))

  unfoldable pub get_tools : x.RunContext → Result (Map String (ToolsetTool x)) (ToolError x)
  unfolding scan accepted
  get_tools ctx = do
    found ← scan 0 ctx t.toolsets (record { all_tools = []; conflicts = [] })
    accepted found found.conflicts

  pub missing : String → ToolError x
  unfolding label
  missing name = not_found (Str.◌++◌ "Tool '" (Str.◌++◌ name (Str.◌++◌ "' not found in " label)))

  -- The loop of `call_tool`.
  call_in :
      List (Toolset x)
      → String
      → x.Json
      → x.RunContext
      → ToolsetTool x
      → Result x.ToolReturn (ToolError x)
  unfolding missing
  call_in [] name args ctx tool = err (missing name)
  call_in (toolset ∷ rest) name args ctx tool =
      let others = call_in rest name args ctx tool in
      toolset.get_tools ctx >>= λ tools.
      if Map.contains_key name tools then toolset.call_tool name args ctx tool else others

  pub call_tool : String → x.Json → x.RunContext → ToolsetTool x → Result x.ToolReturn (ToolError x)
  unfolding call_in
  call_tool name args ctx tool = call_in t.toolsets name args ctx tool

  pub as_toolset : Toolset x
  unfolding label
  as_toolset = record { id = t.id; label = label; get_tools = get_tools; call_tool = call_tool }
