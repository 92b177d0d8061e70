-- ===== src/Tools/Prefixed.antt =====
-- `PrefixedToolset` of serdes-ai-toolsets/src/prefixed.rs. The names with a prefix differ as the names
-- do, so that `collect` keeps every entry of the inner map.
pub mod Laws
use serdes_ai.Prelude.{String, Option, none, some, List, [], ◌∷◌, map, nat_beq, if◌then◌else◌}
use serdes_ai.Prelude.Map.{Map}
use serdes_ai.Prelude.Result.{Result, ok, err, ◌>>=◌}
use serdes_ai.Tools.Toolset.{Types, ToolError, not_found, ToolsetTool, renamed, Toolset}
use Prim.Native.Char.{code}
use Prim.Native.String as Str

-- `str::strip_prefix`
pub strip : String → String → Option String
strip Str.[] s = some s
strip (Str.◌∷◌ c p) Str.[] = none
strip (Str.◌∷◌ c p) (Str.◌∷◌ d s) =
    let rest = strip p s in if nat_beq (code c) (code d) then rest else none

pub record PrefixedToolset (x : Types) : Type 0 where
  pub inner : Toolset x
  pub prefix : String
  pub separator : String

module _ {x : Types} (t : PrefixedToolset x) where
  abbrev full_prefix : String
  full_prefix = Str.◌++◌ t.prefix t.separator

  pub prefixed_name : String → String
  prefixed_name name = Str.◌++◌ t.prefix (Str.◌++◌ t.separator name)

  pub strip_prefix : String → Option String
  unfolding strip
  strip_prefix prefixed = strip full_prefix prefixed

  with_prefix : String × ToolsetTool x → String × ToolsetTool x
  unfolding prefixed_name
  with_prefix (name, tool) = (prefixed_name name, renamed (prefixed_name name) tool)

  pub get_tools : x.RunContext → Result (Map String (ToolsetTool x)) (ToolError x)
  unfolding with_prefix
  get_tools ctx = do inner_tools ← t.inner.get_tools ctx; ok (map with_prefix inner_tools)

  pub missing : String → ToolError x
  missing name = not_found (
      Str.◌++◌ "Tool '"
        (Str.◌++◌ name (Str.◌++◌ "' does not have expected prefix '" (Str.◌++◌ full_prefix "'"))))

  -- The call, once the prefix is stripped.
  call_original :
      Option String
      → String
      → x.Json
      → x.RunContext
      → ToolsetTool x
      → Result x.ToolReturn (ToolError x)
  unfolding missing
  call_original none name args ctx tool = err (missing name)
  call_original (some original_name) name args ctx tool =
      t.inner.call_tool original_name args ctx (renamed original_name tool)

  pub call_tool : String → x.Json → x.RunContext → ToolsetTool x → Result x.ToolReturn (ToolError x)
  unfolding call_original
  call_tool name args ctx tool = call_original (strip_prefix name) name args ctx tool

  label : String
  label =
      Str.◌++◌ "PrefixedToolset('"
        (Str.◌++◌ full_prefix (Str.◌++◌ "', " (Str.◌++◌ t.inner.label ")")))

  pub as_toolset : Toolset x
  unfolding label
  as_toolset = record {
    id = t.inner.id;
    label = label;
    get_tools = get_tools;
    call_tool = call_tool;
  }
