-- ===== src/Tools/Examples.antt =====
-- Tests of the toolsets, and instances of the theorems about them.
use serdes_ai.Prelude.{ℕ, ◌≡◌, refl, String, none, some, [], ◌∷◌, string_key}
use serdes_ai.Prelude.Map
use serdes_ai.Prelude.Map.{Map}
use serdes_ai.Prelude.Result.{ok, err}
use serdes_ai.Tools.Toolset.{Types, ToolsetTool, Toolset, renamed}
use serdes_ai.Tools.Prefixed.{
  PrefixedToolset, prefixed_name, strip_prefix, get_tools, call_tool, missing,
}
use serdes_ai.Tools.Prefixed.Laws.{prefixed-Lists, looked_up}
use serdes_ai.Tools.Combined as Combined
use serdes_ai.Tools.Combined.{CombinedToolset}
use serdes_ai.Tools.Combined.Laws.{Answers, get_tools-Answers}

abbrev plain : Types
plain = record {
  RunContext = Unit;
  Json = ℕ;
  ToolReturn = ℕ;
  ValidationError = Unit;
  JsonError = Unit;
  AnyError = Unit;
}

abbrev tool : String → ToolsetTool plain
tool name = record {
  toolset_id = none;
  tool_def = record {
    name = name;
    description = "";
    parameters_json_schema = 0;
    strict = none;
    outer_typed_dict_key = none;
  };
  max_retries = 3;
}

-- A toolset with one tool, which answers with the arguments.
abbrev single : String → Toolset plain
single name = record {
  id = none;
  label = name;
  get_tools = λ ctx. ok ((name, tool name) ∷ []);
  call_tool = λ called args ctx t. ok args;
}

abbrev files : PrefixedToolset plain
files = record { inner = single "read"; prefix = "fs"; separator = "_" }

prefixed-Lists_example :
    (strip_prefix files (prefixed_name files "read") ≡ some "read")
    × ((tools : Map String (ToolsetTool plain)) × (get_tools files tt ≡ ok tools)
        × ((listed : String)
            → Map.get listed tools
              ≡ looked_up files (strip_prefix files listed) listed (("read", tool "read") ∷ [])))
    × (call_tool files (prefixed_name files "read") 5 tt (tool "read")
        ≡ files.inner.call_tool "read" 5 tt (renamed "read" (tool "read")))
    × ((other : String)
        → strip_prefix files other ≡ none
        → call_tool files other 5 tt (tool "read") ≡ err (missing files other))
prefixed-Lists_example =
    prefixed-Lists files tt (("read", tool "read") ∷ []) "read" 5 (tool "read") refl

abbrev both : CombinedToolset plain
both = record { id = none; toolsets = single "read" ∷ single "write" ∷ [] }

abbrev listed_tools : Map String (ToolsetTool plain)
listed_tools = ("write", tool "write") ∷ ("read", tool "read") ∷ []

both_tools : Combined.get_tools both tt ≡ ok listed_tools
unfolding Combined.get_tools Map.insert Map.get
both_tools = refl

get_tools-Answers_example : Answers tt "write" both (Map.get "write" listed_tools)
get_tools-Answers_example = get_tools-Answers tt "write" both listed_tools both_tools
