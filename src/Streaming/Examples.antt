-- ===== src/Streaming/Examples.antt =====
-- Runs of the parts manager, and the theorems about it at concrete inputs.
use serdes_ai.Prelude.{
  ◌≡◌, refl, true, false, Option, none, some, List, [], ◌∷◌, nat_beq, length, if◌then◌else◌, arith,
}
use serdes_ai.Prelude.Map
use serdes_ai.Prelude.Result.{ok, err}
use serdes_ai.Streaming.Text.{Text, find, slice_to, slice_from, slice_not_at_boundary}
use serdes_ai.Streaming.Part
use serdes_ai.Streaming.Part.{Json, Event, part_start, part_delta, text_delta, tool_call_delta}
use serdes_ai.Streaming.Manager.{Manager, Step, VendorId, same_id, get_or_create_part_index, new}
use serdes_ai.Streaming.View.{Succeeds, content_at}
use serdes_ai.Streaming.Correct.{new-IsValid}
use serdes_ai.Streaming.Session
use serdes_ai.Streaming.Session.{Call, run, run-new}
use serdes_ai.Streaming.Args.{HasCall, args_deltas, run-args}
use serdes_ai.Streaming.Tags.{TextDelta, find_partial_tag_suffix, handle_text_delta}
use serdes_ai.Streaming.Handlers.{emit_text_delta, handle_thinking_delta}
use serdes_ai.Streaming.Tags.Sound.{Ends, IsResult, handle_text_delta-Ends}
use serdes_ai.Streaming.Tags.Panics.{handle_text_delta-panics}

-- A text of two bytes, such as `{}`, is the only JSON document.
abbrev pairs : Json
pairs = record {
  Value = Text;
  Details = Unit;
  Binary = Unit;
  from_str = λ s. if nat_beq (length s) 2 then some s else none;
  to_string_or_default = λ v. v;
}

abbrev hi : Text
hi = 104 ∷ 105 ∷ []

abbrev deltas : List (Call pairs)
deltas =
    Session.text none hi none none true
    ∷ Session.thinking (some (VendorId.string "t")) (some hi) none none none none
    ∷ Session.text none hi none none false
    ∷ Session.tool_call none (some "f") (some hi) none none
    ∷ []

abbrev call : Part.ToolCallPart pairs
call = record {
  tool_name = "f";
  args = Part.string (123 ∷ []);
  tool_call_id = none;
  id = none;
  provider_details = none;
}

abbrev one_call : Manager pairs
one_call = record {
  parts = Part.ManagedPart.tool_call call ∷ [];
  vendor_id_to_index = (VendorId.string "a", 0) ∷ [];
  in_thinking = false;
  partial_tag_buffer = [];
}

one_call-HasCall : HasCall (VendorId.string "a") 0 (123 ∷ []) one_call
unfolding Map.get Part.args_from same_id
one_call-HasCall = record { index = refl; call = call; part = refl; args = refl }

run-args_example :
    Succeeds
      (λ m es.
        HasCall (VendorId.string "a") 0 (123 ∷ 125 ∷ []) m
        × (es ≡ part_delta 0 (tool_call_delta (125 ∷ [])) ∷ []))
      (run (args_deltas (VendorId.string "a") ((125 ∷ []) ∷ [])) one_call)
run-args_example =
    run-args (VendorId.string "a") 0 (123 ∷ []) ((125 ∷ []) ∷ []) one_call one_call-HasCall
      (refl, tt)

abbrev plain : TextDelta pairs
plain = record {
  vendor_part_id = none;
  id = none;
  provider_details = none;
  ignore_leading_whitespace = false;
}

-- `a<t>b</t>c`
abbrev tagged : Text
tagged = 97 ∷ 60 ∷ 116 ∷ 62 ∷ 98 ∷ 60 ∷ 47 ∷ 116 ∷ 62 ∷ 99 ∷ []

abbrev start_tag : Text
start_tag = 60 ∷ 116 ∷ 62 ∷ []

abbrev end_tag : Text
end_tag = 60 ∷ 47 ∷ 116 ∷ 62 ∷ []

handle_text_delta-Ends_example :
    Ends (IsResult new) (handle_text_delta plain (some (start_tag, end_tag)) tagged new)
handle_text_delta-Ends_example =
    handle_text_delta-Ends plain start_tag end_tag tagged new (omega arith) (omega arith)
      new-IsValid

contents : Option (Step pairs) → List (Option Text)
contents (some (ok (m, es))) = content_at m 0 ∷ content_at m 1 ∷ content_at m 2 ∷ []
contents _ = []

-- The text before the tag and the text after it belong to one part.
contents-tagged :
    contents (handle_text_delta plain (some (start_tag, end_tag)) tagged new)
    ≡ some (97 ∷ 99 ∷ []) ∷ some (98 ∷ []) ∷ none ∷ []
unfolding contents handle_text_delta find slice_to slice_from emit_text_delta
    get_or_create_part_index handle_thinking_delta Part.is_thinking Part.is_text
    find_partial_tag_suffix
contents-tagged = refl

find-none : find (99 ∷ 97 ∷ 102 ∷ 0xC3 ∷ 0xA9 ∷ []) start_tag ≡ none
unfolding find
find-none = refl

-- `caf` and an e with an acute accent, in two bytes.
handle_text_delta-panics_example :
    handle_text_delta plain (some (start_tag, end_tag)) (99 ∷ 97 ∷ 102 ∷ 0xC3 ∷ 0xA9 ∷ []) new
    ≡ some (err slice_not_at_boundary)
handle_text_delta-panics_example =
    handle_text_delta-panics plain start_tag end_tag new 99 (97 ∷ 102 ∷ 0xC3 ∷ []) 0xA9 refl
      (omega arith) refl refl find-none
