-- ===== src/Streaming/Args.antt =====
-- How the arguments of a tool call grow from one delta to the next
-- (`handle_tool_call_delta` in serdes-ai-streaming/src/parts_manager.rs).
use serdes_ai.Prelude.{
  ℕ, ◌≡◌, ◌∙◌, refl, sym, false, none, some, List, [], ◌∷◌, ◌++◌, append_assoc, append-nil,
  get_elem?, get_elem?-set, get_elem?-some, arith, map,
}
use serdes_ai.Prelude.Map
use serdes_ai.Prelude.Result.{ok}
use serdes_ai.Streaming.Part.{
  Json, ManagedPart, ToolCallPart, args_from, args_text, part_delta, tool_call_delta, is_tool_call,
}
use serdes_ai.Streaming.Text.{Text}
use serdes_ai.Streaming.Manager.{VendorId, Manager, set_part, known_index, vendor_key}
use serdes_ai.Streaming.Handlers.{
  handle_tool_call_delta, update_tool_call, extend_call, update_call, opened, tool_kind,
}
use serdes_ai.Streaming.Valid.{found, at_index-some}
use serdes_ai.Streaming.View.{Succeeds, succeeds}
use serdes_ai.Streaming.Session
use serdes_ai.Streaming.Session.{Call, run, apply, after}

abbrev pub joined : List Text → Text
joined [] = []
joined (d ∷ ds) = d ++ joined ds

-- No text is a JSON document before the last delta has come.
abbrev pub IsUnfinished : Json → Text → List Text → Type 0
IsUnfinished j s [] = Unit
IsUnfinished j s (d ∷ ds) = (j.from_str s ≡ none) × IsUnfinished j (s ++ d) ds

args_text-from : (j : Json) (s : Text) → j.from_str s ≡ none → args_text {j = j} (args_from s) ≡ s
unfolding args_text args_from
args_text-from j s e = ground (arith, e)

module _ {j : Json} where
  -- The deltas of one call: they name the part by the vendor's ID and hold arguments alone.
  abbrev pub args_deltas : VendorId → List Text → List (Call j)
  args_deltas vid ds = map (λ d. Session.tool_call (some vid) none (some d) none none) ds

  -- A manager that has a call with the arguments of `s` at the index of a vendor's ID.
  pub record HasCall (vid : VendorId) (i : ℕ) (s : Text) (m : Manager j) : Type 0 where
    pub index : Map.get vid m.vendor_id_to_index ≡ some i
    pub call : ToolCallPart j
    pub part : get_elem? m.parts i ≡ some (ManagedPart.tool_call call)
    pub args : call.args ≡ args_from s

  known :
      (vid : VendorId) (m : Manager j)
      → known_index (some vid) is_tool_call m ≡ Map.get vid m.vendor_id_to_index
  unfolding known_index
  known vid m = refl

  args_delta-eq :
      (vid : VendorId) (i : ℕ) (d : Text) (m : Manager j) (p : ToolCallPart j)
      → Map.get vid m.vendor_id_to_index ≡ some i
      → get_elem? m.parts i ≡ some (ManagedPart.tool_call p)
      → apply (Session.tool_call (some vid) none (some d) none none) m
        ≡ ok (
          set_part i (ManagedPart.tool_call (extend_call (some d) none none p)) m,
          part_delta i (tool_call_delta d) ∷ [],
        )
  unfolding apply handle_tool_call_delta update_tool_call update_call
  args_delta-eq vid i d m p e h =
      rw
        (found m (some vid) is_tool_call (tool_kind.accumulating (opened none none)) i
          (known vid m ∙ e))
        (at_index-some m i false (update_tool_call none (some d) none none)
          (ManagedPart.tool_call p) h)

  args_delta-HasCall :
      (vid : VendorId) (i : ℕ) (s d : Text) (m : Manager j)
      → j.from_str s ≡ none
      → (h : HasCall vid i s m)
      → HasCall vid i
          (s ++ d)
          (set_part i (ManagedPart.tool_call (extend_call (some d) none none h.call)) m)
  unfolding extend_call
  args_delta-HasCall vid i s d m e h = record {
    index = h.index;
    call = extend_call (some d) none none h.call;
    part = ground (
      arith,
      get_elem?-set m.parts i i (ManagedPart.tool_call (extend_call (some d) none none h.call))
          (get_elem?-some m.parts i h.part),
    );
    args = rw (h.args, args_text-from j s e) refl;
  }

  -- The arguments of a call come in pieces to the part that the vendor's ID names. If no text is a
  -- JSON document before the last piece, the call has in the end the arguments of the whole text, and
  -- every piece is announced as it came.
  pub run-args :
      (vid : VendorId) (i : ℕ) (s : Text) (ds : List Text) (m : Manager j)
      → HasCall vid i s m
      → IsUnfinished j s ds
      → Succeeds
          (λ m' es.
            HasCall vid i (s ++ joined ds) m'
            × (es ≡ map (λ d. part_delta i (tool_call_delta d)) ds))
          (run (args_deltas vid ds) m)
  unfolding run
  run-args vid i s [] m h u = succeeds (rw append-nil h, refl)
  run-args vid i s (d ∷ ds) m h u = rw (args_delta-eq vid i d m h.call h.index h.part) (
      after (part_delta i (tool_call_delta d) ∷ [])
        (λ m' es r. (rw (sym (append_assoc s d (joined ds))) r.0, rw r.1 refl))
        (run-args vid i (s ++ d) ds _ (args_delta-HasCall vid i s d m u.0 h) u.1))
