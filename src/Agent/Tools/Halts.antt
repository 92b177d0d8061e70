-- ===== src/Agent/Tools/Halts.antt =====
-- Tool calls, of serdes-ai-agent/src/run.rs, that do not hang.
use serdes_ai.Prelude.{
  ℕ, zero, suc, ◌≢◌, refl, Bool, true, false, Option, none, some, List, [], ◌∷◌, if◌then◌else◌,
}
use serdes_ai.Prelude.Result.{Result, ok, err}
use serdes_ai.Streaming.Part.{ToolCallPart}
use serdes_ai.Repair.{Fault, to_json}
use serdes_ai.Agent.Types.{Types, RunContext}
use serdes_ai.Agent.State.{
  RegisteredTool, Agent, Runtime, State, failed, panics, hangs, Outcome, M, and_then, no_fault,
  find_tool,
}
use serdes_ai.Agent.Tools.{
  CallFuture, is_cancelled, run_found, run_unless, execute_tools_sequential, start_all, record_all,
  join_limited, execute_tools_parallel, execute_tool_calls,
}

module _ {t : Types} {W : Type 0} where
  -- The outcome is there: a value, an error or a panic.
  abbrev pub Halts : {A : Type 0} → Outcome t W A → Type 0
  Halts (ok x, s) = Unit
  Halts (err (failed e), s) = Unit
  Halts (err panics, s) = Unit
  Halts (err hangs, s) = ⊥

  pub and_then-Halts :
      {A B : Type 0} (o : Outcome t W A) (k : A → M t W B)
      → Halts o
      → ((x : A) (s : State t W) → Halts (k x s))
      → Halts (and_then o k)
  and_then-Halts (ok x, s) k h rest = rest x s
  and_then-Halts (err (failed e), s) k h rest = tt
  and_then-Halts (err panics, s) k h rest = tt
  and_then-Halts (err hangs, s) k h rest = absurd h

  pub no_fault-Halts : {A : Type 0} (r : Result A Fault) (s : State t W) → Halts (no_fault r s)
  no_fault-Halts (ok x) s = tt
  no_fault-Halts (err e) s = tt

  module _ (a : Agent t W) (rt : Runtime t W) (ctx : RunContext t) where
    run_found-Halts :
        (o : Option (RegisteredTool t W)) (tc : ToolCallPart t.json) (s : State t W)
        → Halts (run_found a rt ctx o tc s)
    unfolding run_found
    run_found-Halts none tc s = tt
    run_found-Halts (some tool) tc s =
        and_then-Halts (no_fault (to_json t.objects tc.args) s) _
          (no_fault-Halts (to_json t.objects tc.args) s) λ args s'. tt

    run_unless-Halts :
        (b : Bool) (tc : ToolCallPart t.json) (s : State t W) → Halts (run_unless a rt ctx b tc s)
    unfolding run_unless
    run_unless-Halts true tc s = tt
    run_unless-Halts false tc s = run_found-Halts (find_tool a.tools tc.tool_name) tc _

    sequential-Halts :
        (calls : List (ToolCallPart t.json)) (s : State t W)
        → Halts (execute_tools_sequential a rt ctx calls s)
    unfolding execute_tools_sequential
    sequential-Halts [] s = tt
    sequential-Halts (tc ∷ calls) s =
        and_then-Halts (run_unless a rt ctx (is_cancelled a rt ctx s) tc s) _
          (run_unless-Halts (is_cancelled a rt ctx s) tc s)
          λ result s'.
            and_then-Halts (execute_tools_sequential a rt ctx calls s') _
              (sequential-Halts calls s') λ returns s''. tt

    record_all-Halts :
        (calls : List (ToolCallPart t.json)) (s : State t W) → Halts (record_all a rt ctx calls s)
    unfolding record_all
    record_all-Halts [] s = tt
    record_all-Halts (tc ∷ calls) s = record_all-Halts calls _

    start_all-Halts :
        (calls : List (ToolCallPart t.json)) (s : State t W) → Halts (start_all a rt ctx calls s)
    unfolding start_all
    start_all-Halts [] s = tt
    start_all-Halts (tc ∷ calls) s =
        and_then-Halts (no_fault (to_json t.objects tc.args) s) _
          (no_fault-Halts (to_json t.objects tc.args) s)
          λ args s'.
            and_then-Halts (start_all a rt ctx calls s') _ (start_all-Halts calls s') λ fs s''. tt

    join_limited-Halts :
        (max : Option ℕ) (fs : List (CallFuture t W)) (s : State t W)
        → max ≢ some 0
        → Halts (join_limited a rt ctx max fs s)
    unfolding join_limited
    join_limited-Halts none fs s h = tt
    join_limited-Halts (some zero) fs s h = absurd (h refl)
    join_limited-Halts (some (suc n)) fs s h = tt

    parallel-Halts :
        (calls : List (ToolCallPart t.json)) (s : State t W)
        → a.max_concurrent_tools ≢ some 0
        → Halts (execute_tools_parallel a rt ctx calls s)
    unfolding execute_tools_parallel
    parallel-Halts calls s h =
        and_then-Halts (record_all a rt ctx calls s) _ (record_all-Halts calls s) λ u s'.
          and_then-Halts (start_all a rt ctx calls s') _ (start_all-Halts calls s')
            λ fs s''. join_limited-Halts a.max_concurrent_tools fs s'' h

    pub execute_tool_calls-Halts :
        (calls : List (ToolCallPart t.json)) (s : State t W)
        → a.max_concurrent_tools ≢ some 0
        → Halts (execute_tool_calls a rt ctx calls s)
    unfolding execute_tool_calls
    execute_tool_calls-Halts calls s h =
        elim a.parallel_tool_calls
          as (λ b. Halts (
            (if b
                then execute_tools_parallel a rt ctx calls
                else execute_tools_sequential a rt ctx calls)
              s)) [ true ↦ parallel-Halts calls s h | false ↦ sequential-Halts calls s ]
