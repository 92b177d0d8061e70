-- ===== src/Agent/Tools/Keeps.antt =====
-- The execution of tool calls changes the count of tool calls and the world, and nothing else of a
-- run; its results stand in the order of the calls.
use serdes_ai.Prelude.{
  ℕ, zero, suc, ◌≡◌, refl, ap, ◌∙◌, String, Bool, true, false, Option, none, some, List, [], ◌∷◌,
  map, if◌then◌else◌,
}
use serdes_ai.Prelude.Result.{Result, ok, err}
use serdes_ai.Streaming.Part.{Json, ToolCallPart}
use serdes_ai.Repair.{Fault, to_json}
use serdes_ai.Agent.Types.{Types, RunContext, FinishReason, ModelResponse, ModelRequest}
use serdes_ai.Agent.Limits.{record_tool_call}
use serdes_ai.Agent.State.{
  RegisteredTool, Agent, Runtime, State, Outcome, M, and_then, ◌>>=◌, no_fault, find_tool,
}
use serdes_ai.Agent.Tools.{
  CallFuture, one_more_call, is_cancelled, run_found, run_unless, execute_tools_sequential, poll_at,
  run_schedule, finish_all, join_all, start_all, record_all, join_limited, execute_tools_parallel,
  execute_tool_calls,
}

-- The names and IDs of calls, and of results
abbrev pub call_keys : {j : Json} → List (ToolCallPart j) → List (String × Option String)
call_keys = map (λ tc. (tc.tool_name, tc.tool_call_id))

abbrev pub keys : {A : Type 0} → List (String × Option String × A) → List (String × Option String)
keys = map (λ r. (r.0, r.1))

module _ {t : Types} {W : Type 0} where
  -- What a run's tools leave alone
  abbrev pub core :
      State t W
      → List (ModelRequest t)
        × List (ModelResponse t)
        × ℕ
        × Option t.Output
        × Bool
        × Option FinishReason
        × ℕ
  core s = (
    s.messages, s.responses, s.output_retries, s.final_output, s.finished, s.finish_reason,
    s.usage.request_count,
  )

  abbrev pub Keeps : {A : Type 0} → M t W A → Type 0
  Keeps m = (s : State t W) → core ((m s).1) ≡ core s

  and_then-Keeps :
      {A B : Type 0} (o : Outcome t W A) (k : A → M t W B) (s : State t W)
      → core (o.1) ≡ core s
      → ((a : A) → Keeps (k a))
      → core ((and_then o k).1) ≡ core s
  and_then-Keeps (ok a, s') k s e h = h a s' ∙ e
  and_then-Keeps (err f, s') k s e h = e

  pub bind-Keeps :
      {A B : Type 0} (m : M t W A) (k : A → M t W B)
      → Keeps m
      → ((a : A) → Keeps (k a))
      → Keeps (m >>= k)
  bind-Keeps m k hm hk s = and_then-Keeps (m s) k s (hm s) hk

  no_fault-Keeps : {A : Type 0} (r : Result A Fault) → Keeps (no_fault r)
  no_fault-Keeps (ok a) s = refl
  no_fault-Keeps (err e) s = refl

  one_more_call-core : (s : State t W) → core (one_more_call s) ≡ core s
  unfolding one_more_call record_tool_call
  one_more_call-core s = refl

  -- What an outcome holds, if it is a result.
  abbrev pub OnOk : {A : Type 0} → (A → Type 0) → Outcome t W A → Type 0
  OnOk P (ok a, s) = P a
  OnOk P (err e, s) = Unit

  pub and_then-OnOk :
      {A B : Type 0} (Q : A → Type 0) (P : B → Type 0) (o : Outcome t W A) (k : A → M t W B)
      → OnOk Q o
      → ((a : A) (s : State t W) → Q a → OnOk P (k a s))
      → OnOk P (and_then o k)
  and_then-OnOk Q P (ok a, s') k q h = h a s' q
  and_then-OnOk Q P (err f, s') k q h = tt

  OnOk-trans :
      {A X : Type 0} (f : A → X) {x y : X} (o : Outcome t W A)
      → x ≡ y
      → OnOk (λ a. f a ≡ x) o
      → OnOk (λ a. f a ≡ y) o
  OnOk-trans f (ok a, s) e h = h ∙ e
  OnOk-trans f (err e', s) e h = tt

  OnOk-any : {A : Type 0} (o : Outcome t W A) → OnOk (λ a. Unit) o
  OnOk-any (ok a, s) = tt
  OnOk-any (err e, s) = tt

  module _ (a : Agent t W) (rt : Runtime t W) (ctx : RunContext t) where
    run_found-Keeps :
        (o : Option (RegisteredTool t W)) (tc : ToolCallPart t.json)
        → Keeps (run_found a rt ctx o tc)
    unfolding run_found
    run_found-Keeps none tc s = refl
    run_found-Keeps (some tool) tc s =
        bind-Keeps (no_fault (to_json t.objects tc.args)) _
          (no_fault-Keeps (to_json t.objects tc.args)) (λ args s'. refl) s

    run_unless-Keeps : (b : Bool) (tc : ToolCallPart t.json) → Keeps (run_unless a rt ctx b tc)
    unfolding run_unless
    run_unless-Keeps true tc s = refl
    run_unless-Keeps false tc s =
        run_found-Keeps (find_tool a.tools tc.tool_name) tc (one_more_call s) ∙ one_more_call-core s

    sequential-Keeps :
        (calls : List (ToolCallPart t.json)) → Keeps (execute_tools_sequential a rt ctx calls)
    unfolding execute_tools_sequential
    sequential-Keeps [] s = refl
    sequential-Keeps (tc ∷ calls) s =
        bind-Keeps (run_unless a rt ctx (is_cancelled a rt ctx s) tc) _
          (run_unless-Keeps (is_cancelled a rt ctx s) tc)
          (λ result.
            bind-Keeps (execute_tools_sequential a rt ctx calls) _ (sequential-Keeps calls)
              λ returns s'. refl)
          s

    sequential-keys :
        (calls : List (ToolCallPart t.json)) (s : State t W)
        → OnOk (λ rs. keys rs ≡ call_keys calls) (execute_tools_sequential a rt ctx calls s)
    unfolding execute_tools_sequential
    sequential-keys [] s = refl
    sequential-keys (tc ∷ calls) s =
        and_then-OnOk (λ r. Unit) _ (run_unless a rt ctx (is_cancelled a rt ctx s) tc s) _
          (OnOk-any _)
          λ result s' u.
            and_then-OnOk (λ rs. keys rs ≡ call_keys calls) _
              (execute_tools_sequential a rt ctx calls s') _ (sequential-keys calls s')
              λ returns s'' e. ap (λ ks. (tc.tool_name, tc.tool_call_id) ∷ ks) e

    record_all-Keeps : (calls : List (ToolCallPart t.json)) → Keeps (record_all a rt ctx calls)
    unfolding record_all
    record_all-Keeps [] s = refl
    record_all-Keeps (tc ∷ calls) s =
        record_all-Keeps calls (one_more_call s) ∙ one_more_call-core s

    start_all-Keeps : (calls : List (ToolCallPart t.json)) → Keeps (start_all a rt ctx calls)
    unfolding start_all
    start_all-Keeps [] s = refl
    start_all-Keeps (tc ∷ calls) s =
        bind-Keeps (no_fault (to_json t.objects tc.args)) _
          (no_fault-Keeps (to_json t.objects tc.args))
          (λ args. bind-Keeps (start_all a rt ctx calls) _ (start_all-Keeps calls) λ fs s'. refl) s

    start_all-keys :
        (calls : List (ToolCallPart t.json)) (s : State t W)
        → OnOk (λ fs. keys fs ≡ call_keys calls) (start_all a rt ctx calls s)
    unfolding start_all
    start_all-keys [] s = refl
    start_all-keys (tc ∷ calls) s =
        and_then-OnOk (λ r. Unit) _ (no_fault (to_json t.objects tc.args) s) _ (OnOk-any _)
          λ args s' u.
            and_then-OnOk (λ fs. keys fs ≡ call_keys calls) _ (start_all a rt ctx calls s') _
              (start_all-keys calls s')
              λ fs s'' e. ap (λ ks. (tc.tool_name, tc.tool_call_id) ∷ ks) e

    poll_at-keys :
        (i : ℕ) (fs : List (CallFuture t W)) (w : W) → keys ((poll_at i fs w).0) ≡ keys fs
    unfolding poll_at
    poll_at-keys i [] w = refl
    poll_at-keys zero ((name, id, p) ∷ fs) w = refl
    poll_at-keys (suc i) ((name, id, p) ∷ fs) w = ap (λ ks. (name, id) ∷ ks) (poll_at-keys i fs w)

    run_schedule-keys :
        (schedule : List ℕ) (fs : List (CallFuture t W)) (w : W)
        → keys ((run_schedule schedule fs w).0) ≡ keys fs
    unfolding run_schedule
    run_schedule-keys [] fs w = refl
    run_schedule-keys (i ∷ schedule) fs w =
        run_schedule-keys schedule ((poll_at i fs w).0) ((poll_at i fs w).1) ∙ poll_at-keys i fs w

    finish_all-keys : (fs : List (CallFuture t W)) (w : W) → keys ((finish_all fs w).0) ≡ keys fs
    unfolding finish_all
    finish_all-keys [] w = refl
    finish_all-keys ((name, id, p) ∷ fs) w = ap (λ ks. (name, id) ∷ ks) (finish_all-keys fs _)

    join_all-keys :
        (schedule : List ℕ) (fs : List (CallFuture t W)) (w : W)
        → keys ((join_all schedule fs w).0) ≡ keys fs
    unfolding join_all
    join_all-keys schedule fs w =
        finish_all-keys ((run_schedule schedule fs w).0) ((run_schedule schedule fs w).1)
        ∙ run_schedule-keys schedule fs w

    join_limited-keys :
        (max : Option ℕ) (fs : List (CallFuture t W)) (s : State t W)
        → OnOk (λ rs. keys rs ≡ keys fs) (join_limited a rt ctx max fs s)
    unfolding join_limited
    join_limited-keys none fs s = join_all-keys (rt.schedule s.world) fs s.world
    join_limited-keys (some zero) [] s = join_all-keys (rt.schedule s.world) [] s.world
    join_limited-keys (some zero) (f ∷ fs) s = tt
    join_limited-keys (some (suc n)) fs s = join_all-keys (rt.schedule s.world) fs s.world

    join_limited-Keeps :
        (max : Option ℕ) (fs : List (CallFuture t W)) → Keeps (join_limited a rt ctx max fs)
    unfolding join_limited
    join_limited-Keeps none fs s = refl
    join_limited-Keeps (some zero) [] s = refl
    join_limited-Keeps (some zero) (f ∷ fs) s = refl
    join_limited-Keeps (some (suc n)) fs s = refl

    parallel-Keeps :
        (calls : List (ToolCallPart t.json)) → Keeps (execute_tools_parallel a rt ctx calls)
    unfolding execute_tools_parallel
    parallel-Keeps calls = bind-Keeps (record_all a rt ctx calls) _ (record_all-Keeps calls) λ u.
        bind-Keeps (start_all a rt ctx calls) _ (start_all-Keeps calls)
          λ fs. join_limited-Keeps a.max_concurrent_tools fs

    parallel-keys :
        (calls : List (ToolCallPart t.json)) (s : State t W)
        → OnOk (λ rs. keys rs ≡ call_keys calls) (execute_tools_parallel a rt ctx calls s)
    unfolding execute_tools_parallel
    parallel-keys calls s =
        and_then-OnOk (λ u. Unit) _ (record_all a rt ctx calls s) _ (OnOk-any _)
          λ u s' _.
            and_then-OnOk (λ fs. keys fs ≡ call_keys calls) _ (start_all a rt ctx calls s') _
              (start_all-keys calls s')
              λ fs s'' e. OnOk-trans keys _ e (join_limited-keys a.max_concurrent_tools fs s'')

    pub execute_tool_calls-Keeps :
        (calls : List (ToolCallPart t.json)) → Keeps (execute_tool_calls a rt ctx calls)
    unfolding execute_tool_calls
    execute_tool_calls-Keeps calls =
        elim a.parallel_tool_calls
          as (λ b. Keeps (
            if b
            then execute_tools_parallel a rt ctx calls
            else execute_tools_sequential a rt ctx calls)) [
              | true ↦ parallel-Keeps calls
              | false ↦ sequential-Keeps calls
            ]

    -- The results have the names and IDs of the calls, in the same order.
    pub execute_tool_calls-keys :
        (calls : List (ToolCallPart t.json)) (s : State t W)
        → OnOk (λ rs. keys rs ≡ call_keys calls) (execute_tool_calls a rt ctx calls s)
    unfolding execute_tool_calls
    execute_tool_calls-keys calls s =
        elim a.parallel_tool_calls
          as (λ b.
            OnOk (λ rs. keys rs ≡ call_keys calls)
              ((if b
                  then execute_tools_parallel a rt ctx calls
                  else execute_tools_sequential a rt ctx calls)
                s)) [ true ↦ parallel-keys calls s | false ↦ sequential-keys calls s ]
