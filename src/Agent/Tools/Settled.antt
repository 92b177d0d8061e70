-- ===== src/Agent/Tools/Settled.antt =====
-- The futures of tool calls, of serdes-ai-agent/src/run.rs, whose tools do not depend on the world.
use serdes_ai.Prelude.{ℕ, zero, suc, ◌≡◌, refl, ap, ◌∙◌, true, false, List, [], ◌∷◌, if◌then◌else◌}
use serdes_ai.Prelude.Result.{ok, err}
use serdes_ai.Agent.Types.{Types, RunContext, is_retryable_tool_error}
use serdes_ai.Agent.State.{RegisteredTool}
use serdes_ai.Agent.Tools.{
  Returned, ToolResult, CallFuture, Progress, done, running, after_attempt, execute_with_retries,
  attempted, poll, poll_at, run_schedule, finish, finish_all, join_all,
}

module _ {t : Types} {W : Type 0} where
  -- The executor gives the result in every world and leaves the world alone.
  abbrev pub Gives : RegisteredTool t W → t.json.Value → RunContext t → ToolResult t → Type 0
  Gives tool args ctx r = (w : W) → tool.execute args ctx w ≡ (r, w)

  after_attempt-same :
      (again : W → ToolResult t × W) (r : ToolResult t) (w : W)
      → again w ≡ (r, w)
      → after_attempt again (r, w) ≡ (r, w)
  unfolding after_attempt
  after_attempt-same again (ok x) w h = refl
  after_attempt-same again (err e) w h =
      elim (is_retryable_tool_error e) as (λ b. (if b then again w else (err e, w)) ≡ (err e, w)) [
        | true ↦ h
        | false ↦ refl
      ]

  pub retries-same :
      (left : ℕ) (tool : RegisteredTool t W) (args : t.json.Value) (ctx : RunContext t)
      (r : ToolResult t) (w : W)
      → Gives tool args ctx r
      → execute_with_retries left tool args ctx w ≡ (r, w)
  unfolding execute_with_retries
  retries-same zero tool args ctx r w g = g w
  retries-same (suc left) tool args ctx r w g =
      ap (after_attempt (execute_with_retries left tool args ctx)) (g w)
      ∙ after_attempt-same (execute_with_retries left tool args ctx) r w
          (retries-same left tool args ctx r w g)

  -- The future comes to the result, whatever else runs.
  abbrev pub Settles : Progress t W → ToolResult t → Type 0
  Settles (done r') r = r' ≡ r
  Settles (running left tool args ctx) r = Gives tool args ctx r

  attempted-Settles :
      (left : ℕ) (tool : RegisteredTool t W) (args : t.json.Value) (ctx : RunContext t)
      (r : ToolResult t) (w : W)
      → Gives tool args ctx r
      → Settles ((attempted left tool args ctx (r, w)).0) r
        × ((attempted left tool args ctx (r, w)).1 ≡ w)
  unfolding attempted
  attempted-Settles left tool args ctx (ok x) w g = (refl, refl)
  attempted-Settles zero tool args ctx (err e) w g = (refl, refl)
  attempted-Settles (suc left) tool args ctx (err e) w g =
      elim (is_retryable_tool_error e)
        as (λ b.
          let o : Progress t W × W =
            if b then (running left tool args ctx, w) else (done (err e), w) in
          Settles (o.0) (err e) × (o.1 ≡ w)) [ true ↦ (g, refl) | false ↦ (refl, refl) ]

  poll-Settles :
      (p : Progress t W) (r : ToolResult t) (w : W)
      → Settles p r
      → Settles ((poll p w).0) r × ((poll p w).1 ≡ w)
  unfolding poll
  poll-Settles (done r') r w h = (h, refl)
  poll-Settles (running left tool args ctx) r w g =
      rw (g w) (attempted-Settles left tool args ctx r w g)

  finish-Settles : (p : Progress t W) (r : ToolResult t) (w : W) → Settles p r → finish p w ≡ (r, w)
  unfolding finish
  finish-Settles (done r') r w h = ap (λ x. (x, w)) h
  finish-Settles (running left tool args ctx) r w g = retries-same left tool args ctx r w g

  -- Each of the futures comes to the result that stands at its place, with its name and ID.
  abbrev pub AllSettle : List (CallFuture t W) → List (Returned t) → Type 0
  AllSettle [] [] = Unit
  AllSettle ((name, id, p) ∷ fs) ((name', id', r) ∷ rs) =
      (name ≡ name') × (id ≡ id') × Settles p r × AllSettle fs rs
  AllSettle fs rs = ⊥

  poll_at-AllSettle :
      (i : ℕ) (fs : List (CallFuture t W)) (rs : List (Returned t)) (w : W)
      → AllSettle fs rs
      → AllSettle ((poll_at i fs w).0) rs × ((poll_at i fs w).1 ≡ w)
  unfolding poll_at
  poll_at-AllSettle i [] [] w h = (h, refl)
  poll_at-AllSettle i [] (r ∷ rs) w h = absurd h
  poll_at-AllSettle i (f ∷ fs) [] w h = absurd h
  poll_at-AllSettle zero ((name, id, p) ∷ fs) ((name', id', r) ∷ rs) w (n, d, s, h) =
      let (s', e) = poll-Settles p r w s in ((n, d, s', h), e)
  poll_at-AllSettle (suc i) ((name, id, p) ∷ fs) ((name', id', r) ∷ rs) w (n, d, s, h) =
      let (h', e) = poll_at-AllSettle i fs rs w h in ((n, d, s, h'), e)

  run_schedule-AllSettle :
      (schedule : List ℕ) (fs : List (CallFuture t W)) (rs : List (Returned t)) (w : W)
      → AllSettle fs rs
      → AllSettle ((run_schedule schedule fs w).0) rs × ((run_schedule schedule fs w).1 ≡ w)
  unfolding run_schedule
  run_schedule-AllSettle [] fs rs w h = (h, refl)
  run_schedule-AllSettle (i ∷ schedule) fs rs w h =
      let (h', e) = poll_at-AllSettle i fs rs w h in
      let (h'', e') =
        run_schedule-AllSettle schedule ((poll_at i fs w).0) rs ((poll_at i fs w).1) h' in
      (h'', e' ∙ e)

  finish_all-AllSettle :
      (fs : List (CallFuture t W)) (rs : List (Returned t)) (w : W)
      → AllSettle fs rs
      → finish_all fs w ≡ (rs, w)
  unfolding finish_all
  finish_all-AllSettle [] [] w h = refl
  finish_all-AllSettle [] (r ∷ rs) w h = absurd h
  finish_all-AllSettle (f ∷ fs) [] w h = absurd h
  finish_all-AllSettle ((name, id, p) ∷ fs) ((name', id', r) ∷ rs) w (n, d, s, h) =
      rw (finish-Settles p r w s, finish_all-AllSettle fs rs w h, n, d) refl

  pub join_all-AllSettle :
      (schedule : List ℕ) (fs : List (CallFuture t W)) (rs : List (Returned t)) (w : W)
      → AllSettle fs rs
      → join_all schedule fs w ≡ (rs, w)
  unfolding join_all
  join_all-AllSettle schedule fs rs w h =
      let (h', e) = run_schedule-AllSettle schedule fs rs w h in
      finish_all-AllSettle ((run_schedule schedule fs w).0) rs ((run_schedule schedule fs w).1) h'
      ∙ ap (λ w'. (rs, w')) e
