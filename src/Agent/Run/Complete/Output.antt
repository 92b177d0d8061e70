-- ===== src/Agent/Run/Complete/Output.antt =====
-- The output of a run.
use serdes_ai.Prelude.{ℕ, ◌≡◌, sym, ◌∙◌, ◌⊎◌, inl, inr, Option, some, List, [], ◌∷◌, ◌++◌}
use mathlib.Core.Path.{subst}
use serdes_ai.Prelude.Result.{ok}
use serdes_ai.Agent.Types.{Types, RunContext, ModelResponse, ModelRequest}
use serdes_ai.Agent.Limits.{UsageLimits}
use serdes_ai.Agent.State.{Agent, Runtime, State}
use serdes_ai.Agent.Run.Acted.{Acted, Validated, answered, refused, accepted, unchanged}
use serdes_ai.Agent.Run.Complete.{AgentRunResult, new, run_to_completion}
use serdes_ai.Agent.Run.Complete.Final.{run-Final, finalize-Taken}

abbrev pub Some : {A : Type 0} → (A → Type 0) → List A → Type 0
Some P [] = ⊥
Some P (x ∷ xs) = P x ⊎ Some P xs

Some-append : {A : Type 0} (P : A → Type 0) (xs ys : List A) → Some P xs → Some P (xs ++ ys)
Some-append P (x ∷ xs) ys (inl h) = inl h
Some-append P (x ∷ xs) ys (inr h) = inr (Some-append P xs ys h)
Some-append P [] ys h = absurd h

Some-push : {A : Type 0} (P : A → Type 0) (xs : List A) (y : A) → P y → Some P (xs ++ y ∷ [])
Some-push P [] y h = inl h
Some-push P (x ∷ xs) y h = inr (Some-push P xs y h)

module _ {t : Types} {W : Type 0} (a : Agent t W) (ctx : RunContext t) (rt : Runtime t W)
    (limits : Option UsageLimits) where
  -- The output so far, if there is one, is a validated output of one of the responses.
  abbrev Sound : State t W → Type 0
  Sound s =
      (output : t.Output)
      → s.final_output ≡ some output
      → Some (λ response. Validated a ctx rt response output) s.responses

  Sound-old :
      (s s' : State t W) (response : ModelResponse t)
      → Sound s
      → s'.responses ≡ s.responses ++ response ∷ []
      → s'.final_output ≡ s.final_output
      → Sound s'
  Sound-old s s' response h p e output q =
      rw p (Some-append _ s.responses (response ∷ []) (h output (sym e ∙ q)))

  Acted-Sound :
      (s s' : State t W) (response : ModelResponse t)
      → Sound s
      → s'.responses ≡ s.responses ++ response ∷ []
      → Acted a ctx rt response s s'
      → Sound s'
  Acted-Sound s s' response h p (answered calls found returns q k ex m e) =
      Sound-old s s' response h p e
  Acted-Sound s s' response h p (refused x v m e) = Sound-old s s' response h p e
  Acted-Sound s s' response h p (unchanged c m e) = Sound-old s s' response h p e
  Acted-Sound s s' response h p (accepted accept c v m e) = λ output q.
      let same : some accept ≡ some output = sym e ∙ q in
      rw p (Some-push _ s.responses response (subst (Validated a ctx rt response) (cc same) v))

  -- The output that a new run returns is what all the validators of the agent, each asked in its turn
  -- about what the one before it made, in some world make of a candidate to which a part of one of the
  -- responses is parsed: a text, or the arguments of a call of the output tool.
  pub run-Validated :
      (history : Option (List (ModelRequest t))) (prompt : t.UserContent) (w : W) (fuel : ℕ)
      (res : AgentRunResult t)
      → run_to_completion a ctx rt limits fuel (new a history prompt ctx w) ≡ some (ok res)
      → Some (λ response. Validated a ctx rt response res.output) res.responses
  unfolding new
  run-Validated history prompt w fuel res e =
      let (s, sound, end) =
        run-Final a ctx rt limits Sound
          (λ s s' h turn. Acted-Sound s s' turn.response h turn.pushed turn.acted) fuel
          (new a history prompt ctx w) (λ output q. absurd (cc q)) e in
      let taken = finalize-Taken a ctx rt limits s end in rw (← taken.2) (sound res.output taken.0)
