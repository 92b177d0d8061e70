-- ===== src/Agent/Run/Judged.antt =====
-- The validators of an output, `AgentRun::validate_output` of serdes-ai-agent/src/run.rs.
use serdes_ai.Prelude.{◌≡◌, inl, inr, List, [], ◌∷◌}
use mathlib.Core.Path.{subst}
use serdes_ai.Prelude.Result.{Result, ok, err, Result-cases}
use serdes_ai.Agent.Types.{Types, RunContext, OutputValidationError}
use serdes_ai.Agent.State.{Agent}
use serdes_ai.Agent.Run.{validate_by, validate_output}

abbrev pub Validator : Types → Type 0 → Type 0
Validator t W = t.Output → RunContext t → W → Result t.Output OutputValidationError × W

module _ {t : Types} {W : Type 0} (ctx : RunContext t) where
  -- Each of the validators is asked in its turn about what the one before has made of a candidate, in
  -- the world that it left; the first that refuses ends it, with its reason.
  pub data Judged
      : List (Validator t W) → t.Output → W → Result t.Output OutputValidationError → Type 0 where
    passed : (output : t.Output) (w : W) → Judged [] output w (ok output)
    accepts :
        (validator : Validator t W) (validators : List (Validator t W)) (output changed : t.Output)
        (w : W) (r : Result t.Output OutputValidationError)
        → (validator output ctx w).0 ≡ ok changed
        → Judged validators changed ((validator output ctx w).1) r
        → Judged (validator ∷ validators) output w r
    refuses :
        (validator : Validator t W) (validators : List (Validator t W)) (output : t.Output) (w : W)
        (e : OutputValidationError)
        → (validator output ctx w).0 ≡ err e
        → Judged (validator ∷ validators) output w (err e)

module _ {t : Types} {W : Type 0} (a : Agent t W) (ctx : RunContext t) where
  validate_by-Judged :
      (validators : List (Validator t W)) (output : t.Output) (w : W)
      → Judged ctx validators output w ((validate_by a ctx validators output w).0)
  unfolding validate_by
  validate_by-Judged [] output w = passed output w
  validate_by-Judged (v ∷ vs) output w = elim (Result-cases ((v output ctx w).0)) [
    | inl (changed, e) ↦
        rw (e, validate_by)
          (accepts v vs output changed w _ e (validate_by-Judged vs changed ((v output ctx w).1)))
    | inr (x, e) ↦ rw (e, validate_by) (refuses v vs output w x e)
  ]

  pub validate_output-Judged :
      (output : t.Output) (w : W) {r : Result t.Output OutputValidationError}
      → (validate_output a ctx output w).0 ≡ r
      → Judged ctx a.output_validators output w r
  unfolding validate_output
  validate_output-Judged output w e =
      subst (Judged ctx a.output_validators output w) e
        (validate_by-Judged a.output_validators output w)
