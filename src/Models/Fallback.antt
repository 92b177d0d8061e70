-- ===== src/Models/Fallback.antt =====
-- `FallbackModel` of serdes-ai-models/src/fallback.rs over the `Model` trait of src/model.rs. A
-- request stands for the messages, the settings and the parameters, which are passed on unchanged.
-- A stream is the list of its events, read one by one. The chain calls each of its models at most
-- once. Profiles are left out.
pub mod Outcome
pub mod Stream
use serdes_ai.Prelude.{
  ℕ, suc, ◌+◌, ◌%◌, String, Bool, true, false, not, ◌&&◌, Option, none, some, List, [], ◌∷◌, ◌++◌,
  length, nat_beq,
}
use serdes_ai.Prelude.Result.{Result, ok, err}
use serdes_ai.Prelude.Words.{u32_mod}
use serdes_ai.Models.Failure.{ModelFailure}
use serdes_ai.Models.Error.{
  Foreign, ModelError, Texts, configuration, fallback_exhausted, model_failure,
  is_rate_limited_error, is_transient_error,
}

abbrev pub StreamedResponse : Foreign → Type 0 → Type 0
StreamedResponse x Event = List (Result Event (ModelError x))

pub record Model (x : Foreign) (Request Response Event : Type 0) : Type 0 where
  pub system : String
  pub identifier : String
  pub request : Request → Result Response (ModelError x)
  pub request_stream : Request → Result (StreamedResponse x Event) (ModelError x)

pub data RetryOn : Type 0 where
  any_error : RetryOn
  rate_limits : RetryOn
  transient : RetryOn

pub record FallbackModel (x : Foreign) (Request Response Event : Type 0) : Type 0 where
  pub models : List (Model x Request Response Event)
  pub retry_on : RetryOn

-- The error, where it is the only one.
abbrev report : {x : Foreign} → List ModelFailure → ModelError x → ModelError x
report (failure ∷ []) error = error
report attempts error = fallback_exhausted attempts error

-- `stream.next()`: an error in front counts as the model's, and an event is put back.
pub first_event :
    {x : Foreign} {Event : Type 0}
    → Result (StreamedResponse x Event) (ModelError x)
    → Result (StreamedResponse x Event) (ModelError x)
first_event (err error) = err error
first_event (ok []) = ok []
first_event (ok (err error ∷ rest)) = err error
first_event (ok (ok event ∷ rest)) = ok (ok event ∷ rest)

module _ {x : Foreign} (t : Texts x) where
  abbrev pub should_retry : RetryOn → ModelError x → Bool
  should_retry any_error error = true
  should_retry rate_limits error = is_rate_limited_error t error
  should_retry transient error = is_transient_error t error

  or_system : Option String → String → Option String
  or_system none system = some system
  or_system (some provider) system = some provider

  module _ {Request Response Event : Type 0} where
    unfoldable pub contextual_failure :
        ModelError x → Model x Request Response Event → ℕ → ModelFailure
    unfolding or_system
    contextual_failure error model attempt =
        let failure = model_failure t error in
        record failure {
          provider = or_system failure.provider model.system;
          model = some model.identifier;
          attempt = some (attempt % u32_mod);
        }

    unfoldable pub finish_failure :
        List ModelFailure → ModelError x → Model x Request Response Event → ℕ → ModelError x
    finish_failure attempts error model attempt =
        report (attempts ++ contextual_failure error model attempt ∷ []) error

    module _ (f : FallbackModel x Request Response Event) where
      open f use {models, retry_on}

      abbrev no_models : ModelError x
      no_models = configuration "No models in fallback chain"

      -- The loop of `request` and of `request_stream`, from the model number `i` on. They differ in
      -- how they `call` a model.
      loop :
          {A : Type 0}
          → (call : Model x Request Response Event → Result A (ModelError x))
          → (attempts : List ModelFailure) (i : ℕ) → List (Model x Request Response Event)
          → Result A (ModelError x)
      loop call attempts i [] = err no_models
      loop call attempts i (model ∷ rest) = elim (call model) [
        | ok response ↦ ok response
        | err error ↦ elim (not (nat_beq (i + 1) (length models)) && should_retry retry_on error) [
          | true ↦ loop call (attempts ++ contextual_failure error model (i + 1) ∷ []) (suc i) rest
          | false ↦ err (finish_failure attempts error model (i + 1))
        ]
      ]

      start :
          {A : Type 0}
          → (Model x Request Response Event → Result A (ModelError x))
          → List (Model x Request Response Event)
          → Result A (ModelError x)
      unfolding loop
      start call [] = err no_models
      start call (model ∷ rest) = loop call [] 0 (model ∷ rest)

      unfoldable pub request : Request → Result Response (ModelError x)
      unfolding start
      request r = start (λ model. model.request r) models

      unfoldable pub request_stream : Request → Result (StreamedResponse x Event) (ModelError x)
      unfolding start first_event
      request_stream r = start (λ model. first_event (model.request_stream r)) models
