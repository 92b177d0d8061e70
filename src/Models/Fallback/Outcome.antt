-- ===== src/Models/Fallback/Outcome.antt =====
-- What the answers of a fallback chain mean.
use serdes_ai.Prelude.{
  ◌∙◌, ℕ, suc, ◌+◌, ◌≡◌, ◌≢◌, refl, ap, sym, ◌⊎◌, inl, inr, Bool, true, false, not, ◌&&◌, List, [],
  ◌∷◌, ◌++◌, All, All-append, map, length, length-append, unwrap_or, Option, none, some, String,
  ◌%◌, nat_beq, Bool-cases, arith,
}
use serdes_ai.Prelude.Result.{Result, ok, err, Result-cases}
use serdes_ai.Models.Failure.{ModelFailure}
use serdes_ai.Models.Error.{
  Foreign, ModelError, Texts, configuration, fallback_exhausted, model_failure,
}
use serdes_ai.Prelude.Words.{u32_mod}
use serdes_ai.Models.Fallback.{
  Model, FallbackModel, or_system, should_retry, contextual_failure, finish_failure, report, loop,
  start, request, request_stream, first_event,
}

-- A model that was tried, and its error.
abbrev pub Try : Foreign → Type 0 → Type 0 → Type 0 → Type 0
Try x Request Response Event = Model x Request Response Event × ModelError x

module _ {x : Foreign} (t : Texts x) where
  or_system-some : (o : Option String) (s : String) → or_system t o s ≡ some (unwrap_or o s)
  unfolding or_system
  or_system-some none s = refl
  or_system-some (some p) s = refl

module _ {x : Foreign} (t : Texts x) {Request Response Event : Type 0} where
  -- The record of a failed try with its number, a `u32`: the classification of its error, with the name
  -- of the model, and with that of its provider where the error does not tell one.
  abbrev pub IsRecord : ℕ → Try x Request Response Event → ModelFailure → Type 0
  IsRecord n (model, error) failure =
      let of_error : ModelFailure = model_failure t error in
      (failure.kind ≡ of_error.kind)
      × (failure.message ≡ of_error.message)
      × (failure.status ≡ of_error.status)
      × (failure.provider_code ≡ of_error.provider_code)
      × (failure.retry_after ≡ of_error.retry_after)
      × (failure.cause ≡ of_error.cause)
      × (failure.provider ≡ some (unwrap_or of_error.provider model.system))
      × (failure.model ≡ some model.identifier)
      × (failure.attempt ≡ some (n % u32_mod))

  -- The records of failed tries, numbered from `n`.
  abbrev pub AreRecords : ℕ → List (Try x Request Response Event) → List ModelFailure → Type 0
  AreRecords n [] [] = Unit
  AreRecords n (u ∷ tries) (failure ∷ fs) = IsRecord n u failure × AreRecords (suc n) tries fs
  AreRecords n tries fs = ⊥

  abbrev failures : ℕ → List (Try x Request Response Event) → List ModelFailure
  failures n [] = []
  failures n ((model, error) ∷ tries) = contextual_failure t error model n ∷ failures (suc n) tries

  contextual_failure-IsRecord :
      (n : ℕ) (model : Model x Request Response Event) (error : ModelError x)
      → IsRecord n (model, error) (contextual_failure t error model n)
  unfolding contextual_failure
  contextual_failure-IsRecord n model error = (
    refl,
    refl,
    refl,
    refl,
    refl,
    refl,
    or_system-some t ((model_failure t error).provider) model.system,
    refl,
    refl,
  )

  failures-AreRecords :
      (n : ℕ) (us : List (Try x Request Response Event)) → AreRecords n us (failures n us)
  failures-AreRecords n [] = tt
  failures-AreRecords n ((model, error) ∷ us) =
      (contextual_failure-IsRecord n model error, failures-AreRecords (suc n) us)

  failures-append :
      (n : ℕ) (us vs : List (Try x Request Response Event))
      → failures n (us ++ vs) ≡ failures n us ++ failures (n + length us) vs
  failures-append n [] vs = let e : n + 0 ≡ n = omega arith in rw e
  failures-append n (u ∷ us) vs =
      let e : n + suc (length us) ≡ suc n + length us = omega arith in
      rw (failures-append (suc n) us vs, e)

  abbrev pub tried : List (Try x Request Response Event) → List (Model x Request Response Event)
  tried = map (λ u. u.0)

  module _ (f : FallbackModel x Request Response Event) {A : Type 0}
      (call : Model x Request Response Event → Result A (ModelError x)) where
    -- The call failed, with an error that lets the next model try.
    abbrev pub FailsOver : Try x Request Response Event → Type 0
    FailsOver (model, error) = (call model ≡ err error) × (should_retry t f.retry_on error ≡ true)

    -- What is reported of failed tries, the last of them with `error`: that alone, if it is the only one.
    abbrev pub Reports : List (Try x Request Response Event) → ModelError x → ModelError x → Type 0
    Reports (u ∷ []) error reported = reported ≡ error
    Reports tries error reported =
        (fs : List ModelFailure) × (reported ≡ fallback_exhausted fs error) × AreRecords 1 tries fs

    report-Reports :
        (us : List (Try x Request Response Event)) (error : ModelError x)
        → Reports us error (report (failures 1 us) error)
    report-Reports [] error = ([], refl, tt)
    report-Reports (u ∷ []) error = refl
    report-Reports (u ∷ v ∷ us) error =
        (failures 1 (u ∷ v ∷ us), refl, failures-AreRecords 1 (u ∷ v ∷ us))

    pub data Outcome : Result A (ModelError x) → Type 0 where
      empty : f.models ≡ [] → Outcome (err (configuration "No models in fallback chain"))
      answered :
          (tries : List (Try x Request Response Event)) (model : Model x Request Response Event)
          (after : List (Model x Request Response Event)) (answer : A)
          → f.models ≡ tried tries ++ model ∷ after
          → All FailsOver tries
          → call model ≡ ok answer
          → Outcome (ok answer)
      failed :
          (tries : List (Try x Request Response Event)) (model : Model x Request Response Event)
          (after : List (Model x Request Response Event)) (error : ModelError x)
          → f.models ≡ tried tries ++ model ∷ after
          → All FailsOver tries
          → call model ≡ err error
          → (after ≡ []) ⊎ (should_retry t f.retry_on error ≡ false)
          → (reported : ModelError x) → Reports (tries ++ (model, error) ∷ []) error reported
          → Outcome (err reported)

    tried-append :
        (us : List (Try x Request Response Event)) (model : Model x Request Response Event)
        (error : ModelError x) (rest : List (Model x Request Response Event))
        → tried us ++ model ∷ rest ≡ tried (us ++ (model, error) ∷ []) ++ rest
    tried-append [] model error rest = refl
    tried-append (u ∷ us) model error rest = rw (tried-append us model error rest)

    length-tried : (us : List (Try x Request Response Event)) → length (tried us) ≡ length us
    length-tried [] = refl
    length-tried (u ∷ us) = ap suc (length-tried us)

    length-models :
        (us : List (Try x Request Response Event)) (model : Model x Request Response Event)
        (rest : List (Model x Request Response Event))
        → f.models ≡ tried us ++ model ∷ rest
        → length f.models ≡ length us + 1 + length rest
    length-models us model rest e =
        let e1 : length (tried us ++ model ∷ rest) ≡ length us + 1 + length rest =
          omega (arith, length-append (tried us) (model ∷ rest), length-tried us) in
        rw (e, e1)

    -- The loop goes on exactly if there is a next model and the error lets it try.
    goes_on :
        (n k : ℕ) (b : Bool)
        → (not (nat_beq (n + 1) (n + 1 + k)) && b) ≡ true
        → (b ≡ true) × (k ≢ 0)
    goes_on n k b h = (ground (arith, h), λ e. ground (arith, h, e))

    stops :
        (n k : ℕ) (b : Bool)
        → (not (nat_beq (n + 1) (n + 1 + k)) && b) ≡ false
        → (k ≡ 0) ⊎ (b ≡ false)
    stops n k true h = inl (ground (arith, h))
    stops n k false h = inr refl

    length-zero : (rest : List (Model x Request Response Event)) → length rest ≡ 0 → rest ≡ []
    length-zero [] e = refl
    length-zero (m ∷ rest) e = absurd (omega (arith, e))

    recorded :
        (us : List (Try x Request Response Event)) (model : Model x Request Response Event)
        (error : ModelError x)
        → failures 1 (us ++ (model, error) ∷ [])
          ≡ failures 1 us ++ contextual_failure t error model (length us + 1) ∷ []
    recorded us model error =
        let e : 1 + length us ≡ length us + 1 = omega arith in
        rw (failures-append 1 us ((model, error) ∷ []), e)

    length-tries :
        (us : List (Try x Request Response Event)) (u : Try x Request Response Event)
        → length (us ++ u ∷ []) ≡ suc (length us)
    length-tries us u = omega (arith, length-append us (u ∷ []))

    -- What the loop knows before it calls a model: the models before it failed so, and are recorded.
    loop-Outcome :
        (tries : List (Try x Request Response Event)) (rest : List (Model x Request Response Event))
        → All FailsOver tries
        → f.models ≡ tried tries ++ rest
        → (rest ≡ [] → f.models ≡ [])
        → Outcome (loop t f call (failures 1 tries) (length tries) rest)
    unfolding loop finish_failure
    loop-Outcome tries [] fails e none_left = empty (none_left refl)
    loop-Outcome tries (model ∷ rest) fails e none_left =
        let count = length-models tries model rest e in
        elim (Result-cases (call model)) [
          | inl (answer, c) ↦ rw (c, loop) (answered tries model rest answer e fails c)
          | inr (error, c) ↦
              let retried = should_retry t f.retry_on error in
              let test = not (nat_beq (length tries + 1) (length f.models)) && retried in
              elim (Bool-cases test) [
                | inl b ↦
                    let (allowed, next) =
                      goes_on (length tries) (length rest) retried (rw (sym count) b) in
                    rw
                      (
                        c,
                        loop,
                        b,
                        sym (recorded tries model error),
                        sym (length-tries tries (model, error)),
                      )
                      (loop-Outcome (tries ++ (model, error) ∷ []) rest
                        (All-append FailsOver tries _ fails ((c, allowed), tt))
                        (e ∙ tried-append tries model error rest)
                        (λ none_left. absurd (next (ap length none_left))))
                | inr b ↦
                    rw (c, loop, b, finish_failure, sym (recorded tries model error))
                      (failed tries model rest error e fails c
                        (elim (stops (length tries) (length rest) retried (rw (sym count) b)) [
                          | inl z ↦ inl (length-zero rest z)
                          | inr z ↦ inr z
                        ])
                        _ (report-Reports (tries ++ (model, error) ∷ []) error))
              ]
        ]

    start-Outcome :
        (models : List (Model x Request Response Event))
        → f.models ≡ models
        → Outcome (start t f call models)
    unfolding start
    start-Outcome [] e = empty e
    start-Outcome (model ∷ rest) e =
        loop-Outcome [] (model ∷ rest) tt e (λ none_left. e ∙ none_left)

  -- A chain of fallback models, asked for a response or a stream. Without models it reports a
  -- configuration error. Otherwise models are called in their order, each but the last failed with
  -- an error that lets the next one try, and the answer is that of the last one called; where that
  -- one failed too, it was the chain's last model or its error lets no other try, and the report is
  -- its error alone if no other model was called, and else has the failures of all models that were
  -- called, numbered from 1, and its error.
  pub request-Outcome :
      (f : FallbackModel x Request Response Event) (r : Request)
      → Outcome f (λ model. model.request r) (request t f r)
        × Outcome f (λ model. first_event (model.request_stream r)) (request_stream t f r)
  unfolding request request_stream
  request-Outcome f r = (start-Outcome f _ f.models refl, start-Outcome f _ f.models refl)
