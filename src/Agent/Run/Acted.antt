-- ===== src/Agent/Run/Acted.antt =====
-- How a run acts on a response: what becomes of the messages and of the output.
use serdes_ai.Prelude.{
  ◌≡◌, refl, ap, ◌∙◌, ◌⊎◌, inl, inr, Bool, true, false, Option, none, some, List, [], ◌∷◌, ◌++◌,
  append_assoc, map, length, ltb,
}
use serdes_ai.Prelude.Words.{add32}
use serdes_ai.Prelude.Result.{Result, ok, err}
use serdes_ai.Streaming.Text.{Text}
use serdes_ai.Streaming.Part.{ToolCallPart}
use serdes_ai.Agent.Types.{
  Types, RunContext, ModelResponse, request_of, model_response, is_stop, OutputValidationError,
  OutputParseError,
}
use serdes_ai.Agent.State.{EndStrategy, early, exhaustive, Agent, Runtime, State, Outcome, and_then}
use serdes_ai.Agent.Tools.{Returned, execute_tool_calls}
use serdes_ai.Agent.Tools.Keeps.{
  core, OnOk, keys, call_keys, execute_tool_calls-Keeps, execute_tool_calls-keys,
}
use serdes_ai.Agent.Response.{first_text, return_part, last, Scanned, scan}
use serdes_ai.Agent.Response.Found.{Found, scan-Found, first_text-Found}
use serdes_ai.Agent.Run.Judged.{Judged, validate_output-Judged}
use serdes_ai.Agent.Run.{
  StepResult, add_tool_returns, retry_request, add_retry_message, validate_output,
  after_last_validation, parsed_again, parse_again, stop_with, check_stop, check_finish,
  end_or_check, retry_or_fail, after_validation, act,
}

module _ {t : Types} {W : Type 0} (a : Agent t W) (ctx : RunContext t) (rt : Runtime t W) where
  -- The output is what the validators make, in some world, of a candidate that a part of the response
  -- is parsed to.
  abbrev pub Validated : ModelResponse t → t.Output → Type 0
  Validated response output =
      (candidate : t.Output) × (w : W) × Found a candidate response.parts
      × Judged ctx a.output_validators candidate w (ok output)

  -- The validators refuse such a candidate, with that reason.
  abbrev pub Refused : ModelResponse t → OutputValidationError → Type 0
  Refused response e =
      (candidate : t.Output) × (w : W) × Found a candidate response.parts
      × Judged ctx a.output_validators candidate w (err e)

  -- The loop over the parts leaves no calls to run.
  abbrev pub NoCalls : ModelResponse t → Type 0
  NoCalls response = (found : Option t.Output) × (scan a response.parts ([], none) ≡ ok ([], found))

  -- The execution of the calls, in some state, returns these results.
  abbrev pub Executed : List (ToolCallPart t.json) → List (Returned t) → Type 0
  Executed calls returns =
      (s₀ : State t W) × ((execute_tool_calls a rt ctx calls s₀).0 ≡ ok returns)

  -- How a response changes the messages and the output of a run, from one state to another.
  pub data Acted (response : ModelResponse t) (s s' : State t W) : Type 0 where
    -- The calls are run, and the response and their results are added.
    answered :
        (calls : List (ToolCallPart t.json)) (found : Option t.Output) (returns : List (Returned t))
        → scan a response.parts ([], none) ≡ ok (calls, found)
        → keys returns ≡ call_keys calls
        → Executed calls returns
        → s'.messages
          ≡ s.messages
            ++ request_of (model_response response ∷ [])
              ∷ request_of (map (return_part rt.display_tool_error) returns)
              ∷ []
        → s'.final_output ≡ s.final_output
        → Acted response s s'
    -- An output is refused, and the reason is added.
    refused :
        (e : OutputValidationError)
        → Refused response e
        → s'.messages ≡ s.messages ++ retry_request e ∷ []
        → s'.final_output ≡ s.final_output
        → Acted response s s'
    accepted :
        (output : t.Output)
        → NoCalls response
        → Validated response output
        → s'.messages ≡ s.messages
        → s'.final_output ≡ some output
        → Acted response s s'
    unchanged :
        NoCalls response
        → s'.messages ≡ s.messages
        → s'.final_output ≡ s.final_output
        → Acted response s s'

  -- For an outcome that returns, its state is reached from `s` in the way told.
  abbrev pub Reaches : {A : Type 0} → (State t W → Type 0) → Outcome t W A → Type 0
  Reaches P (ok r, s') = P s'
  Reaches P (err e, s') = Unit

  -- A validated output, after the validation came to `r`
  after_last_validation-Reaches :
      (response : ModelResponse t) (candidate : t.Output) (w : W)
      (r : Result t.Output OutputValidationError) (s s' : State t W)
      → NoCalls response
      → Found a candidate response.parts
      → (validate_output a ctx candidate w).0 ≡ r
      → s'.messages ≡ s.messages
      → Reaches (Acted response s) (after_last_validation a ctx r s')
  unfolding after_last_validation
  after_last_validation-Reaches response candidate w (ok output) s s' c f v m =
      accepted output c (candidate, w, f, validate_output-Judged a ctx candidate w v) m refl
  after_last_validation-Reaches response candidate w (err e) s s' c f v m = tt

  parsed_again-Reaches :
      (response : ModelResponse t) (r : Result t.Output (OutputParseError t)) (s s' : State t W)
      → NoCalls response
      → ((candidate : t.Output) → r ≡ ok candidate → Found a candidate response.parts)
      → s'.messages ≡ s.messages
      → Reaches (Acted response s) (parsed_again a ctx r s')
  unfolding parsed_again
  parsed_again-Reaches response (err e) s s' c f m = tt
  parsed_again-Reaches response (ok candidate) s s' c f m =
      after_last_validation-Reaches response candidate s'.world _ s
        (record s' { world = (validate_output a ctx candidate s'.world).1 }) c (f candidate refl)
        refl m

  parse_again-Reaches :
      (response : ModelResponse t) (o : Option Text) (s s' : State t W)
      → NoCalls response
      → first_text t response.parts ≡ o
      → s'.messages ≡ s.messages
      → Reaches (Acted response s) (parse_again a ctx o s')
  unfolding parse_again
  parse_again-Reaches response none s s' c q m = tt
  parse_again-Reaches response (some content) s s' c q m =
      parsed_again-Reaches response (a.output_schema.parse_text content) s s' c
        (λ candidate e. first_text-Found a response.parts q e) m

  -- From a state that differs from `s` at most in an output that this response has given
  abbrev Since : ModelResponse t → State t W → State t W → Type 0
  Since response s s' =
      NoCalls response
      × (s'.messages ≡ s.messages)
      × ((s'.final_output ≡ s.final_output)
          ⊎ ((output : t.Output) × Validated response output × (s'.final_output ≡ some output)))

  Since-Acted :
      (response : ModelResponse t) (s s' : State t W) → Since response s s' → Acted response s s'
  Since-Acted response s s' (c, m, inl e) = unchanged c m e
  Since-Acted response s s' (c, m, inr (output, v, e)) = accepted output c v m e

  stop_with-Reaches :
      (response : ModelResponse t) (o : Option t.Output) (s s' : State t W)
      → Since response s s'
      → Reaches (Acted response s) (stop_with a ctx response o s')
  unfolding stop_with
  stop_with-Reaches response (some output) s s' h =
      Since-Acted response s (record s' { finished = true }) h
  stop_with-Reaches response none s s' h =
      parse_again-Reaches response (first_text t response.parts) s s' h.0 refl h.1

  check_stop-Reaches :
      (b : Bool) (response : ModelResponse t) (s s' : State t W)
      → Since response s s'
      → Reaches (Acted response s) (check_stop a ctx b response s')
  unfolding check_stop
  check_stop-Reaches true response s s' h = stop_with-Reaches response s'.final_output s s' h
  check_stop-Reaches false response s s' h = Since-Acted response s s' h

  check_finish-Reaches :
      (response : ModelResponse t) (s s' : State t W)
      → Since response s s'
      → Reaches (Acted response s) (check_finish a ctx response s')
  unfolding check_finish
  check_finish-Reaches response s s' h =
      check_stop-Reaches (is_stop response.finish_reason) response s s' h

  end_or_check-Reaches :
      (strategy : EndStrategy) (response : ModelResponse t) (s s' : State t W)
      → Since response s s'
      → Reaches (Acted response s) (end_or_check a ctx strategy response s')
  unfolding end_or_check
  end_or_check-Reaches early response s s' h =
      Since-Acted response s (record s' { finished = true }) h
  end_or_check-Reaches exhaustive response s s' h = check_finish-Reaches response s s' h

  retry_or_fail-Reaches :
      (b : Bool) (e : OutputValidationError) (response : ModelResponse t) (s s' : State t W)
      → Refused response e
      → s'.messages ≡ s.messages
      → s'.final_output ≡ s.final_output
      → Reaches (Acted response s) (retry_or_fail a ctx b e s')
  unfolding retry_or_fail add_retry_message
  retry_or_fail-Reaches true e response s s' v m f = tt
  retry_or_fail-Reaches false e response s s' v m f =
      refused e v (ap (λ ms. ms ++ retry_request e ∷ []) m) f

  after_validation-Reaches :
      (response : ModelResponse t) (candidate : t.Output) (w : W)
      (r : Result t.Output OutputValidationError) (s s' : State t W)
      → NoCalls response
      → Found a candidate response.parts
      → (validate_output a ctx candidate w).0 ≡ r
      → s'.messages ≡ s.messages
      → s'.final_output ≡ s.final_output
      → Reaches (Acted response s) (after_validation a ctx response r s')
  unfolding after_validation
  after_validation-Reaches response candidate w (ok output) s s' c f v m e =
      end_or_check-Reaches a.end_strategy response s (record s' { final_output = some output })
        (c, m, inr (output, (candidate, w, f, validate_output-Judged a ctx candidate w v), refl))
  after_validation-Reaches response candidate w (err x) s s' c f v m e =
      retry_or_fail-Reaches (ltb a.max_output_retries (add32 s'.output_retries 1)) x response s
        (record s' { output_retries = add32 s'.output_retries 1 })
        (candidate, w, f, validate_output-Judged a ctx candidate w v) m e

  last-push : (rs : List (ModelResponse t)) (r : ModelResponse t) → last (rs ++ r ∷ []) ≡ some r
  last-push [] r = refl
  last-push (r' ∷ []) r = refl
  last-push (r' ∷ r'' ∷ rs) r = last-push (r'' ∷ rs) r

  -- After the execution of calls, which came to `o`
  answered-Reaches :
      (response : ModelResponse t) (tc : ToolCallPart t.json) (calls : List (ToolCallPart t.json))
      (found : Option t.Output) (before : List (ModelResponse t)) (s s' : State t W)
      (o : Outcome t W (List (Returned t))) (r : StepResult)
      → scan a response.parts ([], none) ≡ ok (tc ∷ calls, found)
      → core (o.1) ≡ core s'
      → OnOk (λ rs. keys rs ≡ call_keys (tc ∷ calls)) o
      → OnOk (Executed (tc ∷ calls)) o
      → s'.responses ≡ before ++ response ∷ []
      → s'.messages ≡ s.messages
      → s'.final_output ≡ s.final_output
      → Reaches
          (Acted response s)
          (and_then o (λ returns s₁. (ok r, add_tool_returns rt returns s₁)))
  unfolding add_tool_returns
  answered-Reaches response tc calls found before s s' (err e, s₁) r q c k x b m f = tt
  answered-Reaches response tc calls found before s s' (ok [], s₁) r q c k x b m f = absurd (cc k)
  answered-Reaches response tc calls found before s s' (ok (x ∷ returns), s₁) r q c k ex b m f =
      answered (tc ∷ calls) found (x ∷ returns) q k ex
        (rw (ap (λ y. y.0) c, ap (λ y. y.1) c, b, last-push before response, m)
          (append_assoc s.messages _ _))
        (ap (λ y. y.3) c ∙ f)

  ok_Executed :
      (calls : List (ToolCallPart t.json)) (s₀ : State t W) (o : Outcome t W (List (Returned t)))
      → execute_tool_calls a rt ctx calls s₀ ≡ o
      → OnOk (Executed calls) o
  ok_Executed calls s₀ (err e, s₁) h = tt
  ok_Executed calls s₀ (ok returns, s₁) h = (s₀, ap (λ o. o.0) h)

  pub act-Reaches :
      (response : ModelResponse t) (scanned : Scanned t) (before : List (ModelResponse t))
      (s s' : State t W)
      → scan a response.parts ([], none) ≡ ok scanned
      → s'.responses ≡ before ++ response ∷ []
      → s'.messages ≡ s.messages
      → s'.final_output ≡ s.final_output
      → Reaches (Acted response s) (act a ctx rt response scanned s')
  unfolding act
  act-Reaches response ([], none) before s s' q b m f =
      check_finish-Reaches response s s' ((none, q), m, inl f)
  act-Reaches response ([], some candidate) before s s' q b m f =
      after_validation-Reaches response candidate s'.world _ s
        (record s' { world = (validate_output a ctx candidate s'.world).1 }) (some candidate, q)
        (scan-Found a response.parts q) refl m f
  act-Reaches response (tc ∷ calls, found) before s s' q b m f =
      answered-Reaches response tc calls found before s s'
        (execute_tool_calls a rt ctx (tc ∷ calls) s')
        (StepResult.tools_executed (length (tc ∷ calls))) q
        (execute_tool_calls-Keeps a rt ctx (tc ∷ calls) s')
        (execute_tool_calls-keys a rt ctx (tc ∷ calls) s')
        (ok_Executed (tc ∷ calls) s' (execute_tool_calls a rt ctx (tc ∷ calls) s') refl) b m f
