-- ===== src/Models/Fallback/Stream.antt =====
-- The streams that a fallback chain gives.
use serdes_ai.Prelude.{◌≡◌, ◌≢◌, ◌∙◌, List, [], ◌∷◌, ◌++◌}
use serdes_ai.Prelude.Result.{Result, ok, err}
use serdes_ai.Models.Error.{Foreign, ModelError, Texts}
use serdes_ai.Models.Fallback.{Model, FallbackModel, StreamedResponse, request_stream, first_event}
use serdes_ai.Models.Fallback.Outcome.{tried, Outcome, empty, answered, failed, request-Outcome}

-- The first event of a stream, if there is one, is no error.
abbrev pub IsOpen : {x : Foreign} {Event : Type 0} → StreamedResponse x Event → Type 0
IsOpen {x} s = (error : ModelError x) (rest : _) → s ≢ err error ∷ rest

module _ {x : Foreign} {Event : Type 0} where
  first_event-ok :
      (o : Result (StreamedResponse x Event) (ModelError x)) (s : StreamedResponse x Event)
      → first_event o ≡ ok s
      → (o ≡ ok s) × IsOpen s
  unfolding first_event
  first_event-ok (err error) s h = absurd (cc h)
  first_event-ok (ok []) s h = (h, λ error rest e. absurd (cc (h, e)))
  first_event-ok (ok (err error ∷ rest)) s h = absurd (cc h)
  first_event-ok (ok (ok event ∷ rest)) s h = (h, λ error rest' e. absurd (cc (h, e)))

module _ {x : Foreign} (t : Texts x) {Request Response Event : Type 0}
    (f : FallbackModel x Request Response Event) (r : Request) where
  answer-whole :
      {A : Type 0} (call : Model x Request Response Event → Result A (ModelError x))
      (res : Result A (ModelError x)) (a : A)
      → Outcome t f call res
      → res ≡ ok a
      → (before : List (Model x Request Response Event)) × (model : Model x Request Response Event)
        × (after : List (Model x Request Response Event)) × (f.models ≡ before ++ model ∷ after)
        × (call model ≡ ok a)
  answer-whole call _ a (empty e) h = absurd (cc h)
  answer-whole call _ a (answered tries model after answer e fails c) h =
      (tried t tries, model, after, e, c ∙ h)
  answer-whole call _ a (failed tries model after error e fails c last reported reports) h =
      absurd (cc h)

  -- A stream that the chain gives is the whole stream of one of its models, and does not start with
  -- an error.
  pub request_stream-whole :
      (s : StreamedResponse x Event)
      → request_stream t f r ≡ ok s
      → (before : List (Model x Request Response Event)) × (model : Model x Request Response Event)
        × (after : List (Model x Request Response Event)) × (f.models ≡ before ++ model ∷ after)
        × (model.request_stream r ≡ ok s)
        × IsOpen s
  request_stream-whole s h =
      let (before, model, after, e, c) =
        answer-whole (λ model. first_event (model.request_stream r)) _ s ((request-Outcome t f r).1)
          h in
      let (whole, open_stream) = first_event-ok (model.request_stream r) s c in
      (before, model, after, e, whole, open_stream)
