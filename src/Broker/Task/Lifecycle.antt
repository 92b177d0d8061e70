-- ===== src/Broker/Task/Lifecycle.antt =====
-- The transitions that the methods of a task allow (serdes-ai-a2a/src/task.rs).
use serdes_ai.Prelude.{
  String, ◌≡◌, ◌∙◌, refl, ap, ◌||◌, Bool, true, false, Option, none, some, List, [], ◌∷◌,
}
use serdes_ai.Prelude.Result.{Result, ok, err}
use serdes_ai.Broker.Task
use serdes_ai.Broker.Task.{TaskStatus, TaskError, Contents, Task, is_completed, same_status}

-- The transitions of the protocol.
abbrev pub allows : TaskStatus → TaskStatus → Bool
allows TaskStatus.pending TaskStatus.running = true
allows TaskStatus.running TaskStatus.completed = true
allows TaskStatus.running TaskStatus.failed = true
allows TaskStatus.pending TaskStatus.cancelled = true
allows TaskStatus.running TaskStatus.cancelled = true
allows _ _ = false

-- A call of a method other than `force_status`.
pub data Call (c : Contents) : Type 0 where
  start : c.Time → Call c
  complete : c.Time → Call c
  fail : String → c.Time → Call c
  cancel : c.Time → Call c
  add_message : c.Message → c.Time → Call c
  add_artifact : c.Artifact → c.Time → Call c
  set_metadata : c.Metadata → c.Time → Call c

clash : (b : Bool) → b ≡ true → b ≡ false → ⊥
clash b h g = cc

final-allows :
    (s s' : TaskStatus)
    → (same_status s TaskStatus.completed
        || same_status s TaskStatus.failed
        || same_status s TaskStatus.cancelled)
      ≡ true
    → allows s s' ≡ false
final-allows TaskStatus.completed s' h = refl
final-allows TaskStatus.failed s' h = refl
final-allows TaskStatus.cancelled s' h = refl
final-allows TaskStatus.pending s' h = absurd (cc h)
final-allows TaskStatus.running s' h = absurd (cc h)

module _ {c : Contents} where
  unfoldable pub apply : Call c → Task c → Result (Task c) TaskError
  apply (Call.start now) t = Task.start now t
  apply (Call.complete now) t = Task.complete now t
  apply (Call.fail error now) t = Task.fail error now t
  apply (Call.cancel now) t = Task.cancel now t
  apply (Call.add_message message now) t = ok (Task.add_message message now t)
  apply (Call.add_artifact artifact now) t = ok (Task.add_artifact artifact now t)
  apply (Call.set_metadata metadata now) t = ok (Task.set_metadata metadata now t)

  -- The status that a call is to set, if any.
  abbrev pub target : Call c → Option TaskStatus
  target (Call.start now) = some TaskStatus.running
  target (Call.complete now) = some TaskStatus.completed
  target (Call.fail error now) = some TaskStatus.failed
  target (Call.cancel now) = some TaskStatus.cancelled
  target _ = none

  -- What a call may do to a task: a transition of the protocol to the call's target, or no transition;
  -- or it is refused, with the two states of a transition that the protocol does not have.
  pub data Outcome (call : Call c) (t : Task c) : Result (Task c) TaskError → Type 0 where
    moved :
        {t' : Task c}
        → target call ≡ some t'.status
        → allows t.status t'.status ≡ true
        → Outcome call t (ok t')
    stayed : {t' : Task c} → target call ≡ none → t'.status ≡ t.status → Outcome call t (ok t')
    refused :
        {e : TaskError}
        → e.from ≡ t.status
        → target call ≡ some e.to
        → allows e.from e.to ≡ false
        → Outcome call t (err e)

  -- Every call of a method other than `force_status` follows the protocol, whatever the state of the
  -- task.
  pub apply-Outcome : (call : Call c) (t : Task c) → Outcome call t (apply call t)
  unfolding apply Task.start Task.complete Task.fail Task.cancel Task.add_message Task.add_artifact
      Task.set_metadata
  apply-Outcome (Call.start now) t =
      elim t.status
        as (λ s.
          Outcome (Call.start now) (record t { status = s })
            (apply (Call.start now) (record t { status = s }))) [
              | TaskStatus.pending ↦ moved refl refl
              | TaskStatus.running ↦ refused refl refl refl
              | TaskStatus.completed ↦ refused refl refl refl
              | TaskStatus.failed ↦ refused refl refl refl
              | TaskStatus.cancelled ↦ refused refl refl refl
            ]
  apply-Outcome (Call.complete now) t =
      elim t.status
        as (λ s.
          Outcome (Call.complete now) (record t { status = s })
            (apply (Call.complete now) (record t { status = s }))) [
              | TaskStatus.pending ↦ refused refl refl refl
              | TaskStatus.running ↦ moved refl refl
              | TaskStatus.completed ↦ refused refl refl refl
              | TaskStatus.failed ↦ refused refl refl refl
              | TaskStatus.cancelled ↦ refused refl refl refl
            ]
  apply-Outcome (Call.fail error now) t =
      elim t.status
        as (λ s.
          Outcome (Call.fail error now) (record t { status = s })
            (apply (Call.fail error now) (record t { status = s }))) [
              | TaskStatus.pending ↦ refused refl refl refl
              | TaskStatus.running ↦ moved refl refl
              | TaskStatus.completed ↦ refused refl refl refl
              | TaskStatus.failed ↦ refused refl refl refl
              | TaskStatus.cancelled ↦ refused refl refl refl
            ]
  apply-Outcome (Call.cancel now) t =
      elim t.status
        as (λ s.
          Outcome (Call.cancel now) (record t { status = s })
            (apply (Call.cancel now) (record t { status = s }))) [
              | TaskStatus.pending ↦ moved refl refl
              | TaskStatus.running ↦ moved refl refl
              | TaskStatus.completed ↦ refused refl refl refl
              | TaskStatus.failed ↦ refused refl refl refl
              | TaskStatus.cancelled ↦ refused refl refl refl
            ]
  apply-Outcome (Call.add_message message now) t = stayed refl refl
  apply-Outcome (Call.add_artifact artifact now) t = stayed refl refl
  apply-Outcome (Call.set_metadata metadata now) t = stayed refl refl

  -- A sequence of calls, where a refused one leaves the task as it is.
  abbrev pub or_same : Task c → Result (Task c) TaskError → Task c
  or_same t (ok t') = t'
  or_same t (err e) = t

  pub run : List (Call c) → Task c → Task c
  run [] t = t
  run (call ∷ calls) t = run calls (or_same t (apply call t))

  stays :
      (call : Call c) (t : Task c) (r : Result (Task c) TaskError)
      → is_completed t ≡ true
      → Outcome call t r
      → (or_same t r).status ≡ t.status
  stays call t (ok t') h (moved e a) =
      absurd (clash (allows t.status t'.status) a (final-allows t.status t'.status h))
  stays call t (ok t') h (stayed e q) = q
  stays call t (err e) h (refused f q a) = refl

  -- A task that is completed, failed or cancelled keeps that status, whatever calls of methods other
  -- than `force_status` are made.
  pub run-is_completed :
      (calls : List (Call c)) (t : Task c) → is_completed t ≡ true → (run calls t).status ≡ t.status
  unfolding run
  run-is_completed [] t h = refl
  run-is_completed (call ∷ calls) t h =
      let q : (or_same t (apply call t)).status ≡ t.status =
        stays call t (apply call t) h (apply-Outcome call t) in
      run-is_completed calls (or_same t (apply call t)) (
        ap
          (λ s.
            same_status s TaskStatus.completed
            || same_status s TaskStatus.failed
            || same_status s TaskStatus.cancelled)
          q
        ∙ h)
      ∙ q
