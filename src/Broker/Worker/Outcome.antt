-- ===== src/Broker/Worker/Outcome.antt =====
-- What a worker makes of a task (serdes-ai-a2a/src/worker.rs).
use serdes_ai.Prelude.{
  ℕ, String, ◌≡◌, ◌≢◌, refl, Bool, true, false, Option, some, [], ◌∷◌, ◌++◌, if◌then◌else◌,
  Bool-cases, inl, inr, string_key,
}
use serdes_ai.Prelude.Map
use serdes_ai.Prelude.Result.{ok, err}
use serdes_ai.Broker.Task.{
  Task, TaskStatus, same_status, start, complete, force_status, add_message,
}
use serdes_ai.Broker.Message.{agent_message, text_content}
use serdes_ai.Broker.Queue.{holds}
use serdes_ai.Broker.Storage.{update_task, not_found}
use serdes_ai.Broker.Worker.{
  Payload, contents, TaskResult, World, failure, success, with_artifacts, with_duration,
  cancelled_result, Race, finished, cancelled, Script, Step, saved, after_update, save_cancelled,
  save_output, save_error, after_complete, after_run, running, after_start, process_task,
}
use Prim.Native.String as Str

module _ {p : Payload} (e : Script p) where
  saved-found :
      (t : Task (contents p)) (describe : String → String) (next : World (contents p) → Step p)
      (w : World (contents p))
      → Map.contains_key t.id w.storage ≡ true
      → saved e t describe next w ≡ next (record w { storage = Map.insert t.id t w.storage })
  unfolding saved update_task after_update
  saved-found t describe next w h = rw h

  saved-missing :
      (t : Task (contents p)) (describe : String → String) (next : World (contents p) → Step p)
      (w : World (contents p))
      → Map.contains_key t.id w.storage ≡ false
      → (text : String) × (saved e t describe next w ≡ (failure t.id text, w))
  unfolding saved update_task after_update
  saved-missing t describe next w h = (describe (e.storage_error (not_found t.id)), rw h)

module _ {p : Payload} (e : Script p) (task : Task (contents p)) (w : World (contents p)) where
  -- The world in which the agent runs, and the world when it is done.
  abbrev pub started : World (contents p)
  started = record w {
    storage =
        Map.insert task.id (record task { status = TaskStatus.running; updated_at = e.now 0 })
          w.storage;
  }

  abbrev pub at_end : World (contents p)
  at_end = e.others started

  abbrev pub was_cancelled : Bool
  was_cancelled = holds (Map.get task.id w.broker.cancellation_tokens) at_end.broker.cancelled

  -- The result and the stored task say the same, as the race and the token ask for.
  abbrev pub Reports :
      Race p.AgentError → Bool → TaskResult (contents p) → Task (contents p) → Type 0
  Reports cancelled b r t =
      (r.status ≡ TaskStatus.cancelled)
      × (t.status ≡ TaskStatus.cancelled)
      × (r.messages ≡ [])
      × (t.messages ≡ task.messages)
  Reports (finished (ok output)) true r t =
      (r.status ≡ TaskStatus.cancelled)
      × (t.status ≡ TaskStatus.cancelled)
      × (r.messages ≡ [])
      × (t.messages ≡ task.messages)
  Reports (finished (ok output)) false r t =
      (r.status ≡ TaskStatus.completed)
      × (t.status ≡ TaskStatus.completed)
      × (r.messages ≡ agent_message output ∷ [])
      × (t.messages ≡ task.messages ++ agent_message output ∷ [])
      × (r.artifacts ≡ t.artifacts)
  Reports (finished (err error)) b r t =
      (r.status ≡ TaskStatus.failed)
      × (t.status ≡ TaskStatus.failed)
      × (r.error ≡ t.error)
      × (t.messages ≡ task.messages)

  pub data Outcome : Step p → Type 0 where
    refused :
        (r : TaskResult (contents p))
        → task.status ≢ TaskStatus.pending
        → r.status ≡ (
            if same_status task.status TaskStatus.cancelled
            then TaskStatus.cancelled
            else TaskStatus.failed)
        → Outcome (r, w)
    not_stored :
        (r : TaskResult (contents p))
        → task.status ≡ TaskStatus.pending
        → Map.contains_key task.id w.storage ≡ false
        → r.status ≡ TaskStatus.failed
        → Outcome (r, w)
    removed :
        (r : TaskResult (contents p))
        → task.status ≡ TaskStatus.pending
        → Map.contains_key task.id w.storage ≡ true
        → Map.contains_key task.id at_end.storage ≡ false
        → r.status ≡ TaskStatus.failed
        → Outcome (r, at_end)
    settled :
        (r : TaskResult (contents p)) (t : Task (contents p))
        → task.status ≡ TaskStatus.pending
        → Map.contains_key task.id w.storage ≡ true
        → Map.contains_key task.id at_end.storage ≡ true
        → t.id ≡ task.id
        → Reports (e.agent_run (text_content task.message)) was_cancelled r t
        → Outcome (r, record at_end { storage = Map.insert t.id t at_end.storage })

  abbrev race : Race p.AgentError
  race = e.agent_run (text_content task.message)

  abbrev running_task : Task (contents p)
  running_task = record task { status = TaskStatus.running; updated_at = e.now 0 }

  module _ (pending : task.status ≡ TaskStatus.pending)
      (stored : Map.contains_key task.id w.storage ≡ true) where
    -- The last update: the task was removed, or the result and the stored task agree.
    saved-Outcome :
        (t : Task (contents p)) (describe : String → String) (r : TaskResult (contents p))
        → t.id ≡ task.id
        → Reports race was_cancelled r t
        → Outcome (saved e t describe (λ w'. (r, w')) at_end)
    saved-Outcome t describe r same reports =
        elim (Bool-cases (Map.contains_key task.id at_end.storage)) [
          | inl there ↦
              rw (saved-found e t describe (λ w'. (r, w')) at_end (rw same there))
                (settled r t pending stored there same reports)
          | inr gone ↦
              let (text, q) = saved-missing e t describe (λ w'. (r, w')) at_end (rw same gone) in
              rw q (removed (failure t.id text) pending stored gone refl)
        ]

    save_cancelled-Outcome :
        Reports race was_cancelled
          (cancelled_result task.id e.elapsed_ms)
          (force_status TaskStatus.cancelled (e.now 1) running_task)
        → Outcome (save_cancelled e running_task at_end)
    unfolding save_cancelled force_status
    save_cancelled-Outcome =
        saved-Outcome (force_status TaskStatus.cancelled (e.now 1) running_task)
          (λ error. Str.◌++◌ "Failed to save cancellation: " error)
          (cancelled_result task.id e.elapsed_ms) refl

    abbrev completed_task : String → Task (contents p)
    completed_task output = record task {
      status = TaskStatus.completed;
      messages = task.messages ++ agent_message output ∷ [];
      updated_at = e.now 2;
    }

    save_output-Outcome :
        (output : String)
        → race ≡ finished (ok output)
        → was_cancelled ≡ false
        → Outcome (save_output e output running_task at_end)
    unfolding save_output after_complete complete add_message
    save_output-Outcome output h hb =
        saved-Outcome (completed_task output) (λ error. Str.◌++◌ "Failed to save result: " error)
          (with_duration e.elapsed_ms
            (with_artifacts task.artifacts (success task.id (agent_message output ∷ []))))
          refl (rw (h, hb) (refl, refl, refl, refl, refl))

    save_error-Outcome :
        (error : p.AgentError)
        → race ≡ finished (err error)
        → Outcome (save_error e error running_task at_end)
    unfolding save_error force_status
    save_error-Outcome error h =
        let error_msg = Str.◌++◌ "Agent error: " (e.agent_error error) in
        saved-Outcome
          (record (force_status TaskStatus.failed (e.now 1) running_task) {
            error = some error_msg;
          })
          (λ storage_err.
            Str.◌++◌ "Agent failed: "
              (Str.◌++◌ (e.agent_error error) (Str.◌++◌ ". Also failed to save: " storage_err)))
          (with_duration e.elapsed_ms (failure task.id error_msg)) refl
          (rw h (refl, refl, refl, refl))

    after_run-Outcome :
        (result : Race p.AgentError) (b : Bool)
        → race ≡ result
        → was_cancelled ≡ b
        → Outcome (after_run e b running_task result at_end)
    unfolding after_run force_status
    after_run-Outcome cancelled b h hb = save_cancelled-Outcome (rw h (refl, refl, refl, refl))
    after_run-Outcome (finished (ok output)) true h hb =
        save_cancelled-Outcome (rw (h, hb) (refl, refl, refl, refl))
    after_run-Outcome (finished (ok output)) false h hb = save_output-Outcome output h hb
    after_run-Outcome (finished (err error)) b h hb = save_error-Outcome error h

  start-pending : task.status ≡ TaskStatus.pending → start (e.now 0) task ≡ ok running_task
  unfolding start
  start-pending h = rw h

  abbrev token : Option ℕ
  token = Map.get task.id w.broker.cancellation_tokens

  update_failed : String → String
  update_failed error = Str.◌++◌ "Failed to update task: " error

  after_start-Outcome :
      task.status ≡ TaskStatus.pending → Outcome (after_start e token task (ok running_task) w)
  unfolding after_start running update_failed
  after_start-Outcome pending = elim (Bool-cases (Map.contains_key task.id w.storage)) [
    | inl stored ↦
        rw (saved-found e running_task update_failed (running e token running_task) w stored)
          (after_run-Outcome pending stored race was_cancelled refl refl)
    | inr missing ↦
        let (text, q) =
          saved-missing e running_task update_failed (running e token running_task) w missing in
        rw q (not_stored (failure task.id text) pending missing refl)
  ]

  start-refused :
      same_status task.status TaskStatus.pending ≡ false
      → start (e.now 0) task ≡ err (record { from = task.status; to = TaskStatus.running })
  unfolding start
  start-refused h = rw h

  -- A task that was started before.
  started_before-Outcome :
      task.status ≢ TaskStatus.pending
      → same_status task.status TaskStatus.cancelled ≡ false
      → same_status task.status TaskStatus.pending ≡ false
      → Outcome (process_task e task w)
  unfolding process_task after_start
  started_before-Outcome other c q =
      rw (c, start-refused q)
        (refused
          (failure task.id (
            Str.◌++◌ "Failed to start task: "
              (e.task_error (record { from = task.status; to = TaskStatus.running }))))
          other (rw c))

  status-Outcome : (s : TaskStatus) → task.status ≡ s → Outcome (process_task e task w)
  unfolding process_task
  status-Outcome TaskStatus.pending h =
      let c : same_status task.status TaskStatus.cancelled ≡ false = rw h in
      rw (c, start-pending h) (after_start-Outcome h)
  status-Outcome TaskStatus.cancelled h =
      let c : same_status task.status TaskStatus.cancelled ≡ true = rw h in
      rw c (refused (cancelled_result task.id 0) (λ q. absurd (cc (h, q))) (rw c))
  status-Outcome TaskStatus.running h =
      started_before-Outcome (λ q. absurd (cc (h, q))) (rw h) (rw h)
  status-Outcome TaskStatus.completed h =
      started_before-Outcome (λ q. absurd (cc (h, q))) (rw h) (rw h)
  status-Outcome TaskStatus.failed h =
      started_before-Outcome (λ q. absurd (cc (h, q))) (rw h) (rw h)

  -- A worker takes a task up only if it is pending: a cancelled one is reported as cancelled, and any
  -- other is a failure, with nothing changed. A task that the storage does not have when it is
  -- started, or any more when its run is over, is a failure, with nothing stored. Otherwise the
  -- worker's last act is to store the task, with the status and the error or artifacts of the result:
  -- cancelled if the cancellation won or the token is cancelled when the agent succeeds, completed
  -- with the agent's answer as the last message if it succeeds and the token is not cancelled, and
  -- failed if the agent fails.
  pub process_task-Outcome : Outcome (process_task e task w)
  process_task-Outcome = status-Outcome task.status refl
