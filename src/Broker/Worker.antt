-- ===== src/Broker/Worker.antt =====
-- `AgentWorker::process_task` of serdes-ai-a2a/src/worker.rs, over the in-memory broker and storage.
-- The agent's run is a script: which arm of the `select!` wins, and what others do with the broker
-- and the storage until then. Cancellation wins only if the token is cancelled, which the script need
-- not respect. A step of the worker up to its next `await` is one step.
pub mod Outcome
use serdes_ai.Prelude.{
  ℕ, String, Bool, true, false, Option, none, some, List, [], ◌∷◌, if◌then◌else◌, string_key,
}
use serdes_ai.Prelude.Map
use serdes_ai.Prelude.Result.{Result, ok, err}
use serdes_ai.Broker.Task.{
  Contents, Task, TaskStatus, TaskError, same_status, start, complete, force_status, add_message,
}
use serdes_ai.Broker.Message.{Message, agent_message, text_content}
use serdes_ai.Broker.Queue.{Broker, holds}
use serdes_ai.Broker.Storage.{Storage, StorageError, update_task}
use Prim.Native.String as Str

-- The types that the worker does not look into: JSON, artifacts, times, the errors of serde_json and
-- of the agent.
pub record Payload : Type 1 where
  pub Json : Type 0
  pub Artifact : Type 0
  pub Time : Type 0
  pub JsonError : Type 0
  pub AgentError : Type 0

abbrev pub contents : Payload → Contents
contents p = record {
  Message = Message p.Json;
  Artifact = p.Artifact;
  Time = p.Time;
  Metadata = p.Json;
}

pub record TaskResult (c : Contents) : Type 0 where
  pub task_id : String
  pub status : TaskStatus
  pub messages : List c.Message
  pub artifacts : List c.Artifact
  pub error : Option String
  pub duration_ms : Option ℕ

module _ {c : Contents} where
  abbrev pub success : String → List c.Message → TaskResult c
  success id messages = record {
    task_id = id;
    status = TaskStatus.completed;
    messages = messages;
    artifacts = [];
    error = none;
    duration_ms = none;
  }

  abbrev pub failure : String → String → TaskResult c
  failure id error = record {
    task_id = id;
    status = TaskStatus.failed;
    messages = [];
    artifacts = [];
    error = some error;
    duration_ms = none;
  }

  abbrev pub with_artifacts : List c.Artifact → TaskResult c → TaskResult c
  with_artifacts artifacts r = record r { artifacts = artifacts }

  abbrev pub with_duration : ℕ → TaskResult c → TaskResult c
  with_duration ms r = record r { duration_ms = some ms }

  -- The result literal of the three cancellations.
  abbrev pub cancelled_result : String → ℕ → TaskResult c
  cancelled_result id ms = record {
    task_id = id;
    status = TaskStatus.cancelled;
    messages = [];
    artifacts = [];
    error = none;
    duration_ms = some ms;
  }

pub record World (c : Contents) : Type 0 where
  pub broker : Broker c
  pub storage : Storage c

-- The winner of the `select!`: the agent, with the text of its output, or the cancellation.
pub data Race (E : Type 0) : Type 0 where
  finished : Result String E → Race E
  cancelled : Race E

pub record Script (p : Payload) : Type 0 where
  pub agent_run : (prompt : String) → Race p.AgentError
  -- what others do while the agent runs
  pub others : World (contents p) → World (contents p)
  -- the n-th time that the worker reads, and the milliseconds at the end
  pub now : ℕ → p.Time
  pub elapsed_ms : ℕ
  -- the texts of the errors
  pub task_error : TaskError → String
  pub storage_error : StorageError p.JsonError → String
  pub agent_error : p.AgentError → String

-- The result, and the world at the `return`.
abbrev pub Step : Payload → Type 0
Step p = TaskResult (contents p) × World (contents p)

module _ {p : Payload} (e : Script p) where
  -- `storage.update_task(&task)`: its failure ends the task with a text, and else `next` follows.
  after_update :
      Task (contents p)
      → (describe : String → String) → (next : World (contents p) → Step p) → World (contents p)
      → Result (Unit {0}) (StorageError p.JsonError)
      → Step p
  after_update task describe next w (ok done) = next w
  after_update task describe next w (err error) =
      (failure task.id (describe (e.storage_error error)), w)

  saved :
      Task (contents p)
      → (describe : String → String) → (next : World (contents p) → Step p) → World (contents p)
      → Step p
  unfolding after_update
  saved task describe next w =
      let r = update_task task w.storage in
      after_update task describe next (record w { storage = r.1 }) r.0

  save_cancelled : Task (contents p) → World (contents p) → Step p
  unfolding saved
  save_cancelled task w =
      saved (force_status TaskStatus.cancelled (e.now 1) task)
        (λ error. Str.◌++◌ "Failed to save cancellation: " error)
        (λ w'. (cancelled_result task.id e.elapsed_ms, w')) w

  after_complete :
      Task (contents p)
      → Message p.Json
      → Result (Task (contents p)) TaskError
      → World (contents p)
      → Step p
  unfolding saved
  after_complete task message (err error) w =
      (failure task.id (Str.◌++◌ "Failed to complete task: " (e.task_error error)), w)
  after_complete task message (ok t) w =
      saved t (λ error. Str.◌++◌ "Failed to save result: " error)
        (λ w'. (
          with_duration e.elapsed_ms (with_artifacts t.artifacts (success t.id (message ∷ []))),
          w',
        ))
        w

  save_output : String → Task (contents p) → World (contents p) → Step p
  unfolding after_complete
  save_output output task w =
      let message = agent_message output in
      let t = add_message message (e.now 1) task in
      after_complete t message (complete (e.now 2) t) w

  save_error : p.AgentError → Task (contents p) → World (contents p) → Step p
  unfolding saved
  save_error error task w =
      let error_msg = Str.◌++◌ "Agent error: " (e.agent_error error) in
      saved (record (force_status TaskStatus.failed (e.now 1) task) { error = some error_msg })
        (λ storage_err.
          Str.◌++◌ "Agent failed: "
            (Str.◌++◌ (e.agent_error error) (Str.◌++◌ ". Also failed to save: " storage_err)))
        (λ w'. (with_duration e.elapsed_ms (failure task.id error_msg), w')) w

  -- After the `select!`, with the second look at the token.
  after_run :
      (is_cancelled : Bool) → Task (contents p) → Race p.AgentError → World (contents p) → Step p
  unfolding save_cancelled save_output save_error
  after_run is_cancelled task cancelled w = save_cancelled task w
  after_run true task (finished (ok output)) w = save_cancelled task w
  after_run false task (finished (ok output)) w = save_output output task w
  after_run is_cancelled task (finished (err error)) w = save_error error task w

  running : (token : Option ℕ) → Task (contents p) → World (contents p) → Step p
  unfolding after_run
  running token task w =
      let w' = e.others w in
      after_run (holds token w'.broker.cancelled) task (e.agent_run (text_content task.message)) w'

  after_start :
      (token : Option ℕ)
      → Task (contents p)
      → Result (Task (contents p)) TaskError
      → World (contents p)
      → Step p
  unfolding saved running
  after_start token task (err error) w =
      (failure task.id (Str.◌++◌ "Failed to start task: " (e.task_error error)), w)
  after_start token task (ok t) w =
      saved t (λ error. Str.◌++◌ "Failed to update task: " error) (running token t) w

  pub process_task : Task (contents p) → World (contents p) → Step p
  unfolding after_start
  process_task task w =
      if same_status task.status TaskStatus.cancelled
      then (cancelled_result task.id 0, w)
      else after_start (Map.get task.id w.broker.cancellation_tokens) task (start (e.now 0) task) w
