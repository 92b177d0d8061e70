-- ===== src/Broker/Task.antt =====
-- The state machine of a task (serdes-ai-a2a/src/task.rs). Messages, artifacts, the metadata and the
-- clock are of other code: a message, an artifact and a time are values of the parameters, and a time
-- that a method reads is its argument.
pub mod Lifecycle
use serdes_ai.Prelude.{
  String, Bool, true, false, Option, none, some, List, [], ◌∷◌, ◌++◌, if◌then◌else◌, ◌||◌, not,
}
use serdes_ai.Prelude.Result.{Result, ok, err}

pub data TaskStatus : Type 0 where
  pending running completed failed cancelled : TaskStatus

-- `InvalidStateTransition { from, to }`
pub record TaskError : Type 0 where
  pub from : TaskStatus
  pub to : TaskStatus

-- The types of what a task holds.
pub record Contents : Type 1 where
  pub Message : Type 0
  pub Artifact : Type 0
  pub Time : Type 0
  pub Metadata : Type 0

pub record Task (c : Contents) : Type 0 where
  pub id : String
  pub thread_id : String
  pub status : TaskStatus
  pub message : c.Message
  pub messages : List c.Message
  pub artifacts : List c.Artifact
  pub created_at : c.Time
  pub updated_at : c.Time
  pub error : Option String
  pub metadata : Option c.Metadata

-- `==` on the status, as it is derived.
abbrev pub same_status : TaskStatus → TaskStatus → Bool
same_status TaskStatus.pending TaskStatus.pending = true
same_status TaskStatus.running TaskStatus.running = true
same_status TaskStatus.completed TaskStatus.completed = true
same_status TaskStatus.failed TaskStatus.failed = true
same_status TaskStatus.cancelled TaskStatus.cancelled = true
same_status _ _ = false

module _ {c : Contents} where
  unfoldable pub with_id : String → String → c.Message → c.Time → Task c
  with_id id thread_id message now = record {
    id = id;
    thread_id = thread_id;
    status = TaskStatus.pending;
    message = message;
    messages = message ∷ [];
    artifacts = [];
    created_at = now;
    updated_at = now;
    error = none;
    metadata = none;
  }

  abbrev pub is_completed : Task c → Bool
  is_completed t =
      same_status t.status TaskStatus.completed
      || same_status t.status TaskStatus.failed
      || same_status t.status TaskStatus.cancelled

  -- The method that needs the status `from` and sets the status `to`.
  abbrev move : TaskStatus → TaskStatus → c.Time → Task c → Result (Task c) TaskError
  move from to now t =
      if not (same_status t.status from)
      then err (record { from = t.status; to = to })
      else ok (record t { status = to; updated_at = now })

  unfoldable pub start : c.Time → Task c → Result (Task c) TaskError
  start now t = move TaskStatus.pending TaskStatus.running now t

  unfoldable pub complete : c.Time → Task c → Result (Task c) TaskError
  complete now t = move TaskStatus.running TaskStatus.completed now t

  unfoldable pub fail : String → c.Time → Task c → Result (Task c) TaskError
  fail error now t =
      if not (same_status t.status TaskStatus.running)
      then err (record { from = t.status; to = TaskStatus.failed })
      else ok (record t { status = TaskStatus.failed; error = some error; updated_at = now })

  unfoldable pub cancel : c.Time → Task c → Result (Task c) TaskError
  cancel now t =
      if is_completed t
      then err (record { from = t.status; to = TaskStatus.cancelled })
      else ok (record t { status = TaskStatus.cancelled; updated_at = now })

  unfoldable pub force_status : TaskStatus → c.Time → Task c → Task c
  force_status status now t = record t { status = status; updated_at = now }

  unfoldable pub add_message : c.Message → c.Time → Task c → Task c
  add_message message now t = record t { messages = t.messages ++ message ∷ []; updated_at = now }

  unfoldable pub add_artifact : c.Artifact → c.Time → Task c → Task c
  add_artifact artifact now t = record t {
    artifacts = t.artifacts ++ artifact ∷ [];
    updated_at = now;
  }

  unfoldable pub set_metadata : c.Metadata → c.Time → Task c → Task c
  set_metadata metadata now t = record t { metadata = some metadata; updated_at = now }
