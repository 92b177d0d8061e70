-- ===== src/Broker/Examples.antt =====
-- Runs of a task and of the broker, and the theorems about them at concrete inputs.
use serdes_ai.Prelude.{ℕ, String, List, ◌≡◌, refl, none, some, [], ◌∷◌, ◌++◌, length, string_key}
use serdes_ai.Prelude.Result.{ok}
use serdes_ai.Broker.Storage.{Storage, new, list_tasks, values}
use serdes_ai.Broker.Storage.Refine.{get, save, delete, replies, spec_replies, replies-new}
use serdes_ai.Broker.Storage.Listing.{IsNewestFirst, within, list_tasks-IsNewestFirst}
use serdes_ai.Broker.Message.{user_message}
use serdes_ai.Broker.Worker
use serdes_ai.Broker.Worker.{Payload, contents, Script, World, finished, process_task}
use serdes_ai.Broker.Worker.Outcome.{process_task-Outcome}
use mathlib.Core.List.{Perm}
use serdes_ai.Broker.Task.{Contents, Task, TaskStatus}
use serdes_ai.Broker.Task.Lifecycle.{Call, Outcome, apply, apply-Outcome, run, run-is_completed}
use serdes_ai.Broker.Queue.{Broker, empty, accept, submit_task}
use serdes_ai.Broker.Queue.Laws.{poll_all, submit_all, poll_all-submit_all}

abbrev plain : Contents
plain = record { Message = String; Artifact = String; Time = ℕ; Metadata = Unit }

abbrev task : String → TaskStatus → Task plain
task id status = record {
  id = id;
  thread_id = "thread";
  status = status;
  message = "hello";
  messages = "hello" ∷ [];
  artifacts = [];
  created_at = 0;
  updated_at = 0;
  error = none;
  metadata = none;
}

abbrev waiting : Task plain
waiting = task "a" TaskStatus.pending

apply-Outcome_example : Outcome (Call.start 1) waiting (apply (Call.start 1) waiting)
apply-Outcome_example = apply-Outcome (Call.start 1) waiting

abbrev done : Task plain
done = task "b" TaskStatus.failed

run-is_completed_example : (run (Call.start 1 ∷ Call.cancel 2 ∷ []) done).status ≡ TaskStatus.failed
run-is_completed_example = run-is_completed (Call.start 1 ∷ Call.cancel 2 ∷ []) done refl

poll_all-submit_all_example :
    poll_all 2 (submit_all (waiting ∷ done ∷ []) (empty none)) ≡ waiting ∷ done ∷ []
poll_all-submit_all_example = poll_all-submit_all (waiting ∷ done ∷ [])

abbrev small : Broker plain
small = empty (some 1)

submit_small : submit_task waiting small ≡ ok (accept waiting small)
unfolding submit_task
submit_small = refl

-- The thread's tasks in the storage, under their IDs.
abbrev stored : Storage plain
stored = ("a", waiting) ∷ ("b", done) ∷ []

replies-new_example :
    replies {JsonError = Unit} (save waiting ∷ save waiting ∷ delete "a" ∷ get "a" ∷ []) new
    ≡ spec_replies (save waiting ∷ save waiting ∷ delete "a" ∷ get "a" ∷ []) (λ id. none)
replies-new_example = replies-new (save waiting ∷ save waiting ∷ delete "a" ∷ get "a" ∷ [])

list_tasks-IsNewestFirst_example :
    (rest : List (Task plain)) × IsNewestFirst
      (λ n. n)
      (list_tasks (λ n. n) (some 1) stored ++ rest)
    × Perm (list_tasks (λ n. n) (some 1) stored ++ rest) (values stored)
    × (length (list_tasks (λ n. n) (some 1) stored) ≡ within (some 1) (length (values stored)))
list_tasks-IsNewestFirst_example = list_tasks-IsNewestFirst (λ n. n) (some 1) stored

abbrev payload : Payload
payload = record { Json = Unit; Artifact = String; Time = ℕ; JsonError = Unit; AgentError = String }

abbrev question : Task (contents payload)
question = record {
  id = "a";
  thread_id = "thread";
  status = TaskStatus.pending;
  message = user_message "hello";
  messages = user_message "hello" ∷ [];
  artifacts = [];
  created_at = 0;
  updated_at = 0;
  error = none;
  metadata = none;
}

-- The agent answers, and nobody interferes.
abbrev quiet : Script payload
quiet = record {
  agent_run = λ prompt. finished (ok prompt);
  others = λ w. w;
  now = λ n. n;
  elapsed_ms = 5;
  task_error = λ e. "task";
  storage_error = λ e. "storage";
  agent_error = λ e. e;
}

abbrev world : World (contents payload)
world = record { broker = empty none; storage = ("a", question) ∷ [] }

process_task-Outcome_example :
    Worker.Outcome.Outcome quiet question world (process_task quiet question world)
process_task-Outcome_example = process_task-Outcome quiet question world
