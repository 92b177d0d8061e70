-- ===== src/Broker/Storage.antt =====
-- `InMemoryStorage` of serdes-ai-a2a/src/storage.rs. A method that takes the lock is one step, which
-- gives its reply and the new storage. `JsonError` is the error type of serde_json.
pub mod Refine
pub mod Listing
use serdes_ai.Prelude.{
  ℕ, String, Bool, true, false, not, Option, none, some, List, [], ◌∷◌, map, take, length, retain,
  leb, if◌then◌else◌, is_some, string_key, ◌==◌,
}
use serdes_ai.Prelude.Map
use serdes_ai.Prelude.Map.{Map}
use serdes_ai.Prelude.Result.{Result, ok, err}
use serdes_ai.Broker.Task.{Contents, Task}

pub data StorageError (JsonError : Type 0) : Type 0 where
  not_found : String → StorageError JsonError
  already_exists : String → StorageError JsonError
  backend : String → StorageError JsonError
  serialization : JsonError → StorageError JsonError

abbrev pub Storage : Contents → Type 0
Storage c = Map String (Task c)

module _ {c : Contents} where
  abbrev pub new : Storage c
  new = []

  unfoldable pub len : Storage c → ℕ
  len s = length s

  unfoldable pub clear : Storage c → Storage c
  clear s = []

  unfoldable pub get_task : String → Storage c → Option (Task c)
  get_task task_id s = Map.get task_id s

  abbrev pub values : Storage c → List (Task c)
  values s = map (λ entry. entry.1) s

  unfoldable pub list_tasks_by_thread : String → Storage c → List (Task c)
  list_tasks_by_thread thread_id s = retain (λ t. t.thread_id == thread_id) (values s)

  -- `sort_by_key`, which is stable, by `Reverse(created_at)`; `stamp` is the order of times.
  module _ (stamp : c.Time → ℕ) where
    insert_newest : Task c → List (Task c) → List (Task c)
    insert_newest t [] = t ∷ []
    insert_newest t (u ∷ us) =
        let rest = insert_newest t us in
        if leb (stamp u.created_at) (stamp t.created_at) then t ∷ u ∷ us else u ∷ rest

    newest_first : List (Task c) → List (Task c)
    unfolding insert_newest
    newest_first [] = []
    newest_first (t ∷ ts) = insert_newest t (newest_first ts)

    abbrev truncated : Option ℕ → List (Task c) → List (Task c)
    truncated none ts = ts
    truncated (some limit) ts = take limit ts

    pub list_tasks : Option ℕ → Storage c → List (Task c)
    unfolding newest_first
    list_tasks limit s = truncated limit (newest_first (values s))

  module _ {JsonError : Type 0} where
    unfoldable pub save_task :
        Task c → Storage c → Result (Unit {0}) (StorageError JsonError) × Storage c
    save_task task s =
        if Map.contains_key task.id s
        then (err (already_exists task.id), s)
        else (ok tt, Map.insert task.id task s)

    unfoldable pub update_task :
        Task c → Storage c → Result (Unit {0}) (StorageError JsonError) × Storage c
    update_task task s =
        if not (Map.contains_key task.id s)
        then (err (not_found task.id), s)
        else (ok tt, Map.insert task.id task s)

    unfoldable pub delete_task :
        String → Storage c → Result (Unit {0}) (StorageError JsonError) × Storage c
    delete_task task_id s =
        if not (is_some (Map.get task_id s))
        then (err (not_found task_id), Map.remove task_id s)
        else (ok tt, Map.remove task_id s)
