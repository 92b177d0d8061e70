-- ===== src/Broker/Queue.antt =====
-- `InMemoryBroker` (serdes-ai-a2a/src/broker.rs). A method takes its locks and runs as one step; a
-- waiting worker polls when it is woken. A cancellation token is the number of its creation, and the
-- tokens that were cancelled are a list.
pub mod Laws
use serdes_ai.Prelude.{
  ℕ, suc, String, Bool, true, false, not, Option, none, some, List, [], ◌∷◌, ◌++◌, length, retain,
  leb, ltb, contains, nat_key, string_key, ◌==◌, if◌then◌else◌,
}
use serdes_ai.Prelude.Map
use serdes_ai.Prelude.Map.{Map}
use serdes_ai.Prelude.Result.{Result, ok, err}
use serdes_ai.Broker.Task.{Contents, Task}

pub data BrokerError : Type 0 where
  submit_failed : String → BrokerError
  queue_full : ℕ → BrokerError
  shut_down : BrokerError
  backend : String → BrokerError

pub record Broker (c : Contents) : Type 0 where
  pub queue : List (Task c)
  pub max_size : Option ℕ
  pub is_shutdown : Bool
  pub cancellation_tokens : Map String ℕ
  pub next_token : ℕ
  pub cancelled : List ℕ

abbrev pub is_full : Option ℕ → ℕ → Bool
is_full none n = false
is_full (some max) n = leb max n

abbrev pub limit : Option ℕ → ℕ
limit none = 0
limit (some max) = max

abbrev pub holds : Option ℕ → List ℕ → Bool
holds none cancelled = false
holds (some token) cancelled = contains token cancelled

module _ {c : Contents} where
  abbrev pub empty : Option ℕ → Broker c
  empty max_size = record {
    queue = [];
    max_size = max_size;
    is_shutdown = false;
    cancellation_tokens = [];
    next_token = 0;
    cancelled = [];
  }

  -- The end of `submit_task`, once the task is accepted.
  unfoldable pub accept : Task c → Broker c → Broker c
  accept task b = record b {
    cancellation_tokens = Map.insert task.id b.next_token b.cancellation_tokens;
    next_token = suc b.next_token;
    queue = b.queue ++ task ∷ [];
  }

  unfoldable pub submit_task : Task c → Broker c → Result (Broker c) BrokerError
  unfolding accept
  submit_task task b =
      if b.is_shutdown
      then err shut_down
      else if is_full b.max_size (length b.queue)
      then err (queue_full (limit b.max_size))
      else ok (accept task b)

  unfoldable pub poll_task : Broker c → Option (Task c) × Broker c
  poll_task b = elim b.queue [
    | [] ↦ (none, b)
    | task ∷ tasks ↦ (some task, record b { queue = tasks })
  ]

  -- The token, if there is one, is cancelled.
  abbrev pub signal : Option ℕ → Bool → Broker c → Bool × Broker c
  signal none removed_from_queue b = (removed_from_queue, b)
  signal (some token) removed_from_queue b = (true, record b { cancelled = token ∷ b.cancelled })

  unfoldable pub cancel_task : String → Broker c → Bool × Broker c
  cancel_task task_id b =
      let queue = retain (λ t. not (t.id == task_id)) b.queue in
      signal (Map.get task_id b.cancellation_tokens) (ltb (length queue) (length b.queue))
        (record b { queue = queue })

  unfoldable pub shutdown : Broker c → Broker c
  shutdown b = record b { is_shutdown = true }

  unfoldable pub clear : Broker c → Broker c
  clear b = record b { queue = []; cancellation_tokens = [] }

  unfoldable pub cleanup_token : String → Broker c → Broker c
  cleanup_token task_id b = record b {
    cancellation_tokens = Map.remove task_id b.cancellation_tokens;
  }

  -- `get_cancellation_token(task_id)` and `is_cancelled()`
  unfoldable pub is_cancelled : String → Broker c → Bool
  is_cancelled task_id b = holds (Map.get task_id b.cancellation_tokens) b.cancelled
