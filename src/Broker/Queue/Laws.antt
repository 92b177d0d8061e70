-- ===== src/Broker/Queue/Laws.antt =====
-- What the broker's queue promises (serdes-ai-a2a/src/broker.rs).
use serdes_ai.Prelude.{
  ℕ, suc, ◌≤◌, String, ◌≡◌, ◌↔◌, refl, ap, sym, zero, ◌∙◌, Bool, Bool-cases, nat_beq_refl, inl, inr,
  true, false, not, Option, none, some, List, [], ◌∷◌, ◌++◌, append_assoc, append-nil, length,
  length-append, retain, All, nat_key, string_key, ◌==◌, if◌then◌else◌, arith,
}
use serdes_ai.Prelude.Map
use serdes_ai.Prelude.Result.{Result, ok, err}
use serdes_ai.Broker.Task.{Contents, Task}
use serdes_ai.Broker.Queue.{
  Broker, BrokerError, empty, accept, signal, shut_down, is_full, submit_task, poll_task,
  cancel_task, is_cancelled,
}

-- The queue holds at most as many tasks as the broker may.
abbrev pub Fits : Option ℕ → ℕ → Type 0
Fits none n = Unit
Fits (some max) n = n ≤ max

Fits-suc : (max : Option ℕ) (n : ℕ) → is_full max n ≡ false → Fits max (suc n)
Fits-suc none n h = tt
Fits-suc (some max) n h = ground (arith, h)

accepted {ℓ} :
    {A : Type ℓ} (down full : Bool) (e : BrokerError) (x y : A)
    → (if down then err shut_down else if full then err e else ok x) ≡ ok y
    → (down ≡ false) × (full ≡ false) × (x ≡ y)
accepted true full e x y h = absurd (cc h)
accepted false true e x y h = absurd (cc h)
accepted false false e x y h = (refl, refl, cc h)

accepts {ℓ} :
    {A : Type ℓ} (down full : Bool) (e : BrokerError) (x y : A)
    → down ≡ false
    → full ≡ false
    → x ≡ y
    → (if down then err shut_down else if full then err e else ok x) ≡ ok y
accepts true full e x y h f q = absurd (cc h)
accepts false true e x y h f q = absurd (cc f)
accepts false false e x y h f q = ap ok q

module _ {c : Contents} where
  -- The broker after a sequence of submissions, where a refused one is dropped.
  abbrev pub submitted : Result (Broker c) BrokerError → Broker c → Broker c
  submitted (ok b) old = b
  submitted (err e) old = old

  unfoldable pub submit_all : List (Task c) → Broker c → Broker c
  submit_all [] b = b
  submit_all (t ∷ ts) b = submit_all ts (submitted (submit_task t b) b)

  -- All tasks, in the order in which polling gives them, as long as there are any; the fuel is at
  -- least the length of the queue.
  unfoldable pub poll_all : ℕ → Broker c → List (Task c)
  unfolding poll_task
  poll_all zero b = []
  poll_all (suc n) b =
      let (t, b') = poll_task b in elim t [ none ↦ [] | some task ↦ task ∷ poll_all n b' ]

  submit_task-open :
      (t : Task c) (b : Broker c)
      → b.is_shutdown ≡ false
      → b.max_size ≡ none
      → submit_task t b ≡ ok (accept t b)
  unfolding submit_task
  submit_task-open t b h m = rw (h, m) refl

  submit_all-queue :
      (ts : List (Task c)) (b : Broker c)
      → b.is_shutdown ≡ false
      → b.max_size ≡ none
      → (submit_all ts b).queue ≡ b.queue ++ ts
  unfolding submit_all accept
  submit_all-queue [] b h m = sym (append-nil b.queue)
  submit_all-queue (t ∷ ts) b h m =
      ap (λ r. (submit_all ts (submitted r b)).queue) (submit_task-open t b h m)
      ∙ submit_all-queue ts (accept t b) h m
      ∙ append_assoc b.queue (t ∷ []) ts

  poll_all-queue : (b : Broker c) (ts : List (Task c)) → b.queue ≡ ts → poll_all (length ts) b ≡ ts
  unfolding poll_all
  poll_all-queue b [] e = refl
  poll_all-queue b (t ∷ ts) e =
      rw e (ap (λ l. t ∷ l) (poll_all-queue (record b { queue = ts }) ts refl))

  -- A broker without a bound gives the tasks back in the order in which they were submitted.
  pub poll_all-submit_all :
      (ts : List (Task c)) → poll_all (length ts) (submit_all ts (empty none)) ≡ ts
  poll_all-submit_all ts =
      poll_all-queue (submit_all ts (empty none)) ts (submit_all-queue ts (empty none) refl refl)

  -- A submission is accepted exactly if the broker is neither shut down nor full.
  pub submit_task-ok :
      (t : Task c) (b b' : Broker c)
      → (submit_task t b ≡ ok b') ↔ (
          (b.is_shutdown ≡ false)
          × (is_full b.max_size (length b.queue) ≡ false)
          × (accept t b ≡ b'))
  unfolding submit_task
  submit_task-ok t b b' = (
    accepted b.is_shutdown (is_full b.max_size (length b.queue)) _ (accept t b) b',
    λ (h, f, q).
        accepts b.is_shutdown (is_full b.max_size (length b.queue)) _ (accept t b) b' h f q,
  )

  -- An accepted task keeps the queue within its bound, and stands at its end.
  pub submit_task-Fits :
      (t : Task c) (b b' : Broker c)
      → submit_task t b ≡ ok b'
      → Fits b'.max_size (length b'.queue) × (b'.queue ≡ b.queue ++ t ∷ [])
  unfolding accept
  submit_task-Fits t b b' e =
      let (up, free, q) = (submit_task-ok t b b').0 e in
      rw (sym q) (
        ground (arith, length-append b.queue (t ∷ []), Fits-suc b.max_size (length b.queue) free),
        refl,
      )

  retained :
      (id : String) (ts : List (Task c))
      → All (λ t. (t.id == id) ≡ false) (retain (λ t. not (t.id == id)) ts)
  retained id [] = tt
  retained id (t ∷ ts) = elim (Bool-cases (t.id == id)) [
    | inl e ↦ rw e (retained id ts)
    | inr e ↦ rw e (e, retained id ts)
  ]

  signal-queue :
      (o : Option ℕ) (removed : Bool) (b : Broker c) → (signal o removed b).1.queue ≡ b.queue
  signal-queue none removed b = refl
  signal-queue (some token) removed b = refl

  cancelled-queue :
      (id : String) (b : Broker c)
      → (cancel_task id b).1.queue ≡ retain (λ t. not (t.id == id)) b.queue
  unfolding cancel_task
  cancelled-queue id b = signal-queue (Map.get id b.cancellation_tokens) _ _

  -- No task with the cancelled ID waits any more. If the broker has accepted a task with this ID and
  -- not cleaned up its token, the caller is told so and the token is cancelled.
  pub cancel_task-accept :
      (t : Task c) (b : Broker c)
      → ((cancel_task t.id (accept t b)).0 ≡ true)
        × (is_cancelled t.id (cancel_task t.id (accept t b)).1 ≡ true)
        × All (λ s. (s.id == t.id) ≡ false) (cancel_task t.id (accept t b)).1.queue
  unfolding cancel_task accept is_cancelled
  cancel_task-accept t b = rw (Map.get-insert_self t.id b.next_token b.cancellation_tokens) (
    refl,
    rw (Map.get-insert_self t.id b.next_token b.cancellation_tokens, nat_beq_refl b.next_token)
        refl,
    retained t.id (b.queue ++ t ∷ []),
  )
