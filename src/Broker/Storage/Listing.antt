-- ===== src/Broker/Storage/Listing.antt =====
-- The order of the tasks that the in-memory storage lists.
use serdes_ai.Prelude.{
  ℕ, suc, ◌≡◌, refl, ◌≤◌, Option, none, some, List, [], ◌∷◌, ◌++◌, All, append-nil, length, min,
  drop, length-take, take-append-drop, leb, Bool-cases, inl, inr, arith,
}
use mathlib.Core.List.{Perm}
use mathlib.Core.List.Perm
use serdes_ai.Broker.Task.{Contents, Task}
use serdes_ai.Broker.Storage.{Storage, values, insert_newest, newest_first, list_tasks}

abbrev pub within : Option ℕ → ℕ → ℕ
within none n = n
within (some limit) n = min limit n

module _ {c : Contents} (stamp : c.Time → ℕ) where
  -- No task is newer than the one before it.
  abbrev NotNewer : Task c → Task c → Type 0
  NotNewer t u = stamp u.created_at ≤ stamp t.created_at

  abbrev pub IsNewestFirst : List (Task c) → Type 0
  IsNewestFirst [] = Unit
  IsNewestFirst (t ∷ ts) = All (NotNewer t) ts × IsNewestFirst ts

  All-trans :
      (t u : Task c) (us : List (Task c)) → NotNewer t u → All (NotNewer u) us → All (NotNewer t) us
  All-trans t u [] h hs = tt
  All-trans t u (v ∷ us) h hs = (omega (arith, h, hs.0), All-trans t u us h hs.1)

  insert_newest-All :
      (t u : Task c) (us : List (Task c))
      → NotNewer u t
      → All (NotNewer u) us
      → All (NotNewer u) (insert_newest stamp t us)
  unfolding insert_newest
  insert_newest-All t u [] h hs = (h, tt)
  insert_newest-All t u (v ∷ us) h hs =
      elim (Bool-cases (leb (stamp v.created_at) (stamp t.created_at))) [
        | inl b ↦ rw b (h, hs)
        | inr b ↦ rw b (hs.0, insert_newest-All t u us h hs.1)
      ]

  insert_newest-IsNewestFirst :
      (t : Task c) (us : List (Task c))
      → IsNewestFirst us
      → IsNewestFirst (insert_newest stamp t us)
  unfolding insert_newest
  insert_newest-IsNewestFirst t [] h = (tt, tt)
  insert_newest-IsNewestFirst t (u ∷ us) h =
      elim (Bool-cases (leb (stamp u.created_at) (stamp t.created_at))) [
        | inl b ↦
            let older : NotNewer t u = ground (arith, b) in
            rw b ((older, All-trans t u us older h.0), h)
        | inr b ↦
            rw b (
              insert_newest-All t u us (ground (arith, b)) h.0,
              insert_newest-IsNewestFirst t us h.1,
            )
      ]

  insert_newest-Perm : (t : Task c) (us : List (Task c)) → Perm (insert_newest stamp t us) (t ∷ us)
  unfolding insert_newest
  insert_newest-Perm t [] = Perm.refl (t ∷ [])
  insert_newest-Perm t (u ∷ us) =
      elim (Bool-cases (leb (stamp u.created_at) (stamp t.created_at))) [
        | inl b ↦ rw b (Perm.refl (t ∷ u ∷ us))
        | inr b ↦ rw b (Perm.trans (Perm.cons u (insert_newest-Perm t us)) (Perm.swap t u us))
      ]

  newest_first-IsNewestFirst : (ts : List (Task c)) → IsNewestFirst (newest_first stamp ts)
  unfolding newest_first
  newest_first-IsNewestFirst [] = tt
  newest_first-IsNewestFirst (t ∷ ts) =
      insert_newest-IsNewestFirst t (newest_first stamp ts) (newest_first-IsNewestFirst ts)

  newest_first-Perm : (ts : List (Task c)) → Perm (newest_first stamp ts) ts
  unfolding newest_first
  newest_first-Perm [] = Perm.refl []
  newest_first-Perm (t ∷ ts) =
      Perm.trans (insert_newest-Perm t (newest_first stamp ts)) (Perm.cons t (newest_first-Perm ts))

  length-insert_newest :
      (t : Task c) (us : List (Task c)) → length (insert_newest stamp t us) ≡ suc (length us)
  unfolding insert_newest
  length-insert_newest t [] = refl
  length-insert_newest t (u ∷ us) = ground (arith, length-insert_newest t us)

  length-newest_first : (ts : List (Task c)) → length (newest_first stamp ts) ≡ length ts
  unfolding newest_first
  length-newest_first [] = refl
  length-newest_first (t ∷ ts) =
      omega (arith, length-insert_newest t (newest_first stamp ts), length-newest_first ts)

  -- The listed tasks and those that the limit leaves out are together the stored ones, in an order
  -- from the newest to the oldest; so what is left out is not newer than what is listed. All are
  -- listed without a limit, and with one as many as it allows.
  pub list_tasks-IsNewestFirst :
      (limit : Option ℕ) (s : Storage c)
      → (rest : List (Task c)) × IsNewestFirst (list_tasks stamp limit s ++ rest)
        × Perm (list_tasks stamp limit s ++ rest) (values s)
        × (length (list_tasks stamp limit s) ≡ within limit (length (values s)))
  unfolding list_tasks
  list_tasks-IsNewestFirst none s = (
    [],
    rw append-nil (newest_first-IsNewestFirst (values s)),
    rw append-nil (newest_first-Perm (values s)),
    length-newest_first (values s),
  )
  list_tasks-IsNewestFirst (some limit) s =
      let all_tasks = newest_first stamp (values s) in
      (
        drop limit all_tasks,
        rw (take-append-drop limit all_tasks) (newest_first-IsNewestFirst (values s)),
        rw (take-append-drop limit all_tasks) (newest_first-Perm (values s)),
        rw (length-take limit all_tasks, length-newest_first (values s)),
      )
