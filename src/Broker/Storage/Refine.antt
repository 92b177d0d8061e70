-- ===== src/Broker/Storage/Refine.antt =====
-- The in-memory storage implements a partial function from IDs to tasks.
use serdes_ai.Prelude.{
  ◌≡◌, refl, sym, String, Bool, false, not, Option, none, some, List, [], ◌∷◌, if◌then◌else◌,
  is_some, Bool-cases, string_key, ◌==◌, inl, inr,
}
use serdes_ai.Prelude.Map
use serdes_ai.Prelude.Map.{Map}
use serdes_ai.Prelude.Result.{Result, ok, err}
use serdes_ai.Broker.Task.{Contents, Task}
use serdes_ai.Broker.Storage
use serdes_ai.Broker.Storage.{
  Storage, StorageError, not_found, already_exists, new, get_task, save_task, update_task,
  delete_task,
}

-- A call of a method, and its reply.
pub data Call (c : Contents) : Type 0 where
  get : String → Call c
  save : Task c → Call c
  update : Task c → Call c
  delete : String → Call c
  clear : Call c

pub data Reply (c : Contents) (JsonError : Type 0) : Type 0 where
  found : Option (Task c) → Reply c JsonError
  done : Result (Unit {0}) (StorageError JsonError) → Reply c JsonError

module _ {c : Contents} {JsonError : Type 0} where
  abbrev pub apply : Call c → Storage c → Reply c JsonError × Storage c
  apply (get id) s = (found (get_task id s), s)
  apply (save t) s = let r = save_task t s in (done r.0, r.1)
  apply (update t) s = let r = update_task t s in (done r.0, r.1)
  apply (delete id) s = let r = delete_task id s in (done r.0, r.1)
  apply clear s = (done (ok tt), Storage.clear s)

  abbrev pub replies : List (Call c) → Storage c → List (Reply c JsonError)
  replies [] s = []
  replies (call ∷ calls) s = let r = apply call s in r.0 ∷ replies calls r.1

-- The specification: a partial function from IDs to tasks.
abbrev pub Spec : Contents → Type 0
Spec c = String → Option (Task c)

is_none : {A : Type 0} (o : Option A) → is_some o ≡ false → o ≡ none
is_none none h = refl
is_none (some a) h = absurd (cc h)

module _ {c : Contents} where
  abbrev pub put : String → Option (Task c) → Spec c → Spec c
  put id t m j = if id == j then t else m j

  abbrev Agrees : Storage c → Spec c → Type 0
  Agrees s m = (id : String) → Map.get id s ≡ m id

  insert-Agrees :
      (s : Storage c) (m : Spec c) (t : Task c)
      → Agrees s m
      → Agrees (Map.insert t.id t s) (put t.id (some t) m)
  insert-Agrees s m t h id = rw (Map.get-insert t.id id t s, h id)

  remove-Agrees :
      (s : Storage c) (m : Spec c) (id : String)
      → Agrees s m
      → Agrees (Map.remove id s) (put id none m)
  remove-Agrees s m id h j = rw (Map.get-remove id j s, h j)

  -- Removing what is not there changes nothing.
  remove_none-Agrees :
      (s : Storage c) (m : Spec c) (id : String)
      → is_some (m id) ≡ false
      → Agrees s m
      → Agrees (Map.remove id s) m
  remove_none-Agrees s m id e h j = elim (Bool-cases (id == j)) [
    | inl b ↦
        let e' : m j ≡ none = is_none (m j) (rw (sym ((string_key.same_iff id j).0 b)) e) in
        rw (Map.get-remove id j s, b, e')
    | inr b ↦ rw (Map.get-remove id j s, b, h j)
  ]

module _ {c : Contents} {JsonError : Type 0} where
  -- A call that needs the ID to be there, or not to be there, and then writes it.
  abbrev write :
      Bool → StorageError JsonError → String → Option (Task c) → Spec c → Reply c JsonError × Spec c
  write allowed error id t m = if allowed then (done (ok tt), put id t m) else (done (err error), m)

  abbrev pub spec : Call c → Spec c → Reply c JsonError × Spec c
  spec (get id) m = (found (m id), m)
  spec (save t) m = write (not (is_some (m t.id))) (already_exists t.id) t.id (some t) m
  spec (update t) m = write (is_some (m t.id)) (not_found t.id) t.id (some t) m
  spec (delete id) m = write (is_some (m id)) (not_found id) id none m
  spec clear m = (done (ok tt), λ id. none)

  abbrev pub spec_replies : List (Call c) → Spec c → List (Reply c JsonError)
  spec_replies [] m = []
  spec_replies (call ∷ calls) m = let r = spec call m in r.0 ∷ spec_replies calls r.1

  apply-Agrees :
      (call : Call c) (s : Storage c) (m : Spec c)
      → Agrees s m
      → ((apply {JsonError = JsonError} call s).0 ≡ (spec call m).0)
        × Agrees (apply {JsonError = JsonError} call s).1 (spec call m).1
  unfolding get_task save_task update_task delete_task Storage.clear Map.get
  apply-Agrees (get id) s m h = (rw (h id), h)
  apply-Agrees (save t) s m h = elim (Bool-cases (is_some (m t.id))) [
    | inl e ↦ rw (h t.id, e) (refl, h)
    | inr e ↦ rw (h t.id, e) (refl, insert-Agrees s m t h)
  ]
  apply-Agrees (update t) s m h = elim (Bool-cases (is_some (m t.id))) [
    | inl e ↦ rw (h t.id, e) (refl, insert-Agrees s m t h)
    | inr e ↦ rw (h t.id, e) (refl, h)
  ]
  apply-Agrees (delete id) s m h = elim (Bool-cases (is_some (m id))) [
    | inl e ↦ rw (h id, e) (refl, remove-Agrees s m id h)
    | inr e ↦ rw (h id, e) (refl, remove_none-Agrees s m id e h)
  ]
  apply-Agrees clear s m h = (refl, λ id. refl)

  replies-Agrees :
      (calls : List (Call c)) (s : Storage c) (m : Spec c)
      → Agrees s m
      → replies {JsonError = JsonError} calls s ≡ spec_replies calls m
  replies-Agrees [] s m h = refl
  replies-Agrees (call ∷ calls) s m h =
      let (e, h') = apply-Agrees call s m h in
      rw (e, replies-Agrees calls (apply {JsonError = JsonError} call s).1 (spec call m).1 h')

  -- The replies of a new storage to any sequence of calls are those of a partial function that is
  -- nowhere defined at first: a task is found under its ID after it was saved or updated, with its
  -- last contents, until it is deleted or all is cleared; saving an ID twice, and updating or
  -- deleting an ID that is not there, is refused.
  pub replies-new :
      (calls : List (Call c))
      → replies {JsonError = JsonError} calls new ≡ spec_replies calls (λ id. none)
  unfolding Map.get
  replies-new calls = replies-Agrees calls new (λ id. none) (λ id. refl)
