-- ===== src/Streaming/Valid.antt =====
-- Every delta handler keeps the manager's indices in range, and its events tell a consumer what
-- changed (serdes-ai-streaming/src/parts_manager.rs).
use serdes_ai.Prelude.{
  ℕ, suc, ◌<◌, ◌≡◌, ◌∙◌, ap, inl, inr, Bool, true, false, Option, none, some, List, [], ◌∷◌, length,
  length-append, get_elem?, set-length, get_elem?-push, get_elem?-ge, get_elem?-lt, Option-cases,
  arith,
}
use serdes_ai.Prelude.Map
use serdes_ai.Streaming.Part.{Json, ManagedPart, Event}
use serdes_ai.Streaming.Manager.{
  VendorId, Manager, Step, rposition, known_index, push_part, set_part, get_or_create_part_index,
  register, vendor_key,
}
use serdes_ai.Streaming.Handlers.{at_index}
use serdes_ai.Streaming.View.{IsValid, IsGood, Local, Succeeds, content_of, content_of_part}

pub rposition-lt {ℓ} :
    {A : Type ℓ} (p : A → Bool) (xs : List A) (i : ℕ) → rposition p xs ≡ some i → i < length xs
unfolding rposition
rposition-lt p [] i e = cc
rposition-lt p (x ∷ xs) i e = elim (Option-cases (rposition p xs)) [
  | inl h ↦ ground arith
  | inr (k, h) ↦ ground (arith, rposition-lt p xs k h)
]

module _ {j : Json} where
  register-lt :
      (m : Manager j) (vid : Option VendorId)
      → IsValid m
      → (v : VendorId) (i : ℕ)
      → Map.get v (register vid (length m.parts) m.vendor_id_to_index) ≡ some i
      → i < suc (length m.parts)
  register-lt m none ok_m v i h = omega (arith, ok_m.in_range v i h)
  register-lt m (some vid) ok_m v i h =
      ground (arith, Map.get-insert vid v (length m.parts) m.vendor_id_to_index, ok_m.in_range v i)

  pub push_part-IsGood :
      (m : Manager j) (vid : Option VendorId) (q : ManagedPart j) (es : List (Event j))
      → IsValid m
      → Local (length m.parts) none (content_of q) es
      → IsGood m (push_part vid q m) es
  unfolding push_part
  push_part-IsGood m vid q es v l = record {
    valid = record {
      in_range = λ w i h. omega (arith, length-append m.parts (q ∷ []), register-lt m vid v w i h);
    };
    tracks = λ seen h k. ground (
      arith,
      get_elem?-push m.parts k q,
      l seen
          (h (length m.parts)
            ∙ ap content_of_part (get_elem?-ge m.parts (length m.parts) (omega arith)))
          k,
      h k,
    );
  }

  -- The part that was pushed is written again.
  pub pushed-IsGood :
      (m : Manager j) (vid : Option VendorId) (p q : ManagedPart j) (es : List (Event j))
      → IsValid m
      → Local (length m.parts) none (content_of q) es
      → IsGood m (set_part (length m.parts) q (push_part vid p m)) es
  unfolding push_part
  pushed-IsGood m vid p q es v l = rw (set-length m.parts p q) (push_part-IsGood m vid q es v l)

  known_index-lt :
      (m : Manager j) (vid : Option VendorId) (predicate : ManagedPart j → Bool) (i : ℕ)
      → IsValid m
      → known_index vid predicate m ≡ some i
      → i < length m.parts
  unfolding known_index
  known_index-lt m (some vid) predicate i v e = v.in_range vid i e
  known_index-lt m none predicate i v e = rposition-lt predicate m.parts i e

  module _ (m : Manager j) (vid : Option VendorId) (predicate : ManagedPart j → Bool)
      (part : ManagedPart j) where
    created :
        known_index vid predicate m ≡ none
        → get_or_create_part_index vid predicate part m
          ≡ (length m.parts, true, push_part vid part m)
    unfolding get_or_create_part_index
    created e = ground (arith, e)

    pub found :
        (i : ℕ)
        → known_index vid predicate m ≡ some i
        → get_or_create_part_index vid predicate part m ≡ (i, false, m)
    unfolding get_or_create_part_index
    found i e = ground (arith, e)

  pub at_index-some :
      (m : Manager j) (i : ℕ) (b : Bool) (body : ℕ → Bool → Manager j → ManagedPart j → Step j)
      (p : ManagedPart j)
      → get_elem? m.parts i ≡ some p
      → at_index (i, b, m) body ≡ body i b m p
  at_index-some m i b body p e = ground (arith, e)

  -- What a handler does to the part that a delta belongs to, old or new.
  pub at_index-IsGood :
      (m : Manager j) (vid : Option VendorId) (predicate : ManagedPart j → Bool)
      (part : ManagedPart j) (body : ℕ → Bool → Manager j → ManagedPart j → Step j)
      → IsValid m
      → ((i : ℕ) (p : ManagedPart j)
          → get_elem? m.parts i ≡ some p
          → Succeeds (IsGood m) (body i false m p))
      → Succeeds (IsGood m) (body (length m.parts) true (push_part vid part m) part)
      → Succeeds (IsGood m) (at_index (get_or_create_part_index vid predicate part m) body)
  unfolding push_part
  at_index-IsGood m vid predicate part body v old fresh =
      elim (Option-cases (known_index vid predicate m)) [
        | inl e ↦
            rw
              (
                created m vid predicate part e,
                at_index-some (push_part vid part m) (length m.parts) true body part
                    (ground (arith, get_elem?-push m.parts (length m.parts) part)),
              )
              fresh
        | inr (i, e) ↦
            let (p, h) = get_elem?-lt m.parts i (known_index-lt m vid predicate i v e) in
            rw (found m vid predicate part i e, at_index-some m i false body p h) (old i p h)
      ]
