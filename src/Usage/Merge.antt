-- ===== src/Usage/Merge.antt =====
-- Laws of `RequestUsage::merge`, the `+` of the type.
use serdes_ai.Prelude.{ℕ, ◌<◌, ◌≡◌, refl, Option, none, some, unwrap_or, arith}
use serdes_ai.Prelude.Words.{add64, u64_mod}
use serdes_ai.Usage.{
  RequestUsage, recalculate_total, add_counts, with_tokens, set_request_tokens, set_response_tokens,
  merge, total,
}

add64_assoc : (a b c : ℕ) → add64 (add64 a b) c ≡ add64 a (add64 b c)
unfolding add64
add64_assoc a b c = omega arith

add64_comm : (a b : ℕ) → add64 a b ≡ add64 b a
unfolding add64
add64_comm a b = omega arith

add_counts_assoc :
    (a b c : Option ℕ) → add_counts (add_counts a b) c ≡ add_counts a (add_counts b c)
unfolding add_counts
add_counts_assoc (some a) (some b) (some c) = rw (add64_assoc a b c)
add_counts_assoc (some a) (some b) none = refl
add_counts_assoc (some a) none (some c) = refl
add_counts_assoc (some a) none none = refl
add_counts_assoc none (some b) (some c) = refl
add_counts_assoc none (some b) none = refl
add_counts_assoc none none (some c) = refl
add_counts_assoc none none none = refl

add_counts_comm : (a b : Option ℕ) → add_counts a b ≡ add_counts b a
unfolding add_counts
add_counts_comm (some a) (some b) = rw (add64_comm a b)
add_counts_comm (some a) none = refl
add_counts_comm none (some b) = refl
add_counts_comm none none = refl

module _ {ℓ} {V : Type ℓ} where
  -- Merging is associative: how the usages of a request are grouped does not matter.
  pub merge_assoc : (a b c : RequestUsage V) → merge (merge a b) c ≡ merge a (merge b c)
  unfolding merge
  merge_assoc a b c = cc (
    add_counts_assoc a.request_tokens b.request_tokens c.request_tokens,
    add_counts_assoc a.response_tokens b.response_tokens c.response_tokens,
    add_counts_assoc a.cache_creation_tokens b.cache_creation_tokens c.cache_creation_tokens,
    add_counts_assoc a.cache_read_tokens b.cache_read_tokens c.cache_read_tokens,
  )

  -- With the details left out, merging is commutative.
  pub merge_comm : (a b : RequestUsage V) → merge a b ≡ record (merge b a) { details = a.details }
  unfolding merge
  merge_comm a b = cc (
    add_counts_comm a.request_tokens b.request_tokens,
    add_counts_comm a.response_tokens b.response_tokens,
    add_counts_comm a.cache_creation_tokens b.cache_creation_tokens,
    add_counts_comm a.cache_read_tokens b.cache_read_tokens,
  )

-- The counts fit their machine type.
abbrev pub Fits : Option ℕ → Type 0
Fits none = Unit
Fits (some n) = n < u64_mod

add_counts_total :
    (a b : Option ℕ)
    → Fits a
    → Fits b
    → unwrap_or (add_counts a b) (add64 (unwrap_or a 0) (unwrap_or b 0))
      ≡ add64 (unwrap_or a 0) (unwrap_or b 0)
unfolding add_counts add64
add_counts_total (some a) (some b) ha hb = refl
add_counts_total (some a) none ha hb = omega arith
add_counts_total none (some b) ha hb = omega arith
add_counts_total none none ha hb = refl

add_counts-Fits : (a b : Option ℕ) → Fits a → Fits b → Fits (add_counts a b)
unfolding add_counts add64
add_counts-Fits (some a) (some b) ha hb = omega arith
add_counts-Fits (some a) none ha hb = ha
add_counts-Fits none (some b) ha hb = hb
add_counts-Fits none none ha hb = tt

module _ {ℓ} {V : Type ℓ} where
  abbrev pub InRange : RequestUsage V → Type 0
  InRange u = Fits u.request_tokens × Fits u.response_tokens

  -- The total is the sum of the two counts, those that are absent counted as 0.
  abbrev pub IsConsistent : RequestUsage V → Type 0
  IsConsistent u = total u ≡ add64 (unwrap_or u.request_tokens 0) (unwrap_or u.response_tokens 0)

  recalculate_total-IsConsistent :
      (u : RequestUsage V) → InRange u → IsConsistent (recalculate_total u)
  unfolding recalculate_total total
  recalculate_total-IsConsistent u h = add_counts_total u.request_tokens u.response_tokens h.0 h.1

  -- Merging two usages whose counts fit a `u64` leaves a usage whose counts fit and whose total is
  -- the (wrapping) sum of its two counts, whatever totals the two had before.
  pub merge-IsConsistent :
      (a b : RequestUsage V)
      → InRange a
      → InRange b
      → InRange (merge a b) × IsConsistent (merge a b)
  unfolding merge
  merge-IsConsistent a b ha hb =
      let request = add_counts-Fits a.request_tokens b.request_tokens ha.0 hb.0 in
      let response = add_counts-Fits a.response_tokens b.response_tokens ha.1 hb.1 in
      ((request, response), recalculate_total-IsConsistent (merge a b) (request, response))

  -- The constructor with both counts, and the two setters, leave a consistent total too.
  pub builders-IsConsistent :
      (u : RequestUsage V) (n m : ℕ)
      → n < u64_mod
      → m < u64_mod
      → InRange u
      → IsConsistent (with_tokens {V = V} n m)
        × IsConsistent (set_request_tokens n u)
        × IsConsistent (set_response_tokens m u)
  unfolding with_tokens set_request_tokens set_response_tokens total
  builders-IsConsistent u n m hn hm h = (
    refl,
    add_counts_total (some n) u.response_tokens hn h.1,
    add_counts_total u.request_tokens (some m) h.0 hm,
  )
