-- ===== src/Retries/Condition.antt =====
-- `RetryCondition` of serdes-ai-retries/src/config.rs.
use serdes_ai.Prelude.{
  ℕ, zero, suc, ◌+◌, ◌≡◌, ◌↔◌, refl, Bool, true, false, ◌||◌, Option, none, some, List, [], ◌∷◌,
  ◌++◌, contains, Bool-cases, nat_key, ◌⊎◌, inl, inr, arith,
}
use serdes_ai.Retries.Error.{RetryableError, is_retryable, status}

pub record RetryCondition (X : Type 0) : Type 0 where
  pub on_status_codes : List ℕ
  pub custom : Option (RetryableError X → Bool)

-- `first..=first + n - 1`
range : ℕ → ℕ → List ℕ
range first zero = []
range first (suc n) = first ∷ range (first + 1) n

-- The status test in front of the error's own.
listed : List ℕ → Option ℕ → Bool
listed codes none = false
listed codes (some code) = contains code codes

listed_or :
    (codes : List ℕ) (o : Option ℕ) (b : Bool)
    → ((listed codes o || b) ≡ true)
      ↔ (((code : ℕ) × (o ≡ some code) × (contains code codes ≡ true)) ⊎ (b ≡ true))
unfolding listed
listed_or codes none b = (λ h. inr h, λ h. ground arith)
listed_or codes (some code) b = (
  λ h. elim (Bool-cases (contains code codes)) [
    | inl found ↦ inl (code, refl, found)
    | inr missing ↦ inr (ground arith)
  ],
  λ h. ground arith,
)

module _ {X : Type 0} where
  abbrev pub new_condition : RetryCondition X
  new_condition = record { on_status_codes = []; custom = none }

  on_status : List ℕ → RetryCondition X → RetryCondition X
  on_status codes c = record c { on_status_codes = c.on_status_codes ++ codes }

  unfoldable pub on_server_errors : RetryCondition X → RetryCondition X
  unfolding on_status range
  on_server_errors c = on_status (range 500 100) c

  unfoldable pub on_rate_limit : RetryCondition X → RetryCondition X
  on_rate_limit c = record c { on_status_codes = c.on_status_codes ++ 429 ∷ [] }

  pub condition_should_retry : RetryCondition X → RetryableError X → Bool
  unfolding listed
  condition_should_retry c error = elim c.custom [
    | some predicate ↦ predicate error
    | none ↦ listed c.on_status_codes (status error) || is_retryable error
  ]

  -- Without a predicate of its own a condition retries exactly the errors whose status it lists and
  -- those that are retryable by themselves; with one, exactly the errors that the predicate takes.
  pub condition_should_retry_iff :
      (codes : List ℕ) (predicate : RetryableError X → Bool) (error : RetryableError X)
      → ((condition_should_retry (record { on_status_codes = codes; custom = none }) error ≡ true)
          ↔ (((code : ℕ) × (status error ≡ some code) × (contains code codes ≡ true))
              ⊎ (is_retryable error ≡ true)))
        × (condition_should_retry
              (record { on_status_codes = codes; custom = some predicate })
              error
            ≡ predicate error)
  unfolding condition_should_retry
  condition_should_retry_iff codes predicate error =
      (listed_or codes (status error) (is_retryable error), refl)
