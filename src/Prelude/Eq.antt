-- ===== src/Prelude/Eq.antt =====
-- Equality tests, one operator for every type of keys.
use Prim.Native.Nat.{ℕ}
use Prim.Native.String.{String}
use mathlib.Core.Path.{◌≡◌, refl}
use mathlib.Core.Logic.{◌↔◌}
use mathlib.Core.Bool.{Bool, true, ◌||◌}
use mathlib.Core.List.{List, [], ◌∷◌, ◌++◌}
use text.Mathlib.Text
use text.Mathlib.TextEquality.{eq_iff}
use serdes_ai.Prelude.Tests.{nat_beq, nat_beq_iff}
use serdes_ai.Prelude.Lists.{any}
use native.Mathlib.Omega.{arith}

-- A type of keys: Rust's `Eq`, where the derived test agrees with equality.
pub record Key {ℓ} (K : Type ℓ) : Type ℓ where
  pub same : K → K → Bool
  pub same_iff : (x y : K) → (same x y ≡ true) ↔ (x ≡ y)

instance abbrev pub string_key : Key String
string_key = record { same = Text.◌==◌; same_iff = eq_iff }

instance abbrev pub nat_key : Key ℕ
nat_key = record { same = nat_beq; same_iff = nat_beq_iff }

module _ {ℓ} {K : Type ℓ} ⦃key : Key K⦄ where
  infix 50 ◌==◌
  abbrev pub ◌==◌ : K → K → Bool
  x == y = key.same x y

  pub ==_refl : (x : K) → (x == x) ≡ true
  ==_refl x = (key.same_iff x x).1 refl

  -- `HashSet::contains`, `Vec::contains`
  abbrev pub contains : K → List K → Bool
  contains x = any (λ y. y == x)

  pub contains-append :
      (x : K) (xs ys : List K) → contains x (xs ++ ys) ≡ (contains x xs || contains x ys)
  contains-append x [] ys = refl
  contains-append x (y ∷ xs) ys = ground (arith, contains-append x xs ys)
