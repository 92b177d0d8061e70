-- ===== src/Prelude/Words.antt =====
-- Machine words. Rust's `+` on unsigned integers wraps in a release build (a debug build panics
-- instead); a sum below the modulus is the same in both.
use Prim.Native.Nat.{ℕ, ◌+◌, ◌-◌, ◌%◌, ◌^◌, ◌<◌, min}
use mathlib.Core.Path.{◌≡◌}
use native.Mathlib.Omega.{arith}

abbrev pub u64_mod : ℕ
u64_mod = 2 ^ 64

abbrev pub u32_mod : ℕ
u32_mod = 2 ^ 32

unfoldable pub add64 : ℕ → ℕ → ℕ
add64 a b = (a + b) % u64_mod

unfoldable pub add32 : ℕ → ℕ → ℕ
add32 a b = (a + b) % u32_mod

-- `u32::saturating_add`
unfoldable pub saturating_add32 : ℕ → ℕ → ℕ
saturating_add32 a b = min (a + b) (u32_mod - 1)

pub add64_small : (a b : ℕ) → a + b < u64_mod → add64 a b ≡ a + b
unfolding add64
add64_small a b h = omega arith

pub add32_small : (a b : ℕ) → a + b < u32_mod → add32 a b ≡ a + b
unfolding add32
add32_small a b h = omega arith
