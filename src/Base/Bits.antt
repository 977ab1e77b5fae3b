-- ===== src/Base/Bits.antt =====
-- Masking by `&`.
use Prim.Native.Nat.{ℕ, zero, suc, ◌/◌, ◌≤◌, min, bit_and, digits, bit_and-bitwise}
use native.Mathlib.Omega.{arith}

digits-min-le : (n a b : ℕ) → digits (λ b. zero) min n a b ≤ b
digits-min-le zero zero b = omega arith
digits-min-le zero (suc a) b = omega arith
digits-min-le (suc n) zero b = omega arith
digits-min-le (suc n) (suc a) b = omega (arith, digits-min-le n (suc a / 2) (b / 2))

-- A masked number is at most the mask.
pub bit_and-le : (a b : ℕ) → bit_and a b ≤ b
bit_and-le a b = omega (arith, bit_and-bitwise a b, digits-min-le a a b)
