-- ===== src/Base/Arithmetic.antt =====
-- Powers and products of native numbers.
use Prim.Native.Nat.{ℕ, zero, suc, ◌*◌, ◌^◌, ◌≤◌}
use native.Mathlib.Omega.{arith}

pub pow_positive : (n : ℕ) → 1 ≤ 2 ^ n
pow_positive zero = omega arith
pow_positive (suc n) = omega (arith, pow_positive n)

pub mul_mono_left : (a b c : ℕ) → a ≤ b → a * c ≤ b * c
mul_mono_left a b zero h = omega arith
mul_mono_left a b (suc c) h = omega (arith, mul_mono_left a b c h)

pub mul_mono_right : (a c d : ℕ) → c ≤ d → a * c ≤ a * d
mul_mono_right zero c d h = omega arith
mul_mono_right (suc a) c d h = omega (arith, mul_mono_right a c d h)
