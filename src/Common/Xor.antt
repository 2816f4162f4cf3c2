-- ===== src/Common/Xor.antt =====
-- `^` on unsigned integers.
use Prim.Native.Nat.{
  ℕ, zero, suc, ◌+◌, ◌*◌, ◌/◌, ◌%◌, ◌^◌, ◌≤◌, ◌<◌, differ, bit_xor, bit_xor-bitwise,
}
use mathlib.Core.Path.{◌≡◌, refl}
use native.Mathlib.Omega.{arith}
use odp_platform_common.Common.Bits.{digits_step}

bit_xor_step : (x y : ℕ) → bit_xor x y ≡ bit_xor (x / 2) (y / 2) * 2 + differ (x % 2) (y % 2)
bit_xor_step zero y = omega (arith, bit_xor-bitwise 0 (y / 2), bit_xor-bitwise 0 y)
bit_xor_step (suc x) y =
    let whole = bit_xor-bitwise (suc x) y in
    let halved = bit_xor-bitwise (suc x / 2) (y / 2) in
    omega (arith, whole, halved, digits_step (λ c. c) differ x y)

differ_bits : (a b : ℕ) → a ≤ 1 → b ≤ 1 → (differ a b ≡ 0 → a ≡ b) × (differ a b ≤ 1)
differ_bits zero zero p q = ((λ e. refl), omega arith)
differ_bits zero (suc zero) p q = ((λ e. omega arith), omega arith)
differ_bits (suc zero) zero p q = ((λ e. omega arith), omega arith)
differ_bits (suc zero) (suc zero) p q = ((λ e. refl), omega arith)
differ_bits (suc (suc a)) b p q = absurd (omega arith)
differ_bits a (suc (suc b)) p q = absurd (omega arith)

bit_xor-same_below : (bound x y : ℕ) → x ≤ bound → y ≤ bound → bit_xor x y ≡ 0 → x ≡ y
bit_xor-same_below zero x y p q e = omega arith
bit_xor-same_below (suc bound) x y p q e =
    let digits = (differ_bits (x % 2) (y % 2) (omega arith) (omega arith)).0 in
    let split = bit_xor_step x y in
    let low = digits (omega arith) in
    let high = bit_xor-same_below bound (x / 2) (y / 2) (omega arith) (omega arith) (omega arith) in
    omega arith

-- Only equal numbers cancel.
pub bit_xor-same : (x y : ℕ) → bit_xor x y ≡ 0 → x ≡ y
bit_xor-same x y = bit_xor-same_below (x + y) x y (omega arith) (omega arith)

pub bit_xor-bound : (k x y : ℕ) → x < 2 ^ k → y < 2 ^ k → bit_xor x y < 2 ^ k
bit_xor-bound zero x y p q =
    let none_left : x ≡ 0 = omega arith in
    let none_right : y ≡ 0 = omega arith in
    rw (none_left, none_right) (omega (arith, bit_xor-bitwise 0 0))
bit_xor-bound (suc k) x y p q =
    let split = bit_xor_step x y in
    let digit = (differ_bits (x % 2) (y % 2) (omega arith) (omega arith)).1 in
    let high = bit_xor-bound k (x / 2) (y / 2) (omega arith) (omega arith) in omega arith
