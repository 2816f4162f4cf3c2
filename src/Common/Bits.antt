-- ===== src/Common/Bits.antt =====
-- `|` and `&` on unsigned integers, where one side is a mask or the digits do not meet.
use Prim.Native.Nat.{
  ℕ, zero, suc, ◌+◌, ◌-◌, ◌*◌, ◌/◌, ◌%◌, ◌^◌, ◌≤◌, ◌<◌, min, max, digits, bit_and, bit_or,
  bit_and-bitwise, bit_or-bitwise,
}
use mathlib.Core.Path.{◌≡◌, refl, sym, ap, ◌∙◌}
use native.Mathlib.Omega.{arith}

module _ (z : ℕ → ℕ) (f : ℕ → ℕ → ℕ) where
  digits-zero : (n b : ℕ) → digits z f n zero b ≡ z b
  digits-zero zero b = refl
  digits-zero (suc n) b = refl

  -- Any count that is no less than the first number gives the same digits.
  digits_fuel : (c a b d : ℕ) → d ≤ a → d ≤ b → digits z f a d c ≡ digits z f b d c
  digits_fuel c a b zero p q = digits-zero a c ∙ sym (digits-zero b c)
  digits_fuel c zero b (suc d) p q = absurd (omega arith)
  digits_fuel c (suc a) zero (suc d) p q = absurd (omega arith)
  digits_fuel c (suc a) (suc b) (suc d) p q =
      ap (λ t. t * 2 + f (suc d % 2) (c % 2))
        (digits_fuel (c / 2) a b (suc d / 2) (omega arith) (omega arith))

  -- One digit, of a number that is not 0.
  pub digits_step :
      (a b : ℕ)
      → digits z f (suc a) (suc a) b
        ≡ digits z f (suc a / 2) (suc a / 2) (b / 2) * 2 + f (suc a % 2) (b % 2)
  digits_step a b =
      ap (λ t. t * 2 + f (suc a % 2) (b % 2))
        (digits_fuel (b / 2) a (suc a / 2) (suc a / 2) (omega arith) (omega arith))

bit_or_step : (x y : ℕ) → bit_or x y ≡ bit_or (x / 2) (y / 2) * 2 + max (x % 2) (y % 2)
bit_or_step zero y = omega (arith, bit_or-bitwise 0 (y / 2), bit_or-bitwise 0 y)
bit_or_step (suc x) y =
    let whole = bit_or-bitwise (suc x) y in
    let halved = bit_or-bitwise (suc x / 2) (y / 2) in
    omega (arith, whole, halved, digits_step (λ c. c) max x y)

-- `|` with 0, for numbers up to a bound.
bit_or-zero_below : (bound x : ℕ) → x ≤ bound → bit_or x 0 ≡ x
bit_or-zero_below bound zero h = omega (arith, bit_or-bitwise 0 0)
bit_or-zero_below zero (suc x) h = absurd (omega arith)
bit_or-zero_below (suc bound) (suc x) h =
    let smaller = bit_or-zero_below bound (suc x / 2) (omega arith) in
    omega (arith, smaller, bit_or_step (suc x) 0)

-- The lowest digit set.
pub bit_or-one : (x : ℕ) → bit_or x 1 ≡ x / 2 * 2 + 1
bit_or-one x = omega (arith, bit_or_step x 1, bit_or-zero_below (x / 2) (x / 2) (omega arith))

bit_and_step : (x y : ℕ) → bit_and x y ≡ bit_and (x / 2) (y / 2) * 2 + min (x % 2) (y % 2)
bit_and_step zero y = omega (arith, bit_and-bitwise 0 (y / 2), bit_and-bitwise 0 y)
bit_and_step (suc x) y =
    let whole = bit_and-bitwise (suc x) y in
    let halved = bit_and-bitwise (suc x / 2) (y / 2) in
    omega (arith, whole, halved, digits_step (λ c. zero) min x y)

-- `&` with 0, for numbers up to a bound.
bit_and-zero_below : (bound x : ℕ) → x ≤ bound → bit_and x 0 ≡ 0
bit_and-zero_below bound zero h = omega (arith, bit_and-bitwise 0 0)
bit_and-zero_below zero (suc x) h = absurd (omega arith)
bit_and-zero_below (suc bound) (suc x) h =
    let smaller = bit_and-zero_below bound (suc x / 2) (omega arith) in
    omega (arith, smaller, bit_and_step (suc x) 0)

bit_and-zero : (x : ℕ) → bit_and x 0 ≡ 0
bit_and-zero x = bit_and-zero_below x x (omega arith)

bit_or_halves :
    (a b : ℕ) {c d : ℕ} → a / 2 ≡ c → b / 2 ≡ d → bit_or a b ≡ bit_or c d * 2 + max (a % 2) (b % 2)
bit_or_halves a b e f = rw (← e, ← f) (bit_or_step a b)

bit_and_halves :
    (a b : ℕ) {c d : ℕ}
    → a / 2 ≡ c
    → b / 2 ≡ d
    → bit_and a b ≡ bit_and c d * 2 + min (a % 2) (b % 2)
bit_and_halves a b e f = rw (← e, ← f) (bit_and_step a b)

pub pow_pos : (k : ℕ) → 1 ≤ 2 ^ k
pow_pos zero = omega arith
pow_pos (suc k) = omega (arith, pow_pos k)

double : (k x : ℕ) → x * 2 ^ suc k ≡ x * 2 ^ k * 2
double k x = grind arith

-- Digits above a place and digits below it.
pub bit_or-disjoint : (k x a b : ℕ) → a ≡ x * 2 ^ k → b < 2 ^ k → bit_or a b ≡ a + b
bit_or-disjoint zero x a b e h =
    let z : b ≡ 0 = omega arith in rw z (omega (arith, bit_or-zero_below a a (omega arith)))
bit_or-disjoint (suc k) x a b e h =
    let e' : a / 2 ≡ x * 2 ^ k = omega (arith, double k x) in
    omega (
      arith,
      double k x,
      double k 1,
      pow_pos k,
      bit_or_step a b,
      bit_or-disjoint k x (a / 2) (b / 2) e' (omega arith),
    )

-- A mask of the digits below a place.
pub bit_and-low : (k x r a : ℕ) → a ≡ x * 2 ^ k + r → r < 2 ^ k → bit_and a (2 ^ k - 1) ≡ r
bit_and-low zero x r a e h = omega (arith, bit_and-zero a)
bit_and-low (suc k) x r a e h =
    let e' : a / 2 ≡ x * 2 ^ k + r / 2 = omega (arith, double k x) in
    let mask : (2 ^ suc k - 1) / 2 ≡ 2 ^ k - 1 = omega (arith, pow_pos k) in
    omega (
      arith,
      pow_pos k,
      double k x,
      bit_and_halves a (2 ^ suc k - 1) e' mask,
      bit_and-low k x (r / 2) (x * 2 ^ k + r / 2) refl (omega arith),
    )

-- A mask of one digit.
pub bit_and-bit : (k x r a : ℕ) → a ≡ x * 2 ^ k + r → r < 2 ^ k → bit_and a (2 ^ k) ≡ x % 2 * 2 ^ k
bit_and-bit zero x r a e h = omega (arith, bit_and_step a 1, bit_and-zero (a / 2))
bit_and-bit (suc k) x r a e h =
    let e' : a / 2 ≡ x * 2 ^ k + r / 2 = omega (arith, double k x) in
    let mask : 2 ^ suc k / 2 ≡ 2 ^ k = omega arith in
    omega (
      arith,
      double k x,
      double k (x % 2),
      double k 1,
      bit_and_halves a (2 ^ suc k) e' mask,
      bit_and-bit k x (r / 2) (x * 2 ^ k + r / 2) refl (omega arith),
    )
