-- ===== src/Mock/Random.antt =====
-- The random numbers of the temperature model (ec/test-lib/src/mock.rs).
use odp_platform_common.Common.{
  ℕ, ◌*◌, ◌/◌, ◌%◌, ◌^◌, ◌<◌, bit_xor, bit_xor-same, bit_xor-bound, ◌≡◌, ◌≢◌, arith,
}

-- The new state, which is also the number drawn.
unfoldable pub xorshift64 : ℕ → ℕ
xorshift64 state =
    let first = bit_xor state (state * 2 ^ 13 % 2 ^ 64) in
    let second = bit_xor first (first / 2 ^ 7) in bit_xor second (second * 2 ^ 17 % 2 ^ 64)

-- A number is its own shift only if it is 0: the multiplier less 1 is odd.
shift_left-same : (s : ℕ) → s < 2 ^ 64 → s ≡ s * 2 ^ 13 % 2 ^ 64 → s ≡ 0
shift_left-same s bound e = omega arith

shift_more-same : (s : ℕ) → s < 2 ^ 64 → s ≡ s * 2 ^ 17 % 2 ^ 64 → s ≡ 0
shift_more-same s bound e = omega arith

shift_right-same : (s : ℕ) → s ≡ s / 2 ^ 7 → s ≡ 0
shift_right-same s e = omega arith

-- The generator stays within 64 bits and, started from another state than 0, never reaches 0, at
-- which it would stay.
pub xorshift64-alive : (s : ℕ) → s < 2 ^ 64 → s ≢ 0 → (xorshift64 s < 2 ^ 64) × (xorshift64 s ≢ 0)
unfolding xorshift64
xorshift64-alive s bound alive =
    let first = bit_xor s (s * 2 ^ 13 % 2 ^ 64) in
    let second = bit_xor first (first / 2 ^ 7) in
    let first_bound : first < 2 ^ 64 =
      bit_xor-bound 64 s (s * 2 ^ 13 % 2 ^ 64) bound (omega arith) in
    let second_bound : second < 2 ^ 64 =
      bit_xor-bound 64 first (first / 2 ^ 7) first_bound (omega arith) in
    (
      bit_xor-bound 64 second (second * 2 ^ 17 % 2 ^ 64) second_bound (omega arith),
      λ e.
          let second_none =
            shift_more-same second second_bound
              (bit_xor-same second (second * 2 ^ 17 % 2 ^ 64) e) in
          let first_none =
            shift_right-same first (bit_xor-same first (first / 2 ^ 7) second_none) in
          alive (shift_left-same s bound (bit_xor-same s (s * 2 ^ 13 % 2 ^ 64) first_none)),
    )
