-- ===== src/Mock/Battery.antt =====
-- The battery that charges and discharges (ec/test-lib/src/mock.rs).
use odp_platform_common.Common.{
  ℕ, zero, suc, ◌+◌, ◌-◌, ◌*◌, ◌%◌, ◌^◌, ◌≤◌, ◌<◌, Bool-cases, ltb, ◌==◌, if◌then◌else◌, ◌≡◌, ◌⊎◌,
  inl, inr, refl, sym, subst, ap, ◌∙◌, arith,
}

-- The state is 2 while it charges, and 1 while it discharges.
pub record BstState : Type 0 where
  pub state : ℕ
  pub capacity : ℕ

abbrev pub max_capacity : ℕ
max_capacity = 10000

abbrev pub rate : ℕ
rate = 1000

-- The change that one poll of `get_bst` makes, on `u32`.
unfoldable pub poll_battery : BstState → BstState
poll_battery b =
    if b.state == 2
    then if ltb max_capacity ((b.capacity + rate) % 2 ^ 32)
      then record { state = 1; capacity = max_capacity }
      else record { state = 2; capacity = (b.capacity + rate) % 2 ^ 32 }
    else record {
      state = if ltb (b.capacity - rate) rate then 2 else b.state;
      capacity = b.capacity - rate;
    }

unfoldable pub polled : ℕ → BstState → BstState
unfolding poll_battery
polled zero b = b
polled (suc n) b = poll_battery (polled n b)

-- Where the cycle of 21 polls is.
abbrev pub phase : ℕ → BstState
phase k = record {
  state = if ltb k 11 then 2 else 1;
  capacity = if ltb k 11 then 1000 * k else 1000 * (21 - k);
}

poll-phase : (k : ℕ) → k < 21 → poll_battery (phase k) ≡ phase (if ltb k 20 then k + 1 else 0)
unfolding poll_battery
poll-phase k below = ground arith

-- The battery of a new mock charges by a tenth over ten polls, stays full for one more while it turns,
-- and discharges by a tenth over the next ten, at whose last it turns again: this holds of every
-- number of polls.
pub polled-phase : (n : ℕ) → polled n (record { state = 2; capacity = 0 }) ≡ phase (n % 21)
unfolding polled
polled-phase zero = refl
polled-phase (suc n) =
    let next : (if ltb (n % 21) 20 then n % 21 + 1 else 0) ≡ suc n % 21 = ground arith in
    ap poll_battery (polled-phase n) ∙ poll-phase (n % 21) (omega arith) ∙ ap phase next

-- A state to which `BatteryState::from_bits` is applied, within the capacity.
pub record IsBattery (b : BstState) : Type 0 where
  pub is_state : (b.state ≡ 1) ⊎ (b.state ≡ 2)
  pub is_bounded : b.capacity ≤ max_capacity

charging :
    (c : ℕ) → c ≤ max_capacity → IsBattery (poll_battery (record { state = 2; capacity = c }))
unfolding poll_battery
charging c small = elim (Bool-cases (ltb max_capacity ((c + rate) % 2 ^ 32))) [
  | inl full ↦ rw full (record { is_state = inl refl; is_bounded = omega arith })
  | inr room ↦ rw room (record { is_state = inr refl; is_bounded = ground arith })
]

discharging :
    (c : ℕ) → c ≤ max_capacity → IsBattery (poll_battery (record { state = 1; capacity = c }))
unfolding poll_battery
discharging c small = elim (Bool-cases (ltb (c - rate) rate)) [
  | inl empty ↦ rw empty (record { is_state = inr refl; is_bounded = omega arith })
  | inr left ↦ rw left (record { is_state = inl refl; is_bounded = omega arith })
]

pub poll_battery-IsBattery : (b : BstState) → IsBattery b → IsBattery (poll_battery b)
poll_battery-IsBattery b i = elim i.is_state [
  | inl one ↦
      subst (λ s. IsBattery (poll_battery (record { state = s; capacity = b.capacity }))) (sym one)
        (discharging b.capacity i.is_bounded)
  | inr two ↦
      subst (λ s. IsBattery (poll_battery (record { state = s; capacity = b.capacity }))) (sym two)
        (charging b.capacity i.is_bounded)
]
