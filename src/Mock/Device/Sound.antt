-- ===== src/Mock/Device/Sound.antt =====
-- The mock answers every call, and gives back what it was given.
use odp_platform_common.Common.{
  ℕ, suc, ◌^◌, ◌<◌, ◌%◌, ◌-◌, Bool, true, false, Option, Option-cases, none, some, inl, inr,
  bit_or-one, ◌⊎◌, ◌≡◌, ◌≢◌, refl, sym, ap, ◌∙◌, arith,
}
use odp_platform_common.Common.Result.{Result, ok, map_ok, ok_or}
use odp_platform_common.Text.{Text}
use odp_platform_common.Script.Platform.{Platform}
use odp_platform_common.Script.Source.{Devices}
use odp_platform_common.Script.Exec.{World, Summary, run_script}
use odp_platform_common.Script.Exec.Serves.{Serves, run_script-keeps}
use odp_platform_common.Mock.Alarm.{Values}
use odp_platform_common.Mock.Battery.{IsBattery, poll_battery, poll_battery-IsBattery}
use odp_platform_common.Mock.Random.{xorshift64-alive}
use odp_platform_common.Mock.Ramp.{Clock, TempState, settled, retarget, temp_poll, temp_new}
use odp_platform_common.Mock.Device.{
  MockError, invalid_data, Mock, new, get_temperature, rpm_of, get_bst, mock_source,
}

-- A state from which the generator goes on.
abbrev pub IsAlive : ℕ → Type 0
IsAlive rng = (rng < 2 ^ 64) × (rng ≢ 0)

module _ {P : Platform} {D : Devices P} (C : Clock P) (V : Values P D) where
  -- `from_bits` takes both states of the battery.
  abbrev pub TakesStates : Type 0
  TakesStates = (V.from_bits 1 ≢ none) × (V.from_bits 2 ≢ none)

  pub record IsMock (m : Mock P D) : Type 0 where
    pub battery : IsBattery m.bst_state
    pub random : IsAlive m.temp_state.rng

  retarget-IsAlive :
      (is_settled : Bool) (temp : TempState P) (n : ℕ)
      → IsAlive temp.rng
      → IsAlive (retarget C is_settled temp n).1.rng
  unfolding retarget
  retarget-IsAlive false temp n alive = alive
  retarget-IsAlive true temp n alive = xorshift64-alive temp.rng alive.0 alive.1

  temp_poll-IsAlive :
      (temp : TempState P) (n : ℕ) → IsAlive temp.rng → IsAlive (temp_poll C temp n).1.rng
  unfolding temp_poll
  temp_poll-IsAlive temp n alive =
      retarget-IsAlive (settled C temp.ramp n).1 temp (settled C temp.ramp n).0 alive

  temp_new-IsAlive : (n : ℕ) → IsAlive (temp_new C n).1.rng
  unfolding temp_new
  temp_new-IsAlive n =
      let seed = (C.instant (suc n) - C.instant n) % 2 ^ 64 in
      (omega (arith, bit_or-one seed), λ e. omega (arith, bit_or-one seed))

  pub new-IsMock : (n : ℕ) → IsMock (new C V n)
  unfolding new
  new-IsMock n = record {
    battery = record { is_state = inr refl; is_bounded = omega arith };
    random = temp_new-IsAlive n;
  }

  -- An answer of the mock, which stays one.
  abbrev Fine : {A : Type 0} → Mock P D × Result A MockError → Type 0
  Fine {A} r = IsMock r.0 × ((a : A) × (r.1 ≡ ok a))

  from_bits-ok :
      {B : Type 0} (f : V.BatteryState → B) (state : ℕ)
      → (state ≡ 1) ⊎ (state ≡ 2)
      → TakesStates
      → (a : B) × (map_ok f (ok_or (V.from_bits state) invalid_data) ≡ ok a)
  from_bits-ok f state is_state (one, two) = elim (Option-cases (V.from_bits state)) [
    | inr (s, e) ↦ (f s, rw e refl)
    | inl e ↦ elim is_state [
      | inl first ↦ absurd (one (ap V.from_bits (sym first) ∙ e))
      | inr second ↦ absurd (two (ap V.from_bits (sym second) ∙ e))
    ]
  ]

  get_bst-Fine : TakesStates → (m : Mock P D) → IsMock m → Fine (get_bst C V m)
  unfolding get_bst
  get_bst-Fine takes m i =
      let polled = poll_battery-IsBattery m.bst_state i.battery in
      (
        record { battery = polled; random = i.random },
        from_bits-ok _ (poll_battery m.bst_state).state polled.is_state takes,
      )

  rpm_of-Fine : (override : Option P.F) (m : Mock P D) → IsMock m → Fine (rpm_of C V override m)
  unfolding rpm_of
  rpm_of-Fine (some rpm) m i = (i, (rpm, refl))
  rpm_of-Fine none m i = (record { battery = i.battery; random = i.random }, (_, refl))

  get_temperature-Fine : (m : Mock P D) → IsMock m → Fine (get_temperature C V m)
  unfolding get_temperature
  get_temperature-Fine m i = (
    record { battery = i.battery; random = temp_poll-IsAlive m.temp_state m.readings i.random },
    (_, refl),
  )

  -- The property of the source's states.
  unfoldable pub Simulates : (mock_source C V).St → Type 0
  unfolding mock_source
  Simulates m = IsMock m

  -- If `BatteryState::from_bits` takes both states of the battery, every call of the data
  -- source's interface is answered by the mock without an error and keeps these: the battery is in one
  -- of the two states, with no more than its full capacity, and the random generator is within 64 bits and not at 0.
  pub mock_source-Serves : TakesStates → Serves (mock_source C V) Simulates
  unfolding mock_source Simulates
  mock_source-Serves takes = record {
    wait = λ d m i. i;
    get_temperature = get_temperature-Fine;
    get_rpm = λ m i. rpm_of-Fine m.rpm_override m i;
    get_min_rpm = λ m i. (i, (_, refl));
    get_max_rpm = λ m i. (i, (_, refl));
    get_threshold = λ t m i. (i, (_, refl));
    set_threshold = λ t v m i. (record { battery = i.battery; random = i.random }, (_, refl));
    set_rpm = λ v m i. (record { battery = i.battery; random = i.random }, (_, refl));
    get_bst = get_bst-Fine takes;
    get_bix = λ m i. (i, (_, refl));
    set_btp = λ v m i. (i, (_, refl));
    get_capabilities = λ m i. (i, (_, refl));
    get_real_time = λ m i. (i, (_, refl));
    set_real_time = λ t m i. (record { battery = i.battery; random = i.random }, (_, refl));
    get_wake_status = λ id m i. (i, (_, refl));
    get_expired_timer_wake_policy = λ id m i. (i, (_, refl));
    get_timer_value = λ id m i. (i, (_, refl));
    set_timer_value = λ id v m i. (record { battery = i.battery; random = i.random }, (_, refl));
    set_expired_timer_wake_policy =
        λ id v m i. (record { battery = i.battery; random = i.random }, (_, refl));
    clear_wake_status = λ id m i. (record { battery = i.battery; random = i.random }, (_, refl));
  }

  -- A new mock, as a state of the source.
  unfoldable pub start : ℕ → (mock_source C V).St
  unfolding mock_source new
  start n = new C V n

  -- After every script that parses, run from a new mock, the battery is in one of its two states with
  -- no more than its full capacity, and the random generator goes on, if `BatteryState::from_bits`
  -- takes both states.
  pub run_script-Simulates :
      (readings : ℕ) (script : Text) {w : World P D (mock_source C V)} {sum : Summary}
      → TakesStates
      → run_script P D (mock_source C V) (start readings) script ≡ ok (w, sum)
      → Simulates w.source
  unfolding start Simulates
  run_script-Simulates readings script takes h =
      run_script-keeps (mock_source C V) Simulates (mock_source-Serves takes) (start readings)
        script h (new-IsMock readings)
