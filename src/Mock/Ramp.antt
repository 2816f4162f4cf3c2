-- ===== src/Mock/Ramp.antt =====
-- Linear ramps over time, and the temperature model built on them (ec/test-lib/src/mock.rs). The clock
-- is a parameter: what its n-th reading gives. Code that reads it passes on the number of readings.
use odp_platform_common.Common.{
  ℕ, suc, ◌-◌, ◌%◌, ◌^◌, bit_or, Bool, true, false, ltb, if◌then◌else◌,
}
use odp_platform_common.Mock.Random.{xorshift64}
use odp_platform_common.Script.Platform.{Platform}
use odp_platform_common.Serial.Device.{Float}

-- What the ramps take from outside: more of `f64`, and instants in nanoseconds.
pub record Clock (P : Platform) : Type 0 where
  pub float : Float P
  pub abs : P.F → P.F
  pub epsilon : P.F
  -- `Duration::as_secs_f64` of nanoseconds.
  pub as_secs_f64 : ℕ → P.F
  -- The instant of a reading.
  pub instant : ℕ → ℕ

-- Code that reads the clock.
abbrev pub Timed : Type 0 → Type 0
Timed A = ℕ → ℕ × A

pub record Ramp (P : Platform) : Type 0 where
  pub current : P.F
  pub target : P.F
  pub start_value : P.F
  pub start_time : ℕ
  pub duration_secs : P.F

pub record TempState (P : Platform) : Type 0 where
  pub ramp : Ramp P
  pub rng : ℕ
  pub idle_temp : P.F

module _ {P : Platform} (C : Clock P) where
  open P use {F, lt, le, of_ℕ}
  open C use {float}

  -- `Instant::now()`, and the time since an instant in seconds.
  abbrev pub now : Timed ℕ
  now n = (suc n, C.instant n)

  abbrev pub elapsed : ℕ → Timed F
  elapsed start n = (suc n, C.as_secs_f64 (C.instant n - start))

  unfoldable pub ramp_new : F → Timed (Ramp P)
  ramp_new initial n =
      let (n', start) = now n in
      (
        n',
        record {
          current = initial;
          target = initial;
          start_value = initial;
          start_time = start;
          duration_secs = of_ℕ 0;
        },
      )

  unfoldable pub set_target : F → F → Ramp P → Timed (Ramp P)
  set_target target duration ramp n =
      if lt C.epsilon (C.abs (float.sub ramp.target target))
      then (
        (now n).0,
        record ramp {
          start_value = ramp.current;
          target = target;
          start_time = (now n).1;
          duration_secs = duration;
        },
      )
      else (n, ramp)

  -- `f64::clamp` to 0 and 1.
  unfoldable pub clamp_unit : F → F
  clamp_unit t = if lt t (of_ℕ 0) then of_ℕ 0 else if lt (of_ℕ 1) t then of_ℕ 1 else t

  -- The ramp with its new current value.
  unfoldable pub ramp_value : Ramp P → Timed (Ramp P)
  unfolding clamp_unit
  ramp_value ramp n =
      if le ramp.duration_secs (of_ℕ 0)
      then (n, record ramp { current = ramp.target })
      else let (n', seconds) = elapsed ramp.start_time n in
        let t = clamp_unit (float.div seconds ramp.duration_secs) in
        (
          n',
          record ramp {
            current =
                float.add ramp.start_value (float.mul (float.sub ramp.target ramp.start_value) t);
          },
        )

  unfoldable pub settled : Ramp P → Timed Bool
  settled ramp n =
      if le ramp.duration_secs (of_ℕ 0)
      then (n, true)
      else let (n', seconds) = elapsed ramp.start_time n in (n', le ramp.duration_secs seconds)

  abbrev pub idle_temp : F
  idle_temp = of_ℕ 25

  abbrev pub temp_ramp_secs : F
  temp_ramp_secs = of_ℕ 5

  -- The seed is odd.
  unfoldable pub temp_new : Timed (TempState P)
  unfolding ramp_new
  temp_new n =
      let (n', start) = now n in
      let (n'', later) = now n' in
      let (last, ramp) = ramp_new idle_temp n'' in
      (
        last,
        record { ramp = ramp; rng = bit_or ((later - start) % 2 ^ 64) 1; idle_temp = idle_temp },
      )

  -- `base + (r % span) as f64 / 100.0`.
  abbrev pub spread : F → ℕ → ℕ → F
  spread base r span = float.add base (float.div (of_ℕ (r % span)) (of_ℕ 100))

  -- The peak of a load event.
  unfoldable pub load_target : ℕ → F
  load_target r =
      if ltb (r % 10) 4
      then spread (of_ℕ 30) r 800
      else if ltb (r % 10) 7
      then spread (of_ℕ 40) r 400
      else if ltb (r % 10) 9
      then spread (of_ℕ 44) r 600
      else spread (of_ℕ 50) r 300

  unfoldable pub next_target : F → ℕ → F
  unfolding load_target
  next_target idle r =
      if ltb (r % 100) 40
      then load_target r
      else float.add idle (float.div (of_ℕ (r % 400)) (of_ℕ 100))

  -- A settled ramp gets its next target.
  unfoldable pub retarget : Bool → TempState P → Timed (TempState P)
  unfolding xorshift64 next_target set_target
  retarget false temp n = (n, temp)
  retarget true temp n =
      let r = xorshift64 temp.rng in
      let (n', ramp) = set_target (next_target temp.idle_temp r) temp_ramp_secs temp.ramp n in
      (n', record temp { ramp = ramp; rng = r })

  -- The temperature is the current value of the ramp.
  unfoldable pub temp_poll : TempState P → Timed (TempState P)
  unfolding settled retarget ramp_value
  temp_poll temp n =
      let (n', is_settled) = settled temp.ramp n in
      let (n'', targeted) = retarget is_settled temp n' in
      let (last, ramp) = ramp_value targeted.ramp n'' in (last, record targeted { ramp = ramp })
