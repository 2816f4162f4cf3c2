-- ===== src/Mock/Alarm.antt =====
-- The clock and the timers of the mock (ec/test-lib/src/mock.rs). `AlarmTimerSeconds` and
-- `AlarmExpiredWakePolicy` stand for the `u32` they hold, as in Script.Source.
use odp_platform_common.Common.{ℕ, Bool, Option, if◌then◌else◌}
use odp_platform_common.Script.Platform.{Platform}
use odp_platform_common.Script.Source.{Devices}

-- A `BixFixedStrings`, by its numbers.
pub record Bix : Type 0 where
  pub revision : ℕ
  pub design_capacity : ℕ
  pub last_full_charge_capacity : ℕ
  pub design_voltage : ℕ
  pub design_cap_of_warning : ℕ
  pub design_cap_of_low : ℕ
  pub cycle_count : ℕ
  pub measurement_accuracy : ℕ
  pub max_sampling_time : ℕ
  pub min_sampling_time : ℕ
  pub max_averaging_interval : ℕ
  pub min_averaging_interval : ℕ
  pub battery_capacity_granularity_1 : ℕ
  pub battery_capacity_granularity_2 : ℕ

-- The values of the two service interfaces that the mock builds.
pub record Values (P : Platform) (D : Devices P) : Type 1 where
  -- `BatteryState::from_bits`.
  pub BatteryState : Type 0
  pub from_bits : ℕ → Option BatteryState
  -- A `BstReturn`, by its state, rate, capacity and voltage.
  pub bst : BatteryState → ℕ → ℕ → ℕ → D.Bst
  -- With its kinds and texts, which are fixed.
  pub bix : Bix → D.Bix
  pub capabilities : ℕ → D.Capabilities
  pub timer_status : ℕ → D.TimerStatus
  -- `AlarmExpiredWakePolicy::INSTANTLY`.
  pub instantly : ℕ
  -- The first day of 2026 at eight hours behind UTC.
  pub new_year : P.Timestamp
  -- Whether `timer_id as usize` is 1; it is 0 otherwise.
  pub is_second : P.TimerId → Bool

pub record MockRtcTimer {P : Platform} (D : Devices P) : Type 0 where
  pub value : ℕ
  pub wake_policy : ℕ
  pub timer_status : D.TimerStatus

pub record MockRtc {P : Platform} (D : Devices P) : Type 0 where
  pub time : P.Timestamp
  pub first : MockRtcTimer D
  pub second : MockRtcTimer D

module _ {P : Platform} {D : Devices P} (V : Values P D) where
  unfoldable pub timer_default : MockRtcTimer D
  timer_default = record { value = 0; wake_policy = V.instantly; timer_status = V.timer_status 0 }

  unfoldable pub rtc_new : MockRtc D
  unfolding timer_default
  rtc_new = record { time = V.new_year; first = timer_default; second = timer_default }

  unfoldable pub get_timer : P.TimerId → MockRtc D → MockRtcTimer D
  get_timer timer_id rtc = if V.is_second timer_id then rtc.second else rtc.first

  -- `timers[timer_id as usize] = …`.
  unfoldable pub put_timer : P.TimerId → MockRtcTimer D → MockRtc D → MockRtc D
  put_timer timer_id timer rtc =
      if V.is_second timer_id then record rtc { second = timer } else record rtc { first = timer }
