-- ===== src/Tui/Battery.antt =====
-- What the interface computes from the battery's and the fan's readings (ec/test-tui/src/battery.rs and
-- thermal.rs).
use odp_platform_common.Common.{ℕ, ◌*◌, ◌/◌, ◌%◌, ◌^◌, min, ◌==◌, if◌then◌else◌}
use odp_platform_common.Script.Platform.{Platform}

-- `(part * 100).checked_div(whole).unwrap_or(0).clamp(0, 100) as u16`, on `u32`.
unfoldable pub bat_percent : ℕ → ℕ → ℕ
bat_percent remaining design =
    if design == 0 then 0 else min (remaining * 100 % 2 ^ 32 / design) 100

unfoldable pub bat_health : ℕ → ℕ → ℕ
bat_health last_full design = if design == 0 then 0 else min (last_full * 100 % 2 ^ 32 / design) 100

-- The readings up to this one are not multiplied out of a `u32`.
abbrev pub max_exact : ℕ
max_exact = 42949672

pub record SensorThresholds (P : Platform) : Type 0 where
  pub warn_low : P.F
  pub warn_high : P.F
  pub prochot : P.F
  pub critical : P.F

pub record FanStateLevels (P : Platform) : Type 0 where
  pub on : P.F
  pub ramping : P.F
  pub max : P.F

pub data ThermalZone : Type 0 where
  critical : ThermalZone
  prochot : ThermalZone
  warning : ThermalZone
  normal : ThermalZone

pub data FanZone : Type 0 where
  max : FanZone
  ramping : FanZone
  on : FanZone
  off : FanZone

unfoldable pub sensor_thresholds : (P : Platform) → SensorThresholds P
sensor_thresholds P = record {
  warn_low = P.of_ℕ 13;
  warn_high = P.of_ℕ 35;
  prochot = P.of_ℕ 40;
  critical = P.of_ℕ 45;
}

module _ {P : Platform} where
  open P use {F, le}

  unfoldable pub thermal_zone : F → SensorThresholds P → ThermalZone
  thermal_zone temp thresholds =
      if le thresholds.critical temp
      then critical
      else if le thresholds.prochot temp
      then prochot
      else if le thresholds.warn_high temp
      then warning
      else normal

  unfoldable pub fan_zone : F → FanStateLevels P → FanZone
  fan_zone temp levels =
      if le levels.max temp
      then FanZone.max
      else if le levels.ramping temp
      then FanZone.ramping
      else if le levels.on temp
      then FanZone.on
      else FanZone.off
