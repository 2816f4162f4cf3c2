-- ===== src/Mock/Tests.antt =====
-- A mock on a platform whose `f64` are the natural numbers.
use odp_platform_common.Common.{
  ℕ, ◌+◌, ◌-◌, ◌*◌, ◌/◌, ◌%◌, ◌<◌, ◌^◌, true, false, not, some, none, [], ◌∷◌, ◌≡◌, ◌≢◌, refl,
  arith,
}
use odp_platform_common.Common.Result.{ok}
use odp_platform_common.Script.Exec.Serves.{Serves}
use odp_platform_common.Script.Syntax.{on, max}
use odp_platform_common.Script.Tests.Fan.{demo, devices}
use odp_platform_common.Mock.Alarm.{Values}
use odp_platform_common.Mock.Battery.{polled, phase, polled-phase}
use odp_platform_common.Mock.Device.{Mock, get_bst, mock_source}
use odp_platform_common.Mock.Device.Settings.{Settings, mock_source-Settings}
use odp_platform_common.Mock.Device.Sound.{Simulates, start, mock_source-Serves}
use odp_platform_common.Script.Exec.{World, run_script, pass}
use odp_platform_common.Script.Verbs.{silent}
use odp_platform_common.Text.{Text, codes, text_eq, is_whitespace}
use odp_platform_common.Mock.Ramp.{Clock}
use odp_platform_common.Mock.Random.{xorshift64, xorshift64-alive}

abbrev pub demo_clock : Clock demo
demo_clock = record {
  float = record {
    add = λ a b. a + b;
    sub = λ a b. a - b;
    mul = λ a b. a * b;
    div = λ a b. a / b;
    round = λ a. a;
    ten = 10;
    ice_point = 273;
  };
  abs = λ a. a;
  epsilon = 0;
  as_secs_f64 = λ nanoseconds. nanoseconds / 1000000000;
  instant = λ n. 1000000000 * n;
}

abbrev pub values : Values demo devices
values = record {
  BatteryState = ℕ;
  from_bits = λ bits. some bits;
  bst = λ state rate capacity voltage. tt;
  bix = λ fields. tt;
  capabilities = λ bits. tt;
  timer_status = λ bits. tt;
  instantly = 0;
  new_year = 1 ∷ [];
  is_second = λ id. not id;
}

charged : (polled 7 (record { state = 2; capacity = 0 })).capacity ≡ 7000
unfolding polled
charged = refl

drawn : xorshift64 1 ≡ 0x40822041
unfolding xorshift64
drawn = refl

xorshift64-alive_example : (xorshift64 5 < 2 ^ 64) × (xorshift64 5 ≢ 0)
xorshift64-alive_example = xorshift64-alive 5 (omega arith) (λ e. omega arith)

mock_source-Serves_example : Serves (mock_source demo_clock values) (Simulates demo_clock values)
mock_source-Serves_example = mock_source-Serves demo_clock values ((λ e. cc), (λ e. cc))

polled-phase_example : polled 50 (record { state = 2; capacity = 0 }) ≡ phase (50 % 21)
polled-phase_example = polled-phase 50

abbrev mock : Mock demo devices
mock = record {
  rtc = record {
    time = 1 ∷ [];
    first = record { value = 4; wake_policy = 0; timer_status = tt };
    second = record { value = 5; wake_policy = 9; timer_status = tt };
  };
  rpm_override = none;
  current_temp_c = 25;
  temp_state = record {
    ramp = record {
      current = 25;
      target = 25;
      start_value = 25;
      start_time = 0;
      duration_secs = 0;
    };
    rng = 1;
    idle_temp = 25;
  };
  fan_state = record {
    current = 0;
    target = 0;
    start_value = 0;
    start_time = 0;
    duration_secs = 0;
  };
  bst_state = record { state = 2; capacity = 0 };
  thresholds = record { on_temp = 28; ramping_temp = 40; max_temp = 44 };
  readings = 0;
}

-- Of two timers, the one is set and the other read.
mock_source-Settings_example : Settings demo_clock values mock on max 30 true false 7 3
mock_source-Settings_example = mock_source-Settings demo_clock values mock on max 30 true false 7 3

abbrev script : Text
script = codes "battery.get_bst() => is_ok;"

abbrev last : World demo devices (mock_source demo_clock values)
last = record {
  source = unfold mock_source in (get_bst demo_clock values (start demo_clock values 0)).0;
  env = [];
  runner = record {
    passed = 1;
    failed = 0;
    printed =
        record {
          line = 1;
          name = codes "battery.get_bst() => is_ok";
          outcome = pass;
          detail = silent;
        }
        ∷ [];
  };
}

-- The script passes.
ran :
    run_script demo devices (mock_source demo_clock values) (start demo_clock values 0) script
    ≡ ok (last, record { passed = 1; failed = 0 })
unfolding run_script text_eq is_whitespace mock_source get_bst start
ran = refl
