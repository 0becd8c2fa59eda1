-- ===== src/HallRpm/Tests.antt =====
-- Runs of the Hall sensor, and instances of the theorems: 20 teeth, a counter of 64 MHz, and a filter of
-- 100 ms that is run each 20 ms.
use nturt_zephyr_common.Base.{◌≤◌, ◌≡◌, refl, true, none, some, arith}
use nturt_zephyr_common.Base.Int.{pos}
use nturt_zephyr_common.HallRpm.{Config, Hall, started, timer_cb, attr_set, attr_get}
use nturt_zephyr_common.HallRpm.Filter.{IsInRange, timer_cb-between, timer_cb-wrapped}

abbrev config : Config
config = record {
  is_ready = true;
  configured = pos 0;
  interrupt = pos 0;
  num_tooth = 20;
  time_const = pos 100;
  hz = 64_000_000;
}

-- 4 pulses since the cycle 1000, after 500 turns in a minute
abbrev hall : Hall
hall = record {
  sampling_int = pos 20;
  alpha = pos 200;
  count = 4;
  cycle = 1000;
  last = pos 500_000;
  val = pos 0;
  timer = some (pos 20);
}

abbrev hall-IsInRange : IsInRange config hall 200 500_000
hall-IsInRange = record {
  few = omega arith;
  fits = omega arith;
  has_tooth = omega arith;
  alpha = refl;
  share = omega arith;
  last = refl;
  slow = omega arith;
}

timer_cb-between_example :
    (timer_cb config 1_281_000 hall
      ≡ some (record hall { cycle = 1_281_000; count = 0; last = pos 520_000 }))
    × (500_000 ≤ 520_000)
    × (520_000 ≤ 600_000)
timer_cb-between_example =
    timer_cb-between config hall 1_281_000 200 500_000 500_000 600_000 hall-IsInRange (omega arith)
      (omega arith) (omega arith) (omega arith) (omega arith) (omega arith) (omega arith)

-- The same 4 pulses over the end of the counter
timer_cb-wrapped_example :
    timer_cb config 280_000 (record hall { cycle = 4_293_967_296 })
    ≡ some (record hall { cycle = 280_000; count = 0; last = pos 400_000 })
timer_cb-wrapped_example =
    timer_cb-wrapped config (record hall { cycle = 4_293_967_296 }) 280_000 200 500_000
      (record {
        few = omega arith;
        fits = omega arith;
        has_tooth = omega arith;
        alpha = refl;
        share = omega arith;
        last = refl;
        slow = omega arith;
      })
      (omega arith) (omega arith)

-- A frequency of 5 Hz: the factor is 2000, and the next speed goes past the measured one.
overshoot_run :
    attr_set config 1000 (some (pos 5000)) hall
    ≡ some (pos 0, record hall { sampling_int = pos 200; alpha = pos 2000; timer = some (pos 200) })
unfolding attr_set started
overshoot_run = refl

-- A frequency of more than 1000 Hz, whose reading divides by zero
fast_run : attr_get true (record hall { sampling_int = pos 0 }) ≡ none
unfolding attr_get
fast_run = refl
