-- ===== src/SensorAxis/Tests.antt =====
-- Runs of drivers/input/sensor-axis, and instances of the theorems, with Zephyr's conversions as
-- they are documented.
use nturt_zephyr_common.Base.{
  ℕ, suc, ◌+◌, ◌-◌, ◌*◌, ◌/◌, ◌<◌, ◌≡◌, inr, refl, true, none, some, List, [], ◌∷◌, arith, not,
  ◌==◌,
}
use nturt_zephyr_common.Base.Int.{ℤ, pos, negsuc, ◌+ℤ◌, ◌-ℤ◌, ◌*ℤ◌, ◌/ℤ◌, i32, i64, neg}
use nturt_zephyr_common.Input.{
  no_error, io, over, SensorValue, ev_error, report, Input, input_report,
}
use nturt_zephyr_common.SensorAxis.Sensor.{
  Zephyr, Sensor, SensorConfig, Answer, Got, normalised, range_error, sensor_get,
  sensor_error_update, conclude, sensor_check, check_limits, tolerance_of, error_reported,
}
use nturt_zephyr_common.SensorAxis.Channel.{
  Channel, ChannelConfig, Entry, invalid_out, absorb, accumulate, channel_error_report,
  channel_error_update, channel_finish, channel_output, channel_update, dev_tolerance_of, deviates,
  is_noise, out_deadzone, output_reported, read_if, read_sensor, read_sensors, report_output,
  scaled, take_result,
}
use nturt_zephyr_common.SensorAxis.Channel.Time.{IsTimed, polls, at_time, polls_raise, polls_clear}
use nturt_zephyr_common.SensorAxis.Channel.Scale.{IsSized}
use nturt_zephyr_common.SensorAxis.Channel.Output.{IsReport, channel_update-IsReport}
use nturt_zephyr_common.SensorAxis.Device.{Line, State, Answers, fresh, thread}
use nturt_zephyr_common.SensorAxis.Device.Calls.{all_ok}
use nturt_zephyr_common.SensorAxis.Device.Bounded.{on_axis, thread-on_axis}
use nturt_zephyr_common.SensorAxis.Calibrate.Range.{IsBounded}

-- The conversions by their documentation.
to_micro : SensorValue → ℤ
to_micro v = v.val1 *ℤ pos 1000000 +ℤ v.val2

from_micro : ℤ → SensorValue
from_micro m = record { val1 = m /ℤ pos 1000000; val2 = m -ℤ m /ℤ pos 1000000 *ℤ pos 1000000 }

round_closest : ℤ → ℤ → ℤ
round_closest (pos n) (pos d) = pos ((n + d / 2) / d)
round_closest (negsuc n) (pos d) = neg (pos ((suc n + d / 2) / d))
round_closest (pos n) (negsuc d) = neg (pos ((n + suc d / 2) / suc d))
round_closest (negsuc n) (negsuc d) = pos ((suc n + suc d / 2) / suc d)

to_micro-from_micro : (m : ℤ) → to_micro (from_micro m) ≡ m
unfolding to_micro from_micro ◌+ℤ◌ ◌-ℤ◌ ◌*ℤ◌ ◌/ℤ◌
to_micro-from_micro (pos n) = ground arith
to_micro-from_micro (negsuc n) = ground arith

round_closest_pos : (n d : ℕ) → 0 < d → round_closest (pos n) (pos d) ≡ pos ((n + d / 2) / d)
unfolding round_closest
round_closest_pos n d h = refl

abbrev zephyr : Zephyr
zephyr = record {
  to_micro = to_micro;
  from_micro = from_micro;
  div_round_closest = round_closest;
  to_micro-from_micro = λ m lo hi. to_micro-from_micro m;
  div_round_closest_pos = round_closest_pos;
}

-- A pedal sensor from 1 to 3, with 10 percent tolerance, that reads 2.5.
abbrev pedal : Sensor
pedal = record {
  error = no_error;
  in_min = record { val1 = pos 1; val2 = pos 0 };
  in_max = record { val1 = pos 3; val2 = pos 0 };
  cb = none;
}

abbrev pedal_config : SensorConfig
pedal_config = record { range_tolerance = pos 10 }

abbrev reads : ℕ → ℕ → Answer
reads a b = record { fetch = pos 0; get = pos 0; value = record { val1 = pos a; val2 = pos b } }

abbrev quiet : Input
quiet = record { answers = λ n. pos 0; calls = [] }

get_run :
    sensor_get zephyr 4 pedal_config (pos 0) (reads 2 500000) pedal quiet
    ≡ record { ret = pos 0; val = some (pos 750000); sensor = pedal; input = quiet }
unfolding sensor_get sensor_check conclude range_error tolerance_of check_limits normalised
    sensor_error_update error_reported to_micro round_closest i32 i64 ◌+ℤ◌ ◌-ℤ◌ ◌*ℤ◌ ◌/ℤ◌
get_run = refl

-- Far out of range: the error is reported, and `sensor_get` fails.
out_run : sensor_get zephyr 4 pedal_config (pos 0) (reads 9 0) pedal quiet ≡ record {
  ret = negsuc 21;
  val = none;
  sensor = record pedal { error = over };
  input = record quiet { calls = report 4 ev_error 17 (pos 1) (pos 0) ∷ [] };
}
unfolding sensor_get sensor_check conclude range_error tolerance_of check_limits normalised
    sensor_error_update error_reported to_micro round_closest i32 i64 ◌+ℤ◌ ◌-ℤ◌ ◌*ℤ◌ ◌/ℤ◌
out_run = refl

abbrev got_out : Got
got_out = sensor_get zephyr 4 pedal_config (pos 0) (reads 9 0) pedal quiet

-- A throttle with a time tolerance of 25 ms, polled every 10 ms.
abbrev throttle_config : ChannelConfig
throttle_config = record {
  total_weight = pos 3;
  out_min = pos 0;
  out_max = pos 100;
  deadzone_mode = pos 1;
  deadzone_size = pos 5;
  noise = pos 1000;
  dev_tolerance = pos 10;
  poll_period = pos 10;
  time_tolerance = pos 25;
  time_tolerance_decay = pos 40;
}

throttle-IsTimed : IsTimed throttle_config 10 25 40
throttle-IsTimed = record {
  poll_is = refl;
  tolerance_is = refl;
  decay_is = refl;
  poll_small = omega arith;
  tolerance_small = omega arith;
  decay_small = omega arith;
}

throttle-IsSized : IsSized throttle_config 3 100
throttle-IsSized = record {
  total_is = refl;
  total_pos = omega arith;
  total_small = omega arith;
  out_max_is = unfold ◌+ℤ◌ in refl;
  span_small = omega arith;
  out_min_low = omega arith;
  out_min_high = omega arith;
  mode_is = inr refl;
}

abbrev throttle : Channel
throttle = record { error = no_error; prev_out = invalid_out; accum_error_time = pos 0 }

abbrev faulty : Channel
faulty = record { error = io; prev_out = invalid_out; accum_error_time = pos 25 }

polls_raise_example :
    (polls 9 throttle_config io (negsuc 4) 2 (at_time throttle 0, quiet)
      ≡ (at_time throttle (2 * 10), quiet))
    × (polls 9 throttle_config io (negsuc 4) 3 (at_time throttle 0, quiet) ≡ (
      record { error = io; prev_out = invalid_out; accum_error_time = pos 25 },
      (input_report quiet 9 ev_error 1 (pos 1)).1,
    ))
polls_raise_example =
    polls_raise throttle-IsTimed 9 throttle quiet (λ n. refl) io (negsuc 4) 2 refl refl
      (inr (omega arith)) (omega arith)

polls_clear_example :
    (polls 9 throttle_config no_error (pos 0) 2 (at_time faulty 25, quiet)
      ≡ (at_time faulty (25 - 2 * (25 * 40 / 100)), quiet))
    × (polls 9 throttle_config no_error (pos 0) 3 (at_time faulty 25, quiet) ≡ (
      record (at_time faulty 0) { error = no_error },
      (input_report quiet 9 ev_error 0 (pos 0)).1,
    ))
polls_clear_example =
    polls_clear throttle-IsTimed 9 faulty quiet (λ n. refl) 2 refl (omega arith) (omega arith)

-- The listener was told of the error of `faulty`.
abbrev told : Input
told = record quiet { calls = report 9 ev_error 1 (pos 1) (pos 0) ∷ [] }

-- Two sensors of weights 1 and 2.
abbrev entries : List Entry
entries =
    record {
      device = 4;
      ready = true;
      weight = pos 1;
      config = pedal_config;
      data_ = pedal;
      lock = pos 0;
      answer = reads 2 500000;
    }
    ∷ record {
      device = 5;
      ready = true;
      weight = pos 2;
      config = pedal_config;
      data_ = pedal;
      lock = pos 0;
      answer = reads 2 600000;
    }
    ∷ []

channel_run : (channel_update zephyr 9 2 throttle_config entries throttle quiet).1.0 ≡ pos 1
unfolding channel_update channel_finish channel_output report_output output_reported is_noise scaled
    deviates dev_tolerance_of out_deadzone read_sensors read_sensor read_if take_result absorb
    channel_error_update channel_error_report accumulate sensor_get sensor_check conclude
    range_error tolerance_of check_limits normalised sensor_error_update error_reported to_micro
    round_closest i32 i64 ◌+ℤ◌ ◌-ℤ◌ ◌*ℤ◌ ◌/ℤ◌
channel_run = refl

channel_update-IsReport_example :
    IsReport 9 2 throttle_config 100
      (channel_update zephyr 9 2 throttle_config entries throttle quiet).1
channel_update-IsReport_example =
    channel_update-IsReport zephyr 9 2 entries throttle quiet throttle-IsSized
      (1, 2, refl, refl, (2, 0, refl, refl, refl)) channel_run

pedal-IsBounded : IsBounded zephyr pedal
unfolding to_micro ◌+ℤ◌ ◌*ℤ◌
pedal-IsBounded = omega arith

abbrev broken : Answer
broken = record (reads 2 500000) { get = negsuc 4 }

-- Two rounds, in the second of which the first sensor is not there.
abbrev present : Answers
present = record { ready = λ d. true; lock = λ d. pos 0; answer = λ d. reads 2 500000 }

abbrev absent : Answers
absent = record present { ready = λ d. not (d == 4) }

abbrev lines : List Line
lines = record { device = 9; axis = 2; config = throttle_config } ∷ []

abbrev states : List State
states = record { sensors = entries; channel = fresh } ∷ []

thread-on_axis_example :
    all_ok (on_axis lines) (thread zephyr lines (present ∷ absent ∷ []) states quiet).1.calls ≡ true
thread-on_axis_example =
    thread-on_axis zephyr lines (present ∷ absent ∷ []) states quiet
      ((3, 100, throttle-IsSized, (1, 2, refl, refl, (2, 0, refl, refl, refl))), tt) refl
