-- ===== src/SensorAxis/Sensor.antt =====
-- drivers/input/sensor-axis/sensor_axis.c and sensor_axis.h: one sensor, its errors and its
-- normalised value. The log is left out, and with it `info`, which only the log reads.
pub mod Errors
pub mod Value
use nturt_zephyr_common.Base.{
  ℕ, ◌+◌, ◌/◌, ◌<◌, ◌≡◌, Bool, true, false, not, ◌&&◌, ◌||◌, Option, none, some, ◌∷◌, if◌then◌else◌,
}
use nturt_zephyr_common.Base.Int.{
  ℤ, pos, negsuc, ◌+ℤ◌, ◌-ℤ◌, ◌*ℤ◌, ◌/ℤ◌, ◌≤ℤ◌, ltb_ℤ, leb_ℤ, i32, i64, is_neg, neg,
}
use nturt_zephyr_common.Input.{
  Error, no_error, io, busy, under, over, error_code, is_none, SensorValue, ev_error, raw_cb, Input,
  input_report,
}

-- Zephyr's conversions of sensor values and its rounding division, with what they document:
-- the nearest integer, halves away from zero.
pub record Zephyr : Type 0 where
  pub to_micro : SensorValue → ℤ
  pub from_micro : ℤ → SensorValue
  pub div_round_closest : ℤ → ℤ → ℤ
  -- A number of millionths whose integer part fits in 32 bits.
  pub to_micro-from_micro :
      (m : ℤ)
      → negsuc 2147483647999999 ≤ℤ m
      → m ≤ℤ pos 2147483647999999
      → to_micro (from_micro m) ≡ m
  pub div_round_closest_pos :
      (n d : ℕ) → 0 < d → div_round_closest (pos n) (pos d) ≡ pos ((n + d / 2) / d)

-- `struct sensor_axis_sensor_data`; a callback is the user data that it gets.
pub record Sensor : Type 0 where
  pub error : Error
  pub in_min : SensorValue
  pub in_max : SensorValue
  pub cb : Option ℕ

-- `struct sensor_axis_sensor_config`; the underlying sensor is known by its answers.
pub record SensorConfig : Type 0 where
  pub range_tolerance : ℤ

-- What `sensor_sample_fetch` and `sensor_channel_get` of the underlying sensor return, and the value.
pub record Answer : Type 0 where
  pub fetch : ℤ
  pub get : ℤ
  pub value : SensorValue

-- -EINVAL
abbrev pub einval : ℤ
einval = negsuc 21

-- The result of `sensor_get_raw`; the value holds where that is not negative.
abbrev pub sensor_get_raw : Answer → ℤ
sensor_get_raw a = if is_neg a.fetch then a.fetch else a.get

-- `sensor_error_update` behind its choice of the event to report.
unfoldable pub error_reported : Sensor → Error → ℤ → ℤ × Input → ℤ × Sensor × Input
error_reported s error ret (ret2, i) =
    if is_neg ret2 then (ret2, s, i) else (ret, record s { error = error }, i)

unfoldable pub sensor_error_update : ℕ → Sensor → Input → Error → ℤ → ℤ × Sensor × Input
unfolding error_reported
sensor_error_update device s i error ret =
    if is_none s.error && not (is_none error)
    then error_reported s error ret (input_report i device ev_error (error_code error) (pos 1))
    else if not (is_none s.error) && is_none error
    then error_reported s error ret (input_report i device ev_error (error_code s.error) (pos 0))
    else (ret, s, i)

-- The value in one-millionth part of the range from `min` to `max`.
unfoldable pub normalised : Zephyr → ℤ → ℤ → ℤ → ℤ
normalised z min max val =
    z.div_round_closest (i64 (i64 (val -ℤ min) *ℤ pos 1000))
      (z.div_round_closest (i64 (max -ℤ min)) (pos 1000))

-- An error state that the hysteresis reads.
abbrev pub out_of_range : Error → Bool
out_of_range under = true
out_of_range over = true
out_of_range _ = false

-- The tolerance in percent, RANGE_HYSTERESIS (10 / 100) lower while out of range.
unfoldable pub tolerance_of : SensorConfig → Error → ℤ
tolerance_of config error =
    if out_of_range error
    then i32 (config.range_tolerance -ℤ i32 (config.range_tolerance *ℤ pos 10) /ℤ pos 100)
    else config.range_tolerance

-- The comparison with the two limits.
unfoldable pub check_limits : ℤ → ℤ → ℤ → Option Error
check_limits low high val =
    if ltb_ℤ val low then some under else if ltb_ℤ high val then some over else none

-- The range check: the error that it finds.
unfoldable pub range_error : SensorConfig → Error → ℤ → Option Error
range_error config error val =
    let tolerance = tolerance_of config error in
    if leb_ℤ (pos 0) config.range_tolerance
    then check_limits (i32 (i32 (neg tolerance) *ℤ pos 10000))
        (i32 (pos 1000000 +ℤ i32 (tolerance *ℤ pos 10000))) val
    else none

-- CLAMP(val, 0, 1000000)
abbrev pub clamp_value : ℤ → ℤ
clamp_value val =
    if ltb_ℤ val (pos 0) then pos 0 else if ltb_ℤ (pos 1000000) val then pos 1000000 else val

-- What `sensor_get` returns, and the value that it stores.
pub record Got : Type 0 where
  pub ret : ℤ
  pub val : Option ℤ
  pub sensor : Sensor
  pub input : Input

abbrev pub failed : ℤ × Sensor × Input → Got
failed (ret, s, i) = record { ret = ret; val = none; sensor = s; input = i }

abbrev pub passed : ℤ → ℤ × Sensor × Input → Got
passed val (ret, s, i) =
    if is_neg ret
    then record { ret = ret; val = none; sensor = s; input = i }
    else record { ret = pos 0; val = some val; sensor = s; input = i }

-- The raw value goes to the callback, if there is one.
abbrev pub call_raw : ℕ → Sensor → Input → SensorValue → Input
call_raw device s i v = elim s.cb [
  | none ↦ i
  | some user_data ↦ record i { calls = raw_cb device v ∷ i.calls }
]

-- The end of `sensor_get`, by the error that the range check finds.
unfoldable pub conclude : ℕ → Sensor → Input → ℤ → Option Error → Got
conclude device s i val (some error) = failed (sensor_error_update device s i error einval)
conclude device s i val none =
    passed (clamp_value val) (sensor_error_update device s i no_error (pos 0))

-- `sensor_get` behind the reading of the sensor.
unfoldable pub sensor_check : Zephyr → ℕ → SensorConfig → Sensor → Input → SensorValue → Got
sensor_check z device config s i sensor_val =
    let val = normalised z (z.to_micro s.in_min) (z.to_micro s.in_max) (z.to_micro sensor_val) in
    conclude device s (call_raw device s i sensor_val) val (range_error config s.error val)

-- `lock` is what `k_mutex_lock` returns.
unfoldable pub sensor_get : Zephyr → ℕ → SensorConfig → ℤ → Answer → Sensor → Input → Got
sensor_get z device config lock a s i =
    if is_neg lock
    then failed (sensor_error_update device s i busy lock)
    else if is_neg (sensor_get_raw a)
    then failed (sensor_error_update device s i io (sensor_get_raw a))
    else sensor_check z device config s i a.value
