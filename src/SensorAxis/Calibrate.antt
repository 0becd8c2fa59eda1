-- ===== src/SensorAxis/Calibrate.antt =====
-- drivers/input/sensor-axis/sensor_axis.c: calibration, the setters of a sensor's range. The mutex
-- makes each critical section one step; the sleep between two samples changes nothing here.
pub mod Range
use nturt_zephyr_common.Base.{
  ℕ, zero, suc, ◌+◌, Bool, true, false, Option, none, some, List, [], ◌∷◌, map, if◌then◌else◌,
}
use nturt_zephyr_common.Base.Int.{ℤ, pos, ◌+ℤ◌, ◌-ℤ◌, ◌/ℤ◌, i64, is_neg}
use nturt_zephyr_common.Input.{SensorValue}
use nturt_zephyr_common.SensorAxis.Sensor.{Zephyr, Sensor, Answer, sensor_get_raw}

-- `sensor_axis_sensor_set_raw_cb`, `_min_get`, `_max_get`, `_min_set` and `_max_set`.
unfoldable pub set_raw_cb : Sensor → Option ℕ → Sensor
set_raw_cb s cb = record s { cb = cb }

unfoldable pub min_get : Sensor → SensorValue
min_get s = s.in_min

unfoldable pub max_get : Sensor → SensorValue
max_get s = s.in_max

unfoldable pub min_set : Sensor → SensorValue → Sensor
min_set s val = record s { in_min = val }

unfoldable pub max_set : Sensor → SensorValue → Sensor
max_set s val = record s { in_max = val }

-- An error number, or a result.
pub data Try {ℓ} (A : Type ℓ) : Type ℓ where
  done : A → Try A
  error : ℤ → Try A

-- The loop of `sensor_axis_sensor_get_curr`: `n` samples from number `k` on; `answers` tells what the
-- underlying sensor gives at each. The sum is an int64_t.
unfoldable pub sample : Zephyr → (ℕ → Answer) → ℕ → ℕ → ℤ → Try ℤ
sample z answers zero k accum = done accum
sample z answers (suc n) k accum =
    let rest = sample z answers n (k + 1) (i64 (accum +ℤ z.to_micro (answers k).value)) in
    if is_neg (sensor_get_raw (answers k)) then error (sensor_get_raw (answers k)) else rest

abbrev pub map_try {ℓ κ} : {A : Type ℓ} {B : Type κ} → (A → B) → Try A → Try B
map_try f (done a) = done (f a)
map_try f (error r) = error r

-- `sensor_axis_sensor_get_curr`. The result is a uint64_t; here it is the number of the same 64 bits
-- read as an int64_t, and so is every sum with it below.
unfoldable pub get_curr : Zephyr → (ℕ → Answer) → ℕ → Try ℤ
get_curr z answers times =
    map_try (λ accum. z.div_round_closest accum (pos times)) (sample z answers times 0 (pos 0))

unfoldable pub min_set_curr : Zephyr → (ℕ → Answer) → ℕ → Sensor → Try Sensor
min_set_curr z answers times s =
    map_try (λ curr. min_set s (z.from_micro curr)) (get_curr z answers times)

unfoldable pub max_set_curr : Zephyr → (ℕ → Answer) → ℕ → Sensor → Try Sensor
max_set_curr z answers times s =
    map_try (λ curr. max_set s (z.from_micro curr)) (get_curr z answers times)

-- The range from `center - range` to `center + range`.
unfoldable pub set_around : Zephyr → Sensor → ℤ → ℤ → Sensor
set_around z s center range = record s {
  in_min = z.from_micro (i64 (center -ℤ range));
  in_max = z.from_micro (i64 (center +ℤ range));
}

-- The critical sections of `_center_set_curr` and `_range_set_curr`.
unfoldable pub center_on : Zephyr → Sensor → ℤ → Sensor
center_on z s curr = set_around z s curr (i64 (z.to_micro s.in_max -ℤ z.to_micro s.in_min) /ℤ pos 2)

unfoldable pub range_about : Zephyr → Sensor → Bool → ℤ → ℤ → Sensor
range_about z s is_min curr center =
    set_around z s center (if is_min then i64 (center -ℤ curr) else i64 (curr -ℤ center))

unfoldable pub range_on : Zephyr → Sensor → Bool → ℤ → Sensor
range_on z s is_min curr =
    range_about z s is_min curr (i64 (z.to_micro s.in_min +ℤ z.to_micro s.in_max) /ℤ pos 2)

unfoldable pub center_set_curr : Zephyr → (ℕ → Answer) → ℕ → Sensor → Try Sensor
center_set_curr z answers times s = map_try (center_on z s) (get_curr z answers times)

unfoldable pub range_set_curr : Zephyr → (ℕ → Answer) → ℕ → Bool → Sensor → Try Sensor
range_set_curr z answers times is_min s = map_try (range_on z s is_min) (get_curr z answers times)

-- The four functions of a channel: the same for each sensor in order, up to the first failure. The
-- sensors come back with what was done, and the return value.
unfoldable pub channel_set_curr :
    ((ℕ → Answer) → Sensor → Try Sensor) → List ((ℕ → Answer) × Sensor) → ℤ × List Sensor
channel_set_curr set [] = (pos 0, [])
channel_set_curr set ((answers, s) ∷ rest) =
    let (ret, ss) = channel_set_curr set rest in
    elim (set answers s) [
      | error r ↦ (r, s ∷ map (λ (p : (ℕ → Answer) × Sensor). p.1) rest)
      | done s' ↦ (ret, s' ∷ ss)
    ]
