-- ===== src/SensorAxis/Sensor/Errors.antt =====
-- drivers/input/sensor-axis/sensor_axis.c: the error of a sensor, what is reported of it, and what
-- `sensor_get` returns.
use nturt_zephyr_common.Base.{
  ℕ, ◌≤◌, ◌≡◌, refl, ◌⊎◌, inl, inr, Bool-cases, not, ltb, length, true, false, Option, none, some,
  arith, if◌then◌else◌,
}
use nturt_zephyr_common.Base.Int.{ℤ, pos, negsuc, is_neg, leb_ℤ}
use nturt_zephyr_common.Input.{Error, no_error, io, busy, error_code, is_none, SensorValue, Input}
use nturt_zephyr_common.Input.View.{known_error}
use nturt_zephyr_common.SensorAxis.Sensor.{
  Zephyr, Sensor, SensorConfig, Answer, Got, sensor_get_raw, sensor_error_update, check_limits,
  range_error, conclude, sensor_check, sensor_get, einval, clamp_value, call_raw, failed, passed,
}

-- What the listener knows is the sensor's error.
abbrev pub IsKnown : ℕ → Sensor → Input → Type 0
IsKnown d s i = known_error d i.calls ≡ error_code s.error

sensor_error_update-IsKnown :
    (d : ℕ) (s : Sensor) (i : Input) (error : Error) (ret : ℤ)
    → IsKnown d s i
    → IsKnown d (sensor_error_update d s i error ret).1 (sensor_error_update d s i error ret).2
unfolding sensor_error_update
sensor_error_update-IsKnown d s i error ret h = ground arith

-- The value that the clamp leaves.
clamped : ℤ → ℕ
clamped (pos n) = if ltb 1000000 n then 1000000 else n
clamped (negsuc n) = 0

clamped-le : (a : ℤ) → clamped a ≤ 1000000
unfolding clamped
clamped-le (pos n) = ground arith
clamped-le (negsuc n) = ground arith

clamp_value_lem : (a : ℤ) → clamp_value a ≡ pos (clamped a)
unfolding clamped
clamp_value_lem (pos n) = ground arith
clamp_value_lem (negsuc n) = ground arith

-- How an update ends: as asked, or with the failure of `input_report`.
sensor_error_update_lem :
    (d : ℕ) (s : Sensor) (i : Input) (error : Error) (ret : ℤ)
    → let (r, s', i') = sensor_error_update d s i error ret in
      ((r ≡ ret) × (is_none s'.error ≡ is_none error)) ⊎ ((is_neg r ≡ true) × (s' ≡ s))
unfolding sensor_error_update
sensor_error_update_lem d s i error ret = ground arith

call_raw-IsKnown :
    (d : ℕ) (s : Sensor) (i : Input) (v : SensorValue)
    → IsKnown d s i
    → IsKnown d s (call_raw d s i v)
call_raw-IsKnown d s i v h = ground arith

conclude-IsKnown :
    (d : ℕ) (s : Sensor) (i : Input) (val : ℤ) (o : Option Error)
    → IsKnown d s i
    → IsKnown d (conclude d s i val o).sensor (conclude d s i val o).input
unfolding conclude
conclude-IsKnown d s i val none h =
    ground (arith, sensor_error_update-IsKnown d s i no_error (pos 0) h)
conclude-IsKnown d s i val (some e) h = sensor_error_update-IsKnown d s i e einval h

sensor_check-IsKnown :
    (z : Zephyr) (d : ℕ) (config : SensorConfig) (s : Sensor) (i : Input) (v : SensorValue)
    → IsKnown d s i
    → IsKnown d (sensor_check z d config s i v).sensor (sensor_check z d config s i v).input
unfolding sensor_check
sensor_check-IsKnown z d config s i v h =
    conclude-IsKnown d s (call_raw d s i v) _ _ (call_raw-IsKnown d s i v h)

-- `sensor_get` keeps the listener informed: the last error event of the sensor that was delivered
-- tells its error, or that it has none.
pub sensor_get-IsKnown :
    (z : Zephyr) (d : ℕ) (config : SensorConfig) (lock : ℤ) (a : Answer) (s : Sensor) (i : Input)
    → IsKnown d s i
    → IsKnown d (sensor_get z d config lock a s i).sensor (sensor_get z d config lock a s i).input
unfolding sensor_get
sensor_get-IsKnown z d config lock a s i h = ground (
  arith,
  sensor_error_update-IsKnown d s i busy lock h,
  sensor_error_update-IsKnown d s i io (sensor_get_raw a) h,
  sensor_check-IsKnown z d config s i a.value h,
)

-- What `sensor_get` hands on: an error number and no value, or 0 and a value in one-millionth part
-- from a sensor without an error.
abbrev pub IsResult : Got → Type 0
IsResult g =
    ((is_neg g.ret ≡ true) × (g.val ≡ none))
    ⊎ ((g.ret ≡ pos 0)
        × ((v : ℕ) × (g.val ≡ some (pos v)) × (v ≤ 1000000))
        × (is_none g.sensor.error ≡ true))

failed-IsResult :
    (d : ℕ) (s : Sensor) (i : Input) (e : Error) (ret : ℤ)
    → is_neg ret ≡ true
    → IsResult (failed (sensor_error_update d s i e ret))
failed-IsResult d s i e ret h = inl (ground (arith, sensor_error_update_lem d s i e ret), refl)

passed-IsResult :
    (val : ℤ) (r : ℤ × Sensor × Input)
    → ((r.0 ≡ pos 0) × (is_none r.1.error ≡ true)) ⊎ (is_neg r.0 ≡ true)
    → IsResult (passed (clamp_value val) r)
passed-IsResult val r (inl fine) =
    inr
      (rw fine.0, (clamped val, rw (fine.0, clamp_value_lem val), clamped-le val), rw fine.0 fine.1)
passed-IsResult val r (inr bad) = inl (rw bad bad, rw bad)

conclude-IsResult :
    (d : ℕ) (s : Sensor) (i : Input) (val : ℤ) (o : Option Error) → IsResult (conclude d s i val o)
unfolding conclude
conclude-IsResult d s i val (some e) = failed-IsResult d s i e einval refl
conclude-IsResult d s i val none =
    passed-IsResult val (sensor_error_update d s i no_error (pos 0))
      (elim (sensor_error_update_lem d s i no_error (pos 0)) [
        | inl done ↦ inl done
        | inr bad ↦ inr bad.0
      ])

-- `sensor_get` either fails with a negative number and stores no value, or returns 0, has stored a
-- value between 0 and 1000000, and has left the sensor without an error.
pub sensor_get-IsResult :
    (z : Zephyr) (d : ℕ) (config : SensorConfig) (lock : ℤ) (a : Answer) (s : Sensor) (i : Input)
    → IsResult (sensor_get z d config lock a s i)
unfolding sensor_get sensor_check
sensor_get-IsResult z d config lock a s i = elim (Bool-cases (is_neg lock)) [
  | inl locked ↦ rw locked (failed-IsResult d s i busy lock locked)
  | inr free ↦ elim (Bool-cases (is_neg (sensor_get_raw a))) [
    | inl broken ↦ rw (free, broken) (failed-IsResult d s i io (sensor_get_raw a) broken)
    | inr read ↦ rw (free, read) (conclude-IsResult d s _ _ _)
  ]
]

delivered_update :
    (d : ℕ) (s : Sensor) (i : Input) (error : Error) (ret : ℤ)
    → ((n : ℕ) → is_neg (i.answers n) ≡ false)
    → let (r, s', i') = sensor_error_update d s i error ret in
      (r ≡ ret) × (is_none s'.error ≡ is_none error)
unfolding sensor_error_update
delivered_update d s i error ret h = ground (arith, h (length i.calls))

check_limits-is_none :
    (low high val : ℤ) (f : Error) → check_limits low high val ≡ some f → is_none f ≡ false
unfolding check_limits
check_limits-is_none low high val f h = ground arith

range_error-is_none :
    (config : SensorConfig) (e f : Error) (val : ℤ)
    → range_error config e val ≡ some f
    → is_none f ≡ false
unfolding range_error
range_error-is_none config e f val h = elim (Bool-cases (leb_ℤ (pos 0) config.range_tolerance)) [
  | inl on ↦ check_limits-is_none _ _ val f (rw on at h)
  | inr off ↦ absurd (ground (arith, rw off at h))
]

-- The return value and the error of the sensor agree.
abbrev Agrees : Got → Type 0
Agrees g = is_neg g.ret ≡ not (is_none g.sensor.error)

conclude-Agrees :
    (d : ℕ) (s : Sensor) (i : Input) (val : ℤ) (o : Option Error)
    → ((n : ℕ) → is_neg (i.answers n) ≡ false)
    → ((f : Error) → o ≡ some f → is_none f ≡ false)
    → Agrees (conclude d s i val o)
unfolding conclude
conclude-Agrees d s i val (some e) h bad =
    ground (arith, delivered_update d s i e einval h, bad e refl)
conclude-Agrees d s i val none h bad = ground (arith, delivered_update d s i no_error (pos 0) h)

call_raw-answers :
    (d : ℕ) (s : Sensor) (i : Input) (v : SensorValue) → (call_raw d s i v).answers ≡ i.answers
call_raw-answers d s i v = ground arith

-- Where `input_report` does not fail, `sensor_get` fails just if it leaves the sensor with an error.
pub sensor_get-error_iff :
    (z : Zephyr) (d : ℕ) (config : SensorConfig) (lock : ℤ) (a : Answer) (s : Sensor) (i : Input)
    → ((n : ℕ) → is_neg (i.answers n) ≡ false)
    → is_neg (sensor_get z d config lock a s i).ret
      ≡ not (is_none (sensor_get z d config lock a s i).sensor.error)
unfolding sensor_get sensor_check
sensor_get-error_iff z d config lock a s i h = elim (Bool-cases (is_neg lock)) [
  | inl locked ↦ rw locked (ground (arith, delivered_update d s i busy lock h))
  | inr free ↦ elim (Bool-cases (is_neg (sensor_get_raw a))) [
    | inl broken ↦
        rw (free, broken) (ground (arith, delivered_update d s i io (sensor_get_raw a) h))
    | inr read ↦
        rw (free, read)
          (conclude-Agrees d s (call_raw d s i a.value) _ _
            (λ n. rw (call_raw-answers d s i a.value) (h n))
            (λ f e. range_error-is_none config s.error f _ e))
  ]
]
