-- ===== src/Jy901b/Scaled.antt =====
-- drivers/sensor/jy901b/jy901b.c: what the conversions give.
use nturt_zephyr_common.Base.{ℕ, ◌+◌, ◌*◌, ◌^◌, ◌<◌, ◌≤◌, ◌≡◌, arith}
use nturt_zephyr_common.Base.Int.{ℤ, pos, negsuc, abs, ◌+ℤ◌, ◌*ℤ◌, ◌/ℤ◌, ◌%ℤ◌, ◌≤ℤ◌, ◌<ℤ◌, i32, i64}
use nturt_zephyr_common.Jy901b.{
  SensorValue, value_of, shift, sensor_g, sensor_pi, convert_accel, convert_gyro, convert_magn,
  convert_deg, convert_quat, convert_temp, convert_press,
}

-- The millionths that a value stands for
abbrev pub micro : SensorValue → ℤ
micro v = v.val1 *ℤ pos 1000000 +ℤ v.val2

-- A value in the 16 bits of a register
abbrev pub IsI16 : ℤ → Type 0
IsI16 raw = (negsuc 32767 ≤ℤ raw) × (raw ≤ℤ pos 32767)

abbrev pub IsI32 : ℤ → Type 0
IsI32 raw = (negsuc 2147483647 ≤ℤ raw) × (raw ≤ℤ pos 2147483647)

value_of_pos :
    (n : ℕ)
    → n < 2000000000000000
    → (micro (value_of (pos n)) ≡ pos n) × (abs (value_of (pos n)).val2 < 1000000)
unfolding value_of ◌/ℤ◌ ◌%ℤ◌ i32 ◌*ℤ◌ ◌+ℤ◌
value_of_pos n h = ground arith

value_of_negsuc :
    (n : ℕ)
    → n < 2000000000000000
    → (micro (value_of (negsuc n)) ≡ negsuc n) × (abs (value_of (negsuc n)).val2 < 1000000)
unfolding value_of ◌/ℤ◌ ◌%ℤ◌ i32 ◌*ℤ◌ ◌+ℤ◌
value_of_negsuc n h = ground arith

value_of_lem :
    (c : ℤ)
    → abs c < 2000000000000000
    → (micro (value_of c) ≡ c) × (abs (value_of c).val2 < 1000000)
value_of_lem (pos n) h = value_of_pos n h
value_of_lem (negsuc n) h = value_of_negsuc n (omega (arith, h))

-- Millionths of a unit to a step of the register, as a fraction, and how much the conversion loses on top
-- of its last rounding.
pub record Scale : Type 0 where
  pub num : ℕ
  pub den : ℕ
  pub slack : ℕ

-- The value is less than a millionth (and the slack) from what the register stands for, and its second
-- part is a proper fraction.
abbrev pub IsNear : Scale → ℤ → SensorValue → Type 0
IsNear s raw v =
    (micro v *ℤ pos s.den <ℤ raw *ℤ pos s.num +ℤ pos (s.den + s.slack))
    × (raw *ℤ pos s.num <ℤ micro v *ℤ pos s.den +ℤ pos (s.den + s.slack))
    × (abs v.val2 < 1000000)

-- The range of +-16 g, +-2000 deg/s, the magnetometer, +-180 deg, a quaternion, 0.01 deg C and 1 Pa
abbrev pub accel_scale : Scale
accel_scale = record { num = 9806650 * 16; den = 2 ^ 15; slack = 0 }

abbrev pub gyro_scale : Scale
gyro_scale = record { num = 3141592 * 2000; den = 180 * 2 ^ 15; slack = 180 }

abbrev pub magn_scale : Scale
magn_scale = record { num = 83; den = 1; slack = 0 }

abbrev pub deg_scale : Scale
deg_scale = record { num = 180000000; den = 2 ^ 15; slack = 0 }

abbrev pub quat_scale : Scale
quat_scale = record { num = 1000000; den = 2 ^ 15; slack = 0 }

abbrev pub temp_scale : Scale
temp_scale = record { num = 10000; den = 1; slack = 0 }

abbrev pub press_scale : Scale
press_scale = record { num = 1000; den = 1; slack = 0 }

near :
    (s : Scale) (raw c : ℤ)
    → abs c < 2000000000000000
    → c *ℤ pos s.den <ℤ raw *ℤ pos s.num +ℤ pos (s.den + s.slack)
    → raw *ℤ pos s.num <ℤ c *ℤ pos s.den +ℤ pos (s.den + s.slack)
    → IsNear s raw (value_of c)
near s raw c h lo hi = let (is, fraction) = value_of_lem c h in (rw is lo, rw is hi, fraction)

accel_pos : (r : ℕ) → r ≤ 32767 → IsNear accel_scale (pos r) (convert_accel (pos r))
unfolding i64 ◌*ℤ◌ ◌+ℤ◌ shift convert_accel
accel_pos r h =
    near accel_scale (pos r) (shift (i64 (pos r *ℤ sensor_g *ℤ pos 16))) (ground arith)
      (ground arith) (ground arith)

accel_negsuc : (r : ℕ) → r ≤ 32767 → IsNear accel_scale (negsuc r) (convert_accel (negsuc r))
unfolding i64 ◌*ℤ◌ ◌+ℤ◌ shift convert_accel
accel_negsuc r h =
    near accel_scale (negsuc r) (shift (i64 (negsuc r *ℤ sensor_g *ℤ pos 16))) (ground arith)
      (ground arith) (ground arith)

pub convert_accel-IsNear : (raw : ℤ) → IsI16 raw → IsNear accel_scale raw (convert_accel raw)
convert_accel-IsNear (pos r) h = accel_pos r (omega (arith, h))
convert_accel-IsNear (negsuc r) h = accel_negsuc r (omega (arith, h))

gyro_pos : (r : ℕ) → r ≤ 32767 → IsNear gyro_scale (pos r) (convert_gyro (pos r))
unfolding i64 ◌*ℤ◌ ◌+ℤ◌ shift ◌/ℤ◌ convert_gyro
gyro_pos r h =
    near gyro_scale (pos r) (shift (i64 (pos r *ℤ sensor_pi *ℤ pos 2000) /ℤ pos 180)) (ground arith)
      (ground arith) (ground arith)

gyro_negsuc : (r : ℕ) → r ≤ 32767 → IsNear gyro_scale (negsuc r) (convert_gyro (negsuc r))
unfolding i64 ◌*ℤ◌ ◌+ℤ◌ shift ◌/ℤ◌ convert_gyro
gyro_negsuc r h =
    near gyro_scale (negsuc r) (shift (i64 (negsuc r *ℤ sensor_pi *ℤ pos 2000) /ℤ pos 180))
      (ground arith) (ground arith) (ground arith)

pub convert_gyro-IsNear : (raw : ℤ) → IsI16 raw → IsNear gyro_scale raw (convert_gyro raw)
convert_gyro-IsNear (pos r) h = gyro_pos r (omega (arith, h))
convert_gyro-IsNear (negsuc r) h = gyro_negsuc r (omega (arith, h))

magn_pos : (r : ℕ) → r ≤ 32767 → IsNear magn_scale (pos r) (convert_magn (pos r))
unfolding i64 ◌*ℤ◌ ◌+ℤ◌ convert_magn
magn_pos r h =
    near magn_scale (pos r) (i64 (pos r *ℤ pos 83)) (ground arith) (ground arith) (ground arith)

magn_negsuc : (r : ℕ) → r ≤ 32767 → IsNear magn_scale (negsuc r) (convert_magn (negsuc r))
unfolding i64 ◌*ℤ◌ ◌+ℤ◌ convert_magn
magn_negsuc r h =
    near magn_scale (negsuc r) (i64 (negsuc r *ℤ pos 83)) (ground arith) (ground arith)
      (ground arith)

pub convert_magn-IsNear : (raw : ℤ) → IsI16 raw → IsNear magn_scale raw (convert_magn raw)
convert_magn-IsNear (pos r) h = magn_pos r (omega (arith, h))
convert_magn-IsNear (negsuc r) h = magn_negsuc r (omega (arith, h))

deg_pos : (r : ℕ) → r ≤ 32767 → IsNear deg_scale (pos r) (convert_deg (pos r))
unfolding i64 ◌*ℤ◌ ◌+ℤ◌ shift convert_deg
deg_pos r h =
    near deg_scale (pos r) (shift (i64 (pos r *ℤ pos 1000000 *ℤ pos 180))) (ground arith)
      (ground arith) (ground arith)

deg_negsuc : (r : ℕ) → r ≤ 32767 → IsNear deg_scale (negsuc r) (convert_deg (negsuc r))
unfolding i64 ◌*ℤ◌ ◌+ℤ◌ shift convert_deg
deg_negsuc r h =
    near deg_scale (negsuc r) (shift (i64 (negsuc r *ℤ pos 1000000 *ℤ pos 180))) (ground arith)
      (ground arith) (ground arith)

pub convert_deg-IsNear : (raw : ℤ) → IsI16 raw → IsNear deg_scale raw (convert_deg raw)
convert_deg-IsNear (pos r) h = deg_pos r (omega (arith, h))
convert_deg-IsNear (negsuc r) h = deg_negsuc r (omega (arith, h))

quat_pos : (r : ℕ) → r ≤ 32767 → IsNear quat_scale (pos r) (convert_quat (pos r))
unfolding i64 ◌*ℤ◌ ◌+ℤ◌ shift convert_quat
quat_pos r h =
    near quat_scale (pos r) (shift (i64 (pos r *ℤ pos 1000000))) (ground arith) (ground arith)
      (ground arith)

quat_negsuc : (r : ℕ) → r ≤ 32767 → IsNear quat_scale (negsuc r) (convert_quat (negsuc r))
unfolding i64 ◌*ℤ◌ ◌+ℤ◌ shift convert_quat
quat_negsuc r h =
    near quat_scale (negsuc r) (shift (i64 (negsuc r *ℤ pos 1000000))) (ground arith) (ground arith)
      (ground arith)

pub convert_quat-IsNear : (raw : ℤ) → IsI16 raw → IsNear quat_scale raw (convert_quat raw)
convert_quat-IsNear (pos r) h = quat_pos r (omega (arith, h))
convert_quat-IsNear (negsuc r) h = quat_negsuc r (omega (arith, h))

temp_pos : (r : ℕ) → r ≤ 32767 → IsNear temp_scale (pos r) (convert_temp (pos r))
unfolding i64 ◌*ℤ◌ ◌+ℤ◌ ◌/ℤ◌ convert_temp
temp_pos r h =
    near temp_scale (pos r) (i64 (pos r *ℤ pos 1000000 *ℤ pos 1) /ℤ pos 100) (ground arith)
      (ground arith) (ground arith)

temp_negsuc : (r : ℕ) → r ≤ 32767 → IsNear temp_scale (negsuc r) (convert_temp (negsuc r))
unfolding i64 ◌*ℤ◌ ◌+ℤ◌ ◌/ℤ◌ convert_temp
temp_negsuc r h =
    near temp_scale (negsuc r) (i64 (negsuc r *ℤ pos 1000000 *ℤ pos 1) /ℤ pos 100) (ground arith)
      (ground arith) (ground arith)

pub convert_temp-IsNear : (raw : ℤ) → IsI16 raw → IsNear temp_scale raw (convert_temp raw)
convert_temp-IsNear (pos r) h = temp_pos r (omega (arith, h))
convert_temp-IsNear (negsuc r) h = temp_negsuc r (omega (arith, h))

press_pos : (r : ℕ) → r ≤ 2147483647 → IsNear press_scale (pos r) (convert_press (pos r))
unfolding i64 ◌*ℤ◌ ◌+ℤ◌ ◌/ℤ◌ convert_press
press_pos r h =
    near press_scale (pos r) (i64 (pos r *ℤ pos 1000000 *ℤ pos 1) /ℤ pos 1000) (ground arith)
      (ground arith) (ground arith)

press_negsuc : (r : ℕ) → r ≤ 2147483647 → IsNear press_scale (negsuc r) (convert_press (negsuc r))
unfolding i64 ◌*ℤ◌ ◌+ℤ◌ ◌/ℤ◌ convert_press
press_negsuc r h =
    near press_scale (negsuc r) (i64 (negsuc r *ℤ pos 1000000 *ℤ pos 1) /ℤ pos 1000) (ground arith)
      (ground arith) (ground arith)

pub convert_press-IsNear : (raw : ℤ) → IsI32 raw → IsNear press_scale raw (convert_press raw)
convert_press-IsNear (pos r) h = press_pos r (omega (arith, h))
convert_press-IsNear (negsuc r) h = press_negsuc r (omega (arith, h))
