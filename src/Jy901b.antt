-- ===== src/Jy901b.antt =====
-- drivers/sensor/jy901b/jy901b.c with include/zephyr/drivers/sensor/jy901b.h: the JY901B inertial sensor
-- on I2C. A register is its number, and a buffer a function from the index of a byte.
pub mod Scaled
pub mod Fetched
mod Tests
use nturt_zephyr_common.Base.{
  ℕ, ◌+◌, ◌-◌, ◌*◌, ◌/◌, ◌%◌, ◌^◌, Bool, true, false, not, Option, none, some, List, [], ◌∷◌, ltb,
  ◌==◌, if◌then◌else◌,
}
use nturt_zephyr_common.Base.Int.{ℤ, pos, negsuc, ◌*ℤ◌, ◌/ℤ◌, ◌%ℤ◌, neg, i32, i64, is_neg}

-- The registers, and what is written into them
abbrev pub data_reg_start : ℕ
data_reg_start = 52

abbrev pub pressure_reg : ℕ
pressure_reg = 69

abbrev pub quat_reg : ℕ
quat_reg = 81

abbrev pub save_reg : ℕ
save_reg = 0

abbrev pub i2c_addr_reg : ℕ
i2c_addr_reg = 26

abbrev pub orien_mode_reg : ℕ
orien_mode_reg = 36

abbrev pub write_enable_reg : ℕ
write_enable_reg = 105

abbrev pub write_enable_key : ℕ
write_enable_key = 46472

-- SENSOR_G and SENSOR_PI of Zephyr
abbrev pub sensor_g : ℤ
sensor_g = pos 9806650

abbrev pub sensor_pi : ℤ
sensor_pi = pos 3141592

-- -EIO, -ENODEV, -EINVAL and -ENOTSUP
abbrev pub eio : ℤ
eio = negsuc 4

abbrev pub enodev : ℤ
enodev = negsuc 18

abbrev pub einval : ℤ
einval = negsuc 21

abbrev pub enotsup : ℤ
enotsup = negsuc 133

-- A value stored in an int16_t
unfoldable pub i16 : ℤ → ℤ
i16 (pos n) = let w = n % 2 ^ 16 in if ltb w (2 ^ 15) then pos w else negsuc (2 ^ 16 - 1 - w)
i16 (negsuc n) = let w = n % 2 ^ 16 in if ltb w (2 ^ 15) then negsuc w else pos (2 ^ 16 - 1 - w)

-- >> JY901B_DATA_SHIFT, on two's complement
unfoldable pub shift : ℤ → ℤ
shift (pos n) = pos (n / 2 ^ 15)
shift (negsuc n) = negsuc (n / 2 ^ 15)

-- `struct sensor_value`
pub record SensorValue : Type 0 where
  pub val1 : ℤ
  pub val2 : ℤ

unfoldable pub value_of : ℤ → SensorValue
unfolding ◌/ℤ◌ ◌%ℤ◌ i32
value_of conv = record { val1 = i32 (conv /ℤ pos 1000000); val2 = i32 (conv %ℤ pos 1000000) }

unfoldable pub convert_accel : ℤ → SensorValue
unfolding i64 ◌*ℤ◌ shift value_of
convert_accel raw = value_of (shift (i64 (raw *ℤ sensor_g *ℤ pos 16)))

unfoldable pub convert_gyro : ℤ → SensorValue
unfolding i64 ◌*ℤ◌ ◌/ℤ◌ shift value_of
convert_gyro raw = value_of (shift (i64 (raw *ℤ sensor_pi *ℤ pos 2000) /ℤ pos 180))

unfoldable pub convert_magn : ℤ → SensorValue
unfolding i64 ◌*ℤ◌ value_of
convert_magn raw = value_of (i64 (raw *ℤ pos 83))

unfoldable pub convert_deg : ℤ → SensorValue
unfolding i64 ◌*ℤ◌ shift value_of
convert_deg raw = value_of (shift (i64 (raw *ℤ pos 1000000 *ℤ pos 180)))

unfoldable pub convert_quat : ℤ → SensorValue
unfolding i64 ◌*ℤ◌ shift value_of
convert_quat raw = value_of (shift (i64 (raw *ℤ pos 1000000)))

-- JY901B_TEMP_SCALE and JY901B_PRESS_SCALE are `1 / 100` and `1 / 1000` without parentheses: the product
-- is taken first.
unfoldable pub convert_temp : ℤ → SensorValue
unfolding i64 ◌*ℤ◌ ◌/ℤ◌ value_of
convert_temp raw = value_of (i64 (raw *ℤ pos 1000000 *ℤ pos 1) /ℤ pos 100)

unfoldable pub convert_press : ℤ → SensorValue
unfolding i64 ◌*ℤ◌ ◌/ℤ◌ value_of
convert_press raw = value_of (i64 (raw *ℤ pos 1000000 *ℤ pos 1) /ℤ pos 1000)

-- Three numbers of `struct jy901b_data`
pub record Axes : Type 0 where
  pub x : ℤ
  pub y : ℤ
  pub z : ℤ

pub record Quat : Type 0 where
  pub w : ℤ
  pub x : ℤ
  pub y : ℤ
  pub z : ℤ

-- `struct jy901b_data`
pub record Sample : Type 0 where
  pub accel : Axes
  pub gyro : Axes
  pub magn : Axes
  pub orien : Axes
  pub quat : Quat
  pub temp : ℤ
  pub press : ℤ

-- The I2C bus, a parameter: what a read from a register on gives, `none` for an error; and what a write
-- of a 16-bit value returns.
pub record Bus : Type 0 where
  pub is_ready : Bool
  pub addr : ℕ
  pub read : ℕ → Option (ℕ → ℕ)
  pub write : ℕ → ℕ → ℤ

-- buf[k], which is little endian as the CPU is
unfoldable pub le16 : (ℕ → ℕ) → ℕ → ℤ
unfolding i16
le16 buf k = i16 (pos (buf (2 * k) + 256 * buf (2 * k + 1)))

unfoldable pub le32 : (ℕ → ℕ) → ℤ
unfolding i32
le32 buf = i32 (pos (buf 0 + 256 * buf 1 + 65536 * buf 2 + 16777216 * buf 3))

abbrev pub axes_at : (ℕ → ℕ) → ℕ → Axes
axes_at buf k = record { x = le16 buf k; y = le16 buf (k + 1); z = le16 buf (k + 2) }

-- What is stored after the first read.
unfoldable pub store_data : Sample → (ℕ → ℕ) → Sample
unfolding i16 le16
store_data d buf = record d {
  accel = record { x = le16 buf 0; y = le16 buf 1; z = i16 (neg (le16 buf 2)) };
  gyro = axes_at buf 3;
  magn = axes_at buf 6;
  orien = axes_at buf 9;
  temp = le16 buf 12;
}

unfoldable pub store_quat : Sample → (ℕ → ℕ) → Sample
unfolding le16
store_quat d buf = record d {
  quat = record { w = le16 buf 0; x = le16 buf 1; y = le16 buf 2; z = le16 buf 3 };
}

-- From the third read on, from the second, and all of `jy901b_sample_fetch`; `chan` is not looked at.
unfoldable pub fetch_quat : Sample → Option (ℕ → ℕ) → ℤ × Sample
unfolding store_quat
fetch_quat d none = (eio, d)
fetch_quat d (some buf) = (pos 0, store_quat d buf)

unfoldable pub fetch_press : Bus → Sample → Option (ℕ → ℕ) → ℤ × Sample
unfolding fetch_quat le32
fetch_press bus d none = (eio, d)
fetch_press bus d (some buf) = fetch_quat (record d { press = le32 buf }) (bus.read quat_reg)

unfoldable pub fetch_data : Bus → Sample → Option (ℕ → ℕ) → ℤ × Sample
unfolding fetch_press store_data
fetch_data bus d none = (eio, d)
fetch_data bus d (some buf) = fetch_press bus (store_data d buf) (bus.read pressure_reg)

unfoldable pub sample_fetch : Bus → Sample → ℤ × Sample
unfolding fetch_data
sample_fetch bus d = fetch_data bus d (bus.read data_reg_start)

-- The channels of `sensor_channel` that the driver has, and the others.
pub data Channel : Type 0 where
  accel_xyz accel_x accel_y accel_z : Channel
  gyro_xyz gyro_x gyro_y gyro_z : Channel
  magn_xyz magn_x magn_y magn_z : Channel
  orien_rpy orien_roll orien_pitch orien_yaw : Channel
  quat_wxyz quat_w quat_x quat_y quat_z : Channel
  die_temp pressure other : Channel

-- The values of three axes
abbrev pub three : (ℤ → SensorValue) → Axes → ℤ × List SensorValue
three convert a = (pos 0, convert a.x ∷ convert a.y ∷ convert a.z ∷ [])

abbrev pub one : (ℤ → SensorValue) → ℤ → ℤ × List SensorValue
one convert raw = (pos 0, convert raw ∷ [])

-- What is returned, and the values written to `val`, `val + 1` and so on.
unfoldable pub channel_get : Sample → Channel → ℤ × List SensorValue
unfolding convert_accel convert_gyro convert_magn convert_deg convert_quat convert_temp
    convert_press
channel_get d accel_xyz = three convert_accel d.accel
channel_get d accel_x = one convert_accel d.accel.x
channel_get d accel_y = one convert_accel d.accel.y
channel_get d accel_z = one convert_accel d.accel.z
channel_get d gyro_xyz = three convert_gyro d.gyro
channel_get d gyro_x = one convert_gyro d.gyro.x
channel_get d gyro_y = one convert_gyro d.gyro.y
channel_get d gyro_z = one convert_gyro d.gyro.z
channel_get d magn_xyz = three convert_magn d.magn
channel_get d magn_x = one convert_magn d.magn.x
channel_get d magn_y = one convert_magn d.magn.y
channel_get d magn_z = one convert_magn d.magn.z
channel_get d orien_rpy = three convert_deg d.orien
channel_get d orien_roll = one convert_deg d.orien.x
channel_get d orien_pitch = one convert_deg d.orien.y
channel_get d orien_yaw = one convert_deg d.orien.z
channel_get d quat_wxyz = (
  pos 0,
  convert_quat d.quat.w
      ∷ convert_quat d.quat.x
      ∷ convert_quat d.quat.y
      ∷ convert_quat d.quat.z
      ∷ [],
)
channel_get d quat_w = one convert_quat d.quat.w
channel_get d quat_x = one convert_quat d.quat.x
channel_get d quat_y = one convert_quat d.quat.y
channel_get d quat_z = one convert_quat d.quat.z
channel_get d die_temp = one convert_temp d.temp
channel_get d pressure = one convert_press d.press
channel_get d other = (enotsup, [])

-- The writes of init one after the other, up to the first that fails; the writes made are the second part.
unfoldable pub write_all : Bus → List (ℕ × ℕ) → ℤ × List (ℕ × ℕ)
write_all bus [] = (pos 0, [])
write_all bus ((reg, cmd) ∷ cmds) =
    let (ret, made) = write_all bus cmds in
    if is_neg (bus.write reg cmd) then (eio, (reg, cmd) ∷ []) else (ret, (reg, cmd) ∷ made)

-- JY901B_ORIEN_MODE_ABSOLUTE and JY901B_ORIEN_MODE_RELATIVE, which the build configuration chooses
abbrev pub orien_mode : Bool → ℕ
orien_mode absolute = if absolute then 0 else 1

-- What follows the read of the address.
unfoldable pub init_id : Bus → Bool → Option (ℕ → ℕ) → ℤ × List (ℕ × ℕ)
unfolding write_all
init_id bus absolute none = (eio, [])
init_id bus absolute (some buf) =
    if not (buf 0 == bus.addr)
    then (einval, [])
    else write_all bus (
        (write_enable_reg, write_enable_key)
        ∷ (orien_mode_reg, orien_mode absolute)
        ∷ (save_reg, 0)
        ∷ [])

unfoldable pub init : Bus → Bool → ℤ × List (ℕ × ℕ)
unfolding init_id
init bus absolute =
    if not bus.is_ready then (enodev, []) else init_id bus absolute (bus.read i2c_addr_reg)
