-- ===== src/Jy901b/Fetched.antt =====
-- drivers/sensor/jy901b/jy901b.c: what the channels give after a fetch, by the registers of the chip.
use nturt_zephyr_common.Base.{
  ℕ, ◌+◌, ◌-◌, ◌*◌, ◌/◌, ◌%◌, ◌^◌, ◌<◌, ◌≡◌, refl, ap, ap₂, ◌∙◌, Option, none, some, List, [], ◌∷◌,
  arith,
}
use nturt_zephyr_common.Base.Int.{ℤ, pos, negsuc, neg, ◌+ℤ◌, ◌-ℤ◌, ◌*ℤ◌, ◌≤ℤ◌, i32}
use nturt_zephyr_common.Jy901b.{
  SensorValue, i16, le16, le32, Bus, Sample, Channel, accel_xyz, accel_x, accel_y, accel_z,
  gyro_xyz, gyro_x, gyro_y, gyro_z, magn_xyz, magn_x, magn_y, magn_z, orien_rpy, orien_roll,
  orien_pitch, orien_yaw, quat_wxyz, quat_w, quat_x, quat_y, quat_z, die_temp, pressure, other,
  channel_get, sample_fetch, fetch_data, fetch_press, fetch_quat, store_data, store_quat,
  convert_accel, convert_gyro, convert_magn, convert_deg, convert_quat, convert_temp, convert_press,
  enotsup,
}
use nturt_zephyr_common.Jy901b.Scaled.{
  Scale, IsNear, IsI16, IsI32, accel_scale, gyro_scale, magn_scale, deg_scale, quat_scale,
  temp_scale, press_scale, convert_accel-IsNear, convert_gyro-IsNear, convert_magn-IsNear,
  convert_deg-IsNear, convert_quat-IsNear, convert_temp-IsNear, convert_press-IsNear,
}

-- The 16 bits of a register, and the bytes that a read from a register on gives, low byte first.
abbrev pub bits : ℤ → ℕ
bits (pos n) = n
bits (negsuc n) = 2 ^ 16 - 1 - n

abbrev pub bytes : (ℕ → ℤ) → ℕ → ℕ → ℕ
bytes regs r i = bits (regs (r + i / 2)) / 256 ^ (i % 2) % 256

-- What a channel is to give: the registers and their scales; `none` for a channel that the chip has not.
-- The z axis of the acceleration is turned round. The two registers of the pressure make one number.
abbrev pub expected : (ℕ → ℤ) → Channel → Option (List (Scale × ℤ))
expected regs accel_xyz =
    some ((accel_scale, regs 52) ∷ (accel_scale, regs 53) ∷ (accel_scale, neg (regs 54)) ∷ [])
expected regs accel_x = some ((accel_scale, regs 52) ∷ [])
expected regs accel_y = some ((accel_scale, regs 53) ∷ [])
expected regs accel_z = some ((accel_scale, neg (regs 54)) ∷ [])
expected regs gyro_xyz =
    some ((gyro_scale, regs 55) ∷ (gyro_scale, regs 56) ∷ (gyro_scale, regs 57) ∷ [])
expected regs gyro_x = some ((gyro_scale, regs 55) ∷ [])
expected regs gyro_y = some ((gyro_scale, regs 56) ∷ [])
expected regs gyro_z = some ((gyro_scale, regs 57) ∷ [])
expected regs magn_xyz =
    some ((magn_scale, regs 58) ∷ (magn_scale, regs 59) ∷ (magn_scale, regs 60) ∷ [])
expected regs magn_x = some ((magn_scale, regs 58) ∷ [])
expected regs magn_y = some ((magn_scale, regs 59) ∷ [])
expected regs magn_z = some ((magn_scale, regs 60) ∷ [])
expected regs orien_rpy =
    some ((deg_scale, regs 61) ∷ (deg_scale, regs 62) ∷ (deg_scale, regs 63) ∷ [])
expected regs orien_roll = some ((deg_scale, regs 61) ∷ [])
expected regs orien_pitch = some ((deg_scale, regs 62) ∷ [])
expected regs orien_yaw = some ((deg_scale, regs 63) ∷ [])
expected regs quat_wxyz = some (
    (quat_scale, regs 81)
    ∷ (quat_scale, regs 82)
    ∷ (quat_scale, regs 83)
    ∷ (quat_scale, regs 84)
    ∷ [])
expected regs quat_w = some ((quat_scale, regs 81) ∷ [])
expected regs quat_x = some ((quat_scale, regs 82) ∷ [])
expected regs quat_y = some ((quat_scale, regs 83) ∷ [])
expected regs quat_z = some ((quat_scale, regs 84) ∷ [])
expected regs die_temp = some ((temp_scale, regs 64) ∷ [])
expected regs pressure = some ((press_scale, regs 70 *ℤ pos 65536 +ℤ pos (bits (regs 69))) ∷ [])
expected regs other = none

-- The values are as many as expected, each near its own.
abbrev pub AllNear : List (Scale × ℤ) → List SensorValue → Type 0
AllNear [] [] = Unit
AllNear [] (v ∷ vs) = ⊥
AllNear (e ∷ es) [] = ⊥
AllNear ((s, raw) ∷ es) (v ∷ vs) = IsNear s raw v × AllNear es vs

abbrev pub Gives : Option (List (Scale × ℤ)) → ℤ × List SensorValue → Type 0
Gives none (ret, vs) = (ret ≡ enotsup) × (vs ≡ [])
Gives (some es) (ret, vs) = (ret ≡ pos 0) × AllNear es vs

word_lem : (v : ℤ) → IsI16 v → i16 (pos (bits v % 256 + 256 * (bits v / 256 % 256))) ≡ v
unfolding i16
word_lem (pos n) h = ground (arith, h)
word_lem (negsuc n) h = ground (arith, h)

byte_at :
    (regs : ℕ → ℤ) (r i k e : ℕ)
    → i / 2 ≡ k
    → i % 2 ≡ e
    → bytes regs r i ≡ bits (regs (r + k)) / 256 ^ e % 256
byte_at regs r i k e h h' = ap₂ (λ j e. bits (regs (r + j)) / 256 ^ e % 256) h h'

bits-lt : (v : ℤ) → IsI16 v → bits v < 65536
bits-lt (pos n) h = omega (arith, h)
bits-lt (negsuc n) h = omega arith

-- Two words make a number of 32 bits.
dword_lem :
    (a : ℤ) (x : ℕ) → IsI16 a → x < 65536 → i32 (pos (x + 65536 * bits a)) ≡ a *ℤ pos 65536 +ℤ pos x
unfolding i32 ◌*ℤ◌ ◌+ℤ◌
dword_lem (pos n) x h l = ground (arith, h)
dword_lem (negsuc n) x h l = ground (arith, h)

module _ (regs : ℕ → ℤ) (ok : (r : ℕ) → IsI16 (regs r)) where
  le16-bytes : (r k : ℕ) → le16 (bytes regs r) k ≡ regs (r + k)
  unfolding le16
  le16-bytes r k =
      let low : bytes regs r (2 * k) ≡ bits (regs (r + k)) % 256 =
        byte_at regs r (2 * k) k 0 (omega arith) (omega arith) ∙ omega arith in
      let high : bytes regs r (2 * k + 1) ≡ bits (regs (r + k)) / 256 % 256 =
        byte_at regs r (2 * k + 1) k 1 (omega arith) (omega arith) ∙ omega arith in
      rw (low, high) (word_lem (regs (r + k)) (ok (r + k)))

  read-IsNear :
      (s : Scale) (convert : ℤ → SensorValue)
      → ((raw : ℤ) → IsI16 raw → IsNear s raw (convert raw))
      → (r k : ℕ) → IsNear s (regs (r + k)) (convert (le16 (bytes regs r) k))
  read-IsNear s convert near r k = rw (le16-bytes r k) (near (regs (r + k)) (ok (r + k)))

  press_lem : (r : ℕ) → le32 (bytes regs r) ≡ regs (r + 1) *ℤ pos 65536 +ℤ pos (bits (regs (r + 0)))
  unfolding le32
  press_lem r =
      let low : bits (regs (r + 0)) < 65536 = bits-lt (regs (r + 0)) (ok (r + 0)) in
      let high : bits (regs (r + 1)) < 65536 = bits-lt (regs (r + 1)) (ok (r + 1)) in
      rw
        (
          byte_at regs r 0 0 0 refl refl,
          byte_at regs r 1 0 1 refl refl,
          byte_at regs r 2 1 0 refl refl,
          byte_at regs r 3 1 1 refl refl,
        )
        (ap (λ n. i32 (pos n)) {y = bits (regs (r + 0)) + 65536 * bits (regs (r + 1))} (omega arith)
          ∙ dword_lem (regs (r + 1)) (bits (regs (r + 0))) (ok (r + 1)) low)

  press-IsI32 : (a : ℤ) (x : ℕ) → IsI16 a → x < 65536 → IsI32 (a *ℤ pos 65536 +ℤ pos x)
  unfolding ◌*ℤ◌ ◌+ℤ◌
  press-IsI32 a x h l = ground (arith, h)

  turned : negsuc 32766 ≤ℤ regs 54 → i16 (neg (le16 (bytes regs 52) 2)) ≡ neg (regs 54)
  unfolding i16 ◌-ℤ◌
  turned h = rw (le16-bytes 52 2) (small (regs 54) h (ok 54))
    where
      small : (v : ℤ) → negsuc 32766 ≤ℤ v → IsI16 v → i16 (neg v) ≡ neg v
      small (pos n) h h' = ground (arith, h')
      small (negsuc n) h h' = ground (arith, h')

  turned-IsNear :
      negsuc 32766 ≤ℤ regs 54
      → IsNear accel_scale (neg (regs 54)) (convert_accel (i16 (neg (le16 (bytes regs 52) 2))))
  unfolding ◌-ℤ◌
  turned-IsNear h = rw (turned h) (convert_accel-IsNear (neg (regs 54)) (small (regs 54) h (ok 54)))
    where
      small : (v : ℤ) → negsuc 32766 ≤ℤ v → IsI16 v → IsI16 (neg v)
      small (pos n) h h' = ground (arith, h')
      small (negsuc n) h h' = ground (arith, h)

  press-IsNear :
      IsNear press_scale
        (regs 70 *ℤ pos 65536 +ℤ pos (bits (regs 69)))
        (convert_press (le32 (bytes regs 69)))
  press-IsNear = rw (press_lem 69) (
      convert_press-IsNear (regs 70 *ℤ pos 65536 +ℤ pos (bits (regs 69)))
        (press-IsI32 (regs 70) (bits (regs 69)) (ok 70) (bits-lt (regs 69) (ok 69))))

  -- What is stored after the three reads.
  abbrev fetched : Sample → Sample
  fetched d =
      store_quat (record (store_data d (bytes regs 52)) { press = le32 (bytes regs 69) })
        (bytes regs 81)

  sample_fetch_lem :
      (bus : Bus) (d : Sample)
      → ((r : ℕ) → bus.read r ≡ some (bytes regs r))
      → sample_fetch bus d ≡ (pos 0, fetched d)
  unfolding sample_fetch fetch_data fetch_press fetch_quat
  sample_fetch_lem bus d chip = rw (chip 52, chip 69, chip 81) refl

  accel-IsNear :
      (k : ℕ) → IsNear accel_scale (regs (52 + k)) (convert_accel (le16 (bytes regs 52) k))
  accel-IsNear k = read-IsNear accel_scale convert_accel convert_accel-IsNear 52 k

  gyro-IsNear : (k : ℕ) → IsNear gyro_scale (regs (52 + k)) (convert_gyro (le16 (bytes regs 52) k))
  gyro-IsNear k = read-IsNear gyro_scale convert_gyro convert_gyro-IsNear 52 k

  magn-IsNear : (k : ℕ) → IsNear magn_scale (regs (52 + k)) (convert_magn (le16 (bytes regs 52) k))
  magn-IsNear k = read-IsNear magn_scale convert_magn convert_magn-IsNear 52 k

  deg-IsNear : (k : ℕ) → IsNear deg_scale (regs (52 + k)) (convert_deg (le16 (bytes regs 52) k))
  deg-IsNear k = read-IsNear deg_scale convert_deg convert_deg-IsNear 52 k

  quat-IsNear : (k : ℕ) → IsNear quat_scale (regs (81 + k)) (convert_quat (le16 (bytes regs 81) k))
  quat-IsNear k = read-IsNear quat_scale convert_quat convert_quat-IsNear 81 k

  fetched-Gives :
      (d : Sample) (chan : Channel)
      → negsuc 32766 ≤ℤ regs 54
      → Gives (expected regs chan) (channel_get (fetched d) chan)
  unfolding channel_get store_data store_quat
  fetched-Gives d accel_xyz z = (refl, (accel-IsNear 0, (accel-IsNear 1, (turned-IsNear z, tt))))
  fetched-Gives d accel_x z = (refl, (accel-IsNear 0, tt))
  fetched-Gives d accel_y z = (refl, (accel-IsNear 1, tt))
  fetched-Gives d accel_z z = (refl, (turned-IsNear z, tt))
  fetched-Gives d gyro_xyz z = (refl, (gyro-IsNear 3, (gyro-IsNear 4, (gyro-IsNear 5, tt))))
  fetched-Gives d gyro_x z = (refl, (gyro-IsNear 3, tt))
  fetched-Gives d gyro_y z = (refl, (gyro-IsNear 4, tt))
  fetched-Gives d gyro_z z = (refl, (gyro-IsNear 5, tt))
  fetched-Gives d magn_xyz z = (refl, (magn-IsNear 6, (magn-IsNear 7, (magn-IsNear 8, tt))))
  fetched-Gives d magn_x z = (refl, (magn-IsNear 6, tt))
  fetched-Gives d magn_y z = (refl, (magn-IsNear 7, tt))
  fetched-Gives d magn_z z = (refl, (magn-IsNear 8, tt))
  fetched-Gives d orien_rpy z = (refl, (deg-IsNear 9, (deg-IsNear 10, (deg-IsNear 11, tt))))
  fetched-Gives d orien_roll z = (refl, (deg-IsNear 9, tt))
  fetched-Gives d orien_pitch z = (refl, (deg-IsNear 10, tt))
  fetched-Gives d orien_yaw z = (refl, (deg-IsNear 11, tt))
  fetched-Gives d quat_wxyz z =
      (refl, (quat-IsNear 0, (quat-IsNear 1, (quat-IsNear 2, (quat-IsNear 3, tt)))))
  fetched-Gives d quat_w z = (refl, (quat-IsNear 0, tt))
  fetched-Gives d quat_x z = (refl, (quat-IsNear 1, tt))
  fetched-Gives d quat_y z = (refl, (quat-IsNear 2, tt))
  fetched-Gives d quat_z z = (refl, (quat-IsNear 3, tt))
  fetched-Gives d die_temp z =
      (refl, (read-IsNear temp_scale convert_temp convert_temp-IsNear 52 12, tt))
  fetched-Gives d pressure z = (refl, (press-IsNear, tt))
  fetched-Gives d other z = (refl, refl)

  pub channel_get-sample_fetch :
      (bus : Bus) (d : Sample) (chan : Channel)
      → ((r : ℕ) → bus.read r ≡ some (bytes regs r))
      → negsuc 32766 ≤ℤ regs 54
      → let (ret, d') = sample_fetch bus d in
        (ret ≡ pos 0) × Gives (expected regs chan) (channel_get d' chan)
  channel_get-sample_fetch bus d chan chip z =
      rw (sample_fetch_lem bus d chip) (refl, fetched-Gives d chan z)
