-- ===== src/SensorAxis/Sensor/Value.antt =====
-- drivers/input/sensor-axis/sensor_axis.c: the normalised value and the range check, against their
-- plain arithmetic meaning.
use nturt_zephyr_common.Base.{
  ℕ, ◌+◌, ◌-◌, ◌*◌, ◌/◌, ◌^◌, ◌<◌, ◌≤◌, ◌≡◌, ◌↔◌, ap, ap₂, ◌∙◌, true, none, arith, if◌then◌else◌,
}
use nturt_zephyr_common.Base.Int.{
  ℤ, pos, negsuc, pos_part, neg_part, ◌+ℤ◌, ◌-ℤ◌, ◌*ℤ◌, ◌/ℤ◌, i32, i64, neg, leb_ℤ,
}
use nturt_zephyr_common.Input.{Error}
use nturt_zephyr_common.SensorAxis.Sensor.{
  Zephyr, normalised, tolerance_of, out_of_range, check_limits, range_error,
}

-- a - b of the sensor's readings, computed in 64 bits.
i64-sub : (m : ℤ) (x : ℕ) → x < 2 ^ 62 → i64 ((m +ℤ pos x) -ℤ m) ≡ pos x
unfolding i64 ◌+ℤ◌ ◌-ℤ◌
i64-sub m x h = ground arith

i64-mul : (x : ℕ) → x < 2 ^ 52 → i64 (pos x *ℤ pos 1000) ≡ pos (x * 1000)
unfolding i64 ◌*ℤ◌
i64-mul x h = ground arith

-- Where the range is a whole number of thousandths, the value is the reading's place in the
-- range in one-millionth part, rounded to the nearest.
pub normalised_lem :
    (z : Zephyr) (m : ℤ) (k x : ℕ)
    → 0 < k
    → k < 2 ^ 42
    → x ≤ 1000 * k
    → normalised z m (m +ℤ pos (1000 * k)) (m +ℤ pos x) ≡ pos ((x * 1000 + k / 2) / k)
unfolding normalised
normalised_lem z m k x pk k_small x_in =
    ap₂ z.div_round_closest reading range ∙ z.div_round_closest_pos (x * 1000) k pk
  where
    range : z.div_round_closest (i64 (m +ℤ pos (1000 * k) -ℤ m)) (pos 1000) ≡ pos k
    range =
        ap (λ d. z.div_round_closest d (pos 1000)) (i64-sub m (1000 * k) (omega arith))
        ∙ z.div_round_closest_pos (1000 * k) 1000 (omega arith)
        ∙ ap pos (omega arith)

    reading : i64 (i64 (m +ℤ pos x -ℤ m) *ℤ pos 1000) ≡ pos (x * 1000)
    reading = rw (i64-sub m x (omega arith)) (i64-mul x (omega arith))

-- The tolerance that is left, in percent: a tenth less while out of range.
abbrev pub tolerated : ℕ → Error → ℕ
tolerated t e = if out_of_range e then t - t / 10 else t

tolerated-le : (t : ℕ) (e : Error) → tolerated t e ≤ t
tolerated-le t e = ground arith

tolerance_of_lem :
    (t : ℕ) (e : Error)
    → t ≤ 200000
    → tolerance_of (record { range_tolerance = pos t }) e ≡ pos (tolerated t e)
unfolding tolerance_of i32 ◌*ℤ◌ ◌/ℤ◌ ◌-ℤ◌
tolerance_of_lem t e h = ground arith

low_limit : (a : ℕ) → a ≤ 200000 → i32 (i32 (neg (pos a)) *ℤ pos 10000) ≡ pos 0 -ℤ pos (a * 10000)
unfolding i32 ◌*ℤ◌ ◌-ℤ◌
low_limit a h = ground arith

high_limit :
    (a : ℕ) → a ≤ 200000 → i32 (pos 1000000 +ℤ i32 (pos a *ℤ pos 10000)) ≡ pos (1000000 + a * 10000)
unfolding i32 ◌*ℤ◌ ◌+ℤ◌
high_limit a h = ground arith

check_limits_iff :
    (a : ℕ) (val : ℤ)
    → (check_limits (pos 0 -ℤ pos a) (pos (1000000 + a)) val ≡ none)
      ↔ ((pos_part val ≤ 1000000 + a) × (neg_part val ≤ a))
unfolding check_limits ◌-ℤ◌
check_limits_iff a (pos n) = (λ h. ground arith, λ h. ground arith)
check_limits_iff a (negsuc n) = (λ h. ground arith, λ h. ground arith)

positive : (t : ℕ) → leb_ℤ (pos 0) (pos t) ≡ true
positive t = ground arith

-- The range check finds no error exactly for the values between -T and 1000000 + T, where T is the
-- tolerance, lowered by a tenth (in whole percent) while the sensor is out of range.
pub range_error_iff :
    (t : ℕ) (e : Error) (val : ℤ)
    → t ≤ 200000
    → (range_error (record { range_tolerance = pos t }) e val ≡ none)
      ↔ ((pos_part val ≤ 1000000 + tolerated t e * 10000) × (neg_part val ≤ tolerated t e * 10000))
unfolding range_error
range_error_iff t e val h =
    let small : tolerated t e ≤ 200000 = omega (arith, tolerated-le t e) in
    rw
      (
        positive t,
        tolerance_of_lem t e h,
        low_limit (tolerated t e) small,
        high_limit (tolerated t e) small,
      )
      (check_limits_iff (tolerated t e * 10000) val)
