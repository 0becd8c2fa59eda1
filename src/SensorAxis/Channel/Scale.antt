-- ===== src/SensorAxis/Channel/Scale.antt =====
-- drivers/input/sensor-axis/sensor_axis.c, `channel_update`: no product overflows, and the scaled value
-- lies between the ends of the axis.
use nturt_zephyr_common.Base.{ℕ, ◌+◌, ◌*◌, ◌/◌, ◌<◌, ◌≤◌, ◌≡◌, ◌⊎◌, inl, inr, ap, ap₂, ◌∙◌, arith}
use nturt_zephyr_common.Base.Int.{ℤ, pos, negsuc, ◌+ℤ◌, ◌-ℤ◌, ◌*ℤ◌, ◌≤ℤ◌, i32, pos_mul, i32_pos}
use nturt_zephyr_common.SensorAxis.Sensor.{Zephyr}
use nturt_zephyr_common.SensorAxis.Channel.{ChannelConfig, out_deadzone, scaled}

-- A configuration whose products fit in 32 bits: the output spans at most 2000000 and
-- the weights add up to at most 2000.
pub record IsSized (config : ChannelConfig) (total span : ℕ) : Type 0 where
  pub total_is : config.total_weight ≡ pos total
  pub total_pos : 0 < total
  pub total_small : total ≤ 2000
  pub out_max_is : config.out_max ≡ config.out_min +ℤ pos span
  pub span_small : span ≤ 2000000
  pub out_min_low : negsuc 1000000000 ≤ℤ config.out_min
  pub out_min_high : config.out_min ≤ℤ pos 1000000000
  pub mode_is : (config.deadzone_mode ≡ pos 0) ⊎ (config.deadzone_mode ≡ pos 1)

-- The deadzone passes the output on, or moves it to the centre or to the minimum.
out_deadzone-cases :
    (config : ChannelConfig) (out : ℤ)
    → (config.deadzone_mode ≡ pos 0) ⊎ (config.deadzone_mode ≡ pos 1)
    → (out_deadzone config out ≡ out)
      ⊎ ((out_deadzone config out ≡ pos 500000) ⊎ (out_deadzone config out ≡ pos 0))
unfolding out_deadzone
out_deadzone-cases config out h = ground arith

pub out_deadzone-range :
    (config : ChannelConfig) (out : ℕ)
    → (config.deadzone_mode ≡ pos 0) ⊎ (config.deadzone_mode ≡ pos 1)
    → out ≤ 1000000
    → (o : ℕ) × (out_deadzone config (pos out) ≡ pos o) × (o ≤ 1000000)
out_deadzone-range config out m h = elim (out_deadzone-cases config (pos out) m) [
  | inl same ↦ (out, same, h)
  | inr (inl center) ↦ (500000, center, omega arith)
  | inr (inr low) ↦ (0, low, omega arith)
]

span_lem : (m : ℤ) (span : ℕ) → span ≤ 2000000 → i32 (m +ℤ pos span -ℤ m) ≡ pos span
unfolding i32 ◌+ℤ◌ ◌-ℤ◌
span_lem m span h = ground arith

shift_lem :
    (m : ℤ) (q : ℕ)
    → q ≤ 2000000
    → negsuc 1000000000 ≤ℤ m
    → m ≤ℤ pos 1000000000
    → i32 (pos q +ℤ m) ≡ m +ℤ pos q
unfolding i32 ◌+ℤ◌
shift_lem m q h lo hi = ground arith

part-le : (o span : ℕ) → o ≤ 1000 → o * span ≤ 1000 * span
part-le o span h = grind arith

pub scaled-range :
    (z : Zephyr) {config : ChannelConfig} {total span : ℕ} (c : IsSized config total span) (o : ℕ)
    → o ≤ 1000000
    → (q : ℕ) × (scaled z config (pos o) ≡ config.out_min +ℤ pos q) × (q ≤ span)
unfolding scaled
scaled-range z {config} {span = span} c o h = (q, value, q-le)
  where
    thousandth : ℕ
    thousandth = (o + 1000 / 2) / 1000

    q : ℕ
    q = (thousandth * span + 1000 / 2) / 1000

    product-le : thousandth * span ≤ 1000 * span
    product-le = part-le thousandth span (omega arith)

    q-le : q ≤ span
    q-le = omega (arith, product-le)

    width : i32 (config.out_max -ℤ config.out_min) ≡ pos span
    width = rw c.out_max_is (span_lem config.out_min span c.span_small)

    product :
        i32 (z.div_round_closest (pos o) (pos 1000) *ℤ i32 (config.out_max -ℤ config.out_min))
        ≡ pos (thousandth * span)
    product =
        ap₂ (λ a b. i32 (a *ℤ b)) (z.div_round_closest_pos o 1000 (omega arith)) width
        ∙ ap i32 (pos_mul thousandth span)
        ∙ i32_pos (thousandth * span) (omega (arith, product-le, c.span_small))

    value : scaled z config (pos o) ≡ config.out_min +ℤ pos q
    value =
        ap (λ a. i32 (z.div_round_closest a (pos 1000) +ℤ config.out_min)) product
        ∙ ap (λ a. i32 (a +ℤ config.out_min))
            (z.div_round_closest_pos (thousandth * span) 1000 (omega arith))
        ∙ shift_lem config.out_min q (omega (arith, q-le, c.span_small)) c.out_min_low
            c.out_min_high

pub average-le : (a total : ℕ) → 0 < total → a ≤ 1000000 * total → (a + total / 2) / total ≤ 1000000
average-le a total h k = grind arith
