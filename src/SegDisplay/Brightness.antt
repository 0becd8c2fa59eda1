-- ===== src/SegDisplay/Brightness.antt =====
-- drivers/auxdisplay/gpio-seg-display/gpio_seg_display.c: the brightness.
use native.Mathlib.Nat.{mul-le-mul_left}
use nturt_zephyr_common.Base.{
  ℕ, ◌*◌, ◌/◌, ◌^◌, ◌≤◌, ◌<◌, ◌≡◌, refl, some, ◌∷◌, arith, ltb, true, false, ◌%◌,
}
use nturt_zephyr_common.Base.Int.{pos}
use nturt_zephyr_common.SegDisplay.{Config, Display, einval, brightness_get, brightness_set}

-- With a PWM whose period in nanoseconds fits 32 bits a hundredfold, a brightness up to 100 is stored and
-- read back, and the pulse is that share of the period, no longer than it; a greater one is refused and
-- changes nothing.
pub brightness_get-brightness_set :
    (c : Config) (d : Display) (period brightness : ℕ)
    → c.brightness_pwm ≡ some period
    → period * 100 < 2 ^ 32
    → let (ret, d') = brightness_set c d brightness in
      (brightness ≤ 100
        → (ret ≡ pos 0)
          × (brightness_get c d' ≡ (pos 0, some brightness))
          × (d'.pulses ≡ period * brightness / 100 ∷ d.pulses)
          × (period * brightness / 100 ≤ period))
      × (100 < brightness → (ret ≡ einval) × (d' ≡ d))
unfolding brightness_get brightness_set
brightness_get-brightness_set c d period brightness has l = (
  λ h.
      let m : period * brightness ≤ period * 100 = mul-le-mul_left period h in
      let low : ltb 100 brightness ≡ false = ground arith in
      let small : period * brightness % 2 ^ 32 ≡ period * brightness = omega (arith, m, l) in
      rw (has, low, small) (refl, refl, refl, omega (arith, m)),
  λ h. let high : ltb 100 brightness ≡ true = ground arith in rw (has, high) (refl, refl),
)
