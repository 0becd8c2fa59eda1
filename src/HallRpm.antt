-- ===== src/HallRpm.antt =====
-- drivers/sensor/hall-rpm/hall_rpm.c: the speed of a wheel by the pulses of a Hall sensor. The cycle
-- counter is a number below 2^32, and a sensor value the millis that `sensor_value_from_milli` and
-- `sensor_value_to_milli` of Zephyr turn it from and into.
pub mod Filter
mod Tests
use nturt_zephyr_common.Base.{
  ℕ, zero, suc, ◌+◌, ◌-◌, ◌*◌, ◌/◌, ◌%◌, ◌^◌, Bool, true, false, not, ◌||◌, Option, none, some,
  ◌==◌, if◌then◌else◌,
}
use nturt_zephyr_common.Base.Int.{ℤ, pos, negsuc, ◌+ℤ◌, ◌-ℤ◌, ◌*ℤ◌, ◌/ℤ◌, i32, i64, is_neg, eqb_ℤ}

-- -ENODEV and -ENOTSUP
abbrev pub enodev : ℤ
enodev = negsuc 18

abbrev pub enotsup : ℤ
enotsup = negsuc 133

-- `struct hall_rpm_config`, with what the GPIO's calls return and `sys_clock_hw_cycles_per_sec`
pub record Config : Type 0 where
  pub is_ready : Bool
  pub configured : ℤ
  pub interrupt : ℤ
  pub num_tooth : ℕ
  pub time_const : ℤ
  pub hz : ℕ

-- `struct hall_rpm_data`, with the period for which the timer is started, in milliseconds.
pub record Hall : Type 0 where
  pub sampling_int : ℤ
  pub alpha : ℤ
  pub count : ℕ
  pub cycle : ℕ
  pub last : ℤ
  pub val : ℤ
  pub timer : Option ℤ

-- `hall_rpm_gpio_cb`; the count is an atomic_t of 32 bits.
unfoldable pub gpio_cb : Hall → Hall
gpio_cb d = record d { count = suc d.count % 2 ^ 32 }

-- A signed number of 64 bits where the code computes with unsigned ones.
unfoldable pub u64 : ℤ → ℕ
u64 (pos n) = n % 2 ^ 64
u64 (negsuc n) = 2 ^ 64 - 1 - n % 2 ^ 64

-- The difference of `cycle`, which has 64 bits, and `data->cycle`, which has 32.
unfoldable pub elapsed : Hall → ℕ → ℕ
elapsed d now = (now + 2 ^ 64 - d.cycle) % 2 ^ 64

-- `raw`; the divisions are unsigned.
unfoldable pub raw : Config → Hall → ℕ → ℤ
unfolding elapsed i32 i64 ◌*ℤ◌ u64
raw c d now = i64 (
    pos (
      u64 (i64 (i32 (pos d.count) *ℤ pos 1000 *ℤ pos 60 *ℤ pos c.hz))
      / elapsed d now
      / c.num_tooth))

-- The exponential filter
unfoldable pub filtered : Hall → ℤ → ℤ
unfolding i64 ◌*ℤ◌ ◌+ℤ◌ ◌-ℤ◌ ◌/ℤ◌
filtered d r = i64 (i64 (r *ℤ d.alpha) +ℤ i64 (d.last *ℤ (pos 1000 -ℤ d.alpha))) /ℤ pos 1000

-- `hall_rpm_timer_cb` with the counter at `now`; `none` for a division by zero.
unfoldable pub timer_cb : Config → ℕ → Hall → Option Hall
unfolding elapsed raw filtered
timer_cb c now d =
    if elapsed d now == 0 || c.num_tooth == 0
    then none
    else some (record d { cycle = now; count = 0; last = filtered d (raw c d now) })

-- The timer is started, and the filter set for its period; `none` for a division by zero.
unfoldable pub started : Config → ℕ → Hall → Option Hall
unfolding i32 ◌*ℤ◌ ◌/ℤ◌
started c now d =
    if eqb_ℤ c.time_const (pos 0)
    then none
    else some (record d {
      timer = some d.sampling_int;
      cycle = now;
      alpha = i32 (d.sampling_int *ℤ pos 1000) /ℤ c.time_const;
    })

unfoldable pub init : Config → ℕ → Hall → Option (ℤ × Hall)
unfolding started
init c now d =
    if not c.is_ready
    then some (enodev, d)
    else if is_neg c.configured
    then some (c.configured, d)
    else if is_neg c.interrupt
    then some (c.interrupt, d)
    else (elim (started c now d) [ none ↦ none | some d' ↦ some (pos 0, d') ])

-- The channels that are told apart
pub data Channel : Type 0 where
  all rpm other_channel : Channel

unfoldable pub sample_fetch : Channel → Hall → ℤ × Hall
sample_fetch other_channel d = (enotsup, d)
sample_fetch all d = (pos 0, record d { val = d.last })
sample_fetch rpm d = (pos 0, record d { val = d.last })

unfoldable pub channel_get : Channel → Hall → ℤ × Option ℤ
channel_get rpm d = (pos 0, some d.val)
channel_get all d = (enotsup, none)
channel_get other_channel d = (enotsup, none)

-- `hall_rpm_attr_set` with a frequency in millihertz, or another attribute.
unfoldable pub attr_set : Config → ℕ → Option ℤ → Hall → Option (ℤ × Hall)
unfolding i32 ◌/ℤ◌ started
attr_set c now none d = some (enotsup, d)
attr_set c now (some frequency) d =
    if eqb_ℤ frequency (pos 0)
    then none
    else (elim (started c now (record d { sampling_int = i32 (pos 1000000 /ℤ frequency) })) [
      | none ↦ none
      | some d' ↦ some (pos 0, d')
    ])

-- `hall_rpm_attr_get`, of the frequency if it is asked for
unfoldable pub attr_get : Bool → Hall → Option (ℤ × Option ℤ)
unfolding ◌/ℤ◌
attr_get of_frequency d =
    if not of_frequency
    then some (enotsup, none)
    else if eqb_ℤ d.sampling_int (pos 0)
    then none
    else some (pos 0, some (pos 1000000 /ℤ d.sampling_int))
