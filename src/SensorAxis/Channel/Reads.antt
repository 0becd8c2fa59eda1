-- ===== src/SensorAxis/Channel/Reads.antt =====
-- drivers/input/sensor-axis/sensor_axis.c, `channel_update`: the weighted sum of the readings stays in
-- range.
use nturt_zephyr_common.Base.{
  ℕ, ◌+◌, ◌*◌, ◌≤◌, ◌≡◌, ◌⊎◌, inl, inr, refl, Bool, true, false, some, List, [], ◌∷◌, arith,
}
use nturt_zephyr_common.Base.Int.{ℤ, pos, ◌+ℤ◌, ◌*ℤ◌, i32, is_neg, pos_add, pos_mul, i32_pos}
use nturt_zephyr_common.Input.{Error, Input}
use nturt_zephyr_common.SensorAxis.Sensor.{Zephyr, Got}
use nturt_zephyr_common.SensorAxis.Sensor.Errors.{IsResult, sensor_get-IsResult}
use nturt_zephyr_common.SensorAxis.Channel.{
  Channel, ChannelConfig, Entry, Round, fault, absorb, take_result, read_if, read_sensor,
  read_sensors, channel_error_update,
}
use nturt_zephyr_common.SensorAxis.Channel.Report.{channel_error_update-neg}

-- The weights of the sensors are not negative, and add up to `total`.
abbrev pub Weighed : List Entry → ℕ → Type 0
Weighed [] total = total ≡ 0
Weighed (e ∷ es) total =
    (w : ℕ) × (rest : ℕ) × (e.weight ≡ pos w) × (total ≡ w + rest) × Weighed es rest

-- Either a sensor has failed, or the sum is that of values up to 1000000 with the weights so far.
abbrev pub IsRead : Round → ℕ → Type 0
IsRead r total =
    (is_neg r.ret ≡ true)
    ⊎ ((r.ret ≡ pos 0) × ((a : ℕ) × (r.val_accum ≡ pos a) × (a ≤ 1000000 * total)))

scaled_weight : (v w : ℕ) → v ≤ 1000000 → v * w ≤ 1000000 * w
scaled_weight v w h = grind arith

absorb-sum :
    (a v w total : ℕ)
    → a ≤ 1000000 * total
    → v ≤ 1000000
    → total + w ≤ 2000
    → i32 (pos a +ℤ i32 (pos v *ℤ pos w)) ≡ pos (a + v * w)
absorb-sum a v w total ha hv ht =
    rw (pos_mul, i32_pos (v * w) (omega (arith, scaled_weight v w hv)), pos_add)
      (i32_pos (a + v * w) (omega (arith, scaled_weight v w hv)))

absorb-IsRead :
    (r : Round) (w v total : ℕ)
    → v ≤ 1000000
    → total + w ≤ 2000
    → IsRead r total
    → IsRead (absorb r (pos w) (some (pos v))) (total + w)
unfolding absorb
absorb-IsRead r w v total hv ht (inl bad) = inl bad
absorb-IsRead r w v total hv ht (inr (zero_ret, (a, sum, le))) = inr (
  zero_ret,
  (a + v * w, rw sum (absorb-sum a v w total le hv ht), omega (arith, scaled_weight v w hv)),
)

fault-IsRead :
    (d : ℕ) (config : ChannelConfig) (r : Round) (ch : Channel) (i : Input) (e : Error) (ret : ℤ)
    (total : ℕ)
    → is_neg ret ≡ true
    → IsRead (fault r (channel_error_update d config ch i e ret)) total
fault-IsRead d config r ch i e ret total h = inl (channel_error_update-neg d config ch i e ret h)

take_result-IsRead :
    (d : ℕ) (config : ChannelConfig) (e : Entry) (r : Round) (g : Got) (w total : ℕ)
    → e.weight ≡ pos w
    → total + w ≤ 2000
    → IsResult g
    → IsRead r total
    → IsRead (take_result d config e r g).1 (total + w)
unfolding take_result
take_result-IsRead d config e r g w total hw ht (inl bad) h =
    rw bad.0 (fault-IsRead d config r r.channel g.input _ g.ret (total + w) bad.0)
take_result-IsRead d config e r g w total hw ht (inr (fine, (v, val, le), clear)) h =
    rw (fine, val, hw) (absorb-IsRead (record r { input = g.input }) w v total le ht h)

read_if-IsRead :
    (b : Bool) (z : Zephyr) (d : ℕ) (config : ChannelConfig) (e : Entry) (r : Round) (w total : ℕ)
    → e.weight ≡ pos w
    → total + w ≤ 2000
    → IsRead r total
    → IsRead (read_if b z d config e r).1 (total + w)
unfolding read_if
read_if-IsRead true z d config e r w total hw ht h =
    take_result-IsRead d config e r _ w total hw ht
      (sensor_get-IsResult z e.device e.config e.lock e.answer e.data_ r.input) h
read_if-IsRead false z d config e r w total hw ht h =
    fault-IsRead d config r r.channel r.input _ _ (total + w) refl

read_sensor-IsRead :
    (z : Zephyr) (d : ℕ) (config : ChannelConfig) (e : Entry) (r : Round) (w total : ℕ)
    → e.weight ≡ pos w
    → total + w ≤ 2000
    → IsRead r total
    → IsRead (read_sensor z d config e r).1 (total + w)
unfolding read_sensor
read_sensor-IsRead z d config e r = read_if-IsRead e.ready z d config e r

pub read_sensors-IsRead :
    (z : Zephyr) (d : ℕ) (config : ChannelConfig) (es : List Entry) (r : Round) (rest total : ℕ)
    → Weighed es rest
    → total + rest ≤ 2000
    → IsRead r total
    → IsRead (read_sensors z d config es r).1 (total + rest)
unfolding read_sensors
read_sensors-IsRead z d config [] r rest total hw ht h =
    let same : total ≡ total + rest = omega arith in rw (← same) h
read_sensors-IsRead z d config (e ∷ es) r rest total (w, rest', weight, sum, ws) ht h =
    let regroup : total + w + rest' ≡ total + rest = omega arith in
    rw (← regroup) (
      read_sensors-IsRead z d config es (read_sensor z d config e r).1 rest' (total + w) ws
        (omega arith) (read_sensor-IsRead z d config e r w total weight (omega arith) h))
