-- ===== src/SensorAxis/Channel/Time.antt =====
-- drivers/input/sensor-axis/sensor_axis.c, `channel_error_update`: the accumulated error time.
use nturt_zephyr_common.Base.{
  ℕ, zero, suc, ◌+◌, ◌-◌, ◌*◌, ◌/◌, ◌<◌, ◌≤◌, ◌≡◌, ◌⊎◌, inr, ap, true, false, arith, leb,
  if◌then◌else◌, length,
}
use nturt_zephyr_common.Base.Int.{
  ℤ, pos, negsuc, ◌+ℤ◌, ◌-ℤ◌, i32, is_neg, ltb_ℤ, max_ℤ, pos_mul, pos_div, i32_pos,
}
use nturt_zephyr_common.Input.{Error, no_error, error_code, is_none, ev_error, Input, input_report}
use nturt_zephyr_common.SensorAxis.Channel.{
  Channel, ChannelConfig, accumulate, error_set, error_cleared, channel_error_report,
  channel_error_update, invalid_out,
}

-- Times in milliseconds within a week, and a decay in percent: no `int` overflows.
pub record IsTimed (config : ChannelConfig) (poll tolerance decay : ℕ) : Type 0 where
  pub poll_is : config.poll_period ≡ pos poll
  pub tolerance_is : config.time_tolerance ≡ pos tolerance
  pub decay_is : config.time_tolerance_decay ≡ pos decay
  pub poll_small : poll ≤ 10000000
  pub tolerance_small : tolerance ≤ 10000000
  pub decay_small : decay ≤ 100

-- A fall by `q` that stops at 0.
falls :
    (t q : ℕ)
    → t ≤ 10000000
    → q ≤ 10000000
    → (if ltb_ℤ (pos 0) (pos t) then max_ℤ (i32 (pos t -ℤ pos q)) (pos 0) else pos t) ≡ pos (t - q)
unfolding i32 ◌-ℤ◌
falls t q h k = ground arith

filled : (n p t : ℕ) → (n ≡ 0) ⊎ (n * p < t) → n * p ≤ t
filled zero p t h = omega arith
filled (suc n) p t h = omega arith

product_small : (a b : ℕ) → a ≤ 10000000 → b ≤ 100 → a * b ≤ 1000000000
product_small a b h k = grind arith

module _ {config : ChannelConfig} {poll tolerance decay : ℕ}
    (c : IsTimed config poll tolerance decay) where
  -- An error lets the time grow by the poll period, up to the tolerance.
  accumulate_error :
      (e : Error) (t : ℕ)
      → is_none e ≡ false
      → t ≤ tolerance
      → accumulate config e (pos t) ≡ pos (if leb (t + poll) tolerance then t + poll else tolerance)
  unfolding accumulate ◌+ℤ◌ i32
  accumulate_error e t h k = ground arith

  -- Without an error it falls by the decay, down to 0.
  accumulate_none :
      (t : ℕ)
      → t ≤ tolerance
      → accumulate config no_error (pos t) ≡ pos (t - tolerance * decay / 100)
  unfolding accumulate
  accumulate_none t k =
      let small : tolerance * decay ≤ 1000000000 =
        product_small tolerance decay c.tolerance_small c.decay_small in
      rw (c.tolerance_is, c.decay_is, pos_mul, i32_pos (tolerance * decay) (omega arith), pos_div)
        (falls t (tolerance * decay / 100) (omega (arith, c.tolerance_small)) (omega arith))

-- `n` polls whose updates are by `e`, with the return value `ret`.
pub polls : ℕ → ChannelConfig → Error → ℤ → ℕ → Channel × Input → Channel × Input
polls d config e ret zero s = s
polls d config e ret (suc n) s =
    let (ch, i) = polls d config e ret n s in
    let (r, ch', i') = channel_error_update d config ch i e ret in (ch', i')

abbrev pub at_time : Channel → ℕ → Channel
at_time ch t = record ch { accum_error_time = pos t }

module _ {config : ChannelConfig} {poll tolerance decay : ℕ}
    (c : IsTimed config poll tolerance decay) (d : ℕ) (ch : Channel) (i : Input)
    (delivered : (n : ℕ) → is_neg (i.answers n) ≡ false) where
  -- One poll with an error that the time tolerance still covers.
  fault_waits :
      (e : Error) (ret : ℤ) (t : ℕ)
      → is_none e ≡ false
      → is_none ch.error ≡ true
      → t + poll < tolerance
      → channel_error_update d config (at_time ch t) i e ret ≡ (ret, at_time ch (t + poll), i)
  unfolding channel_error_update channel_error_report
  fault_waits e ret t he hc lt =
      rw (accumulate_error c e t he (omega arith)) (ground (arith, c.tolerance_is))

  -- One poll with an error beyond the time tolerance.
  fault_raises :
      (e : Error) (ret : ℤ) (t : ℕ)
      → is_none e ≡ false
      → is_none ch.error ≡ true
      → t ≤ tolerance
      → tolerance ≤ t + poll
      → channel_error_update d config (at_time ch t) i e ret ≡ (
        ret,
        record { error = e; prev_out = invalid_out; accum_error_time = pos tolerance },
        (input_report i d ev_error (error_code e) (pos 1)).1,
      )
  unfolding channel_error_update channel_error_report error_set
  fault_raises e ret t he hc le ge =
      rw (accumulate_error c e t he le) (ground (arith, c.tolerance_is, delivered (length i.calls)))

  polls_waiting :
      (e : Error) (ret : ℤ) (n : ℕ)
      → is_none e ≡ false
      → is_none ch.error ≡ true
      → (n ≡ 0) ⊎ (n * poll < tolerance)
      → polls d config e ret n (at_time ch 0, i) ≡ (at_time ch (n * poll), i)
  unfolding polls
  polls_waiting e ret zero he hc lt = ap (λ t. (at_time ch t, i)) (omega arith)
  polls_waiting e ret (suc n) he hc lt =
      let before : n * poll + poll < tolerance = omega arith in
      let ih = polls_waiting e ret n he hc (inr (omega arith)) in
      rw (ih, fault_waits e ret (n * poll) he hc before) (ap (λ t. (at_time ch t, i)) (omega arith))

  pub polls_raise :
      (e : Error) (ret : ℤ) (n : ℕ)
      → is_none e ≡ false
      → is_none ch.error ≡ true
      → (n ≡ 0) ⊎ (n * poll < tolerance)
      → tolerance ≤ suc n * poll
      → (polls d config e ret n (at_time ch 0, i) ≡ (at_time ch (n * poll), i))
        × (polls d config e ret (suc n) (at_time ch 0, i) ≡ (
          record { error = e; prev_out = invalid_out; accum_error_time = pos tolerance },
          (input_report i d ev_error (error_code e) (pos 1)).1,
        ))
  unfolding polls
  polls_raise e ret n he hc lt ge =
      let waiting = polls_waiting e ret n he hc lt in
      (
        waiting,
        rw (
          waiting,
          fault_raises e ret (n * poll) he hc (filled n poll tolerance lt) (omega arith),
        ),
      )

  -- What one poll without an error takes off the accumulated time.
  abbrev pub decrease : ℕ
  decrease = tolerance * decay / 100

  clear_waits :
      (t : ℕ)
      → is_none ch.error ≡ false
      → t ≤ tolerance
      → decrease < t
      → channel_error_update d config (at_time ch t) i no_error (pos 0)
        ≡ (negsuc 10, at_time ch (t - decrease), i)
  unfolding channel_error_update channel_error_report
  clear_waits t hc le lt = rw (accumulate_none c t le) (ground arith)

  clear_ends :
      (t : ℕ)
      → is_none ch.error ≡ false
      → t ≤ tolerance
      → t ≤ decrease
      → channel_error_update d config (at_time ch t) i no_error (pos 0) ≡ (
        pos 0,
        record (at_time ch 0) { error = no_error },
        (input_report i d ev_error 0 (pos 0)).1,
      )
  unfolding channel_error_update channel_error_report error_cleared
  clear_ends t hc le ge =
      let gone : t - decrease ≡ 0 = omega arith in
      rw (accumulate_none c t le, gone) (ground (arith, delivered (length i.calls)))

  polls_decaying :
      (n : ℕ)
      → is_none ch.error ≡ false
      → n * decrease < tolerance
      → polls d config no_error (pos 0) n (at_time ch tolerance, i)
        ≡ (at_time ch (tolerance - n * decrease), i)
  unfolding polls
  polls_decaying zero hc lt = ap (λ t. (at_time ch t, i)) (omega arith)
  polls_decaying (suc n) hc lt =
      rw
        (
          polls_decaying n hc (omega arith),
          clear_waits (tolerance - n * decrease) hc (omega arith) (omega arith),
        )
        (ap (λ t. (at_time ch t, i)) (omega arith))

  pub polls_clear :
      (n : ℕ)
      → is_none ch.error ≡ false
      → n * decrease < tolerance
      → tolerance ≤ suc n * decrease
      → (polls d config no_error (pos 0) n (at_time ch tolerance, i)
          ≡ (at_time ch (tolerance - n * decrease), i))
        × (polls d config no_error (pos 0) (suc n) (at_time ch tolerance, i)
            ≡ (record (at_time ch 0) { error = no_error }, (input_report i d ev_error 0 (pos 0)).1))
  unfolding polls
  polls_clear n hc lt ge =
      let waiting = polls_decaying n hc lt in
      (waiting, rw (waiting, clear_ends (tolerance - n * decrease) hc (omega arith) (omega arith)))
