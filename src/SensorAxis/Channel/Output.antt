-- ===== src/SensorAxis/Channel/Output.antt =====
-- drivers/input/sensor-axis/sensor_axis.c, `channel_update`: the value reported
-- lies between the ends of the axis.
use nturt_zephyr_common.Base.{
  ℕ, ◌+◌, ◌*◌, ◌≤◌, ◌≡◌, ◌⊎◌, inl, inr, refl, ap, ◌∙◌, Bool-cases, true, List, ◌∷◌, arith, length,
}
use nturt_zephyr_common.Base.Int.{ℤ, pos, negsuc, ◌+ℤ◌, ◌-ℤ◌, i32, is_neg}
use nturt_zephyr_common.Input.{dev, is_none, ev_abs, Call, report, Input, input_report}
use nturt_zephyr_common.SensorAxis.Sensor.{Zephyr, einval}
use nturt_zephyr_common.SensorAxis.Channel.{
  Channel, ChannelConfig, Entry, Round, read_sensors, start, out_deadzone, channel_output,
  channel_finish, channel_update, output_reported, report_output, is_noise, deviates, output_unless,
}
use nturt_zephyr_common.SensorAxis.Channel.Report.{
  channel_error_update-neg, channel_error_update-clear,
}
use nturt_zephyr_common.SensorAxis.Channel.Reads.{Weighed, IsRead, read_sensors-IsRead}
use nturt_zephyr_common.SensorAxis.Channel.Scale.{
  IsSized, out_deadzone-range, scaled-range, average-le,
}

-- A channel that has reported a value.
abbrev pub IsReport : ℕ → ℕ → ChannelConfig → ℕ → ℤ × Channel × Input → Type 0
IsReport d axis config span (ret, ch, i) =
    (q : ℕ) × (answer : ℤ) × (before : List Call) × (i.calls
      ≡ report d ev_abs axis (config.out_min +ℤ pos q) answer ∷ before)
    × (q ≤ span)
    × (is_none ch.error ≡ true)

output_reported-IsReport :
    (d axis : ℕ) (config : ChannelConfig) (span q : ℕ) (out v : ℤ) (ch : Channel) (i : Input)
    → v ≡ config.out_min +ℤ pos q
    → q ≤ span
    → is_none ch.error ≡ true
    → (output_reported out ch (input_report i d ev_abs axis v)).0 ≡ pos 1
    → IsReport d axis config span (output_reported out ch (input_report i d ev_abs axis v))
unfolding output_reported
output_reported-IsReport d axis config span q out v ch i at le fine r =
    elim (Bool-cases (is_neg (i.answers (length i.calls)))) [
      | inl bad ↦ absurd (ground (arith, bad, r))
      | inr good ↦ rw (good, at) (q, i.answers (length i.calls), i.calls, refl, le, fine)
    ]

report_output-IsReport :
    (z : Zephyr) (d axis : ℕ) {config : ChannelConfig} {total span : ℕ}
    (c : IsSized config total span) (o : ℕ) (ch : Channel) (i : Input)
    → o ≤ 1000000
    → is_none ch.error ≡ true
    → (report_output z d axis config (pos o) ch i).0 ≡ pos 1
    → IsReport d axis config span (report_output z d axis config (pos o) ch i)
unfolding report_output
report_output-IsReport z d axis {config} {span = span} c o ch i le fine r =
    elim (Bool-cases (is_noise config ch.prev_out (pos o))) [
      | inl quiet ↦ absurd (ground (arith, rw quiet at r))
      | inr loud ↦
          let (q, value, q-le) = scaled-range z c o le in
          rw loud
            (output_reported-IsReport d axis config span q _ _ ch i value q-le fine (rw loud at r))
    ]

channel_output-IsReport :
    (z : Zephyr) (d axis : ℕ) {config : ChannelConfig} {total span : ℕ}
    (c : IsSized config total span) (a : ℕ) (ch : Channel) (i : Input)
    → a ≤ 1000000 * total
    → is_none ch.error ≡ true
    → (channel_output z d axis config (pos a) ch i).0 ≡ pos 1
    → IsReport d axis config span (channel_output z d axis config (pos a) ch i)
unfolding channel_output
channel_output-IsReport z d axis {config} {total} {span} c a ch i h fine r =
    let (o, is-o, o-le) =
      out_deadzone-range config _ c.mode_is (average-le a total c.total_pos h) in
    let out : out_deadzone config (z.div_round_closest (pos a) config.total_weight) ≡ pos o =
      ap (out_deadzone config)
        (ap (z.div_round_closest (pos a)) c.total_is ∙ z.div_round_closest_pos a total c.total_pos)
      ∙ is-o in
    rw out (report_output-IsReport z d axis c o ch i o-le fine (rw out at r))

unless-IsReport :
    (z : Zephyr) (d axis : ℕ) {config : ChannelConfig} {total span : ℕ}
    (c : IsSized config total span) (a : ℕ) (u : ℤ × Channel × Input)
    → a ≤ 1000000 * total
    → (is_neg u.0 ≡ true) ⊎ ((u.0 ≡ pos 0) × (is_none u.1.error ≡ true))
    → (output_unless (channel_output z d axis config (pos a)) u).0 ≡ pos 1
    → IsReport d axis config span (output_unless (channel_output z d axis config (pos a)) u)
unless-IsReport z d axis c a u le (inl bad) h = absurd (ground (arith, bad, h))
unless-IsReport z d axis c a (negsuc n, ch, i) le (inr (ok, clear)) h = absurd (cc)
unless-IsReport z d axis c a (pos n, ch, i) le (inr (ok, clear)) h =
    channel_output-IsReport z d axis c a ch i le clear h

finish-IsReport :
    (z : Zephyr) (d axis : ℕ) {config : ChannelConfig} {total span : ℕ}
    (c : IsSized config total span) (r : Round)
    → IsRead r total
    → (channel_finish z d axis config r).0 ≡ pos 1
    → IsReport d axis config span (channel_finish z d axis config r)
unfolding channel_finish
finish-IsReport z d axis c r (inl bad) h = absurd (ground (arith, bad, h))
finish-IsReport z d axis {config} c r (inr (fine, (a, sum, le))) h =
    elim (Bool-cases (deviates config r.channel.error (i32 (r.val_max -ℤ r.val_min)))) [
      | inl far ↦ absurd (
          ground (
            arith,
            fine,
            far,
            h,
            channel_error_update-neg d config r.channel r.input dev einval refl,
          ))
      | inr near ↦
          rw (fine, near, sum)
            (unless-IsReport z d axis c a _ le
              (channel_error_update-clear d config r.channel r.input) (rw (fine, near, sum) at h))
    ]

-- When `channel_update` returns 1, its last call has reported on the axis a value between `out_min`
-- and `out_max`, and the channel is without an error: for weights that add up to `total`, and a
-- configuration whose products fit in 32 bits.
pub channel_update-IsReport :
    (z : Zephyr) (d axis : ℕ) {config : ChannelConfig} {total span : ℕ} (es : List Entry)
    (ch : Channel) (i : Input)
    → IsSized config total span
    → Weighed es total
    → (channel_update z d axis config es ch i).1.0 ≡ pos 1
    → IsReport d axis config span (channel_update z d axis config es ch i).1
unfolding channel_update
channel_update-IsReport z d axis {config} {total} es ch i c ws h =
    let whole : 0 + total ≡ total = omega arith in
    finish-IsReport z d axis c (read_sensors z d config es (start ch i)).1
      (rw whole at (
        read_sensors-IsRead z d config es (start ch i) total 0 ws (omega arith)
          (inr (refl, (0, refl, omega arith)))))
      h
