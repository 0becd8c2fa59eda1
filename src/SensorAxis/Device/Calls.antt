-- ===== src/SensorAxis/Device/Calls.antt =====
-- drivers/input/sensor-axis/sensor_axis.c: the calls that `channel_update` makes.
use nturt_zephyr_common.Base.{
  ℕ, ◌+◌, ◌*◌, ◌≤◌, ◌≡◌, inl, inr, Option-cases, refl, ap, ◌∙◌, Bool, Bool-cases, true, false, ◌&&◌,
  Option, none, some, List, [], ◌∷◌, arith,
}
use nturt_zephyr_common.Base.Int.{ℤ, pos, negsuc, ◌+ℤ◌, ◌-ℤ◌, i32, is_neg}
use nturt_zephyr_common.Input.{
  Error, no_error, dev, ev_abs, Call, report, Input, input_report, SensorValue, io, nodev, busy,
}
use nturt_zephyr_common.SensorAxis.Sensor.{
  Zephyr, Sensor, SensorConfig, Answer, Got, einval, sensor_get, sensor_get_raw,
  sensor_error_update, error_reported, sensor_check, conclude, passed, call_raw,
}
use nturt_zephyr_common.SensorAxis.Channel.{
  Channel, ChannelConfig, Entry, Round, absorb, take_result, read_if, read_sensor, read_sensors,
  start, channel_error_update, channel_error_report, error_set, error_cleared, is_noise,
  output_reported, report_output, channel_output, output_unless, channel_finish, channel_update,
  out_deadzone, deviates, enodev,
}
use nturt_zephyr_common.SensorAxis.Channel.Reads.{Weighed, IsRead, read_sensors-IsRead}
use nturt_zephyr_common.SensorAxis.Channel.Scale.{
  IsSized, out_deadzone-range, scaled-range, average-le,
}

module _ (ok : ℕ → ℕ → ℤ → Bool) where
  -- Reports of axes are as `ok` has it.
  abbrev pub call_ok : Call → Bool
  call_ok (report device ev_abs axis value ret) = ok device axis value
  call_ok _ = true

  abbrev pub all_ok : List Call → Bool
  all_ok [] = true
  all_ok (c ∷ cs) = call_ok c && all_ok cs

  sensor_error_update-ok :
      (d : ℕ) (s : Sensor) (i : Input) (e : Error) (ret : ℤ)
      → all_ok i.calls ≡ true
      → all_ok (sensor_error_update d s i e ret).2.calls ≡ true
  unfolding sensor_error_update error_reported
  sensor_error_update-ok d s i e ret h = ground (arith, h)

  channel_error_update-ok :
      (d : ℕ) (config : ChannelConfig) (ch : Channel) (i : Input) (e : Error) (ret : ℤ)
      → all_ok i.calls ≡ true
      → all_ok (channel_error_update d config ch i e ret).2.calls ≡ true
  unfolding channel_error_update channel_error_report error_set error_cleared
  channel_error_update-ok d config ch i e ret h = ground (arith, h)

  passed-ok :
      (val : ℤ) (u : ℤ × Sensor × Input)
      → all_ok u.2.calls ≡ true
      → all_ok (passed val u).input.calls ≡ true
  passed-ok val (ret, s, i) h = ground (arith, h)

  call_raw-ok :
      (d : ℕ) (s : Sensor) (i : Input) (v : SensorValue)
      → all_ok i.calls ≡ true
      → all_ok (call_raw d s i v).calls ≡ true
  call_raw-ok d s i v h = elim (Option-cases s.cb) [
    | inl no_cb ↦ rw no_cb h
    | inr (user_data, has_cb) ↦ rw has_cb h
  ]

  conclude-ok :
      (d : ℕ) (s : Sensor) (i : Input) (val : ℤ) (e : Option Error)
      → all_ok i.calls ≡ true
      → all_ok (conclude d s i val e).input.calls ≡ true
  unfolding conclude
  conclude-ok d s i val (some e) h = sensor_error_update-ok d s i e einval h
  conclude-ok d s i val none h =
      passed-ok _ (sensor_error_update d s i no_error (pos 0))
        (sensor_error_update-ok d s i no_error (pos 0) h)

  sensor_get-ok :
      (z : Zephyr) (d : ℕ) (config : SensorConfig) (lock : ℤ) (a : Answer) (s : Sensor) (i : Input)
      → all_ok i.calls ≡ true
      → all_ok (sensor_get z d config lock a s i).input.calls ≡ true
  unfolding sensor_get sensor_check
  sensor_get-ok z d config lock a s i h = elim (Bool-cases (is_neg lock)) [
    | inl busy_lock ↦ rw busy_lock (sensor_error_update-ok d s i busy lock h)
    | inr free ↦ elim (Bool-cases (is_neg (sensor_get_raw a))) [
      | inl bad ↦ rw (free, bad) (sensor_error_update-ok d s i io (sensor_get_raw a) h)
      | inr good ↦
          rw (free, good)
            (conclude-ok d s (call_raw d s i a.value) _ _ (call_raw-ok d s i a.value h))
    ]
  ]

  absorb-ok :
      (r : Round) (w : ℤ) (v : Option ℤ)
      → all_ok r.input.calls ≡ true
      → all_ok (absorb r w v).input.calls ≡ true
  unfolding absorb
  absorb-ok r w none h = h
  absorb-ok r w (some v) h = h

  take_result-ok :
      (d : ℕ) (config : ChannelConfig) (e : Entry) (r : Round) (g : Got)
      → all_ok g.input.calls ≡ true
      → all_ok (take_result d config e r g).1.input.calls ≡ true
  unfolding take_result
  take_result-ok d config e r g h = elim (Bool-cases (is_neg g.ret)) [
    | inl bad ↦ rw bad (channel_error_update-ok d config r.channel g.input io g.ret h)
    | inr good ↦ rw good (absorb-ok (record r { input = g.input }) e.weight g.val h)
  ]

  read_if-ok :
      (b : Bool) (z : Zephyr) (d : ℕ) (config : ChannelConfig) (e : Entry) (r : Round)
      → all_ok r.input.calls ≡ true
      → all_ok (read_if b z d config e r).1.input.calls ≡ true
  unfolding read_if
  read_if-ok true z d config e r h =
      take_result-ok d config e r _
        (sensor_get-ok z e.device e.config e.lock e.answer e.data_ r.input h)
  read_if-ok false z d config e r h =
      channel_error_update-ok d config r.channel r.input nodev enodev h

  read_sensors-ok :
      (z : Zephyr) (d : ℕ) (config : ChannelConfig) (es : List Entry) (r : Round)
      → all_ok r.input.calls ≡ true
      → all_ok (read_sensors z d config es r).1.input.calls ≡ true
  unfolding read_sensors read_sensor
  read_sensors-ok z d config [] r h = h
  read_sensors-ok z d config (e ∷ es) r h =
      read_sensors-ok z d config es (read_sensor z d config e r).1
        (read_if-ok e.ready z d config e r h)

  output_reported-ok :
      (d axis : ℕ) (out v : ℤ) (ch : Channel) (i : Input)
      → ok d axis v ≡ true
      → all_ok i.calls ≡ true
      → all_ok (output_reported out ch (input_report i d ev_abs axis v)).2.calls ≡ true
  unfolding output_reported
  output_reported-ok d axis out v ch i fine h = ground (arith, fine, h)

  -- A channel whose outputs are as `ok` has it.
  abbrev pub Admits : ℕ → ℕ → ChannelConfig → ℕ → Type 0
  Admits d axis config span = (q : ℕ) → q ≤ span → ok d axis (config.out_min +ℤ pos q) ≡ true

  module _ (z : Zephyr) (d axis : ℕ) (config : ChannelConfig) (total span : ℕ)
      (c : IsSized config total span) (admits : Admits d axis config span) where
    report_output-ok :
        (o : ℕ) (ch : Channel) (i : Input)
        → o ≤ 1000000
        → all_ok i.calls ≡ true
        → all_ok (report_output z d axis config (pos o) ch i).2.calls ≡ true
    unfolding report_output
    report_output-ok o ch i le h = elim (Bool-cases (is_noise config ch.prev_out (pos o))) [
      | inl quiet ↦ rw quiet h
      | inr loud ↦
          let (q, value, q-le) = scaled-range z c o le in
          rw loud
            (output_reported-ok d axis (pos o) _ ch i (ap (ok d axis) value ∙ admits q q-le) h)
    ]

    channel_output-ok :
        (a : ℕ) (ch : Channel) (i : Input)
        → a ≤ 1000000 * total
        → all_ok i.calls ≡ true
        → all_ok (channel_output z d axis config (pos a) ch i).2.calls ≡ true
    unfolding channel_output
    channel_output-ok a ch i le h =
        let (o, is-o, o-le) =
          out_deadzone-range config _ c.mode_is (average-le a total c.total_pos le) in
        let out : out_deadzone config (z.div_round_closest (pos a) config.total_weight) ≡ pos o =
          ap (out_deadzone config) (
            ap (z.div_round_closest (pos a)) c.total_is
            ∙ z.div_round_closest_pos a total c.total_pos)
          ∙ is-o in
        rw out (report_output-ok o ch i o-le h)

    output_unless-ok :
        (a : ℕ) (u : ℤ × Channel × Input)
        → a ≤ 1000000 * total
        → all_ok u.2.calls ≡ true
        → all_ok (output_unless (channel_output z d axis config (pos a)) u).2.calls ≡ true
    output_unless-ok a (pos n, ch, i) le h = channel_output-ok a ch i le h
    output_unless-ok a (negsuc n, ch, i) le h = h

    channel_finish-ok :
        (r : Round)
        → IsRead r total
        → all_ok r.input.calls ≡ true
        → all_ok (channel_finish z d axis config r).2.calls ≡ true
    unfolding channel_finish
    channel_finish-ok r (inl bad) h = rw bad h
    channel_finish-ok r (inr (fine, (a, sum, le))) h =
        elim (Bool-cases (deviates config r.channel.error (i32 (r.val_max -ℤ r.val_min)))) [
          | inl far ↦
              rw (fine, far) (channel_error_update-ok d config r.channel r.input dev einval h)
          | inr near ↦
              rw (fine, near, sum)
                (output_unless-ok a
                  (channel_error_update d config r.channel r.input no_error (pos 0)) le
                  (channel_error_update-ok d config r.channel r.input no_error (pos 0) h))
        ]

    pub channel_update-ok :
        (es : List Entry) (ch : Channel) (i : Input)
        → Weighed es total
        → all_ok i.calls ≡ true
        → all_ok (channel_update z d axis config es ch i).1.2.calls ≡ true
    unfolding channel_update
    channel_update-ok es ch i ws h =
        let whole : 0 + total ≡ total = omega arith in
        channel_finish-ok (read_sensors z d config es (start ch i)).1
          (rw whole at (
            read_sensors-IsRead z d config es (start ch i) total 0 ws (omega (arith, c.total_small))
              (inr (refl, (0, refl, omega arith)))))
          (read_sensors-ok z d config es (start ch i) h)
