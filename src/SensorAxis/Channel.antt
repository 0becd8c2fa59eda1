-- ===== src/SensorAxis/Channel.antt =====
-- drivers/input/sensor-axis/sensor_axis.c and sensor_axis.h: a channel, which combines its sensors
-- into one axis. The log is left out, and with it `info`, which only the log reads.
pub mod Time
pub mod Report
pub mod Output
pub mod Reads
pub mod Scale
use nturt_zephyr_common.Base.{
  ℕ, ◌^◌, ◌-◌, ◌<◌, Bool, true, false, not, ◌&&◌, Option, none, some, List, [], ◌∷◌, ltb,
  if◌then◌else◌,
}
use nturt_zephyr_common.Base.Int.{
  ℤ, pos, negsuc, ◌+ℤ◌, ◌-ℤ◌, ◌*ℤ◌, ◌/ℤ◌, ltb_ℤ, leb_ℤ, eqb_ℤ, i32, is_neg, min_ℤ, max_ℤ, abs,
}
use nturt_zephyr_common.Input.{
  Error, no_error, io, nodev, dev, error_code, is_none, ev_abs, ev_error, Input, input_report,
}
use nturt_zephyr_common.SensorAxis.Sensor.{
  Zephyr, Sensor, SensorConfig, Answer, Got, einval, sensor_get,
}

-- INT32_MAX, which is INVALID_OUT too, and INT32_MIN.
abbrev pub invalid_out : ℤ
invalid_out = pos (2 ^ 31 - 1)

abbrev pub int32_min : ℤ
int32_min = negsuc (2 ^ 31 - 1)

-- `struct sensor_axis_channel_data`
pub record Channel : Type 0 where
  pub error : Error
  pub prev_out : ℤ
  pub accum_error_time : ℤ

-- `struct sensor_axis_channel_config` less the sensors and their weights, which are `Entry`.
pub record ChannelConfig : Type 0 where
  pub total_weight : ℤ
  pub out_min : ℤ
  pub out_max : ℤ
  pub deadzone_mode : ℤ
  pub deadzone_size : ℤ
  pub noise : ℤ
  pub dev_tolerance : ℤ
  pub poll_period : ℤ
  pub time_tolerance : ℤ
  pub time_tolerance_decay : ℤ

-- A sensor of a channel: its device number, whether the device is ready, its weight, its state, and
-- what its mutex and the underlying sensor answer in this round.
pub record Entry : Type 0 where
  pub device : ℕ
  pub ready : Bool
  pub weight : ℤ
  pub config : SensorConfig
  pub data_ : Sensor
  pub lock : ℤ
  pub answer : Answer

-- The accumulated error time after an update by `error`.
unfoldable pub accumulate : ChannelConfig → Error → ℤ → ℤ
accumulate config error t =
    if not (is_none error) && ltb_ℤ t config.time_tolerance
    then min_ℤ (i32 (t +ℤ config.poll_period)) config.time_tolerance
    else if is_none error && ltb_ℤ (pos 0) t
    then max_ℤ (i32 (t -ℤ i32 (config.time_tolerance *ℤ config.time_tolerance_decay) /ℤ pos 100))
        (pos 0)
    else t

-- -EAGAIN and -ENODEV
abbrev pub eagain : ℤ
eagain = negsuc 10

abbrev pub enodev : ℤ
enodev = negsuc 18

-- The ends of `channel_error_update` behind `input_report`: the error is set, or cleared.
unfoldable pub error_set : Channel → Error → ℤ → ℤ × Input → ℤ × Channel × Input
error_set ch error ret (ret2, i) =
    if is_neg ret2
    then (ret2, ch, i)
    else (ret, record ch { prev_out = invalid_out; error = error }, i)

unfoldable pub error_cleared : Channel → ℤ → ℤ × Input → ℤ × Channel × Input
error_cleared ch ret (ret2, i) =
    if is_neg ret2 then (ret2, ch, i) else (ret, record ch { error = no_error }, i)

-- `channel_error_update` behind the update of the time.
unfoldable pub channel_error_report :
    ℕ → ChannelConfig → Channel → Input → Error → ℤ → ℤ × Channel × Input
channel_error_report device config ch i error ret =
    if not (is_none error) && is_none ch.error
    then if leb_ℤ config.time_tolerance ch.accum_error_time
      then error_set ch error ret (input_report i device ev_error (error_code error) (pos 1))
      else (ret, ch, i)
    else if is_none error && not (is_none ch.error)
    then if eqb_ℤ ch.accum_error_time (pos 0)
      then error_cleared ch ret (input_report i device ev_error (error_code error) (pos 0))
      else (eagain, ch, i)
    else (ret, ch, i)

unfoldable pub channel_error_update :
    ℕ → ChannelConfig → Channel → Input → Error → ℤ → ℤ × Channel × Input
channel_error_update device config ch i error ret =
    channel_error_report device config
      (record ch { accum_error_time = accumulate config error ch.accum_error_time }) i error ret

-- INPUT_DEADZONE_MODE_CENTER and INPUT_DEADZONE_MODE_EDGE are 0 and 1.
unfoldable pub out_deadzone : ChannelConfig → ℤ → ℤ
out_deadzone config out =
    let size = i32 (config.deadzone_size *ℤ pos 10000) in
    if eqb_ℤ config.deadzone_size (pos 0)
    then out
    else if eqb_ℤ config.deadzone_mode (pos 0)
    then if leb_ℤ (i32 (pos 500000 -ℤ size)) out && leb_ℤ out (i32 (pos 500000 +ℤ size))
      then pos 500000
      else out
    else if eqb_ℤ config.deadzone_mode (pos 1)
    then if ltb_ℤ out size then pos 0 else out
    else negsuc 0

-- The variables of the loop of `channel_update`.
pub record Round : Type 0 where
  pub ret : ℤ
  pub val_accum : ℤ
  pub val_min : ℤ
  pub val_max : ℤ
  pub channel : Channel
  pub input : Input

abbrev pub fault : Round → ℤ × Channel × Input → Round
fault r (ret, ch, i) = record r { ret = ret; channel = ch; input = i }

-- A sensor's value enters the sum and the extremes. `none` is a value that was not stored.
unfoldable pub absorb : Round → ℤ → Option ℤ → Round
absorb r weight none = r
absorb r weight (some val) = record r {
  val_accum = i32 (r.val_accum +ℤ i32 (val *ℤ weight));
  val_min = min_ℤ r.val_min val;
  val_max = max_ℤ r.val_max val;
}

-- What the loop does with the result of `sensor_get`.
unfoldable pub take_result : ℕ → ChannelConfig → Entry → Round → Got → Entry × Round
take_result device config e r g = (
  record e { data_ = g.sensor },
  if is_neg g.ret
      then fault r (channel_error_update device config r.channel g.input io g.ret)
      else absorb (record r { input = g.input }) e.weight g.val,
)

-- The body of the loop, by what `device_is_ready` says.
unfoldable pub read_if : Bool → Zephyr → ℕ → ChannelConfig → Entry → Round → Entry × Round
read_if true z device config e r =
    take_result device config e r (sensor_get z e.device e.config e.lock e.answer e.data_ r.input)
read_if false z device config e r =
    (e, fault r (channel_error_update device config r.channel r.input nodev enodev))

unfoldable pub read_sensor : Zephyr → ℕ → ChannelConfig → Entry → Round → Entry × Round
read_sensor z device config e r = read_if e.ready z device config e r

unfoldable pub read_sensors : Zephyr → ℕ → ChannelConfig → List Entry → Round → List Entry × Round
read_sensors z device config [] r = ([], r)
read_sensors z device config (e ∷ es) r =
    let (e', r') = read_sensor z device config e r in
    let (es', r'') = read_sensors z device config es r' in (e' ∷ es', r'')

-- The deviation tolerance in percent, RANGE_HYSTERESIS lower in a deviation error.
unfoldable pub dev_tolerance_of : ChannelConfig → Error → ℤ
dev_tolerance_of config dev =
    i32 (config.dev_tolerance -ℤ i32 (config.dev_tolerance *ℤ pos 10) /ℤ pos 100)
dev_tolerance_of config _ = config.dev_tolerance

-- The deviation check fails.
unfoldable pub deviates : ChannelConfig → Error → ℤ → Bool
deviates config error val_dev =
    leb_ℤ (pos 0) config.dev_tolerance
    && ltb_ℤ (i32 (dev_tolerance_of config error *ℤ pos 10000)) val_dev

-- The output in the range of the axis.
unfoldable pub scaled : Zephyr → ChannelConfig → ℤ → ℤ
scaled z config out = i32 (
    z.div_round_closest
      (i32 (z.div_round_closest out (pos 1000) *ℤ i32 (config.out_max -ℤ config.out_min)))
      (pos 1000)
    +ℤ config.out_min)

-- The noise filter holds the output back.
unfoldable pub is_noise : ChannelConfig → ℤ → ℤ → Bool
is_noise config prev_out out =
    not (eqb_ℤ prev_out invalid_out) && ltb_ℤ (pos (abs (i32 (out -ℤ prev_out)))) config.noise

-- `channel_update` behind `input_report_abs`.
unfoldable pub output_reported : ℤ → Channel → ℤ × Input → ℤ × Channel × Input
output_reported out ch (ret, i) =
    if is_neg ret then (ret, ch, i) else (pos 1, record ch { prev_out = out }, i)

-- `channel_update` from the noise filter on.
unfoldable pub report_output :
    Zephyr → ℕ → ℕ → ChannelConfig → ℤ → Channel → Input → ℤ × Channel × Input
report_output z device axis config out ch i =
    if is_noise config ch.prev_out out
    then (pos 0, ch, i)
    else output_reported out ch (input_report i device ev_abs axis (scaled z config out))

-- `channel_update` behind the checks.
unfoldable pub channel_output :
    Zephyr → ℕ → ℕ → ChannelConfig → ℤ → Channel → Input → ℤ × Channel × Input
channel_output z device axis config val_accum ch i =
    report_output z device axis config
      (out_deadzone config (z.div_round_closest val_accum config.total_weight)) ch i

abbrev pub output_unless :
    (Channel → Input → ℤ × Channel × Input) → ℤ × Channel × Input → ℤ × Channel × Input
output_unless output (ret, ch, i) = if is_neg ret then (ret, ch, i) else output ch i

-- `channel_update` behind its loop.
unfoldable pub channel_finish : Zephyr → ℕ → ℕ → ChannelConfig → Round → ℤ × Channel × Input
channel_finish z device axis config r =
    if is_neg r.ret
    then (r.ret, r.channel, r.input)
    else if deviates config r.channel.error (i32 (r.val_max -ℤ r.val_min))
    then channel_error_update device config r.channel r.input dev einval
    else output_unless (channel_output z device axis config r.val_accum)
        (channel_error_update device config r.channel r.input no_error (pos 0))

abbrev pub start : Channel → Input → Round
start ch i = record {
  ret = pos 0;
  val_accum = pos 0;
  val_min = invalid_out;
  val_max = int32_min;
  channel = ch;
  input = i;
}

-- `channel_update`: the return value, and the sensors, the channel and the calls afterwards.
unfoldable pub channel_update :
    Zephyr
    → ℕ
    → ℕ
    → ChannelConfig
    → List Entry
    → Channel
    → Input
    → List Entry × (ℤ × Channel × Input)
channel_update z device axis config es ch i =
    let (es', r) = read_sensors z device config es (start ch i) in
    (es', channel_finish z device axis config r)
