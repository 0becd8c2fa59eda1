-- ===== src/SensorAxis/Device.antt =====
-- drivers/input/sensor-axis/sensor_axis.c and sensor_axis.h: the device of some channels, whose thread
-- updates each of them once in a period.
pub mod Calls
pub mod Bounded
use nturt_zephyr_common.Base.{
  ℕ, Bool, true, false, Option, none, some, List, [], ◌∷◌, if◌then◌else◌, not,
}
use nturt_zephyr_common.Base.Int.{ℤ, pos}
use nturt_zephyr_common.Input.{no_error, Input}
use nturt_zephyr_common.SensorAxis.Sensor.{Zephyr, Answer}
use nturt_zephyr_common.SensorAxis.Channel.{
  Channel, ChannelConfig, Entry, channel_update, invalid_out, enodev,
}

-- A channel of `struct sensor_axis_config`: its device number, its axis and its configuration.
pub record Line : Type 0 where
  pub device : ℕ
  pub axis : ℕ
  pub config : ChannelConfig

-- What the channel and its sensors hold.
pub record State : Type 0 where
  pub sensors : List Entry
  pub channel : Channel

-- The data of a channel as SENSOR_AXIS_CHANNEL_DEFINE defines it
abbrev pub fresh : Channel
fresh = record { error = no_error; prev_out = invalid_out; accum_error_time = pos 0 }

-- What a sensor's device, its mutex and the underlying sensor answer in a round, by device number: a
-- parameter.
pub record Answers : Type 0 where
  pub ready : ℕ → Bool
  pub lock : ℕ → ℤ
  pub answer : ℕ → Answer

unfoldable pub in_round : Answers → List Entry → List Entry
in_round a [] = []
in_round a (e ∷ es) =
    record e { ready = a.ready e.device; lock = a.lock e.device; answer = a.answer e.device }
    ∷ in_round a es

-- A channel in a round; what `channel_update` returns is not looked at.
unfoldable pub update : Zephyr → Answers → Line → State → Input → State × Input
unfolding in_round channel_update
update z a l s i =
    let (es, (_, ch, i')) =
      channel_update z l.device l.axis l.config (in_round a s.sensors) s.channel i in
    (record { sensors = es; channel = ch }, i')

-- The `for` loop of `sensor_axis_thread`
unfoldable pub poll : Zephyr → Answers → List Line → List State → Input → List State × Input
unfolding update
poll z a [] ss i = ([], i)
poll z a (l ∷ ls) [] i = ([], i)
poll z a (l ∷ ls) (s ∷ ss) i =
    let (s', i') = update z a l s i in let (ss', i'') = poll z a ls ss i' in (s' ∷ ss', i'')

-- `sensor_axis_thread`, for as many rounds as there are answers.
unfoldable pub thread : Zephyr → List Line → List Answers → List State → Input → List State × Input
unfolding poll
thread z ls [] ss i = (ss, i)
thread z ls (a ∷ later) ss i = let (ss', i') = poll z a ls ss i in thread z ls later ss' i'

-- `sensor_axis_sensor_init`, by whether the underlying sensor is ready.
unfoldable pub sensor_init : Bool → ℤ
sensor_init ready = if not ready then enodev else pos 0
