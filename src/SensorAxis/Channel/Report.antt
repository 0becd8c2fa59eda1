-- ===== src/SensorAxis/Channel/Report.antt =====
-- drivers/input/sensor-axis/sensor_axis.c, `channel_error_update`: what the listener knows.
use nturt_zephyr_common.Base.{ℕ, ◌≡◌, ◌⊎◌, true, arith}
use nturt_zephyr_common.Base.Int.{ℤ, pos, is_neg}
use nturt_zephyr_common.Input.{Error, no_error, error_code, is_none, Input}
use nturt_zephyr_common.Input.View.{known_error}
use nturt_zephyr_common.SensorAxis.Channel.{
  Channel, ChannelConfig, error_set, error_cleared, channel_error_report, channel_error_update,
}

-- What the listener knows is the channel's error.
abbrev pub IsKnown : ℕ → Channel → Input → Type 0
IsKnown d ch i = known_error d i.calls ≡ error_code ch.error

channel_error_report-IsKnown :
    (d : ℕ) (config : ChannelConfig) (ch : Channel) (i : Input) (error : Error) (ret : ℤ)
    → IsKnown d ch i
    → let (r, ch', i') = channel_error_report d config ch i error ret in IsKnown d ch' i'
unfolding channel_error_report error_set error_cleared
channel_error_report-IsKnown d config ch i error ret h = ground arith

-- `channel_error_update` keeps the listener informed: the last error event of the channel that was
-- delivered tells its error, or that it has none.
pub channel_error_update-IsKnown :
    (d : ℕ) (config : ChannelConfig) (ch : Channel) (i : Input) (error : Error) (ret : ℤ)
    → IsKnown d ch i
    → let (r, ch', i') = channel_error_update d config ch i error ret in IsKnown d ch' i'
unfolding channel_error_update
channel_error_update-IsKnown d config ch i error ret h =
    channel_error_report-IsKnown d config _ i error ret h

-- An update by an error fails, so that the round it belongs to reports no value.
pub channel_error_update-neg :
    (d : ℕ) (config : ChannelConfig) (ch : Channel) (i : Input) (error : Error) (ret : ℤ)
    → is_neg ret ≡ true
    → is_neg (channel_error_update d config ch i error ret).0 ≡ true
unfolding channel_error_update channel_error_report error_set error_cleared
channel_error_update-neg d config ch i error ret h = ground arith

-- An update without an error succeeds only if the channel is left without one.
pub channel_error_update-clear :
    (d : ℕ) (config : ChannelConfig) (ch : Channel) (i : Input)
    → let (r, ch', i') = channel_error_update d config ch i no_error (pos 0) in
      ((is_neg r ≡ true) ⊎ ((r ≡ pos 0) × (is_none ch'.error ≡ true)))
unfolding channel_error_update channel_error_report error_set error_cleared
channel_error_update-clear d config ch i = ground arith
