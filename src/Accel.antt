-- ===== src/Accel.antt =====
-- drivers/input/accel/accel.c: the accelerator pedal with its plausibility check against the brake.
-- The log is left out.
pub mod Safety
pub mod Cutoff
mod Tests
use nturt_zephyr_common.Base.{ℕ, Bool, true, false, not, ◌&&◌, ◌==◌, List, [], ◌∷◌, if◌then◌else◌}
use nturt_zephyr_common.Base.Int.{ℤ, pos, ◌-ℤ◌, ◌*ℤ◌, ◌/ℤ◌, ltb_ℤ, leb_ℤ, eqb_ℤ, i32, is_neg}
use nturt_zephyr_common.Input.{
  Error, no_error, io, pedal_plaus, error_code, is_none, EventType, ev_abs, ev_error, ev_other,
  Input, input_report,
}
use nturt_zephyr_common.SensorAxis.Channel.{invalid_out}

-- `enum accel_device_state`
pub data DeviceState : Type 0 where
  init normal err : DeviceState

-- `struct accel_data`
pub record Accel : Type 0 where
  pub accel_state : DeviceState
  pub brake_state : DeviceState
  pub accel_value : ℤ
  pub brake_actuated : Bool
  pub plaus_failed : Bool
  pub error : Error
  pub prev_out : ℤ

-- The devices' limits; the device's own number, and whether it is ready; and Zephyr's codes of the two axes.
pub record AccelConfig : Type 0 where
  pub min : ℤ
  pub max : ℤ
  pub device : ℕ
  pub ready : Bool
  pub abs_throttle : ℕ
  pub abs_brake : ℕ

-- `struct input_event`
pub record InputEvent : Type 0 where
  pub type : EventType
  pub code : ℕ
  pub value : ℤ

-- `error_update` behind the report of a new error, and behind that of a cleared one.
unfoldable pub error_raised : Accel → Error → ℤ × Input → ℤ × Accel × Input
error_raised a error (ret, i) =
    if is_neg ret then (ret, a, i) else (pos 0, record a { error = error }, i)

-- `error_update` behind the report that lets the throttle go.
unfoldable pub throttle_released : AccelConfig → Accel → Error → ℤ × Input → ℤ × Accel × Input
throttle_released config a error (ret, i) =
    if is_neg ret
    then (ret, a, i)
    else error_raised (record a { prev_out = invalid_out }) error
        (input_report i config.device ev_error (error_code error) (pos 1))

unfoldable pub error_update : AccelConfig → Accel → Input → Error → ℤ × Accel × Input
error_update config a i error =
    if is_none a.error && not (is_none error)
    then throttle_released config a error
        (input_report i config.device ev_abs config.abs_throttle (pos 0))
    else if not (is_none a.error) && is_none error
    then error_raised a error (input_report i config.device ev_error (error_code a.error) (pos 0))
    else (pos 0, a, i)

-- `range * PLAUS_DEACTIVATE_TH` and `range * PLAUS_ACTIVATE_TH`
abbrev pub deactivate_at : AccelConfig → ℤ
deactivate_at config = i32 (i32 (config.max -ℤ config.min) *ℤ pos 5) /ℤ pos 100

abbrev pub activate_at : AccelConfig → ℤ
activate_at config = i32 (i32 (config.max -ℤ config.min) *ℤ pos 25) /ℤ pos 100

-- The plausibility check: the new `plaus_failed`.
unfoldable pub implausible : AccelConfig → Accel → Bool
implausible config a =
    if a.plaus_failed
    then not (leb_ℤ a.accel_value (deactivate_at config))
    else ltb_ℤ (activate_at config) a.accel_value && a.brake_actuated

unfoldable pub value_reported : Accel → ℤ × Input → Accel × Input
value_reported a (ret, i) =
    if is_neg ret then (a, i) else (record a { prev_out = a.accel_value }, i)

-- `update` behind `error_update`.
unfoldable pub report_value : AccelConfig → ℤ × Accel × Input → Accel × Input
report_value config (ret, a, i) =
    if is_neg ret
    then (a, i)
    else if not a.plaus_failed && not (eqb_ℤ a.accel_value a.prev_out)
    then value_reported a (input_report i config.device ev_abs config.abs_throttle a.accel_value)
    else (a, i)

-- `update` where both pedals work.
unfoldable pub update_normal : AccelConfig → Accel → Input → Accel × Input
update_normal config a i =
    let failed = implausible config a in
    report_value config (
      error_update config (record a { plaus_failed = failed }) i
        (if failed then pedal_plaus else no_error))

-- `update` by the states of the accelerator and the brake.
unfoldable pub update_in : DeviceState → DeviceState → AccelConfig → Accel → Input → Accel × Input
update_in init _ config a i = (a, i)
update_in normal init config a i = (a, i)
update_in normal normal config a i = update_normal config a i
update_in normal err config a i = let (ret, a', i') = error_update config a i io in (a', i')
update_in err init config a i = (a, i)
update_in err _ config a i = let (ret, a', i') = error_update config a i io in (a', i')

unfoldable pub update : AccelConfig → Accel → Input → Accel × Input
update config a i = update_in a.accel_state a.brake_state config a i

-- What `accel_cb` and `brake_cb` make of an event.
unfoldable pub accel_event : AccelConfig → Accel → EventType → ℕ → ℤ → Accel
accel_event config a ev_abs code value =
    if code == config.abs_throttle
    then record a { accel_state = normal; accel_value = value }
    else a
accel_event config a ev_error code value = if code == 0 then a else record a { accel_state = err }
accel_event config a ev_other code value = a

unfoldable pub brake_event : AccelConfig → Accel → EventType → ℕ → ℤ → Accel
brake_event config a ev_abs code value =
    if code == config.abs_brake
    then record a { brake_state = normal; brake_actuated = ltb_ℤ (pos 0) value }
    else a
brake_event config a ev_error code value = if code == 0 then a else record a { brake_state = err }
brake_event config a ev_other code value = a

unfoldable pub accel_cb : AccelConfig → InputEvent → Accel × Input → Accel × Input
accel_cb config evt (a, i) =
    if config.ready
    then update config (accel_event config a evt.type evt.code evt.value) i
    else (a, i)

unfoldable pub brake_cb : AccelConfig → InputEvent → Accel × Input → Accel × Input
brake_cb config evt (a, i) =
    if config.ready
    then update config (brake_event config a evt.type evt.code evt.value) i
    else (a, i)

-- The events of the two pedals in the order in which the callbacks run.
pub data PedalEvent : Type 0 where
  from_accel : InputEvent → PedalEvent
  from_brake : InputEvent → PedalEvent

unfoldable pub pedal_cb : AccelConfig → PedalEvent → Accel × Input → Accel × Input
pedal_cb config (from_accel evt) s = accel_cb config evt s
pedal_cb config (from_brake evt) s = brake_cb config evt s

unfoldable pub run : AccelConfig → List PedalEvent → Accel × Input → Accel × Input
run config [] s = s
run config (e ∷ es) s = run config es (pedal_cb config e s)
