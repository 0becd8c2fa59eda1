-- ===== src/Input.antt =====
-- Zephyr's input subsystem as the drivers of drivers/input use it, with the error codes of
-- include/zephyr/dt-bindings/input/input-error-codes.h. What `input_report` returns is a parameter.
pub mod View
use nturt_zephyr_common.Base.{ℕ, Bool, true, false, List, [], ◌∷◌, length}
use nturt_zephyr_common.Base.Int.{ℤ}

-- INPUT_ERROR_*
pub data Error : Type 0 where
  no_error io busy nodev under over dev pedal_plaus : Error

abbrev pub error_code : Error → ℕ
error_code no_error = 0
error_code io = 1
error_code busy = 2
error_code nodev = 3
error_code under = 16
error_code over = 17
error_code dev = 18
error_code pedal_plaus = 32

-- `error == INPUT_ERROR_NONE`
abbrev pub is_none : Error → Bool
is_none no_error = true
is_none _ = false

-- `struct sensor_value`
pub record SensorValue : Type 0 where
  pub val1 : ℤ
  pub val2 : ℤ

-- INPUT_EV_ABS, INPUT_EV_ERROR, and every other type of event.
pub data EventType : Type 0 where
  ev_abs ev_error ev_other : EventType

-- A call of `input_report` by a device: type, code, value and what it returned; or a call of the raw
-- value callback of a sensor.
pub data Call : Type 0 where
  report : ℕ → EventType → ℕ → ℤ → ℤ → Call
  raw_cb : ℕ → SensorValue → Call

-- The calls made, latest first, and what the next calls of `input_report` return, by their number.
pub record Input : Type 0 where
  pub answers : ℕ → ℤ
  pub calls : List Call

abbrev pub input_report : Input → ℕ → EventType → ℕ → ℤ → ℤ × Input
input_report i device type code value =
    let ret = i.answers (length i.calls) in
    (ret, record i { calls = report device type code value ret ∷ i.calls })
