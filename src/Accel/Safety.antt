-- ===== src/Accel/Safety.antt =====
-- drivers/input/accel/accel.c: what listeners know of the error and of the throttle.
use nturt_zephyr_common.Base.{
  ℕ, ◌≡◌, ◌⊎◌, inl, inr, refl, Bool, true, false, List, [], ◌∷◌, arith, if◌then◌else◌, if_both,
}
use nturt_zephyr_common.Base.Int.{ℤ, pos, is_neg}
use nturt_zephyr_common.Input.{
  Error, no_error, io, pedal_plaus, error_code, is_none, EventType, Input,
}
use nturt_zephyr_common.Input.View.{known_error, axis_value}
use nturt_zephyr_common.SensorAxis.Channel.{invalid_out}
use nturt_zephyr_common.Accel.{
  DeviceState, init, normal, err, Accel, AccelConfig, error_raised, throttle_released, error_update,
  value_reported, report_value, implausible, update_normal, update_in, update, accel_event,
  brake_event, accel_cb, brake_cb, PedalEvent, from_accel, from_brake, pedal_cb, run,
}

-- The last delivered error event tells the device's error; while there is one, the throttle that was
-- reported is 0; and the last output, if it is valid, is what was reported.
pub record IsSafe (config : AccelConfig) (a : Accel) (i : Input) : Type 0 where
  pub known : known_error config.device i.calls ≡ error_code a.error
  pub released : is_none a.error ≡ false → axis_value config.device i.calls ≡ pos 0
  pub current : (a.prev_out ≡ invalid_out) ⊎ (axis_value config.device i.calls ≡ a.prev_out)

error_update-IsSafe :
    (config : AccelConfig) (a : Accel) (i : Input) (error : Error)
    → IsSafe config a i
    → let (ret, a', i') = error_update config a i error in IsSafe config a' i'
unfolding error_update throttle_released error_raised
error_update-IsSafe config a i error h = ground arith

report_value-IsSafe :
    (config : AccelConfig) (r : ℤ × Accel × Input)
    → (is_neg r.0 ≡ true) ⊎ ((r.1.plaus_failed ≡ true) ⊎ (is_none r.1.error ≡ true))
    → IsSafe config r.1 r.2
    → let (a', i') = report_value config r in IsSafe config a' i'
unfolding report_value value_reported
report_value-IsSafe config r ok h = ground arith

-- An update keeps the flag, and one without an error fails or leaves the device without one.
pub error_update_lem :
    (config : AccelConfig) (a : Accel) (i : Input) (error : Error)
    → let (ret, a', i') = error_update config a i error in
      (a'.plaus_failed ≡ a.plaus_failed)
      × (a'.accel_value ≡ a.accel_value)
      × ((is_none error ≡ false) ⊎ ((is_neg ret ≡ true) ⊎ (is_none a'.error ≡ true)))
unfolding error_update throttle_released error_raised
error_update_lem config a i error = ground arith

fails-IsSafe :
    (config : AccelConfig) (a : Accel) (i : Input) (failed : Bool)
    → IsSafe config (record a { plaus_failed = failed }) i
    → let (a', i') = report_value config (
        error_update config
          (record a { plaus_failed = failed })
          i
          (if failed then pedal_plaus else no_error)) in
      IsSafe config a' i'
fails-IsSafe config a i true h =
    report_value-IsSafe config _
      (inr (inl (error_update_lem config (record a { plaus_failed = true }) i pedal_plaus).0))
      (error_update-IsSafe config (record a { plaus_failed = true }) i pedal_plaus h)
fails-IsSafe config a i false h =
    report_value-IsSafe config _
      (ground (arith, error_update_lem config (record a { plaus_failed = false }) i no_error))
      (error_update-IsSafe config (record a { plaus_failed = false }) i no_error h)

-- The fields that the safety of a state does not read may change.
pub same-IsSafe :
    (config : AccelConfig) (a b : Accel) (i : Input)
    → b.error ≡ a.error
    → b.prev_out ≡ a.prev_out
    → IsSafe config a i
    → IsSafe config b i
same-IsSafe config a b i p q h = record {
  known = rw p h.known;
  released = λ e. h.released (rw p at e);
  current = rw q h.current;
}

update_in-IsSafe :
    (s t : DeviceState) (config : AccelConfig) (a : Accel) (i : Input)
    → IsSafe config a i
    → let (a', i') = update_in s t config a i in IsSafe config a' i'
unfolding update_in update_normal
update_in-IsSafe init t config a i h = h
update_in-IsSafe normal init config a i h = h
update_in-IsSafe normal normal config a i h =
    fails-IsSafe config a i (implausible config a) (same-IsSafe config a _ i refl refl h)
update_in-IsSafe normal err config a i h = error_update-IsSafe config a i io h
update_in-IsSafe err init config a i h = h
update_in-IsSafe err normal config a i h = error_update-IsSafe config a i io h
update_in-IsSafe err err config a i h = error_update-IsSafe config a i io h

accel_event-same :
    (config : AccelConfig) (a : Accel) (t : EventType) (code : ℕ) (value : ℤ)
    → ((accel_event config a t code value).error ≡ a.error)
      × ((accel_event config a t code value).prev_out ≡ a.prev_out)
unfolding accel_event
accel_event-same config a t code value = ground arith

brake_event-same :
    (config : AccelConfig) (a : Accel) (t : EventType) (code : ℕ) (value : ℤ)
    → ((brake_event config a t code value).error ≡ a.error)
      × ((brake_event config a t code value).prev_out ≡ a.prev_out)
unfolding brake_event
brake_event-same config a t code value = ground arith

pedal_cb-IsSafe :
    (config : AccelConfig) (e : PedalEvent) (a : Accel) (i : Input)
    → IsSafe config a i
    → let (a', i') = pedal_cb config e (a, i) in IsSafe config a' i'
unfolding pedal_cb accel_cb brake_cb update
pedal_cb-IsSafe config (from_accel evt) a i h =
    let a' = accel_event config a evt.type evt.code evt.value in
    let same = accel_event-same config a evt.type evt.code evt.value in
    if_both (λ (s : Accel × Input). IsSafe config s.0 s.1) config.ready _ _
      (update_in-IsSafe a'.accel_state a'.brake_state config a' i
        (same-IsSafe config a a' i same.0 same.1 h))
      h
pedal_cb-IsSafe config (from_brake evt) a i h =
    let a' = brake_event config a evt.type evt.code evt.value in
    let same = brake_event-same config a evt.type evt.code evt.value in
    if_both (λ (s : Accel × Input). IsSafe config s.0 s.1) config.ready _ _
      (update_in-IsSafe a'.accel_state a'.brake_state config a' i
        (same-IsSafe config a a' i same.0 same.1 h))
      h

-- Any sequence of pedal events keeps this: the last delivered error event tells the device's error;
-- while the device has an error (a broken pedal, or an implausible one) the throttle that it last
-- reported is 0; and its last output, if valid, is what it last reported.
pub run-IsSafe :
    (config : AccelConfig) (es : List PedalEvent) (a : Accel) (i : Input)
    → IsSafe config a i
    → let (a', i') = run config es (a, i) in IsSafe config a' i'
unfolding run
run-IsSafe config [] a i h = h
run-IsSafe config (e ∷ es) a i h =
    let (a', i') = pedal_cb config e (a, i) in
    run-IsSafe config es a' i' (pedal_cb-IsSafe config e a i h)
