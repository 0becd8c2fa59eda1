-- ===== src/Accel/Cutoff.antt =====
-- drivers/input/accel/accel.c: the plausibility check cuts the throttle off, and lets it go only when
-- the pedal comes back.
use nturt_zephyr_common.Base.{
  ℕ, ◌*◌, ◌/◌, ◌^◌, suc, ◌≤◌, ◌<◌, ◌≡◌, refl, Bool, true, false, List, [], ◌∷◌, All, arith, ◌==◌,
  if◌then◌else◌, if_both, length,
}
use nturt_zephyr_common.Base.Int.{
  ℤ, pos, i32_pos, pos_mul, pos_div, is_neg, leb_ℤ, ltb_ℤ, i32, ◌-ℤ◌, ◌*ℤ◌, ◌/ℤ◌,
}
use nturt_zephyr_common.Input.{
  Error, no_error, io, pedal_plaus, is_none, EventType, ev_abs, ev_error, ev_other, Input,
}
use nturt_zephyr_common.Input.View.{axis_value}
use nturt_zephyr_common.Accel.Safety.{IsSafe, same-IsSafe}
use nturt_zephyr_common.Accel.{
  DeviceState, init, normal, err, Accel, AccelConfig, error_raised, throttle_released, error_update,
  report_value, implausible, deactivate_at, activate_at, update_normal, update_in, update,
  accel_event, brake_event, accel_cb, brake_cb, PedalEvent, from_accel, from_brake, pedal_cb, run,
}

-- The throttle is cut off: the check has failed, the device has an error and has reported 0, and the
-- pedal is pressed past the point that lets the throttle go.
pub record IsCut (config : AccelConfig) (a : Accel) (i : Input) : Type 0 where
  pub failed : a.plaus_failed ≡ true
  pub in_error : is_none a.error ≡ false
  pub released : axis_value config.device i.calls ≡ pos 0
  pub pressed : leb_ℤ a.accel_value (deactivate_at config) ≡ false

-- An event that does not bring the pedal back.
abbrev pub KeepsPressed : AccelConfig → PedalEvent → Type 0
KeepsPressed config (from_brake evt) = Unit {0}
KeepsPressed config (from_accel evt) = leb_ℤ evt.value (deactivate_at config) ≡ false

error_update-in_error :
    (config : AccelConfig) (a : Accel) (i : Input) (error : Error)
    → is_none a.error ≡ false
    → is_none error ≡ false
    → error_update config a i error ≡ (pos 0, a, i)
unfolding error_update
error_update-in_error config a i error h k = ground arith

implausible-IsCut :
    (config : AccelConfig) (a : Accel) (i : Input) → IsCut config a i → implausible config a ≡ true
unfolding implausible
implausible-IsCut config a i h = rw (h.failed, h.pressed) refl

report_value-failed :
    (config : AccelConfig) (a : Accel) (i : Input)
    → a.plaus_failed ≡ true
    → report_value config (pos 0, a, i) ≡ (a, i)
unfolding report_value
report_value-failed config a i h = ground arith

-- What the check does while it fails.
fails-IsCut :
    (config : AccelConfig) (a : Accel) (i : Input) (failed : Bool)
    → failed ≡ true
    → IsCut config a i
    → let (a', i') = report_value config (
        error_update config
          (record a { plaus_failed = failed })
          i
          (if failed then pedal_plaus else no_error)) in
      IsCut config a' i'
fails-IsCut config a i true _ h =
    let a' = record a { plaus_failed = true } in
    rw
      (
        error_update-in_error config a' i pedal_plaus h.in_error refl,
        report_value-failed config a' i refl,
      )
      record { failed = refl; in_error = h.in_error; released = h.released; pressed = h.pressed }
fails-IsCut config a i false p h = absurd (cc)

update_in-IsCut :
    (s t : DeviceState) (config : AccelConfig) (a : Accel) (i : Input)
    → IsCut config a i
    → let (a', i') = update_in s t config a i in IsCut config a' i'
unfolding update_in update_normal
update_in-IsCut init t config a i h = h
update_in-IsCut normal init config a i h = h
update_in-IsCut normal normal config a i h =
    fails-IsCut config a i (implausible config a) (implausible-IsCut config a i h) h
update_in-IsCut normal err config a i h = rw (error_update-in_error config a i io h.in_error refl) h
update_in-IsCut err init config a i h = h
update_in-IsCut err normal config a i h = rw (error_update-in_error config a i io h.in_error refl) h
update_in-IsCut err err config a i h = rw (error_update-in_error config a i io h.in_error refl) h

accel_event-IsCut :
    (config : AccelConfig) (a : Accel) (i : Input) (t : EventType) (code : ℕ) (value : ℤ)
    → leb_ℤ value (deactivate_at config) ≡ false
    → IsCut config a i
    → IsCut config (accel_event config a t code value) i
unfolding accel_event
accel_event-IsCut config a i ev_abs code value k h =
    if_both (λ s. IsCut config s i) (code == config.abs_throttle) _ _
      record { failed = h.failed; in_error = h.in_error; released = h.released; pressed = k } h
accel_event-IsCut config a i ev_error code value k h =
    if_both (λ s. IsCut config s i) (code == 0) _ _ h
      record {
        failed = h.failed;
        in_error = h.in_error;
        released = h.released;
        pressed = h.pressed;
      }
accel_event-IsCut config a i ev_other code value k h = h

brake_event-IsCut :
    (config : AccelConfig) (a : Accel) (i : Input) (t : EventType) (code : ℕ) (value : ℤ)
    → IsCut config a i
    → IsCut config (brake_event config a t code value) i
unfolding brake_event
brake_event-IsCut config a i ev_abs code value h =
    if_both (λ s. IsCut config s i) (code == config.abs_brake) _ _
      record {
        failed = h.failed;
        in_error = h.in_error;
        released = h.released;
        pressed = h.pressed;
      }
      h
brake_event-IsCut config a i ev_error code value h =
    if_both (λ s. IsCut config s i) (code == 0) _ _ h
      record {
        failed = h.failed;
        in_error = h.in_error;
        released = h.released;
        pressed = h.pressed;
      }
brake_event-IsCut config a i ev_other code value h = h

pedal_cb-IsCut :
    (config : AccelConfig) (e : PedalEvent) (a : Accel) (i : Input)
    → KeepsPressed config e
    → IsCut config a i
    → let (a', i') = pedal_cb config e (a, i) in IsCut config a' i'
unfolding pedal_cb accel_cb brake_cb update
pedal_cb-IsCut config (from_accel evt) a i k h =
    let a' = accel_event config a evt.type evt.code evt.value in
    if_both (λ (s : Accel × Input). IsCut config s.0 s.1) config.ready _ _
      (update_in-IsCut a'.accel_state a'.brake_state config a' i
        (accel_event-IsCut config a i evt.type evt.code evt.value k h))
      h
pedal_cb-IsCut config (from_brake evt) a i k h =
    let a' = brake_event config a evt.type evt.code evt.value in
    if_both (λ (s : Accel × Input). IsCut config s.0 s.1) config.ready _ _
      (update_in-IsCut a'.accel_state a'.brake_state config a' i
        (brake_event-IsCut config a i evt.type evt.code evt.value h))
      h

pub run-IsCut :
    (config : AccelConfig) (es : List PedalEvent) (a : Accel) (i : Input)
    → All (KeepsPressed config) es
    → IsCut config a i
    → let (a', i') = run config es (a, i) in IsCut config a' i'
unfolding run
run-IsCut config [] a i k h = h
run-IsCut config (e ∷ es) a i (k, ks) h =
    let (a', i') = pedal_cb config e (a, i) in
    run-IsCut config es a' i' ks (pedal_cb-IsCut config e a i k h)

error_update-IsCut :
    (config : AccelConfig) (a : Accel) (i : Input)
    → ((n : ℕ) → is_neg (i.answers n) ≡ false)
    → a.plaus_failed ≡ true
    → leb_ℤ a.accel_value (deactivate_at config) ≡ false
    → IsSafe config a i
    → let (ret, a', i') = error_update config a i pedal_plaus in (ret ≡ pos 0) × IsCut config a' i'
unfolding error_update throttle_released error_raised
error_update-IsCut config a i ok f p h =
    ground (arith, ok (length i.calls), ok (suc (length i.calls)), h.known, h.released, h.current)

-- The thresholds, where a quarter of the range fits: a pressed pedal is past both.
half-IsPressed :
    (config : AccelConfig) (r : ℕ) (v : ℤ)
    → config.max -ℤ config.min ≡ pos r
    → 25 * r < 2 ^ 31
    → ltb_ℤ (activate_at config) v ≡ true
    → leb_ℤ v (deactivate_at config) ≡ false
half-IsPressed config r v p small h =
    let h' : ltb_ℤ (pos (r * 25 / 100)) v ≡ true = rw (threshold 25 (omega arith)) at h in
    rw (threshold 5 (omega arith)) ground (arith, h')
  where
    threshold :
        (k : ℕ)
        → k ≤ 25
        → i32 (i32 (config.max -ℤ config.min) *ℤ pos k) /ℤ pos 100 ≡ pos (r * k / 100)
    threshold k b =
        rw
          (
            p,
            i32_pos r (omega arith),
            pos_mul r k,
            i32_pos (r * k) (grind arith),
            pos_div (r * k) 100,
          )
          refl

pressed-implausible :
    (config : AccelConfig) (a : Accel)
    → a.plaus_failed ≡ false
    → a.brake_actuated ≡ true
    → ltb_ℤ (activate_at config) a.accel_value ≡ true
    → implausible config a ≡ true
unfolding implausible
pressed-implausible config a f b p = rw (f, p, b) refl

report_value-IsCut :
    (config : AccelConfig) (r : ℤ × Accel × Input)
    → r.0 ≡ pos 0
    → IsCut config r.1 r.2
    → let (a', i') = report_value config r in IsCut config a' i'
report_value-IsCut config (ret, a, i) p h = rw (p, report_value-failed config a i h.failed) h

trips-IsCut :
    (config : AccelConfig) (a : Accel) (i : Input) (failed : Bool)
    → failed ≡ true
    → ((n : ℕ) → is_neg (i.answers n) ≡ false)
    → leb_ℤ a.accel_value (deactivate_at config) ≡ false
    → IsSafe config a i
    → let (a', i') = report_value config (
        error_update config
          (record a { plaus_failed = failed })
          i
          (if failed then pedal_plaus else no_error)) in
      IsCut config a' i'
trips-IsCut config a i false p ok pressed h = absurd (cc)
trips-IsCut config a i true p ok pressed h =
    let a₁ = record a { plaus_failed = true } in
    let (fine, cut) =
      error_update-IsCut config a₁ i ok refl pressed (same-IsSafe config a a₁ i refl refl h) in
    report_value-IsCut config _ fine cut

update_in-normal :
    (s t : DeviceState) (config : AccelConfig) (a : Accel) (i : Input)
    → s ≡ normal
    → t ≡ normal
    → update_in s t config a i ≡ update_normal config a i
unfolding update_in
update_in-normal s t config a i p q = rw (p, q) refl

-- Where both pedals work and the check passes so far, an update with the brake actuated and the pedal
-- past a quarter of the range cuts the throttle off, if its events are delivered and the range is so
-- small that 25 times it fits in 32 bits.
pub update-IsCut :
    (config : AccelConfig) (a : Accel) (i : Input) (r : ℕ)
    → config.max -ℤ config.min ≡ pos r
    → 25 * r < 2 ^ 31
    → ((n : ℕ) → is_neg (i.answers n) ≡ false)
    → a.accel_state ≡ normal
    → a.brake_state ≡ normal
    → a.plaus_failed ≡ false
    → a.brake_actuated ≡ true
    → ltb_ℤ (activate_at config) a.accel_value ≡ true
    → IsSafe config a i
    → let (a', i') = update config a i in IsCut config a' i'
unfolding update update_normal
update-IsCut config a i r range small ok s t f b p h =
    rw (update_in-normal a.accel_state a.brake_state config a i s t) (
      trips-IsCut config a i (implausible config a) (pressed-implausible config a f b p) ok
        (half-IsPressed config r a.accel_value range small p) h)
