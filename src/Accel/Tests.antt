-- ===== src/Accel/Tests.antt =====
-- drivers/input/accel/accel.c: runs and instances of the theorems.
use nturt_zephyr_common.Base.{◌≡◌, refl, inr, true, false, List, [], ◌∷◌, arith}
use nturt_zephyr_common.Base.Int.{pos, i32, ◌-ℤ◌, ◌*ℤ◌, ◌/ℤ◌, leb_ℤ, ltb_ℤ}
use nturt_zephyr_common.Input.{no_error, pedal_plaus, ev_abs, ev_error, Input, report}
use nturt_zephyr_common.Accel.{
  normal, Accel, AccelConfig, error_raised, throttle_released, error_update, report_value,
  implausible, update_normal, update_in, update, activate_at, deactivate_at, from_accel, from_brake,
  run, PedalEvent,
}
use nturt_zephyr_common.Accel.Safety.{IsSafe, run-IsSafe}
use nturt_zephyr_common.Accel.Cutoff.{IsCut, run-IsCut, update-IsCut}

abbrev config : AccelConfig
config = record {
  min = pos 0;
  max = pos 1000;
  device = 4;
  ready = true;
  abs_throttle = 6;
  abs_brake = 7;
}

-- The pedal is pressed by half of its range, and the brake is actuated.
abbrev pressed : Accel
pressed = record {
  accel_state = normal;
  brake_state = normal;
  accel_value = pos 500;
  brake_actuated = true;
  plaus_failed = false;
  error = no_error;
  prev_out = pos 400;
}

abbrev quiet : Input
quiet = record { answers = λ n. pos 0; calls = report 4 ev_abs 6 (pos 400) (pos 0) ∷ [] }

pressed-IsSafe : IsSafe config pressed quiet
pressed-IsSafe = record { known = refl; released = λ e. cc; current = inr refl }

abbrev tripped : Accel × Input
tripped = update config pressed quiet

tripped_lem :
    (tripped.0.error ≡ pedal_plaus)
    × (tripped.1.calls
        ≡ report 4 ev_error 32 (pos 1) (pos 0)
          ∷ report 4 ev_abs 6 (pos 0) (pos 0)
          ∷ report 4 ev_abs 6 (pos 400) (pos 0)
          ∷ [])
unfolding update update_in update_normal implausible error_update throttle_released error_raised
    report_value i32 ◌-ℤ◌ ◌*ℤ◌ ◌/ℤ◌
tripped_lem = (refl, refl)

difference : config.max -ℤ config.min ≡ pos 1000
unfolding ◌-ℤ◌
difference = refl

past : ltb_ℤ (activate_at config) pressed.accel_value ≡ true
unfolding i32 ◌-ℤ◌ ◌*ℤ◌ ◌/ℤ◌
past = refl

kept : leb_ℤ (pos 100) (deactivate_at config) ≡ false
unfolding i32 ◌-ℤ◌ ◌*ℤ◌ ◌/ℤ◌
kept = refl

tripped-IsCut : IsCut config tripped.0 tripped.1
tripped-IsCut =
    update-IsCut config pressed quiet 1000 difference (omega arith) (λ n. refl) refl refl refl refl
      past pressed-IsSafe

update-IsCut_example : IsCut config tripped.0 tripped.1
update-IsCut_example =
    update-IsCut config pressed quiet 1000 difference (omega arith) (λ n. refl) refl refl refl refl
      past pressed-IsSafe

-- The brake is let go, breaks, and the pedal moves to a tenth of its range.
abbrev events : List PedalEvent
events =
    from_brake (record { type = ev_abs; code = 7; value = pos 0 })
    ∷ from_brake (record { type = ev_error; code = 1; value = pos 1 })
    ∷ from_accel (record { type = ev_abs; code = 6; value = pos 100 })
    ∷ []

run-IsSafe_example : let (a, i) = run config events (pressed, quiet) in IsSafe config a i
run-IsSafe_example = run-IsSafe config events pressed quiet pressed-IsSafe

run-IsCut_example : let (a, i) = run config events (tripped.0, tripped.1) in IsCut config a i
run-IsCut_example = run-IsCut config events tripped.0 tripped.1 (tt, (tt, (kept, tt))) tripped-IsCut
