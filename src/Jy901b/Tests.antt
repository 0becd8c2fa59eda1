-- ===== src/Jy901b/Tests.antt =====
-- Runs of the inertial sensor, and an instance of the theorem.
use nturt_zephyr_common.Base.{ℕ, ◌≡◌, refl, true, some, [], ◌∷◌, arith, ◌==◌, if◌then◌else◌}
use nturt_zephyr_common.Base.Int.{ℤ, pos, negsuc}
use nturt_zephyr_common.Jy901b.{
  Bus, Sample, accel_xyz, channel_get, sample_fetch, init, init_id, write_all, einval, eio,
  convert_temp, value_of,
}
use nturt_zephyr_common.Jy901b.Scaled.{IsI16}
use nturt_zephyr_common.Jy901b.Fetched.{bytes, expected, Gives, channel_get-sample_fetch}

-- The chip lies flat: 1 g on its z axis; all other registers hold -2.
abbrev regs : ℕ → ℤ
regs r = if r == 54 then pos 2048 else negsuc 1

regs-IsI16 : (r : ℕ) → IsI16 (regs r)
regs-IsI16 r = ground arith

abbrev bus : Bus
bus = record {
  is_ready = true;
  addr = 80;
  read = λ r. some (bytes regs r);
  write = λ reg cmd. if reg == 36 then negsuc 0 else pos 0;
}

abbrev nothing : Sample
nothing = record {
  accel = record { x = pos 0; y = pos 0; z = pos 0 };
  gyro = record { x = pos 0; y = pos 0; z = pos 0 };
  magn = record { x = pos 0; y = pos 0; z = pos 0 };
  orien = record { x = pos 0; y = pos 0; z = pos 0 };
  quat = record { w = pos 0; x = pos 0; y = pos 0; z = pos 0 };
  temp = pos 0;
  press = pos 0;
}

channel_get-sample_fetch_example :
    let (ret, d') = sample_fetch bus nothing in
    (ret ≡ pos 0) × Gives (expected regs accel_xyz) (channel_get d' accel_xyz)
channel_get-sample_fetch_example =
    channel_get-sample_fetch regs regs-IsI16 bus nothing accel_xyz (λ r. refl) (omega arith)

-- The address register holds 254, not 80; with it the write of the mode fails and nothing is saved.
other_chip_run : init bus true ≡ (einval, [])
unfolding init init_id
other_chip_run = refl

unsaved_run : init (record bus { addr = 254 }) true ≡ (eio, (105, 46472) ∷ (36, 0) ∷ [])
unfolding init init_id write_all
unsaved_run = refl

-- -2.51 degrees
cold_run : convert_temp (negsuc 250) ≡ record { val1 = negsuc 1; val2 = negsuc 509999 }
unfolding convert_temp value_of
cold_run = refl
