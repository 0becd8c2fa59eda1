-- ===== src/SegDisplay/Tests.antt =====
-- Runs of the segment display on a display of two digits, and instances of the theorems.
use nturt_zephyr_common.Base.{
  ℕ, ◌*◌, ◌/◌, ◌≤◌, ◌<◌, ◌≡◌, refl, true, none, some, [], ◌∷◌, ◌++◌, arith,
}
use nturt_zephyr_common.Base.Int.{pos}
use nturt_zephyr_common.SegDisplay.Glyphs.{glyph, char_3, char_small_b, char_of, char_of-glyph}
use nturt_zephyr_common.SegDisplay.{
  Spec, Config, Hardware, Display, code, einval, overrun, shown, invalid, round, char_round,
  dot_round, after, render_from, render, write, brightness_get, brightness_set, write_val,
  set_gpios, set_from, drive, drive_row, assign, clear,
}
use nturt_zephyr_common.SegDisplay.Setup.{
  init, init_rows, init_row, init_gpio, place, find_slot, enter, cleared_after,
}
use nturt_zephyr_common.SegDisplay.Slots.{unused}
use nturt_zephyr_common.SegDisplay.Text.{fill, text_cells, dotted}
use nturt_zephyr_common.SegDisplay.Shown.{IsWired, Shows, writes, write-Shows}
use nturt_zephyr_common.SegDisplay.Brightness.{brightness_get-brightness_set}

abbrev pin : ℕ → ℕ → Spec
pin port k = record { port = port; pin = k }

-- The last two segments of the second digit are on a port of their own.
abbrev config : Config
config = record {
  gpios =
      (pin 4 0 ∷ pin 4 1 ∷ pin 4 2 ∷ pin 4 3 ∷ pin 4 4 ∷ pin 4 5 ∷ pin 4 6 ∷ pin 4 7 ∷ [])
      ∷ (pin 4 8 ∷ pin 4 9 ∷ pin 4 10 ∷ pin 4 11 ∷ pin 4 12 ∷ pin 4 13 ∷ pin 7 0 ∷ pin 7 1 ∷ [])
      ∷ [];
  decimal_point = true;
  brightness_pwm = some 20_000_000;
}

abbrev hardware : Hardware
hardware = record { is_ready = λ s. true; configured = λ s. pos 0; answers = λ n. pos 0 }

abbrev display : Display
display = record { gpio_map = unused 16; gpios = []; brightness = 0; calls = []; pulses = [] }

config-IsWired : IsWired hardware config
config-IsWired = record {
  usable = (
    (
      (
        (refl, refl),
        (
          (refl, refl),
          (
            (refl, refl),
            ((refl, refl), ((refl, refl), ((refl, refl), ((refl, refl), ((refl, refl), tt))))),
          ),
        ),
      ),
      refl,
    ),
    (
      (
        (
          (refl, refl),
          (
            (refl, refl),
            (
              (refl, refl),
              ((refl, refl), ((refl, refl), ((refl, refl), ((refl, refl), ((refl, refl), tt))))),
            ),
          ),
        ),
        refl,
      ),
      tt,
    ),
  );
  different = refl;
  has_digit = omega arith;
  fewer_ports = omega arith;
}

-- "3.b" fills both digits, "3b1" is cut off, and '?' is refused.
point_run : render config (51 ∷ 46 ∷ 98 ∷ 0 ∷ 63 ∷ []) ≡ shown (dotted char_3 ∷ char_small_b ∷ [])
unfolding render render_from round char_round dot_round after glyph
point_run = refl

cut_run : render config (51 ∷ 98 ∷ 49 ∷ []) ≡ shown (char_3 ∷ char_small_b ∷ [])
unfolding render render_from round char_round dot_round after glyph
cut_run = refl

refused_run : render config (51 ∷ 63 ∷ []) ≡ invalid
unfolding render render_from round char_round dot_round after glyph
refused_run = refl

-- With a port for each segment there is no entry left that ends the loop of `set_gpios`.
abbrev scattered : Config
scattered = record {
  gpios = (pin 0 0 ∷ pin 1 0 ∷ pin 2 0 ∷ pin 3 0 ∷ pin 4 0 ∷ pin 5 0 ∷ pin 6 0 ∷ pin 7 0 ∷ []) ∷ [];
  decimal_point = true;
  brightness_pwm = none;
}

overrun_run : (init hardware scattered (record display { gpio_map = unused 8 })).0 ≡ overrun
unfolding init init_rows init_row init_gpio place find_slot enter cleared_after clear write
    write_val render render_from round char_round after glyph set_gpios set_from drive drive_row
    assign
overrun_run = refl

char_of-glyph_example : char_of 256 char_small_b ≡ some 98
unfolding glyph
char_of-glyph_example = char_of-glyph 98 char_small_b (omega arith) refl

-- "3.b", after "8" and an error.
write-Shows_example :
    let (started, d1) = init hardware config display in
    let (ret, d2) =
      write hardware config
        (writes hardware config d1 ((56 ∷ []) ∷ (63 ∷ []) ∷ []))
        ((51 ∷ 46 ∷ 98 ∷ []) ++ 0 ∷ 63 ∷ []) in
    (started ≡ code (pos 0))
    × (ret ≡ code (pos 0))
    × Shows config (fill 2 (text_cells (51 ∷ 46 ∷ 98 ∷ []))) d2
unfolding glyph
write-Shows_example =
    write-Shows hardware config (λ n. refl) config-IsWired display ((56 ∷ []) ∷ (63 ∷ []) ∷ [])
      (51 ∷ 46 ∷ 98 ∷ []) (0 ∷ 63 ∷ []) refl (refl, (refl, (refl, tt))) refl

brightness_get-brightness_set_example :
    let (ret, d') = brightness_set config display 30 in
    (30 ≤ 100
      → (ret ≡ pos 0)
        × (brightness_get config d' ≡ (pos 0, some 30))
        × (d'.pulses ≡ 20_000_000 * 30 / 100 ∷ display.pulses)
        × (20_000_000 * 30 / 100 ≤ 20_000_000))
    × (100 < 30 → (ret ≡ einval) × (d' ≡ display))
brightness_get-brightness_set_example =
    brightness_get-brightness_set config display 20_000_000 30 refl (omega arith)
