-- ===== src/LedStrip/Setup.antt =====
-- drivers/led_strip/gpio/led_strip_gpio.c: what init makes of a strip whose pins are in order.
use nturt_zephyr_common.Base.{
  ℕ, suc, ◌-◌, ◌<◌, ◌≤◌, ◌≡◌, refl, ap, sym, ◌∙◌, Option, none, some, List, [], ◌∷◌, ◌++◌, map,
  arith, take, take-length, get_or, All, length,
}
use nturt_zephyr_common.Base.Int.{pos}
use nturt_zephyr_common.SegDisplay.{Spec, Entry, Seg, Hardware, code}
use nturt_zephyr_common.SegDisplay.Setup.{done}
use nturt_zephyr_common.SegDisplay.Slots.{
  unused, insert_all, insert_rows, segs, seg_rows, built, IsUsable, init_row_lem, length-insert_all,
}
use nturt_zephyr_common.SegDisplay.Placed.{seg_in, seg_rows_lem}
use nturt_zephyr_common.LedStrip.{Config, Strip, init_color, init_colors, ended, init}
use nturt_zephyr_common.LedStrip.Lamps.{pins, leds_in, HasLeds, HasRoom, HasEntered}

-- The colours of a strip, one after the other.
abbrev pub rows : Config → List (List Spec)
rows c = pins c.red_gpios ∷ pins c.green_gpios ∷ pins c.blue_gpios ∷ []

-- The entries that init makes.
abbrev pub entries : Config → List Entry
entries c = insert_rows [] (rows c)

abbrev pub HasLength : ℕ → Option (List Spec) → Type 0
HasLength n none = Unit
HasLength n (some specs) = length specs ≡ n

-- The wiring that a strip needs: pins that are ready and can be configured, one for each LED in each
-- colour that it has, and fewer ports than the `m` entries of `gpio_map`.
pub record IsWired (hw : Hardware) (c : Config) (m : ℕ) : Type 0 where
  pub usable : All (λ row. All (IsUsable hw) row) (rows c)
  pub red_length : HasLength c.num_led c.red_gpios
  pub green_length : HasLength c.num_led c.green_gpios
  pub blue_length : HasLength c.num_led c.blue_gpios
  pub fewer_ports : length (entries c) < m

has_leds : (n : ℕ) (o : Option (List Spec)) → HasLength n o → HasLeds n o
has_leds n none h = tt
has_leds n (some specs) h = omega (arith, h)

-- The LEDs of a colour that the loop makes.
abbrev leds : List Entry → Option (List Spec) → Option (List Seg)
leds es none = none
leds es (some specs) = some (segs es specs)

leds_lem :
    (es f : List Entry) (o : Option (List Spec))
    → segs es (pins o) ≡ map (seg_in f) (pins o)
    → leds es o ≡ leds_in f o
leds_lem es f none h = refl
leds_lem es f (some specs) h = ap some h

init_color_lem :
    (hw : Hardware) (m : ℕ) (es : List Entry) (n : ℕ) (o : Option (List Spec))
    → All (IsUsable hw) (pins o)
    → HasLength n o
    → length (insert_all es (pins o)) ≤ m
    → init_color hw (built m es) n o ≡ done (built m (insert_all es (pins o)), leds es o)
unfolding init_color
init_color_lem hw m es n none h len l = refl
init_color_lem hw m es n (some specs) h len l =
    rw (ap (λ k. take k specs) (sym len) ∙ take-length specs, init_row_lem hw m es specs h l) refl

module _ (hw : Hardware) (c : Config) (m : ℕ) (w : IsWired hw c m) where
  pub IsWired-room : HasRoom c.num_led c
  IsWired-room = (
    has_leds c.num_led c.red_gpios w.red_length,
    has_leds c.num_led c.green_gpios w.green_length,
    has_leds c.num_led c.blue_gpios w.blue_length,
  )

  init_colors_lem :
      init_colors hw c (built m [])
      ≡ done (
        built m (entries c),
        (
          leds [] c.red_gpios,
          leds (insert_all [] (pins c.red_gpios)) c.green_gpios,
          leds (insert_all (insert_all [] (pins c.red_gpios)) (pins c.green_gpios)) c.blue_gpios,
        ),
      )
  unfolding init_colors
  init_colors_lem =
      let es1 : List Entry = insert_all [] (pins c.red_gpios) in
      let es2 : List Entry = insert_all es1 (pins c.green_gpios) in
      let later : length es2 ≤ length (entries c) = length-insert_all es2 (pins c.blue_gpios) in
      let first : length es1 ≤ length es2 = length-insert_all es1 (pins c.green_gpios) in
      let l : length (entries c) < m = w.fewer_ports in
      rw
        (
          init_color_lem hw m [] c.num_led c.red_gpios w.usable.0 w.red_length (omega arith),
          init_color_lem hw m es1 c.num_led c.green_gpios w.usable.1.0 w.green_length (omega arith),
          init_color_lem hw m es2 c.num_led c.blue_gpios w.usable.1.1.0 w.blue_length (omega arith),
        )
        refl

  pub init_lem :
      (d : Strip)
      → d.gpio_map ≡ unused m
      → let (ret, d') = init hw c d in
        (ret ≡ code (pos 0))
        × (d'.gpio_map ≡ entries c ++ unused (suc (m - length (entries c) - 1)))
        × HasEntered c (entries c) d'
        × (d'.calls ≡ d.calls)
  unfolding init ended
  init_lem d fresh =
      let start : record { gpio_map = d.gpio_map; gpio_map_index = 0 } ≡ built m [] =
        ap (λ k. record { gpio_map = k; gpio_map_index = 0 })
          (fresh ∙ ap unused {y = m - 0} (omega arith)) in
      let same : seg_rows [] (rows c) ≡ map (map (seg_in (entries c))) (rows c) =
        seg_rows_lem [] (rows c) in
      let es1 : List Entry = insert_all [] (pins c.red_gpios) in
      rw (ap (λ b. init_colors hw c b) start ∙ init_colors_lem) (
        refl,
        ap (λ k. entries c ++ unused k) {y = suc (m - length (entries c) - 1)}
            (omega (arith, w.fewer_ports)),
        (
          leds_lem [] (entries c) c.red_gpios (ap (λ l. get_or l 0 []) same),
          leds_lem es1 (entries c) c.green_gpios (ap (λ l. get_or l 1 []) same),
          leds_lem (insert_all es1 (pins c.green_gpios)) (entries c) c.blue_gpios
              (ap (λ l. get_or l 2 []) same),
        ),
        refl,
      )
