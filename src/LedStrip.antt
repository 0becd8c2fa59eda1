-- ===== src/LedStrip.antt =====
-- drivers/led_strip/gpio/led_strip_gpio.c: LED strips with a GPIO pin for each colour of each LED. Ports,
-- pins and `gpio_map` are as in the segment display, and init fills the map with the same statements.
pub mod Lamps
pub mod Setup
pub mod Last
pub mod Shown
pub mod Tree
mod Tests
use nturt_zephyr_common.Base.{
  ℕ, zero, suc, Bool, true, false, Option, none, some, List, [], ◌∷◌, ltb, ◌>>=◌, get_elem?, take,
}
use nturt_zephyr_common.Base.Int.{ℤ, pos}
use nturt_zephyr_common.SegDisplay.{
  Spec, Entry, Seg, Hardware, Call, Ret, code, overrun, assign, set_from,
}
use nturt_zephyr_common.SegDisplay.Setup.{Build, Tried, done, failed, wild, and_then, init_row}

-- A node of the devicetree: the pins of the colours it has, each with one for each LED.
pub record Node : Type 0 where
  pub red_gpios : Option (List Spec)
  pub green_gpios : Option (List Spec)
  pub blue_gpios : Option (List Spec)
  pub chain_length : ℕ

-- `struct led_strip_gpio_config`
pub record Config : Type 0 where
  pub red_gpios : Option (List Spec)
  pub green_gpios : Option (List Spec)
  pub blue_gpios : Option (List Spec)
  pub num_led : ℕ

-- COND_CODE_1(DT_INST_NODE_HAS_PROP(inst, gpios), (value), (NULL))
unfoldable pub if_has_prop {ℓ κ} : {A : Type ℓ} {B : Type κ} → Option A → Option B → Option B
if_has_prop none value = none
if_has_prop (some a) value = value

-- The configuration that LED_STRIP_GPIO_INIT defines. It names `red_gpios` for each colour.
unfoldable pub config_of : Node → Config
unfolding if_has_prop
config_of n = record {
  red_gpios = if_has_prop n.red_gpios n.red_gpios;
  green_gpios = if_has_prop n.green_gpios n.red_gpios;
  blue_gpios = if_has_prop n.blue_gpios n.red_gpios;
  num_led = n.chain_length;
}

-- `struct led_strip_gpio_data`, with the calls of `gpio_port_set_masked`, latest first.
pub record Strip : Type 0 where
  pub gpio_map : List Entry
  pub red_gpios : Option (List Seg)
  pub green_gpios : Option (List Seg)
  pub blue_gpios : Option (List Seg)
  pub calls : List Call

-- `struct led_rgb`
pub record Pixel : Type 0 where
  pub r : ℕ
  pub g : ℕ
  pub b : ℕ

module _ (hw : Hardware) where
  -- What the outer loop does for a colour: nothing, or the loop over the LEDs.
  unfoldable pub init_color : Build → ℕ → Option (List Spec) → Tried (Build × Option (List Seg))
  init_color b num_led none = done (b, none)
  init_color b num_led (some specs) =
      and_then (init_row hw b (take num_led specs)) (λ (b', segs). done (b', some segs))

  unfoldable pub init_colors :
      Config → Build → Tried (Build × (Option (List Seg) × Option (List Seg) × Option (List Seg)))
  unfolding init_color
  init_colors c b = and_then (init_color b c.num_led c.red_gpios) (λ (b1, red).
      and_then (init_color b1 c.num_led c.green_gpios) (λ (b2, green).
        and_then (init_color b2 c.num_led c.blue_gpios)
          (λ (b3, blue). done (b3, (red, green, blue)))))

  -- How init ends. A device whose init fails is not used, so what the loops have written is left out.
  unfoldable pub ended :
      Strip
      → Tried (Build × (Option (List Seg) × Option (List Seg) × Option (List Seg)))
      → Ret × Strip
  ended d (done (b, (red, green, blue))) = (
    code (pos 0),
    record d { gpio_map = b.gpio_map; red_gpios = red; green_gpios = green; blue_gpios = blue },
  )
  ended d (failed ret) = (code ret, d)
  ended d wild = (overrun, d)

  unfoldable pub init : Config → Strip → Ret × Strip
  unfolding init_colors ended
  init c d = ended d (init_colors c (record { gpio_map = d.gpio_map; gpio_map_index = 0 }))

  -- The loop of `set_gpios`
  unfoldable pub set_gpios : Strip → Ret × Strip
  unfolding set_from
  set_gpios d =
      let (ret, calls') = set_from hw d.gpio_map d.calls in (ret, record d { calls = calls' })

-- A colour of pixel `i`; `none` if there is no LED `i`.
unfoldable pub set_color : List Entry → Option (List Seg) → ℕ → ℕ → Option (List Entry)
unfolding assign
set_color map none i value = some map
set_color map (some segs) i value = do s ← get_elem? segs i; some (assign map s (ltb 0 value))

unfoldable pub set_pixel : Strip → ℕ → Pixel → List Entry → Option (List Entry)
unfolding set_color
set_pixel d i p map = do
  map1 ← set_color map d.red_gpios i p.r
  map2 ← set_color map1 d.green_gpios i p.g
  set_color map2 d.blue_gpios i p.b

-- The loop over the pixels, from pixel `i` on.
unfoldable pub set_pixels : Strip → ℕ → List Pixel → List Entry → Option (List Entry)
unfolding set_pixel
set_pixels d i [] map = some map
set_pixels d i (p ∷ ps) map = do map' ← set_pixel d i p map; set_pixels d (suc i) ps map'

module _ (hw : Hardware) where
  -- What follows the loop.
  unfoldable pub updated : Strip → Option (List Entry) → Ret × Strip
  unfolding set_gpios
  updated d none = (overrun, d)
  updated d (some map) = set_gpios hw (record d { gpio_map = map })

  unfoldable pub update_rgb : Strip → List Pixel → Ret × Strip
  unfolding updated set_pixels
  update_rgb d pixels = updated d (set_pixels d 0 pixels d.gpio_map)
