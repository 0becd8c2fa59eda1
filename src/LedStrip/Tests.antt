-- ===== src/LedStrip/Tests.antt =====
-- Instances of the theorems of LED strips, on strips of two LEDs.
use nturt_zephyr_common.Base.{ℕ, ◌≡◌, refl, true, false, none, some, [], ◌∷◌, arith, All}
use nturt_zephyr_common.Base.Int.{pos}
use nturt_zephyr_common.SegDisplay.{Spec, Hardware, code}
use nturt_zephyr_common.SegDisplay.Slots.{unused}
use nturt_zephyr_common.SegDisplay.Sent.{level}
use nturt_zephyr_common.SegDisplay.Values.{differs_from}
use nturt_zephyr_common.LedStrip.{
  Node, Config, config_of, if_has_prop, Strip, Pixel, init, update_rgb,
}
use nturt_zephyr_common.LedStrip.Lamps.{lamps}
use nturt_zephyr_common.LedStrip.Setup.{IsWired}
use nturt_zephyr_common.LedStrip.Shown.{updates, update_rgb-lit}
use nturt_zephyr_common.LedStrip.Tree.{red_shown, update_rgb-red}

abbrev pin : ℕ → ℕ → Spec
pin port k = record { port = port; pin = k }

abbrev pixel : ℕ → ℕ → ℕ → Pixel
pixel r g b = record { r = r; g = g; b = b }

abbrev hardware : Hardware
hardware = record { is_ready = λ s. true; configured = λ s. pos 0; answers = λ n. pos 0 }

abbrev strip : Strip
strip = record {
  gpio_map = unused 6;
  red_gpios = none;
  green_gpios = none;
  blue_gpios = none;
  calls = [];
}

-- The green lamp of the second LED is on a port of its own; there are no blue ones.
abbrev config : Config
config = record {
  red_gpios = some (pin 4 0 ∷ pin 4 1 ∷ []);
  green_gpios = some (pin 4 2 ∷ pin 7 2 ∷ []);
  blue_gpios = none;
  num_led = 2;
}

config-IsWired : IsWired hardware config 6
config-IsWired = record {
  usable = (((refl, refl), ((refl, refl), tt)), (((refl, refl), ((refl, refl), tt)), (tt, tt)));
  red_length = refl;
  green_length = refl;
  blue_length = tt;
  fewer_ports = omega arith;
}

-- Yellow and black, after one pixel of red.
update_rgb-lit_example :
    let (started, d1) = init hardware config strip in
    let (ret, d2) =
      update_rgb hardware
        (updates hardware d1 ((pixel 255 0 0 ∷ []) ∷ []))
        (pixel 9 9 0 ∷ pixel 0 0 0 ∷ []) in
    (started ≡ code (pos 0))
    × (ret ≡ code (pos 0))
    × All
        (λ t. level d2.calls t.0.port t.0.pin ≡ some t.1)
        (lamps config 0 (pixel 9 9 0 ∷ pixel 0 0 0 ∷ []))
update_rgb-lit_example =
    update_rgb-lit hardware (λ n. refl) config 6 config-IsWired strip ((pixel 255 0 0 ∷ []) ∷ [])
      (pixel 9 9 0 ∷ pixel 0 0 0 ∷ []) refl (omega arith, tt) (omega arith) refl

-- A strip with all three colours.
abbrev node : Node
node = record {
  red_gpios = some (pin 4 0 ∷ pin 4 1 ∷ []);
  green_gpios = some (pin 4 2 ∷ pin 4 3 ∷ []);
  blue_gpios = some (pin 4 4 ∷ pin 4 5 ∷ []);
  chain_length = 2;
}

node-IsWired : IsWired hardware (config_of node) 6
unfolding config_of if_has_prop
node-IsWired = record {
  usable = (
    ((refl, refl), ((refl, refl), tt)),
    (((refl, refl), ((refl, refl), tt)), (((refl, refl), ((refl, refl), tt)), tt)),
  );
  red_length = refl;
  green_length = refl;
  blue_length = refl;
  fewer_ports = omega arith;
}

-- A red and a blue pixel: the first LED stays dark, and the red lamp of the second is lit.
red_blue_run :
    red_shown node (pin 4 0 ∷ pin 4 1 ∷ []) (pixel 9 0 0 ∷ pixel 0 0 9 ∷ [])
    ≡ (pin 4 0, false) ∷ (pin 4 1, true) ∷ []
red_blue_run = refl

update_rgb-red_example :
    let (started, d1) = init hardware (config_of node) strip in
    let (ret, d2) =
      update_rgb hardware
        (updates hardware d1 ((pixel 0 0 0 ∷ []) ∷ []))
        (pixel 9 0 0 ∷ pixel 0 0 9 ∷ []) in
    (started ≡ code (pos 0))
    × (ret ≡ code (pos 0))
    × All
        (λ t. level d2.calls t.0.port t.0.pin ≡ some t.1)
        (red_shown node (pin 4 0 ∷ pin 4 1 ∷ []) (pixel 9 0 0 ∷ pixel 0 0 9 ∷ []))
    × ((s : Spec)
        → differs_from s (pin 4 0 ∷ pin 4 1 ∷ []) ≡ true
        → level d2.calls s.port s.pin ≡ none)
update_rgb-red_example =
    update_rgb-red hardware (λ n. refl) node (pin 4 0 ∷ pin 4 1 ∷ []) 6 refl refl node-IsWired strip
      ((pixel 0 0 0 ∷ []) ∷ []) (pixel 9 0 0 ∷ pixel 0 0 9 ∷ []) refl refl (omega arith, tt)
      (omega arith)
