-- ===== src/LedStrip/Lamps.antt =====
-- drivers/led_strip/gpio/led_strip_gpio.c: what each pin is to be for some pixels, and that the loop of
-- `led_strip_gpio_update_rgb` enters it in `gpio_map`.
use nturt_zephyr_common.Base.{
  ℕ, zero, suc, ◌+◌, ◌<◌, ◌≤◌, ◌≡◌, refl, ap, sym, ◌∙◌, Bool, Option, none, some, List, [], ◌∷◌,
  ◌++◌, map, arith, ltb, get_elem?, length, ◌>>=◌,
}
use nturt_zephyr_common.SegDisplay.{Spec, Entry, Seg, assign}
use nturt_zephyr_common.SegDisplay.Slots.{slot}
use nturt_zephyr_common.SegDisplay.Placed.{seg_in}
use nturt_zephyr_common.SegDisplay.Drive.{assign_all, assign_lem}
use nturt_zephyr_common.SegDisplay.Values.{
  AllPlaced, AllPlaced-assign_all, slot-assign_all, assign_all-append,
}
use nturt_zephyr_common.LedStrip.{Config, Strip, Pixel, set_color, set_pixel, set_pixels}

-- The pins of a colour, if the strip has it, and LED `i` of it.
abbrev pub pins : Option (List Spec) → List Spec
pins none = []
pins (some specs) = specs

abbrev pub lamp : List Spec → ℕ → ℕ → List (Spec × Bool)
lamp [] i value = []
lamp (s ∷ ss) zero value = (s, ltb 0 value) ∷ []
lamp (s ∷ ss) (suc i) value = lamp ss i value

-- What the pixels ask, from pixel `i` on: a lamp is lit unless its colour is 0.
abbrev pub lamps : Config → ℕ → List Pixel → List (Spec × Bool)
lamps c i [] = []
lamps c i (p ∷ ps) =
    lamp (pins c.red_gpios) i p.r
    ++ (lamp (pins c.green_gpios) i p.g ++ (lamp (pins c.blue_gpios) i p.b ++ lamps c (suc i) ps))

-- The LEDs of a colour, by the final map.
abbrev pub leds_in : List Entry → Option (List Spec) → Option (List Seg)
leds_in es none = none
leds_in es (some specs) = some (map (seg_in es) specs)

-- A strip with room for so many LEDs in each colour it has.
abbrev pub HasLeds : ℕ → Option (List Spec) → Type 0
HasLeds n none = Unit
HasLeds n (some specs) = n ≤ length specs

module _ (f u : List Entry) where
  set_led :
      (es : List Entry) (specs : List Spec) (i value : ℕ)
      → i < length specs
      → AllPlaced es specs
      → ((port : ℕ) → slot es port ≡ slot f port)
      → (get_elem? (map (seg_in f) specs) i >>= λ s. some (assign (es ++ u) s (ltb 0 value)))
        ≡ some (assign_all es (lamp specs i value) ++ u)
  set_led es [] i value l h same = absurd (omega (arith, l))
  set_led es (s ∷ specs) zero value l h same = ap some (
      ap (λ k. assign (es ++ u) (record { index = k; pin = s.pin }) (ltb 0 value))
        (sym (same s.port))
      ∙ assign_lem es u s (ltb 0 value) h.0.0)
  set_led es (s ∷ specs) (suc i) value l h same =
      set_led es specs i value (omega (arith, l)) h.1 same

  set_color_lem :
      (es : List Entry) (o : Option (List Spec)) (n i value : ℕ)
      → HasLeds n o
      → i < n
      → AllPlaced es (pins o)
      → ((port : ℕ) → slot es port ≡ slot f port)
      → set_color (es ++ u) (leds_in f o) i value
        ≡ some (assign_all es (lamp (pins o) i value) ++ u)
  unfolding set_color
  set_color_lem es none n i value has l h same = refl
  set_color_lem es (some specs) n i value has l h same =
      set_led es specs i value (omega (arith, has, l)) h same

-- A strip whose colours have room for `n` LEDs.
abbrev pub HasRoom : ℕ → Config → Type 0
HasRoom n c = HasLeds n c.red_gpios × HasLeds n c.green_gpios × HasLeds n c.blue_gpios

-- A map with the entries of `f`, in which all pins of the strip are.
abbrev pub Fits : Config → List Entry → List Entry → Type 0
Fits c f es =
    ((port : ℕ) → slot es port ≡ slot f port)
    × AllPlaced es (pins c.red_gpios)
    × AllPlaced es (pins c.green_gpios)
    × AllPlaced es (pins c.blue_gpios)

pub Fits-assign_all :
    (c : Config) (f es : List Entry) (ts : List (Spec × Bool))
    → Fits c f es
    → Fits c f (assign_all es ts)
Fits-assign_all c f es ts (same, red, green, blue) = (
  λ port. slot-assign_all es ts port ∙ same port,
  AllPlaced-assign_all es ts (pins c.red_gpios) red,
  AllPlaced-assign_all es ts (pins c.green_gpios) green,
  AllPlaced-assign_all es ts (pins c.blue_gpios) blue,
)

-- The LEDs that init has entered.
abbrev pub HasEntered : Config → List Entry → Strip → Type 0
HasEntered c f d =
    (d.red_gpios ≡ leds_in f c.red_gpios)
    × (d.green_gpios ≡ leds_in f c.green_gpios)
    × (d.blue_gpios ≡ leds_in f c.blue_gpios)

module _ (c : Config) (f u : List Entry) (d : Strip) (n : ℕ) (room : HasRoom n c)
    (entered : HasEntered c f d) where
  set_pixel_lem :
      (es : List Entry) (i : ℕ) (p : Pixel)
      → i < n
      → Fits c f es
      → set_pixel d i p (es ++ u)
        ≡ some (
            assign_all
              (assign_all
                (assign_all es (lamp (pins c.red_gpios) i p.r))
                (lamp (pins c.green_gpios) i p.g))
              (lamp (pins c.blue_gpios) i p.b)
            ++ u)
  unfolding set_pixel
  set_pixel_lem es i p l fits =
      let es1 : List Entry = assign_all es (lamp (pins c.red_gpios) i p.r) in
      let fits1 : Fits c f es1 = Fits-assign_all c f es (lamp (pins c.red_gpios) i p.r) fits in
      let es2 : List Entry = assign_all es1 (lamp (pins c.green_gpios) i p.g) in
      let fits2 : Fits c f es2 = Fits-assign_all c f es1 (lamp (pins c.green_gpios) i p.g) fits1 in
      rw
        (
          entered.0,
          entered.1,
          entered.2,
          set_color_lem f u es c.red_gpios n i p.r room.0 l fits.1 fits.0,
          set_color_lem f u es1 c.green_gpios n i p.g room.1 l fits1.2 fits1.0,
        )
        (set_color_lem f u es2 c.blue_gpios n i p.b room.2 l fits2.3 fits2.0)

  -- The loop enters what the pixels ask.
  pub set_pixels_lem :
      (es : List Entry) (i : ℕ) (ps : List Pixel)
      → i + length ps ≤ n
      → Fits c f es
      → set_pixels d i ps (es ++ u) ≡ some (assign_all es (lamps c i ps) ++ u)
  unfolding set_pixels
  set_pixels_lem es i [] l fits = refl
  set_pixels_lem es i (p ∷ ps) l fits =
      let red : List (Spec × Bool) = lamp (pins c.red_gpios) i p.r in
      let green : List (Spec × Bool) = lamp (pins c.green_gpios) i p.g in
      let blue : List (Spec × Bool) = lamp (pins c.blue_gpios) i p.b in
      let rest : List (Spec × Bool) = lamps c (suc i) ps in
      let all : assign_all es (red ++ (green ++ (blue ++ rest)))
          ≡ assign_all (assign_all (assign_all (assign_all es red) green) blue) rest =
        assign_all-append es red (green ++ (blue ++ rest))
        ∙ assign_all-append (assign_all es red) green (blue ++ rest)
        ∙ assign_all-append (assign_all (assign_all es red) green) blue rest in
      rw (set_pixel_lem es i p (omega (arith, l)) fits, all)
        (set_pixels_lem (assign_all (assign_all (assign_all es red) green) blue) (suc i) ps
          (omega (arith, l))
          (Fits-assign_all c f (assign_all (assign_all es red) green) blue
            (Fits-assign_all c f (assign_all es red) green (Fits-assign_all c f es red fits))))
