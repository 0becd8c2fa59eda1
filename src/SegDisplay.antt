-- ===== src/SegDisplay.antt =====
-- drivers/auxdisplay/gpio-seg-display/gpio_seg_display.c: displays of seven segments on GPIO pins. The
-- masks of a port are functions from a pin to its bit.
pub mod Glyphs
pub mod Setup
pub mod Text
pub mod Slots
pub mod Lookup
pub mod Placed
pub mod Drive
pub mod Values
pub mod Sent
pub mod Brightness
mod Tests
pub mod Shown
pub mod Render
use nturt_zephyr_common.Base.{
  ℕ, zero, suc, ◌+◌, ◌-◌, ◌*◌, ◌/◌, ◌%◌, ◌^◌, Bool, true, false, not, ◌&&◌, ◌||◌, Option, none,
  some, List, [], ◌∷◌, ltb, leb, ◌==◌, if◌then◌else◌, get_or, set, take, length,
}
use nturt_zephyr_common.Base.Int.{ℤ, pos, negsuc, is_neg}
use nturt_zephyr_common.SegDisplay.Glyphs.{Glyph, glyph, char_off}

-- `struct gpio_dt_spec`
pub record Spec : Type 0 where
  pub port : ℕ
  pub pin : ℕ

-- `struct gpio_map`; a port that is NULL is `none`.
pub record Entry : Type 0 where
  pub gpio_port : Option ℕ
  pub mask : ℕ → Bool
  pub value : ℕ → Bool

-- `struct seg_gpio`
pub record Seg : Type 0 where
  pub index : ℕ
  pub pin : ℕ

-- `struct gpio_seg_display_config`: a row of pins for each digit, whether there are decimal points, and
-- the period of the PWM in nanoseconds if there is one.
pub record Config : Type 0 where
  pub gpios : List (List Spec)
  pub decimal_point : Bool
  pub brightness_pwm : Option ℕ

abbrev pub num_disp : Config → ℕ
num_disp c = length c.gpios

abbrev pub num_gpio : Config → ℕ
num_gpio c = if c.decimal_point then 8 else 7

-- A call of `gpio_port_set_masked`, and what it returned.
pub record Call : Type 0 where
  pub port : ℕ
  pub mask : ℕ → Bool
  pub value : ℕ → Bool
  pub ret : ℤ

-- What is not in the repository: whether a pin is ready, what `gpio_pin_configure_dt` returns, and what
-- the calls of `gpio_port_set_masked` return, by their number.
pub record Hardware : Type 0 where
  pub is_ready : Spec → Bool
  pub configured : Spec → ℤ
  pub answers : ℕ → ℤ

-- `struct gpio_seg_display_data`, with the calls made and the pulses set, latest first.
pub record Display : Type 0 where
  pub gpio_map : List Entry
  pub gpios : List (List Seg)
  pub brightness : ℕ
  pub calls : List Call
  pub pulses : List ℕ

-- What a function returns; `overrun` stands for an access outside an array.
pub data Ret : Type 0 where
  code : ℤ → Ret
  overrun : Ret

-- -EINVAL, -ENODEV and -ENOTSUP
abbrev pub einval : ℤ
einval = negsuc 21

abbrev pub enodev : ℤ
enodev = negsuc 18

abbrev pub enotsup : ℤ
enotsup = negsuc 133

-- BIT(pin) of a mask becomes `b`.
abbrev pub put : (ℕ → Bool) → ℕ → Bool → ℕ → Bool
put f pin b q = if pin == q then b else f q

-- The entries of `gpio_map` as they are defined.
abbrev pub blank : Entry
blank = record { gpio_port = none; mask = λ q. false; value = λ q. false }

module _ (hw : Hardware) where
  -- The loop of `set_gpios`, which ends at the first entry without a port.
  unfoldable pub set_from : List Entry → List Call → Ret × List Call
  set_from [] calls = (overrun, calls)
  set_from (e ∷ es) calls = elim e.gpio_port [
    | none ↦ (code (pos 0), calls)
    | some p ↦
        let ret = hw.answers (length calls) in
        let calls' = record { port = p; mask = e.mask; value = e.value; ret = ret } ∷ calls in
        let rest = set_from es calls' in if is_neg ret then (code ret, calls') else rest
  ]

  unfoldable pub set_gpios : Display → Ret × Display
  unfolding set_from
  set_gpios d =
      let (ret, calls') = set_from d.gpio_map d.calls in (ret, record d { calls = calls' })

-- How one round of the loop over the characters ends.
pub data Round : Type 0 where
  stop fail wild : Round
  go : ℕ → List Glyph → Round

-- val[k] = g
abbrev pub store : List Glyph → ℕ → Glyph → ℕ → Round
store val k g next = if ltb k (length val) then go next (set val k g) else wild

-- val[k] |= BIT(7)
abbrev pub add_dot : List Glyph → ℕ → ℕ → Round
add_dot val k next = store val k (set (get_or val k []) 7 true) next

-- case '.', at the character with index `i`
unfoldable pub dot_round : Config → ℕ → ℕ → List Glyph → Round
dot_round c i chr_index val =
    if c.decimal_point
    then (if i == 0
        then add_dot val chr_index (chr_index + 1)
        else if chr_index == 0
        then wild
        else add_dot val (chr_index - 1) chr_index)
    else fail

-- The `switch`.
unfoldable pub char_round : Config → ℕ → ℕ → ℕ → List Glyph → Round
unfolding dot_round
char_round c i chr chr_index val = elim (glyph chr) [
  | none ↦ if chr == 46 then dot_round c i chr_index val else fail
  | some g ↦ store val chr_index g (chr_index + 1)
]

unfoldable pub round : Config → ℕ → ℕ → ℕ → List Glyph → Round
unfolding char_round
round c i chr chr_index val =
    if chr == 0
    then stop
    else if leb (num_disp c) chr_index && (not c.decimal_point || not (chr == 46))
    then stop
    else char_round c i chr chr_index val

-- What the loop makes of `val`.
pub data Rendered : Type 0 where
  shown : List Glyph → Rendered
  invalid out_of_bounds : Rendered

-- What follows a round.
unfoldable pub after : Round → List Glyph → (ℕ → List Glyph → Rendered) → Rendered
after stop val f = shown val
after fail val f = invalid
after wild val f = out_of_bounds
after (go chr_index val') val f = f chr_index val'

-- The loop, from the character with index `i` on; the list holds the first `len` characters.
unfoldable pub render_from : Config → ℕ → List ℕ → ℕ → List Glyph → Rendered
unfolding after round
render_from c i [] chr_index val = shown val
render_from c i (chr ∷ chrs) chr_index val =
    after (round c i chr chr_index val) val (render_from c (suc i) chrs)

-- val, cleared
abbrev pub cleared : ℕ → List Glyph
cleared zero = []
cleared (suc n) = char_off ∷ cleared n

unfoldable pub render : Config → List ℕ → Rendered
unfolding render_from
render c text = render_from c 0 text 0 (cleared (num_disp c))

-- data->gpio_map[seg.index].value gets the bit of the segment.
unfoldable pub assign : List Entry → Seg → Bool → List Entry
assign map s b =
    let e = get_or map s.index blank in set map s.index (record e { value = put e.value s.pin b })

-- The loops over the segments of a digit, from segment `j` on, and over the digits.
unfoldable pub drive_row : List Entry → ℕ → List Seg → Glyph → List Entry
unfolding assign
drive_row map j [] g = map
drive_row map j (s ∷ ss) g = drive_row (assign map s (get_or g j false)) (suc j) ss g

unfoldable pub drive : List Entry → List (List Seg) → List Glyph → List Entry
unfolding drive_row
drive map [] val = map
drive map (row ∷ rows) [] = map
drive map (row ∷ rows) (g ∷ gs) = drive (drive_row map 0 row g) rows gs

module _ (hw : Hardware) where
  unfoldable pub write_val : Display → Rendered → Ret × Display
  unfolding drive set_gpios
  write_val d invalid = (code einval, d)
  write_val d out_of_bounds = (overrun, d)
  write_val d (shown val) = set_gpios hw (record d { gpio_map = drive d.gpio_map d.gpios val })

  unfoldable pub write : Config → Display → List ℕ → Ret × Display
  unfolding write_val render
  write c d text = write_val d (render c text)

  -- The `num_disp` blanks of `gpio_seg_display_clear`.
  abbrev pub blanks : ℕ → List ℕ
  blanks zero = []
  blanks (suc n) = 32 ∷ blanks n

  unfoldable pub clear : Config → Display → Ret × Display
  unfolding write
  clear c d = write c d (blanks (num_disp c))

  unfoldable pub off : Config → Display → Ret × Display
  unfolding clear
  off c d = clear c d

unfoldable pub brightness_get : Config → Display → ℤ × Option ℕ
brightness_get c d = elim c.brightness_pwm [
  | none ↦ (enotsup, none)
  | some period ↦ (pos 0, some d.brightness)
]

-- The pulse is computed in uint32_t; what `pwm_set_pulse_dt` returns is not looked at.
unfoldable pub brightness_set : Config → Display → ℕ → ℤ × Display
brightness_set c d brightness = elim c.brightness_pwm [
  | none ↦ (enotsup, d)
  | some period ↦ if ltb 100 brightness then (einval, d) else (
    pos 0,
    record d { brightness = brightness; pulses = period * brightness % 2 ^ 32 / 100 ∷ d.pulses },
  )
]
