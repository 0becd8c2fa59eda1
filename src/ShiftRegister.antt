-- ===== src/ShiftRegister.antt =====
-- drivers/gpio/74hc595/gpio_74hc595.c: GPIO ports on a chain of 74HC595 shift registers. A `uint8_t` and
-- the masks of a port are the lists of their bits, lowest first; the mutex makes each operation one step.
pub mod Shown
pub mod Ports
mod Tests
use nturt_zephyr_common.Base.{
  ℕ, zero, suc, ◌-◌, Bool, true, false, not, ◌&&◌, xor, List, [], ◌∷◌, get_or, set, length,
  if◌then◌else◌,
}
use nturt_zephyr_common.Base.Int.{ℤ, pos, negsuc, is_neg}

-- The SPI bus, which is a parameter: whether it is ready, what the next calls of `spi_write_dt` return,
-- by their number, and the calls made, latest first: the bytes and what was returned.
pub record Spi : Type 0 where
  pub is_ready : Bool
  pub answers : ℕ → ℤ
  pub writes : List (List (List Bool) × ℤ)

unfoldable pub spi_write_dt : Spi → List (List Bool) → ℤ × Spi
spi_write_dt spi bytes =
    let ret = spi.answers (length spi.writes) in
    (ret, record spi { writes = (bytes, ret) ∷ spi.writes })

-- `struct gpio_74hc595_data`, with the bus of its configuration
pub record Chain : Type 0 where
  pub output : List (List Bool)
  pub initialized : Bool
  pub spi : Spi

-- GPIO_OUTPUT_INIT_HIGH and GPIO_OUTPUT_INIT_LOW of the flags, as truth values
pub record PinFlags : Type 0 where
  pub init_high : Bool
  pub init_low : Bool

-- a == b
unfoldable pub same_bits : List Bool → List Bool → Bool
same_bits [] [] = true
same_bits [] (b ∷ bs) = false
same_bits (a ∷ xs) [] = false
same_bits (a ∷ xs) (b ∷ ys) = not (xor a b) && same_bits xs ys

-- (output & ~mask) | (mask & value)
unfoldable pub masked : List Bool → List Bool → List Bool → List Bool
masked [] mask value = []
masked (o ∷ os) [] value = o ∷ os
masked (o ∷ os) (m ∷ ms) [] = (if m then false else o) ∷ masked os ms []
masked (o ∷ os) (m ∷ ms) (v ∷ vs) = (if m then v else o) ∷ masked os ms vs

-- output ^ pins
unfoldable pub toggled : List Bool → List Bool → List Bool
toggled [] pins = []
toggled (o ∷ os) [] = o ∷ os
toggled (o ∷ os) (p ∷ ps) = xor o p ∷ toggled os ps

-- `output[index]`
abbrev pub byte_at : Chain → ℕ → List Bool
byte_at c index = get_or c.output index []

-- What `write_output` leaves behind the call of `spi_write_dt`, with the byte that was there before.
unfoldable pub restored : Chain → ℕ → List Bool → ℤ × Spi → ℤ × Chain
restored c index orig (ret, spi) =
    if is_neg ret
    then (ret, record c { output = set c.output index orig; spi = spi })
    else (ret, record c { spi = spi })

unfoldable pub write_output : Chain → ℕ → List Bool → ℤ × Chain
write_output c index output =
    if same_bits (byte_at c index) output
    then (pos 0, c)
    else let c' = record c { output = set c.output index output } in
      restored c' index (byte_at c index) (spi_write_dt c'.spi c'.output)

unfoldable pub pin_configured : List Bool → ℕ → PinFlags → List Bool
pin_configured output pin flags =
    if flags.init_high
    then set output pin true
    else if flags.init_low
    then set output pin false
    else output

unfoldable pub configure : Chain → ℕ → ℕ → PinFlags → ℤ × Chain
configure c index pin flags = write_output c index (pin_configured (byte_at c index) pin flags)

unfoldable pub port_get_raw : Chain → ℕ → List Bool
port_get_raw c index = byte_at c index

unfoldable pub port_set_masked_raw : Chain → ℕ → List Bool → List Bool → ℤ × Chain
port_set_masked_raw c index mask value = write_output c index (masked (byte_at c index) mask value)

unfoldable pub port_set_bits_raw : Chain → ℕ → List Bool → ℤ × Chain
port_set_bits_raw c index pins = port_set_masked_raw c index pins pins

unfoldable pub port_clear_bits_raw : Chain → ℕ → List Bool → ℤ × Chain
port_clear_bits_raw c index pins = port_set_masked_raw c index pins []

unfoldable pub port_toggle_bits : Chain → ℕ → List Bool → ℤ × Chain
port_toggle_bits c index pins = write_output c index (toggled (byte_at c index) pins)

-- -ENODEV
abbrev pub enodev : ℤ
enodev = negsuc 18

abbrev pub written : Chain → ℤ × Spi → ℤ × Chain
written c (ret, spi) = (ret, record c { spi = spi })

unfoldable pub init : Chain → ℤ × Chain
init c =
    if c.initialized
    then (pos 0, c)
    else let c' = record c { initialized = true } in
      if not c.spi.is_ready then (enodev, c') else written c' (spi_write_dt c'.spi c'.output)

-- The operations of the ports, with the index of the port's register.
pub data PortOp : Type 0 where
  pin_configure : ℕ → ℕ → PinFlags → PortOp
  set_masked : ℕ → List Bool → List Bool → PortOp
  set_bits clear_bits toggle_bits : ℕ → List Bool → PortOp

unfoldable pub port_op : Chain → PortOp → ℤ × Chain
port_op c (pin_configure index pin flags) = configure c index pin flags
port_op c (set_masked index mask value) = port_set_masked_raw c index mask value
port_op c (set_bits index pins) = port_set_bits_raw c index pins
port_op c (clear_bits index pins) = port_clear_bits_raw c index pins
port_op c (toggle_bits index pins) = port_toggle_bits c index pins

unfoldable pub port_ops : Chain → List PortOp → Chain
port_ops c [] = c
port_ops c (op ∷ ops) = port_ops (port_op c op).1 ops
