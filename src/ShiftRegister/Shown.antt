-- ===== src/ShiftRegister/Shown.antt =====
-- drivers/gpio/74hc595/gpio_74hc595.c: what the registers show is what the driver stores.
use nturt_zephyr_common.Base.{
  ℕ, ◌≡◌, Bool, false, Option, none, some, List, [], ◌∷◌, arith, set-set, set, length,
  if◌then◌else◌, if_both,
}
use nturt_zephyr_common.Base.Int.{ℤ, is_neg}
use nturt_zephyr_common.ShiftRegister.{
  spi_write_dt, Chain, same_bits, byte_at, restored, write_output, configure, port_set_masked_raw,
  port_set_bits_raw, port_clear_bits_raw, port_toggle_bits, init, PortOp, pin_configure, set_masked,
  set_bits, clear_bits, toggle_bits, port_op, port_ops,
}

-- What the registers show: the bytes of the last write that did not fail.
abbrev pub shown : List (List (List Bool) × ℤ) → Option (List (List Bool))
shown [] = none
shown ((bytes, ret) ∷ ws) = if is_neg ret then shown ws else some bytes

abbrev pub IsShown : Chain → Type 0
IsShown c = shown c.spi.writes ≡ some c.output

restored-IsShown :
    (c : Chain) (index : ℕ) (output : List Bool) (ret : ℤ)
    → IsShown c
    → IsShown
        (restored
          (record c { output = set c.output index output })
          index
          (byte_at c index)
          (ret, record c.spi { writes = (set c.output index output, ret) ∷ c.spi.writes })).1
unfolding restored
restored-IsShown c index output ret h = ground (arith, h, set-set c.output index output [])

pub write_output-IsShown :
    (c : Chain) (index : ℕ) (output : List Bool)
    → IsShown c
    → IsShown (write_output c index output).1
unfolding write_output spi_write_dt
write_output-IsShown c index output h =
    if_both (λ (r : ℤ × Chain). IsShown r.1) (same_bits (byte_at c index) output) _ _ h
      (restored-IsShown c index output (c.spi.answers (length c.spi.writes)) h)

port_op-IsShown : (c : Chain) (op : PortOp) → IsShown c → IsShown (port_op c op).1
unfolding port_op configure port_set_masked_raw port_set_bits_raw port_clear_bits_raw
    port_toggle_bits
port_op-IsShown c (pin_configure index pin flags) h = write_output-IsShown c index _ h
port_op-IsShown c (set_masked index mask value) h = write_output-IsShown c index _ h
port_op-IsShown c (set_bits index pins) h = write_output-IsShown c index _ h
port_op-IsShown c (clear_bits index pins) h = write_output-IsShown c index _ h
port_op-IsShown c (toggle_bits index pins) h = write_output-IsShown c index _ h

init-IsShown : (c : Chain) → c.initialized ≡ false → is_neg (init c).0 ≡ false → IsShown (init c).1
unfolding init spi_write_dt
init-IsShown c new ok = ground (arith, new, ok)

-- From an init whose write does not fail, on a chain not yet initialized, any sequence of operations on
-- the ports, with writes that fail anywhere, leaves the registers showing the stored output.
pub port_ops-IsShown :
    (c : Chain) (ops : List PortOp)
    → c.initialized ≡ false
    → is_neg (init c).0 ≡ false
    → IsShown (port_ops (init c).1 ops)
unfolding port_ops
port_ops-IsShown c ops new ok = go ops (init c).1 (init-IsShown c new ok)
  where
    go : (ops : List PortOp) (c : Chain) → IsShown c → IsShown (port_ops c ops)
    go [] c h = h
    go (op ∷ ops) c h = go ops (port_op c op).1 (port_op-IsShown c op h)
