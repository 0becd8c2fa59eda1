-- ===== src/ShiftRegister/Tests.antt =====
-- drivers/gpio/74hc595/gpio_74hc595.c: runs and instances of the theorems.
use nturt_zephyr_common.Base.{ℕ, ◌≡◌, refl, Bool, true, false, List, [], ◌∷◌, if◌then◌else◌, ◌==◌}
use nturt_zephyr_common.Base.Int.{ℤ, pos, negsuc, is_neg}
use nturt_zephyr_common.ShiftRegister.{
  spi_write_dt, Chain, same_bits, masked, restored, write_output, port_get_raw, configure,
  pin_configured, port_set_masked_raw, port_set_bits_raw, port_toggle_bits, toggled, init, PortOp,
  pin_configure, set_masked, set_bits, toggle_bits, port_op, port_ops,
}
use nturt_zephyr_common.ShiftRegister.Shown.{IsShown, port_ops-IsShown}

abbrev byte : List Bool
byte = false ∷ false ∷ false ∷ false ∷ false ∷ false ∷ false ∷ false ∷ []

-- Two registers; the third write fails.
abbrev answers : ℕ → ℤ
answers n = if n == 2 then negsuc 4 else pos 0

abbrev chain : Chain
chain = record {
  output = byte ∷ byte ∷ [];
  initialized = false;
  spi = record { is_ready = true; answers = answers; writes = [] };
}

abbrev ops : List PortOp
ops =
    set_bits 1 (true ∷ false ∷ true ∷ [])
    ∷ toggle_bits 0 (true ∷ [])
    ∷ set_masked 1 (true ∷ true ∷ []) (false ∷ true ∷ [])
    ∷ pin_configure 0 7 (record { init_high = true; init_low = false })
    ∷ []

port_get_raw_run :
    (port_get_raw (port_ops (init chain).1 ops) 1
      ≡ false ∷ true ∷ true ∷ false ∷ false ∷ false ∷ false ∷ false ∷ [])
    × (port_get_raw (port_ops (init chain).1 ops) 0
        ≡ false ∷ false ∷ false ∷ false ∷ false ∷ false ∷ false ∷ true ∷ [])
unfolding port_ops port_op init port_get_raw port_set_masked_raw port_set_bits_raw port_toggle_bits
    masked toggled write_output restored spi_write_dt same_bits configure pin_configured
port_get_raw_run = (refl, refl)

init_ok : is_neg (init chain).0 ≡ false
unfolding init spi_write_dt
init_ok = refl

port_ops-IsShown_example : IsShown (port_ops (init chain).1 ops)
port_ops-IsShown_example = port_ops-IsShown chain ops refl init_ok

-- After a failed init, the init of the next register reports success although the bus is not ready.
abbrev unready : Chain
unready = record chain { spi = record { is_ready = false; answers = answers; writes = [] } }

init_twice : ((init unready).0 ≡ negsuc 18) × ((init (init unready).1).0 ≡ pos 0)
unfolding init
init_twice = (refl, refl)
