-- ===== src/ShiftRegister/Ports.antt =====
-- drivers/gpio/74hc595/gpio_74hc595.c: what an operation makes of the pins.
use nturt_zephyr_common.Base.{
  ℕ, zero, suc, ◌<◌, ◌≡◌, ◌⊎◌, inl, inr, refl, ap, Bool, true, false, xor, List, [], ◌∷◌, arith,
  get_or, ℕ_discrete, set-set, set-get_or, get_or-set, set, length, if◌then◌else◌, ◌==◌,
}
use nturt_zephyr_common.Base.Int.{is_neg}
use nturt_zephyr_common.ShiftRegister.{
  spi_write_dt, Chain, PinFlags, same_bits, masked, toggled, byte_at, restored, write_output,
  pin_configured, configure, port_set_masked_raw, port_set_bits_raw, port_clear_bits_raw,
  port_toggle_bits, PortOp, pin_configure, set_masked, set_bits, clear_bits, toggle_bits, port_op,
}

-- The register of an operation.
abbrev pub index_of : PortOp → ℕ
index_of (pin_configure index pin flags) = index
index_of (set_masked index mask value) = index
index_of (set_bits index pins) = index
index_of (clear_bits index pins) = index
index_of (toggle_bits index pins) = index

-- What an operation asks of a pin of that register.
abbrev pub asked : PortOp → ℕ → Bool → Bool
asked (pin_configure index pin flags) p old =
    if pin == p
    then (if flags.init_high then true else if flags.init_low then false else old)
    else old
asked (set_masked index mask value) p old =
    if get_or mask p false then get_or value p false else old
asked (set_bits index pins) p old = if get_or pins p false then true else old
asked (clear_bits index pins) p old = if get_or pins p false then false else old
asked (toggle_bits index pins) p old = xor old (get_or pins p false)

-- The pins of a port that its register has.
abbrev pub IsPin : Chain → PortOp → Type 0
IsPin c (pin_configure index pin flags) = pin < length (byte_at c index)
IsPin c (set_masked index mask value) = Unit
IsPin c (set_bits index pins) = Unit
IsPin c (clear_bits index pins) = Unit
IsPin c (toggle_bits index pins) = Unit

masked_lem :
    (o m v : List Bool) (p : ℕ)
    → p < length o
    → get_or (masked o m v) p false
      ≡ (if get_or m p false then get_or v p false else get_or o p false)
unfolding masked
masked_lem [] m v p h = absurd (omega arith)
masked_lem (o ∷ os) [] v p h = refl
masked_lem (o ∷ os) (m ∷ ms) [] zero h = refl
masked_lem (o ∷ os) (m ∷ ms) [] (suc p) h = masked_lem os ms [] p (omega arith)
masked_lem (o ∷ os) (m ∷ ms) (v ∷ vs) zero h = refl
masked_lem (o ∷ os) (m ∷ ms) (v ∷ vs) (suc p) h = masked_lem os ms vs p (omega arith)

toggled_lem :
    (o ps : List Bool) (p : ℕ)
    → p < length o
    → get_or (toggled o ps) p false ≡ xor (get_or o p false) (get_or ps p false)
unfolding toggled
toggled_lem [] ps p h = absurd (omega arith)
toggled_lem (o ∷ os) [] p h = ground arith
toggled_lem (o ∷ os) (b ∷ bs) zero h = refl
toggled_lem (o ∷ os) (b ∷ bs) (suc p) h = toggled_lem os bs p (omega arith)

pin_configured_lem :
    (o : List Bool) (pin : ℕ) (flags : PinFlags) (p : ℕ)
    → pin < length o
    → get_or (pin_configured o pin flags) p false ≡ (
        if pin == p
        then (if flags.init_high then true else if flags.init_low then false else get_or o p false)
        else get_or o p false)
unfolding pin_configured
pin_configured_lem o pin flags p h =
    ground (arith, get_or-set o pin p true false h, get_or-set o pin p false false h)

same_bits_lem : (a b : List Bool) → same_bits a b ≡ true → a ≡ b
unfolding same_bits
same_bits_lem [] [] h = refl
same_bits_lem [] (b ∷ bs) h = absurd (cc)
same_bits_lem (a ∷ xs) [] h = absurd (cc)
same_bits_lem (true ∷ xs) (true ∷ ys) h = ap (λ zs. true ∷ zs) (same_bits_lem xs ys h)
same_bits_lem (false ∷ xs) (false ∷ ys) h = ap (λ zs. false ∷ zs) (same_bits_lem xs ys h)
same_bits_lem (true ∷ xs) (false ∷ ys) h = absurd (cc)
same_bits_lem (false ∷ xs) (true ∷ ys) h = absurd (cc)

-- A write either fails and keeps the output, or has written the byte.
write_output_lem :
    (c : Chain) (index : ℕ) (output : List Bool)
    → let (ret, c') = write_output c index output in
      ((is_neg ret ≡ true) × (c'.output ≡ c.output))
      ⊎ ((is_neg ret ≡ false) × (c'.output ≡ set c.output index output))
unfolding write_output spi_write_dt restored
write_output_lem c index output = ground (
  arith,
  set-set c.output index output [],
  set-get_or c.output index [],
  same_bits_lem (byte_at c index) output,
)

-- The byte that an operation writes.
byte_of : Chain → PortOp → List Bool
byte_of c (pin_configure index pin flags) = pin_configured (byte_at c index) pin flags
byte_of c (set_masked index mask value) = masked (byte_at c index) mask value
byte_of c (set_bits index pins) = masked (byte_at c index) pins pins
byte_of c (clear_bits index pins) = masked (byte_at c index) pins []
byte_of c (toggle_bits index pins) = toggled (byte_at c index) pins

port_op_lem : (c : Chain) (op : PortOp) → port_op c op ≡ write_output c (index_of op) (byte_of c op)
unfolding byte_of port_op configure port_set_masked_raw port_set_bits_raw port_clear_bits_raw
    port_toggle_bits
port_op_lem c (pin_configure index pin flags) = refl
port_op_lem c (set_masked index mask value) = refl
port_op_lem c (set_bits index pins) = refl
port_op_lem c (clear_bits index pins) = refl
port_op_lem c (toggle_bits index pins) = refl

byte_of_lem :
    (c : Chain) (op : PortOp) (p : ℕ)
    → IsPin c op
    → p < length (byte_at c (index_of op))
    → get_or (byte_of c op) p false ≡ asked op p (get_or (byte_at c (index_of op)) p false)
unfolding byte_of
byte_of_lem c (pin_configure index pin flags) p k h =
    pin_configured_lem (byte_at c index) pin flags p k
byte_of_lem c (set_masked index mask value) p k h = masked_lem (byte_at c index) mask value p h
byte_of_lem c (set_bits index pins) p k h =
    ground (arith, masked_lem (byte_at c index) pins pins p h)
byte_of_lem c (clear_bits index pins) p k h = masked_lem (byte_at c index) pins [] p h
byte_of_lem c (toggle_bits index pins) p k h = toggled_lem (byte_at c index) pins p h

pin_after :
    (out : List (List Bool)) (i j p : ℕ) (byte : List Bool) (f : Bool → Bool)
    → i < length out
    → get_or byte p false ≡ f (get_or (get_or out i []) p false)
    → get_or (get_or (set out i byte) j []) p false
      ≡ (if i == j then f (get_or (get_or out j []) p false) else get_or (get_or out j []) p false)
pin_after out i j p byte f h q =
    rw (get_or-set out i j byte [] h)
      (elim (ℕ_discrete i j) [ yes e ↦ rw⁻¹ e (ground (arith, q)) | no n ↦ ground (arith, n) ])

-- An operation on a port fails with a negative number and keeps every register, or does with each pin of
-- its register what it is asked to and keeps the other registers.
pub port_op-pins :
    (c : Chain) (op : PortOp) (j p : ℕ)
    → index_of op < length c.output
    → IsPin c op
    → p < length (byte_at c (index_of op))
    → let (ret, c') = port_op c op in
      ((is_neg ret ≡ true) × (c'.output ≡ c.output))
      ⊎ ((is_neg ret ≡ false)
          × (get_or (byte_at c' j) p false ≡ (
              if index_of op == j
              then asked op p (get_or (byte_at c j) p false)
              else get_or (byte_at c j) p false)))
port_op-pins c op j p h k l =
    rw (port_op_lem c op) (elim (write_output_lem c (index_of op) (byte_of c op)) [
      | inl f ↦ inl f
      | inr (ok, e) ↦ inr (
        ok,
        rw e (
            pin_after c.output (index_of op) j p (byte_of c op) (asked op p) h
              (byte_of_lem c op p k l)),
      )
    ])
