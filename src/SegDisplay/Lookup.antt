-- ===== src/SegDisplay/Lookup.antt =====
-- drivers/auxdisplay/gpio-seg-display/gpio_seg_display.c: the entries of `gpio_map` by port and pin.
use nturt_zephyr_common.Base.{
  ℕ, ◌≡◌, refl, inl, inr, Bool, Bool-cases, true, false, some, List, [], ◌∷◌, arith, ◌==◌,
  if◌then◌else◌, All,
}
use nturt_zephyr_common.SegDisplay.{Spec, Entry, put}
use nturt_zephyr_common.SegDisplay.Setup.{has_port}
use nturt_zephyr_common.SegDisplay.Slots.{slot, is_new, insert}

-- The bit of a pin in the mask or in the value of its port's entry.
abbrev pub mask_at : List Entry → ℕ → ℕ → Bool
mask_at [] port pin = false
mask_at (e ∷ es) port pin = if has_port e port then e.mask pin else mask_at es port pin

abbrev pub value_at : List Entry → ℕ → ℕ → Bool
value_at [] port pin = false
value_at (e ∷ es) port pin = if has_port e port then e.value pin else value_at es port pin

-- The value of a pin becomes `b`.
abbrev pub assign_at : List Entry → ℕ → ℕ → Bool → List Entry
assign_at [] port pin b = []
assign_at (e ∷ es) port pin b =
    if has_port e port
    then record e { value = put e.value pin b } ∷ es
    else e ∷ assign_at es port pin b

-- Each entry has a port of its own.
abbrev pub AllOther : ℕ → List Entry → Type 0
AllOther port es = All (λ e. has_port e port ≡ false) es

abbrev pub IsDistinct : List Entry → Type 0
IsDistinct [] = Unit
IsDistinct (e ∷ es) = ((port : ℕ) × (e.gpio_port ≡ some port) × AllOther port es) × IsDistinct es

pub mask_at-insert_self :
    (es : List Entry) (spec : Spec) → mask_at (insert es spec) spec.port spec.pin ≡ true
mask_at-insert_self [] spec = ground arith
mask_at-insert_self (e ∷ es) spec = elim (Bool-cases (has_port e spec.port)) [
  | inl here ↦ ground (arith, here)
  | inr other ↦ ground (arith, other, mask_at-insert_self es spec)
]

pub mask_at-insert :
    (es : List Entry) (spec : Spec) (port pin : ℕ)
    → mask_at es port pin ≡ true
    → mask_at (insert es spec) port pin ≡ true
mask_at-insert [] spec port pin h = absurd (cc)
mask_at-insert (e ∷ es) spec port pin h = elim (Bool-cases (has_port e spec.port)) [
  | inl here ↦ ground (arith, here, h)
  | inr other ↦ ground (arith, other, h, mask_at-insert es spec port pin)
]

pub is_new-insert_self : (es : List Entry) (spec : Spec) → is_new (insert es spec) spec.port ≡ false
is_new-insert_self [] spec = ground arith
is_new-insert_self (e ∷ es) spec = elim (Bool-cases (has_port e spec.port)) [
  | inl here ↦ ground (arith, here)
  | inr other ↦ ground (arith, other, is_new-insert_self es spec)
]

pub slot-insert_self :
    (es : List Entry) (spec : Spec) → slot (insert es spec) spec.port ≡ slot es spec.port
slot-insert_self [] spec = ground arith
slot-insert_self (e ∷ es) spec = elim (Bool-cases (has_port e spec.port)) [
  | inl here ↦ ground (arith, here)
  | inr other ↦ ground (arith, other, slot-insert_self es spec)
]

-- The entries that there are keep their places.
pub slot-insert :
    (es : List Entry) (spec : Spec) (port : ℕ)
    → is_new es port ≡ false
    → (is_new (insert es spec) port ≡ false) × (slot (insert es spec) port ≡ slot es port)
slot-insert [] spec port h = absurd (cc)
slot-insert (e ∷ es) spec port h = elim (Bool-cases (has_port e spec.port)) [
  | inl here ↦ ground (arith, here, h)
  | inr other ↦ ground (arith, other, h, slot-insert es spec port)
]

insert-AllOther :
    (es : List Entry) (spec : Spec) (port : ℕ)
    → (spec.port == port) ≡ false
    → AllOther port es
    → AllOther port (insert es spec)
insert-AllOther [] spec port n h = (n, tt)
insert-AllOther (e ∷ es) spec port n h = elim (Bool-cases (has_port e spec.port)) [
  | inl here ↦ rw here (h.0, h.1)
  | inr other ↦ rw other (h.0, insert-AllOther es spec port n h.1)
]

pub insert-IsDistinct :
    (es : List Entry) (spec : Spec) → IsDistinct es → IsDistinct (insert es spec)
insert-IsDistinct [] spec h = ((spec.port, refl, tt), tt)
insert-IsDistinct (e ∷ es) spec h = elim (Bool-cases (has_port e spec.port)) [
  | inl here ↦ rw here ((h.0.0, h.0.1, h.0.2), h.1)
  | inr other ↦ rw other (
    (h.0.0, h.0.1, insert-AllOther es spec h.0.0 (ground (arith, other, h.0.1)) h.0.2),
    insert-IsDistinct es spec h.1,
  )
]
