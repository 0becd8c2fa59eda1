-- ===== src/SegDisplay/Drive.antt =====
-- drivers/auxdisplay/gpio-seg-display/gpio_seg_display.c: the loops of `gpio_seg_display_write` over the
-- segments set the value of each pin.
use nturt_zephyr_common.Base.{
  ℕ, suc, ◌≡◌, refl, ap, inl, inr, Bool, Bool-cases, false, ◌&&◌, List, [], ◌∷◌, ◌++◌, arith, ◌==◌,
  if◌then◌else◌, get_or,
}
use nturt_zephyr_common.SegDisplay.Glyphs.{Glyph}
use nturt_zephyr_common.SegDisplay.{Spec, Entry, assign}
use nturt_zephyr_common.SegDisplay.Setup.{has_port}
use nturt_zephyr_common.SegDisplay.Slots.{slot, is_new}
use nturt_zephyr_common.SegDisplay.Lookup.{mask_at, value_at, assign_at, AllOther, IsDistinct}
use nturt_zephyr_common.SegDisplay.Placed.{seg_in}

-- What each pin is to be: the bits of a digit, from segment `j` on, and of all digits.
abbrev pub wanted_row : ℕ → List Spec → Glyph → List (Spec × Bool)
wanted_row j [] g = []
wanted_row j (spec ∷ specs) g = (spec, get_or g j false) ∷ wanted_row (suc j) specs g

abbrev pub wanted : List (List Spec) → List Glyph → List (Spec × Bool)
wanted [] val = []
wanted (row ∷ rows) [] = []
wanted (row ∷ rows) (g ∷ gs) = wanted_row 0 row g ++ wanted rows gs

abbrev pub assign_all : List Entry → List (Spec × Bool) → List Entry
assign_all es [] = es
assign_all es ((spec, b) ∷ ts) = assign_all (assign_at es spec.port spec.pin b) ts

pub assign_lem :
    (es u : List Entry) (spec : Spec) (b : Bool)
    → is_new es spec.port ≡ false
    → assign (es ++ u) (seg_in es spec) b ≡ assign_at es spec.port spec.pin b ++ u
unfolding assign
assign_lem [] u spec b h = absurd (cc)
assign_lem (e ∷ es) u spec b h = elim (Bool-cases (has_port e spec.port)) [
  | inl here ↦ rw here refl
  | inr other ↦ rw other (ap (λ es. e ∷ es) (assign_lem es u spec b (rw other at h)))
]

pub slot-assign_at :
    (es : List Entry) (p q : ℕ) (b : Bool) (port : ℕ)
    → slot (assign_at es p q b) port ≡ slot es port
slot-assign_at [] p q b port = refl
slot-assign_at (e ∷ es) p q b port = ground (arith, slot-assign_at es p q b port)

pub is_new-assign_at :
    (es : List Entry) (p q : ℕ) (b : Bool) (port : ℕ)
    → is_new (assign_at es p q b) port ≡ is_new es port
is_new-assign_at [] p q b port = refl
is_new-assign_at (e ∷ es) p q b port = ground (arith, is_new-assign_at es p q b port)

pub mask_at-assign_at :
    (es : List Entry) (p q : ℕ) (b : Bool) (port pin : ℕ)
    → mask_at (assign_at es p q b) port pin ≡ mask_at es port pin
mask_at-assign_at [] p q b port pin = refl
mask_at-assign_at (e ∷ es) p q b port pin = ground (arith, mask_at-assign_at es p q b port pin)

pub value_at-assign_at :
    (es : List Entry) (p q : ℕ) (b : Bool) (port pin : ℕ)
    → is_new es p ≡ false
    → value_at (assign_at es p q b) port pin
      ≡ (if (p == port) && (q == pin) then b else value_at es port pin)
value_at-assign_at [] p q b port pin h = absurd (cc)
value_at-assign_at (e ∷ es) p q b port pin h =
    ground (arith, h, value_at-assign_at es p q b port pin)

assign_at-AllOther :
    (es : List Entry) (p q : ℕ) (b : Bool) (port : ℕ)
    → AllOther port es
    → AllOther port (assign_at es p q b)
assign_at-AllOther [] p q b port h = tt
assign_at-AllOther (e ∷ es) p q b port h = elim (Bool-cases (has_port e p)) [
  | inl here ↦ rw here (h.0, h.1)
  | inr other ↦ rw other (h.0, assign_at-AllOther es p q b port h.1)
]

pub assign_at-IsDistinct :
    (es : List Entry) (p q : ℕ) (b : Bool) → IsDistinct es → IsDistinct (assign_at es p q b)
assign_at-IsDistinct [] p q b h = tt
assign_at-IsDistinct (e ∷ es) p q b h = elim (Bool-cases (has_port e p)) [
  | inl here ↦ rw here ((h.0.0, h.0.1, h.0.2), h.1)
  | inr other ↦
      rw other
        ((h.0.0, h.0.1, assign_at-AllOther es p q b h.0.0 h.0.2), assign_at-IsDistinct es p q b h.1)
]
