-- ===== src/SegDisplay/Values.antt =====
-- drivers/auxdisplay/gpio-seg-display/gpio_seg_display.c: after the loops over the segments each pin has
-- the value of its segment.
use mathlib.Core.List.{map-append}
use nturt_zephyr_common.Base.{
  ℕ, suc, ◌≡◌, refl, ap, ap₂, sym, ◌∙◌, Bool, true, false, not, ◌&&◌, List, [], ◌∷◌, ◌++◌, map,
  arith, ◌==◌, if◌then◌else◌, get_or, All, length,
}
use nturt_zephyr_common.SegDisplay.Glyphs.{Glyph}
use nturt_zephyr_common.SegDisplay.{Spec, Entry, assign, drive_row, drive}
use nturt_zephyr_common.SegDisplay.Slots.{slot}
use nturt_zephyr_common.SegDisplay.Lookup.{mask_at, value_at, assign_at, IsDistinct}
use nturt_zephyr_common.SegDisplay.Placed.{seg_in, IsPlaced, flat}
use nturt_zephyr_common.SegDisplay.Drive.{
  wanted_row, wanted, assign_all, assign_lem, slot-assign_at, is_new-assign_at, mask_at-assign_at,
  value_at-assign_at, assign_at-IsDistinct,
}

pub All-append {κ} :
    {A : Type 0} (P : A → Type κ) (xs ys : List A) → All P (xs ++ ys) → All P xs × All P ys
All-append P [] ys h = (tt, h)
All-append P (x ∷ xs) ys h = let (l, r) = All-append P xs ys h.1 in ((h.0, l), r)

pub All-map {κ} :
    {A : Type 0} (P Q : A → Type κ) (f : (a : A) → P a → Q a) (xs : List A) → All P xs → All Q xs
All-map P Q f [] h = tt
All-map P Q f (x ∷ xs) h = (f x h.0, All-map P Q f xs h.1)

-- Two pins are the same.
abbrev pub same_pin : Spec → Spec → Bool
same_pin s t = s.port == t.port && s.pin == t.pin

abbrev pub differs_from : Spec → List Spec → Bool
differs_from s [] = true
differs_from s (t ∷ ts) = not (same_pin s t) && differs_from s ts

-- No pin stands twice in the list.
abbrev pub all_different : List Spec → Bool
all_different [] = true
all_different (s ∷ ss) = differs_from s ss && all_different ss

-- The pins have entries.
abbrev pub AllPlaced : List Entry → List Spec → Type 0
AllPlaced es specs = All (IsPlaced es) specs

AllPlaced-assign_at :
    (es : List Entry) (p q : ℕ) (b : Bool) (specs : List Spec)
    → AllPlaced es specs
    → AllPlaced (assign_at es p q b) specs
AllPlaced-assign_at es p q b specs h =
    All-map (IsPlaced es) (IsPlaced (assign_at es p q b))
      (λ s h.
        (is_new-assign_at es p q b s.port ∙ h.0, mask_at-assign_at es p q b s.port s.pin ∙ h.1))
      specs h

pub slot-assign_all :
    (es : List Entry) (ts : List (Spec × Bool)) (port : ℕ)
    → slot (assign_all es ts) port ≡ slot es port
slot-assign_all es [] port = refl
slot-assign_all es ((spec, b) ∷ ts) port =
    slot-assign_all (assign_at es spec.port spec.pin b) ts port
    ∙ slot-assign_at es spec.port spec.pin b port

pub assign_all-append :
    (es : List Entry) (xs ys : List (Spec × Bool))
    → assign_all es (xs ++ ys) ≡ assign_all (assign_all es xs) ys
assign_all-append es [] ys = refl
assign_all-append es ((spec, b) ∷ xs) ys =
    assign_all-append (assign_at es spec.port spec.pin b) xs ys

pub AllPlaced-assign_all :
    (es : List Entry) (ts : List (Spec × Bool)) (specs : List Spec)
    → AllPlaced es specs
    → AllPlaced (assign_all es ts) specs
AllPlaced-assign_all es [] specs h = h
AllPlaced-assign_all es ((spec, b) ∷ ts) specs h =
    AllPlaced-assign_all (assign_at es spec.port spec.pin b) ts specs
      (AllPlaced-assign_at es spec.port spec.pin b specs h)

module _ (f u : List Entry) where
  drive_row_lem :
      (es : List Entry) (j : ℕ) (row : List Spec) (g : Glyph)
      → AllPlaced es row
      → ((port : ℕ) → slot es port ≡ slot f port)
      → drive_row (es ++ u) j (map (seg_in f) row) g ≡ assign_all es (wanted_row j row g) ++ u
  unfolding drive_row
  drive_row_lem es j [] g h same = refl
  drive_row_lem es j (spec ∷ specs) g h same =
      ap (λ m. drive_row m (suc j) (map (seg_in f) specs) g)
        (ap (λ i. assign (es ++ u) (record { index = i; pin = spec.pin }) (get_or g j false))
            (sym (same spec.port))
          ∙ assign_lem es u spec (get_or g j false) h.0.0)
      ∙ drive_row_lem (assign_at es spec.port spec.pin (get_or g j false)) (suc j) specs g
          (AllPlaced-assign_at es spec.port spec.pin (get_or g j false) specs h.1)
          (λ port. slot-assign_at es spec.port spec.pin (get_or g j false) port ∙ same port)

  pub drive_lem :
      (es : List Entry) (rows : List (List Spec)) (val : List Glyph)
      → AllPlaced es (flat rows)
      → ((port : ℕ) → slot es port ≡ slot f port)
      → drive (es ++ u) (map (map (seg_in f)) rows) val ≡ assign_all es (wanted rows val) ++ u
  unfolding drive
  drive_lem es [] val h same = refl
  drive_lem es (row ∷ rows) [] h same = refl
  drive_lem es (row ∷ rows) (g ∷ gs) h same =
      let (here, later) = All-append (IsPlaced es) row (flat rows) h in
      ap (λ m. drive m (map (map (seg_in f)) rows) gs) (drive_row_lem es 0 row g here same)
      ∙ drive_lem (assign_all es (wanted_row 0 row g)) rows gs
          (AllPlaced-assign_all es (wanted_row 0 row g) (flat rows) later)
          (λ port. slot-assign_all es (wanted_row 0 row g) port ∙ same port)
      ∙ ap (λ m. m ++ u) (sym (assign_all-append es (wanted_row 0 row g) (wanted rows gs)))

pub and_both : (a b : Bool) → (a && b) ≡ true → (a ≡ true) × (b ≡ true)
and_both a b h = ground arith

pub not_and_both : (a b : Bool) → (not a && b) ≡ true → (a ≡ false) × (b ≡ true)
not_and_both a b h = ground arith

untouched :
    (es : List Entry) (spec : Spec) (ts : List (Spec × Bool))
    → differs_from spec (map (λ t. t.0) ts) ≡ true
    → AllPlaced es (map (λ t. t.0) ts)
    → value_at (assign_all es ts) spec.port spec.pin ≡ value_at es spec.port spec.pin
untouched es spec [] d h = refl
untouched es spec ((t, b) ∷ ts) d h =
    let (other, rest) = not_and_both (same_pin spec t) (differs_from spec (map (λ t. t.0) ts)) d in
    untouched (assign_at es t.port t.pin b) spec ts rest
      (AllPlaced-assign_at es t.port t.pin b (map (λ t. t.0) ts) h.1)
    ∙ value_at-assign_at es t.port t.pin b spec.port spec.pin h.0.0
    ∙ apart other
  where
    apart :
        same_pin spec t ≡ false
        → (if (t.port == spec.port) && (t.pin == spec.pin)
            then b
            else value_at es spec.port spec.pin)
          ≡ value_at es spec.port spec.pin
    apart o = ground arith

-- Each pin gets its bit, if no pin is wanted twice.
pub assign_all_lem :
    (es : List Entry) (ts : List (Spec × Bool))
    → all_different (map (λ t. t.0) ts) ≡ true
    → AllPlaced es (map (λ t. t.0) ts)
    → All (λ t. value_at (assign_all es ts) t.0.port t.0.pin ≡ t.1) ts
assign_all_lem es [] d h = tt
assign_all_lem es ((s, b) ∷ ts) d h =
    let (alone, rest) =
      and_both (differs_from s (map (λ t. t.0) ts)) (all_different (map (λ t. t.0) ts)) d in
    let later : AllPlaced (assign_at es s.port s.pin b) (map (λ t. t.0) ts) =
      AllPlaced-assign_at es s.port s.pin b (map (λ t. t.0) ts) h.1 in
    (
      untouched (assign_at es s.port s.pin b) s ts alone later
          ∙ value_at-assign_at es s.port s.pin b s.port s.pin h.0.0
          ∙ itself s.port s.pin (value_at es s.port s.pin),
      assign_all_lem (assign_at es s.port s.pin b) ts rest later,
    )
  where
    itself : (p q : ℕ) (v : Bool) → (if (p == p) && (q == q) then b else v) ≡ b
    itself p q v = ground arith

wanted_row-pins : (j : ℕ) (row : List Spec) (g : Glyph) → map (λ t. t.0) (wanted_row j row g) ≡ row
wanted_row-pins j [] g = refl
wanted_row-pins j (s ∷ row) g = ap (λ ss. s ∷ ss) (wanted_row-pins (suc j) row g)

pub wanted-pins :
    (rows : List (List Spec)) (val : List Glyph)
    → length val ≡ length rows
    → map (λ t. t.0) (wanted rows val) ≡ flat rows
wanted-pins [] val e = refl
wanted-pins (row ∷ rows) [] e = absurd (omega (arith, e))
wanted-pins (row ∷ rows) (g ∷ gs) e =
    map-append (λ t. t.0) (wanted_row 0 row g) (wanted rows gs)
    ∙ ap₂ (λ xs ys. xs ++ ys) (wanted_row-pins 0 row g) (wanted-pins rows gs (omega (arith, e)))

pub mask_at-assign_all :
    (es : List Entry) (ts : List (Spec × Bool)) (port pin : ℕ)
    → mask_at (assign_all es ts) port pin ≡ mask_at es port pin
mask_at-assign_all es [] port pin = refl
mask_at-assign_all es ((s, b) ∷ ts) port pin =
    mask_at-assign_all (assign_at es s.port s.pin b) ts port pin
    ∙ mask_at-assign_at es s.port s.pin b port pin

pub assign_all-IsDistinct :
    (es : List Entry) (ts : List (Spec × Bool)) → IsDistinct es → IsDistinct (assign_all es ts)
assign_all-IsDistinct es [] h = h
assign_all-IsDistinct es ((s, b) ∷ ts) h =
    assign_all-IsDistinct (assign_at es s.port s.pin b) ts
      (assign_at-IsDistinct es s.port s.pin b h)
