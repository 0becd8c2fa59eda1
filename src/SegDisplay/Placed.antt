-- ===== src/SegDisplay/Placed.antt =====
-- drivers/auxdisplay/gpio-seg-display/gpio_seg_display.c: what `gpio_seg_display_init` has placed.
use nturt_zephyr_common.Base.{
  ℕ, ◌≡◌, refl, ap, ap₂, sym, ◌∙◌, true, false, List, [], ◌∷◌, ◌++◌, map, All,
}
use nturt_zephyr_common.SegDisplay.{Spec, Entry, Seg}
use nturt_zephyr_common.SegDisplay.Slots.{
  slot, is_new, insert, insert_all, insert_rows, segs, seg_rows,
}
use nturt_zephyr_common.SegDisplay.Lookup.{
  mask_at, IsDistinct, mask_at-insert_self, mask_at-insert, is_new-insert_self, slot-insert_self,
  slot-insert, insert-IsDistinct,
}

-- The segment of a pin, by the final map.
abbrev pub seg_in : List Entry → Spec → Seg
seg_in es spec = record { index = slot es spec.port; pin = spec.pin }

-- The pin has an entry, and its bit is in the mask.
abbrev pub IsPlaced : List Entry → Spec → Type 0
IsPlaced es spec = (is_new es spec.port ≡ false) × (mask_at es spec.port spec.pin ≡ true)

insert_all-slot :
    (es : List Entry) (specs : List Spec) (port : ℕ)
    → is_new es port ≡ false
    → (is_new (insert_all es specs) port ≡ false) × (slot (insert_all es specs) port ≡ slot es port)
insert_all-slot es [] port h = (h, refl)
insert_all-slot es (s ∷ specs) port h =
    let (n, e) = slot-insert es s port h in
    let (n', e') = insert_all-slot (insert es s) specs port n in (n', e' ∙ e)

insert_all-mask :
    (es : List Entry) (specs : List Spec) (port pin : ℕ)
    → mask_at es port pin ≡ true
    → mask_at (insert_all es specs) port pin ≡ true
insert_all-mask es [] port pin h = h
insert_all-mask es (s ∷ specs) port pin h =
    insert_all-mask (insert es s) specs port pin (mask_at-insert es s port pin h)

insert_all-IsDistinct :
    (es : List Entry) (specs : List Spec) → IsDistinct es → IsDistinct (insert_all es specs)
insert_all-IsDistinct es [] h = h
insert_all-IsDistinct es (s ∷ specs) h =
    insert_all-IsDistinct (insert es s) specs (insert-IsDistinct es s h)

insert_all-IsPlaced :
    (es : List Entry) (specs : List Spec) (spec : Spec)
    → IsPlaced es spec
    → IsPlaced (insert_all es specs) spec
insert_all-IsPlaced es specs spec h =
    ((insert_all-slot es specs spec.port h.0).0, insert_all-mask es specs spec.port spec.pin h.1)

insert-IsPlaced : (es : List Entry) (spec : Spec) → IsPlaced (insert es spec) spec
insert-IsPlaced es spec = (is_new-insert_self es spec, mask_at-insert_self es spec)

-- The rows of pins, one after the other.
abbrev pub flat : List (List Spec) → List Spec
flat [] = []
flat (row ∷ rows) = row ++ flat rows

insert_all-append :
    (es : List Entry) (xs ys : List Spec)
    → insert_all es (xs ++ ys) ≡ insert_all (insert_all es xs) ys
insert_all-append es [] ys = refl
insert_all-append es (x ∷ xs) ys = insert_all-append (insert es x) xs ys

insert_rows-flat :
    (es : List Entry) (rows : List (List Spec)) → insert_rows es rows ≡ insert_all es (flat rows)
insert_rows-flat es [] = refl
insert_rows-flat es (row ∷ rows) =
    insert_rows-flat (insert_all es row) rows ∙ sym (insert_all-append es row (flat rows))

all-IsPlaced : (es : List Entry) (specs : List Spec) → All (IsPlaced (insert_all es specs)) specs
all-IsPlaced es [] = tt
all-IsPlaced es (s ∷ specs) = (
  insert_all-IsPlaced (insert es s) specs s (insert-IsPlaced es s),
  all-IsPlaced (insert es s) specs,
)

-- The segments, by any later map.
segs-later :
    (es : List Entry) (specs later : List Spec)
    → segs es specs ≡ map (seg_in (insert_all (insert_all es specs) later)) specs
segs-later es [] later = refl
segs-later es (s ∷ specs) later =
    let first : slot es s.port ≡ slot (insert_all (insert_all (insert es s) specs) later) s.port =
      sym (
        (insert_all-slot (insert_all (insert es s) specs) later s.port
          (insert_all-slot (insert es s) specs s.port (is_new-insert_self es s)).0).1
        ∙ (insert_all-slot (insert es s) specs s.port (is_new-insert_self es s)).1
        ∙ slot-insert_self es s) in
    ap₂ (λ i rest. record { index = i; pin = s.pin } ∷ rest) first
      (segs-later (insert es s) specs later)

pub seg_rows_lem :
    (es : List Entry) (rows : List (List Spec))
    → seg_rows es rows ≡ map (map (seg_in (insert_rows es rows))) rows
seg_rows_lem es [] = refl
seg_rows_lem es (row ∷ rows) =
    ap₂ (λ x xs. x ∷ xs)
      (segs-later es row (flat rows)
        ∙ ap (λ f. map (seg_in f) row) (sym (insert_rows-flat (insert_all es row) rows)))
      (seg_rows_lem (insert_all es row) rows)

-- From an empty map on, each port has one entry, and each pin is in the mask of its port's.
pub insert_rows-IsDistinct : (rows : List (List Spec)) → IsDistinct (insert_rows [] rows)
insert_rows-IsDistinct rows =
    rw (insert_rows-flat [] rows) (insert_all-IsDistinct [] (flat rows) tt)

pub insert_rows-IsPlaced :
    (rows : List (List Spec)) → All (IsPlaced (insert_rows [] rows)) (flat rows)
insert_rows-IsPlaced rows = rw (insert_rows-flat [] rows) (all-IsPlaced [] (flat rows))
