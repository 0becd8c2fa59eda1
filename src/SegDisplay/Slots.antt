-- ===== src/SegDisplay/Slots.antt =====
-- drivers/auxdisplay/gpio-seg-display/gpio_seg_display.c: how `gpio_seg_display_init` fills `gpio_map`.
use nturt_zephyr_common.Base.{
  ℕ, zero, suc, ◌+◌, ◌-◌, ◌≤◌, ◌<◌, ◌≡◌, refl, ap, ap₂, sym, ◌∙◌, inl, inr, Bool, Bool-cases, true,
  false, some, List, [], ◌∷◌, ◌++◌, arith, ◌==◌, if◌then◌else◌, get_or, set, take, length, All,
}
use nturt_zephyr_common.Base.Int.{is_neg}
use nturt_zephyr_common.SegDisplay.{Spec, Entry, Seg, Hardware, put, blank}
use nturt_zephyr_common.SegDisplay.Setup.{
  Build, done, and_then, has_port, find_slot, enter, place, init_gpio, init_row, init_rows,
}

-- Entries that are not in use.
abbrev pub unused : ℕ → List Entry
unused zero = []
unused (suc n) = blank ∷ unused n

-- The entry of a port, or the next free one.
abbrev pub slot : List Entry → ℕ → ℕ
slot [] port = 0
slot (e ∷ es) port = if has_port e port then 0 else suc (slot es port)

abbrev pub is_new : List Entry → ℕ → Bool
is_new [] port = true
is_new (e ∷ es) port = if has_port e port then false else is_new es port

abbrev pub with_pin : Entry → ℕ → Entry
with_pin e pin = record e { mask = put e.mask pin true }

abbrev pub first_of : Spec → Entry
first_of spec = with_pin (record blank { gpio_port = some spec.port }) spec.pin

-- The pin goes to the entry of its port, or to a new one.
abbrev pub insert : List Entry → Spec → List Entry
insert [] spec = first_of spec ∷ []
insert (e ∷ es) spec = if has_port e spec.port then with_pin e spec.pin ∷ es else e ∷ insert es spec

-- Each pin in turn.
abbrev pub insert_all : List Entry → List Spec → List Entry
insert_all es [] = es
insert_all es (spec ∷ specs) = insert_all (insert es spec) specs

-- `gpio_map` with `n` entries, of which these are in use.
abbrev pub built : ℕ → List Entry → Build
built n es = record { gpio_map = es ++ unused (n - length es); gpio_map_index = length es }

find_slot_lem :
    (es : List Entry) (m k port : ℕ)
    → (is_new es port ≡ true → 0 < m)
    → find_slot (es ++ unused m) k (k + length es) port ≡ done (k + slot es port, is_new es port)
unfolding find_slot
find_slot_lem [] zero k port room = absurd (omega (arith, room refl))
find_slot_lem [] (suc m) k port room = ground arith
find_slot_lem (e ∷ es) m k port room = elim (Bool-cases (has_port e port)) [
  | inl here ↦ rw here (ap (λ n. done (n, false)) (omega arith))
  | inr other ↦
      let later : (k == k + suc (length es)) ≡ false = ground arith in
      let len : k + suc (length es) ≡ suc k + length es = omega arith in
      let next : suc k + slot es port ≡ k + suc (slot es port) = omega arith in
      rw (other, later, len)
        (find_slot_lem es m (suc k) port (rw other at room)
          ∙ ap (λ n. done (n, is_new es port)) next)
]

find_slot_first :
    (es : List Entry) (m port : ℕ)
    → (is_new es port ≡ true → 0 < m)
    → find_slot (es ++ unused m) 0 (length es) port ≡ done (slot es port, is_new es port)
find_slot_first es m port room =
    ap (λ i. find_slot (es ++ unused m) 0 i port) {y = 0 + length es} (omega arith)
    ∙ find_slot_lem es m 0 port room
    ∙ ap (λ k. done (k, is_new es port)) (omega arith)

-- What `enter` does to `gpio_map`.
abbrev touched : List Entry → ℕ → Bool → Spec → List Entry
touched map k new spec =
    let e = get_or map k blank in
    let e' = if new then record e { gpio_port = some spec.port } else e in
    set map k (with_pin e' spec.pin)

touched_lem :
    (es : List Entry) (m : ℕ) (spec : Spec)
    → (is_new es spec.port ≡ true → 0 < m)
    → touched (es ++ unused m) (slot es spec.port) (is_new es spec.port) spec
      ≡ insert es spec ++ unused (if is_new es spec.port then m - 1 else m)
touched_lem [] zero spec room = absurd (omega (arith, room refl))
touched_lem [] (suc m) spec room = ap (λ n. first_of spec ∷ unused n) (omega arith)
touched_lem (e ∷ es) m spec room = elim (Bool-cases (has_port e spec.port)) [
  | inl here ↦ rw here refl
  | inr other ↦ rw other (ap (λ es. e ∷ es) (touched_lem es m spec (rw other at room)))
]

length-insert :
    (es : List Entry) (spec : Spec)
    → length (insert es spec) ≡ (if is_new es spec.port then suc (length es) else length es)
length-insert [] spec = refl
length-insert (e ∷ es) spec = elim (Bool-cases (has_port e spec.port)) [
  | inl here ↦ rw here refl
  | inr other ↦ rw other (ap suc (length-insert es spec) ∙ either (is_new es spec.port))
]
  where
    either :
        (b : Bool)
        → suc (if b then suc (length es) else length es)
          ≡ (if b then suc (suc (length es)) else suc (length es))
    either true = refl
    either false = refl

enter_lem :
    (n : ℕ) (es : List Entry) (spec : Spec)
    → length (insert es spec) ≤ n
    → enter (built n es) spec (slot es spec.port, is_new es spec.port)
      ≡ (built n (insert es spec), record { index = slot es spec.port; pin = spec.pin })
unfolding enter
enter_lem n es spec l =
    ap₂
      (λ map i. (
        record { gpio_map = map; gpio_map_index = i },
        record { index = slot es spec.port; pin = spec.pin },
      ))
      (touched_lem es (n - length es) spec
          (λ new. room (is_new es spec.port) new (length-insert es spec))
        ∙ ap (λ m. insert es spec ++ unused m) (left (is_new es spec.port) (length-insert es spec)))
      (sym (length-insert es spec))
  where
    room :
        (b : Bool)
        → b ≡ true
        → length (insert es spec) ≡ (if b then suc (length es) else length es)
        → 0 < n - length es
    room b new len = ground (arith, l)

    left :
        (b : Bool)
        → length (insert es spec) ≡ (if b then suc (length es) else length es)
        → (if b then n - length es - 1 else n - length es) ≡ n - length (insert es spec)
    left b len = ground arith

place_lem :
    (n : ℕ) (es : List Entry) (spec : Spec)
    → length (insert es spec) ≤ n
    → place (built n es) spec
      ≡ done (built n (insert es spec), record { index = slot es spec.port; pin = spec.pin })
unfolding place
place_lem n es spec l =
    ap (λ s. and_then s (λ slot. done (enter (built n es) spec slot)))
      (find_slot_first es (n - length es) spec.port
        (λ new. room (is_new es spec.port) new (length-insert es spec)))
    ∙ ap done (enter_lem n es spec l)
  where
    room :
        (b : Bool)
        → b ≡ true
        → length (insert es spec) ≡ (if b then suc (length es) else length es)
        → 0 < n - length es
    room b new len = ground (arith, l)

-- The segments that the loops make.
abbrev pub segs : List Entry → List Spec → List Seg
segs es [] = []
segs es (spec ∷ specs) =
    record { index = slot es spec.port; pin = spec.pin } ∷ segs (insert es spec) specs

abbrev pub seg_rows : List Entry → List (List Spec) → List (List Seg)
seg_rows es [] = []
seg_rows es (row ∷ rows) = segs es row ∷ seg_rows (insert_all es row) rows

abbrev pub insert_rows : List Entry → List (List Spec) → List Entry
insert_rows es [] = es
insert_rows es (row ∷ rows) = insert_rows (insert_all es row) rows

pub length-insert_all :
    (es : List Entry) (specs : List Spec) → length es ≤ length (insert_all es specs)
length-insert_all es [] = omega arith
length-insert_all es (spec ∷ specs) =
    ground (arith, length-insert_all (insert es spec) specs, length-insert es spec)

length-insert_rows :
    (es : List Entry) (rows : List (List Spec)) → length es ≤ length (insert_rows es rows)
length-insert_rows es [] = omega arith
length-insert_rows es (row ∷ rows) =
    omega (arith, length-insert_rows (insert_all es row) rows, length-insert_all es row)

-- A pin that is ready and can be configured.
abbrev pub IsUsable : Hardware → Spec → Type 0
IsUsable hw spec = (hw.is_ready spec ≡ true) × (is_neg (hw.configured spec) ≡ false)

module _ (hw : Hardware) (n : ℕ) where
  pub init_row_lem :
      (es : List Entry) (specs : List Spec)
      → All (IsUsable hw) specs
      → length (insert_all es specs) ≤ n
      → init_row hw (built n es) specs ≡ done (built n (insert_all es specs), segs es specs)
  unfolding init_row init_gpio
  init_row_lem es [] h l = refl
  init_row_lem es (spec ∷ specs) h l =
      let fits : length (insert es spec) ≤ n =
        omega (arith, length-insert_all (insert es spec) specs, l) in
      rw (h.0.0, h.0.1, place_lem n es spec fits, init_row_lem (insert es spec) specs h.1 l) refl

  -- With room for the ports, `init` fills the map in the order of the pins.
  pub init_rows_lem :
      (es : List Entry) (k : ℕ) (rows : List (List Spec))
      → All (λ row. All (IsUsable hw) row × (take k row ≡ row)) rows
      → length (insert_rows es rows) ≤ n
      → init_rows hw (built n es) k rows ≡ done (built n (insert_rows es rows), seg_rows es rows)
  unfolding init_rows
  init_rows_lem es k [] h l = refl
  init_rows_lem es k (row ∷ rows) h l =
      let fits : length (insert_all es row) ≤ n =
        omega (arith, length-insert_rows (insert_all es row) rows, l) in
      rw (h.0.1, init_row_lem es row h.0.0 fits, init_rows_lem (insert_all es row) k rows h.1 l)
        refl
