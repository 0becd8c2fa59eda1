-- ===== src/SegDisplay/Render.antt =====
-- drivers/auxdisplay/gpio-seg-display/gpio_seg_display.c: the loop of `gpio_seg_display_write` renders
-- the digits of the text.
use mathlib.Core.List.{append_assoc}
use nturt_zephyr_common.Base.{
  ℕ, zero, suc, ◌+◌, ◌<◌, ◌≡◌, refl, ap, sym, ◌∙◌, inl, inr, Bool, true, false, some, List, [], ◌∷◌,
  ◌++◌, arith, ltb, if◌then◌else◌, length, length-append, All, get_or-append-length,
  set-append-length, set-same,
}
use nturt_zephyr_common.SegDisplay.Glyphs.{Glyph, glyph, char_off}
use nturt_zephyr_common.SegDisplay.{
  Config, num_disp, go, Round, store, add_dot, round, shown, after, render_from, cleared, render,
}
use nturt_zephyr_common.SegDisplay.Text.{
  dotted, starts_with_dot, cell, cells, text_cells, fill, is_supported, is_end, fill-nil,
  glyph_char, supported-cases, round-dot, round-first_dot, round-glyph, round-full,
}

render_from-round :
    (c : Config) (i chr k : ℕ) (chrs : List ℕ) (val : List Glyph) {r : Round}
    → round c i chr k val ≡ r
    → render_from c i (chr ∷ chrs) k val ≡ after r val (render_from c (suc i) chrs)
unfolding render_from
render_from-round c i chr k chrs val h = ap (λ r. after r val (render_from c (suc i) chrs)) h

render_from-end :
    (c : Config) (i k : ℕ) (tail : List ℕ) (val : List Glyph)
    → is_end tail ≡ true
    → render_from c i tail k val ≡ shown val
unfolding render_from round after
render_from-end c i k [] val h = refl
render_from-end c i k (x ∷ xs) val h = rw h refl

-- A write to the digit behind the first ones.
store-next :
    (xs : List Glyph) (g h : Glyph) (ys : List Glyph) (next : ℕ)
    → store (xs ++ g ∷ ys) (length xs) h next ≡ go next (xs ++ h ∷ ys)
store-next xs g h ys next =
    let room : ltb (length xs) (length (xs ++ g ∷ ys)) ≡ true =
      ground (arith, length-append xs (g ∷ ys)) in
    rw (room, set-append-length xs g ys h) refl

add_dot-next :
    (xs : List Glyph) (g : Glyph) (ys : List Glyph) (next : ℕ)
    → add_dot (xs ++ g ∷ ys) (length xs) next ≡ go next (xs ++ dotted g ∷ ys)
add_dot-next xs g ys next =
    rw (get_or-append-length xs g ys []) (store-next xs g (dotted g) ys next)

dotted_twice : (g : Glyph) → dotted (dotted g) ≡ dotted g
dotted_twice g = set-same g 7 true true

cell_lem :
    (chr : ℕ) (b : Bool) {g : Glyph} → glyph chr ≡ some g → cell chr b ≡ (if b then dotted g else g)
cell_lem chr b h = rw h refl

cells-glyph :
    (chr : ℕ) (chrs : List ℕ) {g : Glyph}
    → glyph chr ≡ some g
    → cells (chr ∷ chrs) ≡ (if starts_with_dot chrs then dotted g else g) ∷ cells chrs
cells-glyph chr chrs h =
    rw ((glyph_char chr h).1) (ap (λ g. g ∷ cells chrs) (cell_lem chr (starts_with_dot chrs) h))

module _ (c : Config) (tail : List ℕ) (ends : is_end tail ≡ true) where
  -- A character that does not fit ends the loop; what comes behind is not shown.
  render_from-glyph :
      (i chr : ℕ) (chrs : List ℕ) (xs : List Glyph) (g : Glyph) (m : ℕ) {g' : Glyph}
      → glyph chr ≡ some g'
      → num_disp c ≡ length xs + 1 + m
      → ((m' : ℕ)
          → suc m' ≡ m
          → render_from c
              (suc (suc i))
              (chrs ++ tail)
              (suc (length (xs ++ g ∷ [])))
              ((xs ++ g ∷ []) ++ g' ∷ cleared m')
            ≡ shown (
                (xs ++ g ∷ [])
                ++ (if starts_with_dot chrs then dotted g' else g') ∷ fill m' (cells chrs)))
      → render_from c (suc i) ((chr ∷ chrs) ++ tail) (suc (length xs)) (xs ++ g ∷ cleared m)
        ≡ shown (xs ++ g ∷ fill m (cells (chr ∷ chrs)))
  unfolding after
  render_from-glyph i chr chrs xs g zero known n rest =
      render_from-round c (suc i) chr (suc (length xs)) (chrs ++ tail) _
        (round-full c (suc i) chr (suc (length xs)) _ known (omega (arith, n)))
  render_from-glyph i chr chrs xs g (suc m) {g'} known n rest =
      let ys : List Glyph = xs ++ g ∷ [] in
      let len : suc (length xs) ≡ length ys = omega (arith, length-append xs (g ∷ [])) in
      let here : xs ++ g ∷ cleared (suc m) ≡ ys ++ char_off ∷ cleared m =
        sym (append_assoc xs (g ∷ []) (cleared (suc m))) in
      let there : ys ++ (if starts_with_dot chrs then dotted g' else g') ∷ fill m (cells chrs)
          ≡ xs ++ g ∷ fill (suc m) (cells (chr ∷ chrs)) =
        append_assoc xs (g ∷ []) _
        ∙ ap (λ gs. xs ++ g ∷ fill (suc m) gs) (sym (cells-glyph chr chrs known)) in
      rw (here, len)
        (render_from-round c (suc i) chr (length ys) (chrs ++ tail) (ys ++ char_off ∷ cleared m) (
            round-glyph c (suc i) chr (length ys) _ known (omega (arith, n, len))
            ∙ store-next ys char_off g' (cleared m) (length ys + 1))
          ∙ ap (λ k. render_from c (suc (suc i)) (chrs ++ tail) k (ys ++ g' ∷ cleared m))
              (omega arith)
          ∙ rest m refl
          ∙ ap shown there)

  -- The loop behind the first character: `xs` and `g` are the digits so far, `m` are left.
  render_from_lem :
      (i : ℕ) (chrs : List ℕ) (xs : List Glyph) (g : Glyph) (m : ℕ)
      → All (λ chr. is_supported c chr ≡ true) chrs
      → num_disp c ≡ length xs + 1 + m
      → render_from c (suc i) (chrs ++ tail) (suc (length xs)) (xs ++ g ∷ cleared m)
        ≡ shown (xs ++ (if starts_with_dot chrs then dotted g else g) ∷ fill m (cells chrs))
  unfolding after
  render_from_lem i [] xs g m h n =
      rw (fill-nil m) (render_from-end c (suc i) (suc (length xs)) tail _ ends)
  render_from_lem i (chr ∷ chrs) xs g m h n = elim (supported-cases c chr h.0) [
    | inr (is_dot, point) ↦ rw is_dot (
        render_from-round c (suc i) 46 (suc (length xs)) (chrs ++ tail) _
          (round-dot c i (length xs) _ point ∙ add_dot-next xs g (cleared m) (suc (length xs)))
        ∙ render_from_lem (suc i) chrs xs (dotted g) m h.1 n
        ∙ ap (λ d. shown (xs ++ d ∷ fill m (cells chrs))) (again (starts_with_dot chrs)))
    | inl (g', known) ↦
        render_from-glyph i chr chrs xs g m known n (λ m' e.
          render_from_lem (suc i) chrs (xs ++ g ∷ []) g' m' h.1
            (omega (arith, n, e, length-append xs (g ∷ []))))
        ∙ ap (λ b. shown (xs ++ (if b then dotted g else g) ∷ fill m (cells (chr ∷ chrs))))
            (sym (glyph_char chr known).1)
  ]
    where
      again : (b : Bool) → (if b then dotted (dotted g) else dotted g) ≡ dotted g
      again true = dotted_twice g
      again false = refl

-- A text of characters that the display can show is rendered digit by digit: as many as there are, the
-- rest cut off, and blank digits behind. No write is outside the array, on a display with a digit.
pub render_lem :
    (c : Config) (text tail : List ℕ)
    → 0 < num_disp c
    → All (λ chr. is_supported c chr ≡ true) text
    → is_end tail ≡ true
    → render c (text ++ tail) ≡ shown (fill (num_disp c) (text_cells text))
unfolding render after
render_lem c text tail l h ends = go (num_disp c) refl l text h
  where
    again : (b : Bool) → (if b then dotted (dotted char_off) else dotted char_off) ≡ dotted char_off
    again true = refl
    again false = refl

    go :
        (n : ℕ)
        → num_disp c ≡ n
        → 0 < n
        → (text : List ℕ) → All (λ chr. is_supported c chr ≡ true) text
        → render_from c 0 (text ++ tail) 0 (cleared n) ≡ shown (fill n (text_cells text))
    go zero e l text h = absurd (omega arith)
    go (suc m) e l [] h = render_from-end c 0 0 tail _ ends ∙ ap shown (sym (fill-nil (suc m)))
    go (suc m) e l (chr ∷ chrs) h = elim (supported-cases c chr h.0) [
      | inr (is_dot, point) ↦ rw is_dot (
          render_from-round c 0 46 0 (chrs ++ tail) (cleared (suc m))
            (round-first_dot c (cleared (suc m)) point ∙ add_dot-next [] char_off (cleared m) 1)
          ∙ render_from_lem c tail ends 0 chrs [] (dotted char_off) m h.1 (omega (arith, e))
          ∙ ap (λ d. shown (d ∷ fill m (cells chrs))) (again (starts_with_dot chrs)))
      | inl (g, known) ↦
          render_from-round c 0 chr 0 (chrs ++ tail) (cleared (suc m)) (
            round-glyph c 0 chr 0 (cleared (suc m)) known (omega (arith, e))
            ∙ store-next [] char_off g (cleared m) 1)
          ∙ render_from_lem c tail ends 0 chrs [] g m h.1 (omega (arith, e))
          ∙ ap (λ gs. shown (fill (suc m) gs)) (sym (cells-glyph chr chrs known))
          ∙ ap
              (λ b. shown (
                fill (suc m)
                  (if b then dotted char_off ∷ cells (chr ∷ chrs) else cells (chr ∷ chrs))))
              (sym (glyph_char chr known).1)
    ]
