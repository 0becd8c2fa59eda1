-- ===== src/SegDisplay/Text.antt =====
-- drivers/auxdisplay/gpio-seg-display/gpio_seg_display.c: what a text shows, and that the loop of
-- `gpio_seg_display_write` gives that.
use nturt_zephyr_common.Base.{
  ℕ, zero, suc, ◌+◌, ◌≤◌, ◌<◌, ◌≡◌, refl, ap, ◌⊎◌, inl, inr, Bool, Option-cases, true, false, ◌&&◌,
  Option, none, some, List, [], ◌∷◌, arith, ◌==◌, if◌then◌else◌, set,
}
use nturt_zephyr_common.SegDisplay.Glyphs.{Glyph, glyph, char_off}
use nturt_zephyr_common.SegDisplay.{
  Config, num_disp, stop, store, add_dot, dot_round, char_round, round, cleared,
}

abbrev pub dotted : Glyph → Glyph
dotted g = set g 7 true

abbrev pub starts_with_dot : List ℕ → Bool
starts_with_dot [] = false
starts_with_dot (chr ∷ chrs) = chr == 46

abbrev glyph_or_off : Option Glyph → Glyph
glyph_or_off none = char_off
glyph_or_off (some g) = g

abbrev pub cell : ℕ → Bool → Glyph
cell chr has_dot = let g = glyph_or_off (glyph chr) in if has_dot then dotted g else g

-- A digit for each character that is not a point; the points that follow it light its point.
abbrev pub cells : List ℕ → List Glyph
cells [] = []
cells (chr ∷ chrs) = if chr == 46 then cells chrs else cell chr (starts_with_dot chrs) ∷ cells chrs

-- Points at the start take a digit of their own.
abbrev pub text_cells : List ℕ → List Glyph
text_cells text = if starts_with_dot text then dotted char_off ∷ cells text else cells text

-- The first `n` digits, and blanks behind.
abbrev pub fill : ℕ → List Glyph → List Glyph
fill zero gs = []
fill (suc n) [] = char_off ∷ fill n []
fill (suc n) (g ∷ gs) = g ∷ fill n gs

-- The characters that the display can show.
abbrev pub is_supported : Config → ℕ → Bool
is_supported c chr = elim (glyph chr) [ none ↦ chr == 46 && c.decimal_point | some g ↦ true ]

-- A text ends with its length, or with a zero.
abbrev pub is_end : List ℕ → Bool
is_end [] = true
is_end (chr ∷ chrs) = chr == 0

pub fill-nil : (n : ℕ) → fill n [] ≡ cleared n
fill-nil zero = refl
fill-nil (suc n) = ap (λ gs. char_off ∷ gs) (fill-nil n)

pub glyph_char :
    (chr : ℕ) {g : Glyph} → glyph chr ≡ some g → ((chr == 0) ≡ false) × ((chr == 46) ≡ false)
unfolding glyph
glyph_char chr h = ground arith

-- A character that is shown, or a point.
pub supported-cases :
    (c : Config) (chr : ℕ)
    → is_supported c chr ≡ true
    → ((g : Glyph) × (glyph chr ≡ some g)) ⊎ ((chr ≡ 46) × (c.decimal_point ≡ true))
supported-cases c chr h = elim (Option-cases (glyph chr)) [
  | inl unknown ↦ inr (ground (arith, unknown))
  | inr known ↦ inl known
]

pub round-dot :
    (c : Config) (i k : ℕ) (val : List Glyph)
    → c.decimal_point ≡ true
    → round c (suc i) 46 (suc k) val ≡ add_dot val k (suc k)
unfolding round char_round dot_round glyph
round-dot c i k val h = ground (arith, h)

pub round-first_dot :
    (c : Config) (val : List Glyph) → c.decimal_point ≡ true → round c 0 46 0 val ≡ add_dot val 0 1
unfolding round char_round dot_round glyph
round-first_dot c val h = ground (arith, h)

pub round-glyph :
    (c : Config) (i chr k : ℕ) (val : List Glyph) {g : Glyph}
    → glyph chr ≡ some g
    → k < num_disp c
    → round c i chr k val ≡ store val k g (k + 1)
unfolding round char_round
round-glyph c i chr k val h l = ground (arith, h, glyph_char chr h)

pub round-full :
    (c : Config) (i chr k : ℕ) (val : List Glyph) {g : Glyph}
    → glyph chr ≡ some g
    → num_disp c ≤ k
    → round c i chr k val ≡ stop
unfolding round
round-full c i chr k val h l = ground (arith, glyph_char chr h)
