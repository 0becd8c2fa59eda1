-- ===== src/SegDisplay/Glyphs.antt =====
-- drivers/auxdisplay/gpio-seg-display/gpio_seg_display.c: which segments a character lights. A `uint8_t`
-- of segments is the list of its bits, lowest first.
use nturt_zephyr_common.Base.{
  ℕ, zero, suc, ◌-◌, ◌≡◌, sym, ◌∙◌, ap, ◌<◌, refl, Bool, true, false, ◌&&◌, not, xor, Option, none,
  some, List, [], ◌∷◌, arith, leb, ◌==◌, if◌then◌else◌, get_elem?, set,
}
use nturt_zephyr_common.Base.Bytes.{all_below, all_below_lem}

abbrev pub Glyph : Type 0
Glyph = List Bool

abbrev pub char_off : Glyph
char_off = false ∷ false ∷ false ∷ false ∷ false ∷ false ∷ false ∷ false ∷ []

-- BIT(i) | BIT(j) | …
abbrev pub bits : List ℕ → Glyph
bits [] = char_off
bits (i ∷ is) = set (bits is) i true

abbrev pub char_0 : Glyph
char_0 = bits (0 ∷ 1 ∷ 2 ∷ 3 ∷ 4 ∷ 5 ∷ [])

abbrev pub char_1 : Glyph
char_1 = bits (1 ∷ 2 ∷ [])

abbrev pub char_2 : Glyph
char_2 = bits (0 ∷ 1 ∷ 3 ∷ 4 ∷ 6 ∷ [])

abbrev pub char_3 : Glyph
char_3 = bits (0 ∷ 1 ∷ 2 ∷ 3 ∷ 6 ∷ [])

abbrev pub char_4 : Glyph
char_4 = bits (1 ∷ 2 ∷ 5 ∷ 6 ∷ [])

abbrev pub char_5 : Glyph
char_5 = bits (0 ∷ 2 ∷ 3 ∷ 5 ∷ 6 ∷ [])

abbrev pub char_6 : Glyph
char_6 = bits (0 ∷ 2 ∷ 3 ∷ 4 ∷ 5 ∷ 6 ∷ [])

abbrev pub char_7 : Glyph
char_7 = bits (0 ∷ 1 ∷ 2 ∷ 5 ∷ [])

abbrev pub char_8 : Glyph
char_8 = bits (0 ∷ 1 ∷ 2 ∷ 3 ∷ 4 ∷ 5 ∷ 6 ∷ [])

abbrev pub char_9 : Glyph
char_9 = bits (0 ∷ 1 ∷ 2 ∷ 3 ∷ 5 ∷ 6 ∷ [])

-- CHAR_A, CHAR_C and so on; the small letters have `small` in their names.
abbrev pub char_a : Glyph
char_a = bits (0 ∷ 1 ∷ 2 ∷ 4 ∷ 5 ∷ 6 ∷ [])

abbrev pub char_c : Glyph
char_c = bits (0 ∷ 3 ∷ 4 ∷ 5 ∷ [])

abbrev pub char_e : Glyph
char_e = bits (0 ∷ 3 ∷ 4 ∷ 5 ∷ 6 ∷ [])

abbrev pub char_f : Glyph
char_f = bits (0 ∷ 4 ∷ 5 ∷ 6 ∷ [])

abbrev pub char_h : Glyph
char_h = bits (1 ∷ 2 ∷ 4 ∷ 5 ∷ 6 ∷ [])

abbrev pub char_l : Glyph
char_l = bits (3 ∷ 4 ∷ 5 ∷ [])

abbrev pub char_p : Glyph
char_p = bits (0 ∷ 1 ∷ 4 ∷ 5 ∷ 6 ∷ [])

abbrev pub char_u : Glyph
char_u = bits (1 ∷ 2 ∷ 3 ∷ 4 ∷ 5 ∷ [])

abbrev pub char_small_b : Glyph
char_small_b = bits (2 ∷ 3 ∷ 4 ∷ 5 ∷ 6 ∷ [])

abbrev pub char_small_d : Glyph
char_small_d = bits (1 ∷ 2 ∷ 3 ∷ 4 ∷ 6 ∷ [])

abbrev pub char_small_h : Glyph
char_small_h = bits (2 ∷ 4 ∷ 5 ∷ 6 ∷ [])

abbrev pub char_small_i : Glyph
char_small_i = bits (2 ∷ [])

abbrev pub char_small_o : Glyph
char_small_o = bits (2 ∷ 3 ∷ 4 ∷ 6 ∷ [])

abbrev pub char_small_r : Glyph
char_small_r = bits (4 ∷ 6 ∷ [])

abbrev pub char_small_t : Glyph
char_small_t = bits (3 ∷ 4 ∷ 5 ∷ 6 ∷ [])

abbrev pub char_small_u : Glyph
char_small_u = bits (2 ∷ 3 ∷ 4 ∷ [])

abbrev pub char_dash : Glyph
char_dash = bits (6 ∷ [])

abbrev pub char_underscore : Glyph
char_underscore = bits (3 ∷ [])

abbrev pub char_pipe : Glyph
char_pipe = bits (4 ∷ 5 ∷ [])

abbrev pub num_map : List Glyph
num_map =
    char_0 ∷ char_1 ∷ char_2 ∷ char_3 ∷ char_4 ∷ char_5 ∷ char_6 ∷ char_7 ∷ char_8 ∷ char_9 ∷ []

-- The cases of the `switch` of `gpio_seg_display_write` that show a character, by its code.
unfoldable pub glyph : ℕ → Option Glyph
glyph chr =
    if chr == 32
    then some char_off
    else if leb 48 chr && leb chr 57
    then get_elem? num_map (chr - 48)
    else if chr == 65
    then some char_a
    else if chr == 67
    then some char_c
    else if chr == 69
    then some char_e
    else if chr == 70
    then some char_f
    else if chr == 72
    then some char_h
    else if chr == 76
    then some char_l
    else if chr == 80
    then some char_p
    else if chr == 85
    then some char_u
    else if chr == 98
    then some char_small_b
    else if chr == 100
    then some char_small_d
    else if chr == 104
    then some char_small_h
    else if chr == 105
    then some char_small_i
    else if chr == 111
    then some char_small_o
    else if chr == 114
    then some char_small_r
    else if chr == 116
    then some char_small_t
    else if chr == 117
    then some char_small_u
    else if chr == 45
    then some char_dash
    else if chr == 95
    then some char_underscore
    else if chr == 124
    then some char_pipe
    else none

same_glyph : Glyph → Glyph → Bool
same_glyph [] [] = true
same_glyph [] (b ∷ ys) = false
same_glyph (a ∷ xs) [] = false
same_glyph (a ∷ xs) (b ∷ ys) = not (xor a b) && same_glyph xs ys

same_glyph_refl : (g : Glyph) → same_glyph g g ≡ true
unfolding same_glyph
same_glyph_refl [] = refl
same_glyph_refl (true ∷ g) = same_glyph_refl g
same_glyph_refl (false ∷ g) = same_glyph_refl g

-- Whether a character is shown by the segments.
unfoldable pub shows : Glyph → ℕ → Bool
unfolding glyph same_glyph
shows g chr = elim (glyph chr) [ none ↦ false | some h ↦ same_glyph g h ]

-- The character that the segments show, searched for from the highest code down.
unfoldable pub char_of : ℕ → Glyph → Option ℕ
unfolding shows
char_of zero g = none
char_of (suc n) g = let rest = char_of n g in if shows g n then some n else rest

is_read : Option ℕ → ℕ → Bool
is_read none chr = false
is_read (some n) chr = n == chr

is_read_lem : (o : Option ℕ) (chr : ℕ) → is_read o chr ≡ true → o ≡ some chr
unfolding is_read
is_read_lem none chr h = absurd (cc)
is_read_lem (some n) chr h = ground (arith, h)

read_back_at : Option Glyph → ℕ → Bool
unfolding is_read
read_back_at none chr = true
read_back_at (some g) chr = is_read (char_of 256 g) chr

reads_back_table : all_below (λ chr. read_back_at (glyph chr) chr) 256 ≡ true
unfolding read_back_at glyph char_of
reads_back_table = refl

pub char_of-glyph :
    (chr : ℕ) (g : Glyph) → chr < 256 → glyph chr ≡ some g → char_of 256 g ≡ some chr
unfolding read_back_at
char_of-glyph chr g l h = is_read_lem (char_of 256 g) chr (
    sym (ap (λ o. read_back_at o chr) h)
    ∙ all_below_lem (λ chr. read_back_at (glyph chr) chr) 256 chr reads_back_table l)
