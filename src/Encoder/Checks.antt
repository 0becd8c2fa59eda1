-- ===== src/Encoder/Checks.antt =====
-- drivers/sensor/amt21/amt21.c: the check bits of a word find every flipped bit.
use nturt_zephyr_common.Base.{
  ℕ, ◌+◌, ◌%◌, zero, suc, ◌<◌, ◌≡◌, refl, sym, ap, ap₂, ◌∙◌, Bool, true, false, not, xor, ◌&&◌,
  List, [], ◌∷◌, ◌++◌, take, arith, get_or, set, length,
}
use nturt_zephyr_common.Base.Int.{pos}
use nturt_zephyr_common.Encoder.{
  Poll, uart_poll_in_timeout, poll_loop, parities, is_checked, checked, second_byte, first_byte,
  amt21_read, eilseq,
}

-- A word with one bit flipped.
abbrev pub flipped : List Bool → ℕ → List Bool
flipped w i = set w i (not (get_or w i false))

abbrev is_even : ℕ → Bool
is_even zero = true
is_even (suc zero) = false
is_even (suc (suc n)) = is_even n

xor_swap : (a x b : Bool) → xor (xor a x) b ≡ xor (xor a b) x
xor_swap a x b = ground arith

xor-not : (a b : Bool) → xor a (not b) ≡ xor (xor a b) true
xor-not a b = ground arith

xor-false : (a : Bool) → xor a false ≡ a
xor-false a = ground arith

parities-xor :
    (w : List Bool) (even odd x y : Bool)
    → parities w (xor even x) (xor odd y)
      ≡ (xor (parities w even odd).0 x, xor (parities w even odd).1 y)
unfolding parities
parities-xor [] even odd x y = refl
parities-xor (b ∷ []) even odd x y = ground arith
parities-xor (b ∷ c ∷ bs) even odd x y =
    rw (xor_swap even x b, xor_swap odd y c) (parities-xor bs (xor even b) (xor odd c) x y)

-- A flipped bit flips one of the two parities.
parities-flipped :
    (w : List Bool) (i : ℕ) (even odd : Bool)
    → i < length w
    → parities (flipped w i) even odd
      ≡ (xor (parities w even odd).0 (is_even i), xor (parities w even odd).1 (not (is_even i)))
unfolding parities
parities-flipped [] i even odd h = absurd (omega arith)
parities-flipped (b ∷ []) zero even odd h = ground arith
parities-flipped (b ∷ []) (suc i) even odd h = absurd (omega arith)
parities-flipped (b ∷ c ∷ bs) zero even odd h =
    ap₂ (parities bs) (xor-not even b) (sym (xor-false (xor odd c)))
    ∙ parities-xor bs (xor even b) (xor odd c) true false
parities-flipped (b ∷ c ∷ bs) (suc zero) even odd h =
    ap₂ (parities bs) (sym (xor-false (xor even b))) (xor-not odd c)
    ∙ parities-xor bs (xor even b) (xor odd c) false true
parities-flipped (b ∷ c ∷ bs) (suc (suc i)) even odd h = parities-flipped bs i _ _ (omega arith)

is_checked-flipped :
    (w : List Bool) (i : ℕ) → i < length w → is_checked w ≡ true → is_checked (flipped w i) ≡ false
unfolding is_checked
is_checked-flipped w i h ok =
    rw (parities-flipped w i false false h) (off (parities w false false) (is_even i) ok)
  where
    off :
        (p : Bool × Bool) (e : Bool) → (p.0 && p.1) ≡ true → (xor p.0 e && xor p.1 (not e)) ≡ false
    off (a, b) e h = ground (arith, h)

-- The bytes that arrive: two polls that succeed.
abbrev pub arrives : List Bool → List Poll → List Poll
arrives byte ps = record { ret = pos 0; byte = byte; expired = false } ∷ ps

pub amt21_read-word :
    (addr cmd : ℕ) (low high : List Bool) (ps : List Poll) (sent : List ℕ)
    → amt21_read addr cmd (record { polls = arrives low (arrives high ps); sent = sent })
      ≡ checked (low ++ high) (record { polls = ps; sent = (addr + cmd) % 256 ∷ sent })
unfolding amt21_read first_byte second_byte uart_poll_in_timeout poll_loop
amt21_read-word addr cmd low high ps sent = refl

-- A word that `amt21_read` accepts gives its low 14 bits; the same word with any one of its bits flipped
-- is refused with -EILSEQ.
pub amt21_read-flipped :
    (addr cmd : ℕ) (low high low' high' : List Bool) (i : ℕ) (ps : List Poll) (sent : List ℕ)
    → i < length (low ++ high)
    → low' ++ high' ≡ flipped (low ++ high) i
    → (amt21_read addr cmd (record { polls = arrives low (arrives high ps); sent = sent })).ret
      ≡ pos 0
    → ((amt21_read addr cmd (record { polls = arrives low (arrives high ps); sent = sent })).bits
        ≡ take 14 (low ++ high))
      × ((amt21_read addr cmd (record { polls = arrives low' (arrives high' ps); sent = sent })).ret
          ≡ eilseq)
unfolding checked
amt21_read-flipped addr cmd low high low' high' i ps sent h flip ok =
    let good : is_checked (low ++ high) ≡ true =
      accepted (rw (amt21_read-word addr cmd low high ps sent) at ok) in
    let bad : is_checked (low' ++ high') ≡ false =
      ap is_checked flip ∙ is_checked-flipped (low ++ high) i h good in
    rw
      (
        amt21_read-word addr cmd low high ps sent,
        amt21_read-word addr cmd low' high' ps sent,
        good,
        bad,
      )
      (refl, refl)
  where
    accepted :
        (checked (low ++ high) (record { polls = ps; sent = (addr + cmd) % 256 ∷ sent })).ret
          ≡ pos 0
        → is_checked (low ++ high) ≡ true
    accepted e = ground (arith, e)
