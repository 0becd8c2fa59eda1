-- ===== src/Base/Bytes.antt =====
-- What holds of every byte and its bits, by evaluation of all of them.
use Prim.Native.Nat.{ℕ, zero, suc, ◌<◌}
use mathlib.Core.Path.{◌≡◌, refl}
use mathlib.Core.Bool.{Bool, true, false, not, ◌&&◌, ◌||◌}
use native.Mathlib.Omega.{arith}
use nturt_zephyr_common.Base.Tests.{if◌then◌else◌, ◌==◌, ltb}
use nturt_zephyr_common.Base.Bits.{test_bit, clear_bit}

-- Some number below the bound, or every one.
abbrev pub any_below : (ℕ → Bool) → ℕ → Bool
any_below p zero = false
any_below p (suc n) = p n || any_below p n

abbrev pub all_below : (ℕ → Bool) → ℕ → Bool
all_below p zero = true
all_below p (suc n) = p n && all_below p n

pub all_below_lem : (p : ℕ → Bool) (n x : ℕ) → all_below p n ≡ true → x < n → p x ≡ true
all_below_lem p zero x h lt = absurd (omega arith)
all_below_lem p (suc n) x h lt = ground (arith, all_below_lem p n x)

same : Bool → Bool → Bool
same a b = if a then b else not b

same_lem : (a b : Bool) → same a b ≡ true → a ≡ b
unfolding same
same_lem true b h = ground arith
same_lem false b h = ground arith

cleared : ℕ → ℕ → ℕ → Bool
unfolding same
cleared j k x = same (test_bit (clear_bit x k) j) (if j == k then false else test_bit x j)

cleared_table : all_below (λ x. all_below (λ k. all_below (λ j. cleared j k x) 8) 8) 256 ≡ true
unfolding cleared
cleared_table = refl

-- Clearing a bit of a byte clears it and no other.
pub clear_bit-test_bit :
    (x k j : ℕ)
    → x < 256
    → k < 8
    → j < 8
    → test_bit (clear_bit x k) j ≡ (if j == k then false else test_bit x j)
unfolding cleared
clear_bit-test_bit x k j hx hk hj = same_lem _ _ (
    all_below_lem (λ j. cleared j k x) 8 j
      (all_below_lem (λ k. all_below (λ j. cleared j k x) 8) 8 k
        (all_below_lem (λ x. all_below (λ k. all_below (λ j. cleared j k x) 8) 8) 256 x
          cleared_table hx)
        hk)
      hj)

smaller : ℕ → ℕ → Bool
smaller k x = if test_bit x k then ltb (clear_bit x k) x else true

smaller_table : all_below (λ x. all_below (λ k. smaller k x) 8) 256 ≡ true
unfolding smaller
smaller_table = refl

pub clear_bit-lt : (x k : ℕ) → x < 256 → k < 8 → test_bit x k ≡ true → clear_bit x k < x
unfolding smaller
clear_bit-lt x k hx hk h =
    let t : smaller k x ≡ true =
      all_below_lem (λ k. smaller k x) 8 k
        (all_below_lem (λ x. all_below (λ k. smaller k x) 8) 256 x smaller_table hx) hk in
    ground (arith, t, h)

bit_table : all_below (λ x. x == 0 || any_below (test_bit x) 8) 256 ≡ true
bit_table = refl

-- A byte that is not zero has a bit.
pub test_bit-any : (x : ℕ) → x < 256 → (x == 0) ≡ false → any_below (test_bit x) 8 ≡ true
test_bit-any x hx h =
    let t : (x == 0 || any_below (test_bit x) 8) ≡ true =
      all_below_lem (λ x. x == 0 || any_below (test_bit x) 8) 256 x bit_table hx in
    rw h at t

pub any_below-false :
    (p : ℕ → Bool) (n : ℕ) → ((j : ℕ) → j < n → p j ≡ false) → any_below p n ≡ false
any_below-false p zero h = refl
any_below-false p (suc n) h =
    rw (h n (omega arith)) (any_below-false p n (λ j l. h j (omega arith)))
