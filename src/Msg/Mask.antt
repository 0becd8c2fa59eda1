-- ===== src/Msg/Mask.antt =====
-- A `uint32_t` with a bit for each member of an aggregation, as the list of the members' bits.
use nturt_zephyr_common.Base.{
  ℕ, zero, suc, ◌≡◌, ◌↔◌, refl, ap, Bool, true, false, not, ◌&&◌, List, [], ◌∷◌, arith, get_or,
  length, if◌then◌else◌,
}

-- value == 0
abbrev pub is_zero : List Bool → Bool
is_zero [] = true
is_zero (b ∷ bs) = not b && is_zero bs

-- IS_MASK_SET of include/nturt/sys/util.h
abbrev pub is_mask_set : List Bool → List Bool → Bool
is_mask_set value [] = true
is_mask_set [] (m ∷ ms) = not m && is_mask_set [] ms
is_mask_set (b ∷ bs) (m ∷ ms) = (if m then b else true) && is_mask_set bs ms

-- `value = 0`
abbrev pub cleared : List Bool → List Bool
cleared [] = []
cleared (b ∷ bs) = false ∷ cleared bs

pub length-cleared : (v : List Bool) → length (cleared v) ≡ length v
length-cleared [] = refl
length-cleared (b ∷ bs) = ap suc (length-cleared bs)

pub is_zero-cleared : (v : List Bool) → is_zero (cleared v) ≡ true
is_zero-cleared [] = refl
is_zero-cleared (b ∷ bs) = is_zero-cleared bs

pub get_or-cleared : (v : List Bool) (i : ℕ) → get_or (cleared v) i false ≡ false
get_or-cleared [] i = refl
get_or-cleared (b ∷ bs) zero = refl
get_or-cleared (b ∷ bs) (suc i) = get_or-cleared bs i

pub get_or-zero : (v : List Bool) (i : ℕ) → is_zero v ≡ true → get_or v i false ≡ false
get_or-zero [] i h = refl
get_or-zero (b ∷ bs) zero h = ground arith
get_or-zero (b ∷ bs) (suc i) h = ground (arith, get_or-zero bs i)

pub is_mask_set_iff :
    (v m : List Bool)
    → (is_mask_set v m ≡ true) ↔ ((i : ℕ) → get_or m i false ≡ true → get_or v i false ≡ true)
is_mask_set_iff v m = (fwd v m, bwd v m)
  where
    fwd :
        (v m : List Bool)
        → is_mask_set v m ≡ true
        → (i : ℕ) → get_or m i false ≡ true
        → get_or v i false ≡ true
    fwd v [] h i p = absurd (cc)
    fwd [] (x ∷ xs) h zero p = ground arith
    fwd [] (x ∷ xs) h (suc i) p = fwd [] xs (ground arith) i p
    fwd (b ∷ bs) (x ∷ xs) h zero p = ground arith
    fwd (b ∷ bs) (x ∷ xs) h (suc i) p = fwd bs xs (ground arith) i p

    bwd :
        (v m : List Bool)
        → ((i : ℕ) → get_or m i false ≡ true → get_or v i false ≡ true)
        → is_mask_set v m ≡ true
    bwd v [] f = refl
    bwd [] (x ∷ xs) f = ground (arith, f 0, bwd [] xs (λ i. f (suc i)))
    bwd (b ∷ bs) (x ∷ xs) f = ground (arith, f 0, bwd bs xs (λ i. f (suc i)))
