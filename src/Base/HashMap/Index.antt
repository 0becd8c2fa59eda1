-- ===== src/Base/HashMap/Index.antt =====
-- Maps that are filled from an array: each key leads to the place of its entry.
use Prim.Native.Nat.{ℕ, zero, suc, ◌+◌}
use mathlib.Core.Path.{◌≡◌, refl, sym, ap, ◌∙◌}
use mathlib.Core.Logic.{◌⊎◌, inl, inr}
use mathlib.Core.Option.{Option, none, some, some-injective}
use mathlib.Core.List.{List, [], ◌∷◌}
use native.Mathlib.Omega.{arith}
use nturt_zephyr_common.Base.Tests.{◌==◌, Bool-cases}
use nturt_zephyr_common.Base.Lists.{get_elem?}
use nturt_zephyr_common.Base.HashMap.{HashMap, Insert, added, replaced, failed}

abbrev pub if_added {ℓ κ} : {A : Type ℓ} {B : Type κ} → Insert × A → (A → Option B) → Option B
if_added (added, a) f = f a
if_added (replaced, a) f = none
if_added (failed n, a) f = none

module _ (H : HashMap) where
  -- The keys are inserted with the numbers from `p` on, as long as they are new.
  unfoldable pub insert_all : H.Map → ℕ → List ℕ → Option H.Map
  insert_all m p [] = some m
  insert_all m p (k ∷ ks) = if_added (H.insert m k p) (λ m'. insert_all m' (suc p) ks)

  insert_all-cons :
      (m : H.Map) (p k : ℕ) (ks : List ℕ) {m' : H.Map}
      → insert_all m p (k ∷ ks) ≡ some m'
      → ((H.insert m k p).0 ≡ added) × (insert_all (H.insert m k p).1 (suc p) ks ≡ some m')
  unfolding insert_all
  insert_all-cons m p k ks {m'} h = go (H.insert m k p) h
    where
      go :
          (r : Insert × H.Map)
          → if_added r (λ m'. insert_all m' (suc p) ks) ≡ some m'
          → (r.0 ≡ added) × (insert_all r.1 (suc p) ks ≡ some m')
      go (added, a) h = (refl, h)
      go (replaced, a) h = absurd (cc)
      go (failed n, a) h = absurd (cc)

  -- A key that was there keeps its number.
  insert_all-keeps :
      (m : H.Map) (p : ℕ) (ks : List ℕ) (k q : ℕ) {m' : H.Map}
      → insert_all m p ks ≡ some m'
      → H.get m k ≡ some q
      → H.get m' k ≡ some q
  unfolding insert_all
  insert_all-keeps m p [] k q {m'} h g = ap (λ x. H.get x k) (sym (some-injective _ _ h)) ∙ g
  insert_all-keeps m p (x ∷ xs) k q h g =
      let (new, rest) = insert_all-cons m p x xs h in
      insert_all-keeps (H.insert m x p).1 (suc p) xs k q rest
        (ground (arith, H.get-insert_added m x p k new, H.absent_of_added m x p new, g))

  -- Each key leads to its number.
  pub insert_all-get :
      (m : H.Map) (p : ℕ) (ks : List ℕ) (i k : ℕ) {m' : H.Map}
      → insert_all m p ks ≡ some m'
      → get_elem? ks i ≡ some k
      → H.get m' k ≡ some (p + i)
  insert_all-get m p [] i k h g = absurd (cc)
  insert_all-get m p (x ∷ xs) zero k h g =
      let (new, rest) = insert_all-cons m p x xs h in
      insert_all-keeps (H.insert m x p).1 (suc p) xs k (p + 0) rest
        (ground (arith, H.get-insert_added m x p k new, g))
  insert_all-get m p (x ∷ xs) (suc i) k h g =
      let (new, rest) = insert_all-cons m p x xs h in
      insert_all-get (H.insert m x p).1 (suc p) xs i k rest g ∙ ap some (omega arith)

  -- A number that a key leads to is one that it had, or the key's place.
  pub insert_all-key :
      (m : H.Map) (p : ℕ) (ks : List ℕ) (k q : ℕ) {m' : H.Map}
      → insert_all m p ks ≡ some m'
      → H.get m' k ≡ some q
      → (H.get m k ≡ some q) ⊎ ((i : ℕ) × (q ≡ p + i) × (get_elem? ks i ≡ some k))
  unfolding insert_all
  insert_all-key m p [] k q h g = inl (ap (λ x. H.get x k) (some-injective _ _ h) ∙ g)
  insert_all-key m p (x ∷ xs) k q h g =
      let (new, rest) = insert_all-cons m p x xs h in
      elim (insert_all-key (H.insert m x p).1 (suc p) xs k q rest g) [
        | inl here ↦ elim (Bool-cases (x == k)) [
          | inl e ↦ inr (0, ground (arith, here, H.get-insert_added m x p k new), ground arith)
          | inr e ↦ inl (ground (arith, here, H.get-insert_added m x p k new))
        ]
        | inr (i, at, e) ↦ inr (suc i, omega (arith, at), e)
      ]
