-- ===== src/Base/HashMap/Assoc.antt =====
-- An association list meets the interface: the value that the tests run with.
use nturt_zephyr_common.Base.{
  ℕ, ◌≡◌, refl, Option, none, some, List, [], ◌∷◌, arith, ◌==◌, if◌then◌else◌,
}
use nturt_zephyr_common.Base.HashMap.{HashMap, Insert, added, replaced}

unfoldable pub find : List (ℕ × ℕ) → ℕ → Option ℕ
find [] k = none
find ((j, v) ∷ m) k = if j == k then some v else find m k

unfoldable pub put : List (ℕ × ℕ) → ℕ → ℕ → Insert × List (ℕ × ℕ)
unfolding find
put m k v = (elim (find m k) [ none ↦ added | some w ↦ replaced ], (k, v) ∷ m)

pub find-nil : (k : ℕ) → find [] k ≡ none
unfolding find
find-nil k = refl

pub absent_of_added : (m : List (ℕ × ℕ)) (k v : ℕ) → (put m k v).0 ≡ added → find m k ≡ none
unfolding put
absent_of_added m k v h = ground (arith, h)

pub find-put :
    (m : List (ℕ × ℕ)) (k v j : ℕ)
    → (put m k v).0 ≡ added
    → find (put m k v).1 j ≡ (if k == j then some v else find m j)
unfolding put find
find-put m k v j h = refl

abbrev pub assoc : HashMap
assoc = record {
  Map = List (ℕ × ℕ);
  empty = [];
  get = find;
  insert = put;
  get-empty = find-nil;
  absent_of_added = absent_of_added;
  get-insert_added = find-put;
}

pub put_added : (m : List (ℕ × ℕ)) (k v : ℕ) → find m k ≡ none → (put m k v).0 ≡ added
unfolding put
put_added m k v h = ground (arith, h)
