-- ===== src/Base/HashMap.antt =====
-- Zephyr's sys_hashmap, which the sources use and do not contain: an interface with the documented
-- behaviour of `sys_hashmap_insert` and `sys_hashmap_get`.
pub mod Assoc
pub mod Index
use Prim.Native.Nat.{ℕ}
use mathlib.Core.Path.{◌≡◌}
use mathlib.Core.Option.{Option, none, some}
use nturt_zephyr_common.Base.Tests.{if◌then◌else◌, ◌==◌}

-- What `sys_hashmap_insert` returns: 1 for a new key, 0 for a key that was there, or a negative
-- error number, here its positive value.
pub data Insert : Type 0 where
  added : Insert
  replaced : Insert
  failed : ℕ → Insert

pub record HashMap : Type 1 where
  pub Map : Type 0
  pub empty : Map
  pub get : Map → ℕ → Option ℕ
  pub insert : Map → ℕ → ℕ → Insert × Map
  pub get-empty : (k : ℕ) → get empty k ≡ none
  -- A new key was not there, and is there afterwards.
  pub absent_of_added : (m : Map) (k v : ℕ) → (insert m k v).0 ≡ added → get m k ≡ none
  pub get-insert_added :
      (m : Map) (k v j : ℕ)
      → (insert m k v).0 ≡ added
      → get (insert m k v).1 j ≡ (if k == j then some v else get m j)
