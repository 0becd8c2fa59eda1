-- ===== src/Telemetry.antt =====
-- subsys/telemetry/telemetry.c and include/nturt/telemetry.h: telemetry data by their addresses, and the
-- groups that publish them. Data and groups stand in linker sections; a pointer to one is its index
-- there, and a pointer to a `struct tm_group_data` is the index of its group with its place in `datas`.
pub mod Values
pub mod Groups
pub mod Lookup
pub mod Links
pub mod Sections
pub mod Entered
mod Tests
use nturt_zephyr_common.Base.{
  ℕ, zero, suc, ◌+◌, ◌-◌, Bool, true, false, Option, none, some, List, [], ◌∷◌, ◌++◌, get_elem?,
  set, ◌>>=◌, take,
}
use nturt_zephyr_common.Base.HashMap.{HashMap, Insert, added, replaced, failed}
use nturt_zephyr_common.Msg.Kernel.{Kernel}
use nturt_zephyr_common.Msg.Aggregation.{AggConfig, Agg, agg_update}

-- The members of `struct tm_data` of normal data; `buffer` is what `data` points to.
pub record Normal : Type 0 where
  pub size : ℕ
  pub groups : List (ℕ × ℕ)
  pub buffer : List ℕ

-- `enum tm_data_type` with the members that it selects
pub data DataType : Type 0 where
  normal : Normal → DataType
  alias : ℕ → DataType

-- `struct tm_data`
pub record TmData : Type 0 where
  pub addr : ℕ
  pub type : DataType

-- `struct tm_group_data`, less the pointer to its group
pub record TmGroupData : Type 0 where
  pub datum : ℕ
  pub pub_data : List ℕ

-- `struct tm_group`, with the constant fields of its aggregation
pub record TmGroup (σ : Type 0) : Type 0 where
  pub config : AggConfig
  pub agg : Agg σ
  pub datas : List TmGroupData

-- What a function returns: a value, an error number, or nothing, where it follows a pointer that leads nowhere or
-- an alias of an alias, or an assertion fails.
pub data TmResult {ℓ} (A : Type ℓ) : Type ℓ where
  ok : A → TmResult A
  errno : ℕ → TmResult A
  invalid : TmResult A

-- ENOENT
abbrev pub enoent : ℕ
enoent = 2

-- An early return ends the function.
abbrev pub and_then {ℓ κ} : {A : Type ℓ} {B : Type κ} → TmResult A → (A → TmResult B) → TmResult B
and_then (ok a) f = f a
and_then (errno n) f = errno n
and_then invalid f = invalid

abbrev pub or_invalid {ℓ κ} : {A : Type ℓ} {B : Type κ} → Option A → (A → TmResult B) → TmResult B
or_invalid none f = invalid
or_invalid (some a) f = f a

abbrev pub or_not_found {ℓ κ} : {A : Type ℓ} {B : Type κ} → Option A → (A → TmResult B) → TmResult B
or_not_found none f = errno enoent
or_not_found (some a) f = f a

-- `data = data->alias` where the data are an alias
abbrev pub followed : ℕ → DataType → ℕ
followed p (normal n) = p
followed p (alias q) = q

unfoldable pub resolve : List TmData → ℕ → Option ℕ
resolve section p = do d ← get_elem? section p; some (followed p d.type)

abbrev pub as_normal : DataType → Option Normal
as_normal (normal n) = some n
as_normal (alias q) = none

unfoldable pub normal_at : List TmData → ℕ → Option Normal
normal_at section p = do d ← get_elem? section p; as_normal d.type

-- A write to the data that a pointer leads to
abbrev pub set_type : Option TmData → List TmData → ℕ → DataType → List TmData
set_type none section p t = section
set_type (some d) section p t = set section p (record d { type = t })

unfoldable pub store : List TmData → ℕ → Normal → List TmData
store section p n = set_type (get_elem? section p) section p (normal n)

module _ {σ : Type 0} (K : Kernel σ) where
  -- agg_update of the aggregation of a group, for one of its places
  abbrev pub mark_in : Option (TmGroup σ) → List (TmGroup σ) → ℕ → ℕ → List (TmGroup σ)
  mark_in none groups g i = groups
  mark_in (some group) groups g i =
      set groups g (record group { agg = agg_update K group.config group.agg i })

  unfoldable pub mark : List (TmGroup σ) → ℕ × ℕ → List (TmGroup σ)
  mark groups (g, i) = mark_in (get_elem? groups g) groups g i

  unfoldable pub tm_data_notify_lock : List (TmGroup σ) → List (ℕ × ℕ) → List (TmGroup σ)
  tm_data_notify_lock groups [] = groups
  tm_data_notify_lock groups (r ∷ rs) = tm_data_notify_lock (mark groups r) rs

module _ (H : HashMap) {σ : Type 0} (K : Kernel σ) where
  -- The linker sections and `data_map`
  pub record Ctx : Type 0 where
    pub section : List TmData
    pub groups : List (TmGroup σ)
    pub data_map : H.Map

  unfoldable pub data_get : Ctx → ℕ → Option ℕ
  data_get c addr = H.get c.data_map addr

  -- The normal data behind an address, once it is found
  unfoldable pub target : Ctx → ℕ → Option ℕ
  target c addr = do p ← data_get c addr; resolve c.section p

  unfoldable pub value_at : Ctx → ℕ → TmResult (List ℕ)
  value_at c p =
      or_invalid (resolve c.section p)
        (λ q. or_invalid (normal_at c.section q) (λ n. ok (take n.size n.buffer)))

  unfoldable pub tm_data_get : Ctx → ℕ → TmResult (List ℕ)
  tm_data_get c addr = or_not_found (data_get c addr) (λ p. value_at c p)

  abbrev pub updated : Ctx → ℕ → Normal → List ℕ → Ctx
  updated c q n value = record c {
    section = store c.section q (record n { buffer = take n.size value });
    groups = tm_data_notify_lock K c.groups n.groups;
  }

  unfoldable pub update_at : Ctx → ℕ → List ℕ → TmResult Ctx
  update_at c p value =
      or_invalid (resolve c.section p)
        (λ q. or_invalid (normal_at c.section q) (λ n. ok (updated c q n value)))

  unfoldable pub tm_data_update : Ctx → ℕ → List ℕ → TmResult Ctx
  tm_data_update c addr value = or_not_found (data_get c addr) (λ p. update_at c p value)

  -- The loop of `tm_group_copy`
  unfoldable pub copy_from : Ctx → List TmGroupData → TmResult (List TmGroupData)
  copy_from c [] = ok []
  copy_from c (d ∷ ds) =
      and_then (value_at c d.datum)
        (λ v. and_then (copy_from c ds) (λ rest. ok (record d { pub_data = v } ∷ rest)))

  unfoldable pub tm_group_copy : Ctx → ℕ → TmResult Ctx
  tm_group_copy c g = or_invalid (get_elem? c.groups g) (λ group.
      and_then (copy_from c group.datas)
        (λ ds. ok (record c { groups = set c.groups g (record group { datas = ds }) })))

  -- STAILQ_INIT, or the assertion on an alias
  abbrev pub prepared : Ctx → ℕ → DataType → TmResult Ctx
  prepared c p (normal n) = ok (record c { section = store c.section p (record n { groups = [] }) })
  prepared c p (alias q) = or_invalid (normal_at c.section q) (λ n. ok c)

  -- The body of the loop of `init` over the data
  unfoldable pub entered : Ctx → ℕ → DataType → Insert × H.Map → TmResult Ctx
  entered c p t (added, m) = prepared (record c { data_map = m }) p t
  entered c p t (replaced, m) = invalid
  entered c p t (failed n, m) = errno n

  unfoldable pub enter_all : Ctx → ℕ → List TmData → TmResult Ctx
  enter_all c p [] = ok c
  enter_all c p (d ∷ ds) =
      and_then (entered c p d.type (H.insert c.data_map d.addr p)) (λ c'. enter_all c' (suc p) ds)

  -- STAILQ_INSERT_TAIL of the datum of a place of a group
  unfoldable pub link : Ctx → ℕ → ℕ → ℕ → TmResult Ctx
  link c g i p = or_invalid (resolve c.section p) (λ q. or_invalid (normal_at c.section q) (λ n.
      ok
        (record c { section = store c.section q (record n { groups = n.groups ++ (g, i) ∷ [] }) })))

  unfoldable pub link_datas : Ctx → ℕ → ℕ → List TmGroupData → TmResult Ctx
  link_datas c g i [] = ok c
  link_datas c g i (d ∷ ds) = and_then (link c g i d.datum) (λ c'. link_datas c' g (suc i) ds)

  unfoldable pub link_groups : Ctx → ℕ → List (TmGroup σ) → TmResult Ctx
  link_groups c g [] = ok c
  link_groups c g (group ∷ groups) =
      and_then (link_datas c g 0 group.datas) (λ c'. link_groups c' (suc g) groups)

  unfoldable pub init : Ctx → TmResult Ctx
  init c = and_then (enter_all c 0 c.section) (λ c'. link_groups c' 0 c'.groups)
