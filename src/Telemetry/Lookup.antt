-- ===== src/Telemetry/Lookup.antt =====
-- subsys/telemetry/telemetry.c: `init` makes the data found under their addresses.
use nturt_zephyr_common.Base.{
  ℕ, zero, suc, ◌≡◌, refl, sym, ap, ◌∙◌, Option, none, some, List, [], ◌∷◌, map, arith, get_elem?,
}
use nturt_zephyr_common.Base.HashMap.{HashMap, Insert, added, replaced, failed}
use nturt_zephyr_common.Base.HashMap.Index.{insert_all, if_added, insert_all-get}
use nturt_zephyr_common.Msg.Kernel.{Kernel}
use nturt_zephyr_common.Telemetry.{
  DataType, normal, alias, TmData, TmGroupData, TmGroup, TmResult, ok, errno, invalid, and_then,
  or_invalid, normal_at, resolve, Ctx, data_get, prepared, entered, enter_all, link, link_datas,
  link_groups, init,
}

addrs : List TmData → List ℕ
addrs ds = map (λ (d : TmData). d.addr) ds

pub and_then-ok :
    {A B : Type 0} (r : TmResult A) (f : A → TmResult B) {b : B}
    → and_then r f ≡ ok b
    → (a : A) × (r ≡ ok a) × (f a ≡ ok b)
and_then-ok (ok a) f h = (a, refl, h)
and_then-ok (errno n) f h = absurd (cc)
and_then-ok invalid f h = absurd (cc)

pub or_invalid-ok :
    {A B : Type 0} (o : Option A) (f : A → TmResult B) {b : B}
    → or_invalid o f ≡ ok b
    → (a : A) × (o ≡ some a) × (f a ≡ ok b)
or_invalid-ok (some a) f h = (a, refl, h)
or_invalid-ok none f h = absurd (cc)

pub ok-injective : {A : Type 0} {x y : A} → Path (TmResult A) (ok x) (ok y) → x ≡ y
ok-injective e = cc

module _ (H : HashMap) {σ : Type 0} (K : Kernel σ) where
  prepared-map :
      (c : Ctx H K) (p : ℕ) (t : DataType) {c' : Ctx H K}
      → prepared H K c p t ≡ ok c'
      → c'.data_map ≡ c.data_map
  prepared-map c p (normal n) h = ap (λ (d : Ctx H K). d.data_map) (sym (ok-injective h))
  prepared-map c p (alias q) h =
      let (n, _, e) = or_invalid-ok (normal_at c.section q) _ h in
      ap (λ (d : Ctx H K). d.data_map) (sym (ok-injective e))

  enter_all-inserts :
      (ds : List TmData) (p : ℕ) (c : Ctx H K) {c' : Ctx H K}
      → enter_all H K c p ds ≡ ok c'
      → insert_all H c.data_map p (addrs ds) ≡ some c'.data_map
  unfolding enter_all insert_all addrs entered
  enter_all-inserts [] p c h = ap (λ (d : Ctx H K). some d.data_map) (ok-injective h)
  enter_all-inserts (d ∷ ds) p c {c'} h =
      let (c₁, first, rest) =
        and_then-ok (entered H K c p d.type (H.insert c.data_map d.addr p)) _ h in
      go (H.insert c.data_map d.addr p) c₁ first (enter_all-inserts ds (suc p) c₁ rest)
    where
      go :
          (r : Insert × H.Map) (c₁ : Ctx H K)
          → entered H K c p d.type r ≡ ok c₁
          → insert_all H c₁.data_map (suc p) (addrs ds) ≡ some c'.data_map
          → if_added r (λ m. insert_all H m (suc p) (addrs ds)) ≡ some c'.data_map
      go (added, m) c₁ first rest =
          let same : c₁.data_map ≡ m = prepared-map (record c { data_map = m }) p d.type first in
          ap (λ x. insert_all H x (suc p) (addrs ds)) (sym same) ∙ rest
      go (replaced, m) c₁ first rest = absurd (cc)
      go (failed n, m) c₁ first rest = absurd (cc)

  link_datas-map :
      (ds : List TmGroupData) (g i : ℕ) (c : Ctx H K) {c' : Ctx H K}
      → link_datas H K c g i ds ≡ ok c'
      → c'.data_map ≡ c.data_map
  unfolding link_datas link
  link_datas-map [] g i c h = ap (λ (d : Ctx H K). d.data_map) (sym (ok-injective h))
  link_datas-map (d ∷ ds) g i c h =
      let (c₁, first, rest) = and_then-ok (link H K c g i d.datum) _ h in
      let (q, _, there) = or_invalid-ok (resolve c.section d.datum) _ first in
      let (n, _, linked) = or_invalid-ok (normal_at c.section q) _ there in
      link_datas-map ds g (suc i) c₁ rest
      ∙ ap (λ (x : Ctx H K). x.data_map) (sym (ok-injective linked))

  link_groups-map :
      (groups : List (TmGroup σ)) (g : ℕ) (c : Ctx H K) {c' : Ctx H K}
      → link_groups H K c g groups ≡ ok c'
      → c'.data_map ≡ c.data_map
  unfolding link_groups
  link_groups-map [] g c h = ap (λ (d : Ctx H K). d.data_map) (sym (ok-injective h))
  link_groups-map (group ∷ groups) g c h =
      let (c₁, first, rest) = and_then-ok (link_datas H K c g 0 group.datas) _ h in
      link_groups-map groups (suc g) c₁ rest ∙ link_datas-map group.datas g 0 c first

  get_elem?-addrs :
      (ds : List TmData) (i : ℕ) (d : TmData)
      → get_elem? ds i ≡ some d
      → get_elem? (addrs ds) i ≡ some d.addr
  unfolding addrs
  get_elem?-addrs [] i d h = absurd (cc)
  get_elem?-addrs (x ∷ xs) zero d h = ground (arith, h)
  get_elem?-addrs (x ∷ xs) (suc i) d h = get_elem?-addrs xs i d h

  -- After a successful `init`, the data of the section are found under their addresses.
  pub init-data_get :
      (c : Ctx H K) (i : ℕ) (d : TmData) {c' : Ctx H K}
      → init H K c ≡ ok c'
      → get_elem? c.section i ≡ some d
      → data_get H K c' d.addr ≡ some i
  unfolding init data_get
  init-data_get c i d {c'} h at =
      let (c₁, first, rest) = and_then-ok (enter_all H K c 0 c.section) _ h in
      let same : c'.data_map ≡ c₁.data_map = link_groups-map c₁.groups 0 c₁ rest in
      ap (λ m. H.get m d.addr) same
      ∙ insert_all-get H c.data_map 0 (addrs c.section) i d.addr
          (enter_all-inserts c.section 0 c first) (get_elem?-addrs c.section i d at)
      ∙ ap some (omega arith)
