-- ===== src/Telemetry/Groups.antt =====
-- subsys/telemetry/telemetry.c: what groups learn of updates, and what they copy.
use nturt_zephyr_common.Base.{
  ℕ, ◌≡◌, refl, sym, ap, ◌∙◌, Bool, true, false, Option, none, some, List, [], ◌∷◌, arith, All,
  get_elem?, get_elem?-set, set, ◌==◌, ℕ_discrete, if◌then◌else◌,
}
use mathlib.Core.Option.{some-injective}
use nturt_zephyr_common.Base.HashMap.{HashMap}
use nturt_zephyr_common.Msg.Kernel.{Kernel}
use nturt_zephyr_common.Msg.Aggregation.{AggConfig, Agg, agg_update}
use nturt_zephyr_common.Telemetry.{
  Normal, TmGroupData, TmGroup, ok, normal_at, mark_in, mark, tm_data_notify_lock, Ctx, target,
  value_at, tm_data_update, copy_from, tm_group_copy,
}
use nturt_zephyr_common.Telemetry.Values.{tm_data_update-inv}

-- The places of a group in a list of group data.
abbrev pub places : ℕ → List (ℕ × ℕ) → List ℕ
places g [] = []
places g ((h, i) ∷ rs) = if h == g then i ∷ places g rs else places g rs

module _ {σ : Type 0} (K : Kernel σ) where
  -- The aggregation of a group after updates of members.
  abbrev pub agg_updates : AggConfig → Agg σ → List ℕ → Agg σ
  agg_updates config a [] = a
  agg_updates config a (i ∷ is) = agg_updates config (agg_update K config a i) is

  abbrev pub notified : TmGroup σ → List ℕ → TmGroup σ
  notified group is = record group { agg = agg_updates group.config group.agg is }

  mark_lem :
      (groups : List (TmGroup σ)) (h i g : ℕ) (group : TmGroup σ)
      → get_elem? groups g ≡ some group
      → get_elem? (mark K groups (h, i)) g ≡ some (notified group (if h == g then i ∷ [] else []))
  unfolding mark
  mark_lem groups h i g group e = go (get_elem? groups h) refl
    where
      one :
          (x : TmGroup σ)
          → h ≡ g
          → x ≡ group
          → Path
              (Option (TmGroup σ))
              (if h == g
                then some (record x { agg = agg_update K x.config x.agg i })
                else get_elem? groups g)
              (some (notified group (if h == g then i ∷ [] else [])))
      one x p q = let t : (g == g) ≡ true = ground arith in rw (p, q, t) refl

      other :
          (o : Option (TmGroup σ))
          → ¬ (h ≡ g)
          → Path
              (Option (TmGroup σ))
              (if h == g then o else get_elem? groups g)
              (some (notified group (if h == g then i ∷ [] else [])))
      other o n = let f : (h == g) ≡ false = ground (arith, n) in rw (f, e) refl

      go :
          (o : Option (TmGroup σ))
          → get_elem? groups h ≡ o
          → get_elem? (mark_in K o groups h i) g
            ≡ some (notified group (if h == g then i ∷ [] else []))
      go none k = elim (ℕ_discrete h g) [
        | yes p ↦ absurd (cc)
        | no n ↦ let f : (h == g) ≡ false = ground (arith, n) in rw f e
      ]
      go (some x) k = get_elem?-set groups h g _ k ∙ elim (ℕ_discrete h g) [
        | yes p ↦ one x p (some-injective _ _ (sym k ∙ ap (get_elem? groups) p ∙ e))
        | no n ↦ other _ n
      ]

  joined :
      (b : Bool) (group : TmGroup σ) (i : ℕ) (is : List ℕ)
      → notified (notified group (if b then i ∷ [] else [])) is
        ≡ notified group (if b then i ∷ is else is)
  joined true group i is = refl
  joined false group i is = refl

  notify_lem :
      (rs : List (ℕ × ℕ)) (groups : List (TmGroup σ)) (g : ℕ) (group : TmGroup σ)
      → get_elem? groups g ≡ some group
      → get_elem? (tm_data_notify_lock K groups rs) g ≡ some (notified group (places g rs))
  unfolding tm_data_notify_lock
  notify_lem [] groups g group e = e
  notify_lem ((h, i) ∷ rs) groups g group e =
      notify_lem rs (mark K groups (h, i)) g _ (mark_lem groups h i g group e)
      ∙ ap some (joined (h == g) group i (places g rs))

module _ (H : HashMap) {σ : Type 0} (K : Kernel σ) where
  -- A successful update tells every group of the normal data behind the address: `agg_update` runs for
  -- each of the group's places in the list of the data, in order, and for no other.
  pub tm_data_update-notifies :
      (c : Ctx H K) (addr : ℕ) (value : List ℕ) (g : ℕ) (group : TmGroup σ) {c' : Ctx H K}
      → tm_data_update H K c addr value ≡ ok c'
      → get_elem? c.groups g ≡ some group
      → (q : ℕ) × (n : Normal) × (target H K c addr ≡ some q)
        × (normal_at c.section q ≡ some n)
        × (get_elem? c'.groups g ≡ some (notified K group (places g n.groups)))
  tm_data_update-notifies c addr value g group run at =
      let (q, n, led, holds, same) = tm_data_update-inv H K c addr value run in
      (
        q,
        n,
        led,
        holds,
        ap (λ (d : Ctx H K). get_elem? d.groups g) (sym same)
            ∙ notify_lem K n.groups c.groups g group at,
      )

  -- The data of a group after a copy: each place has the value of its datum.
  abbrev pub IsCopy : Ctx H K → List TmGroupData → List TmGroupData → Type 0
  IsCopy c [] [] = Unit
  IsCopy c [] (y ∷ ys) = ⊥
  IsCopy c (x ∷ xs) [] = ⊥
  IsCopy c (x ∷ xs) (y ∷ ys) =
      (y.datum ≡ x.datum) × (value_at H K c x.datum ≡ ok y.pub_data) × IsCopy c xs ys

  -- A datum that has a value
  abbrev pub HasValue : Ctx H K → TmGroupData → Type 0
  HasValue c d = (v : List ℕ) × (value_at H K c d.datum ≡ ok v)

  copy_from-IsCopy :
      (c : Ctx H K) (ds : List TmGroupData)
      → All (HasValue c) ds
      → (ds' : List TmGroupData) × (copy_from H K c ds ≡ ok ds') × IsCopy c ds ds'
  unfolding copy_from
  copy_from-IsCopy c [] h = ([], refl, tt)
  copy_from-IsCopy c (d ∷ ds) ((v, e), hs) =
      let (ds', p, copied) = copy_from-IsCopy c ds hs in
      (record d { pub_data = v } ∷ ds', rw (e, p) refl, (refl, e, copied))

  -- Where the data of a group have values, `tm_group_copy` succeeds, gives each of its places the value
  -- of its datum, and changes no data, no aggregation and no other group.
  pub tm_group_copy-IsCopy :
      (c : Ctx H K) (g : ℕ) (group : TmGroup σ)
      → get_elem? c.groups g ≡ some group
      → All (HasValue c) group.datas
      → (ds : List TmGroupData) × (tm_group_copy H K c g
          ≡ ok (record c { groups = set c.groups g (record group { datas = ds }) }))
        × IsCopy c group.datas ds
  unfolding tm_group_copy
  tm_group_copy-IsCopy c g group at h =
      let (ds, p, copied) = copy_from-IsCopy c group.datas h in (ds, rw (at, p) refl, copied)
