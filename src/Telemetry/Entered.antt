-- ===== src/Telemetry/Entered.antt =====
-- subsys/telemetry/telemetry.c: the loop of `init` over the data empties their lists.
use nturt_zephyr_common.Base.{
  ℕ, zero, suc, ◌+◌, ◌<◌, ◌≡◌, refl, ap, ◌∙◌, true, false, some, List, [], ◌∷◌, arith, get_elem?,
  if◌then◌else◌, ◌==◌,
}
use mathlib.Core.Option.{some-injective}
use nturt_zephyr_common.Base.HashMap.{HashMap, Insert, added, replaced, failed}
use nturt_zephyr_common.Msg.Kernel.{Kernel}
use nturt_zephyr_common.Telemetry.{
  Normal, DataType, normal, alias, TmData, ok, normal_at, Ctx, prepared, entered, enter_all,
}
use nturt_zephyr_common.Telemetry.Values.{store_lem, resolve-store}
use nturt_zephyr_common.Telemetry.Lookup.{and_then-ok, or_invalid-ok, ok-injective}
use nturt_zephyr_common.Telemetry.Sections.{
  groups_at, SameTargets, groups_at-store, normal_at-some, groups_at-same,
}

module _ (H : HashMap) {σ : Type 0} (K : Kernel σ) where
  -- What the round of `init` for the datum with index `p` does.
  record IsPrepared (c d : Ctx H K) (p : ℕ) (t : DataType) : Type 0 where
    targets : SameTargets c.section d.section
    groups' : d.groups ≡ c.groups
    others : (r : ℕ) → ¬ (p ≡ r) → get_elem? d.section r ≡ get_elem? c.section r
    own : (n : Normal) → t ≡ normal n → groups_at d.section p ≡ some []

  prepared-IsPrepared :
      (c : Ctx H K) (p : ℕ) (t : DataType) (x : TmData) {d : Ctx H K}
      → get_elem? c.section p ≡ some x
      → x.type ≡ t
      → prepared H K c p t ≡ ok d
      → IsPrepared c d p t
  prepared-IsPrepared c p (alias q) x at same h =
      let (n, _, e) = or_invalid-ok (normal_at c.section q) _ h in
      rw (← ok-injective e) record {
        targets = λ r. refl;
        groups' = refl;
        others = λ r n. refl;
        own = λ n e. absurd (cc);
      }
  prepared-IsPrepared c p (normal n) x at same h =
      let m : Normal = record n { groups = [] } in
      let holds : normal_at c.section p ≡ some n = normal_at-some c.section p x n at same in
      rw (← ok-injective h) record {
        targets = λ r. resolve-store c.section p n m r holds;
        groups' = refl;
        others = λ r k. store_lem c.section p m x r at ∙ other r k;
        own = λ k e. groups_at-store c.section p n m p holds ∙ itself;
      }
    where
      other :
          (r : ℕ)
          → ¬ (p ≡ r)
          → (if p == r
              then some (record x { type = normal (record n { groups = [] }) })
              else get_elem? c.section r)
            ≡ get_elem? c.section r
      other r k = let f : (p == r) ≡ false = ground (arith, k) in rw f refl

      itself : (if p == p then some [] else groups_at c.section p) ≡ some []
      itself = let t : (p == p) ≡ true = ground arith in rw t refl

  -- What the loop does from the datum with index `p` on.
  pub record IsEntered (c d : Ctx H K) (p : ℕ) (ds : List TmData) : Type 0 where
    pub targets : SameTargets c.section d.section
    pub groups' : d.groups ≡ c.groups
    pub below : (r : ℕ) → r < p → groups_at d.section r ≡ groups_at c.section r
    pub cleared :
        (j : ℕ) (x : TmData) (n : Normal)
        → get_elem? ds j ≡ some x
        → x.type ≡ normal n
        → groups_at d.section (p + j) ≡ some []

  entered-prepared :
      (c : Ctx H K) (p : ℕ) (t : DataType) (r : Insert × H.Map) {d : Ctx H K}
      → entered H K c p t r ≡ ok d
      → prepared H K (record c { data_map = r.1 }) p t ≡ ok d
  unfolding entered
  entered-prepared c p t (added, m) h = h
  entered-prepared c p t (replaced, m) h = absurd (cc)
  entered-prepared c p t (failed n, m) h = absurd (cc)

  pub enter_all-IsEntered :
      (ds : List TmData) (p : ℕ) (c : Ctx H K) {c' : Ctx H K}
      → ((j : ℕ) → get_elem? c.section (p + j) ≡ get_elem? ds j)
      → enter_all H K c p ds ≡ ok c'
      → IsEntered c c' p ds
  unfolding enter_all
  enter_all-IsEntered [] p c at h = rw (← ok-injective h) record {
    targets = λ r. refl;
    groups' = refl;
    below = λ r l. refl;
    cleared = λ j x n e k. absurd (cc);
  }
  enter_all-IsEntered (d ∷ ds) p c {c'} at h =
      let r = H.insert c.data_map d.addr p in
      let (c₁, first, rest) = and_then-ok (entered H K c p d.type r) _ h in
      let x =
        prepared-IsPrepared (record c { data_map = r.1 }) p d.type d here refl
          (entered-prepared c p d.type r first) in
      let y = enter_all-IsEntered ds (suc p) c₁ (λ j. next c₁ x j) rest in
      record {
        targets = λ r. y.targets r ∙ x.targets r;
        groups' = y.groups' ∙ x.groups';
        below = λ r l.
            y.below r (omega (arith, l)) ∙ groups_at-same _ _ r (x.others r (omega (arith, l)));
        cleared = λ j z n e k. blank c₁ x y j z n e k;
      }
    where
      here : get_elem? c.section p ≡ some d
      here = ap (get_elem? c.section) (omega arith) ∙ at 0

      next :
          (c₁ : Ctx H K)
          → IsPrepared (record c { data_map = (H.insert c.data_map d.addr p).1 }) c₁ p d.type
          → (j : ℕ) → get_elem? c₁.section (suc p + j) ≡ get_elem? ds j
      next c₁ x j =
          x.others (suc p + j) (λ e. omega (arith, e))
          ∙ ap (get_elem? c.section) (omega arith)
          ∙ at (suc j)

      blank :
          (c₁ : Ctx H K)
          → IsPrepared (record c { data_map = (H.insert c.data_map d.addr p).1 }) c₁ p d.type
          → IsEntered c₁ c' (suc p) ds
          → (j : ℕ) (z : TmData) (n : Normal) → get_elem? (d ∷ ds) j ≡ some z
          → z.type ≡ normal n
          → groups_at c'.section (p + j) ≡ some []
      blank c₁ x y zero z n e k =
          ap (groups_at c'.section) (omega arith)
          ∙ y.below p (omega arith)
          ∙ x.own n (ap (λ (u : TmData). u.type) (some-injective _ _ e) ∙ k)
      blank c₁ x y (suc j) z n e k = ap (groups_at c'.section) (omega arith) ∙ y.cleared j z n e k
