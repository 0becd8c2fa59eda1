-- ===== src/Telemetry/Links.antt =====
-- subsys/telemetry/telemetry.c: `init` lists for each datum the places of the groups that publish it.
use nturt_zephyr_common.Base.{
  ℕ, suc, ◌≡◌, refl, sym, ap, ◌∙◌, Bool, true, false, Option, none, some, List, [], ◌∷◌, ◌++◌,
  arith, get_elem?, ℕ_discrete, if◌then◌else◌, ◌==◌, ◌>>=◌,
}
use mathlib.Core.Option.{some-injective}
use mathlib.Core.List.{append-nil, append_assoc}
use nturt_zephyr_common.Base.HashMap.{HashMap}
use nturt_zephyr_common.Msg.Kernel.{Kernel}
use nturt_zephyr_common.Telemetry.{
  Normal, normal, TmData, TmGroupData, TmGroup, ok, normal_at, resolve, Ctx, enter_all, link,
  link_datas, link_groups, init,
}
use nturt_zephyr_common.Telemetry.Values.{resolve-store}
use nturt_zephyr_common.Telemetry.Lookup.{and_then-ok, or_invalid-ok, ok-injective}
use nturt_zephyr_common.Telemetry.Sections.{groups_at, SameTargets, groups_at-store}
use nturt_zephyr_common.Telemetry.Entered.{enter_all-IsEntered}

abbrev pub leads_to : Option ℕ → ℕ → Bool
leads_to none r = false
leads_to (some q) r = q == r

-- The places, in order, of those data of a group, and of groups, that lead to one datum.
abbrev pub places_in : List TmData → ℕ → ℕ → List TmGroupData → ℕ → List (ℕ × ℕ)
places_in section g i [] r = []
places_in section g i (d ∷ ds) r =
    (if leads_to (resolve section d.datum) r then (g, i) ∷ [] else [])
    ++ places_in section g (suc i) ds r

abbrev pub places_of : {σ : Type 0} → List TmData → ℕ → List (TmGroup σ) → ℕ → List (ℕ × ℕ)
places_of section g [] r = []
places_of section g (group ∷ groups) r =
    places_in section g 0 group.datas r ++ places_of section (suc g) groups r

places_in-same :
    (s t : List TmData) (g i : ℕ) (ds : List TmGroupData) (r : ℕ)
    → SameTargets s t
    → places_in t g i ds r ≡ places_in s g i ds r
places_in-same s t g i [] r h = refl
places_in-same s t g i (d ∷ ds) r h = rw (h d.datum, places_in-same s t g (suc i) ds r h) refl

places_of-same :
    {σ : Type 0} (s t : List TmData) (g : ℕ) (groups : List (TmGroup σ)) (r : ℕ)
    → SameTargets s t
    → places_of t g groups r ≡ places_of s g groups r
places_of-same s t g [] r h = refl
places_of-same s t g (group ∷ groups) r h =
    rw (places_in-same s t g 0 group.datas r h, places_of-same s t (suc g) groups r h) refl

appended :
    (section : List TmData) (q : ℕ) (n : Normal) (r : ℕ) (l : List (ℕ × ℕ)) (x : ℕ × ℕ)
    → normal_at section q ≡ some n
    → groups_at section r ≡ some l
    → (if q == r then some (n.groups ++ x ∷ []) else groups_at section r)
      ≡ some (l ++ (if q == r then x ∷ [] else []))
appended section q n r l x at e = elim (ℕ_discrete q r) [
  | yes p ↦
      let t : (q == r) ≡ true = ground (arith, p) in
      rw t (ap (λ (k : List (ℕ × ℕ)). some (k ++ x ∷ [])) (own p))
  | no p ↦ let f : (q == r) ≡ false = ground (arith, p) in rw f (e ∙ ap some (sym (append-nil l)))
]
  where
    own : q ≡ r → n.groups ≡ l
    own p = some-injective _ _ (
        sym (ap (λ (o : Option Normal). do n ← o; some n.groups) at) ∙ ap (groups_at section) p ∙ e)

module _ (H : HashMap) {σ : Type 0} (K : Kernel σ) where
  -- What holds of a context after links, from the lists before.
  record IsLinked (c c' : Ctx H K) (added_places : ℕ → List (ℕ × ℕ)) : Type 0 where
    targets : SameTargets c.section c'.section
    groups' : c'.groups ≡ c.groups
    lists :
        (r : ℕ) (l : List (ℕ × ℕ))
        → groups_at c.section r ≡ some l
        → groups_at c'.section r ≡ some (l ++ added_places r)

  link-IsLinked :
      (c : Ctx H K) (g i p : ℕ) {c' : Ctx H K}
      → link H K c g i p ≡ ok c'
      → IsLinked c c' (λ r. if leads_to (resolve c.section p) r then (g, i) ∷ [] else [])
  unfolding link
  link-IsLinked c g i p {c'} h =
      let (q, led, there) = or_invalid-ok (resolve c.section p) _ h in
      let (n, at, linked) = or_invalid-ok (normal_at c.section q) _ there in
      let m : Normal = record n { groups = n.groups ++ (g, i) ∷ [] } in
      rw (← ok-injective linked, led)
        record {
          targets = λ p. resolve-store c.section q n m p at;
          groups' = refl;
          lists = λ r l e.
              groups_at-store c.section q n m r at ∙ appended c.section q n r l (g, i) at e;
        }

  unlinked-IsLinked : (c : Ctx H K) → IsLinked c c (λ r. [])
  unlinked-IsLinked c = record {
    targets = λ p. refl;
    groups' = refl;
    lists = λ r l e. e ∙ ap some (sym (append-nil l));
  }

  joined-IsLinked :
      (c d e : Ctx H K) (f g : ℕ → List (ℕ × ℕ))
      → IsLinked c d f
      → IsLinked d e g
      → IsLinked c e (λ r. f r ++ g r)
  joined-IsLinked c d e f g x y = record {
    targets = λ p. y.targets p ∙ x.targets p;
    groups' = y.groups' ∙ x.groups';
    lists = λ r l h. y.lists r (l ++ f r) (x.lists r l h) ∙ ap some (append_assoc l (f r) (g r));
  }

  same-IsLinked :
      (c d : Ctx H K) (f g : ℕ → List (ℕ × ℕ))
      → ((r : ℕ) → g r ≡ f r)
      → IsLinked c d f
      → IsLinked c d g
  same-IsLinked c d f g q x = record {
    targets = x.targets;
    groups' = x.groups';
    lists = λ r l h. x.lists r l h ∙ ap (λ a. some (l ++ a)) (sym (q r));
  }

  link_datas-IsLinked :
      (ds : List TmGroupData) (g i : ℕ) (c : Ctx H K) {c' : Ctx H K}
      → link_datas H K c g i ds ≡ ok c'
      → IsLinked c c' (places_in c.section g i ds)
  unfolding link_datas
  link_datas-IsLinked [] g i c h = rw (← ok-injective h) (unlinked-IsLinked c)
  link_datas-IsLinked (d ∷ ds) g i c {c'} h =
      let (c₁, first, rest) = and_then-ok (link H K c g i d.datum) _ h in
      let x = link-IsLinked c g i d.datum first in
      joined-IsLinked c c₁ c' _ (places_in c.section g (suc i) ds) x (
        same-IsLinked c₁ c' _ _
          (λ r. sym (places_in-same c.section c₁.section g (suc i) ds r x.targets))
          (link_datas-IsLinked ds g (suc i) c₁ rest))

  link_groups-IsLinked :
      (groups : List (TmGroup σ)) (g : ℕ) (c : Ctx H K) {c' : Ctx H K}
      → link_groups H K c g groups ≡ ok c'
      → IsLinked c c' (places_of c.section g groups)
  unfolding link_groups
  link_groups-IsLinked [] g c h = rw (← ok-injective h) (unlinked-IsLinked c)
  link_groups-IsLinked (group ∷ groups) g c {c'} h =
      let (c₁, first, rest) = and_then-ok (link_datas H K c g 0 group.datas) _ h in
      let x = link_datas-IsLinked group.datas g 0 c first in
      joined-IsLinked c c₁ c' _ (places_of c.section (suc g) groups) x (
        same-IsLinked c₁ c' _ _
          (λ r. sym (places_of-same c.section c₁.section (suc g) groups r x.targets))
          (link_groups-IsLinked groups (suc g) c₁ rest))

  -- After a successful `init`, each normal datum lists the places of the groups whose datum leads to it,
  -- in the order of the groups and of their data, and no other.
  pub init-places_of :
      (c : Ctx H K) (r : ℕ) (x : TmData) (n : Normal) {c' : Ctx H K}
      → init H K c ≡ ok c'
      → get_elem? c.section r ≡ some x
      → x.type ≡ normal n
      → groups_at c'.section r ≡ some (places_of c.section 0 c.groups r)
  unfolding init
  init-places_of c r x n {c'} h at t =
      let (c₁, first, rest) = and_then-ok (enter_all H K c 0 c.section) _ h in
      let e =
        enter_all-IsEntered H K c.section 0 c (λ j. ap (get_elem? c.section) (omega arith)) first in
      let l = link_groups-IsLinked c₁.groups 0 c₁ rest in
      l.lists r [] (ap (groups_at c₁.section) (omega arith) ∙ e.cleared r x n at t)
      ∙ ap some (
          ap (λ gs. places_of c₁.section 0 gs r) e.groups'
          ∙ places_of-same c.section c₁.section 0 c.groups r e.targets)
