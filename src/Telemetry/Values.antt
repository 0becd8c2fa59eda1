-- ===== src/Telemetry/Values.antt =====
-- subsys/telemetry/telemetry.c: an update is what is got afterwards, under every address of the data.
use nturt_zephyr_common.Base.{
  ℕ, ◌≡◌, ◌≢◌, ◌⊎◌, inl, inr, refl, sym, ap, ◌∙◌, Bool, true, false, Option, Option-cases, none,
  some, List, arith, get_elem?, get_elem?-set, ◌==◌, ◌>>=◌, take, take-take, take-length, length,
  if◌then◌else◌, ℕ_discrete,
}
use mathlib.Core.Option.{some-injective}
use nturt_zephyr_common.Base.HashMap.{HashMap}
use nturt_zephyr_common.Msg.Kernel.{Kernel}
use nturt_zephyr_common.Telemetry.{
  Normal, DataType, TmGroup, normal, alias, TmData, TmResult, ok, invalid, or_invalid, or_not_found,
  followed, resolve, as_normal, normal_at, store, Ctx, data_get, target, value_at, tm_data_get,
  updated, update_at, tm_data_update, tm_data_notify_lock,
}

pub normal_at-inv :
    (section : List TmData) (q : ℕ) {n : Normal}
    → normal_at section q ≡ some n
    → (d : TmData) × (get_elem? section q ≡ some d) × (d.type ≡ normal n)
unfolding normal_at
normal_at-inv section q {n} h = go (get_elem? section q) h
  where
    typed : (t : DataType) → as_normal t ≡ some n → t ≡ normal n
    typed (normal m) h = ap normal (some-injective _ _ h)
    typed (alias p) h = absurd (cc)

    go :
        (o : Option TmData)
        → (do d ← o; as_normal d.type) ≡ some n
        → (d : TmData) × (o ≡ some d) × (d.type ≡ normal n)
    go none h = absurd (cc)
    go (some d) h = (d, refl, typed d.type h)

pub store_lem :
    (section : List TmData) (q : ℕ) (m : Normal) (d : TmData) (j : ℕ)
    → get_elem? section q ≡ some d
    → get_elem? (store section q m) j
      ≡ (if q == j then some (record d { type = normal m }) else get_elem? section j)
unfolding store
store_lem section q m d j h = rw h (get_elem?-set section q j (record d { type = normal m }) h)

if_bind :
    {A B : Type 0} (b : Bool) (x : A) (o : Option A) (f : A → Option B)
    → ((if b then some x else o) >>= f) ≡ (if b then f x else o >>= f)
if_bind true x o f = refl
if_bind false x o f = refl

resolve_self :
    (section : List TmData) (q : ℕ) (n : Normal)
    → normal_at section q ≡ some n
    → resolve section q ≡ some q
unfolding resolve
resolve_self section q n h =
    let (d, at, t) = normal_at-inv section q h in
    ap (λ (o : Option TmData). do d ← o; some (followed q d.type)) at
    ∙ ap (λ t. some (followed q t)) t

bound :
    (section : List TmData) (q : ℕ) (m : Normal) (p : ℕ) (d : TmData)
    → get_elem? section q ≡ some d
    → resolve (store section q m) p ≡ (if q == p then some p else resolve section p)
unfolding resolve
bound section q m p d at =
    ap (λ (o : Option TmData). do d ← o; some (followed p d.type)) (store_lem section q m d p at)
    ∙ if_bind (q == p) (record d { type = normal m }) (get_elem? section p)
        (λ d. some (followed p d.type))

if_resolve :
    (section : List TmData) (q p : ℕ)
    → resolve section q ≡ some q
    → (if q == p then some p else resolve section p) ≡ resolve section p
if_resolve section q p h = elim (ℕ_discrete q p) [
  | yes e ↦ rw⁻¹ e (ground (arith, h))
  | no e ↦ ground (arith, e)
]

-- A write to normal data leads no pointer elsewhere.
pub resolve-store :
    (section : List TmData) (q : ℕ) (n m : Normal) (p : ℕ)
    → normal_at section q ≡ some n
    → resolve (store section q m) p ≡ resolve section p
resolve-store section q n m p h =
    let (d, at, t) = normal_at-inv section q h in
    bound section q m p d at ∙ if_resolve section q p (resolve_self section q n h)

pub normal_at-store :
    (section : List TmData) (q : ℕ) (n m : Normal) (p : ℕ)
    → normal_at section q ≡ some n
    → normal_at (store section q m) p ≡ (if q == p then some m else normal_at section p)
unfolding normal_at
normal_at-store section q n m p h =
    let (d, at, t) = normal_at-inv section q h in
    ap (λ (o : Option TmData). do d ← o; as_normal d.type) (store_lem section q m d p at)
    ∙ if_bind (q == p) (record d { type = normal m }) (get_elem? section p) (λ d. as_normal d.type)

-- What normal data hold
abbrev value_of : Option Normal → TmResult (List ℕ)
value_of o = or_invalid o (λ n. ok (take n.size n.buffer))

module _ (H : HashMap) {σ : Type 0} (K : Kernel σ) where
  value_at-resolved :
      (c : Ctx H K) (p r : ℕ)
      → resolve c.section p ≡ some r
      → value_at H K c p ≡ value_of (normal_at c.section r)
  unfolding value_at
  value_at-resolved c p r h =
      ap (λ (o : Option ℕ). or_invalid o (λ q. value_of (normal_at c.section q))) h

  value_at-lost : (c : Ctx H K) (p : ℕ) → resolve c.section p ≡ none → value_at H K c p ≡ invalid
  unfolding value_at
  value_at-lost c p h =
      ap (λ (o : Option ℕ). or_invalid o (λ q. value_of (normal_at c.section q))) h

  -- A successful update writes normal data, to which the address leads.
  pub tm_data_update-inv :
      (c : Ctx H K) (addr : ℕ) (value : List ℕ) {c' : Ctx H K}
      → tm_data_update H K c addr value ≡ ok c'
      → (q : ℕ) × (n : Normal) × (target H K c addr ≡ some q)
        × (normal_at c.section q ≡ some n)
        × (updated H K c q n value ≡ c')
  unfolding tm_data_update update_at target
  tm_data_update-inv c addr value {c'} h = by_pointer (data_get H K c addr) h
    where
      ok-injective : {x y : Ctx H K} → Path (TmResult (Ctx H K)) (ok x) (ok y) → x ≡ y
      ok-injective e = cc

      by_data :
          (q : ℕ) (o : Option Normal)
          → normal_at c.section q ≡ o
          → or_invalid o (λ n. ok (updated H K c q n value)) ≡ ok c'
          → (n : Normal) × (normal_at c.section q ≡ some n) × (updated H K c q n value ≡ c')
      by_data q none e h = absurd (cc)
      by_data q (some n) e h = (n, e, ok-injective h)

      by_target :
          (o : Option ℕ)
          → or_invalid o
              (λ q. or_invalid (normal_at c.section q) (λ n. ok (updated H K c q n value)))
            ≡ ok c'
          → (q : ℕ) × (n : Normal) × (o ≡ some q)
            × (normal_at c.section q ≡ some n)
            × (updated H K c q n value ≡ c')
      by_target none h = absurd (cc)
      by_target (some q) h =
          let (n, e, k) = by_data q (normal_at c.section q) refl h in (q, n, refl, e, k)

      by_pointer :
          (o : Option ℕ)
          → or_not_found o (λ p.
            or_invalid
              (resolve c.section p)
              (λ q. or_invalid (normal_at c.section q) (λ n. ok (updated H K c q n value))))
            ≡ ok c'
          → (q : ℕ) × (n : Normal) × ((do p ← o; resolve c.section p) ≡ some q)
            × (normal_at c.section q ≡ some n)
            × (updated H K c q n value ≡ c')
      by_pointer none h = absurd (cc)
      by_pointer (some p) h = by_target (resolve c.section p) h

  -- What is got at a pointer after a write to normal data.
  value_at-store :
      (c : Ctx H K) (q : ℕ) (n m : Normal) (p : ℕ) (groups : List (TmGroup σ))
      → normal_at c.section q ≡ some n
      → let d = record c { section = store c.section q m; groups = groups } in
        ((resolve c.section p ≡ some q) × (value_at H K d p ≡ ok (take m.size m.buffer)))
        ⊎ ((resolve c.section p ≢ some q) × (value_at H K d p ≡ value_at H K c p))
  value_at-store c q n m p groups h = elim (Option-cases (resolve c.section p)) [
    | inl lost ↦ inr (
      λ e. cc,
      value_at-lost d p (resolve-store c.section q n m p h ∙ lost) ∙ sym (value_at-lost c p lost),
    )
    | inr (r, led) ↦ elim (ℕ_discrete q r) [
      | yes e ↦ inl (
        led ∙ ap some (sym e),
        value_at-resolved d p r (resolve-store c.section q n m p h ∙ led)
            ∙ ap value_of (normal_at-store c.section q n m r h ∙ chosen r e),
      )
      | no e ↦ inr (
        λ same. e (some-injective _ _ (sym same ∙ led)),
        value_at-resolved d p r (resolve-store c.section q n m p h ∙ led)
            ∙ ap value_of (normal_at-store c.section q n m r h ∙ passed_over r e)
            ∙ sym (value_at-resolved c p r led),
      )
    ]
  ]
    where
      d : Ctx H K
      d = record c { section = store c.section q m; groups = groups }

      chosen : (r : ℕ) → q ≡ r → (if q == r then some m else normal_at c.section r) ≡ some m
      chosen r e = ground (arith, e)

      passed_over :
          (r : ℕ)
          → q ≢ r
          → (if q == r then some m else normal_at c.section r) ≡ normal_at c.section r
      passed_over r e = ground (arith, e)

  -- The size of the data behind an address.
  abbrev pub size_of : Ctx H K → ℕ → Option ℕ
  size_of c addr = do q ← target H K c addr; n ← normal_at c.section q; some n.size

  -- After an update with a value of the size of the data, every address that leads to the same data (the
  -- address itself or an alias) gives that value, and every other address gives what it gave.
  pub tm_data_get-tm_data_update :
      (c : Ctx H K) (addr : ℕ) (value : List ℕ) (b : ℕ) {c' : Ctx H K}
      → tm_data_update H K c addr value ≡ ok c'
      → size_of c addr ≡ some (length value)
      → ((target H K c b ≡ target H K c addr) × (tm_data_get H K c' b ≡ ok value))
        ⊎ ((target H K c b ≢ target H K c addr) × (tm_data_get H K c' b ≡ tm_data_get H K c b))
  unfolding tm_data_get target data_get
  tm_data_get-tm_data_update c addr value b {c'} run sized =
      let (q, n, led, holds, same) = tm_data_update-inv c addr value run in
      let size : n.size ≡ length value = some-injective _ _ (
        sym (
          ap (λ (o : Option ℕ). do q ← o; n ← normal_at c.section q; some n.size) led
          ∙ ap (λ (o : Option Normal). do n ← o; some n.size) holds)
        ∙ sized) in
      rw (← same, led) (go q n holds size (H.get c.data_map b))
    where
      go :
          (q : ℕ) (n : Normal)
          → normal_at c.section q ≡ some n
          → n.size ≡ length value
          → (o : Option ℕ)
          → (((do p ← o; resolve c.section p) ≡ some q)
              × (or_not_found o (λ p. value_at H K (updated H K c q n value) p) ≡ ok value))
            ⊎ (((do p ← o; resolve c.section p) ≢ some q)
                × (or_not_found o (λ p. value_at H K (updated H K c q n value) p)
                    ≡ or_not_found o (λ p. value_at H K c p)))
      go q n holds size none = inr ((λ e. cc), refl)
      go q n holds size (some p) =
          let m : Normal = record n { buffer = take n.size value } in
          elim (value_at-store c q n m p (tm_data_notify_lock K c.groups n.groups) holds) [
            | inl (e, v) ↦ inl (
              e,
              v ∙ ap ok (take-take n.size value ∙ ap (λ k. take k value) size ∙ take-length value),
            )
            | inr (e, v) ↦ inr (e, v)
          ]
