-- ===== src/Msg/Typed.antt =====
-- subsys/msg/aggregation.c and include/nturt/msg/aggregation.h: aggregations with data of a type. The
-- data are the list of their values by offset.
use nturt_zephyr_common.Base.{
  ℕ, ◌-◌, ◌<◌, ◌≡◌, refl, sym, ap, ◌∙◌, Bool, true, false, List, [], ◌∷◌, arith, All, Option, none,
  some, get_or, get_or-set, length, length-set, set, if◌then◌else◌, if_both, ◌==◌, ◌>>=◌,
}
use mathlib.Core.Option.{some-injective}
use nturt_zephyr_common.Msg.Mask.{is_zero}
use nturt_zephyr_common.Msg.Kernel.{Kernel}
use nturt_zephyr_common.Msg.Aggregation.Awake.{agg_work_cb-publishes}
use nturt_zephyr_common.Msg.Aggregation.{
  AggConfig, Agg, agg_update, agg_work_cb, AggEvent, update, period_expires, early_expires,
  work_starts, work_ends, step,
}

-- `struct agg_typed`, less the constant `map` and `data_size`, and what `publish` has been called with,
-- latest first.
pub record AggTyped (σ : Type 0) : Type 0 where
  pub agg : Agg σ
  pub values : List ℕ
  pub pub_data : List ℕ
  pub published : List (List ℕ)

-- What happens to it: AGG_TYPED_UPDATE of the member at an offset, or what happens to the aggregation
-- without an update.
pub data TypedEvent : Type 0 where
  typed_update : ℕ → ℕ → TypedEvent
  agg_event : AggEvent → TypedEvent

module _ {σ : Type 0} (K : Kernel σ) (config : AggConfig) (offsets : List ℕ) where
  -- AGG_TYPED_UPDATE; `offsets` is `map`. The assertion is checked: `none` where it fails.
  unfoldable pub agg_typed_update : AggTyped σ → ℕ → ℕ → Option (AggTyped σ)
  agg_typed_update t offset value =
      let idx = get_or offsets offset 0 in
      if idx == 0
      then none
      else some (record t {
        values = set t.values offset value;
        agg = agg_update K config t.agg (idx - 1);
      })

  -- agg_typed_publish
  unfoldable pub agg_typed_publish : AggTyped σ → AggTyped σ
  agg_typed_publish t = record t { pub_data = t.values; published = t.values ∷ t.published }

  -- agg_work_cb with agg_typed_publish as `publish`
  unfoldable pub typed_work_cb : AggTyped σ → Agg σ × Bool → AggTyped σ
  typed_work_cb t (a, published) =
      if published then agg_typed_publish (record t { agg = a }) else record t { agg = a }

  unfoldable pub typed_agg_step : AggTyped σ → AggEvent → AggTyped σ
  typed_agg_step t work_starts =
      typed_work_cb t (agg_work_cb K config (record t.agg { kernel = K.work_starts t.agg.kernel }))
  typed_agg_step t e = record t { agg = step K config t.agg e }

  unfoldable pub typed_steps : AggTyped σ → List TypedEvent → Option (AggTyped σ)
  typed_steps t [] = some t
  typed_steps t (typed_update offset value ∷ es) = do
    t' ← agg_typed_update t offset value
    typed_steps t' es
  typed_steps t (agg_event e ∷ es) = typed_steps (typed_agg_step t e) es

-- The last value given to each offset, by the history alone.
abbrev pub last_value : (ℕ → ℕ) → List TypedEvent → ℕ → ℕ
last_value v [] o = v o
last_value v (typed_update offset value ∷ es) o =
    last_value (λ p. if offset == p then value else v p) es o
last_value v (agg_event e ∷ es) o = last_value v es o

-- An update of a member that AGG_TYPED_DEFINE lists, inside of data of size `n`.
abbrev pub IsListed : List ℕ → ℕ → TypedEvent → Type 0
IsListed offsets n (typed_update offset value) = (0 < get_or offsets offset 0) × (offset < n)
IsListed offsets n (agg_event e) = Unit

abbrev pub Holds : List ℕ → (ℕ → ℕ) → Type 0
Holds values v = (o : ℕ) → get_or values o 0 ≡ v o

module _ {σ : Type 0} (K : Kernel σ) (config : AggConfig) (offsets : List ℕ) where
  typed_agg_step-values :
      (t : AggTyped σ) (e : AggEvent) → (typed_agg_step K config offsets t e).values ≡ t.values
  unfolding typed_agg_step typed_work_cb agg_typed_publish
  typed_agg_step-values t (update idx) = refl
  typed_agg_step-values t period_expires = refl
  typed_agg_step-values t early_expires = refl
  typed_agg_step-values t work_starts =
      if_both (λ (u : AggTyped σ). u.values ≡ t.values) _ _ _ refl refl
  typed_agg_step-values t work_ends = refl

  agg_typed_update_lem :
      (t : AggTyped σ) (offset value : ℕ)
      → 0 < get_or offsets offset 0
      → agg_typed_update K config offsets t offset value
        ≡ some (record t {
          values = set t.values offset value;
          agg = agg_update K config t.agg (get_or offsets offset 0 - 1);
        })
  unfolding agg_typed_update
  agg_typed_update_lem t offset value h = ground arith

  -- Any sequence of updates of listed members runs without a failed assertion and leaves in the data
  -- the last value given to each member.
  pub typed_steps-Holds :
      (es : List TypedEvent) (v : ℕ → ℕ) (t : AggTyped σ)
      → All (IsListed offsets (length t.values)) es
      → Holds t.values v
      → (t' : AggTyped σ) × (typed_steps K config offsets t es ≡ some t')
        × Holds t'.values (last_value v es)
  unfolding typed_steps
  typed_steps-Holds [] v t l h = (t, refl, h)
  typed_steps-Holds (typed_update offset value ∷ es) v t ((k, b), ls) h =
      let (t', p, q) =
        typed_steps-Holds es (λ p. if offset == p then value else v p)
          (record t {
            values = set t.values offset value;
            agg = agg_update K config t.agg (get_or offsets offset 0 - 1);
          })
          (rw (length-set t.values offset value) ls)
          (λ o.
            get_or-set t.values offset o value 0 b
            ∙ ap (λ x. if offset == o then value else x) (h o)) in
      (
        t',
        ap (λ x. x >>= (λ u. typed_steps K config offsets u es))
              (agg_typed_update_lem t offset value k)
            ∙ p,
        q,
      )
  typed_steps-Holds (agg_event e ∷ es) v t (l, ls) h =
      let s = typed_agg_step-values t e in
      typed_steps-Holds es v _ (rw s ls) (λ o. ap (λ x. get_or x o 0) s ∙ h o)

  typed_work_cb-publishes :
      (t : AggTyped σ) (r : Agg σ × Bool)
      → r.1 ≡ true
      → (let u = typed_work_cb K config offsets t r in
          (u.published ≡ t.values ∷ t.published) × (u.pub_data ≡ t.values))
  unfolding typed_work_cb agg_typed_publish
  typed_work_cb-publishes t (a, published) h = rw h (refl, refl)

  -- After any sequence of updates of listed members, when the work starts while a member counts as
  -- updated, the data published are the last values given to the members.
  pub typed_steps-publishes :
      (es : List TypedEvent) (v : ℕ → ℕ) (t t' : AggTyped σ)
      → All (IsListed offsets (length t.values)) es
      → Holds t.values v
      → typed_steps K config offsets t es ≡ some t'
      → is_zero t'.agg.updated ≡ false
      → let u = typed_agg_step K config offsets t' work_starts in
        (u.published ≡ u.pub_data ∷ t'.published) × Holds u.pub_data (last_value v es)
  unfolding typed_agg_step
  typed_steps-publishes es v t t' l h run z =
      let (t₁, p, q) = typed_steps-Holds es v t l h in
      let same : t₁ ≡ t' = some-injective _ _ (sym p ∙ run) in
      let (f, g) =
        typed_work_cb-publishes t' _
          (agg_work_cb-publishes K config (record t'.agg { kernel = K.work_starts t'.agg.kernel })
            z).0 in
      (
        f ∙ ap (λ x. x ∷ t'.published) (sym g),
        λ o.
            ap (λ x. get_or x o 0) g
            ∙ ap (λ (x : AggTyped σ). get_or x.values o 0) (sym same)
            ∙ q o,
      )
