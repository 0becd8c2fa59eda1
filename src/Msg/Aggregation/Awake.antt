-- ===== src/Msg/Aggregation/Awake.antt =====
-- subsys/msg/aggregation.c: an aggregation with updated members is never left without a timer or work
-- that will publish them.
use nturt_zephyr_common.Base.{
  ℕ, ◌<◌, ◌≡◌, ◌⊎◌, inl, inr, refl, ap, ◌∙◌, true, false, List, [], ◌∷◌, arith, get_or, get_or-set,
  length, set, if_both,
}
use nturt_zephyr_common.Msg.Mask.{is_zero, is_zero-cleared}
use nturt_zephyr_common.Msg.Kernel.{View, Kernel, IsKernel}
use nturt_zephyr_common.Msg.Aggregation.{
  is_ignored, AggConfig, Agg, is_full, start_timers, publish_now, cold_start, early_publish,
  agg_update, agg_period_timer_cb, agg_early_timer_cb, agg_work_cb, AggEvent, update,
  period_expires, early_expires, work_starts, work_ends, step, steps,
}

-- The periods are not 0.
pub record IsConfig (config : AggConfig) : Type 0 where
  pub period_pos : 0 < config.period
  pub separation_pos : 0 < config.min_separation

-- Something will start the work: the period timer, or that it is scheduled.
abbrev pub IsDue : View → Type 0
IsDue v = (v.period ≡ true) ⊎ (v.scheduled ≡ true)

-- The handler of the work does not run, or something will start it again.
abbrev pub IsCalm : View → Type 0
IsCalm v = (v.running ≡ false) ⊎ IsDue v

abbrev pub IsAwake : {σ : Type 0} → Kernel σ → Agg σ → Type 0
IsAwake K a = (is_zero a.updated ≡ true) ⊎ IsDue (K.view a.kernel)

same-IsDue : (v w : View) → w.period ≡ v.period → w.scheduled ≡ v.scheduled → IsDue v → IsDue w
same-IsDue v w p q (inl h) = inl (p ∙ h)
same-IsDue v w p q (inr h) = inr (q ∙ h)

-- The order of events in which no member is updated while the handler of the work is about to end and
-- nothing will start it again.
abbrev pub IsUndisturbed : {σ : Type 0} → Kernel σ → AggConfig → Agg σ → List AggEvent → Type 0
IsUndisturbed K config a [] = Unit
IsUndisturbed K config a (e ∷ es) =
    ((idx : ℕ) → e ≡ update idx → IsCalm (K.view a.kernel))
    × IsUndisturbed K config (step K config a e) es

module _ {σ : Type 0} (K : Kernel σ) (config : AggConfig) where
  -- Whatever the handler does, no member counts as updated behind it.
  agg_work_cb-updated : (a : Agg σ) → is_zero (agg_work_cb K config a).0.updated ≡ true
  unfolding agg_work_cb
  agg_work_cb-updated a = ground (arith, is_zero-cleared a.updated)

  pub agg_work_cb-publishes :
      (a : Agg σ)
      → is_zero a.updated ≡ false
      → ((agg_work_cb K config a).1 ≡ true) × (is_zero (agg_work_cb K config a).0.updated ≡ true)
  unfolding agg_work_cb
  agg_work_cb-publishes a h = ground (arith, is_zero-cleared a.updated)

module _ {σ : Type 0} (K : Kernel σ) (L : IsKernel K) (config : AggConfig)
    (pos : IsConfig config) where
  view-start_timers :
      (k : σ) → K.view (start_timers K config k) ≡ record (K.view k) { period = true; early = true }
  unfolding start_timers
  view-start_timers k =
      L.early_started config.min_separation _ pos.separation_pos
      ∙ ap (λ (v : View). record v { early = true })
          (L.period_started config.period k pos.period_pos)

  view-publish_now :
      (a : Agg σ)
      → K.view (publish_now K config a).kernel
        ≡ record (K.view a.kernel) { period = true; early = true; scheduled = true }
  unfolding publish_now
  view-publish_now a =
      L.now_rescheduled 0 _
      ∙ ap (λ (v : View). record v { scheduled = true }) (view-start_timers a.kernel)

  publish_now-IsDue : (a : Agg σ) → IsDue (K.view (publish_now K config a).kernel)
  publish_now-IsDue a = inr (ap (λ (v : View). v.scheduled) (view-publish_now a))

  scheduled-IsDue : (t : ℕ) (k : σ) → IsDue (K.view (K.schedule t k))
  scheduled-IsDue t k = inr (ap (λ (v : View). v.scheduled) (L.now_scheduled t k))

  cold_start-IsDue :
      (a : Agg σ) → IsCalm (K.view a.kernel) → IsDue (K.view (cold_start K config a).kernel)
  unfolding cold_start
  cold_start-IsDue a h = ground (arith, scheduled-IsDue config.watermark a.kernel)

  early_publish-IsDue :
      (a : Agg σ) → IsDue (K.view a.kernel) → IsDue (K.view (early_publish K config a).kernel)
  unfolding early_publish
  early_publish-IsDue a h =
      if_both (λ (b : Agg σ). IsDue (K.view b.kernel)) _ _ a (publish_now-IsDue a) h

  agg_update-IsAwake :
      (a : Agg σ) (idx : ℕ)
      → IsCalm (K.view a.kernel)
      → IsAwake K a
      → IsAwake K (agg_update K config a idx)
  unfolding agg_update
  agg_update-IsAwake a idx calm h =
      if_both (IsAwake K) (is_ignored (get_or config.member_flags idx 0)) _ _ h
        (inr (early_publish-IsDue _ (cold_start-IsDue _ calm)))

  agg_early_timer_cb-IsDue :
      (a : Agg σ) → IsDue (K.view a.kernel) → IsDue (K.view (agg_early_timer_cb K config a).kernel)
  unfolding agg_early_timer_cb
  agg_early_timer_cb-IsDue a h =
      if_both (λ (b : Agg σ). IsDue (K.view b.kernel)) _ _ a (publish_now-IsDue a) h

  agg_early_timer_cb-updated : (a : Agg σ) → (agg_early_timer_cb K config a).updated ≡ a.updated
  unfolding agg_early_timer_cb publish_now
  agg_early_timer_cb-updated a = if_both (λ (b : Agg σ). b.updated ≡ a.updated) _ _ _ refl refl

  step-IsAwake :
      (a : Agg σ) (e : AggEvent)
      → ((idx : ℕ) → e ≡ update idx → IsCalm (K.view a.kernel))
      → IsAwake K a
      → IsAwake K (step K config a e)
  unfolding step agg_period_timer_cb
  step-IsAwake a (update idx) calm h = agg_update-IsAwake a idx (calm idx refl) h
  step-IsAwake a period_expires calm h = inr (scheduled-IsDue config.watermark _)
  step-IsAwake a early_expires calm (inl z) = inl (ap is_zero (agg_early_timer_cb-updated _) ∙ z)
  step-IsAwake a early_expires calm (inr d) =
      let v = L.early_expired a.kernel in
      inr (
        agg_early_timer_cb-IsDue _ (
          same-IsDue (K.view a.kernel) (K.view (K.early_expires a.kernel))
            (ap (λ (w : View). w.period) v) (ap (λ (w : View). w.scheduled) v) d))
  step-IsAwake a work_starts calm h = inl (agg_work_cb-updated K config _)
  step-IsAwake a work_ends calm (inl z) = inl z
  step-IsAwake a work_ends calm (inr d) =
      let v = L.work_ended a.kernel in
      inr (
        same-IsDue (K.view a.kernel) (K.view (K.work_ends a.kernel)) (ap (λ (w : View). w.period) v)
          (ap (λ (w : View). w.scheduled) v) d)

  -- While a member is updated and not yet published, the period timer runs or the work is scheduled,
  -- after every sequence of updates, expiries and runs of the work in which no member is updated while
  -- the work's handler ends with neither of the two.
  pub steps-IsAwake :
      (es : List AggEvent) (a : Agg σ)
      → IsUndisturbed K config a es
      → IsAwake K a
      → IsAwake K (steps K config a es)
  unfolding steps
  steps-IsAwake [] a u h = h
  steps-IsAwake (e ∷ es) a (calm, u) h = steps-IsAwake es _ u (step-IsAwake a e calm h)

  due_of :
      (b : Agg σ)
      → IsAwake K b
      → is_zero b.updated ≡ false
      → let c = step K config b period_expires in
        ((K.view b.kernel).scheduled ≡ true)
        ⊎ (((K.view b.kernel).period ≡ true)
            × ((K.view c.kernel).scheduled ≡ true)
            × (c.updated ≡ b.updated))
  unfolding step agg_period_timer_cb
  due_of b (inl y) z = absurd (cc)
  due_of b (inr (inr s)) z = inl s
  due_of b (inr (inl p)) z = inr (
    p,
    ap (λ (v : View). v.scheduled) (L.now_scheduled config.watermark (K.period_expires b.kernel)),
    refl,
  )

  -- After such a sequence, where a member is updated, the work is scheduled, or the period timer runs
  -- and its expiry schedules the work and keeps what is updated; and when the work then starts, it
  -- publishes, after which nothing counts as updated.
  pub updated-publishes :
      (es : List AggEvent) (a : Agg σ) (k : σ)
      → IsUndisturbed K config a es
      → IsAwake K a
      → is_zero (steps K config a es).updated ≡ false
      → let b = steps K config a es in
        let c = step K config b period_expires in
        let (d, published) = agg_work_cb K config (record b { kernel = k }) in
        (((K.view b.kernel).scheduled ≡ true)
          ⊎ (((K.view b.kernel).period ≡ true)
              × ((K.view c.kernel).scheduled ≡ true)
              × (c.updated ≡ b.updated)))
        × (published ≡ true)
        × (is_zero d.updated ≡ true)
  updated-publishes es a k u h z =
      let b = steps K config a es in
      let (p, q) = agg_work_cb-publishes K config (record b { kernel = k }) z in
      (due_of b (steps-IsAwake es a u h) z, p, q)

  agg_update-waits :
      (a : Agg σ) (idx : ℕ)
      → (K.view a.kernel).running ≡ true
      → is_full K config (record a { updated = set a.updated idx true }) ≡ false
      → is_ignored (get_or config.member_flags idx 0) ≡ false
      → agg_update K config a idx ≡ record a { updated = set a.updated idx true }
  unfolding agg_update cold_start early_publish
  agg_update-waits a idx r e h = ground arith

  pub agg_update-stopping :
      (a : Agg σ) (idx : ℕ)
      → (K.view a.kernel).running ≡ true
      → (K.view a.kernel).period ≡ false
      → (K.view a.kernel).scheduled ≡ false
      → is_full K config (record a { updated = set a.updated idx true }) ≡ false
      → idx < length a.updated
      → is_ignored (get_or config.member_flags idx 0) ≡ false
      → let b = step K config (agg_update K config a idx) work_ends in
        (get_or b.updated idx false ≡ true) × ¬ IsDue (K.view b.kernel)
  unfolding step
  agg_update-stopping a idx r p s e l h =
      rw (agg_update-waits a idx r e h)
        (ground (arith, get_or-set a.updated idx idx true false l), idle)
    where
      idle : ¬ IsDue (K.view (K.work_ends a.kernel))
      idle d = ground (arith, d, L.work_ended a.kernel, p, s)
