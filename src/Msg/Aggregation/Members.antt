-- ===== src/Msg/Aggregation/Members.antt =====
-- subsys/msg/aggregation.c: which members count as updated, against the history of the aggregation.
use nturt_zephyr_common.Base.{
  ℕ, zero, suc, ◌<◌, ◌≡◌, ◌↔◌, refl, sym, ap, ◌∙◌, Bool, Bool-cases, inl, inr, true, false, not,
  ◌&&◌, ◌||◌, List, [], ◌∷◌, arith, All, map, get_or, get_or-set, length, length-set, set,
  if◌then◌else◌, if_both, ◌==◌,
}
use nturt_zephyr_common.Msg.Mask.{get_or-zero, get_or-cleared, length-cleared, is_mask_set_iff}
use nturt_zephyr_common.Msg.Kernel.{Kernel}
use nturt_zephyr_common.Msg.Aggregation.{
  is_ignored, is_optional, AggConfig, fully_updated, Agg, is_full, publish_now, cold_start,
  early_publish, agg_update, agg_period_timer_cb, agg_early_timer_cb, agg_work_cb, AggEvent, update,
  period_expires, early_expires, work_starts, work_ends, step, steps,
}

-- Whether a member has been updated since the work last started, by the history alone; `p` tells it
-- before the history.
abbrev pub updated_since : AggConfig → (ℕ → Bool) → List AggEvent → ℕ → Bool
updated_since config p [] i = p i
updated_since config p (update idx ∷ es) i =
    updated_since config
      (λ j. if (idx == j) && not (is_ignored (get_or config.member_flags idx 0)) then true else p j)
      es i
updated_since config p (period_expires ∷ es) i = updated_since config p es i
updated_since config p (early_expires ∷ es) i = updated_since config p es i
updated_since config p (work_starts ∷ es) i = updated_since config (λ j. false) es i
updated_since config p (work_ends ∷ es) i = updated_since config p es i

-- The members of the updates exist.
abbrev pub IsMember : AggConfig → AggEvent → Type 0
IsMember config (update idx) = idx < length config.member_flags
IsMember config period_expires = Unit
IsMember config early_expires = Unit
IsMember config work_starts = Unit
IsMember config work_ends = Unit

module _ {σ : Type 0} (K : Kernel σ) (config : AggConfig) where
  publish_now-updated : (a : Agg σ) → (publish_now K config a).updated ≡ a.updated
  unfolding publish_now
  publish_now-updated a = refl

  agg_update-updated :
      (a : Agg σ) (idx : ℕ)
      → (agg_update K config a idx).updated ≡ (
          if is_ignored (get_or config.member_flags idx 0)
          then a.updated
          else set a.updated idx true)
  unfolding agg_update early_publish cold_start
  agg_update-updated a idx = ground (
    arith,
    publish_now-updated (record a { updated = set a.updated idx true }),
    publish_now-updated (record {
      updated = set a.updated idx true;
      kernel = K.schedule config.watermark a.kernel;
    }),
  )

  early-updated : (a : Agg σ) → (agg_early_timer_cb K config a).updated ≡ a.updated
  unfolding agg_early_timer_cb
  early-updated a =
      if_both (λ (b : Agg σ). b.updated ≡ a.updated) _ _ _ (publish_now-updated a) refl

  work-updated :
      (a : Agg σ)
      → ((i : ℕ) → get_or (agg_work_cb K config a).0.updated i false ≡ false)
        × (length (agg_work_cb K config a).0.updated ≡ length a.updated)
  unfolding agg_work_cb
  work-updated a = (
    λ i. ground (arith, get_or-zero a.updated i, get_or-cleared a.updated i),
    ground (arith, length-cleared a.updated),
  )

  -- The updated members are those of the history.
  abbrev pub Agrees : (ℕ → Bool) → Agg σ → Type 0
  Agrees p a =
      (length a.updated ≡ length config.member_flags) × ((i : ℕ) → get_or a.updated i false ≡ p i)

  update-Agrees :
      (p : ℕ → Bool) (a : Agg σ) (idx : ℕ)
      → idx < length config.member_flags
      → Agrees p a
      → Agrees
          (λ j.
            if (idx == j) && not (is_ignored (get_or config.member_flags idx 0)) then true else p j)
          (agg_update K config a idx)
  update-Agrees p a idx h (l, q) =
      rw (agg_update-updated a idx)
        (elim (Bool-cases (is_ignored (get_or config.member_flags idx 0))) [
          | inl e ↦ rw e (l, λ i. ground (arith, q i))
          | inr e ↦ rw e (
            length-set a.updated idx true ∙ l,
            λ i. ground (arith, q i, get_or-set a.updated idx i true false (omega (arith, l))),
          )
        ])

  same-Agrees : (p : ℕ → Bool) (a b : Agg σ) → b.updated ≡ a.updated → Agrees p a → Agrees p b
  same-Agrees p a b e (l, q) = (ap length e ∙ l, λ i. ap (λ u. get_or u i false) e ∙ q i)

  -- After any sequence of updates of the members, expiries and runs of the work, just those members
  -- count as updated that have been updated since the work last started and are not ignored.
  pub steps-updated :
      (es : List AggEvent) (p : ℕ → Bool) (a : Agg σ)
      → All (IsMember config) es
      → Agrees p a
      → Agrees (updated_since config p es) (steps K config a es)
  unfolding steps step agg_period_timer_cb
  steps-updated [] p a m h = h
  steps-updated (update idx ∷ es) p a (m, ms) h =
      steps-updated es _ _ ms (update-Agrees p a idx m h)
  steps-updated (period_expires ∷ es) p a (m, ms) h = steps-updated es p _ ms h
  steps-updated (early_expires ∷ es) p a (m, ms) h =
      let b = record a { kernel = K.early_expires a.kernel } in
      steps-updated es p (agg_early_timer_cb K config b) ms
        (same-Agrees p a (agg_early_timer_cb K config b) (early-updated b) h)
  steps-updated (work_starts ∷ es) p a (m, ms) (l, q) =
      let (z, s) = work-updated (record a { kernel = K.work_starts a.kernel }) in
      steps-updated es _ _ ms (s ∙ l, z)
  steps-updated (work_ends ∷ es) p a (m, ms) h = steps-updated es p _ ms h

-- A member that an aggregation waits for.
abbrev pub IsAwaited : AggConfig → ℕ → Type 0
IsAwaited config i =
    (i < length config.member_flags)
    × (is_ignored (get_or config.member_flags i 0) ≡ false)
    × (is_optional (get_or config.member_flags i 0) ≡ false)

IsAwaited-fully_updated :
    (config : AggConfig) (i : ℕ)
    → (get_or (fully_updated config) i false ≡ true) ↔ IsAwaited config i
unfolding fully_updated
IsAwaited-fully_updated config i = go config.member_flags i
  where
    go :
        (fs : List ℕ) (i : ℕ)
        → (get_or (map (λ flags. not (is_ignored flags || is_optional flags)) fs) i false ≡ true)
          ↔ ((i < length fs)
              × (is_ignored (get_or fs i 0) ≡ false)
              × (is_optional (get_or fs i 0) ≡ false))
    go [] i = ground arith
    go (f ∷ fs) zero = ground arith
    go (f ∷ fs) (suc i) = ground (arith, go fs i)

-- After such a sequence, an aggregation counts as fully updated just if every member that is neither
-- ignored nor optional has been updated since the work last started.
pub steps-full_iff :
    {σ : Type 0} (K : Kernel σ) (config : AggConfig) (es : List AggEvent) (p : ℕ → Bool) (a : Agg σ)
    → All (IsMember config) es
    → Agrees K config p a
    → (is_full K config (steps K config a es) ≡ true)
      ↔ ((i : ℕ) → IsAwaited config i → updated_since config p es i ≡ true)
unfolding is_full
steps-full_iff K config es p a m h =
    let (l, q) = steps-updated K config es p a m h in
    let (fwd, bwd) = is_mask_set_iff (steps K config a es).updated (fully_updated config) in
    (
      λ f i w. sym (q i) ∙ fwd f i ((IsAwaited-fully_updated config i).1 w),
      λ f. bwd (λ i e. q i ∙ f i ((IsAwaited-fully_updated config i).0 e)),
    )
