-- ===== src/Msg/Aggregation.antt =====
-- subsys/msg/aggregation.c and include/nturt/msg/aggregation.h: when the data of an aggregation are
-- published. The spinlock makes each handler's part under it one step; the log is left out.
pub mod Awake
pub mod Members
use nturt_zephyr_common.Base.{
  ℕ, Bool, true, false, not, ◌&&◌, ◌||◌, List, [], ◌∷◌, map, get_or, set, if◌then◌else◌, test_bit,
}
use nturt_zephyr_common.Msg.Mask.{is_zero, is_mask_set, cleared}
use nturt_zephyr_common.Msg.Kernel.{View, Kernel, is_pending}

-- AGG_MEMBER_FLAG_IGNORED and AGG_MEMBER_FLAG_OPTIONAL, as tests
abbrev pub is_ignored : ℕ → Bool
is_ignored flags = test_bit flags 0

abbrev pub is_optional : ℕ → Bool
is_optional flags = test_bit flags 1

-- The constant fields of `struct agg`, timeouts in ticks; `always_publish` is the only flag.
pub record AggConfig : Type 0 where
  pub always_publish : Bool
  pub member_flags : List ℕ
  pub period : ℕ
  pub min_separation : ℕ
  pub watermark : ℕ

-- `fully_updated`, as AGG_INITIALIZER computes it
unfoldable pub fully_updated : AggConfig → List Bool
fully_updated config =
    map (λ flags. not (is_ignored flags || is_optional flags)) config.member_flags

-- The other fields of `struct agg`, with its timers and its work in `kernel`.
pub record Agg (σ : Type 0) : Type 0 where
  pub kernel : σ
  pub updated : List Bool

-- AGG_INITIALIZER: nothing is updated.
unfoldable pub initial : {σ : Type 0} → AggConfig → σ → Agg σ
initial config kernel = record { kernel = kernel; updated = map (λ _. false) config.member_flags }

module _ {σ : Type 0} (K : Kernel σ) (config : AggConfig) where
  unfoldable pub is_full : Agg σ → Bool
  is_full a = is_mask_set a.updated (fully_updated config)

  unfoldable pub start_timers : σ → σ
  start_timers k = K.start_early config.min_separation (K.start_period config.period k)

  unfoldable pub publish_now : Agg σ → Agg σ
  publish_now a = record a { kernel = K.reschedule 0 (start_timers a.kernel) }

  unfoldable pub cold_start : Agg σ → Agg σ
  cold_start a =
      if not (K.view a.kernel).period && not (is_pending (K.view a.kernel))
      then record a { kernel = K.schedule config.watermark a.kernel }
      else a

  unfoldable pub early_publish : Agg σ → Agg σ
  early_publish a = if not (K.view a.kernel).early && is_full a then publish_now a else a

  unfoldable pub agg_update : Agg σ → ℕ → Agg σ
  agg_update a idx =
      if is_ignored (get_or config.member_flags idx 0)
      then a
      else early_publish (cold_start (record a { updated = set a.updated idx true }))

  unfoldable pub agg_period_timer_cb : Agg σ → Agg σ
  agg_period_timer_cb a = record a { kernel = K.schedule config.watermark a.kernel }

  unfoldable pub agg_early_timer_cb : Agg σ → Agg σ
  agg_early_timer_cb a = if is_full a then publish_now a else a

  -- The part under the lock, and whether `publish` is called behind it.
  unfoldable pub agg_work_cb : Agg σ → Agg σ × Bool
  agg_work_cb a =
      if not config.always_publish && is_zero a.updated
      then (a, false)
      else if not (is_full a)
      then (record { kernel = start_timers a.kernel; updated = cleared a.updated }, true)
      else (record a { updated = cleared a.updated }, true)

-- What happens to an aggregation: a caller updates a member, a timer expires and its callback runs, the
-- work queue takes the work up and its handler runs, or the handler (with `publish`) has ended.
pub data AggEvent : Type 0 where
  update : ℕ → AggEvent
  period_expires early_expires work_starts work_ends : AggEvent

module _ {σ : Type 0} (K : Kernel σ) (config : AggConfig) where
  unfoldable pub step : Agg σ → AggEvent → Agg σ
  step a (update idx) = agg_update K config a idx
  step a period_expires =
      agg_period_timer_cb K config (record a { kernel = K.period_expires a.kernel })
  step a early_expires =
      agg_early_timer_cb K config (record a { kernel = K.early_expires a.kernel })
  step a work_starts = (agg_work_cb K config (record a { kernel = K.work_starts a.kernel })).0
  step a work_ends = record a { kernel = K.work_ends a.kernel }

  unfoldable pub steps : Agg σ → List AggEvent → Agg σ
  steps a [] = a
  steps a (e ∷ es) = steps (step a e) es
