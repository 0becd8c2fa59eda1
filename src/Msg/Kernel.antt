-- ===== src/Msg/Kernel.antt =====
-- Zephyr's two timers and one delayable work of an aggregation, as the aggregation uses them. Their
-- code is a parameter; `View` is what their documentation lets one observe.
use nturt_zephyr_common.Base.{ℕ, ◌<◌, ◌≡◌, refl, Bool, true, false, ◌||◌}

-- Whether a timer runs (`k_timer_remaining_ticks` is not 0), whether the work is scheduled or queued,
-- and whether its handler runs.
pub record View : Type 0 where
  pub period : Bool
  pub early : Bool
  pub scheduled : Bool
  pub running : Bool

-- The calls, a timeout in ticks (K_NO_WAIT is 0), and what the kernel does by itself.
pub record Kernel (σ : Type 0) : Type 0 where
  pub view : σ → View
  pub start_period : ℕ → σ → σ
  pub start_early : ℕ → σ → σ
  pub schedule : ℕ → σ → σ
  pub reschedule : ℕ → σ → σ
  pub period_expires : σ → σ
  pub early_expires : σ → σ
  pub work_starts : σ → σ
  pub work_ends : σ → σ

-- k_work_delayable_is_pending: scheduled, queued or running.
abbrev pub is_pending : View → Bool
is_pending v = v.scheduled || v.running

-- What is documented of the calls: a started timer runs until it expires; work that is scheduled stays
-- so until it is started; a call for one object leaves the others alone.
pub record IsKernel {σ : Type 0} (K : Kernel σ) : Type 0 where
  pub period_started :
      (t : ℕ) (k : σ) → 0 < t → K.view (K.start_period t k) ≡ record (K.view k) { period = true }
  pub early_started :
      (t : ℕ) (k : σ) → 0 < t → K.view (K.start_early t k) ≡ record (K.view k) { early = true }
  pub now_scheduled :
      (t : ℕ) (k : σ) → K.view (K.schedule t k) ≡ record (K.view k) { scheduled = true }
  pub now_rescheduled :
      (t : ℕ) (k : σ) → K.view (K.reschedule t k) ≡ record (K.view k) { scheduled = true }
  pub period_expired : (k : σ) → K.view (K.period_expires k) ≡ record (K.view k) { period = false }
  pub early_expired : (k : σ) → K.view (K.early_expires k) ≡ record (K.view k) { early = false }
  pub work_started :
      (k : σ) → K.view (K.work_starts k) ≡ record (K.view k) { scheduled = false; running = true }
  pub work_ended : (k : σ) → K.view (K.work_ends k) ≡ record (K.view k) { running = false }

-- The objects as their views.
abbrev pub view_kernel : Kernel View
view_kernel = record {
  view = λ v. v;
  start_period = λ t v. record v { period = true };
  start_early = λ t v. record v { early = true };
  schedule = λ t v. record v { scheduled = true };
  reschedule = λ t v. record v { scheduled = true };
  period_expires = λ v. record v { period = false };
  early_expires = λ v. record v { early = false };
  work_starts = λ v. record v { scheduled = false; running = true };
  work_ends = λ v. record v { running = false };
}

pub view_kernel-IsKernel : IsKernel view_kernel
view_kernel-IsKernel = record {
  period_started = λ t k h. refl;
  early_started = λ t k h. refl;
  now_scheduled = λ t k. refl;
  now_rescheduled = λ t k. refl;
  period_expired = λ k. refl;
  early_expired = λ k. refl;
  work_started = λ k. refl;
  work_ended = λ k. refl;
}
