-- ===== src/Msg/Tests.antt =====
-- subsys/msg/aggregation.c: runs and instances of the theorems.
use nturt_zephyr_common.Base.{
  ◌⊎◌, All, ℕ, ◌≡◌, refl, inl, inr, Bool, true, false, List, [], ◌∷◌, some, arith, get_or,
}
use nturt_zephyr_common.Msg.Mask.{is_zero, get_or-zero}
use nturt_zephyr_common.Msg.Kernel.{View, view_kernel, view_kernel-IsKernel}
use nturt_zephyr_common.Msg.Aggregation.{
  AggConfig, fully_updated, Agg, initial, is_full, start_timers, publish_now, cold_start,
  early_publish, agg_update, agg_period_timer_cb, agg_early_timer_cb, agg_work_cb, AggEvent, update,
  period_expires, early_expires, work_starts, work_ends, step, steps,
}
use nturt_zephyr_common.Msg.Aggregation.Awake.{
  IsConfig, IsUndisturbed, IsAwake, IsDue, steps-IsAwake, updated-publishes, agg_update-stopping,
}
use nturt_zephyr_common.Msg.Aggregation.Members.{updated_since, IsMember, Agrees, steps-updated}
use nturt_zephyr_common.Msg.Typed.{
  AggTyped, TypedEvent, typed_update, agg_event, agg_typed_update, agg_typed_publish, typed_work_cb,
  typed_agg_step, typed_steps, last_value, Holds, typed_steps-publishes,
}

-- Three members, of which the second is optional and the third ignored.
abbrev config : AggConfig
config = record {
  always_publish = false;
  member_flags = 0 ∷ 2 ∷ 1 ∷ [];
  period = 10;
  min_separation = 5;
  watermark = 2;
}

config-IsConfig : IsConfig config
config-IsConfig = record { period_pos = omega arith; separation_pos = omega arith }

abbrev idle : View
idle = record { period = false; early = false; scheduled = false; running = false }

abbrev fresh : Agg View
fresh = record { kernel = idle; updated = false ∷ false ∷ false ∷ [] }

-- The optional member starts the work with the watermark; the first member leads to an early
-- publishing; the updated members go with it, and with the period timer the aggregation goes on.
abbrev history : List AggEvent
history = update 1 ∷ update 0 ∷ work_starts ∷ work_ends ∷ early_expires ∷ update 1 ∷ update 2 ∷ []

history_lem : steps view_kernel config fresh history ≡ record {
  kernel = record { period = true; early = false; scheduled = false; running = false };
  updated = false ∷ true ∷ false ∷ [];
}
unfolding steps step agg_update cold_start early_publish publish_now is_full start_timers
    fully_updated agg_work_cb agg_early_timer_cb
history_lem = refl

initial_lem : initial config idle ≡ fresh
unfolding initial
initial_lem = refl

history-IsUndisturbed : IsUndisturbed view_kernel config fresh history
unfolding steps step agg_update cold_start early_publish publish_now is_full start_timers
    fully_updated agg_work_cb agg_early_timer_cb agg_period_timer_cb
history-IsUndisturbed = (
  (λ i e. inl refl),
  (
    (λ i e. inl refl),
    (
      (λ i e. inl refl),
      ((λ i e. inr (inl refl)), ((λ i e. inl refl), ((λ i e. inl refl), ((λ i e. inl refl), tt)))),
    ),
  ),
)

steps-IsAwake_example : IsAwake view_kernel (steps view_kernel config fresh history)
steps-IsAwake_example =
    steps-IsAwake view_kernel view_kernel-IsKernel config config-IsConfig history fresh
      history-IsUndisturbed (inl refl)

abbrev later : Agg View
later = steps view_kernel config fresh history

later_updated : is_zero later.updated ≡ false
unfolding steps step agg_update cold_start early_publish publish_now is_full start_timers
    fully_updated agg_work_cb agg_early_timer_cb agg_period_timer_cb
later_updated = refl

updated-publishes_example :
    let c = step view_kernel config later period_expires in
    let (d, published) = agg_work_cb view_kernel config (record later { kernel = idle }) in
    (((view_kernel.view later.kernel).scheduled ≡ true)
      ⊎ (((view_kernel.view later.kernel).period ≡ true)
          × ((view_kernel.view c.kernel).scheduled ≡ true)
          × (c.updated ≡ later.updated)))
    × (published ≡ true)
    × (is_zero d.updated ≡ true)
updated-publishes_example =
    updated-publishes view_kernel view_kernel-IsKernel config config-IsConfig history fresh idle
      history-IsUndisturbed (inl refl) later_updated

-- The handler ends without publishing while the second member is updated.
abbrev stopping : Agg View
stopping = record fresh {
  kernel = record { period = false; early = false; scheduled = false; running = true };
}

not_full :
    is_full view_kernel config (record stopping { updated = false ∷ true ∷ false ∷ [] }) ≡ false
unfolding steps step agg_update cold_start early_publish publish_now is_full start_timers
    fully_updated agg_work_cb agg_early_timer_cb agg_period_timer_cb
not_full = refl

agg_update-stopping_example :
    let b = step view_kernel config (agg_update view_kernel config stopping 1) work_ends in
    (get_or b.updated 1 false ≡ true) × ¬ IsDue (view_kernel.view b.kernel)
agg_update-stopping_example =
    agg_update-stopping view_kernel view_kernel-IsKernel config config-IsConfig stopping 1 refl refl
      refl not_full (omega arith) refl

abbrev never : ℕ → Bool
never i = false

fresh-Agrees : Agrees view_kernel config never fresh
fresh-Agrees = (refl, blank)
  where
    blank : (i : ℕ) → get_or fresh.updated i false ≡ false
    blank i = get_or-zero fresh.updated i refl

history_members : All (IsMember config) history
history_members = (omega arith, (omega arith, (tt, (tt, (tt, (omega arith, (omega arith, tt)))))))

steps-updated_example :
    Agrees view_kernel config
      (updated_since config never history)
      (steps view_kernel config fresh history)
steps-updated_example =
    steps-updated view_kernel config history never fresh history_members fresh-Agrees

-- Data of three words with members at the offsets 0 and 2.
abbrev typed : AggTyped View
typed = record { agg = fresh; values = 7 ∷ 0 ∷ 9 ∷ []; pub_data = 0 ∷ 0 ∷ 0 ∷ []; published = [] }

abbrev offsets : List ℕ
offsets = 1 ∷ 0 ∷ 2 ∷ []

abbrev typed_history : List TypedEvent
typed_history = typed_update 0 5 ∷ agg_event early_expires ∷ typed_update 2 8 ∷ []

abbrev before : ℕ → ℕ
before o = get_or typed.values o 0

abbrev typed_later : AggTyped View
typed_later = record typed {
  agg = record {
    kernel = record { period = true; early = true; scheduled = true; running = false };
    updated = true ∷ true ∷ false ∷ [];
  };
  values = 5 ∷ 0 ∷ 8 ∷ [];
}

typed_run : typed_steps view_kernel config offsets typed typed_history ≡ some typed_later
unfolding typed_steps agg_typed_update typed_agg_step step agg_update cold_start early_publish
    publish_now is_full start_timers fully_updated agg_early_timer_cb
typed_run = refl

typed_steps-publishes_example :
    let u = typed_agg_step view_kernel config offsets typed_later work_starts in
    (u.published ≡ u.pub_data ∷ typed_later.published)
    × Holds u.pub_data (last_value before typed_history)
typed_steps-publishes_example =
    typed_steps-publishes view_kernel config offsets typed_history before typed typed_later
      ((omega arith, omega arith), (tt, ((omega arith, omega arith), tt))) (λ o. refl) typed_run
      refl

-- What it publishes.
typed_published :
    (typed_agg_step view_kernel config offsets typed_later work_starts).published
    ≡ (5 ∷ 0 ∷ 8 ∷ []) ∷ []
unfolding typed_agg_step typed_work_cb agg_typed_publish agg_work_cb is_full fully_updated
typed_published = refl
