-- ===== src/Canopen/Emcy/Work.antt =====
-- subsys/canbus/canopen/emcy.c with subsys/err/err.c: what an emergency object does to the error of the
-- CAN bus.
use nturt_zephyr_common.Base.{
  ℕ, ◌*◌, ◌/◌, ◌≤◌, ◌<◌, ◌≡◌, refl, ap, ◌∙◌, inl, inr, Bool, Bool-cases, true, false, not, ◌&&◌,
  some, List, [], ◌∷◌, ◌++◌, map, arith, ◌==◌, if◌then◌else◌, get_or, length,
}
use nturt_zephyr_common.Base.Bytes.{any_below}
use nturt_zephyr_common.Base.HashMap.{HashMap}
use nturt_zephyr_common.Err.Events.{Event}
use nturt_zephyr_common.Err.{Ctx, err_get, err_is_set}
use nturt_zephyr_common.Err.Invariant.{IsConsistent}
use nturt_zephyr_common.Err.Status.{enabled, err_is_set-err_report}
use nturt_zephyr_common.Err.Enabled.{enabled-takes}
use nturt_zephyr_common.Canopen.{err_code_canbus}
use nturt_zephyr_common.Canopen.Emcy.{
  Stack, Frame, Emcy, emcy_cb, is_filtered, scan, emcy_work, Step, received, worked, step, steps,
}
use nturt_zephyr_common.Canopen.Emcy.Scan.{IsLowest, is_error, scan_lem}

-- An object of this node that the work does not leave to other modules.
abbrev pub is_relevant : Stack → Frame → Bool
is_relevant stack f = f.ident == 0 && not (is_filtered stack f.error_bit)

-- What the error is set to.
abbrev pub bus_error : Stack → List ℕ → Bool
bus_error stack bytes = any_below (is_error stack bytes) (stack.manufacturer_start / 8 * 8)

emcy_cb-pending : (g : Emcy) (f : Frame) → g.is_pending ≡ true → emcy_cb g f ≡ g
unfolding emcy_cb
emcy_cb-pending g f h = ap (λ b. if b then g else record { ctx = f; is_pending = true }) h

module _ (stack : Stack) (H : HashMap) where
  -- While the work is pending, objects are dropped.
  dropped :
      (g : Emcy) (errs : Ctx H) (fs : List Frame) (es : List (Step stack H))
      → g.is_pending ≡ true
      → steps stack H (g, errs) (map received fs ++ es) ≡ steps stack H (g, errs) es
  unfolding steps step
  dropped g errs [] es h = refl
  dropped g errs (f ∷ fs) es h =
      ap (λ g'. steps stack H (g', errs) (map received fs ++ es)) (emcy_cb-pending g f h)
      ∙ dropped g errs fs es h

  taken :
      (g : Emcy) (errs : Ctx H) (f : Frame) (es : List (Step stack H))
      → g.is_pending ≡ false
      → steps stack H (g, errs) (received f ∷ es)
        ≡ steps stack H (record { ctx = f; is_pending = true }, errs) es
  unfolding steps step emcy_cb
  taken g errs f es h = rw h refl

  finished :
      (g : Emcy) (bytes : List ℕ) (errs : Ctx H) (r : Ctx H × List Event)
      → g.is_pending ≡ true
      → emcy_work stack H g bytes errs ≡ some r
      → steps stack H (g, errs) (worked bytes ∷ []) ≡ some (record g { is_pending = false }, r.0)
  unfolding steps step
  finished g bytes errs r h did = rw (h, did) refl

  -- What the work is expected to do to the error context.
  abbrev pub Reports : Frame → List ℕ → Ctx H → Ctx H → Type 0
  Reports f bytes errs errs' =
      (k : ℕ)
      → err_is_set H errs' k ≡ (
          if is_relevant stack f && k == err_code_canbus
          then some (bus_error stack bytes)
          else err_is_set H errs k)

  emcy_work_lem :
      (g : Emcy) (bytes : List ℕ) (errs : Ctx H)
      → scan stack bytes ≡ some (bus_error stack bytes)
      → IsConsistent H errs
      → enabled (err_get H errs err_code_canbus) ≡ true
      → (r : Ctx H × List Event) × (emcy_work stack H g bytes errs ≡ some r)
        × Reports g.ctx bytes errs r.0
  unfolding emcy_work
  emcy_work_lem g bytes errs found v e = elim (Bool-cases (g.ctx.ident == 0)) [
    | inl own ↦ elim (Bool-cases (is_filtered stack g.ctx.error_bit)) [
      | inl left ↦ ((errs, []), rw (own, left) refl, λ k. rw (own, left) refl)
      | inr taken ↦
          let ((errs', evs), did) =
            enabled-takes H errs err_code_canbus (bus_error stack bytes) e in
          (
            (errs', evs),
            rw (own, taken, found) did,
            λ k.
                err_is_set-err_report H errs err_code_canbus (bus_error stack bytes) v did k
                ∙ rw (own, taken, e) (ground arith),
          )
    ]
    | inr other ↦ ((errs, []), rw other refl, λ k. rw other refl)
  ]

  pub steps-Reports :
      (g : Emcy) (errs : Ctx H) (f : Frame) (fs : List Frame) (bytes : List ℕ)
      → IsLowest stack.find_lsb_set
      → stack.manufacturer_start / 8 ≤ length bytes
      → ((k : ℕ) → get_or bytes k 0 < 256)
      → g.is_pending ≡ false
      → IsConsistent H errs
      → enabled (err_get H errs err_code_canbus) ≡ true
      → (errs' : Ctx H) × (steps stack H
            (g, errs)
            (received f ∷ (map received fs ++ worked bytes ∷ []))
          ≡ some (record { ctx = f; is_pending = false }, errs'))
        × Reports f bytes errs errs'
  steps-Reports g errs f fs bytes low l b free v e =
      let g' : Emcy = record { ctx = f; is_pending = true } in
      let (r, did, reports) = emcy_work_lem g' bytes errs (scan_lem stack low bytes l b) v e in
      (
        r.0,
        taken g errs f (map received fs ++ worked bytes ∷ []) free
            ∙ dropped g' errs fs (worked bytes ∷ []) refl
            ∙ finished g' bytes errs r refl did,
        reports,
      )
