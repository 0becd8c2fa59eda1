-- ===== src/Err/Enabled.antt =====
-- subsys/err/err.c: which errors are enabled, and that reports go through for them.
use nturt_zephyr_common.Base.{
  ℕ, ◌≡◌, refl, ap, inl, inr, Bool, Option-cases, true, some, List, arith, get_elem?, get_elem?-set,
}
use nturt_zephyr_common.Base.HashMap.{HashMap}
use nturt_zephyr_common.Err.Events.{Err, Event}
use nturt_zephyr_common.Err.{Ctx, changed, toggle, report_at, err_get, err_report}
use nturt_zephyr_common.Err.Invariant.{
  report_at-cases, err_get_lem, err_report_lem, update_flags-disabled,
}
use nturt_zephyr_common.Err.Status.{enabled}

module _ (H : HashMap) where
  enabled-toggle :
      (c : Ctx H) (p : ℕ) (e : Err) (on : Bool) (k : ℕ)
      → get_elem? c.section p ≡ some e
      → enabled (err_get H (toggle H c p e on) k) ≡ enabled (err_get H c k)
  unfolding err_get toggle
  enabled-toggle c p e on k at = elim (Option-cases (H.get c.err_map k)) [
    | inl missing ↦ ground (arith, missing)
    | inr (q, found) ↦ ground (
      arith,
      found,
      update_flags-disabled e.flags on,
      get_elem?-set c.section p q (changed H e on) at,
    )
  ]

  -- Reports neither enable nor disable an error.
  pub enabled-err_report :
      (c : Ctx H) (errcode : ℕ) (on : Bool) {c' : Ctx H} {evs : List Event}
      → err_report H c errcode on ≡ some (c', evs)
      → (k : ℕ) → enabled (err_get H c' k) ≡ enabled (err_get H c k)
  enabled-err_report c errcode on h k =
      let (p, e, got, did) = err_report_lem H c errcode on h in
      rw (← ap (λ (r : Ctx H × List Event). r.0) did) (elim (report_at-cases H c p e on) [
        | inl same ↦ rw same.0 refl
        | inr step ↦ rw (step.0) (enabled-toggle c p e on k (err_get_lem H c errcode got).1)
      ])

  -- A report of an enabled error is taken.
  pub enabled-takes :
      (c : Ctx H) (errcode : ℕ) (on : Bool)
      → enabled (err_get H c errcode) ≡ true
      → (r : Ctx H × List Event) × (err_report H c errcode on ≡ some r)
  unfolding err_report
  enabled-takes c errcode on h = elim (Option-cases (err_get H c errcode)) [
    | inl missing ↦ absurd (ground (arith, missing))
    | inr ((p, e), found) ↦ (report_at H c p e on, rw found refl)
  ]
