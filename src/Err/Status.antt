-- ===== src/Err/Status.antt =====
-- subsys/err/err.c: what `err_is_set` says after `err_report`, and what a report makes known.
use nturt_zephyr_common.Base.{
  ℕ, ◌≡◌, ap, sym, ◌∙◌, ◌⊎◌, inl, inr, Bool, Bool-cases, Option-cases, true, false, not, ◌&&◌,
  Option, none, some, List, [], arith, ◌==◌, if◌then◌else◌, get_elem?, get_elem?-set, test_bit,
}
use nturt_zephyr_common.Base.HashMap.{HashMap}
use nturt_zephyr_common.Err.Events.{Err, Event, flag_disabled, flag_set}
use nturt_zephyr_common.Err.{Ctx, changed, toggle, report_at, err_get, err_report, err_is_set}
use nturt_zephyr_common.Err.Invariant.{
  IsConsistent, report_at-cases, err_get_lem, err_report_lem, update_flags-set,
}

-- Whether an error code belongs to an error that is not disabled.
abbrev pub enabled : Option (ℕ × Err) → Bool
enabled none = false
enabled (some (p, e)) = not (test_bit e.flags flag_disabled)

module _ (H : HashMap) where
  err_is_set-toggle :
      (c : Ctx H) (errcode : ℕ) (on : Bool) (p : ℕ) (e : Err)
      → IsConsistent H c
      → H.get c.err_map errcode ≡ some p
      → get_elem? c.section p ≡ some e
      → (k : ℕ)
      → err_is_set H (toggle H c p e on) k ≡ (if k == errcode then some on else err_is_set H c k)
  unfolding err_is_set toggle
  err_is_set-toggle c errcode on p e v got at k = elim (Option-cases (H.get c.err_map k)) [
    | inl missing ↦ ground (arith, missing)
    | inr (q, found) ↦ ground (
      arith,
      found,
      v.indexed k q found,
      v.indexed errcode p got,
      update_flags-set e.flags on,
      get_elem?-set c.section p q (changed H e on) at,
    )
  ]

  -- A report that does not go through agrees with what `err_is_set` says already.
  unchanged :
      (c : Ctx H) (errcode : ℕ) (on : Bool) (p : ℕ) (e : Err) (k : ℕ)
      → H.get c.err_map errcode ≡ some p
      → get_elem? c.section p ≡ some e
      → (test_bit e.flags flag_disabled ≡ true) ⊎ (test_bit e.flags flag_set ≡ on)
      → err_is_set H c k ≡ (
          if (k == errcode) && not (test_bit e.flags flag_disabled)
          then some on
          else err_is_set H c k)
  unfolding err_is_set
  unchanged c errcode on p e k found at why = elim (Bool-cases (k == errcode)) [
    | inl same ↦ let eq : k ≡ errcode = ground arith in rw eq (ground (arith, found, at))
    | inr other ↦ rw other
  ]

  -- After `err_report errcode on` the error with that code is set as asked, unless it is disabled,
  -- and `err_is_set` answers for every other code as it did before.
  pub err_is_set-err_report :
      (c : Ctx H) (errcode : ℕ) (on : Bool) {c' : Ctx H} {evs : List Event}
      → IsConsistent H c
      → err_report H c errcode on ≡ some (c', evs)
      → (k : ℕ)
      → err_is_set H c' k
        ≡ (if (k == errcode) && enabled (err_get H c errcode) then some on else err_is_set H c k)
  err_is_set-err_report c errcode on v h k =
      let (p, e, got, did) = err_report_lem H c errcode on h in
      let (found, at) = err_get_lem H c errcode got in
      rw (← ap (λ (r : Ctx H × List Event). r.0) did, got)
        (elim (report_at-cases H c p e on) [
          | inl same ↦ rw same.0 (unchanged c errcode on p e k found at same.1)
          | inr step ↦
              rw (step.0, err_is_set-toggle c errcode on p e v found at k, step.1) (ground arith)
        ])

  already :
      (c : Ctx H) (k : ℕ) (on : Bool)
      → err_is_set H c k ≡ some on
      → err_report H c k on ≡ some (c, [])
  unfolding err_is_set err_report
  already c k on h = elim (Option-cases (err_get H c k)) [
    | inl e ↦ absurd (ground (arith, e))
    | inr (r, e) ↦ ground (arith, e, report_at-cases H c r.0 r.1 on)
  ]

  disabled-err_report :
      (c : Ctx H) (k : ℕ) (on : Bool) {p : ℕ} {e : Err}
      → err_get H c k ≡ some (p, e)
      → report_at H c p e on ≡ (c, [])
      → err_report H c k on ≡ some (c, [])
  unfolding err_report
  disabled-err_report c k on got same = rw (got, same)

  -- Reporting the same state again changes nothing and tells no one.
  pub err_report_twice :
      (c : Ctx H) (errcode : ℕ) (on : Bool) {c' : Ctx H} {evs : List Event}
      → IsConsistent H c
      → err_report H c errcode on ≡ some (c', evs)
      → err_report H c' errcode on ≡ some (c', [])
  err_report_twice c errcode on {c'} {evs} v h =
      let (p, e, got, did) = err_report_lem H c errcode on h in
      elim (report_at-cases H c p e on) [
        | inl same ↦
            rw (← ap (λ (r : Ctx H × List Event). r.0) (sym same.0 ∙ did))
              (disabled-err_report c errcode on got same.0)
        | inr step ↦
            already c' errcode on
              (err_is_set-err_report c errcode on v h errcode ∙ rw got (ground (arith, step.1)))
      ]
