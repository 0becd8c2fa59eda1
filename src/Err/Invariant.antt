-- ===== src/Err/Invariant.antt =====
-- subsys/err/err.c: what holds of the error context between two calls.
use nturt_zephyr_common.Base.{
  ℕ, ◌⊎◌, inl, inr, Bool-cases, Option-cases, ◌≡◌, ap, Bool, true, false, not, none, some, List, [],
  ◌∷◌, arith, ◌==◌, if◌then◌else◌, get_elem?, get_elem?-set, set, count, count-erase, erase,
  test_bit, set_bit, clear_bit,
}
use nturt_zephyr_common.Base.HashMap.{HashMap}
use nturt_zephyr_common.Err.Events.{Err, Event, flag_disabled, flag_set, update_flags}
use nturt_zephyr_common.Err.{Ctx, changed, toggle, announce, report_at, err_get, err_report}

-- How often an error stands in the list of set errors: once if it is set and not disabled.
abbrev pub listed : Err → ℕ
listed e = if test_bit e.flags flag_disabled then 0 else if test_bit e.flags flag_set then 1 else 0

abbrev pub listed_at : List Err → ℕ → ℕ
listed_at es p = elim (get_elem? es p) [ none ↦ 0 | some e ↦ listed e ]

module _ (H : HashMap) where
  pub record IsConsistent (c : Ctx H) : Type 0 where
    -- The list holds just the set errors, each once.
    pub listed_once : (p : ℕ) → count p c.errors ≡ listed_at c.section p
    -- The map leads to the error that has the code.
    pub indexed :
        (k p : ℕ)
        → H.get c.err_map k ≡ some p
        → (e : Err) × (get_elem? c.section p ≡ some e) × (e.errcode ≡ k)

-- Flag arithmetic on the two bits that the module uses.
pub set_bit-set : (x : ℕ) → test_bit (set_bit x flag_set) flag_set ≡ true
set_bit-set x = ground arith

pub clear_bit-set : (x : ℕ) → test_bit (clear_bit x flag_set) flag_set ≡ false
clear_bit-set x = ground arith

pub set_bit-disabled :
    (x : ℕ) → test_bit (set_bit x flag_set) flag_disabled ≡ test_bit x flag_disabled
set_bit-disabled x = ground arith

pub clear_bit-disabled :
    (x : ℕ) → test_bit (clear_bit x flag_set) flag_disabled ≡ test_bit x flag_disabled
clear_bit-disabled x = ground arith

pub update_flags-set : (x : ℕ) (on : Bool) → test_bit (update_flags x on) flag_set ≡ on
update_flags-set x true = set_bit-set x
update_flags-set x false = clear_bit-set x

pub update_flags-disabled :
    (x : ℕ) (on : Bool) → test_bit (update_flags x on) flag_disabled ≡ test_bit x flag_disabled
update_flags-disabled x true = set_bit-disabled x
update_flags-disabled x false = clear_bit-disabled x

-- Entering an error at the head of the list, or taking it out, keeps the count of every error.
count-change :
    (es : List Err) (l : List ℕ) (p q : ℕ) (e : Err) (on : Bool)
    → get_elem? es p ≡ some e
    → test_bit e.flags flag_disabled ≡ false
    → test_bit e.flags flag_set ≡ not on
    → count p l ≡ listed_at es p
    → count q l ≡ listed_at es q
    → count q (if on then p ∷ l else erase l p)
      ≡ listed_at (set es p (record e { flags = update_flags e.flags on })) q
count-change es l p q e on at enabled differs hp hq = ground (
  arith,
  count-erase q l p,
  get_elem?-set es p q (record e { flags = update_flags e.flags on }) at,
  update_flags-set e.flags on,
  update_flags-disabled e.flags on,
)

module _ (H : HashMap) where
  -- A report either leaves all as it was, or changes an enabled error.
  pub report_at-cases :
      (c : Ctx H) (p : ℕ) (e : Err) (on : Bool)
      → ((report_at H c p e on ≡ (c, []))
          × ((test_bit e.flags flag_disabled ≡ true) ⊎ (test_bit e.flags flag_set ≡ on)))
        ⊎ ((report_at H c p e on ≡ (toggle H c p e on, announce H c (changed H e on)))
            × (test_bit e.flags flag_disabled ≡ false)
            × (test_bit e.flags flag_set ≡ not on))
  unfolding report_at
  report_at-cases c p e on = ground arith

  toggle-IsConsistent :
      {c : Ctx H} (p : ℕ) (e : Err) (on : Bool)
      → get_elem? c.section p ≡ some e
      → test_bit e.flags flag_disabled ≡ false
      → test_bit e.flags flag_set ≡ not on
      → IsConsistent H c
      → IsConsistent H (toggle H c p e on)
  unfolding toggle
  toggle-IsConsistent {c} p e on at enabled differs v = record {
    listed_once = λ q.
        count-change c.section c.errors p q e on at enabled differs (v.listed_once p)
          (v.listed_once q);
    indexed = λ k q h. still k q (v.indexed k q h);
  }
    where
      still :
          (k q : ℕ)
          → (f : Err) × (get_elem? c.section q ≡ some f) × (f.errcode ≡ k)
          → (f : Err) × (get_elem? (set c.section p (changed H e on)) q ≡ some f) × (f.errcode ≡ k)
      still k q (f, hf, hk) = elim (Bool-cases (p == q)) [
        | inl same ↦ (
          changed H e on,
          ground (arith, get_elem?-set c.section p q (changed H e on) at),
          ground arith,
        )
        | inr other ↦ (f, ground (arith, get_elem?-set c.section p q (changed H e on) at), hk)
      ]

  report_at-IsConsistent :
      {c : Ctx H} (p : ℕ) (e : Err) (on : Bool)
      → get_elem? c.section p ≡ some e
      → IsConsistent H c
      → IsConsistent H (report_at H c p e on).0
  report_at-IsConsistent {c} p e on at v = elim (report_at-cases c p e on) [
    | inl same ↦ rw same.0 v
    | inr step ↦ rw step.0 (toggle-IsConsistent p e on at step.1 step.2 v)
  ]

  pub err_get_lem :
      (c : Ctx H) (k : ℕ) {p : ℕ} {e : Err}
      → err_get H c k ≡ some (p, e)
      → (H.get c.err_map k ≡ some p) × (get_elem? c.section p ≡ some e)
  unfolding err_get
  err_get_lem c k h = ground arith

  -- What a successful report has done.
  pub err_report_lem :
      (c : Ctx H) (k : ℕ) (on : Bool) {c' : Ctx H} {evs : List Event}
      → err_report H c k on ≡ some (c', evs)
      → (p : ℕ) × (e : Err) × (err_get H c k ≡ some (p, e)) × (report_at H c p e on ≡ (c', evs))
  unfolding err_report
  err_report_lem c k on {c'} {evs} h = elim (Option-cases (err_get H c k)) [
    | inl e ↦ absurd (ground (arith, e))
    | inr (r, e) ↦ (r.0, r.1, e, ground (arith, e))
  ]

  -- A report keeps the error context consistent: the list of set errors holds each error that is
  -- set and not disabled once, and no other, and the map leads to the error with the code.
  pub err_report-IsConsistent :
      (c : Ctx H) (errcode : ℕ) (on : Bool) {c' : Ctx H} {evs : List Event}
      → err_report H c errcode on ≡ some (c', evs)
      → IsConsistent H c
      → IsConsistent H c'
  err_report-IsConsistent c errcode on h v =
      let (p, e, got, did) = err_report_lem c errcode on h in
      rw (← ap (λ (r : Ctx H × List Event). r.0) did)
        (report_at-IsConsistent p e on (err_get_lem c errcode got).1 v)
