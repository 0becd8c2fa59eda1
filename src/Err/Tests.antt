-- ===== src/Err/Tests.antt =====
-- Runs of subsys/err/err.c on a small section, and instances of the theorems.
use nturt_zephyr_common.Base.{
  ℕ, zero, suc, ◌⊎◌, inl, inr, ◌≡◌, refl, ap, sym, true, false, some, List, [], ◌∷◌, arith,
  get_elem?, ◌==◌, if◌then◌else◌, ◌&&◌, All, ◌↔◌,
}
use mathlib.Core.Option.{some-injective}
use nturt_zephyr_common.Base.HashMap.Assoc.{assoc, find, put, put_added}
use nturt_zephyr_common.Err.Events.{
  Err, Filter, Callback, handled, set_line, wrn, code, sev, matches_all, notify, log,
}
use nturt_zephyr_common.Err.{
  Ctx, ready, has_one_severity, toggle, announce, register, init, err_get, err_report, err_is_set,
}
use nturt_zephyr_common.Err.Invariant.{IsConsistent, err_report-IsConsistent}
use nturt_zephyr_common.Err.Status.{enabled, err_is_set-err_report}
use nturt_zephyr_common.Err.Matching.{Accepts, matches_all_iff}
use nturt_zephyr_common.Err.Init.{IsSection, init-IsConsistent, init_ready}

-- A warning, a fatal error that is set from the start, and a disabled error.
abbrev section : List Err
section =
    record { errcode = 7; flags = 2; name = "a"; desc = "A" }
    ∷ record { errcode = 9; flags = 40; name = "b"; desc = "B" }
    ∷ record { errcode = 4; flags = 17; name = "c"; desc = "C" }
    ∷ []

-- A callback for codes 7 and 4, and one for fatal errors.
abbrev callbacks : List Callback
callbacks =
    record {
      handler = 0;
      user_data = 5;
      filters = record { type = code; values = 7 ∷ 4 ∷ [] } ∷ [];
    }
    ∷ record { handler = 1; user_data = 6; filters = record { type = sev; values = 8 ∷ [] } ∷ [] }
    ∷ []

started : Ctx assoc
started = record {
  cb_dispatched = true;
  errors = 1 ∷ [];
  section = section;
  callbacks = callbacks;
  err_map = (4, 2) ∷ (9, 1) ∷ (7, 0) ∷ [];
}

init_run : init assoc section callbacks ≡ ready (record started { cb_dispatched = false })
unfolding init register put started
init_run = refl

-- `started` with the warning set as well.
warned : Ctx assoc
unfolding started
warned = record started {
  errors = 0 ∷ 1 ∷ [];
  section =
      record { errcode = 7; flags = 34; name = "a"; desc = "A" }
      ∷ record { errcode = 9; flags = 40; name = "b"; desc = "B" }
      ∷ record { errcode = 4; flags = 17; name = "c"; desc = "C" }
      ∷ [];
}

set_warning :
    err_report assoc started 7 true
    ≡ some (warned, handled 0 7 true 5 ∷ set_line wrn 7 "a" "A" ∷ [])
unfolding err_report toggle announce warned find notify log
set_warning = refl

section-IsSection : IsSection section
section-IsSection = record {
  one_severity = one_severity;
  distinct = λ p q e f hp hq h. ground (arith, code_at p hp, code_at q hq);
}
  where
    one_severity : (p : ℕ) (e : Err) → get_elem? section p ≡ some e → has_one_severity e ≡ true
    one_severity zero e h = ap has_one_severity (sym (some-injective _ _ h))
    one_severity (suc zero) e h = ap has_one_severity (sym (some-injective _ _ h))
    one_severity (suc (suc zero)) e h = ap has_one_severity (sym (some-injective _ _ h))
    one_severity (suc (suc (suc p))) e h = absurd (cc)

    code_at :
        (p : ℕ) {e : Err}
        → get_elem? section p ≡ some e
        → ((p ≡ 0) × (e.errcode ≡ 7)) ⊎ ((p ≡ 1) × (e.errcode ≡ 9)) ⊎ ((p ≡ 2) × (e.errcode ≡ 4))
    code_at zero h = inl (refl, ground (arith, h))
    code_at (suc zero) h = inr (inl (refl, ground (arith, h)))
    code_at (suc (suc zero)) h = inr (inr (refl, ground (arith, h)))
    code_at (suc (suc (suc p))) h = absurd (cc)

init-IsConsistent_example :
    IsConsistent assoc (record started { cb_dispatched = false })
    × ((p : ℕ) (e : Err) → get_elem? section p ≡ some e → find started.err_map e.errcode ≡ some p)
init-IsConsistent_example = init-IsConsistent assoc section callbacks init_run

started-IsConsistent : IsConsistent assoc started
started-IsConsistent =
    let v : IsConsistent assoc (record started { cb_dispatched = false }) =
      (init-IsConsistent assoc section callbacks init_run).0 in
    record { listed_once = v.listed_once; indexed = v.indexed }

init_ready_example : (c : Ctx assoc) × (init assoc section callbacks ≡ ready c)
init_ready_example = init_ready assoc put_added section callbacks section-IsSection

err_report-IsConsistent_example : IsConsistent assoc warned
err_report-IsConsistent_example =
    err_report-IsConsistent assoc started 7 true set_warning started-IsConsistent

err_is_set-err_report_example : err_is_set assoc warned 9 ≡ (
    if (9 == 7) && enabled (err_get assoc started 7) then some true else err_is_set assoc started 9)
err_is_set-err_report_example =
    err_is_set-err_report assoc started 7 true started-IsConsistent set_warning 9

-- A fatal error with code 7 passes both filters of a callback.
abbrev both : List Filter
both = record { type = code; values = 7 ∷ 4 ∷ [] } ∷ record { type = sev; values = 8 ∷ [] } ∷ []

abbrev fatal : Err
fatal = record { errcode = 7; flags = 40; name = "f"; desc = "F" }

matches_all_iff_example : (matches_all both fatal ≡ true) ↔ All (Accepts fatal) both
matches_all_iff_example = matches_all_iff both fatal ((λ e. cc), ((λ e. cc), tt))
