-- ===== src/Err/Matching.antt =====
-- subsys/err/err.c, `err_notify`: which callbacks an error reaches.
use nturt_zephyr_common.Base.{
  ℕ, zero, suc, ◌≡◌, ◌≢◌, ◌↔◌, refl, sym, ap, ◌∙◌, Bool-cases, inl, inr, true, false, some, List,
  [], ◌∷◌, arith, ◌==◌, ==_iff, if◌then◌else◌, get_elem?, All,
}
use nturt_zephyr_common.Err.Events.{
  Err, FilterType, invalid, code, sev, Filter, severity, hits, matches_any, matches_all,
}

-- What a filter of each type compares its values with.
abbrev pub key : FilterType → Err → ℕ
key code e = e.errcode
key _ e = severity e

-- One of the filter's values is the error's code, or its severity.
abbrev pub Accepts : Err → Filter → Type 0
Accepts e f = (i : ℕ) × (get_elem? f.values i ≡ some (key f.type e))

-- A filter that ERR_FILTER_CODE or ERR_FILTER_SEV makes.
abbrev pub IsUsable : Filter → Type 0
IsUsable f = f.type ≢ invalid

hits-key : (t : FilterType) (v : ℕ) (e : Err) → t ≢ invalid → hits t v e ≡ (v == key t e)
unfolding hits
hits-key code v e h = refl
hits-key sev v e h = refl
hits-key invalid v e h = absurd (h refl)

matches_any-some :
    (t : FilterType) (vs : List ℕ) (e : Err)
    → t ≢ invalid
    → matches_any t vs e ≡ true
    → (i : ℕ) × (get_elem? vs i ≡ some (key t e))
unfolding matches_any
matches_any-some t [] e u h = absurd (cc)
matches_any-some t (v ∷ vs) e u h = elim (Bool-cases (hits t v e)) [
  | inl hit ↦ (0, ap some ((==_iff v (key t e)).0 (sym (hits-key t v e u) ∙ hit)))
  | inr miss ↦ let (i, found) = matches_any-some t vs e u (rw miss at h) in (suc i, found)
]

some-matches_any :
    (t : FilterType) (vs : List ℕ) (e : Err) (i : ℕ)
    → t ≢ invalid
    → get_elem? vs i ≡ some (key t e)
    → matches_any t vs e ≡ true
unfolding matches_any
some-matches_any t [] e i u h = absurd (cc)
some-matches_any t (v ∷ vs) e zero u h = rw (hits-key t v e u) (ground arith)
some-matches_any t (v ∷ vs) e (suc i) u h = ground (arith, some-matches_any t vs e i u h)

matches_all-nil : (e : Err) → matches_all [] e ≡ true
unfolding matches_all
matches_all-nil e = refl

matches_all-cons :
    (f : Filter) (fs : List Filter) (e : Err)
    → f.type ≢ invalid
    → matches_all (f ∷ fs) e ≡ (if matches_any f.type f.values e then matches_all fs e else false)
unfolding matches_all
matches_all-cons f fs e u = ground arith

-- A callback is called exactly when each of its filters has the error's code or severity among its
-- values, for filters made by ERR_FILTER_CODE and ERR_FILTER_SEV.
pub matches_all_iff :
    (fs : List Filter) (e : Err) → All IsUsable fs → (matches_all fs e ≡ true) ↔ All (Accepts e) fs
matches_all_iff [] e u = (λ _. tt, λ _. matches_all-nil e)
matches_all_iff (f ∷ fs) e u = (
  λ h. elim (Bool-cases (matches_any f.type f.values e)) [
    | inl hit ↦
        (matches_any-some f.type f.values e u.0 hit, (matches_all_iff fs e u.1).0 (rest hit h))
    | inr miss ↦ absurd (stop miss h)
  ],
  λ (here, later).
      rw (matches_all-cons f fs e u.0, some-matches_any f.type f.values e here.0 u.0 here.1)
        ((matches_all_iff fs e u.1).1 later),
)
  where
    rest :
        matches_any f.type f.values e ≡ true
        → matches_all (f ∷ fs) e ≡ true
        → matches_all fs e ≡ true
    rest hit h = ground (arith, matches_all-cons f fs e u.0)

    stop : matches_any f.type f.values e ≡ false → matches_all (f ∷ fs) e ≡ true → ⊥
    stop miss h = ground (arith, matches_all-cons f fs e u.0)
