-- ===== src/Err/Init.antt =====
-- subsys/err/err.c: `init` builds a consistent context out of the linker section.
use nturt_zephyr_common.Base.{
  ℕ, suc, add-zero, ◌+◌, ◌<◌, ◌≡◌, inl, inr, refl, ap, ◌∙◌, Bool-cases, Option-cases, true, none,
  some, List, [], ◌∷◌, arith, ◌==◌, if◌then◌else◌, get_elem?, length, count, get_elem?-lt,
  get_elem?-none, dec_lt,
}
use nturt_zephyr_common.Base.HashMap.{HashMap, Insert, added, replaced, failed}
use nturt_zephyr_common.Err.Events.{Err, Callback}
use nturt_zephyr_common.Err.{
  Ctx, Start, ready, errno, assertion, has_one_severity, and_then, blank, entered, register,
  init_from, init,
}
use nturt_zephyr_common.Err.Invariant.{IsConsistent, listed, listed_at}

-- Every error has one severity, and no two have one code.
pub record IsSection (es : List Err) : Type 0 where
  pub one_severity : (p : ℕ) (e : Err) → get_elem? es p ≡ some e → has_one_severity e ≡ true
  pub distinct :
      (p q : ℕ) (e f : Err)
      → get_elem? es p ≡ some e
      → get_elem? es q ≡ some f
      → e.errcode ≡ f.errcode
      → p ≡ q

module _ (H : HashMap) where
  -- What holds before the round for the error with index `n`.
  record IsBuilt (c : Ctx H) (n : ℕ) : Type 0 where
    -- The errors up to `n` are in the list if they are set, and no others.
    listed_below :
        (p : ℕ)
        → (p < n → count p c.errors ≡ listed_at c.section p) × (n < p + 1 → count p c.errors ≡ 0)
    -- The map leads from each code to the error with that code.
    indexed :
        (k p : ℕ)
        → H.get c.err_map k ≡ some p
        → (e : Err) × (get_elem? c.section p ≡ some e) × (e.errcode ≡ k)
    only_below : (k p : ℕ) → H.get c.err_map k ≡ some p → p < n
    -- It has each code up to `n`.
    entered_below :
        (p : ℕ) (e : Err)
        → p < n
        → get_elem? c.section p ≡ some e
        → H.get c.err_map e.errcode ≡ some p

  -- A successful round enters a new code.
  register_lem :
      (c : Ctx H) (p : ℕ) (e : Err) {c' : Ctx H}
      → register H c p e ≡ ready c'
      → ((H.insert c.err_map e.errcode p).0 ≡ added)
        × (c'.err_map ≡ (H.insert c.err_map e.errcode p).1)
        × (c'.errors ≡ (if listed e == 1 then p ∷ c.errors else c.errors))
        × (c'.section ≡ c.section)
        × (c'.callbacks ≡ c.callbacks)
        × (has_one_severity e ≡ true)
  unfolding register
  register_lem c p e h = ground arith

  register-IsBuilt :
      (c : Ctx H) (n : ℕ) (e : Err) {c' : Ctx H}
      → get_elem? c.section n ≡ some e
      → register H c n e ≡ ready c'
      → IsBuilt c n
      → IsBuilt c' (n + 1)
  register-IsBuilt c n e {c'} at h b =
      let (new, map', errors', section', _, _) = register_lem c n e h in
      record {
        listed_below =
            λ p. rw (section', errors') (counted p (b.listed_below p) (b.listed_below n));
        indexed = λ k p g.
            rw section'
              (found k p (rw (map', H.get-insert_added c.err_map e.errcode n k new) at g));
        only_below = λ k p g.
            below_next k p (rw (map', H.get-insert_added c.err_map e.errcode n k new) at g);
        entered_below = λ p f l a.
            rw (map', H.get-insert_added c.err_map e.errcode n f.errcode new)
              (below p f l (rw section' at a) new);
      }
    where
      counted :
          (p : ℕ)
          → (p < n → count p c.errors ≡ listed_at c.section p) × (n < p + 1 → count p c.errors ≡ 0)
          → (n < n → count n c.errors ≡ listed_at c.section n) × (n < n + 1 → count n c.errors ≡ 0)
          → (p < n + 1
              → count p (if listed e == 1 then n ∷ c.errors else c.errors) ≡ listed_at c.section p)
            × (n + 1 < p + 1 → count p (if listed e == 1 then n ∷ c.errors else c.errors) ≡ 0)
      counted p bp bn = (λ l. ground (arith, at, bp, bn), λ l. ground (arith, bp, bn))

      found :
          (k p : ℕ)
          → (if e.errcode == k then some n else H.get c.err_map k) ≡ some p
          → (f : Err) × (get_elem? c.section p ≡ some f) × (f.errcode ≡ k)
      found k p g = elim (Bool-cases (e.errcode == k)) [
        | inl same ↦ (e, ground (arith, at), ground arith)
        | inr other ↦ b.indexed k p (rw other at g)
      ]

      below_next :
          (k p : ℕ) → (if e.errcode == k then some n else H.get c.err_map k) ≡ some p → p < n + 1
      below_next k p g = elim (Bool-cases (e.errcode == k)) [
        | inl same ↦ ground arith
        | inr other ↦ omega (arith, b.only_below k p (rw other at g))
      ]

      below :
          (p : ℕ) (f : Err)
          → p < n + 1
          → get_elem? c.section p ≡ some f
          → (H.insert c.err_map e.errcode n).0 ≡ added
          → (if e.errcode == f.errcode then some n else H.get c.err_map f.errcode) ≡ some p
      below p f l a new = elim (Bool-cases (p == n)) [
        | inl same ↦ ground (arith, at, a)
        | inr other ↦
            let was : H.get c.err_map f.errcode ≡ some p = b.entered_below p f (ground arith) a in
            ground (arith, was, H.absent_of_added c.err_map e.errcode n new)
      ]

  init_from-cons :
      (c : Ctx H) (n : ℕ) (e : Err) (es : List Err) {c' : Ctx H}
      → init_from H c n (e ∷ es) ≡ ready c'
      → (d : Ctx H) × (register H c n e ≡ ready d) × (init_from H d (n + 1) es ≡ ready c')
  unfolding init_from
  init_from-cons c n e es {c'} h = go (register H c n e) refl h
    where
      go :
          (s : Start (Ctx H))
          → register H c n e ≡ s
          → and_then s (λ d. init_from H d (n + 1) es) ≡ ready c'
          → (d : Ctx H) × (register H c n e ≡ ready d) × (init_from H d (n + 1) es ≡ ready c')
      go (ready d) r k = (d, r, k)
      go (errno m) r k = absurd (cc)
      go assertion r k = absurd (cc)

  init_from-IsBuilt :
      (c : Ctx H) (n : ℕ) (es : List Err) {c' : Ctx H}
      → ((i : ℕ) → get_elem? c.section (n + i) ≡ get_elem? es i)
      → init_from H c n es ≡ ready c'
      → IsBuilt c n
      → IsBuilt c' (n + length es) × (c'.section ≡ c.section)
  unfolding init_from
  init_from-IsBuilt c n [] {c'} at h b =
      let same : c ≡ c' = ground (arith, h) in rw (← same, add-zero) (b, refl)
  init_from-IsBuilt c n (e ∷ es) {c'} at h b =
      let (d, r, k) = init_from-cons c n e es h in
      let section' : d.section ≡ c.section = (register_lem c n e r).3 in
      let here : get_elem? c.section n ≡ some e = rw add-zero at (at 0) in
      let (b', s') =
        init_from-IsBuilt d (n + 1) es
          (λ i. rw section' (ap (get_elem? c.section) (omega arith) ∙ at (suc i))) k
          (register-IsBuilt c n e here r b) in
      let count : n + 1 + length es ≡ n + suc (length es) = omega arith in
      (rw count at b', s' ∙ section')

  blank-IsBuilt : (es : List Err) (cs : List Callback) → IsBuilt (blank H es cs) 0
  blank-IsBuilt es cs = record {
    listed_below = λ p. (λ l. absurd (omega arith), λ _. refl);
    indexed = λ k p g. absurd (ground (arith, H.get-empty k));
    only_below = λ k p g. absurd (ground (arith, H.get-empty k));
    entered_below = λ p e l. absurd (omega arith);
  }

  -- After `init`, the list of set errors holds each error that is set and not disabled, once, and
  -- each error is found under its code.
  pub init-IsConsistent :
      (es : List Err) (callbacks : List Callback) {c : Ctx H}
      → init H es callbacks ≡ ready c
      → IsConsistent H c
        × ((p : ℕ) (e : Err) → get_elem? es p ≡ some e → H.get c.err_map e.errcode ≡ some p)
  unfolding init
  init-IsConsistent es callbacks {c} h =
      let (b, s) =
        init_from-IsBuilt (blank H es callbacks) 0 es (λ i. ap (get_elem? es) (omega arith)) h
          (blank-IsBuilt es callbacks) in
      (
        record { listed_once = λ p. rw s (counted p s b); indexed = b.indexed },
        λ p e at. b.entered_below p e (omega (arith, get_elem?-lt es p at)) (rw s at),
      )
    where
      counted :
          (p : ℕ) → c.section ≡ es → IsBuilt c (0 + length es) → count p c.errors ≡ listed_at es p
      counted p s b = elim (dec_lt p (length es)) [
        | yes l ↦ rw (← s) ((b.listed_below p).0 (omega arith))
        | no m ↦
            rw (get_elem?-none es p (omega arith), listed_at) ((b.listed_below p).1 (omega arith))
      ]

  entered_added :
      (c : Ctx H) (n : ℕ) (e : Err) (r : Insert × H.Map)
      → r.0 ≡ added
      → (d : Ctx H) × (entered H c n e r ≡ ready d)
  unfolding entered
  entered_added c n e (added, m) h = (_, refl)
  entered_added c n e (replaced, m) h = absurd (cc)
  entered_added c n e (failed k, m) h = absurd (cc)

  module _ (roomy : (m : H.Map) (k v : ℕ) → H.get m k ≡ none → (H.insert m k v).0 ≡ added) where
    register_ready :
        (c : Ctx H) (n : ℕ) (e : Err)
        → IsSection c.section
        → get_elem? c.section n ≡ some e
        → IsBuilt c n
        → (d : Ctx H) × (register H c n e ≡ ready d)
    unfolding register
    register_ready c n e s at b =
        rw (s.one_severity n e at) (entered_added c n e _ (roomy c.err_map e.errcode n absent))
      where
        absent : H.get c.err_map e.errcode ≡ none
        absent = elim (Option-cases (H.get c.err_map e.errcode)) [
          | inl new ↦ new
          | inr (q, old) ↦
              let (f, atq, same) = b.indexed e.errcode q old in
              absurd (omega (arith, b.only_below e.errcode q old, s.distinct q n f e atq at same))
        ]

    init_from_ready :
        (c : Ctx H) (n : ℕ) (es : List Err)
        → ((i : ℕ) → get_elem? c.section (n + i) ≡ get_elem? es i)
        → IsSection c.section
        → IsBuilt c n
        → (d : Ctx H) × (init_from H c n es ≡ ready d)
    unfolding init_from
    init_from_ready c n [] at s b = (c, refl)
    init_from_ready c n (e ∷ es) at s b =
        let here : get_elem? c.section n ≡ some e = rw add-zero at (at 0) in
        let (d, r) = register_ready c n e s here b in
        let section' : d.section ≡ c.section = (register_lem c n e r).3 in
        rw r (
          init_from_ready d (n + 1) es
            (λ i. rw section' (ap (get_elem? c.section) (omega arith) ∙ at (suc i))) (rw section' s)
            (register-IsBuilt c n e here r b))

    -- With a map that takes every new key, `init` succeeds on every section whose errors have one
    -- severity each and no code twice.
    pub init_ready :
        (es : List Err) (callbacks : List Callback)
        → IsSection es
        → (c : Ctx H) × (init H es callbacks ≡ ready c)
    unfolding init
    init_ready es callbacks s =
        init_from_ready (blank H es callbacks) 0 es (λ i. ap (get_elem? es) (omega arith)) s
          (blank-IsBuilt es callbacks)
