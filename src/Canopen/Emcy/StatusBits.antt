-- ===== src/Canopen/Emcy/StatusBits.antt =====
-- subsys/canbus/canopen/emcy.c: the status bit of each error of this node.
use nturt_zephyr_common.Base.{
  ℕ, zero, suc, ◌+◌, ◌≤◌, ◌≡◌, refl, ap, ◌∙◌, Bool, true, false, Option, none, some, List, [], ◌∷◌,
  arith, leb, ◌==◌, if◌then◌else◌, get_elem?, length, get_elem?-lt, All,
}
use nturt_zephyr_common.Base.HashMap.{HashMap, added}
use nturt_zephyr_common.Err.Events.{Err}
use nturt_zephyr_common.Err.Init.{IsSection}
use nturt_zephyr_common.Canopen.Emcy.{Stack, init_from, init, err_cb}

-- The numbers that the errors get from `p` on, where a later error with the same code wins.
abbrev bit_of : ℕ → List Err → ℕ → Option ℕ → Option ℕ
bit_of p [] k d = d
bit_of p (e ∷ es) k d = bit_of (suc p) es k (if e.errcode == k then some p else d)

-- No two errors have one code.
abbrev IsDistinct : List Err → Type 0
IsDistinct [] = Unit
IsDistinct (e ∷ es) = All (λ f. (e.errcode == f.errcode) ≡ false) es × IsDistinct es

All_at {κ} :
    (P : Err → Type κ) (es : List Err)
    → ((i : ℕ) (e : Err) → get_elem? es i ≡ some e → P e)
    → All P es
All_at P [] h = tt
All_at P (e ∷ es) h = (h 0 e refl, All_at P es (λ i f at. h (suc i) f at))

All_get {κ} :
    (P : Err → Type κ) (es : List Err) (i : ℕ) {e : Err} → All P es → get_elem? es i ≡ some e → P e
All_get P [] i h at = absurd (cc)
All_get P (e ∷ es) zero h at = ground (arith, h, at)
All_get P (e ∷ es) (suc i) h at = All_get P es i h.1 at

distinct_lem :
    (es : List Err)
    → ((p q : ℕ) (e f : Err)
        → get_elem? es p ≡ some e
        → get_elem? es q ≡ some f
        → e.errcode ≡ f.errcode
        → p ≡ q)
    → IsDistinct es
distinct_lem [] h = tt
distinct_lem (e ∷ es) h = (
  All_at (λ f. (e.errcode == f.errcode) ≡ false) es (λ i f at. other f (h 0 (suc i) e f refl at)),
  distinct_lem es (λ p q f g atf atg same. omega (arith, h (suc p) (suc q) f g atf atg same)),
)
  where
    other :
        (f : Err) {i : ℕ} → (e.errcode ≡ f.errcode → 0 ≡ suc i) → (e.errcode == f.errcode) ≡ false
    other f h = ground (arith, h)

bit_of-other :
    (p : ℕ) (es : List Err) (k : ℕ) (d : Option ℕ)
    → All (λ f. (k == f.errcode) ≡ false) es
    → bit_of p es k d ≡ d
bit_of-other p [] k d h = refl
bit_of-other p (e ∷ es) k d h = rw (differs h.0) (bit_of-other (suc p) es k d h.1)
  where
    differs : (k == e.errcode) ≡ false → (e.errcode == k) ≡ false
    differs h = ground arith

bit_of_lem :
    (p : ℕ) (es : List Err) (i : ℕ) {e : Err} (d : Option ℕ)
    → IsDistinct es
    → get_elem? es i ≡ some e
    → bit_of p es e.errcode d ≡ some (p + i)
bit_of_lem p [] i d h at = absurd (cc)
bit_of_lem p (f ∷ es) zero {e} d h at =
    let same : f ≡ e = ground (arith, at) in
    rw⁻¹ same
      (rw (self f.errcode) (bit_of-other (suc p) es f.errcode (some p) h.0 ∙ ap some (omega arith)))
  where
    self : (k : ℕ) → (k == k) ≡ true
    self k = ground arith
bit_of_lem p (f ∷ es) (suc i) d h at = bit_of_lem (suc p) es i _ h.1 at ∙ ap some (omega arith)

module _ (stack : Stack) (H : HashMap) where
  module _ (roomy : (m : H.Map) (k v : ℕ) → H.get m k ≡ none → (H.insert m k v).0 ≡ added) where
    init_from_lem :
        (m : H.Map) (p : ℕ) (es : List Err)
        → p + length es ≤ suc stack.manufacturer_end
        → All (λ e. H.get m e.errcode ≡ none) es
        → IsDistinct es
        → (m' : H.Map) × (init_from stack H m p es ≡ some m')
          × ((k : ℕ) → H.get m' k ≡ bit_of p es k (H.get m k))
    unfolding init_from
    init_from_lem m p [] l fresh d = (m, refl, λ k. refl)
    init_from_lem m p (e ∷ es) l fresh d =
        let new : (H.insert m e.errcode p).0 ≡ added = roomy m e.errcode p fresh.0 in
        let n : H.Map = (H.insert m e.errcode p).1 in
        let (m', did, at) =
          init_from_lem n (suc p) es (omega (arith, l)) (still es new fresh.1 d.0) d.1 in
        let fits : leb p stack.manufacturer_end ≡ true = ground (arith, l) in
        (
          m',
          rw fits did,
          λ k. at k ∙ ap (bit_of (suc p) es k) (H.get-insert_added m e.errcode p k new),
        )
      where
        still :
            (fs : List Err)
            → (H.insert m e.errcode p).0 ≡ added
            → All (λ f. H.get m f.errcode ≡ none) fs
            → All (λ f. (e.errcode == f.errcode) ≡ false) fs
            → All (λ f. H.get (H.insert m e.errcode p).1 f.errcode ≡ none) fs
        still [] new h d = tt
        still (f ∷ fs) new h d =
            (H.get-insert_added m e.errcode p f.errcode new ∙ rw d.0 (h.0), still fs new h.1 d.1)

    -- With a map that takes every new key, errors with different codes, and no more of them than the
    -- manufacturer has status bits, `init` succeeds, and afterwards a change of the error with index i
    -- is passed to CANopenNode with the status bit i places behind the manufacturer's first, which is
    -- not past the last one.
    pub err_cb-init :
        (section : List Err)
        → IsSection section
        → stack.manufacturer_start + length section ≤ suc stack.manufacturer_end
        → (m : H.Map) × (init stack H section ≡ some m)
          × ((i : ℕ) (e : Err) (on : Bool)
              → get_elem? section i ≡ some e
              → (err_cb stack H m e.errcode on
                  ≡ some (record {
                    on = on;
                    status_bit = stack.manufacturer_start + i;
                    info = e.errcode;
                  }))
                × (stack.manufacturer_start + i ≤ stack.manufacturer_end))
    unfolding init err_cb
    err_cb-init section s l =
        let d : IsDistinct section = distinct_lem section s.distinct in
        let (m, did, at) =
          init_from_lem H.empty stack.manufacturer_start section l
            (All_at (λ e. H.get H.empty e.errcode ≡ none) section (λ i e a. H.get-empty e.errcode))
            d in
        (
          m,
          did,
          λ i e on a. (
            rw
                (
                  at e.errcode,
                  bit_of_lem stack.manufacturer_start section i (H.get H.empty e.errcode) d a,
                )
                refl,
            omega (arith, get_elem?-lt section i a, l),
          ),
        )
