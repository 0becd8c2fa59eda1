-- ===== src/Canopen/Emcy/Scan.antt =====
-- subsys/canbus/canopen/emcy.c: what the loops over the status bits find.
use nturt_zephyr_common.Base.{
  ℕ, zero, suc, ◌+◌, ◌-◌, ◌*◌, ◌/◌, ◌%◌, ◌≤◌, ◌<◌, ◌≡◌, refl, ap, ◌∙◌, inl, inr, Bool, Bool-cases,
  true, false, ◌&&◌, ◌||◌, some, List, arith, ◌==◌, if◌then◌else◌, get_or, test_bit, clear_bit,
  length, get_elem?-get_or, dec_lt, ℕ_discrete, add-zero,
}
use nturt_zephyr_common.Base.Bytes.{
  any_below, any_below-false, clear_bit-test_bit, clear_bit-lt, test_bit-any,
}
use nturt_zephyr_common.Canopen.Emcy.{Stack, is_counted, scan_byte, scan_from, scan}

-- `find_lsb_set` of a byte that is not zero is the number of its lowest bit, counted from 1.
pub record IsLowest (find_lsb_set : ℕ → ℕ) : Type 0 where
  pub finds : (x : ℕ) → x < 256 → (x == 0) ≡ false → test_bit x (find_lsb_set x - 1) ≡ true
  pub lowest :
      (x j : ℕ) → x < 256 → (x == 0) ≡ false → j < find_lsb_set x - 1 → test_bit x j ≡ false

any_below_ext :
    (p q : ℕ → Bool) (n : ℕ) → ((j : ℕ) → j < n → p j ≡ q j) → any_below p n ≡ any_below q n
any_below_ext p q zero h = refl
any_below_ext p q (suc n) h =
    rw (h n (omega arith), any_below_ext p q n (λ j l. h j (omega arith))) refl

-- A bit that is taken out of the search is looked at on its own.
any_below-split :
    (t t' c : ℕ → Bool) (n k : ℕ)
    → k < n
    → t k ≡ true
    → ((j : ℕ) → j < n → t' j ≡ (if j == k then false else t j))
    → any_below (λ j. t j && c j) n ≡ (if c k then true else any_below (λ j. t' j && c j) n)
any_below-split t t' c zero k l h e = absurd (omega arith)
any_below-split t t' c (suc n) k l h e = elim (ℕ_discrete n k) [
  | yes at ↦
      let same : any_below (λ j. t j && c j) n ≡ any_below (λ j. t' j && c j) n =
        any_below_ext (λ j. t j && c j) (λ j. t' j && c j) n
          (λ j m. ground (arith, e j (omega arith), at)) in
      rw same (ground (arith, e n, at, h))
  | no off ↦
      let rest : any_below (λ j. t j && c j) n
          ≡ (if c k then true else any_below (λ j. t' j && c j) n) =
        any_below-split t t' c n k (omega (arith, off)) h (λ j m. e j (omega arith)) in
      rw rest (ground (arith, e n, off))
]

any_below-append :
    (p : ℕ → Bool) (m n : ℕ)
    → any_below p (m + n) ≡ (if any_below p m then true else any_below (λ j. p (m + j)) n)
any_below-append p m zero = rw (add-zero) (ground arith)
any_below-append p m (suc n) =
    ap (any_below p) {y = suc (m + n)} (omega arith)
    ∙ rw (any_below-append p m n)
        (either (p (m + n)) (any_below p m) (any_below (λ j. p (m + j)) n))
  where
    either : (b a r : Bool) → (b || (if a then true else r)) ≡ (if a then true else b || r)
    either b a r = ground arith

module _ (stack : Stack) where
  -- Whether a status bit is set that counts as an error of the bus.
  abbrev pub is_error : List ℕ → ℕ → Bool
  is_error bytes b = test_bit (get_or bytes (b / 8) 0) (b % 8) && is_counted stack b

module _ (stack : Stack) (is_lowest : IsLowest stack.find_lsb_set) where
  found-lt : (x : ℕ) → x < 256 → (x == 0) ≡ false → stack.find_lsb_set x - 1 < 8
  found-lt x hx h = elim (dec_lt (stack.find_lsb_set x - 1) 8) [
    | yes l ↦ l
    | no m ↦ absurd (
        ground (
          arith,
          test_bit-any x hx h,
          any_below-false (test_bit x) 8 (λ j l. is_lowest.lowest x j hx h (omega arith)),
        ))
  ]

  scan_byte_lem :
      (fuel i byte : ℕ) (is_set : Bool)
      → byte < fuel
      → byte < 256
      → scan_byte stack fuel i byte is_set
        ≡ some (
            if is_set
            then true
            else any_below (λ j. test_bit byte j && is_counted stack (i * 8 + j)) 8)
  unfolding scan_byte
  scan_byte_lem zero i byte is_set l b = absurd (omega arith)
  scan_byte_lem (suc fuel) i byte is_set l b = elim (Bool-cases (byte == 0)) [
    | inl done ↦ let none_left : byte ≡ 0 = ground arith in rw none_left (ground arith)
    | inr more ↦
        let bit : ℕ = stack.find_lsb_set byte - 1 in
        let at : test_bit byte bit ≡ true = is_lowest.finds byte b more in
        let low : bit < 8 = found-lt byte b more in
        let down : clear_bit byte bit < byte = clear_bit-lt byte bit b low at in
        rw more (
          scan_byte_lem fuel i (clear_bit byte bit)
            (if is_counted stack (i * 8 + bit) then true else is_set) (omega (arith, down))
            (omega (arith, down))
          ∙ ap some (
              regroup is_set (is_counted stack (i * 8 + bit)) _ _ (
                any_below-split (test_bit byte) (test_bit (clear_bit byte bit))
                  (λ j. is_counted stack (i * 8 + j)) 8 bit low at
                  (λ j m. clear_bit-test_bit byte bit j b low m))))
  ]
    where
      regroup :
          (s c rest all : Bool)
          → all ≡ (if c then true else rest)
          → (if (if c then true else s) then true else rest) ≡ (if s then true else all)
      regroup s c rest all h = ground arith

  in_byte :
      (bytes : List ℕ) (i j : ℕ)
      → j < 8
      → is_error stack bytes (i * 8 + j)
        ≡ (test_bit (get_or bytes i 0) j && is_counted stack (i * 8 + j))
  in_byte bytes i j l =
      let at : (i * 8 + j) / 8 ≡ i = omega arith in
      let off : (i * 8 + j) % 8 ≡ j = omega arith in rw (at, off) refl

  scan_from_lem :
      (i n : ℕ) (bytes : List ℕ) (is_set : Bool)
      → i + n ≤ length bytes
      → ((k : ℕ) → get_or bytes k 0 < 256)
      → scan_from stack i n bytes is_set
        ≡ some (if is_set then true else any_below (λ j. is_error stack bytes (i * 8 + j)) (n * 8))
  unfolding scan_from
  scan_from_lem i zero bytes is_set l b = ground arith
  scan_from_lem i (suc n) bytes is_set l b =
      rw
        (
          get_elem?-get_or bytes i 0 (omega (arith, l)),
          scan_byte_lem 256 i (get_or bytes i 0) is_set (b i) (b i),
        )
        (scan_from_lem (suc i) n bytes _ (omega (arith, l)) b
          ∙ ap some (
              regroup is_set _ _ (any_below_ext _ _ 8 (λ j m. in_byte bytes i j m))
                (any_below_ext _ _ (n * 8) (λ j m. ap (is_error stack bytes) (omega arith)))
                (ap (any_below (λ j. is_error stack bytes (i * 8 + j))) {y = 8 + n * 8}
                    (omega arith)
                  ∙ any_below-append (λ j. is_error stack bytes (i * 8 + j)) 8 (n * 8))))
    where
      regroup :
          (s a rest : Bool) {a' rest' all : Bool}
          → a' ≡ a
          → rest' ≡ rest
          → all ≡ (if a' then true else rest')
          → (if (if s then true else a) then true else rest) ≡ (if s then true else all)
      regroup s a rest h k e = ground arith

  -- With enough bytes of status bits, the search ends, and finds whether any status bit below the
  -- manufacturer's is set other than the two of the heartbeat consumer.
  pub scan_lem :
      (bytes : List ℕ)
      → stack.manufacturer_start / 8 ≤ length bytes
      → ((k : ℕ) → get_or bytes k 0 < 256)
      → scan stack bytes
        ≡ some (any_below (is_error stack bytes) (stack.manufacturer_start / 8 * 8))
  unfolding scan
  scan_lem bytes l b =
      scan_from_lem 0 (stack.manufacturer_start / 8) bytes false (omega (arith, l)) b
      ∙ ap some (
          any_below_ext _ _ (stack.manufacturer_start / 8 * 8)
            (λ j m. ap (is_error stack bytes) (omega arith)))
