-- ===== src/SensorAxis/Calibrate/Range.antt =====
-- drivers/input/sensor-axis/sensor_axis.c: what calibration makes of a sensor's range, and of the
-- samples.
use nturt_zephyr_common.Base.{
  ℕ, zero, suc, ◌+◌, ◌*◌, ◌/◌, ◌^◌, ◌<◌, ◌≡◌, ap, ap₂, ◌∙◌, true, false, arith,
}
use nturt_zephyr_common.Base.Int.{
  ℤ, pos, negsuc, ◌+ℤ◌, ◌-ℤ◌, ◌/ℤ◌, ◌≤ℤ◌, i64, i64_small, is_neg, int_laws, pos_add,
}
use nturt_zephyr_common.SensorAxis.Sensor.{Zephyr, Sensor, Answer, sensor_get_raw}
use nturt_zephyr_common.SensorAxis.Calibrate.{
  done, error, map_try, sample, get_curr, set_around, center_on, range_about, range_on,
}

-- At most a hundred million either way, in millionths.
abbrev pub IsSmall : ℤ → Type 0
IsSmall a = (negsuc 99999999999999 ≤ℤ a) × (a ≤ℤ pos 100000000000000)

sub_small : (a b : ℤ) → IsSmall a → IsSmall b → i64 (a -ℤ b) ≡ a -ℤ b
sub_small a b ha hb = i64_small (a -ℤ b) (omega int_laws) (omega int_laws)

add_small : (a b : ℤ) → IsSmall a → IsSmall b → i64 (a +ℤ b) ≡ a +ℤ b
add_small a b ha hb = i64_small (a +ℤ b) (omega int_laws) (omega int_laws)

halves : (a : ℤ) → (a +ℤ a) /ℤ pos 2 ≡ a
unfolding ◌+ℤ◌ ◌/ℤ◌
halves a = ground arith

half-IsSmall :
    (a : ℤ) → negsuc 199999999999999 ≤ℤ a → a ≤ℤ pos 200000000000000 → IsSmall (a /ℤ pos 2)
unfolding ◌/ℤ◌
half-IsSmall (pos n) lo hi = ground arith
half-IsSmall (negsuc n) lo hi = ground arith

-- Twice as much, which sums and differences stay within.
abbrev IsDouble : ℤ → Type 0
IsDouble a = (negsuc 399999999999999 ≤ℤ a) × (a ≤ℤ pos 400000000000000)

set_around_lem :
    (z : Zephyr) (s : Sensor) (center range : ℤ)
    → IsSmall center
    → IsDouble range
    → (z.to_micro (set_around z s center range).in_min ≡ center -ℤ range)
      × (z.to_micro (set_around z s center range).in_max ≡ center +ℤ range)
unfolding set_around
set_around_lem z s center range h k =
    let low : i64 (center -ℤ range) ≡ center -ℤ range =
      i64_small (center -ℤ range) (omega int_laws) (omega int_laws) in
    let high : i64 (center +ℤ range) ≡ center +ℤ range =
      i64_small (center +ℤ range) (omega int_laws) (omega int_laws) in
    (
      ap (λ w. z.to_micro (z.from_micro w)) low
          ∙ z.to_micro-from_micro (center -ℤ range) (omega int_laws) (omega int_laws),
      ap (λ w. z.to_micro (z.from_micro w)) high
          ∙ z.to_micro-from_micro (center +ℤ range) (omega int_laws) (omega int_laws),
    )

-- Half the width of the range, rounded towards zero.
abbrev pub half_width : Zephyr → Sensor → ℤ
half_width z s = (z.to_micro s.in_max -ℤ z.to_micro s.in_min) /ℤ pos 2

-- A sensor whose range is within a hundred million.
abbrev pub IsBounded : Zephyr → Sensor → Type 0
IsBounded z s = IsSmall (z.to_micro s.in_min) × IsSmall (z.to_micro s.in_max)

-- Centring a sensor on a reading keeps the width of its range and moves its ends to either side.
pub center_on_lem :
    (z : Zephyr) (s : Sensor) (curr : ℤ)
    → IsBounded z s
    → IsSmall curr
    → (z.to_micro (center_on z s curr).in_min ≡ curr -ℤ half_width z s)
      × (z.to_micro (center_on z s curr).in_max ≡ curr +ℤ half_width z s)
unfolding center_on
center_on_lem z s curr b h =
    rw (sub_small (z.to_micro s.in_max) (z.to_micro s.in_min) b.1 b.0)
      (set_around_lem z s curr (half_width z s) h (omega (int_laws, small)))
  where
    small : IsSmall (half_width z s)
    small =
        half-IsSmall (z.to_micro s.in_max -ℤ z.to_micro s.in_min) (omega int_laws) (omega int_laws)

about_min :
    (z : Zephyr) (s : Sensor) (curr center : ℤ)
    → IsSmall curr
    → IsSmall center
    → (z.to_micro (range_about z s true curr center).in_min ≡ curr)
      × (z.to_micro (range_about z s true curr center).in_max ≡ center +ℤ (center -ℤ curr))
unfolding range_about
about_min z s curr center h k =
    let (low, high) = set_around_lem z s center (center -ℤ curr) k (omega int_laws) in
    rw (sub_small center curr k h) (low ∙ omega int_laws, high)

about_max :
    (z : Zephyr) (s : Sensor) (curr center : ℤ)
    → IsSmall curr
    → IsSmall center
    → (z.to_micro (range_about z s false curr center).in_min ≡ center -ℤ (curr -ℤ center))
      × (z.to_micro (range_about z s false curr center).in_max ≡ curr)
unfolding range_about
about_max z s curr center h k =
    let (low, high) = set_around_lem z s center (curr -ℤ center) k (omega int_laws) in
    rw (sub_small curr center h k) (low, high ∙ omega int_laws)

-- The center of a range that `center_on` has set.
center_again :
    (z : Zephyr) (s : Sensor) (center : ℤ)
    → IsBounded z s
    → IsSmall center
    → i64 (z.to_micro (center_on z s center).in_min +ℤ z.to_micro (center_on z s center).in_max)
        /ℤ pos 2
      ≡ center
center_again z s center b h =
    let (low, high) = center_on_lem z s center b h in
    ap₂ (λ p q. i64 (p +ℤ q) /ℤ pos 2) low high
    ∙ ap (λ p. i64 p /ℤ pos 2) both
    ∙ ap (λ p. p /ℤ pos 2) (add_small center center h h)
    ∙ halves center
  where
    both : center -ℤ half_width z s +ℤ (center +ℤ half_width z s) ≡ center +ℤ center
    both = omega int_laws

-- Calibration as it is documented: after the center is set on one reading, a second reading as the
-- minimum (or maximum) becomes that end of the range, and the other end lies as far on the other
-- side of the center.
pub range_on-center_on :
    (z : Zephyr) (s : Sensor) (center curr : ℤ)
    → IsBounded z s
    → IsSmall center
    → IsSmall curr
    → let low = range_on z (center_on z s center) true curr in
      let high = range_on z (center_on z s center) false curr in
      (z.to_micro low.in_min ≡ curr)
      × (z.to_micro low.in_max ≡ center +ℤ (center -ℤ curr))
      × (z.to_micro high.in_min ≡ center -ℤ (curr -ℤ center))
      × (z.to_micro high.in_max ≡ curr)
unfolding range_on
range_on-center_on z s center curr b h k = rw (center_again z s center b h) (
  (about_min z (center_on z s center) curr center k h).0,
  (about_min z (center_on z s center) curr center k h).1,
  (about_max z (center_on z s center) curr center k h).0,
  (about_max z (center_on z s center) curr center k h).1,
)

sample-steady :
    (z : Zephyr) (answers : ℕ → Answer) (v n k a : ℕ)
    → ((j : ℕ) → is_neg (sensor_get_raw (answers j)) ≡ false)
    → ((j : ℕ) → z.to_micro (answers j).value ≡ pos v)
    → a + n * v < 2 ^ 62
    → sample z answers n k (pos a) ≡ done (pos (a + n * v))
unfolding sample
sample-steady z answers v zero k a ok same small = ap (λ b. done (pos b)) (omega arith)
sample-steady z answers v (suc n) k a ok same small =
    rw (ok k, same k, pos_add, i64_small (pos (a + v)) (omega arith) (omega arith))
      (sample-steady z answers v n (k + 1) (a + v) ok same (omega arith)
        ∙ ap (λ b. done (pos b)) (omega arith))

-- A steady reading calibrates to itself: the mean of `times` samples of `v` is `v`.
pub get_curr-steady :
    (z : Zephyr) (answers : ℕ → Answer) (v times : ℕ)
    → ((j : ℕ) → is_neg (sensor_get_raw (answers j)) ≡ false)
    → ((j : ℕ) → z.to_micro (answers j).value ≡ pos v)
    → 0 < times
    → times * v < 2 ^ 62
    → get_curr z answers times ≡ done (pos v)
unfolding get_curr
get_curr-steady z answers v times ok same some_times small =
    ap (map_try (λ accum. z.div_round_closest accum (pos times)))
      (sample-steady z answers v times 0 0 ok same (omega arith))
    ∙ ap done (
        z.div_round_closest_pos (0 + times * v) times some_times ∙ ap pos (mean times v some_times))
  where
    mean : (t w : ℕ) → 0 < t → (0 + t * w + t / 2) / t ≡ w
    mean t w h = grind arith

sample-error :
    (z : Zephyr) (answers : ℕ → Answer) (n m k : ℕ) (a : ℤ)
    → ((j : ℕ) → j < m → is_neg (sensor_get_raw (answers (k + j))) ≡ false)
    → is_neg (sensor_get_raw (answers (k + m))) ≡ true
    → m < n
    → sample z answers n k a ≡ error (sensor_get_raw (answers (k + m)))
unfolding sample
sample-error z answers zero m k a ok bad lt = absurd (omega arith)
sample-error z answers (suc n) zero k a ok bad lt =
    let here : k + 0 ≡ k = omega arith in rw here (rw (rw here at bad))
sample-error z answers (suc n) (suc m) k a ok bad lt =
    let here : k + 0 ≡ k = omega arith in
    let next : k + 1 + m ≡ k + suc m = omega arith in
    rw (rw here at (ok 0 (omega arith))) (
      rw (← next) (
        sample-error z answers n m (k + 1) _
          (λ j l. let e : k + 1 + j ≡ k + suc j = omega arith in rw e (ok (suc j) (omega arith)))
          (rw next bad) (omega arith)))

-- The first sample that fails ends the calibration with its error number.
pub get_curr-error :
    (z : Zephyr) (answers : ℕ → Answer) (times m : ℕ)
    → ((j : ℕ) → j < m → is_neg (sensor_get_raw (answers j)) ≡ false)
    → is_neg (sensor_get_raw (answers m)) ≡ true
    → m < times
    → get_curr z answers times ≡ error (sensor_get_raw (answers m))
unfolding get_curr
get_curr-error z answers times m ok bad lt =
    let e : 0 + m ≡ m = omega arith in
    ap (map_try (λ accum. z.div_round_closest accum (pos times))) (
      sample-error z answers times m 0 (pos 0)
        (λ j l. let f : 0 + j ≡ j = omega arith in rw f (ok j l)) (rw e bad) lt)
    ∙ ap (λ q. error (sensor_get_raw (answers q))) e
