-- ===== src/HallRpm/Filter.antt =====
-- drivers/sensor/hall-rpm/hall_rpm.c: what `hall_rpm_timer_cb` makes of the speed.
use native.Mathlib.Nat.{mul-add, mul-le-mul_right, div-eq_of_lt}
use nturt_zephyr_common.Base.{
  ℕ, ◌+◌, ◌-◌, ◌*◌, ◌/◌, ◌^◌, ◌<◌, ◌≤◌, ◌≡◌, refl, ap, sym, ◌∙◌, false, some, arith, ◌==◌,
}
use nturt_zephyr_common.Base.Int.{pos, i64, i32_pos, pos_mul, pos_sub, pos_add, pos_div}
use nturt_zephyr_common.HallRpm.{Config, Hall, u64, elapsed, raw, filtered, timer_cb}

-- The speed in thousandths of a turn in a minute, of so many pulses in so many cycles.
abbrev pub rate : Config → ℕ → ℕ → ℕ
rate c count cycles = count * 1000 * 60 * c.hz / cycles / c.num_tooth

i64_pos : (n : ℕ) → n < 2 ^ 63 → i64 (pos n) ≡ pos n
unfolding i64
i64_pos n h = ground (arith, h)

u64_pos : (n : ℕ) → n < 2 ^ 63 → u64 (pos n) ≡ n
unfolding u64
u64_pos n h = omega (arith, h)

raw-rate :
    (c : Config) (d : Hall) (now : ℕ)
    → d.count < 2 ^ 31
    → d.count * 1000 * 60 * c.hz < 2 ^ 63
    → raw c d now ≡ i64 (pos (rate c d.count (elapsed d now)))
unfolding raw
raw-rate c d now h l =
    rw
      (
        i32_pos d.count (omega (arith, h)),
        pos_mul d.count 1000,
        pos_mul (d.count * 1000) 60,
        pos_mul (d.count * 1000 * 60) c.hz,
        i64_pos (d.count * 1000 * 60 * c.hz) l,
        u64_pos (d.count * 1000 * 60 * c.hz) l,
      )
      refl

-- Both numbers of the filter times their shares, which make 1000
abbrev pub mixed : ℕ → ℕ → ℕ → ℕ
mixed a r l = r * a + l * (1000 - a)

shares : (a m : ℕ) → a ≤ 1000 → m * a + m * (1000 - a) ≡ m * 1000
shares a m h = sym (mul-add m a (1000 - a)) ∙ ap (λ k. m * k) (omega arith)

mixed-le : (a r l m : ℕ) → a ≤ 1000 → r ≤ m → l ≤ m → mixed a r l ≤ m * 1000
mixed-le a r l m h hr hl =
    omega (arith, mul-le-mul_right a hr, mul-le-mul_right (1000 - a) hl, shares a m h)

le-mixed : (a r l m : ℕ) → a ≤ 1000 → m ≤ r → m ≤ l → m * 1000 ≤ mixed a r l
le-mixed a r l m h hr hl =
    omega (arith, mul-le-mul_right a hr, mul-le-mul_right (1000 - a) hl, shares a m h)

filtered_lem :
    (d : Hall) (a r l : ℕ)
    → d.alpha ≡ pos a
    → d.last ≡ pos l
    → a ≤ 1000
    → r ≤ 2 ^ 52
    → l ≤ 2 ^ 52
    → filtered d (pos r) ≡ pos (mixed a r l / 1000)
unfolding filtered
filtered_lem d a r l alpha last h hr hl =
    let left : r * a ≤ 2 ^ 52 * 1000 = omega (arith, mul-le-mul_right a hr) in
    let right : l * (1000 - a) ≤ 2 ^ 52 * 1000 = omega (arith, mul-le-mul_right (1000 - a) hl) in
    rw
      (
        alpha,
        last,
        pos_sub 1000 a h,
        pos_mul r a,
        pos_mul l (1000 - a),
        i64_pos (r * a) (omega (arith, left)),
        i64_pos (l * (1000 - a)) (omega (arith, right)),
        pos_add (r * a) (l * (1000 - a)),
        i64_pos (mixed a r l) (omega (arith, left, right)),
        pos_div (mixed a r l) 1000,
      )
      refl

-- Where the counter has gone on and has not wrapped around.
elapsed_lem : (d : Hall) (now : ℕ) → d.cycle ≤ now → now < 2 ^ 32 → elapsed d now ≡ now - d.cycle
unfolding elapsed
elapsed_lem d now h l = omega (arith, h, l)

elapsed-wrapped :
    (d : Hall) (now : ℕ)
    → now < d.cycle
    → d.cycle < 2 ^ 32
    → elapsed d now ≡ 2 ^ 64 - (d.cycle - now)
unfolding elapsed
elapsed-wrapped d now h l = omega (arith, h, l)

-- What is asked of a call: fewer than 2^31 pulses, whose product fits 64 bits, and a smoothing factor and a
-- speed that are not negative, the factor at most 1000 and the speed at most 2^52.
pub record IsInRange (c : Config) (d : Hall) (a l : ℕ) : Type 0 where
  pub few : d.count < 2 ^ 31
  pub fits : d.count * 1000 * 60 * c.hz < 2 ^ 63
  pub has_tooth : 0 < c.num_tooth
  pub alpha : d.alpha ≡ pos a
  pub share : a ≤ 1000
  pub last : d.last ≡ pos l
  pub slow : l ≤ 2 ^ 52

timer_cb-rate :
    (c : Config) (d : Hall) (now a l : ℕ)
    → IsInRange c d a l
    → 0 < elapsed d now
    → rate c d.count (elapsed d now) ≤ 2 ^ 52
    → timer_cb c now d
      ≡ some (record d {
        cycle = now;
        count = 0;
        last = pos (mixed a (rate c d.count (elapsed d now)) l / 1000);
      })
unfolding timer_cb
timer_cb-rate c d now a l ok later slow =
    let r : ℕ = rate c d.count (elapsed d now) in
    let moved : (elapsed d now == 0) ≡ false = ground (arith, later) in
    let toothed : (c.num_tooth == 0) ≡ false = ground (arith, ok.has_tooth) in
    rw
      (
        moved,
        toothed,
        raw-rate c d now ok.few ok.fits,
        i64_pos r (omega (arith, slow)),
        filtered_lem d a r l ok.alpha ok.last ok.share slow ok.slow,
      )
      refl

-- With fewer than 2^31 pulses whose product fits 64 bits, a smoothing factor up to 1000 and a last speed
-- from 0 to 2^52, where the counter has gone on since the last call and has not wrapped around, and both
-- the measured speed, at most 2^52, and the last one lie between two numbers: the handler of the timer
-- takes the counter, starts to count anew, and its speed is the weighted mean of the two speeds, rounded
-- down, which lies between the numbers too.
pub timer_cb-between :
    (c : Config) (d : Hall) (now a l lo hi : ℕ)
    → IsInRange c d a l
    → d.cycle < now
    → now < 2 ^ 32
    → rate c d.count (now - d.cycle) ≤ 2 ^ 52
    → lo ≤ rate c d.count (now - d.cycle)
    → lo ≤ l
    → rate c d.count (now - d.cycle) ≤ hi
    → l ≤ hi
    → let speed = mixed a (rate c d.count (now - d.cycle)) l / 1000 in
      (timer_cb c now d ≡ some (record d { cycle = now; count = 0; last = pos speed }))
      × (lo ≤ speed)
      × (speed ≤ hi)
timer_cb-between c d now a l lo hi ok later h slow lo_r lo_l r_hi l_hi =
    let r : ℕ = rate c d.count (now - d.cycle) in
    let e : elapsed d now ≡ now - d.cycle = elapsed_lem d now (omega (arith, later)) h in
    (
      rw e at (timer_cb-rate c d now a l ok (omega (arith, e, later)) (rw e slow)),
      omega (arith, le-mixed a r l lo ok.share lo_r lo_l),
      omega (arith, mixed-le a r l hi ok.share r_hi l_hi),
    )

-- With fewer than 2^31 pulses whose product fits 64 bits, a smoothing factor up to 1000 and a last speed
-- from 0 to 2^52, where the counter has wrapped around since the last call, the pulses that were counted
-- are lost: the measured speed is 0, and the speed goes down to the share that the last one has.
pub timer_cb-wrapped :
    (c : Config) (d : Hall) (now a l : ℕ)
    → IsInRange c d a l
    → now < d.cycle
    → d.cycle < 2 ^ 32
    → timer_cb c now d
      ≡ some (record d { cycle = now; count = 0; last = pos (l * (1000 - a) / 1000) })
timer_cb-wrapped c d now a l ok wrapped h =
    let e : elapsed d now ≡ 2 ^ 64 - (d.cycle - now) = elapsed-wrapped d now wrapped h in
    let none_left : d.count * 1000 * 60 * c.hz / elapsed d now ≡ 0 =
      div-eq_of_lt (omega (arith, e, h, ok.fits)) in
    let stands : rate c d.count (elapsed d now) ≡ 0 =
      ap (λ q. q / c.num_tooth) none_left ∙ div-eq_of_lt ok.has_tooth in
    timer_cb-rate c d now a l ok (omega (arith, e, h)) (omega (arith, stands))
    ∙ ap (λ r. some (record d { cycle = now; count = 0; last = pos (mixed a r l / 1000) })) stands
    ∙ ap (λ n. some (record d { cycle = now; count = 0; last = pos (n / 1000) }))
        {y = l * (1000 - a)} (omega arith)
