-- ===== src/SensorAxis/Device/Bounded.antt =====
-- drivers/input/sensor-axis/sensor_axis.c: what the thread reports lies on the axes.
use nturt_zephyr_common.Base.{
  ℕ, ◌≤◌, ◌≡◌, refl, ap, ◌∙◌, Bool, true, false, ◌&&◌, ◌||◌, List, [], ◌∷◌, arith, ◌==◌,
}
use nturt_zephyr_common.Base.Int.{ℤ, pos, ◌+ℤ◌, leb_ℤ}
use nturt_zephyr_common.Input.{Input}
use nturt_zephyr_common.SensorAxis.Sensor.{Zephyr}
use nturt_zephyr_common.SensorAxis.Channel.{
  ChannelConfig, Entry, Round, take_result, read_if, read_sensor, read_sensors, start,
}
use nturt_zephyr_common.SensorAxis.Channel.Reads.{Weighed}
use nturt_zephyr_common.SensorAxis.Channel.Scale.{IsSized}
use nturt_zephyr_common.SensorAxis.Device.{Line, State, Answers, in_round, update, poll, thread}
use nturt_zephyr_common.SensorAxis.Device.Calls.{all_ok, Admits, channel_update-ok}

in_round-Weighed :
    (a : Answers) (es : List Entry) (total : ℕ) → Weighed es total → Weighed (in_round a es) total
unfolding in_round
in_round-Weighed a [] total h = h
in_round-Weighed a (e ∷ es) total (w, rest, weight, sum, ws) =
    (w, rest, weight, sum, in_round-Weighed a es rest ws)

read_if-weight :
    (b : Bool) (z : Zephyr) (d : ℕ) (config : ChannelConfig) (e : Entry) (r : Round)
    → (read_if b z d config e r).0.weight ≡ e.weight
unfolding read_if take_result
read_if-weight true z d config e r = refl
read_if-weight false z d config e r = refl

read_sensors-Weighed :
    (z : Zephyr) (d : ℕ) (config : ChannelConfig) (es : List Entry) (r : Round) (total : ℕ)
    → Weighed es total
    → Weighed (read_sensors z d config es r).0 total
unfolding read_sensors read_sensor
read_sensors-Weighed z d config [] r total h = h
read_sensors-Weighed z d config (e ∷ es) r total (w, rest, weight, sum, ws) = (
  w,
  rest,
  read_if-weight e.ready z d config e r ∙ weight,
  sum,
  read_sensors-Weighed z d config es (read_if e.ready z d config e r).1 rest ws,
)

module _ (ok : ℕ → ℕ → ℤ → Bool) where
  -- The lines of the device with their states: configurations whose products fit in 32 bits, weights
  -- that add up to the total, and outputs that `ok` admits.
  abbrev AllFit : List Line → List State → Type 0
  AllFit [] ss = Unit
  AllFit (l ∷ ls) [] = Unit
  AllFit (l ∷ ls) (s ∷ ss) =
      ((total : ℕ) × (span : ℕ) × IsSized l.config total span
        × Admits ok l.device l.axis l.config span
        × Weighed s.sensors total)
      × AllFit ls ss

  poll-ok :
      (z : Zephyr) (a : Answers) (ls : List Line) (ss : List State) (i : Input)
      → AllFit ls ss
      → all_ok ok i.calls ≡ true
      → AllFit ls (poll z a ls ss i).0 × (all_ok ok (poll z a ls ss i).1.calls ≡ true)
  unfolding poll update
  poll-ok z a [] ss i fit h = (tt, h)
  poll-ok z a (l ∷ ls) [] i fit h = (tt, h)
  poll-ok z a (l ∷ ls) (s ∷ ss) i ((total, span, c, admits, ws), fit) h =
      let es : List Entry = in_round a s.sensors in
      let ws' : Weighed es total = in_round-Weighed a s.sensors total ws in
      let (fit', h') = poll-ok z a ls ss (update z a l s i).1 fit (
        channel_update-ok ok z l.device l.axis l.config total span c admits es s.channel i ws' h) in
      (
        (
          (
            total,
            span,
            c,
            admits,
            read_sensors-Weighed z l.device l.config es (start s.channel i) total ws',
          ),
          fit',
        ),
        h',
      )

  thread-ok :
      (z : Zephyr) (ls : List Line) (rounds : List Answers) (ss : List State) (i : Input)
      → AllFit ls ss
      → all_ok ok i.calls ≡ true
      → all_ok ok (thread z ls rounds ss i).1.calls ≡ true
  unfolding thread
  thread-ok z ls [] ss i fit h = h
  thread-ok z ls (a ∷ later) ss i fit h =
      let (fit', h') = poll-ok z a ls ss i fit h in
      thread-ok z ls later (poll z a ls ss i).0 (poll z a ls ss i).1 fit' h'

-- A value of an axis of the device, between the ends of the axis.
abbrev pub on_axis : List Line → ℕ → ℕ → ℤ → Bool
on_axis [] d axis v = false
on_axis (l ∷ ls) d axis v =
    (l.device == d && l.axis == axis && leb_ℤ l.config.out_min v && leb_ℤ v l.config.out_max)
    || on_axis ls d axis v

-- Configurations whose products fit in 32 bits, with weights that are not negative and add up to the total.
abbrev pub AllSized : List Line → List State → Type 0
AllSized [] ss = Unit
AllSized (l ∷ ls) [] = Unit
AllSized (l ∷ ls) (s ∷ ss) =
    ((total : ℕ) × (span : ℕ) × IsSized l.config total span × Weighed s.sensors total)
    × AllSized ls ss

between :
    (low : ℤ) (q span : ℕ)
    → q ≤ span
    → (leb_ℤ low (low +ℤ pos q) ≡ true) × (leb_ℤ (low +ℤ pos q) (low +ℤ pos span) ≡ true)
unfolding ◌+ℤ◌
between low q span h = ground (arith, h)

all-AllFit :
    (all ls : List Line) (ss : List State)
    → ((d axis : ℕ) (v : ℤ) → on_axis ls d axis v ≡ true → on_axis all d axis v ≡ true)
    → AllSized ls ss
    → AllFit (on_axis all) ls ss
all-AllFit all [] ss sub sized = tt
all-AllFit all (l ∷ ls) [] sub sized = tt
all-AllFit all (l ∷ ls) (s ∷ ss) sub ((total, span, c, ws), sized) = (
  (total, span, c, λ q le. sub l.device l.axis (l.config.out_min +ℤ pos q) (here q le), ws),
  all-AllFit all ls ss (λ d axis v h. sub d axis v (later d axis v h)) sized,
)
  where
    here : (q : ℕ) → q ≤ span → on_axis (l ∷ ls) l.device l.axis (l.config.out_min +ℤ pos q) ≡ true
    here q le =
        let (low, high) = between l.config.out_min q span le in
        rw c.out_max_is (ground (arith, low, high))

    later : (d axis : ℕ) (v : ℤ) → on_axis ls d axis v ≡ true → on_axis (l ∷ ls) d axis v ≡ true
    later d axis v h = ground (arith, h)

-- However the sensors answer in however many rounds, and whatever `input_report` returns, each value that
-- the thread reports on an axis is of an axis of the device and between the ends of that axis: for
-- configurations whose products fit in 32 bits, with weights that are not negative and add up to the total.
pub thread-on_axis :
    (z : Zephyr) (ls : List Line) (rounds : List Answers) (ss : List State) (i : Input)
    → AllSized ls ss
    → i.calls ≡ []
    → all_ok (on_axis ls) (thread z ls rounds ss i).1.calls ≡ true
thread-on_axis z ls rounds ss i sized none_yet =
    thread-ok (on_axis ls) z ls rounds ss i (all-AllFit ls ls ss (λ d axis v h. h) sized)
      (ap (all_ok (on_axis ls)) none_yet)
