-- ===== src/Canopen/Tests.antt =====
-- Runs of the CANopen modules with an association list as the map, and instances of the theorems.
use nturt_zephyr_common.Base.{
  ℕ, zero, suc, ◌+◌, ◌-◌, ◌/◌, ◌%◌, ◌≤◌, ◌<◌, ◌⊎◌, inl, inr, ◌≡◌, refl, ap, sym, Bool, true, false,
  not, ◌||◌, some, List, [], ◌∷◌, ◌++◌, map, arith, get_elem?, get_or, ◌==◌, if◌then◌else◌, ◌>>=◌,
  All, test_bit, ltb,
}
use mathlib.Core.Option.{some-injective}
use nturt_zephyr_common.Base.Bytes.{all_below, all_below_lem}
use nturt_zephyr_common.Base.HashMap.Assoc.{assoc, find, put, put_added}
use nturt_zephyr_common.Err.Events.{Err}
use nturt_zephyr_common.Err.{
  has_one_severity, Ctx, ready, entered, register, init_from, init, err_get, err_is_set,
}
use nturt_zephyr_common.Err.Init.{IsSection, init-IsConsistent}
use nturt_zephyr_common.Canopen.{node_id_to_err_code}
use nturt_zephyr_common.Canopen.Heartbeat.{Node, Consumer, changes}
use nturt_zephyr_common.Canopen.Heartbeat as Heartbeat
use nturt_zephyr_common.Canopen.Heartbeat.Status.{
  IsReady, AllKnown, is_known, changes-err_is_set, told, monitored,
}
use nturt_zephyr_common.Canopen.Emcy.{Stack, Frame, Emcy, received, worked, steps, CoError, err_cb}
use nturt_zephyr_common.Canopen.Emcy as Emcy
use nturt_zephyr_common.Canopen.Emcy.Scan.{IsLowest}
use nturt_zephyr_common.Canopen.Emcy.Work.{Reports, steps-Reports}
use nturt_zephyr_common.Canopen.Emcy.StatusBits.{err_cb-init}

abbrev fault : ℕ → Err
fault k = record { errcode = k; flags = 4; name = "e"; desc = "E" }

-- The error of the bus, and those of the heartbeats.
abbrev section : List Err
section = map fault (19 ∷ 20 ∷ 21 ∷ 22 ∷ 23 ∷ 24 ∷ 25 ∷ 26 ∷ 27 ∷ 28 ∷ 29 ∷ [])

abbrev started : Ctx assoc
started = record {
  cb_dispatched = false;
  errors = [];
  section = section;
  callbacks = [];
  err_map =
      (29, 10)
      ∷ (28, 9)
      ∷ (27, 8)
      ∷ (26, 7)
      ∷ (25, 6)
      ∷ (24, 5)
      ∷ (23, 4)
      ∷ (22, 3)
      ∷ (21, 2)
      ∷ (20, 1)
      ∷ (19, 0)
      ∷ [];
}

init_run : init assoc section [] ≡ ready started
unfolding init init_from register entered put
init_run = refl

-- CO_NMT_OPERATIONAL is 5.
abbrev consumer : Consumer assoc 5
consumer = record { errs = started; events = []; has_callback = false }

consumer-IsReady : IsReady assoc 5 consumer
unfolding err_get find
consumer-IsReady = record {
  consistent = (init-IsConsistent assoc section [] init_run).0;
  all_enabled = (refl, (refl, (refl, (refl, (refl, (refl, (refl, (refl, (refl, (refl, tt))))))))));
}

-- The VCU and the inverter FL are monitored, an entry is empty; the VCU becomes operational, the GPS and
-- then the VCU again are lost.
abbrev nodes : List Node
nodes =
    record { node_id = 1; time_us = 1000 }
    ∷ record { node_id = 0; time_us = 0 }
    ∷ record { node_id = 17; time_us = 500 }
    ∷ []

abbrev seen : List (ℕ × ℕ)
seen = (1, 5) ∷ (9, 4) ∷ (1, 4) ∷ (1, 5) ∷ []

monitored_once : monitored nodes 17 ≡ true
unfolding Heartbeat.is_skipped
monitored_once = refl

told_last : told 5 seen 1 (some true) ≡ some false
told_last = refl

nodes-AllKnown : AllKnown assoc 5 nodes
unfolding node_id_to_err_code Heartbeat.is_skipped
nodes-AllKnown = (λ e. refl, (λ e. absurd (cc), (λ e. refl, tt)))

seen-IsKnown : All (λ p. is_known p.0 ≡ true) seen
unfolding node_id_to_err_code
seen-IsKnown = (refl, (refl, (refl, (refl, tt))))

changes-err_is_set_example :
    (c' : Consumer assoc 5) × ((Heartbeat.init assoc 5 consumer nodes >>= λ d.
    changes assoc 5 d seen)
      ≡ some c')
    × ((j code : ℕ)
        → node_id_to_err_code j ≡ some code
        → err_is_set assoc c'.errs code
          ≡ told 5 seen j (if monitored nodes j then some true else err_is_set assoc started code))
changes-err_is_set_example =
    changes-err_is_set assoc 5 consumer nodes seen consumer-IsReady nodes-AllKnown seen-IsKnown

-- The lowest bit, in at most eight rounds.
ffs_from : ℕ → ℕ → ℕ → ℕ
ffs_from zero i x = 0
ffs_from (suc n) i x = let rest = ffs_from n (suc i) (x / 2) in if x % 2 == 1 then i else rest

ffs : ℕ → ℕ
unfolding ffs_from
ffs x = ffs_from 8 1 x

-- The constants of CANopenNode.
abbrev co : Stack
co = record {
  no_error = 0;
  can_bus_warning = 1;
  heartbeat_consumer = 27;
  hb_consumer_remote_reset = 28;
  manufacturer_start = 48;
  manufacturer_end = 79;
  find_lsb_set = ffs;
}

finds_at : ℕ → Bool
unfolding ffs
finds_at x = x == 0 || test_bit x (ffs x - 1)

lowest_at : ℕ → ℕ → Bool
unfolding ffs
lowest_at x j = x == 0 || not (ltb j (ffs x - 1)) || not (test_bit x j)

finds_table : all_below finds_at 256 ≡ true
unfolding finds_at
finds_table = refl

lowest_table : all_below (λ x. all_below (lowest_at x) 8) 256 ≡ true
unfolding lowest_at
lowest_table = refl

small_table : all_below (λ x. ltb (ffs x) 9) 256 ≡ true
unfolding ffs
small_table = refl

ffs-IsLowest : IsLowest ffs
unfolding finds_at lowest_at
ffs-IsLowest = record {
  finds = λ x l h. ground (arith, all_below_lem finds_at 256 x finds_table l, h);
  lowest = λ x j l h m.
      let small : ltb (ffs x) 9 ≡ true = all_below_lem (λ x. ltb (ffs x) 9) 256 x small_table l in
      let t : lowest_at x j ≡ true =
        all_below_lem (lowest_at x) 8 j
          (all_below_lem (λ x. all_below (lowest_at x) 8) 256 x lowest_table l)
          (ground (arith, small, m)) in
      ground (arith, t, h, m);
}

abbrev bytes : List ℕ
bytes = 0 ∷ 0 ∷ 4 ∷ 24 ∷ 0 ∷ 0 ∷ 255 ∷ []

bytes_small : (k : ℕ) → get_or bytes k 0 < 256
bytes_small zero = omega arith
bytes_small (suc zero) = omega arith
bytes_small (suc (suc zero)) = omega arith
bytes_small (suc (suc (suc zero))) = omega arith
bytes_small (suc (suc (suc (suc zero)))) = omega arith
bytes_small (suc (suc (suc (suc (suc zero))))) = omega arith
bytes_small (suc (suc (suc (suc (suc (suc zero)))))) = omega arith
bytes_small (suc (suc (suc (suc (suc (suc (suc k))))))) = omega arith

abbrev frame : ℕ → Frame
frame bit = record { ident = 0; error_code = 1; error_register = 1; error_bit = bit; info_code = 0 }

abbrev idle : Emcy
idle = record { ctx = frame 0; is_pending = false }

steps-Reports_example :
    (errs' : Ctx assoc) × (steps co assoc
        (idle, started)
        (received (frame 18) ∷ (map received (frame 27 ∷ []) ++ worked bytes ∷ []))
      ≡ some (record { ctx = frame 18; is_pending = false }, errs'))
    × Reports co assoc (frame 18) bytes started errs'
unfolding err_get find
steps-Reports_example =
    steps-Reports co assoc idle started (frame 18) (frame 27 ∷ []) bytes ffs-IsLowest (omega arith)
      bytes_small refl consumer-IsReady.consistent refl

-- Only the two bits of the heartbeat consumer, and one of the manufacturer.
heartbeat_only : Emcy.scan co (0 ∷ 0 ∷ 0 ∷ 24 ∷ 0 ∷ 0 ∷ 1 ∷ []) ≡ some false
unfolding Emcy.scan Emcy.scan_from Emcy.scan_byte ffs
heartbeat_only = refl

abbrev two : List Err
two = fault 19 ∷ fault 20 ∷ []

two-IsSection : IsSection two
two-IsSection = record {
  one_severity = one_severity;
  distinct = λ p q e f hp hq h. ground (arith, code_at p hp, code_at q hq);
}
  where
    one_severity : (p : ℕ) (e : Err) → get_elem? two p ≡ some e → has_one_severity e ≡ true
    one_severity zero e h = ap has_one_severity (sym (some-injective _ _ h))
    one_severity (suc zero) e h = ap has_one_severity (sym (some-injective _ _ h))
    one_severity (suc (suc p)) e h = absurd (cc)

    code_at :
        (p : ℕ) {e : Err}
        → get_elem? two p ≡ some e
        → ((p ≡ 0) × (e.errcode ≡ 19)) ⊎ ((p ≡ 1) × (e.errcode ≡ 20))
    code_at zero h = inl (refl, ground (arith, h))
    code_at (suc zero) h = inr (refl, ground (arith, h))
    code_at (suc (suc p)) h = absurd (cc)

err_cb-init_example :
    (m : List (ℕ × ℕ)) × (Emcy.init co assoc two ≡ some m)
    × ((i : ℕ) (e : Err) (on : Bool)
        → get_elem? two i ≡ some e
        → (err_cb co assoc m e.errcode on
            ≡ some (record { on = on; status_bit = 48 + i; info = e.errcode }))
          × (48 + i ≤ 79))
err_cb-init_example = err_cb-init co assoc put_added two two-IsSection (omega arith)
