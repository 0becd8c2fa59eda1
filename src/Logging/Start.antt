-- ===== src/Logging/Start.antt =====
-- subsys/msg/logging.c: how `msg_chan_logging_start` ends.
use nturt_zephyr_common.Base.{
  ℕ, ◌≡◌, refl, ap, ◌∙◌, inl, inr, Bool-cases, true, false, not, some, List, ◌∷◌, arith, ◌==◌,
  if◌then◌else◌,
}
use nturt_zephyr_common.Base.Int.{ℤ, is_neg, eqb_ℤ}
use nturt_zephyr_common.Logging.Packets.{OverwritingBuffer}
use nturt_zephyr_common.Logging.{
  Packet, World, Channel, Outside, Logger, k_mutex_lock, k_mutex_unlock, call, out, observe, create,
  start_locked, locked, msg_chan_logging_start, dirname, enoent, ealready, mkdir_p, open_create,
  open_append, write, set_chan, opened,
}
use nturt_zephyr_common.Logging.Steps.{is_open}

module _ (P : OverwritingBuffer Packet) (w : World) where
  -- The lock is free, the channel is logged and observed if the call succeeds, and its file is open just
  -- then. The packets and the other channels are as they were.
  abbrev pub IsStarted : Logger P w → ℕ → ℤ × Logger P w → Type 0
  IsStarted l chan (ret, l') =
      ((l'.chans chan).lock.lock_count ≡ 0)
      × ((l'.chans chan).is_logging ≡ not (is_neg ret))
      × ((l'.chans chan).is_observed ≡ not (is_neg ret))
      × (is_open l'.calls chan ≡ not (is_neg ret))
      × (l'.mpsc_pbuf ≡ l.mpsc_pbuf)
      × ((k : ℕ) → (k == chan) ≡ false → l'.chans k ≡ l.chans k)

  -- A channel that is not logged, whose file is closed and whose lock is held once.
  record IsStarting (c : Channel) (thread : ℕ) : Type 0 where
    lock : c.lock ≡ record { owner = thread; lock_count = 1 }
    not_logging : c.is_logging ≡ false
    not_observed : c.is_observed ≡ false

  observe_lem :
      (l : Logger P w) (thread chan : ℕ)
      → IsStarting (l.chans chan) thread
      → is_open l.calls chan ≡ true
      → IsStarted l chan (observe P w thread chan l)
  unfolding observe call out k_mutex_unlock
  observe_lem l thread chan s o = (
    ground (arith, s.lock),
    ground arith,
    ground (arith),
    ground (arith, o),
    ground arith,
    λ k n. ground (arith, n),
  )

  -- An early return.
  out_lem :
      (l : Logger P w) (thread chan : ℕ) (ret : ℤ)
      → IsStarting (l.chans chan) thread
      → is_neg ret ≡ true
      → is_open l.calls chan ≡ false
      → IsStarted l chan (out P w thread chan ret l)
  unfolding out k_mutex_unlock
  out_lem l thread chan ret s n o = (
    ground (arith, s.lock),
    ground (arith, n, s.not_logging),
    ground (arith, n, s.not_observed),
    ground (arith, n, o),
    refl,
    λ k e. ground (arith, e),
  )

  create_lem :
      (l : Logger P w) (thread chan : ℕ) (file dir : List ℕ)
      → IsStarting (l.chans chan) thread
      → is_open l.calls chan ≡ false
      → IsStarted l chan (create P w thread chan file dir l)
  unfolding create call
  create_lem l thread chan file dir s o =
      let made : ℤ = w.returns l.calls (mkdir_p dir) in
      let cs : List (Outside × ℤ) = (mkdir_p dir, made) ∷ l.calls in
      let opened : ℤ = w.returns cs (open_create chan file) in
      let cs' : List (Outside × ℤ) = (open_create chan file, opened) ∷ cs in
      let put : ℤ = w.returns cs' (write chan (w.csv_header chan)) in
      elim (Bool-cases (is_neg made)) [
        | inl failed ↦ rw failed (out_lem (record l { calls = cs }) thread chan made s failed o)
        | inr fine ↦ rw fine (elim (Bool-cases (is_neg opened)) [
          | inl failed ↦ rw failed (
              out_lem (record l { calls = cs' }) thread chan opened s failed
                (ground (arith, failed, o)))
          | inr fine' ↦ rw fine' (
              observe_lem (record l { calls = (write chan (w.csv_header chan), put) ∷ cs' }) thread
                chan s (ground (arith, fine')))
        ])
      ]

  opened_lem :
      (l : Logger P w) (thread chan : ℕ) (file dir : List ℕ)
      → IsStarting (l.chans chan) thread
      → is_open l.calls chan ≡ false
      → dirname file ≡ some dir
      → (r : ℤ × Logger P w) × (opened P w thread chan file (call P w (open_append chan file) l)
          ≡ some r)
        × IsStarted l chan r
  unfolding opened call
  opened_lem l thread chan file dir s o has_dir =
      let opened : ℤ = w.returns l.calls (open_append chan file) in
      let cs : List (Outside × ℤ) = (open_append chan file, opened) ∷ l.calls in
      let l' : Logger P w = record l { calls = cs } in
      elim (Bool-cases (eqb_ℤ opened enoent)) [
        | inl absent ↦
            let shut : is_open cs chan ≡ false = ground (arith, absent, o) in
            (
              create P w thread chan file dir l',
              rw (absent, has_dir) refl,
              create_lem l' thread chan file dir s shut,
            )
        | inr other ↦ elim (Bool-cases (is_neg opened)) [
          | inl failed ↦ (
            out P w thread chan opened l',
            rw (other, failed) refl,
            out_lem l' thread chan opened s failed (ground (arith, failed, o)),
          )
          | inr fine ↦ (
            observe P w thread chan l',
            rw (other, fine) refl,
            observe_lem l' thread chan s (ground (arith, fine)),
          )
        ]
      ]

  start_locked-opened :
      (l : Logger P w) (thread chan : ℕ) (file : List ℕ)
      → (l.chans chan).is_logging ≡ false
      → start_locked P w thread chan file l
        ≡ opened P w thread chan file (call P w (open_append chan file) l)
  unfolding start_locked
  start_locked-opened l thread chan file h =
      ap
        (λ b.
          if b
          then some (out P w thread chan ealready l)
          else opened P w thread chan file (call P w (open_append chan file) l))
        h

  locked_lem :
      (l : Logger P w) (thread chan : ℕ)
      → (l.chans chan).lock.lock_count ≡ 0
      → locked P w thread chan l
        ≡ some (
            set_chan P w l chan
              (record (l.chans chan) { lock = record { owner = thread; lock_count = 1 } }))
  unfolding locked k_mutex_lock
  locked_lem l thread chan h = rw h refl

  -- A call for a channel that is not logged, with its lock free and its file closed, and with a path that
  -- has a slash, comes back: with the lock free, and either a result that is not negative, the channel
  -- logged and its file open, or an error, the channel not logged and its file closed. It leaves the
  -- packets and the other channels alone.
  pub msg_chan_logging_start-IsStarted :
      (l : Logger P w) (thread chan : ℕ) (file dir : List ℕ)
      → (l.chans chan).lock.lock_count ≡ 0
      → (l.chans chan).is_logging ≡ false
      → (l.chans chan).is_observed ≡ false
      → is_open l.calls chan ≡ false
      → dirname file ≡ some dir
      → (r : ℤ × Logger P w) × (msg_chan_logging_start P w thread chan file l ≡ some r)
        × IsStarted l chan r
  unfolding msg_chan_logging_start
  msg_chan_logging_start-IsStarted l thread chan file dir free not_logging not_observed shut
        has_dir =
      let c : Channel = record (l.chans chan) {
        lock = record { owner = thread; lock_count = 1 };
      } in
      let l1 : Logger P w = set_chan P w l chan c in
      let here : l1.chans chan ≡ c = ground arith in
      let starting : IsStarting (l1.chans chan) thread =
        rw here (record { lock = refl; not_logging = not_logging; not_observed = not_observed }) in
      let (r, did, (lock, logging, observed, open', same, others)) =
        opened_lem l1 thread chan file dir starting shut has_dir in
      (
        r,
        rw (locked_lem l thread chan free)
            (start_locked-opened l1 thread chan file starting.not_logging ∙ did),
        (lock, logging, observed, open', same, λ k n. others k n ∙ ground (arith, n)),
      )
