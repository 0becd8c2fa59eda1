-- ===== src/Logging/Stop.antt =====
-- subsys/msg/logging.c: the lock of a channel after `msg_chan_logging_stop`.
use nturt_zephyr_common.Base.{
  ℕ, ◌<◌, ◌≡◌, refl, inl, inr, Bool, Bool-cases, Option-cases, false, ◌&&◌, Option, none, some,
  List, [], ◌∷◌, arith, ◌==◌, All,
}
use mathlib.Core.Option.{some-injective}
use nturt_zephyr_common.Base.Int.{ℤ, is_neg}
use nturt_zephyr_common.Logging.Packets.{OverwritingBuffer}
use nturt_zephyr_common.Logging.{
  Packet, data_packet, stop_packet, World, Mutex, Logger, call, out, locked, k_mutex_lock,
  k_mutex_unlock, stop_with, stop_locked, msg_chan_logging_stop, commit, msg_chan_logging_start,
  msg_cb, handle, logging_work, msg_logging_sync_work, wlen, claimed, stop_allocated,
}
use nturt_zephyr_common.Logging.Steps.{Step, start, stop, published, worked, synced, step, steps}
use nturt_zephyr_common.Logging.Others.{start-other, stop-other}

-- The mutex is locked by the thread.
abbrev pub IsHeld : ℕ → Mutex → Type 0
IsHeld thread m = (m.owner ≡ thread) × (0 < m.lock_count)

-- The step is no call of the thread for the channel.
abbrev pub is_by : ℕ → ℕ → Step → Bool
is_by thread chan (start t c file) = t == thread && c == chan
is_by thread chan (stop t c) = t == thread && c == chan
is_by thread chan (published c msg) = false
is_by thread chan worked = false
is_by thread chan (synced c) = false

-- A thread that does not hold the lock waits, and cannot unlock it.
k_mutex_lock-none :
    (t thread : ℕ) (m : Mutex) → IsHeld thread m → (t == thread) ≡ false → k_mutex_lock t m ≡ none
unfolding k_mutex_lock
k_mutex_lock-none t thread m h d = ground (arith, h.0, h.1, d)

k_mutex_unlock-other :
    (t thread : ℕ) (m : Mutex) → IsHeld thread m → (t == thread) ≡ false → k_mutex_unlock t m ≡ m
unfolding k_mutex_unlock
k_mutex_unlock-other t thread m h d = ground (arith, h.0, h.1, d)

module _ (P : OverwritingBuffer Packet) (w : World) (thread chan : ℕ) where
  locked-none :
      (l : Logger P w) (t : ℕ)
      → IsHeld thread (l.chans chan).lock
      → (t == thread) ≡ false
      → locked P w t chan l ≡ none
  unfolding locked
  locked-none l t h d = rw (k_mutex_lock-none t thread (l.chans chan).lock h d) refl

  start-waits :
      (l : Logger P w) (t : ℕ) (file : List ℕ)
      → IsHeld thread (l.chans chan).lock
      → (t == thread) ≡ false
      → msg_chan_logging_start P w t chan file l ≡ none
  unfolding msg_chan_logging_start
  start-waits l t file h d = rw (locked-none l t h d) refl

  stop-waits :
      (l : Logger P w) (t : ℕ)
      → IsHeld thread (l.chans chan).lock
      → (t == thread) ≡ false
      → msg_chan_logging_stop P w t chan l ≡ none
  unfolding msg_chan_logging_stop
  stop-waits l t h d = rw (locked-none l t h d) refl

  -- The work queue leaves the lock to its owner.
  handle-lock :
      (l : Logger P w) (packet : Packet)
      → (w.work_thread == thread) ≡ false
      → IsHeld thread (l.chans chan).lock
      → ((handle P w packet l).chans chan).lock ≡ (l.chans chan).lock
  unfolding handle call
  handle-lock l (data_packet c msg) d h = ground (arith, h.0)
  handle-lock l (stop_packet c) d h =
      ground (arith, k_mutex_unlock-other w.work_thread thread (l.chans chan).lock h d)

  claimed-lock :
      (l : Logger P w) (r : Option (Packet × P.Buffer))
      → (w.work_thread == thread) ≡ false
      → IsHeld thread (l.chans chan).lock
      → ((claimed P w l r).chans chan).lock ≡ (l.chans chan).lock
  unfolding claimed
  claimed-lock l none d h = refl
  claimed-lock l (some (packet, b)) d h = handle-lock l packet d h

  msg_cb-lock :
      (l : Logger P w) (c : ℕ) (msg : List ℕ)
      → ((msg_cb P w c msg l).chans chan).lock ≡ (l.chans chan).lock
  unfolding msg_cb commit
  msg_cb-lock l c msg = elim (Option-cases (P.alloc l.mpsc_pbuf (wlen P w (w.msg_size c)))) [
    | inl full ↦ ground (arith, full)
    | inr (b, room) ↦ ground (arith, room)
  ]

  logging_work-lock :
      (l : Logger P w)
      → (w.work_thread == thread) ≡ false
      → IsHeld thread (l.chans chan).lock
      → ((logging_work P w l).chans chan).lock ≡ (l.chans chan).lock
  unfolding logging_work
  logging_work-lock l d h = claimed-lock l (P.claim l.mpsc_pbuf) d h

  sync-lock :
      (l : Logger P w) (c : ℕ)
      → ((msg_logging_sync_work P w c l).chans chan).lock ≡ (l.chans chan).lock
  unfolding msg_logging_sync_work call
  sync-lock l c = ground arith

  step-lock :
      (l l' : Logger P w) (e : Step)
      → (w.work_thread == thread) ≡ false
      → IsHeld thread (l.chans chan).lock
      → is_by thread chan e ≡ false
      → step P w l e ≡ some l'
      → (l'.chans chan).lock ≡ (l.chans chan).lock
  unfolding step
  step-lock l l' (start t c file) d h n did =
      elim (Option-cases (msg_chan_logging_start P w t c file l)) [
        | inl waits ↦ absurd (ground (arith, did, waits))
        | inr (r, ended) ↦ elim (Bool-cases (chan == c)) [
          | inl same ↦
              let at : c ≡ chan = ground arith in
              absurd (ground (arith, ended, n, start-waits l t file h, at))
          | inr other ↦ ground (arith, did, ended, start-other P w chan c other l t file ended)
        ]
      ]
  step-lock l l' (stop t c) d h n did = elim (Option-cases (msg_chan_logging_stop P w t c l)) [
    | inl waits ↦ absurd (ground (arith, did, waits))
    | inr (r, ended) ↦ elim (Bool-cases (chan == c)) [
      | inl same ↦
          let at : c ≡ chan = ground arith in
          absurd (ground (arith, ended, n, stop-waits l t h, at))
      | inr other ↦ ground (arith, did, ended, stop-other P w chan c other l t ended)
    ]
  ]
  step-lock l l' (published c msg) d h n did = ground (arith, did, msg_cb-lock l c msg)
  step-lock l l' worked d h n did = ground (arith, did, logging_work-lock l d h)
  step-lock l l' (synced c) d h n did = ground (arith, did, sync-lock l c)

  steps-lock :
      (l l' : Logger P w) (es : List Step)
      → (w.work_thread == thread) ≡ false
      → IsHeld thread (l.chans chan).lock
      → All (λ e. is_by thread chan e ≡ false) es
      → steps P w l es ≡ some l'
      → IsHeld thread (l'.chans chan).lock
  unfolding steps
  steps-lock l l' [] d h n did = rw (← some-injective _ _ did) h
  steps-lock l l' (e ∷ es) d h n did = elim (Option-cases (step P w l e)) [
    | inl waits ↦ absurd (ground (arith, did, waits))
    | inr (m, one) ↦ steps-lock m l' es d (rw (step-lock l m e d h n.0 one) h) n.1 (rw one at did)
  ]

  locked-IsHeld :
      (l l' : Logger P w) → locked P w thread chan l ≡ some l' → IsHeld thread (l'.chans chan).lock
  unfolding locked k_mutex_lock
  locked-IsHeld l l' h = ground (arith, h)

  stop_locked-IsHeld :
      (l : Logger P w)
      → IsHeld thread (l.chans chan).lock
      → let (ret, l') = stop_locked P w thread chan l in
        is_neg ret ≡ false → IsHeld thread (l'.chans chan).lock
  unfolding stop_locked stop_allocated stop_with commit call out
  stop_locked-IsHeld l h = elim (Option-cases (P.alloc l.mpsc_pbuf (wlen P w 0))) [
    | inl full ↦ λ ok. ground (arith, full, h, ok)
    | inr (b, room) ↦ λ ok. ground (arith, room, h, ok)
  ]

  stop-IsHeld :
      (l l' : Logger P w) (ret : ℤ)
      → msg_chan_logging_stop P w thread chan l ≡ some (ret, l')
      → is_neg ret ≡ false
      → IsHeld thread (l'.chans chan).lock
  unfolding msg_chan_logging_stop
  stop-IsHeld l l' ret h ok = elim (Option-cases (locked P w thread chan l)) [
    | inl waits ↦ absurd (ground (arith, h, waits))
    | inr (m, taken) ↦
        let rest : stop_locked P w thread chan m ≡ (ret, l') = some-injective _ _ (rw taken at h) in
        rw rest at (stop_locked-IsHeld m (locked-IsHeld l m taken)) ok
  ]

  -- After a thread has stopped the logging of a channel, and whatever happens then but for further calls of
  -- that thread for the channel, every other thread that starts or stops to log the channel waits: the
  -- lock is left to the work queue, which is not its owner, if the thread is not the work queue's.
  pub stop-waits_forever :
      (l l' m : Logger P w) (ret : ℤ) (es : List Step) (t : ℕ) (file : List ℕ)
      → (w.work_thread == thread) ≡ false
      → msg_chan_logging_stop P w thread chan l ≡ some (ret, l')
      → is_neg ret ≡ false
      → All (λ e. is_by thread chan e ≡ false) es
      → steps P w l' es ≡ some m
      → (t == thread) ≡ false
      → (msg_chan_logging_start P w t chan file m ≡ none)
        × (msg_chan_logging_stop P w t chan m ≡ none)
  stop-waits_forever l l' m ret es t file d stopped ok n did other =
      let held : IsHeld thread (m.chans chan).lock =
        steps-lock l' m es d (stop-IsHeld l l' ret stopped ok) n did in
      (start-waits m t file held other, stop-waits m t held other)
