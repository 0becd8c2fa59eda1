-- ===== src/Logging/Others.antt =====
-- subsys/msg/logging.c: a call for one channel leaves the others as they are.
use nturt_zephyr_common.Base.{
  ℕ, ◌≡◌, ap, ◌∙◌, inl, inr, Bool-cases, Option-cases, false, some, List, ◌∷◌, arith, ◌==◌,
  if◌then◌else◌, sym,
}
use mathlib.Core.Option.{some-injective}
use nturt_zephyr_common.Base.Int.{ℤ}
use nturt_zephyr_common.Logging.Packets.{OverwritingBuffer}
use nturt_zephyr_common.Logging.{
  Packet, World, Outside, Logger, call, out, observe, create, opened, start_locked, locked,
  msg_chan_logging_start, dirname, stop_with, stop_locked, msg_chan_logging_stop, commit,
  k_mutex_lock, wlen, open_append, ealready, stop_allocated,
}

module _ (P : OverwritingBuffer Packet) (w : World) (k chan : ℕ)
    (differs : (k == chan) ≡ false) where
  out-other :
      (l : Logger P w) (thread : ℕ) (ret : ℤ) → (out P w thread chan ret l).1.chans k ≡ l.chans k
  unfolding out
  out-other l thread ret = ground (arith, differs)

  observe-other : (l : Logger P w) (thread : ℕ) → (observe P w thread chan l).1.chans k ≡ l.chans k
  unfolding observe call out
  observe-other l thread = ground (arith, differs)

  create-other :
      (l : Logger P w) (thread : ℕ) (file dir : List ℕ)
      → (create P w thread chan file dir l).1.chans k ≡ l.chans k
  unfolding create call out observe
  create-other l thread file dir = ground (arith, differs)

  opened-other :
      (l : Logger P w) (thread : ℕ) (file : List ℕ) (ret : ℤ) {r : ℤ × Logger P w}
      → opened P w thread chan file (ret, l) ≡ some r
      → r.1.chans k ≡ l.chans k
  unfolding opened
  opened-other l thread file ret {r} h = elim (Option-cases (dirname file)) [
    | inl none' ↦ ground (arith, h, none', out-other l thread ret, observe-other l thread)
    | inr (dir, has) ↦ ground (
      arith,
      h,
      has,
      out-other l thread ret,
      observe-other l thread,
      create-other l thread file dir,
    )
  ]

  start_locked-other :
      (l : Logger P w) (thread : ℕ) (file : List ℕ) {r : ℤ × Logger P w}
      → start_locked P w thread chan file l ≡ some r
      → r.1.chans k ≡ l.chans k
  unfolding start_locked call
  start_locked-other l thread file {r} h = elim (Bool-cases ((l.chans chan).is_logging)) [
    | inl already ↦ ground (arith, h, already, out-other l thread ealready)
    | inr fresh ↦
        let opening : Outside = open_append chan file in
        let ret : ℤ = w.returns l.calls opening in
        opened-other (record l { calls = (opening, ret) ∷ l.calls }) thread file ret
          (ap
              (λ b.
                if b
                then some (out P w thread chan ealready l)
                else opened P w thread chan file
                    (ret, record l { calls = (opening, ret) ∷ l.calls }))
              (sym fresh)
            ∙ h)
  ]

  locked-other :
      (l : Logger P w) (thread : ℕ) {l' : Logger P w}
      → locked P w thread chan l ≡ some l'
      → l'.chans k ≡ l.chans k
  unfolding locked
  locked-other l thread h = elim (Option-cases (k_mutex_lock thread (l.chans chan).lock)) [
    | inl waits ↦ absurd (ground (arith, h, waits))
    | inr (m, taken) ↦ ground (arith, h, taken, differs)
  ]

  pub start-other :
      (l : Logger P w) (thread : ℕ) (file : List ℕ) {r : ℤ × Logger P w}
      → msg_chan_logging_start P w thread chan file l ≡ some r
      → r.1.chans k ≡ l.chans k
  unfolding msg_chan_logging_start
  start-other l thread file {r} h = elim (Option-cases (locked P w thread chan l)) [
    | inl waits ↦ absurd (ground (arith, h, waits))
    | inr (l', taken) ↦
        let rest : start_locked P w thread chan file l' ≡ some r = rw taken at h in
        start_locked-other l' thread file rest ∙ locked-other l thread taken
  ]

  stop_locked-other :
      (l : Logger P w) (thread : ℕ) → (stop_locked P w thread chan l).1.chans k ≡ l.chans k
  unfolding stop_locked stop_allocated stop_with commit call out
  stop_locked-other l thread = elim (Option-cases (P.alloc l.mpsc_pbuf (wlen P w 0))) [
    | inl full ↦ ground (arith, full, differs)
    | inr (b, room) ↦ ground (arith, room, differs)
  ]

  pub stop-other :
      (l : Logger P w) (thread : ℕ) {r : ℤ × Logger P w}
      → msg_chan_logging_stop P w thread chan l ≡ some r
      → r.1.chans k ≡ l.chans k
  unfolding msg_chan_logging_stop
  stop-other l thread {r} h = elim (Option-cases (locked P w thread chan l)) [
    | inl waits ↦ absurd (ground (arith, h, waits))
    | inr (l', taken) ↦
        ap (λ (x : ℤ × Logger P w). x.1.chans k) (sym (some-injective _ _ (rw taken at h)))
        ∙ stop_locked-other l' thread
        ∙ locked-other l thread taken
  ]
