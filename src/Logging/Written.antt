-- ===== src/Logging/Written.antt =====
-- subsys/msg/logging.c: which calls write to the file of a channel. A call that starts or stops to log
-- another channel does not.
use nturt_zephyr_common.Base.{
  ℕ, ◌≡◌, refl, ap, sym, ◌∙◌, inl, inr, Bool-cases, Option-cases, false, some, List, [], ◌∷◌, ◌++◌,
  arith, ◌==◌, if◌then◌else◌, not, ◌&&◌,
}
use mathlib.Core.Option.{some-injective}
use nturt_zephyr_common.Base.Int.{ℤ, is_neg}
use nturt_zephyr_common.Logging.Packets.{OverwritingBuffer}
use nturt_zephyr_common.Logging.{
  Packet, World, Outside, write, Logger, call, out, observe, create, opened, start_locked, locked,
  msg_chan_logging_start, dirname, k_mutex_lock, ealready, open_append,
}

-- What has been written to the file of a channel, in order.
abbrev pub written : ℕ → List (Outside × ℤ) → List (List ℕ)
written c [] = []
written c ((write k bytes, ret) ∷ cs) =
    if k == c && not (is_neg ret) then written c cs ++ bytes ∷ [] else written c cs
written c ((_, ret) ∷ cs) = written c cs

module _ (P : OverwritingBuffer Packet) (w : World) (c chan : ℕ)
    (differs : (chan == c) ≡ false) where
  -- Nothing is written to the file, and the packets are kept.
  abbrev pub Keeps : Logger P w → Logger P w → Type 0
  Keeps l l' =
      (written c l'.calls ≡ written c l.calls)
      × (l'.mpsc_pbuf ≡ l.mpsc_pbuf)
      × (l'.is_work_pending ≡ l.is_work_pending)

  out-Keeps : (l : Logger P w) (thread : ℕ) (ret : ℤ) → Keeps l (out P w thread chan ret l).1
  unfolding out
  out-Keeps l thread ret = (refl, refl, refl)

  observe-Keeps : (l : Logger P w) (thread : ℕ) → Keeps l (observe P w thread chan l).1
  unfolding observe call out
  observe-Keeps l thread = (ground arith, ground arith, ground arith)

  create-Keeps :
      (l : Logger P w) (thread : ℕ) (file dir : List ℕ)
      → Keeps l (create P w thread chan file dir l).1
  unfolding create call out observe
  create-Keeps l thread file dir = (ground (arith, differs), ground arith, ground arith)

  opened-Keeps :
      (l : Logger P w) (thread : ℕ) (file : List ℕ) (ret : ℤ) {r : ℤ × Logger P w}
      → opened P w thread chan file (ret, l) ≡ some r
      → Keeps l r.1
  unfolding opened out
  opened-Keeps l thread file ret {r} h = elim (Option-cases (dirname file)) [
    | inl missing ↦ ground (arith, h, missing, observe-Keeps l thread)
    | inr (dir, has) ↦
        ground (arith, h, has, observe-Keeps l thread, create-Keeps l thread file dir)
  ]

  start_locked-Keeps :
      (l : Logger P w) (thread : ℕ) (file : List ℕ) {r : ℤ × Logger P w}
      → start_locked P w thread chan file l ≡ some r
      → Keeps l r.1
  unfolding start_locked call
  start_locked-Keeps l thread file {r} h = elim (Bool-cases ((l.chans chan).is_logging)) [
    | inl already ↦
        let end : some (out P w thread chan ealready l) ≡ some r =
          ap
            (λ b.
              if b
              then some (out P w thread chan ealready l)
              else opened P w thread chan file (ret, l1))
            (sym already)
          ∙ h in
        rw (← some-injective _ _ end) (out-Keeps l thread ealready)
    | inr fresh ↦ opened-Keeps l1 thread file ret (
        ap
          (λ b.
            if b
            then some (out P w thread chan ealready l)
            else opened P w thread chan file (ret, l1))
          (sym fresh)
        ∙ h)
  ]
    where
      ret : ℤ
      ret = w.returns l.calls (open_append chan file)

      l1 : Logger P w
      l1 = record l { calls = (open_append chan file, ret) ∷ l.calls }

  pub start-Keeps :
      (l : Logger P w) (thread : ℕ) (file : List ℕ) {r : ℤ × Logger P w}
      → msg_chan_logging_start P w thread chan file l ≡ some r
      → Keeps l r.1
  unfolding msg_chan_logging_start locked
  start-Keeps l thread file {r} h = elim (Option-cases (k_mutex_lock thread (l.chans chan).lock)) [
    | inl waits ↦ absurd (ground (arith, h, waits))
    | inr (m, taken) ↦
        start_locked-Keeps
          (record l {
            chans = λ k. if k == chan then record (l.chans chan) { lock = m } else l.chans k;
          })
          thread file (rw taken at h)
  ]
