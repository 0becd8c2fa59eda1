-- ===== src/Logging/Fifo.antt =====
-- subsys/msg/logging.c: whatever the logger does, the file of a channel gets the rows of its messages, in
-- order.
use mathlib.Core.List.{append-nil, append_assoc}
use mathlib.Core.Option.{some-injective}
use nturt_zephyr_common.Base.{
  ℕ, zero, suc, ◌+◌, ◌≤◌, ◌<◌, ◌≡◌, refl, ap, sym, ◌∙◌, inl, inr, Bool, Option-cases, true, false,
  not, ◌&&◌, some, List, [], ◌∷◌, ◌++◌, arith, ◌==◌, if◌then◌else◌, All, length, if_both,
}
use nturt_zephyr_common.Base.Int.{ℤ}
use nturt_zephyr_common.Logging.Packets.{OverwritingBuffer}
use nturt_zephyr_common.Logging.{
  Packet, data_packet, stop_packet, World, Logger, call, out, locked, k_mutex_lock, stop_with,
  stop_locked, set_chan, msg_chan_logging_stop, msg_chan_logging_start, msg_cb, logging_work,
  msg_logging_sync_work, enotconn, rm_obs, wlen, stop_allocated,
}
use nturt_zephyr_common.Logging.Steps.{Step, start, stop, published, worked, synced, step, steps}
use nturt_zephyr_common.Logging.Written.{written, start-Keeps}
use nturt_zephyr_common.Logging.Rows.{
  IsReliable, HasRoom, is_start_of, line, taken, taken_all, IsQueue, output, Moves, commit-Moves,
  msg_cb-commit, worked-Moves, same-Moves, length-committed, rest_of,
}

-- Runs of the work.
abbrev pub works : ℕ → List Step
works zero = []
works (suc n) = worked ∷ works n

module _ (P : OverwritingBuffer Packet) (w : World) (c capacity : ℕ) (r : IsReliable w)
    (room : HasRoom P capacity) where
  alloc-same :
      (l : Logger P w) (ps : List Packet) (words : ℕ)
      → IsQueue P w c l ps
      → length ps < capacity
      → P.alloc l.mpsc_pbuf words ≡ some l.mpsc_pbuf
  alloc-same l ps words q n = room l.mpsc_pbuf words (rw (q.queued, length-committed P w c ps) n)

  stop_with-Moves :
      (l : Logger P w) (t k : ℕ) (ps : List Packet)
      → IsQueue P w c l ps
      → Moves P w c l ps (stop_with P w t k l).1 []
  unfolding stop_with call Moves
  stop_with-Moves l t k ps q =
      let ret : ℤ = w.returns l.calls (rm_obs k) in
      let l1 : Logger P w = record l { calls = (rm_obs k, ret) ∷ l.calls } in
      let l2 : Logger P w =
        set_chan P w l1 k (record (l.chans k) { is_logging = false; is_observed = false }) in
      rw (r.succeeds l.calls (rm_obs k)) (
        commit-Moves P w c l2 ps (stop_packet k)
          (record { queued = q.queued; pending = q.pending }))

  out-Moves :
      (l : Logger P w) (t k : ℕ) (ret : ℤ) (ps : List Packet)
      → IsQueue P w c l ps
      → Moves P w c l ps (out P w t k ret l).1 []
  unfolding out
  out-Moves l t k ret ps q = same-Moves P w c l (out P w t k ret l).1 ps q refl refl refl

  allocated-Moves :
      (l : Logger P w) (t k : ℕ) (ps : List Packet)
      → IsQueue P w c l ps
      → Moves P w c l ps (stop_allocated P w t k l (some l.mpsc_pbuf)).1 []
  unfolding stop_allocated
  allocated-Moves l t k ps q = stop_with-Moves l t k ps q

  stop_locked-Moves :
      (l : Logger P w) (t k : ℕ) (ps : List Packet)
      → IsQueue P w c l ps
      → length ps < capacity
      → Moves P w c l ps (stop_locked P w t k l).1 []
  unfolding stop_locked
  stop_locked-Moves l t k ps q n =
      if_both (λ x. Moves P w c l ps x.1 []) (not (l.chans k).is_logging) (out P w t k enotconn l)
        (stop_allocated P w t k l (P.alloc l.mpsc_pbuf (wlen P w 0)))
        (out-Moves l t k enotconn ps q)
        (rw (alloc-same l ps (wlen P w 0) q n) (allocated-Moves l t k ps q))

  stop-Moves :
      (l : Logger P w) (t k : ℕ) (ps : List Packet) {x : ℤ × Logger P w}
      → IsQueue P w c l ps
      → length ps < capacity
      → msg_chan_logging_stop P w t k l ≡ some x
      → Moves P w c l ps x.1 []
  unfolding msg_chan_logging_stop locked Moves
  stop-Moves l t k ps {x} q n h = elim (Option-cases (k_mutex_lock t (l.chans k).lock)) [
    | inl waits ↦ absurd (ground (arith, h, waits))
    | inr (m, taken) ↦
        let l1 : Logger P w = set_chan P w l k (record (l.chans k) { lock = m }) in
        let did : some (stop_locked P w t k l1) ≡ some x = rw taken at h in
        let moved : Moves P w c l1 ps (stop_locked P w t k l1).1 [] =
          stop_locked-Moves l1 t k ps (record { queued = q.queued; pending = q.pending }) n in
        rw (← some-injective _ _ did) moved
  ]

  publish-Moves :
      (l : Logger P w) (k : ℕ) (msg : List ℕ) (ps : List Packet) (b : Bool)
      → IsQueue P w c l ps
      → length ps < capacity
      → Moves P w c l ps
          (if b then msg_cb P w k msg l else l)
          (if b && k == c then line P w c msg ∷ [] else [])
  publish-Moves l k msg ps true q n =
      rw (msg_cb-commit P w c l k msg (alloc-same l ps (wlen P w (w.msg_size k)) q n))
        (commit-Moves P w c l ps (data_packet k msg) q)
  publish-Moves l k msg ps false q n = same-Moves P w c l l ps q refl refl refl

  work-Moves :
      (l : Logger P w) (ps : List Packet) (b : Bool)
      → IsQueue P w c l ps
      → Moves P w c l ps (if b then logging_work P w l else l) []
  unfolding Moves
  work-Moves l ps true q =
      let (ps', q', len, out) = worked-Moves P w c l ps r q in
      (ps', q', omega (arith, len), out ∙ sym (append-nil (output P w c l ps)))
  work-Moves l ps false q = same-Moves P w c l l ps q refl refl refl

  sync-Moves :
      (l : Logger P w) (k : ℕ) (ps : List Packet) (b : Bool)
      → IsQueue P w c l ps
      → Moves P w c l ps (if b then msg_logging_sync_work P w k l else l) []
  unfolding msg_logging_sync_work call
  sync-Moves l k ps true q = same-Moves P w c l (msg_logging_sync_work P w k l) ps q refl refl refl
  sync-Moves l k ps false q = same-Moves P w c l l ps q refl refl refl

  -- A step takes the queue to another one, and adds the rows of the messages it takes.
  step-Moves :
      (l l' : Logger P w) (e : Step) (ps : List Packet)
      → IsQueue P w c l ps
      → length ps < capacity
      → is_start_of c e ≡ false
      → step P w l e ≡ some l'
      → Moves P w c l ps l' (taken P w c l e)
  unfolding step
  step-Moves l l' (start t k file) ps q n o h =
      elim (Option-cases (msg_chan_logging_start P w t k file l)) [
        | inl waits ↦ absurd (ground (arith, h, waits))
        | inr (x, ended) ↦
            let (cs, b, p) = start-Keeps P w c k o l t file ended in
            let at : x.1 ≡ l' = ground (arith, h, ended) in
            rw⁻¹ at (same-Moves P w c l x.1 ps q cs b p)
      ]
  step-Moves l l' (stop t k) ps q n o h = elim (Option-cases (msg_chan_logging_stop P w t k l)) [
    | inl waits ↦ absurd (ground (arith, h, waits))
    | inr (x, ended) ↦
        let at : x.1 ≡ l' = ground (arith, h, ended) in rw⁻¹ at (stop-Moves l t k ps q n ended)
  ]
  step-Moves l l' (published k msg) ps q n o h =
      rw (← some-injective _ _ h) (publish-Moves l k msg ps (l.chans k).is_observed q n)
  step-Moves l l' worked ps q n o h =
      rw (← some-injective _ _ h) (work-Moves l ps l.is_work_pending q)
  step-Moves l l' (synced k) ps q n o h =
      rw (← some-injective _ _ h) (sync-Moves l k ps (l.chans k).is_sync_scheduled q)

  steps-Moves :
      (l l' : Logger P w) (es : List Step) (ps : List Packet)
      → IsQueue P w c l ps
      → length ps + length es ≤ capacity
      → All (λ e. is_start_of c e ≡ false) es
      → steps P w l es ≡ some l'
      → (ps' : List Packet) × IsQueue P w c l' ps'
        × (output P w c l' ps' ≡ output P w c l ps ++ taken_all P w c l es)
  unfolding steps taken_all Moves
  steps-Moves l l' [] ps q n o h =
      rw (← some-injective _ _ h) (ps, q, sym (append-nil (output P w c l ps)))
  steps-Moves l l' (e ∷ es) ps q n o h = elim (Option-cases (step P w l e)) [
    | inl waits ↦ absurd (ground (arith, h, waits))
    | inr (m, one) ↦
        let (qs, q', len, out) = step-Moves l m e ps q (omega (arith, n)) o.0 one in
        let (ps', q'', out') =
          steps-Moves m l' es qs q' (omega (arith, n, len)) o.1 (rw one at h) in
        (
          ps',
          q'',
          out'
              ∙ ap (λ x. x ++ taken_all P w c m es) out
              ∙ append_assoc (output P w c l ps) (taken P w c l e) (taken_all P w c m es)
              ∙ ap
                  (λ o.
                    output P w c l ps
                    ++ (taken P w c l e ++ rest_of P w c o (λ l'. taken_all P w c l' es)))
                  (sym one),
        )
  ]

  steps-worked :
      (l : Logger P w) (es : List Step)
      → l.is_work_pending ≡ true
      → steps P w l (worked ∷ es) ≡ steps P w (logging_work P w l) es
  unfolding steps step
  steps-worked l es h = ap (λ b. steps P w (if b then logging_work P w l else l) es) h

  drained :
      (n : ℕ) (l : Logger P w) (ps : List Packet)
      → length ps ≡ n
      → IsQueue P w c l ps
      → (l' : Logger P w) × (steps P w l (works n) ≡ some l')
        × (P.slots l'.mpsc_pbuf ≡ [])
        × (written c l'.calls ≡ output P w c l ps)
  unfolding steps
  drained zero l [] e q = (l, refl, q.queued, sym (append-nil (written c l.calls)))
  drained zero l (x ∷ xs) e q = absurd (omega (arith, e))
  drained (suc n) l ps e q =
      let (ps', q', len, out) = worked-Moves P w c l ps r q in
      let (l', did, empty, all) = drained n (logging_work P w l) ps' (omega (arith, e, len)) q' in
      (l', steps-worked l (works n) (q.pending (omega (arith, e))) ∙ did, empty, all ∙ out)

  pub steps-written :
      (l m : Logger P w) (es : List Step)
      → P.slots l.mpsc_pbuf ≡ []
      → length es ≤ capacity
      → All (λ e. is_start_of c e ≡ false) es
      → steps P w l es ≡ some m
      → (n : ℕ) × (l' : Logger P w) × (steps P w m (works n) ≡ some l')
        × (P.slots l'.mpsc_pbuf ≡ [])
        × (written c l'.calls ≡ written c l.calls ++ taken_all P w c l es)
  steps-written l m es empty n o h =
      let q : IsQueue P w c l [] = record { queued = empty; pending = λ z. absurd (omega arith) } in
      let (ps, q', out) = steps-Moves l m es [] q (omega (arith, n)) o h in
      let (l', did, empty', all) = drained (length ps) m ps refl q' in
      (
        length ps,
        l',
        did,
        empty',
        all ∙ out ∙ ap (λ x. x ++ taken_all P w c l es) (append-nil (written c l.calls)),
      )
