-- ===== src/Logging/Rows.antt =====
-- subsys/msg/logging.c: the file of a channel gets a row for each message, in the order in which the
-- messages were published.
use mathlib.Core.List.{append-nil, append_assoc, map-append}
use nturt_zephyr_common.Base.{
  ℕ, suc, ◌≤◌, ◌<◌, ◌≡◌, refl, ap, sym, ◌∙◌, inl, inr, Bool, Bool-cases, true, false, ◌&&◌, Option,
  none, some, List, [], ◌∷◌, ◌++◌, map, arith, leb, ◌==◌, if◌then◌else◌, length, length-append, ◌-◌,
}
use nturt_zephyr_common.Base.Int.{ℤ, is_neg}
use nturt_zephyr_common.Logging.Packets.{OverwritingBuffer, committed}
use nturt_zephyr_common.Logging.{
  Packet, data_packet, stop_packet, World, Outside, write, Logger, call, commit, msg_cb, handle,
  claimed, logging_work, wlen,
}
use nturt_zephyr_common.Logging.Steps.{Step, start, published, step}
use nturt_zephyr_common.Logging.Written.{written}

-- The file system and zbus report no error, and every row fits the buffer of `logging_work`.
pub record IsReliable (w : World) : Type 0 where
  pub succeeds : (cs : List (Outside × ℤ)) (o : Outside) → is_neg (w.returns cs o) ≡ false
  pub short : (c : ℕ) (msg : List ℕ) → leb 511 (length (w.csv_row c msg)) ≡ false

-- So many packets find room.
abbrev pub HasRoom : OverwritingBuffer Packet → ℕ → Type 0
HasRoom P capacity =
    (b : P.Buffer) (words : ℕ) → length (P.slots b) < capacity → P.alloc b words ≡ some b

abbrev pub is_start_of : ℕ → Step → Bool
is_start_of c (start t k file) = k == c
is_start_of c _ = false

module _ (P : OverwritingBuffer Packet) (w : World) (c : ℕ) where
  -- What a message is written as.
  abbrev pub line : List ℕ → List ℕ
  line msg = 10 ∷ w.csv_row c msg

  -- The rows that the packets will write.
  abbrev pub rows : List Packet → List (List ℕ)
  rows [] = []
  rows (data_packet k msg ∷ ps) = if k == c then line msg ∷ rows ps else rows ps
  rows (stop_packet k ∷ ps) = rows ps

  -- The rows of the messages that are published while the channel is observed.
  abbrev pub taken : Logger P w → Step → List (List ℕ)
  taken l (published k msg) = if (l.chans k).is_observed && k == c then line msg ∷ [] else []
  taken l _ = []

  -- The rest of the steps, unless the step waits.
  abbrev pub rest_of : Option (Logger P w) → (Logger P w → List (List ℕ)) → List (List ℕ)
  rest_of none f = []
  rest_of (some l) f = f l

  unfoldable pub taken_all : Logger P w → List Step → List (List ℕ)
  taken_all l [] = []
  taken_all l (e ∷ es) = taken l e ++ rest_of (step P w l e) (λ l'. taken_all l' es)

  -- The packets in the buffer; the work is pending if there are any.
  pub record IsQueue (l : Logger P w) (ps : List Packet) : Type 0 where
    pub queued : P.slots l.mpsc_pbuf ≡ map committed ps
    pub pending : 0 < length ps → l.is_work_pending ≡ true

  -- What the file is to hold.
  abbrev pub output : Logger P w → List Packet → List (List ℕ)
  output l ps = written c l.calls ++ rows ps

  rows-append : (ps qs : List Packet) → rows (ps ++ qs) ≡ rows ps ++ rows qs
  rows-append [] qs = refl
  rows-append (data_packet k msg ∷ ps) qs = elim (Bool-cases (k == c)) [
    | inl mine ↦ rw mine (ap (λ r. line msg ∷ r) (rows-append ps qs))
    | inr other ↦ rw other (rows-append ps qs)
  ]
  rows-append (stop_packet k ∷ ps) qs = rows-append ps qs

  pub length-committed : (ps : List Packet) → length (map committed ps) ≡ length ps
  length-committed [] = refl
  length-committed (p ∷ ps) = ap suc (length-committed ps)

  -- A step from one queue to the next.
  unfoldable pub Moves : Logger P w → List Packet → Logger P w → List (List ℕ) → Type 0
  Moves l ps l' new =
      (ps' : List Packet) × IsQueue l' ps'
      × (length ps' ≤ suc (length ps))
      × (output l' ps' ≡ output l ps ++ new)

  -- A committed packet stands at the end.
  commit_lem :
      (l : Logger P w) (ps : List Packet) (packet : Packet)
      → IsQueue l ps
      → IsQueue (commit P w packet l) (ps ++ packet ∷ [])
  unfolding commit
  commit_lem l ps packet q = record {
    queued =
        P.slots-commit l.mpsc_pbuf packet
        ∙ ap (λ ss. ss ++ committed packet ∷ []) q.queued
        ∙ sym (map-append committed ps (packet ∷ []));
    pending = λ _. refl;
  }

  pub commit-Moves :
      (l : Logger P w) (ps : List Packet) (packet : Packet)
      → IsQueue l ps
      → Moves l ps (commit P w packet l) (rows (packet ∷ []))
  unfolding Moves commit
  commit-Moves l ps packet q = (
    ps ++ packet ∷ [],
    commit_lem l ps packet q,
    omega (arith, length-append ps (packet ∷ [])),
    ap (λ r. written c l.calls ++ r) (rows-append ps (packet ∷ []))
        ∙ sym (append_assoc (written c l.calls) (rows ps) (rows (packet ∷ []))),
  )

  pub msg_cb-commit :
      (l : Logger P w) (k : ℕ) (msg : List ℕ)
      → P.alloc l.mpsc_pbuf (wlen P w (w.msg_size k)) ≡ some l.mpsc_pbuf
      → msg_cb P w k msg l ≡ commit P w (data_packet k msg) l
  unfolding msg_cb
  msg_cb-commit l k msg h =
      ap
        (λ (o : Option P.Buffer). elim o [
          | none ↦ l
          | some b ↦ commit P w (data_packet k msg) (record l { mpsc_pbuf = b })
        ])
        h

  -- `handle` writes the rows of its packet, and no other.
  handle-written :
      (l : Logger P w) (packet : Packet)
      → IsReliable w
      → written c (handle P w packet l).calls ≡ written c l.calls ++ rows (packet ∷ [])
  unfolding handle call
  handle-written l (data_packet k msg) r = elim (Bool-cases (k == c)) [
    | inl mine ↦
        let same : k ≡ c = ground arith in
        ground
          (arith, mine, same, r.short k msg, r.succeeds l.calls (write k (10 ∷ w.csv_row k msg)))
    | inr other ↦ ground (
      arith,
      other,
      r.short k msg,
      r.succeeds l.calls (write k (10 ∷ w.csv_row k msg)),
      append-nil (written c l.calls),
    )
  ]
  handle-written l (stop_packet k) r = ground (arith, append-nil (written c l.calls))

  logging_work-claimed :
      (l : Logger P w) (o : Option (Packet × P.Buffer))
      → P.claim l.mpsc_pbuf ≡ o
      → logging_work P w l ≡ claimed P w l o
  unfolding logging_work
  logging_work-claimed l o h = ap (claimed P w l) h

  claimed-IsQueue :
      (l : Logger P w) (x : Packet) (xs : List Packet) (b : P.Buffer)
      → P.slots b ≡ map committed xs
      → IsQueue (claimed P w l (some (x, b))) xs
  unfolding claimed
  claimed-IsQueue l x [] b h = record { queued = h; pending = λ n. absurd (omega arith) }
  claimed-IsQueue l x (y ∷ ys) b h = record {
    queued = h;
    pending = λ n. P.is_pending-committed b y (map committed ys) h;
  }

  claimed-calls :
      (l : Logger P w) (x : Packet) (b : P.Buffer)
      → (claimed P w l (some (x, b))).calls ≡ (handle P w x l).calls
  unfolding claimed
  claimed-calls l x b = refl

  claimed-none :
      (l : Logger P w)
      → P.slots l.mpsc_pbuf ≡ []
      → IsQueue (claimed P w l none) [] × ((claimed P w l none).calls ≡ l.calls)
  unfolding claimed
  claimed-none l h = (record { queued = h; pending = λ n. absurd (omega arith) }, refl)

  rows-cons : (x : Packet) (xs : List Packet) → rows (x ∷ xs) ≡ rows (x ∷ []) ++ rows xs
  rows-cons x xs = rows-append (x ∷ []) xs

  -- A run of the work takes the first packet, and writes its row.
  pub worked-Moves :
      (l : Logger P w) (ps : List Packet)
      → IsReliable w
      → IsQueue l ps
      → (ps' : List Packet) × IsQueue (logging_work P w l) ps'
        × (length ps' ≡ length ps - 1)
        × (output (logging_work P w l) ps' ≡ output l ps)
  worked-Moves l [] r q = rw (logging_work-claimed l none (P.claim_none l.mpsc_pbuf q.queued)) (
    [],
    (claimed-none l q.queued).0,
    omega arith,
    ap (λ cs. written c cs ++ []) (claimed-none l q.queued).1,
  )
  worked-Moves l (x ∷ xs) r q =
      let (b, did, left) = P.claim_some l.mpsc_pbuf x (map committed xs) q.queued in
      rw (logging_work-claimed l (some (x, b)) did) (
        xs,
        claimed-IsQueue l x xs b left,
        omega arith,
        ap (λ cs. written c cs ++ rows xs) (claimed-calls l x b)
            ∙ ap (λ ls. ls ++ rows xs) (handle-written l x r)
            ∙ append_assoc (written c l.calls) (rows (x ∷ [])) (rows xs)
            ∙ ap (λ rs. written c l.calls ++ rs) (sym (rows-cons x xs)),
      )

  -- A step that writes nothing and leaves the packets moves to the same queue.
  pub same-Moves :
      (l l' : Logger P w) (ps : List Packet)
      → IsQueue l ps
      → written c l'.calls ≡ written c l.calls
      → l'.mpsc_pbuf ≡ l.mpsc_pbuf
      → l'.is_work_pending ≡ l.is_work_pending
      → Moves l ps l' []
  unfolding Moves
  same-Moves l l' ps q cs b p = (
    ps,
    record { queued = ap P.slots b ∙ q.queued; pending = λ n. p ∙ q.pending n },
    omega arith,
    ap (λ ls. ls ++ rows ps) cs ∙ sym (append-nil (output l ps)),
  )
