-- ===== src/Cmd/Queue.antt =====
-- subsys/cmd/cmd.c: what an invocation does to the queue of packets.
use nturt_zephyr_common.Base.{
  ℕ, suc, ◌≡◌, ◌⊎◌, inl, inr, refl, sym, ap, ◌∙◌, Bool-cases, true, false, Option, none, some, List,
  [], ◌∷◌, ◌++◌, All, arith, length, length-append, if_both, if◌then◌else◌,
}
use mathlib.Core.List.{append-nil, append_assoc}
use nturt_zephyr_common.Base.Int.{ℤ, pos, eqb_ℤ}
use nturt_zephyr_common.Base.HashMap.{HashMap}
use nturt_zephyr_common.Cmd.Packets.{PacketBuffer}
use nturt_zephyr_common.Cmd.{
  Cmd, Deffered, Call, immed_call, deffered_call, Ctx, cmd_get, wlen, enqueue, immed_returned,
  invoke_by, invoke_found, cmd_invoke, Turn, blocked, null_pointer, ran, cmd_process,
}

-- What happens: a caller invokes a command, or the thread takes a turn.
pub data CmdEvent : Type 0 where
  invoke : ℕ → List ℕ → CmdEvent
  turn : CmdEvent

-- The deferred calls among the calls.
abbrev pub deffered_calls : List Call → List Call
deffered_calls [] = []
deffered_calls (immed_call opcode operand ∷ cs) = deffered_calls cs
deffered_calls (deffered_call opcode operand ∷ cs) =
    deffered_call opcode operand ∷ deffered_calls cs

-- The call that processes a packet.
abbrev pub call_of : Deffered → Call
call_of d = deffered_call d.cmd.opcode d.operand

abbrev pub calls_of : List Deffered → List Call
calls_of [] = []
calls_of (d ∷ ds) = call_of d ∷ calls_of ds

module _ (H : HashMap) (P : PacketBuffer Deffered) where
  -- The context after an event, where the thread does not read a NULL pointer.
  unfoldable pub after : Ctx H P → Turn H P → Option (Ctx H P)
  after c blocked = some c
  after c null_pointer = none
  after c (ran c') = some c'

  unfoldable pub happens : Ctx H P → CmdEvent → Option (Ctx H P)
  happens c (invoke opcode operand) = some (cmd_invoke H P c opcode operand).1
  happens c turn = after c (cmd_process H P c)

  -- The call that an event asks for, by what `cmd_invoke` returns.
  abbrev pub asked_by : Ctx H P → CmdEvent → List Call
  asked_by c (invoke opcode operand) =
      if eqb_ℤ (cmd_invoke H P c opcode operand).0 (pos 0)
      then deffered_call opcode operand ∷ []
      else []
  asked_by c turn = []

  -- The semaphore counts the packets; a command is found under its own opcode; and the commands found
  -- and those of the packets have a deferred handler.
  pub record IsReady (c : Ctx H P) : Type 0 where
    pub counted : c.sem ≡ length (P.pending c.pbuf)
    pub indexed : (opcode : ℕ) (cmd : Cmd) → cmd_get H P c opcode ≡ some cmd → cmd.opcode ≡ opcode
    pub handled :
        (opcode : ℕ) (cmd : Cmd) → cmd_get H P c opcode ≡ some cmd → cmd.has_deffered ≡ true
    pub pending_handled : All (λ (d : Deffered). d.cmd.has_deffered ≡ true) (P.pending c.pbuf)

  -- The deferred calls made, and those to come.
  abbrev pub all_calls : Ctx H P → List Call
  all_calls c = deffered_calls c.calls ++ calls_of (P.pending c.pbuf)

  pub deffered_calls-append :
      (xs ys : List Call) → deffered_calls (xs ++ ys) ≡ deffered_calls xs ++ deffered_calls ys
  deffered_calls-append [] ys = refl
  deffered_calls-append (immed_call o p ∷ xs) ys = deffered_calls-append xs ys
  deffered_calls-append (deffered_call o p ∷ xs) ys =
      ap (λ zs. deffered_call o p ∷ zs) (deffered_calls-append xs ys)

  calls_of-append : (xs ys : List Deffered) → calls_of (xs ++ ys) ≡ calls_of xs ++ calls_of ys
  calls_of-append [] ys = refl
  calls_of-append (x ∷ xs) ys = ap (λ zs. call_of x ∷ zs) (calls_of-append xs ys)

  -- What an invocation leaves alone.
  pub record IsKept (c c' : Ctx H P) : Type 0 where
    pub section' : c'.section ≡ c.section
    pub map' : c'.cmd_map ≡ c.cmd_map
    pub calls' : deffered_calls c'.calls ≡ deffered_calls c.calls

  -- An invocation of a command returns 0 and commits a packet, or does neither.
  unfoldable pub IsInvoked : Ctx H P → Cmd → List ℕ → ℤ × Ctx H P → Type 0
  IsInvoked c cmd operand (ret, c') =
      IsKept c c'
      × (((ret ≡ pos 0)
            × (P.pending c'.pbuf ≡ P.pending c.pbuf ++ record { cmd = cmd; operand = operand } ∷ [])
            × (c'.sem ≡ suc c.sem))
          ⊎ ((eqb_ℤ ret (pos 0) ≡ false) × (c'.pbuf ≡ c.pbuf) × (c'.sem ≡ c.sem)))

  enqueue-IsInvoked :
      (c : Ctx H P) (cmd : Cmd) (operand : List ℕ)
      → IsInvoked c cmd operand (enqueue H P c cmd operand)
  unfolding IsInvoked enqueue
  enqueue-IsInvoked c cmd operand =
      if_both (IsInvoked c cmd operand) (P.can_alloc c.pbuf (wlen H P operand)) _ _
        (
          record { section' = refl; map' = refl; calls' = refl },
          inl (refl, P.pending-commit c.pbuf _, refl),
        )
        (record { section' = refl; map' = refl; calls' = refl }, inr (refl, refl, refl))

  failed-IsInvoked :
      (c : Ctx H P) (cmd : Cmd) (operand : List ℕ) (ret : ℤ)
      → eqb_ℤ ret (pos 0) ≡ false
      → IsInvoked c cmd operand (ret, c)
  unfolding IsInvoked
  failed-IsInvoked c cmd operand ret e =
      (record { section' = refl; map' = refl; calls' = refl }, inr (e, refl, refl))

  -- The call of the immediate handler changes nothing of this.
  called-IsInvoked :
      (c : Ctx H P) (cmd : Cmd) (operand : List ℕ) (r : ℤ × Ctx H P)
      → IsInvoked (record c { calls = c.calls ++ immed_call cmd.opcode operand ∷ [] }) cmd operand r
      → IsInvoked c cmd operand r
  unfolding IsInvoked
  called-IsInvoked c cmd operand r (k, e) = (
    record {
      section' = k.section';
      map' = k.map';
      calls' = k.calls' ∙ deffered_calls-append c.calls _ ∙ append-nil _;
    },
    e,
  )

  immed_returned-IsInvoked :
      (c : Ctx H P) (cmd : Cmd) (operand : List ℕ) (ret : ℤ)
      → IsInvoked c cmd operand (immed_returned H P c cmd operand ret)
  unfolding immed_returned
  immed_returned-IsInvoked c cmd operand ret =
      let d = record c { calls = c.calls ++ immed_call cmd.opcode operand ∷ [] } in
      elim (Bool-cases (eqb_ℤ ret (pos 0))) [
        | inl e ↦ rw e (called-IsInvoked c cmd operand _ (enqueue-IsInvoked d cmd operand))
        | inr e ↦ rw e (called-IsInvoked c cmd operand _ (failed-IsInvoked d cmd operand ret e))
      ]

  pub invoke_by-IsInvoked :
      (o : Option (List ℕ → ℤ)) (c : Ctx H P) (cmd : Cmd) (operand : List ℕ)
      → IsInvoked c cmd operand (invoke_by H P o c cmd operand)
  unfolding invoke_by
  invoke_by-IsInvoked none c cmd operand = enqueue-IsInvoked c cmd operand
  invoke_by-IsInvoked (some immed) c cmd operand =
      immed_returned-IsInvoked c cmd operand (immed operand)

  pub get_same :
      (c c' : Ctx H P) (opcode : ℕ)
      → c'.section ≡ c.section
      → c'.cmd_map ≡ c.cmd_map
      → cmd_get H P c' opcode ≡ cmd_get H P c opcode
  unfolding cmd_get
  get_same c c' opcode p q = rw (p, q) refl

  All-append :
      (xs : List Deffered) (y : Deffered)
      → All (λ (d : Deffered). d.cmd.has_deffered ≡ true) xs
      → y.cmd.has_deffered ≡ true
      → All (λ (d : Deffered). d.cmd.has_deffered ≡ true) (xs ++ y ∷ [])
  All-append [] y a p = (p, tt)
  All-append (x ∷ xs) y (q, a) p = (q, All-append xs y a p)

  -- What an invocation of a command that is there makes of a ready context.
  invoked-IsReady :
      (c : Ctx H P) (opcode : ℕ) (cmd : Cmd) (operand : List ℕ) (r : ℤ × Ctx H P)
      → cmd_get H P c opcode ≡ some cmd
      → IsReady c
      → IsInvoked c cmd operand r
      → IsReady r.1
        × (all_calls r.1
            ≡ all_calls c ++ (if eqb_ℤ r.0 (pos 0) then deffered_call opcode operand ∷ [] else []))
  unfolding IsInvoked
  invoked-IsReady c opcode cmd operand (ret, c') g h (k, inl (z, p, s)) =
      let d : Deffered = record { cmd = cmd; operand = operand } in
      (
        record {
          counted =
              s
              ∙ ap suc h.counted
              ∙ sym (ap length p ∙ length-append (P.pending c.pbuf) (d ∷ []) ∙ omega arith);
          indexed = λ o x e. h.indexed o x (sym (get_same c c' o k.section' k.map') ∙ e);
          handled = λ o x e. h.handled o x (sym (get_same c c' o k.section' k.map') ∙ e);
          pending_handled =
              rw p (All-append (P.pending c.pbuf) d h.pending_handled (h.handled opcode cmd g));
        },
        rw (k.calls', p, z, calls_of-append (P.pending c.pbuf) (d ∷ []), h.indexed opcode cmd g)
            (sym (append_assoc (deffered_calls c.calls) _ _)),
      )
  invoked-IsReady c opcode cmd operand (ret, c') g h (k, inr (z, p, s)) = (
    record {
      counted = s ∙ h.counted ∙ ap (λ b. length (P.pending b)) (sym p);
      indexed = λ o x e. h.indexed o x (sym (get_same c c' o k.section' k.map') ∙ e);
      handled = λ o x e. h.handled o x (sym (get_same c c' o k.section' k.map') ∙ e);
      pending_handled = rw p h.pending_handled;
    },
    rw (k.calls', p, z) (sym (append-nil _)),
  )

  pub invoke-IsReady :
      (c : Ctx H P) (opcode : ℕ) (operand : List ℕ)
      → IsReady c
      → IsReady (cmd_invoke H P c opcode operand).1
        × (all_calls (cmd_invoke H P c opcode operand).1
            ≡ all_calls c ++ asked_by c (invoke opcode operand))
  unfolding cmd_invoke invoke_found
  invoke-IsReady c opcode operand h = go (cmd_get H P c opcode) refl
    where
      go :
          (o : Option Cmd)
          → cmd_get H P c opcode ≡ o
          → (let (ret, c') = invoke_found H P o c operand in
              IsReady c'
              × (all_calls c'
                  ≡ all_calls c
                    ++ (if eqb_ℤ ret (pos 0) then deffered_call opcode operand ∷ [] else [])))
      go none e = (h, sym (append-nil _))
      go (some cmd) e =
          invoked-IsReady c opcode cmd operand _ e h (invoke_by-IsInvoked cmd.immed c cmd operand)
