-- ===== src/Cmd/Turns.antt =====
-- subsys/cmd/cmd.c: what is invoked successfully is processed once, in the order of the invocations.
use nturt_zephyr_common.Base.{
  ℕ, suc, ◌-◌, ◌≡◌, inl, inr, refl, sym, ap, ◌∙◌, true, false, Option, none, some, List, [], ◌∷◌,
  ◌++◌, ◌>>=◌, arith, length, ◌==◌,
}
use mathlib.Core.Option.{some-injective}
use mathlib.Core.List.{append-nil, append_assoc}
use nturt_zephyr_common.Base.Int.{ℤ, pos}
use nturt_zephyr_common.Base.HashMap.{HashMap}
use nturt_zephyr_common.Cmd.Packets.{PacketBuffer}
use nturt_zephyr_common.Cmd.{
  Cmd, Deffered, Call, Ctx, cmd_get, invoke_found, cmd_invoke, blocked, null_pointer, ran, process,
  cmd_process,
}
use nturt_zephyr_common.Cmd.Queue.{
  CmdEvent, invoke, turn, deffered_calls, call_of, calls_of, after, happens, asked_by, IsReady,
  all_calls, deffered_calls-append, IsInvoked, get_same, invoke-IsReady, invoke_by-IsInvoked,
}

module _ (H : HashMap) (P : PacketBuffer Deffered) where
  cmd_process-claims :
      (c : Ctx H P) (n : ℕ)
      → c.sem ≡ suc n
      → cmd_process H P c ≡ process H P (record c { sem = n }) (P.claim c.pbuf)
  unfolding cmd_process
  cmd_process-claims c n h =
      let z : (c.sem == 0) ≡ false = ground (arith, h) in
      let m : c.sem - 1 ≡ n = omega (arith, h) in rw (z, m) refl

  process-packet :
      (c : Ctx H P) (d : Deffered) (b : P.Buffer)
      → d.cmd.has_deffered ≡ true
      → process H P c (some (d, b)) ≡ ran (record c { pbuf = b; calls = c.calls ++ call_of d ∷ [] })
  unfolding process
  process-packet c d b h = ground (arith, h)

  -- A turn with a packet runs the deferred handler of its command with its operand.
  pub cmd_process-packet :
      (c : Ctx H P) (d : Deffered) (ds : List Deffered)
      → IsReady H P c
      → P.pending c.pbuf ≡ d ∷ ds
      → (c' : Ctx H P) × (cmd_process H P c ≡ ran c')
        × (P.pending c'.pbuf ≡ ds)
        × (c'.calls ≡ c.calls ++ call_of d ∷ [])
        × (c'.sem ≡ length ds)
        × (c'.section ≡ c.section)
        × (c'.cmd_map ≡ c.cmd_map)
  cmd_process-packet c d ds h p =
      let (b, claimed, rest) = P.claim_some c.pbuf d ds p in
      let n : c.sem ≡ suc (length ds) = h.counted ∙ ap length p in
      let (handler, _) = rw p at h.pending_handled in
      (
        record c { pbuf = b; calls = c.calls ++ call_of d ∷ []; sem = length ds },
        cmd_process-claims c (length ds) n
            ∙ ap (process H P (record c { sem = length ds })) claimed
            ∙ process-packet (record c { sem = length ds }) d b handler,
        rest,
        refl,
        refl,
        refl,
        refl,
      )

  cmd_process-empty :
      (c : Ctx H P) → IsReady H P c → P.pending c.pbuf ≡ [] → cmd_process H P c ≡ blocked
  unfolding cmd_process
  cmd_process-empty c h p =
      let z : (c.sem == 0) ≡ true = ground (arith, h.counted ∙ ap length p) in rw z refl

  turn-IsReady :
      (c : Ctx H P)
      → IsReady H P c
      → (c' : Ctx H P) × (happens H P c turn ≡ some c')
        × IsReady H P c'
        × (all_calls H P c' ≡ all_calls H P c)
  unfolding happens after
  turn-IsReady c h = go (P.pending c.pbuf) refl
    where
      go :
          (ds : List Deffered)
          → P.pending c.pbuf ≡ ds
          → (c' : Ctx H P) × (after H P c (cmd_process H P c) ≡ some c')
            × IsReady H P c'
            × (all_calls H P c' ≡ all_calls H P c)
      go [] p = (c, ap (after H P c) (cmd_process-empty c h p), h, refl)
      go (d ∷ ds) p =
          let (c', e, rest, calls', sem', section', map') = cmd_process-packet c d ds h p in
          let (_, handled) = rw p at h.pending_handled in
          let same = λ (o : ℕ). get_same H P c c' o section' map' in
          (
            c',
            ap (after H P c) e,
            record {
              counted = sem' ∙ ap length (sym rest);
              indexed = λ o x g. h.indexed o x (sym (same o) ∙ g);
              handled = λ o x g. h.handled o x (sym (same o) ∙ g);
              pending_handled = rw rest handled;
            },
            rw (calls', rest, p, deffered_calls-append H P c.calls (call_of d ∷ []))
                (append_assoc (deffered_calls c.calls) (call_of d ∷ []) (calls_of ds)),
          )

  -- What a list of events makes of a context, where the thread reads no NULL pointer.
  unfoldable pub run : Ctx H P → List CmdEvent → Option (Ctx H P)
  run c [] = some c
  run c (e ∷ es) = do c' ← happens H P c e; run c' es

  abbrev or_same : Option (Ctx H P) → Ctx H P → Ctx H P
  or_same none c = c
  or_same (some c') c = c'

  -- The calls that the events ask for, in their order.
  abbrev pub asked : Ctx H P → List CmdEvent → List Call
  asked c [] = []
  asked c (e ∷ es) = asked_by H P c e ++ asked (or_same (happens H P c e) c) es

  happens-IsReady :
      (c : Ctx H P) (e : CmdEvent)
      → IsReady H P c
      → (c' : Ctx H P) × (happens H P c e ≡ some c')
        × IsReady H P c'
        × (all_calls H P c' ≡ all_calls H P c ++ asked_by H P c e)
  unfolding happens
  happens-IsReady c (invoke opcode operand) h =
      let (h', q) = invoke-IsReady H P c opcode operand h in
      ((cmd_invoke H P c opcode operand).1, refl, h', q)
  happens-IsReady c turn h =
      let (c', e, h', q) = turn-IsReady c h in (c', e, h', q ∙ sym (append-nil _))

  pub run-calls :
      (es : List CmdEvent) (c : Ctx H P)
      → IsReady H P c
      → (c' : Ctx H P) × (run c es ≡ some c')
        × IsReady H P c'
        × (all_calls H P c' ≡ all_calls H P c ++ asked c es)
  unfolding run
  run-calls [] c h = (c, refl, h, sym (append-nil _))
  run-calls (e ∷ es) c h =
      let (d, p, h', q) = happens-IsReady c e h in
      let (c', p', h'', q') = run-calls es d h' in
      (
        c',
        ap (λ (o : Option (Ctx H P)). o >>= (λ x. run x es)) p ∙ p',
        h'',
        q'
            ∙ ap (λ l. l ++ asked d es) q
            ∙ append_assoc (all_calls H P c) (asked_by H P c e) (asked d es)
            ∙ ap (λ o. all_calls H P c ++ (asked_by H P c e ++ asked (or_same o c) es)) (sym p),
      )

  process-null :
      (c : Ctx H P) (d : Deffered) (b : P.Buffer)
      → d.cmd.has_deffered ≡ false
      → process H P c (some (d, b)) ≡ null_pointer
  unfolding process
  process-null c d b h = rw h refl

  reads_null :
      (c : Ctx H P) (x : Cmd) (operand : List ℕ)
      → c.sem ≡ 0
      → P.pending c.pbuf ≡ []
      → x.has_deffered ≡ false
      → (r : ℤ × Ctx H P) → IsInvoked H P c x operand r
      → r.0 ≡ pos 0
      → cmd_process H P r.1 ≡ null_pointer
  unfolding IsInvoked
  reads_null c x operand idle none_waits n (ret, c') (_, inr (z, _, _)) k =
      absurd (ground (arith, z, k))
  reads_null c x operand idle none_waits n (ret, c') (_, inl (z, p, s)) k =
      let d : Deffered = record { cmd = x; operand = operand } in
      let (b, claimed, _) = P.claim_some c'.pbuf d [] (p ∙ ap (λ l. l ++ d ∷ []) none_waits) in
      cmd_process-claims c' 0 (s ∙ ap suc idle)
      ∙ ap (process H P (record c' { sem = 0 })) claimed
      ∙ process-null (record c' { sem = 0 }) d b n

  -- A successful invocation of a command without a deferred handler makes the thread read a NULL pointer
  -- at its next turn, if no packet waits before.
  pub cmd_invoke-null_pointer :
      (c : Ctx H P) (opcode : ℕ) (cmd : Cmd) (operand : List ℕ)
      → c.sem ≡ 0
      → P.pending c.pbuf ≡ []
      → cmd_get H P c opcode ≡ some cmd
      → cmd.has_deffered ≡ false
      → (cmd_invoke H P c opcode operand).0 ≡ pos 0
      → cmd_process H P (cmd_invoke H P c opcode operand).1 ≡ null_pointer
  unfolding cmd_invoke invoke_found
  cmd_invoke-null_pointer c opcode cmd operand idle none_waits found bare ok =
      go (cmd_get H P c opcode) found ok
    where
      go :
          (o : Option Cmd)
          → o ≡ some cmd
          → (invoke_found H P o c operand).0 ≡ pos 0
          → cmd_process H P (invoke_found H P o c operand).1 ≡ null_pointer
      go none e k = absurd (cc)
      go (some x) e k =
          let same : x ≡ cmd = some-injective _ _ e in
          reads_null c x operand idle none_waits (ap (λ (y : Cmd). y.has_deffered) same ∙ bare) _
            (invoke_by-IsInvoked H P x.immed c x operand) k
