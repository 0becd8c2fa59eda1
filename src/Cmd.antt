-- ===== src/Cmd.antt =====
-- subsys/cmd/cmd.c: commands with an immediate handler and a deferred one. The packet buffer and the
-- hash map are interfaces; a pointer to a command is its index in the linker section.
pub mod Packets
pub mod Queue
pub mod Turns
pub mod Lookup
mod Tests
use nturt_zephyr_common.Base.{
  ℕ, zero, suc, ◌+◌, ◌-◌, ◌*◌, ◌/◌, Bool, true, false, not, Option, none, some, List, [], ◌∷◌, ◌++◌,
  length, get_elem?, ◌==◌, if◌then◌else◌, ◌>>=◌,
}
use nturt_zephyr_common.Base.Int.{ℤ, pos, negsuc, eqb_ℤ}
use nturt_zephyr_common.Base.HashMap.{HashMap, Insert, added, replaced, failed}
use nturt_zephyr_common.Cmd.Packets.{PacketBuffer}

-- `struct cmd`. What the immediate handler returns is a parameter; the deferred one is there or NULL.
pub record Cmd : Type 0 where
  pub opcode : ℕ
  pub immed : Option (List ℕ → ℤ)
  pub has_deffered : Bool

-- `struct cmd_deffered`, with the operand's bytes
pub record Deffered : Type 0 where
  pub cmd : Cmd
  pub operand : List ℕ

-- A call of a handler: immediate or deferred, with the opcode and the operand.
pub data Call : Type 0 where
  immed_call deffered_call : ℕ → List ℕ → Call

abbrev pub enoent : ℤ
enoent = negsuc 1

abbrev pub enomem : ℤ
enomem = negsuc 11

abbrev pub eexist : ℤ
eexist = negsuc 16

module _ (H : HashMap) (P : PacketBuffer Deffered) where
  -- The static variables, with the linker section, and the calls of handlers, earliest first. `sem` is
  -- the count of `cmd_process_sem`.
  pub record Ctx : Type 0 where
    pub section : List Cmd
    pub cmd_map : H.Map
    pub pbuf : P.Buffer
    pub sem : ℕ
    pub calls : List Call

  unfoldable pub cmd_get : Ctx → ℕ → Option Cmd
  cmd_get c opcode = do p ← H.get c.cmd_map opcode; get_elem? c.section p

  -- The words of a packet: a header of two words and the operand, rounded up.
  abbrev pub wlen : List ℕ → ℕ
  wlen operand = (8 + length operand + 3) / 4

  -- `cmd_invoke` behind the immediate handler
  unfoldable pub enqueue : Ctx → Cmd → List ℕ → ℤ × Ctx
  enqueue c cmd operand =
      if P.can_alloc c.pbuf (wlen operand)
      then (
        pos 0,
        record c {
          pbuf = P.commit c.pbuf (record { cmd = cmd; operand = operand });
          sem = suc c.sem;
        },
      )
      else (enomem, c)

  unfoldable pub immed_returned : Ctx → Cmd → List ℕ → ℤ → ℤ × Ctx
  immed_returned c cmd operand ret =
      let c' = record c { calls = c.calls ++ immed_call cmd.opcode operand ∷ [] } in
      if eqb_ℤ ret (pos 0) then enqueue c' cmd operand else (ret, c')

  unfoldable pub invoke_by : Option (List ℕ → ℤ) → Ctx → Cmd → List ℕ → ℤ × Ctx
  invoke_by none c cmd operand = enqueue c cmd operand
  invoke_by (some immed) c cmd operand = immed_returned c cmd operand (immed operand)

  unfoldable pub invoke_found : Option Cmd → Ctx → List ℕ → ℤ × Ctx
  invoke_found none c operand = (enoent, c)
  invoke_found (some cmd) c operand = invoke_by cmd.immed c cmd operand

  unfoldable pub cmd_invoke : Ctx → ℕ → List ℕ → ℤ × Ctx
  cmd_invoke c opcode operand = invoke_found (cmd_get c opcode) c operand

  -- What a turn of `cmd_process_thread` does: it waits for the semaphore, reads a NULL pointer, or has
  -- run.
  pub data Turn : Type 0 where
    blocked null_pointer : Turn
    ran : Ctx → Turn

  -- The turn behind `mpsc_pbuf_claim`
  unfoldable pub process : Ctx → Option (Deffered × P.Buffer) → Turn
  process c none = null_pointer
  process c (some (d, rest)) =
      if d.cmd.has_deffered
      then ran
          (record c { pbuf = rest; calls = c.calls ++ deffered_call d.cmd.opcode d.operand ∷ [] })
      else null_pointer

  unfoldable pub cmd_process : Ctx → Turn
  cmd_process c =
      if c.sem == 0 then blocked else process (record c { sem = c.sem - 1 }) (P.claim c.pbuf)

  -- The body of the loop of `init`; what the map returns on failure is negative.
  unfoldable pub entered : Ctx → Insert × H.Map → ℤ × Ctx
  entered c (added, m) = (pos 0, record c { cmd_map = m })
  entered c (replaced, m) = (eexist, record c { cmd_map = m })
  entered c (failed n, m) = (negsuc (n - 1), record c { cmd_map = m })

  -- An early return ends the loop.
  abbrev pub unless_error : ℤ × Ctx → (Ctx → ℤ × Ctx) → ℤ × Ctx
  unless_error (ret, c) f = if eqb_ℤ ret (pos 0) then f c else (ret, c)

  unfoldable pub init_from : ℕ → List Cmd → Ctx → ℤ × Ctx
  init_from p [] c = (pos 0, c)
  init_from p (cmd ∷ cmds) c =
      unless_error (entered c (H.insert c.cmd_map cmd.opcode p)) (λ c'. init_from (suc p) cmds c')

  unfoldable pub init : Ctx → ℤ × Ctx
  init c = unless_error (init_from 0 c.section c) (λ c'. (pos 0, record c' { pbuf = P.empty }))
