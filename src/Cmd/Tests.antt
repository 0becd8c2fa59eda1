-- ===== src/Cmd/Tests.antt =====
-- subsys/cmd/cmd.c: runs and instances of the theorems.
use nturt_zephyr_common.Base.{
  zero, suc, All, ap, sym, ℕ, ◌≡◌, refl, true, false, none, some, List, [], ◌∷◌, ◌++◌, get_elem?,
}
use mathlib.Core.Option.{some-injective}
use nturt_zephyr_common.Base.Int.{ℤ, pos, negsuc}
use nturt_zephyr_common.Base.HashMap.Assoc.{assoc, find, put}
use nturt_zephyr_common.Cmd.Packets.{PacketBuffer, list_buffer}
use nturt_zephyr_common.Cmd.{
  Cmd, Deffered, immed_call, deffered_call, Ctx, cmd_get, enqueue, immed_returned, invoke_by,
  invoke_found, cmd_invoke, null_pointer, process, cmd_process, entered, init_from, init,
}
use nturt_zephyr_common.Cmd.Queue.{CmdEvent, invoke, turn, after, happens, IsReady, all_calls}
use nturt_zephyr_common.Cmd.Turns.{run, asked, run-calls, cmd_invoke-null_pointer}
use nturt_zephyr_common.Cmd.Lookup.{init-cmd_get}

-- A command with both handlers, which refuses an empty operand, and one without handlers.
abbrev refuse : List ℕ → ℤ
refuse [] = negsuc 21
refuse (x ∷ xs) = pos 0

abbrev both : Cmd
both = record { opcode = 16; immed = some refuse; has_deffered = true }

abbrev bare : Cmd
bare = record { opcode = 32; immed = none; has_deffered = false }

abbrev buffer : PacketBuffer Deffered
buffer = list_buffer Deffered 2

abbrev blank : List Cmd → Ctx assoc buffer
blank section = record {
  section = section;
  cmd_map = assoc.empty;
  pbuf = buffer.empty;
  sem = 0;
  calls = [];
}

abbrev started : Ctx assoc buffer
started = (init assoc buffer (blank (both ∷ []))).1

abbrev events : List CmdEvent
events =
    invoke 16 (1 ∷ [])
    ∷ invoke 16 (2 ∷ [])
    ∷ invoke 16 []
    ∷ invoke 16 (3 ∷ [])
    ∷ turn
    ∷ turn
    ∷ turn
    ∷ []

-- Two commands are queued; a third one is refused by its handler, and a fourth finds the buffer full.
run_lem :
    run assoc buffer started events
    ≡ some (record started {
      calls =
          immed_call 16 (1 ∷ [])
          ∷ immed_call 16 (2 ∷ [])
          ∷ immed_call 16 []
          ∷ immed_call 16 (3 ∷ [])
          ∷ deffered_call 16 (1 ∷ [])
          ∷ deffered_call 16 (2 ∷ [])
          ∷ [];
    })
unfolding run happens after cmd_invoke invoke_found invoke_by immed_returned enqueue cmd_process
    process cmd_get find put init init_from entered
run_lem = refl

init_ok : (init assoc buffer (blank (both ∷ []))).0 ≡ pos 0
unfolding init init_from entered put find
init_ok = refl

fresh :
    (started.sem ≡ 0)
    × All (λ (d : Deffered). d.cmd.has_deffered ≡ true) (buffer.pending started.pbuf)
unfolding init init_from entered put find
fresh = (refl, tt)

started-IsReady : IsReady assoc buffer started
unfolding init init_from entered put
started-IsReady = record {
  counted = fresh.0;
  indexed = λ opcode cmd e.
      ((init-cmd_get assoc buffer (blank (both ∷ [])) opcode cmd refl init_ok).0 e).0;
  handled = λ opcode cmd e.
      let (_, (i, at)) =
        (init-cmd_get assoc buffer (blank (both ∷ [])) opcode cmd refl init_ok).0 e in
      with_handler i at;
  pending_handled = fresh.1;
}
  where
    with_handler :
        (i : ℕ) {cmd : Cmd} → get_elem? (both ∷ []) i ≡ some cmd → cmd.has_deffered ≡ true
    with_handler zero h = ap (λ (c : Cmd). c.has_deffered) (sym (some-injective _ _ h))
    with_handler (suc i) h = absurd (cc)

run-calls_example :
    (c : Ctx assoc buffer) × (run assoc buffer started events ≡ some c)
    × IsReady assoc buffer c
    × (all_calls assoc buffer c
        ≡ all_calls assoc buffer started ++ asked assoc buffer started events)
run-calls_example = run-calls assoc buffer events started started-IsReady

-- The command without a deferred handler
abbrev started_bare : Ctx assoc buffer
started_bare = (init assoc buffer (blank (bare ∷ []))).1

bare_found :
    (cmd_get assoc buffer started_bare 32 ≡ some bare)
    × (started_bare.sem ≡ 0)
    × (buffer.pending started_bare.pbuf ≡ [])
    × ((cmd_invoke assoc buffer started_bare 32 []).0 ≡ pos 0)
unfolding cmd_get init init_from entered put find cmd_invoke invoke_found invoke_by enqueue
bare_found = (refl, refl, refl, refl)

cmd_invoke-null_pointer_example :
    cmd_process assoc buffer (cmd_invoke assoc buffer started_bare 32 []).1 ≡ null_pointer
cmd_invoke-null_pointer_example =
    cmd_invoke-null_pointer assoc buffer started_bare 32 bare [] bare_found.1 bare_found.2
      bare_found.0 refl bare_found.3
