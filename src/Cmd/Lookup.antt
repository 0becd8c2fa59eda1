-- ===== src/Cmd/Lookup.antt =====
-- subsys/cmd/cmd.c: `init` makes each command of the linker section found under its opcode.
use nturt_zephyr_common.Base.{
  ℕ, zero, suc, ◌≡◌, ◌↔◌, inl, inr, refl, sym, ap, ◌∙◌, Option, Option-cases, none, some, List, [],
  ◌∷◌, map, arith, get_elem?, ◌>>=◌,
}
use nturt_zephyr_common.Base.Int.{pos}
use nturt_zephyr_common.Base.HashMap.{HashMap, Insert, added, replaced, failed}
use nturt_zephyr_common.Base.HashMap.Index.{insert_all, if_added, insert_all-get, insert_all-key}
use mathlib.Core.Option.{some-injective}
use nturt_zephyr_common.Cmd.Packets.{PacketBuffer}
use nturt_zephyr_common.Cmd.{Cmd, Deffered, Ctx, unless_error, cmd_get, entered, init_from, init}

none_of : {A : Type 0} {o : Option A} {a : A} → o ≡ none → o ≡ some a → ⊥
none_of p q = absurd (cc)

module _ (H : HashMap) (P : PacketBuffer Deffered) where
  -- A loop that ends with 0 has entered every opcode as a new key.
  init_from-inserts :
      (cmds : List Cmd) (p : ℕ) (c : Ctx H P)
      → (init_from H P p cmds c).0 ≡ pos 0
      → (insert_all H c.cmd_map p (map (λ (cmd : Cmd). cmd.opcode) cmds)
          ≡ some (init_from H P p cmds c).1.cmd_map)
        × ((init_from H P p cmds c).1.section ≡ c.section)
  unfolding init_from insert_all entered
  init_from-inserts [] p c h = (refl, refl)
  init_from-inserts (cmd ∷ cmds) p c h =
      go (H.insert c.cmd_map cmd.opcode p)
        (λ m. init_from-inserts cmds (suc p) (record c { cmd_map = m })) h
    where
      keys : List ℕ
      keys = map (λ (cmd : Cmd). cmd.opcode) cmds

      go :
          (r : Insert × H.Map)
          → ((m : H.Map)
              → (init_from H P (suc p) cmds (record c { cmd_map = m })).0 ≡ pos 0
              → (insert_all H m (suc p) keys
                  ≡ some (init_from H P (suc p) cmds (record c { cmd_map = m })).1.cmd_map)
                × ((init_from H P (suc p) cmds (record c { cmd_map = m })).1.section ≡ c.section))
          → (unless_error H P (entered H P c r) (λ c'. init_from H P (suc p) cmds c')).0 ≡ pos 0
          → (if_added r (λ m. insert_all H m (suc p) keys)
              ≡ some
                  (unless_error H P
                    (entered H P c r)
                    (λ c'. init_from H P (suc p) cmds c')).1.cmd_map)
            × ((unless_error H P (entered H P c r) (λ c'. init_from H P (suc p) cmds c')).1.section
                ≡ c.section)
      go (added, m) f h = f m h
      go (replaced, m) f h = ground (arith, h)
      go (failed n, m) f h = ground (arith, h)

  init_lem :
      (c : Ctx H P)
      → (init H P c).0 ≡ pos 0
      → ((init_from H P 0 c.section c).0 ≡ pos 0)
        × ((init H P c).1.cmd_map ≡ (init_from H P 0 c.section c).1.cmd_map)
        × ((init H P c).1.section ≡ (init_from H P 0 c.section c).1.section)
  unfolding init
  init_lem c h = ground (arith, h)

  get_elem?-opcodes :
      (cmds : List Cmd) (i k : ℕ)
      → get_elem? (map (λ (cmd : Cmd). cmd.opcode) cmds) i ≡ some k
      → (cmd : Cmd) × (get_elem? cmds i ≡ some cmd) × (cmd.opcode ≡ k)
  get_elem?-opcodes [] i k h = absurd (cc)
  get_elem?-opcodes (cmd ∷ cmds) zero k h = (cmd, refl, ground (arith, h))
  get_elem?-opcodes (cmd ∷ cmds) (suc i) k h = get_elem?-opcodes cmds i k h

  get_elem?-command :
      (cmds : List Cmd) (i : ℕ) (cmd : Cmd)
      → get_elem? cmds i ≡ some cmd
      → get_elem? (map (λ (cmd : Cmd). cmd.opcode) cmds) i ≡ some cmd.opcode
  get_elem?-command [] i cmd h = absurd (cc)
  get_elem?-command (x ∷ xs) zero cmd h = ground (arith, h)
  get_elem?-command (x ∷ xs) (suc i) cmd h = get_elem?-command xs i cmd h

  -- After a successful `init` of an empty map, every command of the section is found under its opcode,
  -- and what is found under an opcode is a command of the section with that opcode.
  pub init-cmd_get :
      (c : Ctx H P) (opcode : ℕ) (cmd : Cmd)
      → c.cmd_map ≡ H.empty
      → (init H P c).0 ≡ pos 0
      → (cmd_get H P (init H P c).1 opcode ≡ some cmd)
        ↔ ((cmd.opcode ≡ opcode) × ((i : ℕ) × (get_elem? c.section i ≡ some cmd)))
  unfolding cmd_get
  init-cmd_get c opcode cmd empty h =
      let (ok, map', section') = init_lem c h in
      let (all, same) = init_from-inserts c.section 0 c ok in
      let m = (init_from H P 0 c.section c).1.cmd_map in
      let (fwd, bwd) = found m all in rw (map', section', same) (fwd, bwd)
    where
      found :
          (m : H.Map)
          → insert_all H c.cmd_map 0 (map (λ (cmd : Cmd). cmd.opcode) c.section) ≡ some m
          → ((do p ← H.get m opcode; get_elem? c.section p) ≡ some cmd)
            ↔ ((cmd.opcode ≡ opcode) × ((i : ℕ) × (get_elem? c.section i ≡ some cmd)))
      found m all = (
        λ e. elim (Option-cases (H.get m opcode)) [
          | inl n ↦ absurd (cc)
          | inr (p, g) ↦ at p g (rw g at e)
        ],
        λ (q, (i, e)). by_opcode i q e,
      )
        where
          by_opcode :
              (i : ℕ)
              → cmd.opcode ≡ opcode
              → get_elem? c.section i ≡ some cmd
              → (do p ← H.get m opcode; get_elem? c.section p) ≡ some cmd
          by_opcode i q e =
              ap (λ k. do p ← H.get m k; get_elem? c.section p) (sym q)
              ∙ ap (λ (o : Option ℕ). do p ← o; get_elem? c.section p)
                  (insert_all-get H c.cmd_map 0 _ i cmd.opcode all
                      (get_elem?-command c.section i cmd e)
                    ∙ ap some (omega arith))
              ∙ e

          at :
              (p : ℕ)
              → H.get m opcode ≡ some p
              → get_elem? c.section p ≡ some cmd
              → (cmd.opcode ≡ opcode) × ((i : ℕ) × (get_elem? c.section i ≡ some cmd))
          at p g e = elim (insert_all-key H c.cmd_map 0 _ opcode p all g) [
            | inl was ↦ absurd (none_of (ap (λ x. H.get x opcode) empty ∙ H.get-empty opcode) was)
            | inr (i, q, k) ↦
                let (cmd', here, o) = get_elem?-opcodes c.section i opcode k in
                let same : cmd ≡ cmd' =
                  some-injective _ _ (sym e ∙ ap (get_elem? c.section) (omega (arith, q)) ∙ here) in
                (ap (λ (x : Cmd). x.opcode) same ∙ o, (p, e))
          ]
