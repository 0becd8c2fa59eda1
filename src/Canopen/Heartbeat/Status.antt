-- ===== src/Canopen/Heartbeat/Status.antt =====
-- subsys/canbus/canopen/hb_consumer.c with subsys/err/err.c: the heartbeat errors follow the states of
-- the nodes.
use nturt_zephyr_common.Base.{
  ℕ, ◌≡◌, refl, ap, ◌∙◌, inl, inr, Bool, Bool-cases, Option-cases, true, false, not, ◌&&◌, ◌||◌,
  Option, none, some, List, [], ◌∷◌, ◌++◌, arith, ◌==◌, if◌then◌else◌, ◌>>=◌, All,
}
use nturt_zephyr_common.Base.HashMap.{HashMap}
use nturt_zephyr_common.Err.{err_get, err_is_set}
use nturt_zephyr_common.Err.Invariant.{IsConsistent, err_report-IsConsistent}
use nturt_zephyr_common.Err.Status.{enabled, err_is_set-err_report}
use nturt_zephyr_common.Err.Enabled.{enabled-err_report, enabled-takes}
use nturt_zephyr_common.Canopen.{node_id_to_err_code, hb_codes}
use nturt_zephyr_common.Canopen.Nodes.{node_id_to_err_code_injective, node_id_to_err_code-hb_codes}
use nturt_zephyr_common.Canopen.Heartbeat.{
  Node, is_skipped, Consumer, report_node, init_nodes, init, mnt_changed_cb, changes,
}

abbrev pub is_known : ℕ → Bool
is_known id = elim (node_id_to_err_code id) [ none ↦ false | some _ ↦ true ]

-- The loop of `init` takes the node.
abbrev pub monitored : List Node → ℕ → Bool
monitored [] id = false
monitored (n ∷ ns) id = (not (is_skipped n) && n.node_id == id) || monitored ns id

-- Whether a node's last change took it out of the operational state, or what held before.
abbrev pub told : ℕ → List (ℕ × ℕ) → ℕ → Option Bool → Option Bool
told operational [] id v = v
told operational ((j, s) ∷ cs) id v =
    told operational cs id (if j == id then some (not (s == operational)) else v)

module _ (H : HashMap) (operational : ℕ) where
  -- The error module is as it should be, and knows and has enabled each heartbeat error.
  pub record IsReady (c : Consumer H operational) : Type 0 where
    pub consistent : IsConsistent H c.errs
    pub all_enabled : All (λ code. enabled (err_get H c.errs code) ≡ true) hb_codes

  -- What a step makes of the heartbeat errors.
  abbrev Sets :
      Consumer H operational → Consumer H operational → (ℕ → Option Bool → Option Bool) → Type 0
  Sets c c' f =
      (j code : ℕ)
      → node_id_to_err_code j ≡ some code
      → err_is_set H c'.errs code ≡ f j (err_is_set H c.errs code)

  report_node_lem :
      (c : Consumer H operational) (id : ℕ) (on : Bool)
      → is_known id ≡ true
      → IsReady c
      → (c' : Consumer H operational) × (report_node H operational c id on ≡ some c')
        × (c'.has_callback ≡ c.has_callback)
        × IsReady c'
        × Sets c c' (λ j v. if id == j then some on else v)
  unfolding report_node
  report_node_lem c id on known v = elim (Option-cases (node_id_to_err_code id)) [
    | inl missing ↦ absurd (ground (arith, missing))
    | inr (code, found) ↦
        let on_code : enabled (err_get H c.errs code) ≡ true =
          node_id_to_err_code-hb_codes (λ k. enabled (err_get H c.errs k) ≡ true) id code found
            v.all_enabled in
        let ((errs', evs), did) = enabled-takes H c.errs code on on_code in
        let keeps : (k : ℕ) → enabled (err_get H errs' k) ≡ enabled (err_get H c.errs k) =
          enabled-err_report H c.errs code on did in
        (
          record c { errs = errs'; events = c.events ++ evs },
          rw (found, did) refl,
          refl,
          record {
            consistent = err_report-IsConsistent H c.errs code on did v.consistent;
            all_enabled = simp keeps v.all_enabled;
          },
          λ j k e.
              err_is_set-err_report H c.errs code on v.consistent did k
              ∙ rw on_code (same_code id code j k on _ found e),
        )
  ]
    where
      same_code :
          (id code j k : ℕ) (on : Bool) (v : Option Bool)
          → node_id_to_err_code id ≡ some code
          → node_id_to_err_code j ≡ some k
          → (if (k == code) && true then some on else v) ≡ (if id == j then some on else v)
      same_code id code j k on v found e = elim (Bool-cases (k == code)) [
        | inl same ↦ ground (arith, same, found, e, node_id_to_err_code_injective id j code)
        | inr other ↦ ground (arith, other, found, e)
      ]

  -- The nodes that the loop of `init` does not pass over are known.
  abbrev pub AllKnown : List Node → Type 0
  AllKnown = All (λ n. is_skipped n ≡ false → is_known n.node_id ≡ true)

  init_nodes_lem :
      (c : Consumer H operational) (nodes : List Node)
      → AllKnown nodes
      → IsReady c
      → (c' : Consumer H operational) × (init_nodes H operational c nodes ≡ some c')
        × IsReady c'
        × Sets c c' (λ j v. if monitored nodes j then some true else v)
  unfolding init_nodes
  init_nodes_lem c [] known v = (c, refl, v, λ j code e. refl)
  init_nodes_lem c (n ∷ ns) known v = elim (Bool-cases (is_skipped n)) [
    | inl skipped ↦
        let (c', did, v', sets) = init_nodes_lem c ns known.1 v in
        (c', rw skipped did, v', λ j code e. rw skipped (sets j code e))
    | inr taken ↦
        let (d, did, _, w, sets) = report_node_lem c n.node_id true (known.0 taken) v in
        let (c', rest, v', sets') = init_nodes_lem d ns known.1 w in
        (
          c',
          rw (taken, did) rest,
          v',
          λ j code e.
              sets' j code e
              ∙ rw (sets j code e, taken)
                  (either (monitored ns j) (n.node_id == j) (err_is_set H c.errs code)),
        )
  ]
    where
      either :
          (m b : Bool) (v : Option Bool)
          → (if m then some true else if b then some true else v)
            ≡ (if b || m then some true else v)
      either m b v = ground arith

  changes-cons :
      (c d : Consumer H operational) (id s : ℕ) (cs : List (ℕ × ℕ))
      → c.has_callback ≡ true
      → report_node H operational c id (not (s == operational)) ≡ some d
      → changes H operational c ((id, s) ∷ cs) ≡ changes H operational d cs
  unfolding changes mnt_changed_cb
  changes-cons c d id s cs has did =
      ap
        (λ b.
          (if b then report_node H operational c id (not (s == operational)) else some c) >>= λ c'.
          changes H operational c' cs)
        has
      ∙ ap (λ o. o >>= λ c'. changes H operational c' cs) did

  changes_lem :
      (c : Consumer H operational) (cs : List (ℕ × ℕ))
      → c.has_callback ≡ true
      → All (λ p. is_known p.0 ≡ true) cs
      → IsReady c
      → (c' : Consumer H operational) × (changes H operational c cs ≡ some c')
        × Sets c c' (told operational cs)
  unfolding changes
  changes_lem c [] has known v = (c, refl, λ j code e. refl)
  changes_lem c ((id, s) ∷ cs) has known v =
      let (d, did, same, w, sets) = report_node_lem c id (not (s == operational)) known.0 v in
      let (c', rest, sets') = changes_lem d cs (same ∙ has) known.1 w in
      (
        c',
        changes-cons c d id s cs has did ∙ rest,
        λ j code e. sets' j code e ∙ ap (told operational cs j) (sets j code e),
      )

  -- Where the error module is consistent and has each heartbeat error enabled, `init` over known nodes
  -- and any changes of known nodes go through, and afterwards the error of a node is set as its last
  -- change asks: unless that was to the operational state. A node without a change has its error set if
  -- `init` monitors it, and keeps it as it was if not.
  pub changes-err_is_set :
      (c : Consumer H operational) (nodes : List Node) (cs : List (ℕ × ℕ))
      → IsReady c
      → AllKnown nodes
      → All (λ p. is_known p.0 ≡ true) cs
      → (c' : Consumer H operational) × ((init H operational c nodes >>= λ d.
            changes H operational d cs)
          ≡ some c')
        × ((j code : ℕ)
            → node_id_to_err_code j ≡ some code
            → err_is_set H c'.errs code
              ≡ told operational cs j
                  (if monitored nodes j then some true else err_is_set H c.errs code))
  unfolding init
  changes-err_is_set c nodes cs v known_nodes known =
      let (d, did, w, sets) = init_nodes_lem c nodes known_nodes v in
      let d' : Consumer H operational = record d { has_callback = true } in
      let (c', rest, sets') =
        changes_lem d' cs refl known
          (record { consistent = w.consistent; all_enabled = w.all_enabled }) in
      (c', rw did rest, λ j code e. sets' j code e ∙ ap (told operational cs j) (sets j code e))
