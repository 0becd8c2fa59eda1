-- ===== src/Canopen/Heartbeat.antt =====
-- subsys/canbus/canopen/hb_consumer.c: heartbeat errors of the monitored nodes.
pub mod Status
use nturt_zephyr_common.Base.{
  ℕ, Bool, true, false, not, ◌||◌, Option, none, some, List, [], ◌∷◌, ◌++◌, ltb, ◌==◌,
  if◌then◌else◌, ◌>>=◌,
}
use nturt_zephyr_common.Base.HashMap.{HashMap}
use nturt_zephyr_common.Err.Events.{Event}
use nturt_zephyr_common.Err.{Ctx, err_report}
use nturt_zephyr_common.Canopen.{node_id_to_err_code}

-- `CO_HBconsNode_t` of CANopenNode, the two fields that are read.
pub record Node : Type 0 where
  pub node_id : ℕ
  pub time_us : ℕ

-- The nodes that the loop of `init` passes over.
unfoldable pub is_skipped : Node → Bool
is_skipped n = n.time_us == 0 || n.node_id == 0 || ltb 127 n.node_id

module _ (H : HashMap) (operational : ℕ) where
  -- The error context, what was told to the handlers and the log, and whether CANopenNode has the
  -- callback.
  pub record Consumer : Type 0 where
    pub errs : Ctx H
    pub events : List Event
    pub has_callback : Bool

  -- err_report(node_id_to_err_code(id), on)
  unfoldable pub report_node : Consumer → ℕ → Bool → Option Consumer
  report_node c id on = do
    code ← node_id_to_err_code id
    (errs', evs) ← err_report H c.errs code on
    some (record c { errs = errs'; events = c.events ++ evs })

  -- The loop of `init`.
  unfoldable pub init_nodes : Consumer → List Node → Option Consumer
  unfolding report_node is_skipped
  init_nodes c [] = some c
  init_nodes c (n ∷ ns) =
      if is_skipped n
      then init_nodes c ns
      else (report_node c n.node_id true >>= λ c'. init_nodes c' ns)

  unfoldable pub init : Consumer → List Node → Option Consumer
  unfolding init_nodes
  init c nodes = do c' ← init_nodes c nodes; some (record c' { has_callback = true })

  -- `operational` is CO_NMT_OPERATIONAL.
  unfoldable pub mnt_changed_cb : Consumer → ℕ → ℕ → Option Consumer
  unfolding report_node
  mnt_changed_cb c nodeid nmt_state = report_node c nodeid (not (nmt_state == operational))

  -- The changes of states that CANopenNode finds, one after the other: a node and its new state.
  unfoldable pub changes : Consumer → List (ℕ × ℕ) → Option Consumer
  unfolding mnt_changed_cb
  changes c [] = some c
  changes c ((nodeid, nmt_state) ∷ cs) = do
    c' ← if c.has_callback then mnt_changed_cb c nodeid nmt_state else some c
    changes c' cs
