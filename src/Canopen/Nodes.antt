-- ===== src/Canopen/Nodes.antt =====
-- subsys/canbus/canopen/hb_consumer.c: which error belongs to which node.
use nturt_zephyr_common.Base.{ℕ, ◌≡◌, some, arith, All}
use nturt_zephyr_common.Canopen.{node_id_to_err_code, hb_codes}

-- No two nodes share a code.
pub node_id_to_err_code_injective :
    (i j code : ℕ) → node_id_to_err_code i ≡ some code → node_id_to_err_code j ≡ some code → i ≡ j
unfolding node_id_to_err_code
node_id_to_err_code_injective i j code hi hj = ground arith

pub node_id_to_err_code-hb_codes {κ} :
    (P : ℕ → Type κ) (id code : ℕ) → node_id_to_err_code id ≡ some code → All P hb_codes → P code
unfolding node_id_to_err_code
node_id_to_err_code-hb_codes P id code h all = ground arith
