-- ===== src/Canopen.antt =====
-- subsys/canbus/canopen and include/nturt/canbus/canopen.h: node ids and the error codes of the
-- CANopen modules. What the repository takes from CANopenNode is a parameter.
pub mod Nodes
pub mod Heartbeat
pub mod Emcy
mod Tests
use nturt_zephyr_common.Base.{ℕ, Option, none, some, ◌==◌, if◌then◌else◌, List, [], ◌∷◌}

-- `enum canopen_node_id`
abbrev pub node_id_vcu : ℕ
node_id_vcu = 1

abbrev pub node_id_sensors : ℕ
node_id_sensors = 2

abbrev pub node_id_rpi : ℕ
node_id_rpi = 4

abbrev pub node_id_imu : ℕ
node_id_imu = 8

abbrev pub node_id_gps : ℕ
node_id_gps = 9

abbrev pub node_id_acc : ℕ
node_id_acc = 16

abbrev pub node_id_inv_fl : ℕ
node_id_inv_fl = 17

abbrev pub node_id_inv_fr : ℕ
node_id_inv_fr = 18

abbrev pub node_id_inv_rl : ℕ
node_id_inv_rl = 19

abbrev pub node_id_inv_rr : ℕ
node_id_inv_rr = 20

-- `enum err_code`, as far as the CANopen modules report it
abbrev pub err_code_canbus : ℕ
err_code_canbus = 19

abbrev pub err_code_hb_vcu : ℕ
err_code_hb_vcu = 20

abbrev pub err_code_hb_sensors : ℕ
err_code_hb_sensors = 21

abbrev pub err_code_hb_rpi : ℕ
err_code_hb_rpi = 22

abbrev pub err_code_hb_imu : ℕ
err_code_hb_imu = 23

abbrev pub err_code_hb_gps : ℕ
err_code_hb_gps = 24

abbrev pub err_code_hb_acc : ℕ
err_code_hb_acc = 25

abbrev pub err_code_hb_inv_fl : ℕ
err_code_hb_inv_fl = 26

abbrev pub err_code_hb_inv_fr : ℕ
err_code_hb_inv_fr = 27

abbrev pub err_code_hb_inv_rl : ℕ
err_code_hb_inv_rl = 28

abbrev pub err_code_hb_inv_rr : ℕ
err_code_hb_inv_rr = 29

-- The `switch` of `node_id_to_err_code`; the default case is a failed assertion.
unfoldable pub node_id_to_err_code : ℕ → Option ℕ
node_id_to_err_code id =
    if id == node_id_vcu
    then some err_code_hb_vcu
    else if id == node_id_sensors
    then some err_code_hb_sensors
    else if id == node_id_rpi
    then some err_code_hb_rpi
    else if id == node_id_imu
    then some err_code_hb_imu
    else if id == node_id_gps
    then some err_code_hb_gps
    else if id == node_id_acc
    then some err_code_hb_acc
    else if id == node_id_inv_fl
    then some err_code_hb_inv_fl
    else if id == node_id_inv_fr
    then some err_code_hb_inv_fr
    else if id == node_id_inv_rl
    then some err_code_hb_inv_rl
    else if id == node_id_inv_rr
    then some err_code_hb_inv_rr
    else none

-- The errors that the heartbeat consumer defines with ERR_DEFINE, by their codes.
abbrev pub hb_codes : List ℕ
hb_codes =
    err_code_hb_vcu ∷ err_code_hb_sensors ∷ err_code_hb_rpi ∷ err_code_hb_imu ∷ err_code_hb_gps
    ∷ err_code_hb_acc ∷ err_code_hb_inv_fl ∷ err_code_hb_inv_fr ∷ err_code_hb_inv_rl
    ∷ err_code_hb_inv_rr ∷ []
