-- ===== src/Canopen/Emcy.antt =====
-- subsys/canbus/canopen/emcy.c: emergency objects in, the errors of this node out.
pub mod Scan
pub mod Work
pub mod StatusBits
use nturt_zephyr_common.Base.{
  ℕ, zero, suc, ◌+◌, ◌-◌, ◌*◌, ◌/◌, Bool, true, false, not, ◌&&◌, ◌||◌, Option, none, some, List,
  [], ◌∷◌, ltb, leb, ◌==◌, if◌then◌else◌, get_elem?, test_bit, clear_bit, ◌>>=◌,
}
use nturt_zephyr_common.Base.HashMap.{HashMap}
use nturt_zephyr_common.Err.Events.{Err, Event}
use nturt_zephyr_common.Err.{Ctx, err_report}
use nturt_zephyr_common.Canopen.{err_code_canbus}

-- What the code takes from CANopenNode and from the CPU: the constants CO_EMC_NO_ERROR,
-- CO_EM_CAN_BUS_WARNING, CO_EM_HEARTBEAT_CONSUMER, CO_EM_HB_CONSUMER_REMOTE_RESET,
-- CO_EM_MANUFACTURER_START, CO_EM_MANUFACTURER_END, and `find_lsb_set`.
pub record Stack : Type 0 where
  pub no_error : ℕ
  pub can_bus_warning : ℕ
  pub heartbeat_consumer : ℕ
  pub hb_consumer_remote_reset : ℕ
  pub manufacturer_start : ℕ
  pub manufacturer_end : ℕ
  pub find_lsb_set : ℕ → ℕ

-- `struct canopen_emcy_ctx` without the work; its field `set` is never used.
pub record Frame : Type 0 where
  pub ident : ℕ
  pub error_code : ℕ
  pub error_register : ℕ
  pub error_bit : ℕ
  pub info_code : ℕ

-- `g_ctx`, with whether its work is pending, which it is from its submission until it has run.
pub record Emcy : Type 0 where
  pub ctx : Frame
  pub is_pending : Bool

unfoldable pub emcy_cb : Emcy → Frame → Emcy
emcy_cb g frame = if g.is_pending then g else record { ctx = frame; is_pending = true }

module _ (stack : Stack) where
  -- The bits of this node that do not count as an error of the bus.
  abbrev pub is_counted : ℕ → Bool
  is_counted bit =
      not (bit == stack.heartbeat_consumer) && not (bit == stack.hb_consumer_remote_reset)

  -- The inner loop over the bits of a byte, with the byte's number `i`. `none` stands for more rounds
  -- than the fuel counts.
  unfoldable pub scan_byte : ℕ → ℕ → ℕ → Bool → Option Bool
  scan_byte zero i byte is_set = none
  scan_byte (suc fuel) i byte is_set =
      let bit = stack.find_lsb_set byte - 1 in
      let rest =
        scan_byte fuel i (clear_bit byte bit) (if is_counted (i * 8 + bit) then true else is_set) in
      if byte == 0 then some is_set else rest

  -- The outer loop, with `n` bytes to go. A byte is below 256, so 256 rounds are enough.
  unfoldable pub scan_from : ℕ → ℕ → List ℕ → Bool → Option Bool
  unfolding scan_byte
  scan_from i zero bytes is_set = some is_set
  scan_from i (suc n) bytes is_set = do
    byte ← get_elem? bytes i
    is_set' ← scan_byte 256 i byte is_set
    scan_from (suc i) n bytes is_set'

  -- `bytes` is CO->em->errorStatusBits.
  unfoldable pub scan : List ℕ → Option Bool
  unfolding scan_from
  scan bytes = scan_from 0 (stack.manufacturer_start / 8) bytes false

  -- The objects that other modules handle.
  unfoldable pub is_filtered : ℕ → Bool
  is_filtered bit =
      bit == stack.can_bus_warning
      || bit == stack.heartbeat_consumer
      || bit == stack.hb_consumer_remote_reset
      || leb stack.manufacturer_start bit

  module _ (H : HashMap) where
    -- `emcy_work` for the object in `g_ctx`.
    unfoldable pub emcy_work : Emcy → List ℕ → Ctx H → Option (Ctx H × List Event)
    unfolding scan is_filtered
    emcy_work g bytes errs =
        if g.ctx.ident == 0
        then (if is_filtered g.ctx.error_bit
            then some (errs, [])
            else (scan bytes >>= λ status_bit_set.
                err_report H errs err_code_canbus status_bit_set))
        else some (errs, [])

    -- What happens to the module: an object that comes in, and a run of the work, at which the status
    -- bits of this node are as listed.
    pub data Step : Type 0 where
      received : Frame → Step
      worked : List ℕ → Step

    unfoldable pub step : Emcy × Ctx H → Step → Option (Emcy × Ctx H)
    unfolding emcy_cb emcy_work
    step (g, errs) (received frame) = some (emcy_cb g frame, errs)
    step (g, errs) (worked bytes) =
        if g.is_pending
        then (emcy_work g bytes errs >>= λ r. some (record g { is_pending = false }, r.0))
        else some (g, errs)

    unfoldable pub steps : Emcy × Ctx H → List Step → Option (Emcy × Ctx H)
    unfolding step
    steps s [] = some s
    steps s (e ∷ es) = do s' ← step s e; steps s' es

-- The call of CO_error that `err_cb` makes: whether the error is set, its status bit, and its code.
pub record CoError : Type 0 where
  pub on : Bool
  pub status_bit : ℕ
  pub info : ℕ

module _ (stack : Stack) (H : HashMap) where
  -- The loop of `init` over the section of the errors. A failed assertion is `none`; what
  -- `sys_hashmap_insert` returns is not looked at.
  unfoldable pub init_from : H.Map → ℕ → List Err → Option H.Map
  init_from m status_bit [] = some m
  init_from m status_bit (e ∷ es) =
      let rest = init_from (H.insert m e.errcode status_bit).1 (suc status_bit) es in
      if leb status_bit stack.manufacturer_end then rest else none

  unfoldable pub init : List Err → Option H.Map
  unfolding init_from
  init section = init_from H.empty stack.manufacturer_start section

  -- `none` where the map has no bit for the code, and `status_bit` would be read unset.
  unfoldable pub err_cb : H.Map → ℕ → Bool → Option CoError
  err_cb m errcode on = do
    status_bit ← H.get m errcode
    some (record { on = on; status_bit = status_bit; info = errcode })
