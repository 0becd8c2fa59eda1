-- ===== src/Logging/Steps.antt =====
-- subsys/msg/logging.c: what happens to the logger, one call after the other.
use nturt_zephyr_common.Base.{
  ℕ, Bool, true, false, Option, some, List, [], ◌∷◌, ◌==◌, if◌then◌else◌, ◌>>=◌, not, ◌&&◌,
}
use nturt_zephyr_common.Base.Int.{ℤ, is_neg}
use nturt_zephyr_common.Logging.Packets.{OverwritingBuffer}
use nturt_zephyr_common.Logging.{
  Packet, Outside, open_append, open_create, close, World, Logger, msg_chan_logging_start,
  msg_chan_logging_stop, msg_cb, logging_work, msg_logging_sync_work,
}

-- A thread starts or stops to log a channel, a message of a channel is published, the work queue runs
-- `logging_work`, or the work that syncs the file of a channel.
pub data Step : Type 0 where
  start : ℕ → ℕ → List ℕ → Step
  stop : ℕ → ℕ → Step
  published : ℕ → List ℕ → Step
  worked : Step
  synced : ℕ → Step

module _ (P : OverwritingBuffer Packet) (w : World) where
  -- `none` if the step cannot be done: its thread waits for the lock.
  unfoldable pub step : Logger P w → Step → Option (Logger P w)
  step l (start thread chan file) = do
    (ret, l') ← msg_chan_logging_start P w thread chan file l
    some l'
  step l (stop thread chan) = do (ret, l') ← msg_chan_logging_stop P w thread chan l; some l'
  step l (published chan msg) =
      some (if (l.chans chan).is_observed then msg_cb P w chan msg l else l)
  step l worked = some (if l.is_work_pending then logging_work P w l else l)
  step l (synced chan) =
      some (if (l.chans chan).is_sync_scheduled then msg_logging_sync_work P w chan l else l)

  unfoldable pub steps : Logger P w → List Step → Option (Logger P w)
  unfolding step
  steps l [] = some l
  steps l (e ∷ es) = do l' ← step l e; steps l' es

-- Whether the file of a channel is open, after the calls.
abbrev pub is_open : List (Outside × ℤ) → ℕ → Bool
is_open [] chan = false
is_open ((open_append k file, ret) ∷ cs) chan =
    if k == chan && not (is_neg ret) then true else is_open cs chan
is_open ((open_create k file, ret) ∷ cs) chan =
    if k == chan && not (is_neg ret) then true else is_open cs chan
is_open ((close k, ret) ∷ cs) chan = if k == chan then false else is_open cs chan
is_open ((_, ret) ∷ cs) chan = is_open cs chan
