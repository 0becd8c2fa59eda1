-- ===== src/Logging/Tests.antt =====
-- Runs of the logger with a buffer of eight packets, and instances of the theorems.
use nturt_zephyr_common.Base.{
  ℕ, ◌≡◌, ap, refl, Bool, true, false, Option, none, some, List, [], ◌∷◌, ◌++◌, arith, get_or,
}
use nturt_zephyr_common.Base.Int.{ℤ, pos}
use nturt_zephyr_common.Logging.Packets.{list_buffer, drop_full-room, OverwritingBuffer}
use nturt_zephyr_common.Logging.{
  Packet, World, Channel, Logger, Outside, open_append, open_create, mkdir_p, write, sync, add_obs,
  k_mutex_lock, k_mutex_unlock, dirname, call, out, observe, create, opened, start_locked, locked,
  msg_chan_logging_start, stop_with, stop_allocated, stop_locked, msg_chan_logging_stop, commit,
  msg_cb, handle, claimed, logging_work, enoent,
}
use nturt_zephyr_common.Logging.Steps.{Step, stop, published, worked, step, steps}
use nturt_zephyr_common.Logging.Start.{IsStarted, msg_chan_logging_start-IsStarted}
use nturt_zephyr_common.Logging.Stop.{stop-waits_forever}
use nturt_zephyr_common.Logging.Written.{written}
use nturt_zephyr_common.Logging.Rows.{IsReliable, HasRoom, taken_all}
use nturt_zephyr_common.Logging.Fifo.{works, steps-written}

abbrev eight : OverwritingBuffer Packet
eight = list_buffer Packet 8

-- All calls succeed, or a file is not there until it is created. Thread 9 is the work queue's.
abbrev plain : World
plain = record {
  returns = λ cs o. pos 0;
  csv_header = λ c. 104 ∷ [];
  csv_row = λ c msg. get_or msg 0 0 ∷ [];
  msg_size = λ c. 4;
  work_thread = 9;
}

abbrev empty_answers : List (Outside × ℤ) → Outside → ℤ
empty_answers cs (open_append c file) = enoent
empty_answers cs _ = pos 0

abbrev fresh : World
fresh = record plain { returns = empty_answers }

abbrev channel : Bool → Channel
channel on = record {
  lock = record { owner = 0; lock_count = 0 };
  is_logging = on;
  is_observed = on;
  is_sync_scheduled = false;
}

-- Every channel is logged, or none.
abbrev logger : (w : World) → Bool → Logger eight w
logger w on = record {
  chans = λ k. channel on;
  mpsc_pbuf = [];
  is_work_pending = false;
  calls = [];
}

abbrev path : List ℕ
path = 47 ∷ 97 ∷ 47 ∷ 98 ∷ []

abbrev state_of : {w : World} → Logger eight w → Option (ℤ × Logger eight w) → Logger eight w
state_of l none = l
state_of l (some (ret, l')) = l'

abbrev calls_of : {w : World} → Option (ℤ × Logger eight w) → List (Outside × ℤ)
calls_of none = []
calls_of (some (ret, l')) = l'.calls

-- A new file gets its directory and its header.
created_run :
    calls_of (msg_chan_logging_start eight fresh 1 3 path (logger fresh false))
    ≡ (add_obs 3, pos 0)
      ∷ (sync 3, pos 0)
      ∷ (write 3 (104 ∷ []), pos 0)
      ∷ (open_create 3 path, pos 0)
      ∷ (mkdir_p (47 ∷ 97 ∷ []), pos 0)
      ∷ (open_append 3 path, enoent)
      ∷ []
unfolding msg_chan_logging_start locked k_mutex_lock k_mutex_unlock start_locked opened create
    observe call out dirname
created_run = refl

msg_chan_logging_start-IsStarted_example :
    (r : ℤ × Logger eight fresh) × (msg_chan_logging_start eight fresh 1 3 path (logger fresh false)
      ≡ some r)
    × IsStarted eight fresh (logger fresh false) 3 r
unfolding dirname
msg_chan_logging_start-IsStarted_example =
    msg_chan_logging_start-IsStarted eight fresh (logger fresh false) 1 3 path (47 ∷ 97 ∷ []) refl
      refl refl refl refl

stopped : Logger eight plain
stopped = state_of (logger plain true) (msg_chan_logging_stop eight plain 1 3 (logger plain true))

stop_run : msg_chan_logging_stop eight plain 1 3 (logger plain true) ≡ some (pos 0, stopped)
unfolding stopped msg_chan_logging_stop locked k_mutex_lock stop_locked stop_allocated stop_with
    call commit
stop_run = refl

-- The work closes the file, another channel has a message.
abbrev later : List Step
later = worked ∷ published 5 (7 ∷ []) ∷ worked ∷ []

after_steps : Logger eight plain → Option (Logger eight plain) → Logger eight plain
after_steps l none = l
after_steps l (some l') = l'

end : Logger eight plain
unfolding after_steps
end = after_steps stopped (steps eight plain stopped later)

later_run : steps eight plain stopped later ≡ some end
unfolding end after_steps steps step stopped msg_chan_logging_stop locked k_mutex_lock
    k_mutex_unlock stop_locked stop_allocated stop_with call commit logging_work claimed handle
    msg_cb
later_run = refl

stop-waits_forever_example :
    (msg_chan_logging_start eight plain 2 3 path end ≡ none)
    × (msg_chan_logging_stop eight plain 2 3 end ≡ none)
stop-waits_forever_example =
    stop-waits_forever eight plain 1 3 (logger plain true) stopped end (pos 0) later 2 path refl
      stop_run refl (refl, (refl, (refl, tt))) later_run refl

plain-IsReliable : IsReliable plain
plain-IsReliable = record { succeeds = λ cs o. refl; short = λ c msg. refl }

eight-HasRoom : HasRoom eight 8
eight-HasRoom b words h = ap some (drop_full-room 8 b h)

-- Two messages of the channel and one of another, while the work runs once; then the channel is stopped.
abbrev session : List Step
session =
    published 3 (11 ∷ [])
    ∷ published 5 (12 ∷ [])
    ∷ worked
    ∷ published 3 (13 ∷ [])
    ∷ stop 1 3
    ∷ published 3 (14 ∷ [])
    ∷ []

over : Logger eight plain
unfolding after_steps
over = after_steps (logger plain true) (steps eight plain (logger plain true) session)

session_run : steps eight plain (logger plain true) session ≡ some over
unfolding over after_steps steps step msg_chan_logging_stop locked k_mutex_lock k_mutex_unlock
    stop_locked stop_allocated stop_with call commit logging_work claimed handle msg_cb
session_run = refl

taken_run :
    taken_all eight plain 3 (logger plain true) session ≡ (10 ∷ 11 ∷ []) ∷ (10 ∷ 13 ∷ []) ∷ []
unfolding taken_all step msg_chan_logging_stop locked k_mutex_lock k_mutex_unlock stop_locked
    stop_allocated stop_with call commit logging_work claimed handle msg_cb
taken_run = refl

steps-written_example :
    (n : ℕ) × (l' : Logger eight plain) × (steps eight plain over (works n) ≡ some l')
    × (l'.mpsc_pbuf ≡ [])
    × (written 3 l'.calls ≡ [] ++ taken_all eight plain 3 (logger plain true) session)
steps-written_example =
    steps-written eight plain 3 8 plain-IsReliable eight-HasRoom (logger plain true) over session
      refl (omega arith) (refl, (refl, (refl, (refl, (refl, (refl, tt)))))) session_run
