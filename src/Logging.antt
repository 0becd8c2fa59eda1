-- ===== src/Logging.antt =====
-- subsys/msg/logging.c with include/nturt/msg/logging.h: messages of a channel are logged to a file. A
-- channel and a thread are numbers. The file system and zbus are the calls made, with what they return as
-- a parameter; the packet buffer is an interface.
pub mod Packets
pub mod Steps
pub mod Start
pub mod Others
pub mod Stop
pub mod Written
pub mod Rows
pub mod Fifo
mod Tests
use nturt_zephyr_common.Base.{
  ℕ, zero, suc, ◌+◌, ◌-◌, ◌/◌, Bool, true, false, not, ◌&&◌, ◌||◌, Option, none, some, List, [],
  ◌∷◌, ◌++◌, length, leb, ◌==◌, if◌then◌else◌, ◌>>=◌,
}
use nturt_zephyr_common.Base.Int.{ℤ, pos, negsuc, is_neg, eqb_ℤ}
use nturt_zephyr_common.Logging.Packets.{OverwritingBuffer}

-- `struct msg_logging_packet`, by its type
pub data Packet : Type 0 where
  data_packet : ℕ → List ℕ → Packet
  stop_packet : ℕ → Packet

-- The calls of the file system and of zbus, with the channel whose file it is.
pub data Outside : Type 0 where
  open_append open_create : ℕ → List ℕ → Outside
  mkdir_p : List ℕ → Outside
  write : ℕ → List ℕ → Outside
  sync close add_obs rm_obs : ℕ → Outside

-- What is not in this file: what a call returns, after the calls before it; the CSV of the channels; the
-- size of a channel's messages; and the thread of the work queue.
pub record World : Type 0 where
  pub returns : List (Outside × ℤ) → Outside → ℤ
  pub csv_header : ℕ → List ℕ
  pub csv_row : ℕ → List ℕ → List ℕ
  pub msg_size : ℕ → ℕ
  pub work_thread : ℕ

-- `struct k_mutex`
pub record Mutex : Type 0 where
  pub owner : ℕ
  pub lock_count : ℕ

-- `struct msg_logging`, with whether the channel has the listener, and whether its `sync_dwork` is
-- scheduled.
pub record Channel : Type 0 where
  pub lock : Mutex
  pub is_logging : Bool
  pub is_observed : Bool
  pub is_sync_scheduled : Bool

-- -ENOENT, -ENOMEM, -EALREADY and -ENOTCONN
abbrev pub enoent : ℤ
enoent = negsuc 1

abbrev pub enomem : ℤ
enomem = negsuc 11

abbrev pub ealready : ℤ
ealready = negsuc 119

abbrev pub enotconn : ℤ
enotconn = negsuc 127

-- `k_mutex_lock` with K_FOREVER by a thread: `none` while it waits.
unfoldable pub k_mutex_lock : ℕ → Mutex → Option Mutex
k_mutex_lock thread m =
    if m.lock_count == 0
    then some (record { owner = thread; lock_count = 1 })
    else if m.owner == thread
    then some (record m { lock_count = suc m.lock_count })
    else none

-- `k_mutex_unlock`, which refuses (-EPERM) a thread that is not the owner.
unfoldable pub k_mutex_unlock : ℕ → Mutex → Mutex
k_mutex_unlock thread m =
    if not (m.lock_count == 0) && m.owner == thread
    then record m { lock_count = m.lock_count - 1 }
    else m

-- The part of a path before its last slash, which `strrchr` finds.
unfoldable pub dirname : List ℕ → Option (List ℕ)
dirname [] = none
dirname (x ∷ xs) = elim (dirname xs) [
  | none ↦ if x == 47 then some [] else none
  | some dir ↦ some (x ∷ dir)
]

module _ (P : OverwritingBuffer Packet) (w : World) where
  -- `g_ctx` and the channels; `is_work_pending` from the submission of `logging_work` until it has run
  -- and not been submitted again. The calls are listed latest first.
  pub record Logger : Type 0 where
    pub chans : ℕ → Channel
    pub mpsc_pbuf : P.Buffer
    pub is_work_pending : Bool
    pub calls : List (Outside × ℤ)

  abbrev pub set_chan : Logger → ℕ → Channel → Logger
  set_chan l chan c = record l { chans = λ k. if k == chan then c else l.chans k }

  -- A call, with what it returns.
  unfoldable pub call : Outside → Logger → ℤ × Logger
  call o l = let ret = w.returns l.calls o in (ret, record l { calls = (o, ret) ∷ l.calls })

  abbrev pub call_only : Outside → Logger → Logger
  call_only o l = (call o l).1

  -- out: the lock is given back, and `ret` returned.
  unfoldable pub out : ℕ → ℕ → ℤ → Logger → ℤ × Logger
  out thread chan ret l =
      let c = l.chans chan in
      (ret, set_chan l chan (record c { lock = k_mutex_unlock thread c.lock }))

  -- `msg_chan_logging_start` from `fs_sync` on
  unfoldable pub observe : ℕ → ℕ → Logger → ℤ × Logger
  unfolding call out
  observe thread chan l =
      let (ret, l') = call (add_obs chan) (call_only (sync chan) l) in
      if is_neg ret
      then out thread chan ret (call_only (close chan) l')
      else out thread chan ret
          (set_chan l' chan (record (l'.chans chan) { is_logging = true; is_observed = true }))

  -- The branch for a file that is not there.
  unfoldable pub create : ℕ → ℕ → List ℕ → List ℕ → Logger → ℤ × Logger
  unfolding observe
  create thread chan file dir l =
      let (ret, l') = call (mkdir_p dir) l in
      let (ret', l'') = call (open_create chan file) l' in
      if is_neg ret
      then out thread chan ret l'
      else if is_neg ret'
      then out thread chan ret' l''
      else observe thread chan (call_only (write chan (w.csv_header chan)) l'')

  -- What follows the first `fs_open`; `none` for a path without a slash, on which the code computes with
  -- the null pointer.
  unfoldable pub opened : ℕ → ℕ → List ℕ → ℤ × Logger → Option (ℤ × Logger)
  unfolding create
  opened thread chan file (ret, l) =
      if eqb_ℤ ret enoent
      then (dirname file >>= λ dir. some (create thread chan file dir l))
      else if is_neg ret
      then some (out thread chan ret l)
      else some (observe thread chan l)

  -- `msg_chan_logging_start` behind the lock
  unfoldable pub start_locked : ℕ → ℕ → List ℕ → Logger → Option (ℤ × Logger)
  unfolding opened
  start_locked thread chan file l =
      if (l.chans chan).is_logging
      then some (out thread chan ealready l)
      else opened thread chan file (call (open_append chan file) l)

  -- The lock is taken, or the thread waits.
  unfoldable pub locked : ℕ → ℕ → Logger → Option Logger
  locked thread chan l = do
    m ← k_mutex_lock thread (l.chans chan).lock
    some (set_chan l chan (record (l.chans chan) { lock = m }))

  unfoldable pub msg_chan_logging_start : ℕ → ℕ → List ℕ → Logger → Option (ℤ × Logger)
  unfolding locked start_locked
  msg_chan_logging_start thread chan file l = do
    l' ← locked thread chan l
    start_locked thread chan file l'

  -- Words of a packet: the header and its padding, and the message.
  abbrev pub wlen : ℕ → ℕ
  wlen size = (8 + size + 3) / 4

  -- `mpsc_pbuf_commit`, and the submission of the work unless it is pending.
  unfoldable pub commit : Packet → Logger → Logger
  commit packet l = record l { mpsc_pbuf = P.commit l.mpsc_pbuf packet; is_work_pending = true }

  -- `msg_chan_logging_stop` with a packet: the listener is removed. If that fails, the packet is left
  -- neither committed nor discarded.
  unfoldable pub stop_with : ℕ → ℕ → Logger → ℤ × Logger
  unfolding commit call out
  stop_with thread chan l =
      let (ret, l') = call (rm_obs chan) l in
      if is_neg ret then out thread chan ret (record l' { mpsc_pbuf = P.leave l'.mpsc_pbuf }) else (
        pos 0,
        commit (stop_packet chan)
            (set_chan l' chan (record (l'.chans chan) { is_logging = false; is_observed = false })),
      )

  -- What follows `msg_logging_packet_alloc`.
  unfoldable pub stop_allocated : ℕ → ℕ → Logger → Option P.Buffer → ℤ × Logger
  unfolding stop_with
  stop_allocated thread chan l none = out thread chan enomem l
  stop_allocated thread chan l (some b) = stop_with thread chan (record l { mpsc_pbuf = b })

  unfoldable pub stop_locked : ℕ → ℕ → Logger → ℤ × Logger
  unfolding stop_allocated
  stop_locked thread chan l =
      if not (l.chans chan).is_logging
      then out thread chan enotconn l
      else stop_allocated thread chan l (P.alloc l.mpsc_pbuf (wlen 0))

  unfoldable pub msg_chan_logging_stop : ℕ → ℕ → Logger → Option (ℤ × Logger)
  unfolding locked stop_locked
  msg_chan_logging_stop thread chan l = do
    l' ← locked thread chan l
    some (stop_locked thread chan l')

  -- `msg_cb`, for a message of the channel
  unfoldable pub msg_cb : ℕ → List ℕ → Logger → Logger
  unfolding commit
  msg_cb chan msg l = elim (P.alloc l.mpsc_pbuf (wlen (w.msg_size chan))) [
    | none ↦ l
    | some b ↦ commit (data_packet chan msg) (record l { mpsc_pbuf = b })
  ]

  -- The packet's `switch` of `logging_work`, where `buf` holds 512 bytes.
  unfoldable pub handle : Packet → Logger → Logger
  unfolding call
  handle (data_packet chan msg) l =
      let row = w.csv_row chan msg in
      let (ret, l') = call (write chan (10 ∷ row)) l in
      if leb 511 (length row)
      then l
      else if is_neg ret
      then l'
      else set_chan l' chan (record (l'.chans chan) { is_sync_scheduled = true })
  handle (stop_packet chan) l =
      let l' = call_only (close chan) l in
      let c = l'.chans chan in
      set_chan l' chan
        (record c { is_sync_scheduled = false; lock = k_mutex_unlock w.work_thread c.lock })

  -- `logging_work` with what was claimed, which is handled and freed.
  unfoldable pub claimed : Logger → Option (Packet × P.Buffer) → Logger
  unfolding handle
  claimed l none = record l { is_work_pending = false }
  claimed l (some (packet, b)) = record (handle packet l) {
    mpsc_pbuf = b;
    is_work_pending = P.is_pending b;
  }

  unfoldable pub logging_work : Logger → Logger
  unfolding claimed
  logging_work l = claimed l (P.claim l.mpsc_pbuf)

  unfoldable pub msg_logging_sync_work : ℕ → Logger → Logger
  unfolding call
  msg_logging_sync_work chan l =
      let l' = call_only (sync chan) l in
      set_chan l' chan (record (l'.chans chan) { is_sync_scheduled = false })
