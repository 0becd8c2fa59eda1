-- ===== src/Encoder.antt =====
-- drivers/sensor/amt21/amt21.c: the AMT21 encoder on a UART. A byte or a word is the list of its bits,
-- lowest first, and a byte sent is its number; the log and the pauses between tries are left out.
pub mod Checks
pub mod Tries
mod Tests
use nturt_zephyr_common.Base.{
  ℕ, zero, suc, Option, none, some, ◌%◌, ◌||◌, ◌+◌, ◌*◌, ◌/◌, Bool, true, false, not, xor, ◌&&◌,
  ◌||◌, List, [], ◌∷◌, ◌++◌, take, get_or, if◌then◌else◌,
}
use nturt_zephyr_common.Base.Int.{ℤ, pos, negsuc, ◌+ℤ◌, ◌-ℤ◌, ◌*ℤ◌, eqb_ℤ, is_neg}

-- -ETIMEDOUT, -EILSEQ, -EIO, -EWOULDBLOCK and -ENOTSUP, as Zephyr numbers them
abbrev pub etimedout : ℤ
etimedout = negsuc 115

abbrev pub eilseq : ℤ
eilseq = negsuc 137

abbrev pub eio : ℤ
eio = negsuc 4

abbrev pub ewouldblock : ℤ
ewouldblock = negsuc 10

abbrev pub enotsup : ℤ
enotsup = negsuc 133

-- A call of `uart_poll_in`: what it returns, the byte, and whether the time is over behind it.
pub record Poll : Type 0 where
  pub ret : ℤ
  pub byte : List Bool
  pub expired : Bool

-- The UART, which is a parameter: the calls of `uart_poll_in` to come, behind which the time is over; and
-- the bytes sent by `uart_poll_out`, latest first.
pub record Uart : Type 0 where
  pub polls : List Poll
  pub sent : List ℕ

abbrev pub uart_poll_out : Uart → ℕ → Uart
uart_poll_out u byte = record u { sent = byte % 256 ∷ u.sent }

-- AMT21_CMD_READ_POS, AMT21_CMD_READ_TURNS and AMT21_CMD_EXT
abbrev pub cmd_read_pos : ℕ
cmd_read_pos = 0

abbrev pub cmd_read_turns : ℕ
cmd_read_turns = 1

abbrev pub cmd_ext : ℕ
cmd_ext = 2

-- What is read: the return value, the bits, and the UART afterwards.
pub record Reading : Type 0 where
  pub ret : ℤ
  pub bits : List Bool
  pub rest : Uart

-- The loop of `uart_poll_in_timeout`, and the bytes sent before
unfoldable pub poll_loop : List ℕ → List Poll → Reading
poll_loop sent [] = record { ret = etimedout; bits = []; rest = record { polls = []; sent = sent } }
poll_loop sent (p ∷ ps) =
    let later = poll_loop sent ps in
    let rest : Uart = record { polls = ps; sent = sent } in
    if not (eqb_ℤ p.ret (negsuc 0))
    then record { ret = p.ret; bits = p.byte; rest = rest }
    else if p.expired
    then record { ret = etimedout; bits = []; rest = rest }
    else later

unfoldable pub uart_poll_in_timeout : Uart → Reading
uart_poll_in_timeout u = poll_loop u.sent u.polls

-- The loop over the check bits, with `even` and `odd`.
unfoldable pub parities : List Bool → Bool → Bool → Bool × Bool
parities [] even odd = (even, odd)
parities (b ∷ []) even odd = (xor even b, odd)
parities (b ∷ c ∷ bs) even odd = parities bs (xor even b) (xor odd c)

unfoldable pub is_checked : List Bool → Bool
is_checked raw = let (even, odd) = parities raw false false in even && odd

-- `amt21_read` behind the two bytes
unfoldable pub checked : List Bool → Uart → Reading
checked raw rest =
    if not (is_checked raw)
    then record { ret = eilseq; bits = []; rest = rest }
    else record { ret = pos 0; bits = take 14 raw; rest = rest }

unfoldable pub second_byte : List Bool → Reading → Reading
second_byte low r = if is_neg r.ret then record r { bits = [] } else checked (low ++ r.bits) r.rest

unfoldable pub first_byte : Reading → Reading
first_byte r =
    if is_neg r.ret
    then record r { bits = [] }
    else second_byte r.bits (uart_poll_in_timeout r.rest)

unfoldable pub amt21_read : ℕ → ℕ → Uart → Reading
amt21_read addr cmd u = first_byte (uart_poll_in_timeout (uart_poll_out u (addr + cmd)))

abbrev pub to_ℕ : List Bool → ℕ
to_ℕ [] = 0
to_ℕ (b ∷ bs) = (if b then 1 else 0) + 2 * to_ℕ bs

-- The turns as an `int16_t`, whose sign is bit 13 of the word read.
unfoldable pub sign_extended : List Bool → ℤ
sign_extended bits = if get_or bits 13 false then pos (to_ℕ bits) -ℤ pos 16384 else pos (to_ℕ bits)

-- A value in millionths of a degree; `sensor_value_from_micro` only stores it.
unfoldable pub angle : ℤ → ℕ → ℤ
angle turns position = turns *ℤ pos 360000000 +ℤ pos (position * 360000000 / 16384)

-- What a try gives: the return value, the angle, and the UART afterwards.
pub record Try : Type 0 where
  pub ret : ℤ
  pub val : ℤ
  pub rest : Uart

unfoldable pub with_turns : ℤ → Reading → Try
with_turns turns r =
    if is_neg r.ret
    then record { ret = r.ret; val = pos 0; rest = r.rest }
    else record { ret = pos 0; val = angle turns (to_ℕ r.bits); rest = r.rest }

unfoldable pub behind_turns : ℕ → Reading → Try
behind_turns addr r =
    if is_neg r.ret
    then record { ret = r.ret; val = pos 0; rest = r.rest }
    else with_turns (sign_extended r.bits) (amt21_read addr cmd_read_pos r.rest)

-- `struct amt21_config`, less the time-out
pub record AmtConfig : Type 0 where
  pub ready : Bool
  pub addr : ℕ
  pub multi_turn : Bool

unfoldable pub amt21_fetch_once : AmtConfig → Uart → Try
amt21_fetch_once config u =
    if config.multi_turn
    then behind_turns config.addr (amt21_read config.addr cmd_read_turns u)
    else with_turns (pos 0) (amt21_read config.addr cmd_read_pos u)

-- The loop of `amt21_init`, with the tries left and the return value of the last one
unfoldable pub ping : ℕ → AmtConfig → ℤ → Uart → ℤ × Uart
ping zero config ret u = (ret, u)
ping (suc n) config ret u =
    let r = amt21_read config.addr cmd_read_pos u in
    let later = ping n config r.ret r.rest in
    if eqb_ℤ r.ret (pos 0) || eqb_ℤ r.ret eilseq then (pos 0, r.rest) else later

-- -ENODEV
abbrev pub enodev : ℤ
enodev = negsuc 18

-- The return value is not set before the first try: `unset`.
unfoldable pub amt21_init : ℕ → AmtConfig → ℤ → Uart → ℤ × Uart
amt21_init tries config unset u =
    if not config.ready then (enodev, u) else ping tries config unset u

-- The loop of `amt21_sample_fetch`, with the number of tries left and the stored angle: the return value,
-- the angle stored behind it, and the UART. The first success returns.
unfoldable pub fetch_tries : ℕ → AmtConfig → ℤ → Uart → ℤ × ℤ × Uart
fetch_tries zero config val u = (eio, val, u)
fetch_tries (suc n) config val u =
    let t = amt21_fetch_once config u in
    let later = fetch_tries n config val t.rest in
    if eqb_ℤ t.ret (pos 0) then (pos 0, t.val, t.rest) else later

-- The channels of the sensor interface
pub data SensorChannel : Type 0 where
  all rotation other_channel : SensorChannel

abbrev pub is_rotation : SensorChannel → Bool
is_rotation rotation = true
is_rotation _ = false

abbrev pub is_all : SensorChannel → Bool
is_all all = true
is_all _ = false

unfoldable pub amt21_sample_fetch : ℕ → AmtConfig → Bool → SensorChannel → ℤ → Uart → ℤ × ℤ × Uart
amt21_sample_fetch tries config in_isr chan val u =
    let fetched = fetch_tries tries config val u in
    if in_isr
    then (ewouldblock, val, u)
    else if not (is_all chan) && not (is_rotation chan)
    then (enotsup, val, u)
    else fetched

-- The return value, and what is stored for the caller
unfoldable pub amt21_channel_get : SensorChannel → ℤ → ℤ × Option ℤ
amt21_channel_get chan val = if not (is_rotation chan) then (enotsup, none) else (pos 0, some val)

-- SENSOR_ATTR_AMT21_RESET, SENSOR_ATTR_AMT21_SET_ZERO_POS, and the other attributes
pub data Attribute : Type 0 where
  reset set_zero_pos other_attribute : Attribute

unfoldable pub amt21_attribute_set : AmtConfig → Attribute → Uart → ℤ × Uart
amt21_attribute_set config reset u =
    (pos 0, uart_poll_out (uart_poll_out u (config.addr + cmd_ext)) 117)
amt21_attribute_set config set_zero_pos u =
    (pos 0, uart_poll_out (uart_poll_out u (config.addr + cmd_ext)) 94)
amt21_attribute_set config other_attribute u = (enotsup, u)
