-- ===== src/Encoder/Tests.antt =====
-- drivers/sensor/amt21/amt21.c: runs and instances of the theorems.
use nturt_zephyr_common.Base.{
  some, none, ◌≡◌, refl, Bool, true, false, List, [], ◌∷◌, ◌++◌, arith, take,
}
use nturt_zephyr_common.Base.Int.{pos, negsuc, ◌-ℤ◌}
use nturt_zephyr_common.Encoder.{
  Poll, Uart, AmtConfig, eilseq, etimedout, poll_loop, uart_poll_in_timeout, parities, is_checked,
  checked, second_byte, first_byte, amt21_read, to_ℕ, angle, ping, amt21_init, amt21_attribute_set,
  set_zero_pos, amt21_channel_get, all, sign_extended, with_turns, amt21_fetch_once, fetch_tries,
  rotation, amt21_sample_fetch,
}
use nturt_zephyr_common.Encoder.Checks.{arrives, amt21_read-flipped}
use nturt_zephyr_common.Encoder.Tries.{words_arrive, amt21_sample_fetch-words}

-- The position 3 with its check bits, and the word with a bit flipped.
abbrev low : List Bool
low = true ∷ true ∷ false ∷ false ∷ false ∷ false ∷ false ∷ false ∷ []

abbrev flipped_low : List Bool
flipped_low = true ∷ true ∷ false ∷ true ∷ false ∷ false ∷ false ∷ false ∷ []

abbrev high : List Bool
high = false ∷ false ∷ false ∷ false ∷ false ∷ false ∷ false ∷ false ∷ []

low_checked : is_checked (low ++ high) ≡ true
unfolding is_checked parities
low_checked = refl

flipped_noise : is_checked (flipped_low ++ high) ≡ false
unfolding is_checked parities
flipped_noise = refl

abbrev uart : List Poll → Uart
uart ps = record { polls = ps; sent = [] }

abbrev config : AmtConfig
config = record { ready = true; addr = 84; multi_turn = false }

low_read : (amt21_read 84 0 (uart (arrives low (arrives high [])))).ret ≡ pos 0
unfolding amt21_read first_byte second_byte checked uart_poll_in_timeout poll_loop is_checked
    parities
low_read = refl

-- Nothing comes in before the time is over.
silence :
    (amt21_read 84 0 (
      uart (
        record { ret = negsuc 0; byte = []; expired = false }
        ∷ record { ret = negsuc 0; byte = []; expired = true }
        ∷ []))).ret
    ≡ etimedout
unfolding amt21_read first_byte uart_poll_in_timeout poll_loop
silence = refl

-- Minus one turn
turns_run :
    sign_extended (
      true ∷ true ∷ true ∷ true ∷ true ∷ true ∷ true ∷ true ∷ true ∷ true ∷ true ∷ true ∷ true
      ∷ true ∷ [])
    ≡ negsuc 0
unfolding sign_extended ◌-ℤ◌
turns_run = refl

-- An encoder that answers with a bad word is there; one that is silent is not.
init_run :
    ((amt21_init 2 config (pos 0) (uart (arrives flipped_low (arrives high [])))).0 ≡ pos 0)
    × (amt21_init 2 config (pos 0) (uart [])
        ≡ (etimedout, record { polls = []; sent = 84 ∷ 84 ∷ [] }))
unfolding amt21_init ping amt21_read first_byte second_byte checked uart_poll_in_timeout poll_loop
    is_checked parities
init_run = (refl, refl)

set_zero_run :
    amt21_attribute_set config set_zero_pos (uart [])
    ≡ (pos 0, record { polls = []; sent = 94 ∷ 86 ∷ [] })
unfolding amt21_attribute_set
set_zero_run = refl

channel_get_run :
    (amt21_channel_get rotation (pos 7) ≡ (pos 0, some (pos 7)))
    × (amt21_channel_get all (pos 7) ≡ (negsuc 133, none))
unfolding amt21_channel_get
channel_get_run = (refl, refl)

amt21_read-flipped_example :
    ((amt21_read 84 0 (record { polls = arrives low (arrives high []); sent = [] })).bits
      ≡ take 14 (low ++ high))
    × ((amt21_read 84 0 (record { polls = arrives flipped_low (arrives high []); sent = [] })).ret
        ≡ eilseq)
amt21_read-flipped_example =
    amt21_read-flipped 84 0 low high flipped_low high 3 [] [] (omega arith) refl low_read

amt21_sample_fetch-words_example :
    amt21_sample_fetch 3 config false rotation (pos 7) (record {
      polls =
          words_arrive
            ((flipped_low, high) ∷ (flipped_low, high) ∷ [])
            (arrives low (arrives high []));
      sent = [];
    })
    ≡ (
      pos 0,
      angle (pos 0) (to_ℕ (take 14 (low ++ high))),
      record { polls = []; sent = 84 ∷ 84 ∷ 84 ∷ [] },
    )
amt21_sample_fetch-words_example =
    amt21_sample_fetch-words config ((flipped_low, high) ∷ (flipped_low, high) ∷ []) low high 3
      (pos 7) [] [] refl (flipped_noise, (flipped_noise, tt)) (omega arith) low_checked

-- Two bad words in two tries
sample_fails :
    (amt21_sample_fetch 2 config false rotation
      (pos 7)
      (uart (words_arrive ((flipped_low, high) ∷ (flipped_low, high) ∷ []) []))).0
    ≡ negsuc 4
unfolding amt21_sample_fetch fetch_tries amt21_fetch_once with_turns amt21_read first_byte
    second_byte checked uart_poll_in_timeout poll_loop is_checked parities
sample_fails = refl
