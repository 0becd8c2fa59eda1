-- ===== src/Encoder/Tries.antt =====
-- drivers/sensor/amt21/amt21.c: a sample takes the first word that passes its checks.
use nturt_zephyr_common.Base.{
  ℕ, zero, suc, ◌+◌, ◌%◌, ◌<◌, ◌≡◌, refl, ap, ◌∙◌, Bool, true, false, List, [], ◌∷◌, ◌++◌, All,
  arith, length, take, if◌then◌else◌,
}
use nturt_zephyr_common.Base.Int.{ℤ, pos, eqb_ℤ}
use nturt_zephyr_common.Encoder.{
  Poll, Uart, Try, AmtConfig, cmd_read_pos, is_checked, checked, amt21_read, eilseq, to_ℕ, angle,
  with_turns, amt21_fetch_once, fetch_tries, rotation, amt21_sample_fetch,
}
use nturt_zephyr_common.Encoder.Checks.{arrives, amt21_read-word}

-- Words that arrive one after the other.
abbrev pub words_arrive : List (List Bool × List Bool) → List Poll → List Poll
words_arrive [] ps = ps
words_arrive ((low, high) ∷ ws) ps = arrives low (arrives high (words_arrive ws ps))

-- The commands for the position sent for these words.
abbrev pub asked_for : ℕ → List (List Bool × List Bool) → List ℕ → List ℕ
asked_for addr [] sent = sent
asked_for addr (w ∷ ws) sent = asked_for addr ws ((addr + cmd_read_pos) % 256 ∷ sent)

-- A word whose checks fail.
abbrev pub IsNoise : List Bool × List Bool → Type 0
IsNoise (low, high) = is_checked (low ++ high) ≡ false

module _ (config : AmtConfig) (single : config.multi_turn ≡ false) where
  abbrev fetch_word : List Bool → List Bool → List Poll → List ℕ → Try
  fetch_word low high ps sent =
      amt21_fetch_once config (record { polls = arrives low (arrives high ps); sent = sent })

  fetch_once-read :
      (u : Uart)
      → amt21_fetch_once config u ≡ with_turns (pos 0) (amt21_read config.addr cmd_read_pos u)
  unfolding amt21_fetch_once
  fetch_once-read u = rw single refl

  abbrev rest_of : List Poll → List ℕ → Uart
  rest_of ps sent = record { polls = ps; sent = (config.addr + cmd_read_pos) % 256 ∷ sent }

  fetch_once-noise :
      (low high : List Bool) (ps : List Poll) (sent : List ℕ)
      → is_checked (low ++ high) ≡ false
      → fetch_word low high ps sent ≡ record { ret = eilseq; val = pos 0; rest = rest_of ps sent }
  unfolding with_turns checked
  fetch_once-noise low high ps sent h =
      fetch_once-read _
      ∙ ap (with_turns (pos 0)) (amt21_read-word config.addr cmd_read_pos low high ps sent)
      ∙ rw h refl

  fetch_once-word :
      (low high : List Bool) (ps : List Poll) (sent : List ℕ)
      → is_checked (low ++ high) ≡ true
      → fetch_word low high ps sent ≡ record {
        ret = pos 0;
        val = angle (pos 0) (to_ℕ (take 14 (low ++ high)));
        rest = rest_of ps sent;
      }
  unfolding with_turns checked
  fetch_once-word low high ps sent h =
      fetch_once-read _
      ∙ ap (with_turns (pos 0)) (amt21_read-word config.addr cmd_read_pos low high ps sent)
      ∙ rw h refl

  -- What a round of the loop makes of a try.
  after_try : ℕ → ℤ → Try → ℤ × ℤ × Uart
  after_try n val t =
      if eqb_ℤ t.ret (pos 0) then (pos 0, t.val, t.rest) else fetch_tries n config val t.rest

  fetch_tries-suc :
      (n : ℕ) (val : ℤ) (u : Uart)
      → fetch_tries (suc n) config val u ≡ after_try n val (amt21_fetch_once config u)
  unfolding fetch_tries after_try
  fetch_tries-suc n val u = refl

  fetch_tries-words :
      (noise : List (List Bool × List Bool)) (low high : List Bool) (n : ℕ) (val : ℤ)
      (ps : List Poll) (sent : List ℕ)
      → All IsNoise noise
      → length noise < n
      → is_checked (low ++ high) ≡ true
      → fetch_tries n config val
          (record { polls = words_arrive noise (arrives low (arrives high ps)); sent = sent })
        ≡ (
          pos 0,
          angle (pos 0) (to_ℕ (take 14 (low ++ high))),
          rest_of ps (asked_for config.addr noise sent),
        )
  unfolding after_try
  fetch_tries-words noise low high zero val ps sent bad more good = absurd (omega arith)
  fetch_tries-words [] low high (suc n) val ps sent bad more good =
      fetch_tries-suc n val _ ∙ ap (after_try n val) (fetch_once-word low high ps sent good)
  fetch_tries-words ((l, h) ∷ ws) low high (suc n) val ps sent (b, bs) more good =
      let later = words_arrive ws (arrives low (arrives high ps)) in
      fetch_tries-suc n val _
      ∙ ap (after_try n val) (fetch_once-noise l h later sent b)
      ∙ fetch_tries-words ws low high n val ps ((config.addr + cmd_read_pos) % 256 ∷ sent) bs
          (omega arith) good

-- On an encoder without turns, outside of an interrupt: where fewer words than there are tries fail their
-- checks and the next one passes, `amt21_sample_fetch` returns 0, stores the angle of that word, and has
-- sent the command for the position once for each of the words.
pub amt21_sample_fetch-words :
    (config : AmtConfig) (noise : List (List Bool × List Bool)) (low high : List Bool) (tries : ℕ)
    (val : ℤ) (ps : List Poll) (sent : List ℕ)
    → config.multi_turn ≡ false
    → All IsNoise noise
    → length noise < tries
    → is_checked (low ++ high) ≡ true
    → amt21_sample_fetch tries config false rotation val
        (record { polls = words_arrive noise (arrives low (arrives high ps)); sent = sent })
      ≡ (
        pos 0,
        angle (pos 0) (to_ℕ (take 14 (low ++ high))),
        record {
          polls = ps;
          sent = (config.addr + cmd_read_pos) % 256 ∷ asked_for config.addr noise sent;
        },
      )
unfolding amt21_sample_fetch
amt21_sample_fetch-words config noise low high tries val ps sent single bad more good =
    fetch_tries-words config single noise low high tries val ps sent bad more good
