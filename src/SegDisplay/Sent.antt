-- ===== src/SegDisplay/Sent.antt =====
-- drivers/auxdisplay/gpio-seg-display/gpio_seg_display.c: what the calls of `set_gpios` set the pins to.
use nturt_zephyr_common.Base.{
  ℕ, suc, ◌≡◌, refl, Bool, false, not, ◌&&◌, Option, none, some, List, [], ◌∷◌, ◌++◌, map, arith,
  ◌==◌, if◌then◌else◌, All, length, ◌∙◌,
}
use nturt_zephyr_common.Base.Int.{pos, is_neg}
use nturt_zephyr_common.SegDisplay.{Spec, Entry, Call, Hardware, code, set_from}
use nturt_zephyr_common.SegDisplay.Slots.{unused}
use nturt_zephyr_common.SegDisplay.Lookup.{mask_at, value_at, AllOther, IsDistinct}
use nturt_zephyr_common.SegDisplay.Values.{AllPlaced}

-- What a pin was last set to, if it was.
abbrev pub level : List Call → ℕ → ℕ → Option Bool
level [] port pin = none
level (c ∷ cs) port pin =
    if not (is_neg c.ret) && c.port == port && c.mask pin
    then some (c.value pin)
    else level cs port pin

module _ (hw : Hardware) (works : (n : ℕ) → is_neg (hw.answers n) ≡ false) where
  -- The call for an entry.
  abbrev pub sent : Entry → List Call → List Call
  sent e calls = elim e.gpio_port [
    | none ↦ calls
    | some p ↦
        record { port = p; mask = e.mask; value = e.value; ret = hw.answers (length calls) } ∷ calls
  ]

  abbrev pub sent_all : List Entry → List Call → List Call
  sent_all [] calls = calls
  sent_all (e ∷ es) calls = sent_all es (sent e calls)

  pub set_from_lem :
      (es : List Entry) (m : ℕ) (calls : List Call)
      → IsDistinct es
      → set_from hw (es ++ unused (suc m)) calls ≡ (code (pos 0), sent_all es calls)
  unfolding set_from
  set_from_lem [] m calls h = refl
  set_from_lem (e ∷ es) m calls h = rw (h.0.1, works (length calls)) (set_from_lem es m _ h.1)

  pub level-other :
      (es : List Entry) (calls : List Call) (port pin : ℕ)
      → IsDistinct es
      → level (sent_all es calls) port pin
        ≡ (if mask_at es port pin then some (value_at es port pin) else level calls port pin)
  level-other [] calls port pin h = refl
  level-other (e ∷ es) calls port pin h = ground (
    arith,
    h.0.1,
    works (length calls),
    level-other es (sent e calls) port pin h.1,
    hidden es port pin,
    h.0.2,
  )
    where
      hidden : (fs : List Entry) (p q : ℕ) → AllOther p fs → mask_at fs p q ≡ false
      hidden [] p q o = refl
      hidden (f ∷ fs) p q o = ground (arith, o, hidden fs p q)

  -- Each pin gets the value it has in the map.
  pub shown_all :
      (es : List Entry) (calls : List Call) (ts : List (Spec × Bool))
      → IsDistinct es
      → AllPlaced es (map (λ t. t.0) ts)
      → All (λ t. value_at es t.0.port t.0.pin ≡ t.1) ts
      → All (λ t. level (sent_all es calls) t.0.port t.0.pin ≡ some t.1) ts
  shown_all es calls [] d p v = tt
  shown_all es calls ((s, b) ∷ ts) d p v =
      (level-other es calls s.port s.pin d ∙ rw (p.0.1, v.0) refl, shown_all es calls ts d p.1 v.1)
