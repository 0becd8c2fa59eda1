-- ===== src/LedStrip/Last.antt =====
-- drivers/led_strip/gpio/led_strip_gpio.c: a pin keeps what it was last asked to be.
use nturt_zephyr_common.Base.{
  ℕ, zero, suc, ◌≡◌, refl, ap, ◌∙◌, Bool, Bool-cases, true, false, ◌&&◌, inl, inr, List, [], ◌∷◌,
  ◌++◌, map, arith, ltb, ◌==◌, if◌then◌else◌, All,
}
use nturt_zephyr_common.SegDisplay.{Spec, Entry}
use nturt_zephyr_common.SegDisplay.Slots.{insert, insert_all}
use nturt_zephyr_common.SegDisplay.Setup.{has_port}
use nturt_zephyr_common.SegDisplay.Lookup.{mask_at, value_at}
use nturt_zephyr_common.SegDisplay.Drive.{assign_all, value_at-assign_at}
use nturt_zephyr_common.SegDisplay.Lookup.{assign_at}
use nturt_zephyr_common.SegDisplay.Values.{
  same_pin, differs_from, all_different, AllPlaced, AllPlaced-assign_all, All-map, and_both,
  not_and_both,
}
use nturt_zephyr_common.LedStrip.{Config, Pixel}
use nturt_zephyr_common.LedStrip.Lamps.{lamp, lamps, pins, Fits}

-- What the list asks of a pin last, or `b`.
abbrev pub last_at : List (Spec × Bool) → Bool → Spec → Bool
last_at [] b s = b
last_at ((t, v) ∷ ts) b s = last_at ts (if same_pin t s then v else b) s

pub value_at-assign_all :
    (es : List Entry) (ts : List (Spec × Bool)) (s : Spec)
    → AllPlaced es (map (λ t. t.0) ts)
    → value_at (assign_all es ts) s.port s.pin ≡ last_at ts (value_at es s.port s.pin) s
value_at-assign_all es [] s h = refl
value_at-assign_all es ((t, v) ∷ ts) s h =
    value_at-assign_all (assign_at es t.port t.pin v) ts s
      (AllPlaced-assign_all es ((t, v) ∷ []) (map (λ t. t.0) ts) h.1)
    ∙ ap (λ b. last_at ts b s) (value_at-assign_at es t.port t.pin v s.port s.pin h.0.0)

last_at-other :
    (ts : List (Spec × Bool)) (b : Bool) (s : Spec)
    → differs_from s (map (λ t. t.0) ts) ≡ true
    → last_at ts b s ≡ b
last_at-other [] b s d = refl
last_at-other ((t, v) ∷ ts) b s d =
    let (other, rest) = not_and_both (same_pin s t) (differs_from s (map (λ t. t.0) ts)) d in
    last_at-other ts (if same_pin t s then v else b) s rest ∙ apart other
  where
    apart : same_pin s t ≡ false → (if same_pin t s then v else b) ≡ b
    apart o = ground arith

-- With no pin twice in the list, each gets what is asked of it.
pub last_at-different :
    (ts : List (Spec × Bool))
    → all_different (map (λ t. t.0) ts) ≡ true
    → All (λ t. (b : Bool) → last_at ts b t.0 ≡ t.1) ts
last_at-different [] d = tt
last_at-different ((s, v) ∷ ts) d =
    let (alone, rest) =
      and_both (differs_from s (map (λ t. t.0) ts)) (all_different (map (λ t. t.0) ts)) d in
    (
      λ b. last_at-other ts (if same_pin s s then v else b) s alone ∙ itself s.port s.pin b,
      All-map (λ t. (b : Bool) → last_at ts b t.0 ≡ t.1)
          (λ t. (b : Bool) → last_at ((s, v) ∷ ts) b t.0 ≡ t.1)
          (λ t h b. h (if same_pin s t.0 then v else b)) ts (last_at-different ts rest),
    )
  where
    itself : (p q : ℕ) (b : Bool) → (if (p == p) && (q == q) then v else b) ≡ v
    itself p q b = ground arith

-- Of two lamps on one pin, the second counts.
pub last_at-twice :
    (specs : List Spec) (i x y : ℕ) (ts : List (Spec × Bool)) (b : Bool) (s : Spec)
    → last_at (lamp specs i x ++ (lamp specs i y ++ ts)) b s ≡ last_at (lamp specs i y ++ ts) b s
last_at-twice [] i x y ts b s = refl
last_at-twice (t ∷ specs) zero x y ts b s = ap (λ b. last_at ts b s) (over (same_pin t s))
  where
    over :
        (same : Bool)
        → (if same then ltb 0 y else if same then ltb 0 x else b) ≡ (if same then ltb 0 y else b)
    over true = refl
    over false = refl
last_at-twice (t ∷ specs) (suc i) x y ts b s = last_at-twice specs i x y ts b s

lamp-AllPlaced :
    (es : List Entry) (specs : List Spec) (i value : ℕ)
    → AllPlaced es specs
    → AllPlaced es (map (λ t. t.0) (lamp specs i value))
lamp-AllPlaced es [] i value h = tt
lamp-AllPlaced es (s ∷ specs) zero value h = (h.0, tt)
lamp-AllPlaced es (s ∷ specs) (suc i) value h = lamp-AllPlaced es specs i value h.1

append-AllPlaced :
    (es : List Entry) (xs ys : List (Spec × Bool))
    → AllPlaced es (map (λ t. t.0) xs)
    → AllPlaced es (map (λ t. t.0) ys)
    → AllPlaced es (map (λ t. t.0) (xs ++ ys))
append-AllPlaced es [] ys h k = k
append-AllPlaced es (x ∷ xs) ys h k = (h.0, append-AllPlaced es xs ys h.1 k)

-- The pins of the lamps are pins of the strip.
pub lamps-AllPlaced :
    (c : Config) (f es : List Entry) (i : ℕ) (ps : List Pixel)
    → Fits c f es
    → AllPlaced es (map (λ t. t.0) (lamps c i ps))
lamps-AllPlaced c f es i [] fits = tt
lamps-AllPlaced c f es i (p ∷ ps) fits =
    append-AllPlaced es (lamp (pins c.red_gpios) i p.r) _
      (lamp-AllPlaced es (pins c.red_gpios) i p.r fits.1)
      (append-AllPlaced es (lamp (pins c.green_gpios) i p.g) _
        (lamp-AllPlaced es (pins c.green_gpios) i p.g fits.2)
        (append-AllPlaced es (lamp (pins c.blue_gpios) i p.b) _
          (lamp-AllPlaced es (pins c.blue_gpios) i p.b fits.3)
          (lamps-AllPlaced c f es (suc i) ps fits)))

mask_at-insert_other :
    (es : List Entry) (t s : Spec)
    → same_pin s t ≡ false
    → mask_at (insert es t) s.port s.pin ≡ mask_at es s.port s.pin
mask_at-insert_other [] t s d = ground (arith, d)
mask_at-insert_other (e ∷ es) t s d = elim (Bool-cases (has_port e t.port)) [
  | inl here ↦ ground (arith, d, here)
  | inr other ↦ ground (arith, d, other, mask_at-insert_other es t s d)
]

-- A pin that is not among those inserted stays out of the masks.
pub mask_at-insert_all :
    (es : List Entry) (specs : List Spec) (s : Spec)
    → differs_from s specs ≡ true
    → mask_at (insert_all es specs) s.port s.pin ≡ mask_at es s.port s.pin
mask_at-insert_all es [] s d = refl
mask_at-insert_all es (t ∷ specs) s d =
    let (other, rest) = not_and_both (same_pin s t) (differs_from s specs) d in
    mask_at-insert_all (insert es t) specs s rest ∙ mask_at-insert_other es t s other
