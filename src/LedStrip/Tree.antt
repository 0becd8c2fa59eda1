-- ===== src/LedStrip/Tree.antt =====
-- drivers/led_strip/gpio/led_strip_gpio.c: what a strip from the devicetree shows. The configuration that
-- LED_STRIP_GPIO_INIT defines has the red pins in the place of the green and of the blue ones.
use nturt_zephyr_common.Base.{
  ℕ, zero, suc, ◌+◌, ◌≤◌, ◌<◌, ◌≡◌, refl, ap, sym, ◌∙◌, Bool, true, false, Option, none, some, List,
  [], ◌∷◌, ◌++◌, map, arith, ltb, if◌then◌else◌, All, length,
}
use nturt_zephyr_common.Base.Int.{pos, is_neg}
use nturt_zephyr_common.SegDisplay.{Spec, Entry, Hardware, code}
use nturt_zephyr_common.SegDisplay.Slots.{unused, insert_all}
use nturt_zephyr_common.SegDisplay.Lookup.{mask_at}
use nturt_zephyr_common.SegDisplay.Values.{
  all_different, differs_from, same_pin, AllPlaced, All-map, and_both, not_and_both,
}
use nturt_zephyr_common.SegDisplay.Sent.{level}
use nturt_zephyr_common.LedStrip.{
  Node, Config, if_has_prop, config_of, Strip, Pixel, init, update_rgb,
}
use nturt_zephyr_common.LedStrip.Lamps.{lamp, lamps, pins}
use nturt_zephyr_common.LedStrip.Setup.{entries, IsWired, HasLength}
use nturt_zephyr_common.LedStrip.Last.{
  last_at, last_at-different, last_at-twice, mask_at-insert_all,
}
use nturt_zephyr_common.LedStrip.Shown.{
  updates, update_rgb-level, init-IsReady, updates-IsReady, all_set, entries-Fits,
}

-- The last of the colours that a node has, by its green and its blue pins.
abbrev pub last_of : Option (List Spec) → Option (List Spec) → Pixel → ℕ
last_of green (some _) p = p.b
last_of (some _) none p = p.g
last_of none none p = p.r

abbrev pub last_color : Node → Pixel → ℕ
last_color n p = last_of n.green_gpios n.blue_gpios p

-- The red pins with what the pixels ask of that colour.
abbrev pub red_shown : Node → List Spec → List Pixel → List (Spec × Bool)
red_shown n ss [] = []
red_shown n [] (p ∷ ps) = []
red_shown n (s ∷ ss) (p ∷ ps) = (s, ltb 0 (last_color n p)) ∷ red_shown n ss ps

abbrev drop : ℕ → List Spec → List Spec
drop zero xs = xs
drop (suc i) [] = []
drop (suc i) (x ∷ xs) = drop i xs

drop_lem :
    (xs : List Spec) (i : ℕ)
    → i < length xs
    → (x : Spec) × (drop i xs ≡ x ∷ drop (suc i) xs) × ((v : ℕ) → lamp xs i v ≡ (x, ltb 0 v) ∷ [])
drop_lem [] i l = absurd (omega (arith, l))
drop_lem (x ∷ xs) zero l = (x, refl, λ v. refl)
drop_lem (x ∷ xs) (suc i) l = drop_lem xs i (omega (arith, l))

-- Of the lamps of a pixel the last counts.
last_at-colors :
    (reds : List Spec) (red green blue : Option (List Spec)) (i : ℕ) (p : Pixel)
    (ts : List (Spec × Bool)) (b : Bool) (s : Spec)
    → red ≡ some reds
    → last_at
        (lamp (pins (if_has_prop red red)) i p.r
          ++ (lamp (pins (if_has_prop green red)) i p.g
              ++ (lamp (pins (if_has_prop blue red)) i p.b ++ ts)))
        b
        s
      ≡ last_at (lamp reds i (last_of green blue p) ++ ts) b s
unfolding if_has_prop
last_at-colors reds red none none i p ts b s is = rw is refl
last_at-colors reds red none (some _) i p ts b s is = rw is (last_at-twice reds i p.r p.b ts b s)
last_at-colors reds red (some _) none i p ts b s is = rw is (last_at-twice reds i p.r p.g ts b s)
last_at-colors reds red (some _) (some _) i p ts b s is =
    rw is (
      last_at-twice reds i p.r p.g (lamp reds i p.b ++ ts) b s
      ∙ last_at-twice reds i p.g p.b ts b s)

last_at-lamps :
    (n : Node) (reds : List Spec) (i : ℕ) (ps : List Pixel) (b : Bool) (s : Spec)
    → n.red_gpios ≡ some reds
    → i + length ps ≤ length reds
    → last_at (lamps (config_of n) i ps) b s ≡ last_at (red_shown n (drop i reds) ps) b s
unfolding config_of if_has_prop
last_at-lamps n reds i [] b s red l = refl
last_at-lamps n reds i (p ∷ ps) b s red l =
    let (x, here, is) = drop_lem reds i (omega (arith, l)) in
    last_at-colors reds n.red_gpios n.green_gpios n.blue_gpios i p (lamps (config_of n) (suc i) ps)
      b s red
    ∙ ap (λ xs. last_at (xs ++ lamps (config_of n) (suc i) ps) b s) (is (last_color n p))
    ∙ last_at-lamps n reds (suc i) ps (if same_pin x s then ltb 0 (last_color n p) else b) s red
        (omega (arith, l))
    ∙ ap (λ xs. last_at (red_shown n xs (p ∷ ps)) b s) (sym here)

red_shown-differs :
    (n : Node) (s : Spec) (reds : List Spec) (ps : List Pixel)
    → differs_from s reds ≡ true
    → differs_from s (map (λ t. t.0) (red_shown n reds ps)) ≡ true
red_shown-differs n s reds [] d = refl
red_shown-differs n s [] (p ∷ ps) d = refl
red_shown-differs n s (t ∷ reds) (p ∷ ps) d =
    let (other, rest) = not_and_both (same_pin s t) (differs_from s reds) d in
    rw (other, red_shown-differs n s reds ps rest) refl

red_shown-all_different :
    (n : Node) (reds : List Spec) (ps : List Pixel)
    → all_different reds ≡ true
    → all_different (map (λ t. t.0) (red_shown n reds ps)) ≡ true
red_shown-all_different n reds [] d = refl
red_shown-all_different n [] (p ∷ ps) d = refl
red_shown-all_different n (t ∷ reds) (p ∷ ps) d =
    let (alone, rest) = and_both (differs_from t reds) (all_different reds) d in
    rw (red_shown-differs n t reds ps alone, red_shown-all_different n reds ps rest) refl

red_shown-AllPlaced :
    (n : Node) (es : List Entry) (reds : List Spec) (ps : List Pixel)
    → AllPlaced es reds
    → AllPlaced es (map (λ t. t.0) (red_shown n reds ps))
red_shown-AllPlaced n es reds [] h = tt
red_shown-AllPlaced n es [] (p ∷ ps) h = tt
red_shown-AllPlaced n es (t ∷ reds) (p ∷ ps) h = (h.0, red_shown-AllPlaced n es reds ps h.1)

inserted-other :
    (es : List Entry) (color red : Option (List Spec)) (reds : List Spec) (s : Spec)
    → red ≡ some reds
    → differs_from s reds ≡ true
    → mask_at es s.port s.pin ≡ false
    → mask_at (insert_all es (pins (if_has_prop color red))) s.port s.pin ≡ false
unfolding if_has_prop
inserted-other es none red reds s is d h = h
inserted-other es (some _) red reds s is d h = rw is (mask_at-insert_all es reds s d ∙ h)

-- Only red pins are entered.
entries-other :
    (n : Node) (reds : List Spec) (s : Spec)
    → n.red_gpios ≡ some reds
    → differs_from s reds ≡ true
    → mask_at (entries (config_of n)) s.port s.pin ≡ false
unfolding config_of
entries-other n reds s red d = inserted-other _ n.blue_gpios n.red_gpios reds s red d (
    inserted-other _ n.green_gpios n.red_gpios reds s red d
      (inserted-other [] n.red_gpios n.red_gpios reds s red d refl))

reds-AllPlaced :
    (n : Node) (reds : List Spec) → n.red_gpios ≡ some reds → AllPlaced (entries (config_of n)) reds
unfolding config_of if_has_prop
reds-AllPlaced n reds red = here n.red_gpios red (entries-Fits (config_of n)).1
  where
    here :
        (o : Option (List Spec))
        → o ≡ some reds
        → AllPlaced (entries (config_of n)) (pins (if_has_prop o o))
        → AllPlaced (entries (config_of n)) reds
    here o is h = rw is at h

red_length_lem :
    (n : Node) (reds : List Spec)
    → n.red_gpios ≡ some reds
    → HasLength n.chain_length (config_of n).red_gpios
    → length reds ≡ n.chain_length
unfolding config_of if_has_prop
red_length_lem n reds red h = here n.red_gpios red h
  where
    here :
        (o : Option (List Spec))
        → o ≡ some reds
        → HasLength n.chain_length (if_has_prop o o)
        → length reds ≡ n.chain_length
    here o is h = rw is at h

-- On a strip from the devicetree with red pins, wired as it should be with each red pin once, and with ports
-- that take what they are given, init succeeds, and after it and any updates that are not longer than the
-- strip, an update with at most as many pixels as there are LEDs returns 0. Each red pin of these LEDs is
-- then lit exactly if its pixel's value is not 0 of the last of red, green and blue that the strip has. No
-- pin but the red ones has been set.
pub update_rgb-red :
    (hw : Hardware)
    → ((k : ℕ) → is_neg (hw.answers k) ≡ false)
    → (n : Node) (reds : List Spec) (m : ℕ) → n.red_gpios ≡ some reds
    → all_different reds ≡ true
    → IsWired hw (config_of n) m
    → (d : Strip) (earlier : List (List Pixel)) (ps : List Pixel) → d.gpio_map ≡ unused m
    → d.calls ≡ []
    → All (λ ps. length ps ≤ n.chain_length) earlier
    → length ps ≤ n.chain_length
    → let (started, d1) = init hw (config_of n) d in
      let (ret, d2) = update_rgb hw (updates hw d1 earlier) ps in
      (started ≡ code (pos 0))
      × (ret ≡ code (pos 0))
      × All (λ t. level d2.calls t.0.port t.0.pin ≡ some t.1) (red_shown n reds ps)
      × ((s : Spec) → differs_from s reds ≡ true → level d2.calls s.port s.pin ≡ none)
unfolding config_of
update_rgb-red hw works n reds m red different w d earlier ps fresh quiet h l =
    let c : Config = config_of n in
    let (started, r, calls) = init-IsReady hw works c m w d fresh in
    let (r', before) = updates-IsReady hw works c m w (init hw c d).1 earlier h r in
    let len : length reds ≡ n.chain_length = red_length_lem n reds red w.red_length in
    let d1 : Strip = updates hw (init hw c d).1 earlier in
    let (ret, _, set, others) = update_rgb-level hw works c m w d1 ps r' l in
    (
      started,
      ret,
      all_set (entries c) (update_rgb hw d1 ps).1.calls (λ b s. last_at (lamps c 0 ps) b s)
          (red_shown n reds ps) set
          (red_shown-AllPlaced n (entries c) reds ps (reds-AllPlaced n reds red))
          (All-map (λ t. (b : Bool) → last_at (red_shown n reds ps) b t.0 ≡ t.1)
            (λ t. (b : Bool) → last_at (lamps c 0 ps) b t.0 ≡ t.1)
            (λ t h b. last_at-lamps n reds 0 ps b t.0 red (omega (arith, l, len)) ∙ h b)
            (red_shown n reds ps)
            (last_at-different (red_shown n reds ps)
              (red_shown-all_different n reds ps different))),
      λ s other.
          let outside : mask_at (entries c) s.port s.pin ≡ false =
            entries-other n reds s red other in
          others s outside ∙ before s outside ∙ ap (λ cs. level cs s.port s.pin) (calls ∙ quiet),
    )
