-- ===== src/LedStrip/Shown.antt =====
-- drivers/led_strip/gpio/led_strip_gpio.c: the pins after init and `led_strip_gpio_update_rgb`.
use nturt_zephyr_common.Base.{
  ℕ, suc, ◌-◌, ◌≤◌, ◌≡◌, refl, ap, sym, ◌∙◌, Bool, true, false, some, List, [], ◌∷◌, ◌++◌, map,
  arith, All, length,
}
use nturt_zephyr_common.Base.Int.{pos, is_neg}
use nturt_zephyr_common.SegDisplay.{Spec, Entry, Hardware, Call, code, set_from}
use nturt_zephyr_common.SegDisplay.Slots.{unused}
use nturt_zephyr_common.SegDisplay.Lookup.{mask_at, value_at, IsDistinct}
use nturt_zephyr_common.SegDisplay.Placed.{IsPlaced, insert_rows-IsDistinct, insert_rows-IsPlaced}
use nturt_zephyr_common.SegDisplay.Drive.{assign_all}
use nturt_zephyr_common.SegDisplay.Values.{
  all_different, AllPlaced, All-append, assign_all-append, assign_all-IsDistinct,
  mask_at-assign_all,
}
use nturt_zephyr_common.SegDisplay.Sent.{level, sent_all, set_from_lem, level-other}
use nturt_zephyr_common.LedStrip.{
  Config, Strip, Pixel, init, set_pixels, updated, update_rgb, set_gpios,
}
use nturt_zephyr_common.LedStrip.Lamps.{
  pins, lamps, Fits, Fits-assign_all, HasEntered, set_pixels_lem,
}
use nturt_zephyr_common.LedStrip.Setup.{rows, entries, IsWired, IsWired-room, init_lem}
use nturt_zephyr_common.LedStrip.Last.{
  last_at, value_at-assign_all, last_at-different, lamps-AllPlaced,
}

-- What holds of the strip between two calls.
pub record IsReady (c : Config) (d : Strip) : Type 0 where
  values : List (Spec × Bool)
  left : ℕ
  mapped : d.gpio_map ≡ assign_all (entries c) values ++ unused (suc left)
  entered : HasEntered c (entries c) d

pub entries-Fits : (c : Config) → Fits c (entries c) (entries c)
entries-Fits c =
    let (red, rest) =
      All-append (IsPlaced (entries c)) (pins c.red_gpios) _ (insert_rows-IsPlaced (rows c)) in
    let (green, rest') = All-append (IsPlaced (entries c)) (pins c.green_gpios) _ rest in
    let (blue, _) = All-append (IsPlaced (entries c)) (pins c.blue_gpios) [] rest' in
    (λ port. refl, red, green, blue)

-- Updates, one after the other.
abbrev pub updates : Hardware → Strip → List (List Pixel) → Strip
updates hw d [] = d
updates hw d (ps ∷ rest) = updates hw (update_rgb hw d ps).1 rest

-- From the levels by what is asked last, those of a list whose pins are in the masks.
pub all_set :
    (es : List Entry) (calls : List Call) (asked : Bool → Spec → Bool) (ts : List (Spec × Bool))
    → ((s : Spec)
        → mask_at es s.port s.pin ≡ true
        → (b : Bool) × (level calls s.port s.pin ≡ some (asked b s)))
    → AllPlaced es (map (λ t. t.0) ts)
    → All (λ t. (b : Bool) → asked b t.0 ≡ t.1) ts
    → All (λ t. level calls t.0.port t.0.pin ≡ some t.1) ts
all_set es calls asked [] set placed vals = tt
all_set es calls asked ((s, v) ∷ ts) set placed vals =
    let (b, is) = set s placed.0.1 in
    (is ∙ ap some (vals.0 b), all_set es calls asked ts set placed.1 vals.1)

module _ (hw : Hardware) (works : (n : ℕ) → is_neg (hw.answers n) ≡ false) (c : Config) (m : ℕ)
    (w : IsWired hw c m) where
  -- A pin of the strip gets what the pixels ask of it last, and no other pin is set.
  pub update_rgb-level :
      (d : Strip) (ps : List Pixel)
      → IsReady c d
      → length ps ≤ c.num_led
      → let (ret, d') = update_rgb hw d ps in
        (ret ≡ code (pos 0))
        × IsReady c d'
        × ((s : Spec)
            → mask_at (entries c) s.port s.pin ≡ true
            → (b : Bool) × (level d'.calls s.port s.pin ≡ some (last_at (lamps c 0 ps) b s)))
        × ((s : Spec)
            → mask_at (entries c) s.port s.pin ≡ false
            → level d'.calls s.port s.pin ≡ level d.calls s.port s.pin)
  unfolding update_rgb updated set_gpios
  update_rgb-level d ps r l =
      let es : List Entry = assign_all (entries c) r.values in
      let fits : Fits c (entries c) es =
        Fits-assign_all c (entries c) (entries c) r.values (entries-Fits c) in
      let ts : List (Spec × Bool) = lamps c 0 ps in
      let es' : List Entry = assign_all es ts in
      let looped : set_pixels d 0 ps d.gpio_map ≡ some (es' ++ unused (suc r.left)) =
        ap (λ k. set_pixels d 0 ps k) r.mapped
        ∙ set_pixels_lem c (entries c) (unused (suc r.left)) d c.num_led (IsWired-room hw c m w)
            r.entered es 0 ps (omega (arith, l)) fits in
      let distinct : IsDistinct es' =
        assign_all-IsDistinct es ts
          (assign_all-IsDistinct (entries c) r.values (insert_rows-IsDistinct (rows c))) in
      let did : set_from hw (es' ++ unused (suc r.left)) d.calls
          ≡ (code (pos 0), sent_all hw works es' d.calls) =
        set_from_lem hw works es' r.left d.calls distinct in
      let masks : (s : Spec) → mask_at es' s.port s.pin ≡ mask_at (entries c) s.port s.pin = λ s.
        mask_at-assign_all es ts s.port s.pin
        ∙ mask_at-assign_all (entries c) r.values s.port s.pin in
      rw (looped, did)
        (
          refl,
          record {
            values = r.values ++ ts;
            left = r.left;
            mapped =
                ap (λ k. k ++ unused (suc r.left))
                  (sym (assign_all-append (entries c) r.values ts));
            entered = r.entered;
          },
          λ s in_mask. (
            value_at es s.port s.pin,
            level-other hw works es' d.calls s.port s.pin distinct
                ∙ rw (masks s ∙ in_mask) (
                    ap some
                      (value_at-assign_all es ts s (lamps-AllPlaced c (entries c) es 0 ps fits))),
          ),
          λ s outside.
              level-other hw works es' d.calls s.port s.pin distinct ∙ rw (masks s ∙ outside) refl,
        )

  pub init-IsReady :
      (d : Strip)
      → d.gpio_map ≡ unused m
      → let (ret, d') = init hw c d in (ret ≡ code (pos 0)) × IsReady c d' × (d'.calls ≡ d.calls)
  init-IsReady d fresh =
      let (ret, mapped, entered, calls) = init_lem hw c m w d fresh in
      (
        ret,
        record {
          values = [];
          left = m - length (entries c) - 1;
          mapped = mapped;
          entered = entered;
        },
        calls,
      )

  pub updates-IsReady :
      (d : Strip) (earlier : List (List Pixel))
      → All (λ ps. length ps ≤ c.num_led) earlier
      → IsReady c d
      → IsReady c (updates hw d earlier)
        × ((s : Spec)
            → mask_at (entries c) s.port s.pin ≡ false
            → level (updates hw d earlier).calls s.port s.pin ≡ level d.calls s.port s.pin)
  updates-IsReady d [] h r = (r, λ s outside. refl)
  updates-IsReady d (ps ∷ earlier) h r =
      let (_, r', _, others) = update_rgb-level d ps r h.0 in
      let (r'', others') = updates-IsReady (update_rgb hw d ps).1 earlier h.1 r' in
      (r'', λ s outside. others' s outside ∙ others s outside)

  -- On a strip that is wired as it should be, with ports that take what they are given, init succeeds, and
  -- after it and any updates that are not longer than the strip, an update with at most as many pixels as
  -- there are LEDs, whose lamps are on pins of their own, returns 0 and sets each lamp: it is lit exactly
  -- if the pixel's value of its colour is not 0.
  pub update_rgb-lit :
      (d : Strip) (earlier : List (List Pixel)) (ps : List Pixel)
      → d.gpio_map ≡ unused m
      → All (λ ps. length ps ≤ c.num_led) earlier
      → length ps ≤ c.num_led
      → all_different (map (λ t. t.0) (lamps c 0 ps)) ≡ true
      → let (started, d1) = init hw c d in
        let (ret, d2) = update_rgb hw (updates hw d1 earlier) ps in
        (started ≡ code (pos 0))
        × (ret ≡ code (pos 0))
        × All (λ t. level d2.calls t.0.port t.0.pin ≡ some t.1) (lamps c 0 ps)
  update_rgb-lit d earlier ps fresh h l different =
      let (started, r, _) = init-IsReady d fresh in
      let (r', _) = updates-IsReady (init hw c d).1 earlier h r in
      let (ret, _, set, _) = update_rgb-level (updates hw (init hw c d).1 earlier) ps r' l in
      (
        started,
        ret,
        all_set (entries c) (update_rgb hw (updates hw (init hw c d).1 earlier) ps).1.calls
            (λ b s. last_at (lamps c 0 ps) b s) (lamps c 0 ps) set
            (lamps-AllPlaced c (entries c) (entries c) 0 ps (entries-Fits c))
            (last_at-different (lamps c 0 ps) different),
      )
