-- ===== src/SegDisplay/Shown.antt =====
-- drivers/auxdisplay/gpio-seg-display/gpio_seg_display.c: the pins after `gpio_seg_display_init` and
-- after `gpio_seg_display_write`.
use nturt_zephyr_common.SegDisplay.Sent.{level, sent_all, set_from_lem, shown_all}
use mathlib.Core.List.{append-nil}
use nturt_zephyr_common.Base.{
  ℕ, zero, suc, ◌-◌, ◌*◌, ◌<◌, ◌≡◌, refl, ap, ap₂, sym, ◌∙◌, Bool, true, false, some, List, [], ◌∷◌,
  ◌++◌, map, arith, take, All, length,
}
use nturt_zephyr_common.Base.Int.{pos, is_neg}
use nturt_zephyr_common.SegDisplay.Glyphs.{Glyph, glyph}
use nturt_zephyr_common.SegDisplay.{
  Spec, Entry, Config, num_disp, num_gpio, Call, Hardware, Display, Ret, code, set_from, set_gpios,
  drive, Rendered, shown, write_val, write, render, clear, blanks, invalid, out_of_bounds,
}
use nturt_zephyr_common.SegDisplay.Setup.{done, init_rows, cleared_after, init}
use nturt_zephyr_common.SegDisplay.Text.{fill, text_cells, is_supported, is_end}
use nturt_zephyr_common.SegDisplay.Render.{render_lem}
use nturt_zephyr_common.SegDisplay.Slots.{
  unused, insert_rows, seg_rows, built, IsUsable, init_rows_lem,
}
use nturt_zephyr_common.SegDisplay.Lookup.{IsDistinct}
use nturt_zephyr_common.SegDisplay.Placed.{
  seg_in, flat, seg_rows_lem, insert_rows-IsDistinct, insert_rows-IsPlaced,
}
use nturt_zephyr_common.SegDisplay.Drive.{wanted, assign_all}
use nturt_zephyr_common.SegDisplay.Values.{
  all_different, AllPlaced, AllPlaced-assign_all, drive_lem, assign_all_lem, wanted-pins,
  assign_all-IsDistinct, slot-assign_all, assign_all-append,
}

-- The wiring that a display needs: pins that are ready and can be configured, as many to a digit as it has
-- segments at most, none of them twice; at least one digit; fewer ports than entries of `gpio_map`.
pub record IsWired (hw : Hardware) (c : Config) : Type 0 where
  pub usable : All (λ row. All (IsUsable hw) row × (take (num_gpio c) row ≡ row)) c.gpios
  pub different : all_different (flat c.gpios) ≡ true
  pub has_digit : 0 < num_disp c
  pub fewer_ports : length (insert_rows [] c.gpios) < 8 * num_disp c

-- What holds of the display between two calls.
record IsReady (c : Config) (d : Display) : Type 0 where
  values : List (Spec × Bool)
  left : ℕ
  mapped : d.gpio_map ≡ assign_all (insert_rows [] c.gpios) values ++ unused (suc left)
  segments : d.gpios ≡ map (map (seg_in (insert_rows [] c.gpios))) c.gpios

-- Each pin has been set to its bit of the digits.
abbrev pub Shows : Config → List Glyph → Display → Type 0
Shows c val d = All (λ t. level d.calls t.0.port t.0.pin ≡ some t.1) (wanted c.gpios val)

length-fill : (n : ℕ) (gs : List Glyph) → length (fill n gs) ≡ n
length-fill zero gs = refl
length-fill (suc n) [] = ap suc (length-fill n [])
length-fill (suc n) (g ∷ gs) = ap suc (length-fill n gs)

module _ (hw : Hardware) (c : Config) where
  -- Texts, one after the other.
  abbrev pub writes : Display → List (List ℕ) → Display
  writes d [] = d
  writes d (text ∷ texts) = writes (write hw c d text).1 texts

module _ (hw : Hardware) (c : Config) (works : (n : ℕ) → is_neg (hw.answers n) ≡ false)
    (w : IsWired hw c) where
  write_val-shown :
      (d : Display) (val : List Glyph)
      → IsReady c d
      → let (ret, d') = write_val hw d (shown val) in
        (ret ≡ code (pos 0)) × IsReady c d' × (length val ≡ num_disp c → Shows c val d')
  unfolding write_val set_gpios
  write_val-shown d val r =
      let es0 : List Entry = insert_rows [] c.gpios in
      let es : List Entry = assign_all es0 r.values in
      let placed : AllPlaced es (flat c.gpios) =
        AllPlaced-assign_all es0 r.values (flat c.gpios) (insert_rows-IsPlaced c.gpios) in
      let es' : List Entry = assign_all es (wanted c.gpios val) in
      let driven : drive d.gpio_map d.gpios val ≡ es' ++ unused (suc r.left) =
        ap₂ (λ m g. drive m g val) r.mapped r.segments
        ∙ drive_lem es0 (unused (suc r.left)) es c.gpios val placed
            (slot-assign_all es0 r.values) in
      let distinct : IsDistinct es' =
        assign_all-IsDistinct es (wanted c.gpios val)
          (assign_all-IsDistinct es0 r.values (insert_rows-IsDistinct c.gpios)) in
      let did : set_from hw (drive d.gpio_map d.gpios val) d.calls
          ≡ (code (pos 0), sent_all hw works es' d.calls) =
        ap (λ m. set_from hw m d.calls) driven
        ∙ set_from_lem hw works es' r.left d.calls distinct in
      (
        ap (λ (x : Ret × List Call). x.0) did,
        record {
          values = r.values ++ wanted c.gpios val;
          left = r.left;
          mapped =
              driven
              ∙ ap (λ m. m ++ unused (suc r.left))
                  (sym (assign_all-append es0 r.values (wanted c.gpios val)));
          segments = r.segments;
        },
        λ len.
            let pins : map (λ t. t.0) (wanted c.gpios val) ≡ flat c.gpios =
              wanted-pins c.gpios val len in
            rw did (
              shown_all hw works es' d.calls (wanted c.gpios val) distinct
                (rw pins (AllPlaced-assign_all es (wanted c.gpios val) (flat c.gpios) placed))
                (assign_all_lem es (wanted c.gpios val) (rw pins w.different) (rw pins placed))),
      )

  write_val-IsReady : (d : Display) (r : Rendered) → IsReady c d → IsReady c (write_val hw d r).1
  unfolding write_val
  write_val-IsReady d invalid h = h
  write_val-IsReady d out_of_bounds h = h
  write_val-IsReady d (shown val) h = (write_val-shown d val h).1

  write-IsReady : (d : Display) (text : List ℕ) → IsReady c d → IsReady c (write hw c d text).1
  unfolding write
  write-IsReady d text h = write_val-IsReady d (render c text) h

  write-shown :
      (d : Display) (text tail : List ℕ)
      → IsReady c d
      → All (λ chr. is_supported c chr ≡ true) text
      → is_end tail ≡ true
      → let (ret, d') = write hw c d (text ++ tail) in
        (ret ≡ code (pos 0)) × IsReady c d' × Shows c (fill (num_disp c) (text_cells text)) d'
  unfolding write
  write-shown d text tail r h e =
      let val : List Glyph = fill (num_disp c) (text_cells text) in
      let (ret, r', shows) = write_val-shown d val r in
      rw (render_lem c text tail w.has_digit h e)
        (ret, r', shows (length-fill (num_disp c) (text_cells text)))

  blanks-supported : (n : ℕ) → All (λ chr. is_supported c chr ≡ true) (blanks hw n)
  unfolding glyph
  blanks-supported zero = tt
  blanks-supported (suc n) = (refl, blanks-supported n)

  init_lem :
      (d : Display)
      → d.gpio_map ≡ unused (8 * num_disp c)
      → let (ret, d') = init hw c d in
        (ret ≡ code (pos 0))
        × IsReady c d'
        × Shows c (fill (num_disp c) (text_cells (blanks hw (num_disp c)))) d'
  unfolding init cleared_after clear
  init_lem d fresh =
      let n : ℕ = 8 * num_disp c in
      let es0 : List Entry = insert_rows [] c.gpios in
      let start : record { gpio_map = d.gpio_map; gpio_map_index = 0 } ≡ built n [] =
        ap (λ m. record { gpio_map = m; gpio_map_index = 0 })
          (fresh ∙ ap unused {y = n - 0} (omega arith)) in
      let did : init_rows hw (record { gpio_map = d.gpio_map; gpio_map_index = 0 }) (num_gpio c)
            c.gpios
          ≡ done (built n es0, seg_rows [] c.gpios) =
        ap (λ b. init_rows hw b (num_gpio c) c.gpios) start
        ∙ init_rows_lem hw n [] (num_gpio c) c.gpios w.usable (omega (arith, w.fewer_ports)) in
      let d1 : Display = record d {
        gpio_map = (built n es0).gpio_map;
        gpios = seg_rows [] c.gpios;
      } in
      let ready : IsReady c d1 = record {
        values = [];
        left = n - length es0 - 1;
        mapped =
            ap (λ k. es0 ++ unused k) {y = suc (8 * num_disp c - length es0 - 1)}
              (omega (arith, w.fewer_ports));
        segments = seg_rows_lem [] c.gpios;
      } in
      rw did (
        rw (append-nil (blanks hw (num_disp c))) at
          (write-shown d1 (blanks hw (num_disp c)) [] ready (blanks-supported (num_disp c)) refl))

  writes-IsReady :
      (d : Display) (texts : List (List ℕ)) → IsReady c d → IsReady c (writes hw c d texts)
  writes-IsReady d [] h = h
  writes-IsReady d (text ∷ texts) h =
      writes-IsReady (write hw c d text).1 texts (write-IsReady d text h)

  -- On a display that is wired as it should be, with ports that take what they are given, `init` succeeds,
  -- and after it and any writes, a text of characters that the display can show is written without an
  -- error. Each pin is then set to its segment of the digits of the text: cut off behind the last digit
  -- of the display, and with blanks where the text is shorter.
  pub write-Shows :
      (d : Display) (earlier : List (List ℕ)) (text tail : List ℕ)
      → d.gpio_map ≡ unused (8 * num_disp c)
      → All (λ chr. is_supported c chr ≡ true) text
      → is_end tail ≡ true
      → let (started, d1) = init hw c d in
        let (ret, d2) = write hw c (writes hw c d1 earlier) (text ++ tail) in
        (started ≡ code (pos 0))
        × (ret ≡ code (pos 0))
        × Shows c (fill (num_disp c) (text_cells text)) d2
  write-Shows d earlier text tail fresh h e =
      let (started, r, _) = init_lem d fresh in
      let (ret, _, shows) =
        write-shown (writes hw c (init hw c d).1 earlier) text tail
          (writes-IsReady (init hw c d).1 earlier r) h e in
      (started, ret, shows)
