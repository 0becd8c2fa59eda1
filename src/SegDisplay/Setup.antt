-- ===== src/SegDisplay/Setup.antt =====
-- drivers/auxdisplay/gpio-seg-display/gpio_seg_display.c: `gpio_seg_display_init`, which gives each port
-- an entry of `gpio_map` and each segment the index of its port's entry.
use nturt_zephyr_common.Base.{
  ℕ, suc, Bool, true, false, not, none, some, List, [], ◌∷◌, ◌==◌, if◌then◌else◌, get_or, set, take,
}
use nturt_zephyr_common.Base.Int.{ℤ, is_neg}
use nturt_zephyr_common.SegDisplay.{
  Spec, Entry, Seg, Config, num_gpio, Hardware, Display, Ret, code, overrun, enodev, put, blank,
  clear,
}

-- `gpio_map` and `gpio_map_index`
pub record Build : Type 0 where
  pub gpio_map : List Entry
  pub gpio_map_index : ℕ

-- A result, an early return, or an access outside an array.
pub data Tried {ℓ} (A : Type ℓ) : Type ℓ where
  done : A → Tried A
  failed : ℤ → Tried A
  wild : Tried A

abbrev pub and_then {ℓ κ} : {A : Type ℓ} {B : Type κ} → Tried A → (A → Tried B) → Tried B
and_then (done a) f = f a
and_then (failed ret) f = failed ret
and_then wild f = wild

-- data->gpio_map[k].gpio_port == port
abbrev pub has_port : Entry → ℕ → Bool
has_port e port = elim e.gpio_port [ none ↦ false | some p ↦ p == port ]

-- The `while (true)` loop over the entries from `k` on: the entry where it breaks, and whether it is a
-- new one.
unfoldable pub find_slot : List Entry → ℕ → ℕ → ℕ → Tried (ℕ × Bool)
find_slot [] k gpio_map_index port = wild
find_slot (e ∷ es) k gpio_map_index port =
    let rest = find_slot es (suc k) gpio_map_index port in
    if has_port e port
    then done (k, false)
    else if k == gpio_map_index
    then done (k, true)
    else rest

-- What follows the loop for a segment.
unfoldable pub enter : Build → Spec → ℕ × Bool → Build × Seg
enter b spec (k, is_new) =
    let e = get_or b.gpio_map k blank in
    let e' = if is_new then record e { gpio_port = some spec.port } else e in
    (
      record {
        gpio_map = set b.gpio_map k (record e' { mask = put e'.mask spec.pin true });
        gpio_map_index = if is_new then suc b.gpio_map_index else b.gpio_map_index;
      },
      record { index = k; pin = spec.pin },
    )

unfoldable pub place : Build → Spec → Tried (Build × Seg)
unfolding find_slot enter
place b spec =
    and_then (find_slot b.gpio_map 0 b.gpio_map_index spec.port) (λ slot. done (enter b spec slot))

module _ (hw : Hardware) where
  -- The body of the inner loop.
  unfoldable pub init_gpio : Build → Spec → Tried (Build × Seg)
  unfolding place
  init_gpio b spec =
      if not (hw.is_ready spec)
      then failed enodev
      else if is_neg (hw.configured spec)
      then failed (hw.configured spec)
      else place b spec

  unfoldable pub init_row : Build → List Spec → Tried (Build × List Seg)
  unfolding init_gpio
  init_row b [] = done (b, [])
  init_row b (spec ∷ specs) =
      and_then (init_gpio b spec)
        (λ (b', seg). and_then (init_row b' specs) (λ (b'', segs). done (b'', seg ∷ segs)))

  -- The outer loop; `n` segments of each digit are used.
  unfoldable pub init_rows : Build → ℕ → List (List Spec) → Tried (Build × List (List Seg))
  unfolding init_row
  init_rows b n [] = done (b, [])
  init_rows b n (row ∷ rows) =
      and_then (init_row b (take n row))
        (λ (b', segs). and_then (init_rows b' n rows) (λ (b'', rest). done (b'', segs ∷ rest)))

  -- How `init` ends, from the outcome of the loops. A device whose `init` fails is not used, so what the
  -- loops have written until then is left out.
  unfoldable pub cleared_after : Config → Display → Tried (Build × List (List Seg)) → Ret × Display
  unfolding clear
  cleared_after c d (done (b, gpios)) =
      clear hw c (record d { gpio_map = b.gpio_map; gpios = gpios })
  cleared_after c d (failed ret) = (code ret, d)
  cleared_after c d wild = (overrun, d)

  unfoldable pub init : Config → Display → Ret × Display
  unfolding init_rows cleared_after
  init c d =
      cleared_after c d
        (init_rows (record { gpio_map = d.gpio_map; gpio_map_index = 0 }) (num_gpio c) c.gpios)
