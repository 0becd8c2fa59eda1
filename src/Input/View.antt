-- ===== src/Input/View.antt =====
-- What a listener to the error events of one device knows: the code of the last error event that
-- was delivered, or 0 where that event cleared an error.
use nturt_zephyr_common.Base.{ℕ, ◌&&◌, not, List, [], ◌∷◌, ◌==◌, if◌then◌else◌}
use nturt_zephyr_common.Base.Int.{ℤ, pos, eqb_ℤ, is_neg}
use nturt_zephyr_common.Input.{ev_abs, ev_error, ev_other, Call, report, raw_cb}

abbrev pub known_error : ℕ → List Call → ℕ
known_error d [] = 0
known_error d (raw_cb e v ∷ cs) = known_error d cs
known_error d (report e ev_abs code value ret ∷ cs) = known_error d cs
known_error d (report e ev_other code value ret ∷ cs) = known_error d cs
known_error d (report e ev_error code value ret ∷ cs) =
    if (e == d) && not (is_neg ret)
    then if eqb_ℤ value (pos 0) then 0 else code
    else known_error d cs

-- The value of the device's axis: that of the last absolute event that was delivered, at first 0.
abbrev pub axis_value : ℕ → List Call → ℤ
axis_value d [] = pos 0
axis_value d (raw_cb e v ∷ cs) = axis_value d cs
axis_value d (report e ev_error code value ret ∷ cs) = axis_value d cs
axis_value d (report e ev_other code value ret ∷ cs) = axis_value d cs
axis_value d (report e ev_abs code value ret ∷ cs) =
    if (e == d) && not (is_neg ret) then value else axis_value d cs
