-- ===== src/Rounding.antt =====
-- apps/parted/libparted/cs/natmath.c: remainders and rounding.
pub mod Laws
use uparted.Base.{eqb_ℤ, if◌then◌else◌, ltb_ℤ, pos, ℤ, ◌%ℤ◌, ◌+ℤ◌, ◌-ℤ◌, ◌/ℤ◌}

-- `abs_mod`
unfoldable pub abs_mod : ℤ → ℤ → ℤ
abs_mod a b = if ltb_ℤ a (pos 0) then a %ℤ b +ℤ b else a %ℤ b

-- `ped_round_down_to`, `ped_round_up_to` and `ped_round_to_nearest`
unfoldable pub round_down_to : ℤ → ℤ → ℤ
round_down_to sector grain_size = sector -ℤ abs_mod sector grain_size

unfoldable pub round_up_to : ℤ → ℤ → ℤ
round_up_to sector grain_size =
    if eqb_ℤ (sector %ℤ grain_size) (pos 0)
    then sector
    else round_down_to sector grain_size +ℤ grain_size

unfoldable pub round_to_nearest : ℤ → ℤ → ℤ
round_to_nearest sector grain_size =
    if ltb_ℤ (grain_size /ℤ pos 2) (sector %ℤ grain_size)
    then round_up_to sector grain_size
    else round_down_to sector grain_size
