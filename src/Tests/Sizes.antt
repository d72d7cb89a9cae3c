-- ===== src/Tests/Sizes.antt =====
-- Runs of fs/r/fat/calc.c.
use uparted.Base.{Option, arith, pos, refl, some, ◌*ℤ◌, ◌*◌, ◌+ℤ◌, ◌+◌, ◌-ℤ◌, ◌/ℤ◌, ◌≡◌, ◌≤ℤ◌}
use uparted.Fat.{fat16}
use uparted.Fat.Calc.{
  Sizes, calc_sizes, data_fat_space, div_round_up, fat_calc_sizes, final_sizes, max_cluster_count,
  min_cluster_count, or_else, recommend_min_cluster_size, round_space, search_sizes, sectors_for,
  size_round, to_32, try_larger, try_smaller,
}
use uparted.Fat.Calc.Choice.{Chosen, fat_calc_sizes_lem}
use uparted.Fat.Calc.Fits.{calc_sizes-fits}

-- With clusters of one sector a FAT16 file system of 33024 sectors, one of them reserved, is given
-- 32767 clusters and two tables of 129 sectors: two sectors more than there are.
too_large : calc_sizes (pos 33024) (pos 0) fat16 (pos 0) (pos 1) ≡ some (32767, pos 129)
unfolding calc_sizes size_round final_sizes sectors_for div_round_up to_32 data_fat_space
    round_space max_cluster_count min_cluster_count ◌-ℤ◌ ◌+ℤ◌ ◌*ℤ◌ ◌/ℤ◌
too_large = refl

-- `fat_calc_sizes` takes that size.
too_large_taken :
    fat_calc_sizes (pos 33024) (pos 0) fat16 (pos 0)
    ≡ some (some (record { cluster_sectors = pos 1; cluster_count = 32767; fat_size = pos 129 }))
unfolding fat_calc_sizes search_sizes recommend_min_cluster_size try_larger try_smaller or_else
    calc_sizes size_round final_sizes sectors_for div_round_up to_32 data_fat_space round_space
    max_cluster_count min_cluster_count ◌-ℤ◌ ◌+ℤ◌ ◌*ℤ◌ ◌/ℤ◌
too_large_taken = refl

fat_calc_sizes_lem_example :
    (r : Option Sizes) × (fat_calc_sizes (pos 33024) (pos 0) fat16 (pos 0) ≡ some r)
    × Chosen (calc_sizes (pos 33024) (pos 0) fat16 (pos 0)) fat16 r
fat_calc_sizes_lem_example = fat_calc_sizes_lem (pos 33024) (pos 0) fat16 (pos 0)

calc_sizes-fits_example : pos (1 + 0 + 0 + 32767 * 1) +ℤ pos 2 *ℤ pos 129 ≤ℤ pos (33024 + 2)
calc_sizes-fits_example =
    calc_sizes-fits fat16 33024 0 0 1 32767 (pos 129) (omega arith) (omega arith) (omega arith)
      too_large
