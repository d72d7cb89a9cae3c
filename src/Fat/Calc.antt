-- ===== src/Fat/Calc.antt =====
-- apps/parted/libparted/fs/r/fat/calc.c: the sizes of clusters and tables, and where they lie.
pub mod Bounds
pub mod Search
pub mod Found
pub mod Choice
pub mod Rounds
pub mod Fits
use uparted.Base.{
  Option, if◌then◌else◌, leb_ℤ, ltb, ltb_ℤ, max_ℤ, negsuc, none, pos, pos_part, some, suc, zero, ℕ,
  ℤ, ◌%◌, ◌*ℤ◌, ◌+ℤ◌, ◌-ℤ◌, ◌-◌, ◌/ℤ◌, ◌/◌, ◌^◌, ◌||◌,
}
use uparted.Fat.{FatType, add_32, fat12, fat16, fat32}

-- The conversion of a number to `FatCluster`, and that of a `FatCluster` to `FatFragment`, `int32_t`.
unfoldable pub to_32 : ℤ → ℕ
to_32 (pos n) = n % 2 ^ 32
to_32 (negsuc n) = 2 ^ 32 - 1 - n % 2 ^ 32

unfoldable pub to_fragment : ℕ → ℤ
to_fragment n = if ltb n (2 ^ 31) then pos n else pos n -ℤ pos (2 ^ 32)

-- `ped_div_round_up`
unfoldable pub div_round_up : ℤ → ℤ → ℤ
div_round_up numerator divisor = (numerator +ℤ divisor -ℤ pos 1) /ℤ divisor

-- `fat_min_cluster_size`, `fat_max_cluster_size`
abbrev pub min_cluster_size : FatType → ℤ
min_cluster_size fat12 = pos 1
min_cluster_size fat16 = pos 2
min_cluster_size fat32 = pos 8

abbrev pub max_cluster_size : FatType → ℤ
max_cluster_size fat12 = pos 1
max_cluster_size fat16 = pos 128
max_cluster_size fat32 = pos 128

-- `fat_max_cluster_count`, `fat_min_cluster_count`
unfoldable pub max_cluster_count : FatType → ℕ
max_cluster_count fat12 = 0xff0
max_cluster_count fat16 = 0xfff0
max_cluster_count fat32 = 0x0ffffff0

unfoldable pub min_cluster_count : FatType → ℕ
unfolding max_cluster_count
min_cluster_count fat12 = max_cluster_count fat12 / 2
min_cluster_count fat16 = max_cluster_count fat16 / 2
min_cluster_count fat32 = 0xfff0

-- `fat_min_reserved_sector_count`
abbrev pub min_reserved_sector_count : FatType → ℤ
min_reserved_sector_count fat12 = pos 1
min_reserved_sector_count fat16 = pos 1
min_reserved_sector_count fat32 = pos 32

-- `entries_per_sector`
abbrev pub entries_per_sector : FatType → ℕ
entries_per_sector fat12 = 768
entries_per_sector fat16 = 256
entries_per_sector fat32 = 128

-- The loop of `_smallest_power2_over`; `none` says that the fuel ran out, here and below.
unfoldable pub power2_from : ℕ → ℤ → ℤ → Option ℤ
power2_from zero result ceiling = none
power2_from (suc fuel) result ceiling =
    let rest = power2_from fuel (result *ℤ pos 2) ceiling in
    if ltb_ℤ result ceiling then rest else some result

-- `_smallest_power2_over`
unfoldable pub smallest_power2_over : ℤ → Option ℤ
smallest_power2_over ceiling = power2_from (suc (pos_part ceiling)) (pos 1) ceiling

-- `fat_recommend_min_cluster_size`, with `MAX_FAT32_CLUSTERS`.
unfoldable pub recommend_min_cluster_size : FatType → ℤ → Option ℤ
recommend_min_cluster_size fat12 size = some (pos 1)
recommend_min_cluster_size fat16 size = some (min_cluster_size fat16)
recommend_min_cluster_size fat32 size = elim (smallest_power2_over (size /ℤ pos 2000000)) [
  | none ↦ none
  | some power ↦ some (max_ℤ power (min_cluster_size fat32))
]

-- The sectors of a table for so many clusters.
unfoldable pub sectors_for : FatType → ℕ → ℤ
unfolding div_round_up
sectors_for fat_type cluster_count =
    div_round_up (pos (add_32 cluster_count 2)) (pos (entries_per_sector fat_type))

-- `data_fat_space`
unfoldable pub data_fat_space : ℤ → ℤ → FatType → ℤ → ℤ
data_fat_space size align fat12 root_dir_sectors = size -ℤ min_reserved_sector_count fat12 -ℤ align
data_fat_space size align fat16 root_dir_sectors =
    size -ℤ min_reserved_sector_count fat16 -ℤ align -ℤ root_dir_sectors
data_fat_space size align fat32 root_dir_sectors = size -ℤ min_reserved_sector_count fat32 -ℤ align

-- The space of the clusters in a round of the loop of `calc_sizes`.
unfoldable pub round_space : FatType → ℤ → ℤ → ℤ
round_space fat12 space fat_space = space -ℤ pos 2 *ℤ fat_space
round_space fat16 space fat_space = space -ℤ pos 2 *ℤ fat_space
round_space fat32 space fat_space = space -ℤ fat_space

-- A round of that loop: the next `fat_space`.
unfoldable pub size_round : FatType → ℤ → ℤ → ℤ → ℤ
unfolding round_space
size_round fat_type space cluster_sectors fat_space =
    sectors_for fat_type (to_32 (round_space fat_type space fat_space /ℤ cluster_sectors))

-- `calc_sizes` behind the loop.
unfoldable pub final_sizes : FatType → ℤ → ℤ → ℤ → Option (ℕ × ℤ)
unfolding to_32
final_sizes fat_type space cluster_sectors fat_space =
    let cluster_count = to_32 ((space -ℤ pos 2 *ℤ fat_space) /ℤ cluster_sectors) in
    let needed = sectors_for fat_type cluster_count in
    if ltb (max_cluster_count fat_type) cluster_count
      || ltb cluster_count (min_cluster_count fat_type)
    then none
    else some (cluster_count, if ltb_ℤ fat_space needed then needed else fat_space)

-- `calc_sizes`; each caller passes a positive `cluster_sectors`. The result has `out_cluster_count`
-- and `out_fat_size`.
unfoldable pub calc_sizes : ℤ → ℤ → FatType → ℤ → ℤ → Option (ℕ × ℤ)
unfolding size_round final_sizes
calc_sizes size align fat_type root_dir_sectors cluster_sectors =
    let space = data_fat_space size align fat_type root_dir_sectors in
    let first = size_round fat_type space cluster_sectors (pos 0) in
    final_sizes fat_type space cluster_sectors (size_round fat_type space cluster_sectors first)

-- `out_cluster_sectors`, `out_cluster_count` and `out_fat_size`.
pub record Sizes : Type 0 where
  pub cluster_sectors : ℤ
  pub cluster_count : ℕ
  pub fat_size : ℤ

-- The body of the loops that look for a cluster size; `rest` is what the next rounds return. The
-- result is `some none` if no size fits.
unfoldable pub attempt_at : (ℤ → Option (ℕ × ℤ)) → ℤ → Option (Option Sizes) → Option (Option Sizes)
attempt_at attempt size rest = elim (attempt size) [
  | none ↦ rest
  | some (count, fat) ↦
      some (some (record { cluster_sectors = size; cluster_count = count; fat_size = fat }))
]

-- The first loop of `fat_calc_sizes`: the cluster size is doubled up to `most`.
unfoldable pub try_larger : (ℤ → Option (ℕ × ℤ)) → ℕ → ℤ → ℤ → Option (Option Sizes)
unfolding attempt_at
try_larger attempt zero size most = none
try_larger attempt (suc fuel) size most =
    let rest = try_larger attempt fuel (size *ℤ pos 2) most in
    if leb_ℤ size most then attempt_at attempt size rest else some none

-- The other loops, and that of `fat_calc_resize_sizes`: the cluster size is halved down to `least`.
unfoldable pub try_smaller : (ℤ → Option (ℕ × ℤ)) → ℕ → ℤ → ℤ → Option (Option Sizes)
unfolding attempt_at
try_smaller attempt zero size least = none
try_smaller attempt (suc fuel) size least =
    let rest = try_smaller attempt fuel (size /ℤ pos 2) least in
    if leb_ℤ least size then attempt_at attempt size rest else some none

-- The next loop runs if this one has not returned.
unfoldable pub or_else : Option (Option Sizes) → Option (Option Sizes) → Option (Option Sizes)
or_else none next = none
or_else (some none) next = next
or_else (some (some sizes)) next = some (some sizes)

-- The loops of `fat_calc_sizes`, the third with `cluster_sectors > 0` as `1 <= cluster_sectors`.
unfoldable pub search_sizes : (ℤ → Option (ℕ × ℤ)) → FatType → ℤ → Option (Option Sizes)
unfolding or_else
search_sizes attempt fat_type start =
    or_else (try_larger attempt 9 start (max_cluster_size fat_type)) (
      or_else (try_smaller attempt (suc (pos_part start)) start (min_cluster_size fat_type))
        (try_smaller attempt 5 (pos 4) (pos 1)))

-- `fat_calc_sizes`
unfoldable pub fat_calc_sizes : ℤ → ℤ → FatType → ℤ → Option (Option Sizes)
fat_calc_sizes size align fat_type root_dir_sectors =
    elim (recommend_min_cluster_size fat_type size) [
      | none ↦ none
      | some start ↦ search_sizes (calc_sizes size align fat_type root_dir_sectors) fat_type start
    ]

-- `fat_calc_resize_sizes` on a region of `size` sectors.
unfoldable pub fat_calc_resize_sizes : ℤ → ℤ → FatType → ℤ → ℤ → Option (Option Sizes)
fat_calc_resize_sizes size align fat_type root_dir_sectors cluster_sectors =
    try_smaller (calc_sizes size align fat_type root_dir_sectors) (suc (pos_part cluster_sectors))
      cluster_sectors (min_cluster_size fat_type)
