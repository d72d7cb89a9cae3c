-- ===== src/Fat/Layout.antt =====
-- apps/parted/libparted/fs/r/fat/calc.c: clusters, fragments and sectors of a file system, and how a
-- resized one is laid over the old one.
pub mod Clusters
pub mod Frags
pub mod Match
use uparted.Base.{
  Bool, Option, if◌then◌else◌, leb_ℤ, ltb_ℤ, none, not, pos, pos_part, some, suc, zero, ℕ, ℤ, ◌%ℤ◌,
  ◌%◌, ◌&&◌, ◌*ℤ◌, ◌*◌, ◌+ℤ◌, ◌-ℤ◌, ◌/ℤ◌, ◌^◌,
}
use uparted.Geom.{Geometry}
use uparted.Fat.{FatType, fat12, fat16, fat32, sub_32}
use uparted.Fat.Table.{FatTable}
use uparted.Fat.Calc.{min_reserved_sector_count, to_32, to_fragment}

-- `struct _FatSpecific`, the members that calc.c reads, but for `frag_count`, which only the
-- assertions read.
pub record FatSpecific : Type 0 where
  pub cluster_sectors : ℤ
  pub cluster_count : ℕ
  pub fat_type : FatType
  pub fat_sectors : ℤ
  pub cluster_offset : ℤ
  pub root_dir_sector_count : ℤ
  pub total_dir_clusters : ℕ
  pub fat : FatTable
  pub frag_sectors : ℤ
  pub cluster_frags : ℤ

-- `struct _PedFileSystem`, with its `type_specific`.
pub record FileSystem : Type 0 where
  pub geom : Geometry
  pub info : FatSpecific

-- `fat_check_resize_geometry`: `false` is the error that there is too little free space.
unfoldable pub check_resize_geometry : FileSystem → ℤ → ℕ → Bool
check_resize_geometry fs new_cluster_sectors new_cluster_count =
    let dir_space = pos fs.info.total_dir_clusters *ℤ fs.info.cluster_sectors in
    let free_space = pos fs.info.fat.free_cluster_count *ℤ fs.info.cluster_sectors in
    let total_space = pos fs.info.fat.cluster_count *ℤ fs.info.cluster_sectors in
    let new_total_space = pos new_cluster_count *ℤ new_cluster_sectors in
    not (ltb_ℤ free_space (total_space -ℤ new_total_space +ℤ dir_space))

-- `new_meta_data_size` of `fat_calc_align_sectors`.
unfoldable pub meta_data_size : FatSpecific → ℤ
meta_data_size info =
    let tables = min_reserved_sector_count info.fat_type +ℤ info.fat_sectors *ℤ pos 2 in
    elim info.fat_type [
      | fat12 ↦ tables
      | fat16 ↦ tables +ℤ info.root_dir_sector_count
      | fat32 ↦ tables
    ]

-- The number of sectors that make the clusters match.
unfoldable pub match_clusters : ℤ → ℤ → ℤ → ℤ
match_clusters old_end new_end cluster_sectors =
    if ltb_ℤ new_end old_end
    then (old_end -ℤ new_end) %ℤ cluster_sectors
    else (cluster_sectors -ℤ (new_end -ℤ old_end) %ℤ cluster_sectors) %ℤ cluster_sectors

-- The loop of `fat_calc_align_sectors`, which uses up the space that is left; `none` says that the
-- fuel ran out.
unfoldable pub use_up : ℕ → ℤ → ℤ → ℤ → ℤ → Option ℤ
use_up zero cluster_sectors clusters_size data_size align = none
use_up (suc fuel) cluster_sectors clusters_size data_size align =
    let rest = use_up fuel cluster_sectors clusters_size data_size (align +ℤ cluster_sectors) in
    if leb_ℤ (clusters_size +ℤ align +ℤ cluster_sectors) data_size then rest else some align

-- `fat_calc_align_sectors`
unfoldable pub align_sectors : FileSystem → FileSystem → Option ℤ
align_sectors new_fs old_fs =
    let size = meta_data_size new_fs.info in
    let old_end = old_fs.geom.start +ℤ old_fs.info.cluster_offset in
    let new_end = new_fs.geom.start +ℤ size in
    let data_size = new_fs.geom.length -ℤ size in
    let clusters_size = pos new_fs.info.cluster_count *ℤ new_fs.info.cluster_sectors in
    use_up (suc (pos_part (data_size -ℤ clusters_size))) new_fs.info.cluster_sectors clusters_size
      data_size (match_clusters old_end new_end new_fs.info.cluster_sectors)

-- `fat_is_sector_in_clusters`
unfoldable pub is_sector_in_clusters : FatSpecific → ℤ → Bool
is_sector_in_clusters info sector =
    leb_ℤ info.cluster_offset sector
    && ltb_ℤ sector (info.cluster_offset +ℤ info.cluster_sectors *ℤ pos info.cluster_count)

-- `fat_cluster_to_frag`, `fat_frag_to_cluster`
unfoldable pub cluster_to_frag : FatSpecific → ℕ → ℤ
unfolding to_fragment
cluster_to_frag info cluster = to_fragment (sub_32 cluster 2 * to_32 info.cluster_frags % 2 ^ 32)

unfoldable pub frag_to_cluster : FatSpecific → ℤ → ℕ
frag_to_cluster info frag = to_32 (frag /ℤ info.cluster_frags +ℤ pos 2)

-- `fat_frag_to_sector`, `fat_sector_to_frag`
unfoldable pub frag_to_sector : FatSpecific → ℤ → ℤ
frag_to_sector info frag = frag *ℤ info.frag_sectors +ℤ info.cluster_offset

unfoldable pub sector_to_frag : FatSpecific → ℤ → ℤ
sector_to_frag info sector =
    to_fragment (to_32 ((sector -ℤ info.cluster_offset) /ℤ info.frag_sectors))

-- `fat_cluster_to_sector`, `fat_sector_to_cluster`
unfoldable pub cluster_to_sector : FatSpecific → ℕ → ℤ
cluster_to_sector info cluster =
    pos (sub_32 cluster 2) *ℤ info.cluster_sectors +ℤ info.cluster_offset

unfoldable pub sector_to_cluster : FatSpecific → ℤ → ℕ
sector_to_cluster info sector =
    to_32 ((sector -ℤ info.cluster_offset) /ℤ info.cluster_sectors +ℤ pos 2)
