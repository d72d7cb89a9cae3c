-- ===== src/Dos/Limits.antt =====
-- labels/dos.c: the constraints of a DOS partition table, which keep its partitions on cylinders and
-- leave room for the tables of the logical ones.
pub mod Extended
pub mod Room
use uparted.Base.{
  Bool, List, Option, Run, [], deref, done, eqb_ℤ, if◌then◌else◌, leb_ℤ, ltb_ℤ, max_ℤ, negsuc, none,
  not, pos, some, trap, ℤ, ◌&&◌, ◌*ℤ◌, ◌+ℤ◌, ◌-ℤ◌, ◌==◌, ◌>>=◌, ◌||◌, ◌∷◌,
}
use uparted.Geom
use uparted.Geom.{Geometry}
use uparted.Rounding.{round_up_to}
use uparted.Align
use uparted.Constraint
use uparted.Constraint.{Constraint}
use uparted.Disk.{Disk, Entry, Partition, extended_partition, is_active}
use uparted.Disk.Walk.{get_partition, partitions}
use uparted.Dos.Chs.{ChsGeometry}
use uparted.Label.{new_over}
use uparted.Label.Types.{cylinder_size}

-- `_primary_constraint`
unfoldable pub primary_constraint : Geom.Device → ChsGeometry → Option Geometry → Option Constraint
unfolding new_over cylinder_size
primary_constraint dev bios_geom none =
    let size = cylinder_size bios_geom in
    let start = if ltb_ℤ size dev.length then size else pos 1 in
    new_over (Align.init (pos 0) size) (Align.init (negsuc 0) size)
      (Geom.init dev start (dev.length -ℤ start)) (Geom.init dev (pos 0) dev.length) dev.length
primary_constraint dev bios_geom (some min_geom) =
    let size = cylinder_size bios_geom in
    if ltb_ℤ min_geom.start size
    then none
    else new_over (Align.init (pos 0) size) (Align.init (negsuc 0) size)
        (Geom.init dev size (min_geom.start +ℤ pos 1 -ℤ size))
        (Geom.init dev min_geom.stop (dev.length -ℤ min_geom.stop)) dev.length

-- The choice of `start_pos` in `_primary_start_constraint`.
unfoldable pub start_position : Geometry → ChsGeometry → ℤ
start_position geom bios_geom =
    if eqb_ℤ geom.start (pos 2048) then pos 2048 else pos bios_geom.sectors

-- `_primary_start_constraint` for a partition with the geometry `geom`.
unfoldable pub primary_start_constraint :
    Geom.Device → Geometry → ChsGeometry → Option Geometry → Option Constraint
unfolding new_over cylinder_size start_position
primary_start_constraint dev geom bios_geom none =
    let start_pos = start_position geom bios_geom in
    new_over (Align.init start_pos (pos 0)) (Align.init (negsuc 0) (cylinder_size bios_geom))
      (Geom.init dev start_pos (dev.length -ℤ start_pos)) (Geom.init dev (pos 0) dev.length)
      dev.length
primary_start_constraint dev geom bios_geom (some min_geom) =
    let start_pos = start_position geom bios_geom in
    new_over (Align.init start_pos (pos 0)) (Align.init (negsuc 0) (cylinder_size bios_geom))
      (Geom.init dev start_pos (pos 1)) (Geom.init dev min_geom.stop (dev.length -ℤ min_geom.stop))
      dev.length

-- The range of `_logical_constraint`: the extended partition, or the part of it from its second
-- cylinder on. A cylinder without sectors stops the program.
unfoldable pub logical_range : Geom.Device → ℤ → Geometry → Bool → Run (Option Geometry)
logical_range dev size ext is_start_part =
    let min_start = round_up_to (ext.start +ℤ pos 1) size in
    let max_length = ext.stop -ℤ min_start +ℤ pos 1 in
    if is_start_part
    then done (Geom.init dev ext.start ext.length)
    else if eqb_ℤ size (pos 0)
    then trap
    else if leb_ℤ ext.stop min_start
    then done none
    else done (Geom.init dev min_start max_length)

-- `_logical_constraint`
unfoldable pub logical_constraint : Disk → ChsGeometry → ℤ → Bool → Run (Option Constraint)
unfolding extended_partition cylinder_size logical_range new_over
logical_constraint disk bios_geom start_offset is_start_part =
    let size = cylinder_size bios_geom in
    deref (extended_partition disk.part_list) >>= λ ext_part.
    logical_range disk.dev size ext_part.part.geom is_start_part >>= λ max_geom. done (
      new_over (Align.init start_offset size) (Align.init (negsuc 0) size) max_geom max_geom
        disk.dev.length)

-- A call that sets a geometry, and whose status is not looked at.
abbrev pub kept_or : Geometry → Option Geometry → Geometry
kept_or geom none = geom
kept_or geom (some changed) = changed

-- The loop of `_get_min_extended_part_geom`.
unfoldable pub widen : ℤ → Geometry → List Partition → Geometry
unfolding is_active
widen head_size min_geom [] = min_geom
widen head_size min_geom (walk ∷ rest) =
    let lower =
      if ltb_ℤ walk.geom.start min_geom.start
      then kept_or min_geom (Geom.set_start min_geom (walk.geom.start -ℤ pos 2 *ℤ head_size))
      else min_geom in
    let wider =
      if ltb_ℤ lower.stop walk.geom.stop
      then kept_or lower (Geom.set_end lower walk.geom.stop)
      else lower in
    if not (is_active walk) || eqb_ℤ walk.num (pos 5)
    then widen head_size min_geom rest
    else widen head_size wider rest

-- `_get_min_extended_part_geom`, with `head_size` in place of the BIOS geometry.
unfoldable pub min_extended_part_geom : Disk → Entry → ℤ → Option Geometry
unfolding widen get_partition partitions
min_extended_part_geom disk ext_part head_size =
    elim (get_partition (pos 5) (partitions disk.part_list)) [
      | none ↦ none
      | some walk ↦ elim (Geom.duplicate walk.geom) [
        | none ↦ none
        | some min_geom ↦ some (
            widen head_size
              (kept_or min_geom
                (Geom.set_start min_geom (walk.geom.start -ℤ max_ℤ head_size (pos 2))))
              ext_part.part_list)
      ]
    ]

-- The sector of the partition table in front of a logical partition other than the fifth.
unfoldable pub table_sector : Partition → ℤ
table_sector part = if eqb_ℤ part.num (pos 5) then pos 0 else pos 1

-- The first loop of `_log_meta_overlap_constraint`: `min_start` and what is left of the list.
unfoldable pub meta_gap : Partition → Geometry → ℤ → List Partition → ℤ × List Partition
unfolding is_active table_sector
meta_gap part geom min_start [] = (min_start, [])
meta_gap part geom min_start (walk ∷ rest) =
    let not_5 = table_sector part in
    let first = walk.geom.start -ℤ table_sector walk in
    let behind =
      if not (walk.address == part.address) && is_active walk
      then walk.geom.stop +ℤ pos 1 +ℤ not_5
      else min_start in
    let later = meta_gap part geom behind rest in
    if ltb_ℤ first (geom.start -ℤ not_5) || leb_ℤ first min_start
    then later
    else (min_start, walk ∷ rest)

-- Its second loop.
unfoldable pub skip_inactive : Partition → List Partition → List Partition
unfolding is_active
skip_inactive part [] = []
skip_inactive part (walk ∷ rest) =
    let later = skip_inactive part rest in
    if walk.address == part.address || not (is_active walk) then later else walk ∷ rest

-- The last sector in front of the rest of the list and of its table.
unfoldable pub meta_end : ℤ → List Partition → ℤ
unfolding table_sector
meta_end max_end [] = max_end
meta_end max_end (walk ∷ rest) = walk.geom.start -ℤ pos 1 -ℤ table_sector walk

-- `_log_meta_overlap_constraint`
unfoldable pub log_meta_overlap_constraint : Disk → Partition → Geometry → Run (Option Constraint)
unfolding extended_partition meta_gap skip_inactive meta_end table_sector
log_meta_overlap_constraint disk part geom =
    deref (extended_partition disk.part_list) >>= λ ext_part.
    let (min_start, rest) =
      meta_gap part geom (ext_part.part.geom.start +ℤ pos 1 +ℤ table_sector part)
        ext_part.part_list in
    let max_end = meta_end ext_part.part.geom.stop (skip_inactive part rest) in
    if leb_ℤ max_end min_start
    then done none
    else deref (Geom.init disk.dev min_start (max_end -ℤ min_start +ℤ pos 1)) >>= λ safe_space.
        done (some (Constraint.new_from_max safe_space))

-- `_no_geom_constraint`
unfoldable pub no_geom_constraint : Geom.Device → ℤ → ℤ → Run Constraint
no_geom_constraint dev start stop = deref (Geom.init dev start (stop -ℤ start +ℤ pos 1)) >>= λ max.
    done (Constraint.new_from_max max)

-- The ranges of `_no_geom_extended_constraint`.
unfoldable pub no_geom_ranges : Geom.Device → Option Geometry → Run (Geometry × Geometry)
no_geom_ranges dev none = deref (Geom.init dev (pos 1) (dev.length -ℤ pos 1)) >>= λ start_range.
    deref (Geom.init dev (pos 1) (dev.length -ℤ pos 1)) >>= λ end_range.
    done (start_range, end_range)
no_geom_ranges dev (some min) = deref (Geom.init dev (pos 1) min.start) >>= λ start_range.
    deref (Geom.init dev min.stop (dev.length -ℤ min.stop)) >>= λ end_range.
    done (start_range, end_range)

-- `_no_geom_extended_constraint`
unfoldable pub no_geom_extended_constraint : Disk → Entry → Run Constraint
unfolding min_extended_part_geom no_geom_ranges
no_geom_extended_constraint disk part =
    no_geom_ranges disk.dev (min_extended_part_geom disk part (pos 1))
    >>= λ (start_range, end_range). done (
        Constraint.new (some Align.any) (some Align.any) start_range end_range (pos 1)
          disk.dev.length)
