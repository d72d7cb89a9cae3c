-- ===== src/Disk/Add.antt =====
-- disk.c: a new partition on a disk, and a new geometry for one that is there.
pub mod Sound
pub mod Result
use uparted.Base.{
  Bool, List, Option, Run, [], deref, done, false, if◌then◌else◌, leb_ℤ, ltb_ℤ, none, not, pos,
  some, true, ◌&&◌, ◌+ℤ◌, ◌==◌, ◌>>=◌, ◌||◌, ◌∷◌,
}
use uparted.Geom
use uparted.Geom.{Geometry}
use uparted.Constraint
use uparted.Constraint.{Constraint}
use uparted.Disk.{
  Disk, Entry, Partition, extended_partition, is_active, is_extended, overlap_constraint, raw_add,
}
use uparted.Disk.Walk.{
  DiskOps, logical_outside, outside_disk, overlapping, partitions, primary_count, primary_inside,
}
use uparted.Disk.Update.{pop_update_mode, push_update_mode}

-- The test `type == PED_PARTITION_LOGICAL`.
unfoldable pub is_logical : Partition → Bool
is_logical part =
    part.type.logical
    && not
        (part.type.extended || (part.type.freespace || (part.type.metadata || part.type.protected)))

-- Whether a pointer is not NULL.
abbrev pub present {ℓ} : {A : Type ℓ} → Option A → Bool
present none = false
present (some a) = true

-- `_partition_check_basic_sanity`
unfoldable pub check_basic_sanity : DiskOps → Disk → Partition → Bool
unfolding is_logical is_extended is_active primary_count partitions extended_partition
check_basic_sanity ops disk part =
    let ext_part = extended_partition disk.part_list in
    let count = primary_count (partitions disk.part_list) in
    if not ops.feature_extended && (is_extended part || is_logical part)
    then false
    else if is_active part
        && (not part.type.logical && ltb_ℤ (ops.max_primary_partition_count disk) (count +ℤ pos 1))
    then false
    else not (part.type.logical && not (present ext_part))

-- The loop of `_check_extended_partition`.
unfoldable pub all_inside : Geometry → List Partition → Bool
all_inside geom [] = true
all_inside geom (walk ∷ rest) = Geom.test_inside geom walk.geom && all_inside geom rest

-- `_check_extended_partition`
unfoldable pub check_extended_partition : Disk → Entry → Bool
unfolding extended_partition all_inside
check_extended_partition disk part = elim (extended_partition disk.part_list) [
  | none ↦ all_inside part.part.geom part.part_list
  | some ext_part ↦
      part.part.address == ext_part.part.address && all_inside ext_part.part.geom ext_part.part_list
]

-- Its test of a logical partition, which reads through `ext_part`.
unfoldable pub check_logical : DiskOps → Option Entry → Partition → Run Bool
check_logical ops ext_part part =
    if part.type.logical
    then (deref ext_part >>= λ ext.
        done (Geom.test_inside ext.part.geom part.geom || ops.ignore logical_outside))
    else done true

-- Its test of a primary partition.
unfoldable pub check_primary : DiskOps → Option Entry → Partition → Bool
check_primary ops none part = true
check_primary ops (some ext) part =
    if not part.type.logical
      && (not (ext.part.address == part.address) && Geom.test_inside ext.part.geom part.geom)
    then ops.ignore primary_inside
    else true

-- `_check_partition`
unfoldable pub check_partition : DiskOps → Disk → Entry → Run Bool
unfolding check_extended_partition check_logical check_primary extended_partition is_extended
check_partition ops disk part =
    let ext_part = extended_partition disk.part_list in
    let beyond = leb_ℤ disk.dev.length part.part.geom.stop in
    if is_extended part.part && not (check_extended_partition disk part)
    then done false
    else (check_logical ops ext_part part.part >>= λ fine. done (
        fine
        && (check_primary ops ext_part part.part
            && ((not beyond || ops.ignore outside_disk)
                && (part.part.type.metadata || ops.partition_check disk part.part)))))

-- The constraint that `ped_disk_add_partition` goes on with, from the intersection and the one that
-- the caller gave; `none` is the jump to `error`.
unfoldable pub choose : DiskOps → Option Constraint → Option Constraint → Option (Option Constraint)
choose ops none none = some none
choose ops none (some c) = if ops.ignore overlapping then some (some c) else none
choose ops (some c) constraint = some (some c)

-- `_partition_align`
unfoldable pub align : DiskOps → Disk → Partition → Option Constraint → Run (Option Geometry)
align ops disk part constraint =
    if disk.needs_clobber then done (some part.geom) else ops.partition_align disk part constraint

-- `_partition_enumerate` and `_partition_align` on a partition that is not on the disk yet.
unfoldable pub number_and_align :
    DiskOps → Disk → Entry → Option (Option Constraint) → Run (Option Entry)
unfolding align
number_and_align ops disk part none = done none
number_and_align ops disk part (some constraint) = elim (ops.partition_enumerate disk part.part) [
  | none ↦ done none
  | some n ↦
      let numbered = record part.part { num = n } in
      align ops disk numbered constraint >>= λ aligned. done (elim aligned [
        | none ↦ none
        | some geom ↦ some (record part { part = record numbered { geom = geom } })
      ])
]

-- The part of `ped_disk_add_partition` for an active partition: `none` is the jump to `error`.
unfoldable pub fit : DiskOps → Disk → Entry → Option Constraint → Run (Option Entry)
unfolding number_and_align choose overlap_constraint is_active
fit ops disk part constraint =
    if is_active part.part
    then (overlap_constraint disk part.part part.part.geom >>= λ overlap.
        Constraint.intersect overlap constraint >>= λ constraints.
        number_and_align ops disk part (choose ops constraints constraint))
    else done (some part)

-- The rest of it, in update mode: the status and the disk.
unfoldable pub insert : DiskOps → Disk → Option Entry → Run (Bool × Disk)
unfolding check_partition raw_add
insert ops disk none = done (false, disk)
insert ops disk (some part) = check_partition ops disk part >>= λ fine.
    if fine then (raw_add disk part >>= λ added. done (true, added)) else done (false, disk)

-- `ped_disk_add_partition`
unfoldable pub add_partition : DiskOps → Disk → Entry → Option Constraint → Run (Bool × Disk)
unfolding check_basic_sanity push_update_mode fit insert pop_update_mode
add_partition ops disk part constraint =
    if check_basic_sanity ops disk part.part
    then (push_update_mode ops disk >>= λ updating. fit ops updating part constraint >>= λ fitted.
        insert ops updating fitted >>= λ (status, changed).
        done (status, pop_update_mode ops changed))
    else done (false, disk)
