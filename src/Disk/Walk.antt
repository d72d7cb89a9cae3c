-- ===== src/Disk/Walk.antt =====
-- disk.c: the traversal of the partitions, and what the label numbers and allocates.
use uparted.Base.{
  Bool, List, Option, Run, [], eqb_ℤ, false, if◌then◌else◌, max_ℤ, nat_abs, negsuc, none, not, pos,
  some, suc, true, zero, ℕ, ℤ, ◌&&◌, ◌++◌, ◌+ℤ◌, ◌==◌, ◌∷◌,
}
use uparted.Geom
use uparted.Geom.{Geometry}
use uparted.Constraint.{Constraint}
use uparted.Disk.{Disk, Entry, Partition, PartitionType, is_active, is_extended}
use mathlib.Core.List.{map}

-- The questions that are put to the user with the answers IGNORE and CANCEL.
pub data Complaint : Type 0 where
  overlapping logical_outside primary_inside outside_disk : Complaint

-- The operations of a disk label, which disk.c calls through `disk->type->ops`, and the answers of
-- `ped_exception_throw`: `ignore` says that the answer is IGNORE. An allocation succeeds. `none` is
-- the return of 0; a number is what `partition_enumerate` assigned, a geometry what
-- `partition_align` assigned.
pub record DiskOps : Type 0 where
  pub partition_new : Disk → PartitionType → ℤ → ℤ → Partition
  pub alloc_metadata : Disk → Disk
  pub partition_enumerate : Disk → Partition → Option ℤ
  pub partition_align : Disk → Partition → Option Constraint → Run (Option Geometry)
  pub partition_check : Disk → Partition → Bool
  pub max_primary_partition_count : Disk → ℤ
  pub feature_extended : Bool
  pub ignore : Complaint → Bool

-- The partitions in the order in which `ped_disk_next_partition` visits them.
unfoldable pub partitions : List Entry → List Partition
unfolding is_extended
partitions [] = []
partitions (walk ∷ rest) =
    (walk.part ∷ (if is_extended walk.part then walk.part_list else [])) ++ partitions rest

-- `ped_disk_get_primary_partition_count`
unfoldable pub primary_count : List Partition → ℤ
unfolding is_active
primary_count [] = pos 0
primary_count (walk ∷ rest) =
    let count = primary_count rest in
    if is_active walk && not walk.type.logical then count +ℤ pos 1 else count

-- `ped_disk_get_last_partition_num`; the argument is `highest`.
unfoldable pub last_num : ℤ → List Partition → ℤ
last_num highest [] = highest
last_num highest (walk ∷ rest) = last_num (max_ℤ highest walk.num) rest

-- `ped_disk_get_partition`
unfoldable pub get_partition : ℤ → List Partition → Option Partition
get_partition num [] = none
get_partition num (walk ∷ rest) =
    let later = get_partition num rest in
    if eqb_ℤ walk.num num && not walk.type.freespace then some walk else later

-- `ped_disk_get_partition_by_sector`
unfoldable pub by_sector : ℤ → List Partition → Option Partition
unfolding is_extended
by_sector sect [] = none
by_sector sect (walk ∷ rest) =
    let later = by_sector sect rest in
    if Geom.test_sector_inside walk.geom sect && not (is_extended walk) then some walk else later

-- A write to the partition at an address.
unfoldable pub write_part : ℕ → (Partition → Partition) → Partition → Partition
write_part address f part = if part.address == address then f part else part

unfoldable pub write_entry : ℕ → (Partition → Partition) → Entry → Entry
unfolding write_part
write_entry address f entry = record entry {
  part = write_part address f entry.part;
  part_list = map (write_part address f) entry.part_list;
}

unfoldable pub write : ℕ → (Partition → Partition) → Disk → Disk
unfolding write_entry
write address f disk = record disk { part_list = map (write_entry address f) disk.part_list }

-- `_partition_enumerate`
unfoldable pub enumerate : DiskOps → Partition → Disk → Bool × Disk
unfolding write
enumerate ops part disk = elim (ops.partition_enumerate disk part) [
  | none ↦ (false, disk)
  | some n ↦ (true, write part.address (λ p. record p { num = n }) disk)
]

-- The first loop of `ped_disk_enumerate_partitions`, from the number `i` on, with the count of the
-- numbers that are left.
unfoldable pub renumber : DiskOps → ℕ → ℤ → Disk → Bool × Disk
unfolding enumerate partitions get_partition
renumber ops zero i disk = (true, disk)
renumber ops (suc count) i disk = elim (get_partition i (partitions disk.part_list)) [
  | none ↦ renumber ops count (i +ℤ pos 1) disk
  | some walk ↦
      let (fine, changed) = enumerate ops walk disk in
      let later = renumber ops count (i +ℤ pos 1) changed in
      if fine then later else (false, changed)
]

-- The second loop: the partitions that have no number.
unfoldable pub number_new : DiskOps → List Partition → Disk → Bool × Disk
unfolding enumerate is_active
number_new ops [] disk = (true, disk)
number_new ops (walk ∷ rest) disk =
    let (fine, changed) = enumerate ops walk disk in
    let later = number_new ops rest changed in
    let skipped = number_new ops rest disk in
    if is_active walk && eqb_ℤ walk.num (negsuc 0)
    then if fine then later else (false, changed)
    else skipped

-- `ped_disk_enumerate_partitions`
unfoldable pub enumerate_partitions : DiskOps → Disk → Bool × Disk
unfolding renumber number_new last_num partitions
enumerate_partitions ops disk =
    let (fine, changed) =
      renumber ops (nat_abs (max_ℤ (pos 0) (last_num (negsuc 0) (partitions disk.part_list))))
        (pos 1) disk in
    if fine then number_new ops (partitions changed.part_list) changed else (false, changed)
