-- ===== src/Dos/Ops.antt =====
-- labels/dos.c: a DOS label as the operations that disk.c calls, and a partition that is put on a
-- disk with it.
use uparted.Base.{
  Bool, [], ap, done, false, none, pos, refl, some, subst, sym, true, ◌>>=◌, ◌∙◌, ◌≡◌, ◌≤ℤ◌,
}
use uparted.Geom
use uparted.Constraint.Common.{Parts, constraint_of, solution-InRanges}
use uparted.Disk.{Disk, Entry, Partition, PartitionType, geom_of, is_extended}
use uparted.Disk.Sorted.{Ordered}
use uparted.Disk.Walk.{DiskOps}
use uparted.Disk.Add.{add_partition, is_logical}
use uparted.Disk.Add.Sound.{AlignsWithin}
use uparted.Disk.Add.Result.{IsCall, Outcome, add_partition_lem}
use uparted.Dos.Chs.{ChsGeometry}
use uparted.Dos.Number.{partition_enumerate}
use uparted.Dos.Align.{DosData, msdos_partition_align}
use uparted.Dos.Align.Solves.{CanAlign, msdos_partition_align_solves}
use uparted.Dos.Align.Search.{IsBios}
use uparted.Label.{assigned}
use uparted.Label.Attempt.{assigned-IsSolved}

-- The operations of `msdos_disk_ops` for partitions that were not read from the disk and hold no
-- logical ones, and the others of `base`.
unfoldable pub dos_ops : DosData → ChsGeometry → DiskOps → DiskOps
unfolding partition_enumerate msdos_partition_align assigned
dos_ops dos_data bios_geom base = record base {
  partition_enumerate = partition_enumerate;
  partition_align = λ disk part constraint.
      msdos_partition_align dos_data disk (record { part = part; part_list = [] }) bios_geom
        constraint
      >>= λ r. done (assigned r);
  max_primary_partition_count = λ disk. pos 4;
  feature_extended = true;
}

is_logical-false : (part : Partition) → part.type.logical ≡ false → is_logical part ≡ false
unfolding is_logical
is_logical-false part h = rw h refl

is_extended-false : (part : Partition) → part.type.extended ≡ false → is_extended part ≡ false
unfolding is_extended
is_extended-false part h = rw h refl

dos_ops-AlignsWithin :
    (dos_data : DosData) (bios : ChsGeometry) (base : DiskOps) (dev : Geom.Device)
    (type : PartitionType)
    → dos_data.orig ≡ none
    → IsBios bios
    → pos 2 ≤ℤ dev.length
    → type.extended ≡ false
    → type.logical ≡ false
    → AlignsWithin dev type (dos_ops dos_data bios base)
unfolding dos_ops
dos_ops-AlignsWithin dos_data bios base dev type fresh ok room not_extended primary disk part p on
      same usable sd ed =
    let entry : Entry = record { part = part; part_list = [] } in
    let (r, run, result) =
      msdos_partition_align_solves dos_data disk entry bios p usable (sd ∙ sym on) (ed ∙ sym on) ok
        can in
    (
      assigned r,
      rw run refl,
      λ g h.
          let (mine, placed) = result.aligned λ orig dyn. let read = dyn.0 in cc in
          let solved = assigned-IsSolved part.geom (constraint_of p) r g mine h in
          (solved.valid, solution-InRanges p g solved.solves),
    )
  where
    can : CanAlign disk (record { part = part; part_list = [] })
    can = record {
      room = subst (λ d. pos 2 ≤ℤ d.length) (sym on) room;
      extended = λ e. let n = is_logical-false part (ap (λ t. t.logical) same ∙ primary) in cc;
      fifth = λ e. let n = is_extended-false part (ap (λ t. t.extended) same ∙ not_extended) in cc;
      logicals =
          λ e. let n = is_extended-false part (ap (λ t. t.extended) same ∙ not_extended) in cc;
    }

-- On a disk of at least two sectors with a DOS label, for a BIOS geometry whose cylinders have 1 to
-- 2^31 - 1 sectors, in update mode and with an ordered list, `ped_disk_add_partition` of an active
-- partition that is neither logical nor extended, was not read from the disk and is not on it comes
-- back, under a constraint on the same device with grains below 2^31, if the disk is not being read
-- and IGNORE is not answered. With status 0 the list is as before. Otherwise it holds the partition
-- and those that were there, in order and without a common sector.
pub add_partition-dos_ops :
    (dos_data : DosData) (bios : ChsGeometry) (base : DiskOps) (disk : Disk) (part : Entry)
    (p : Parts)
    → dos_data.orig ≡ none
    → IsBios bios
    → pos 2 ≤ℤ disk.dev.length
    → part.part.type.extended ≡ false
    → IsCall (dos_ops dos_data bios base) disk part p
    → Ordered geom_of (pos 0) disk.part_list
    → (r : Bool × Disk) × (add_partition
          (dos_ops dos_data bios base)
          disk
          part
          (some (constraint_of p))
        ≡ done r)
      × Outcome disk part r
add_partition-dos_ops dos_data bios base disk part p fresh ok room not_extended call ord =
    add_partition_lem call
      (dos_ops-AlignsWithin dos_data bios base disk.dev part.part.type fresh ok room not_extended
        call.primary)
      ord
