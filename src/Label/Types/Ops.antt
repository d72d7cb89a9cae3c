-- ===== src/Label/Types/Ops.antt =====
-- The labels as the operations that disk.c calls.
use uparted.Base.{Bool, done, pos, refl, some, subst, sym, ◌>>=◌, ◌∙◌, ◌≡◌}
use uparted.Geom
use uparted.Constraint.Common.{Parts, constraint_of, solution-InRanges}
use uparted.Disk.{Disk, Entry, PartitionType, geom_of, is_extended}
use uparted.Disk.Sorted.{Ordered}
use uparted.Disk.Walk.{DiskOps}
use uparted.Disk.Add.{add_partition}
use uparted.Disk.Add.Sound.{AlignsWithin}
use uparted.Disk.Add.Result.{IsCall, Outcome, add_partition_lem}
use uparted.Dos.Chs.{ChsGeometry}
use uparted.Label.{assigned}
use uparted.Label.Attempt.{assigned-IsSolved}
use uparted.Label.Types.{Label, partition_align}
use uparted.Label.Types.Area.{FitsInt, IsReady}
use uparted.Label.Types.Solves.{partition_align_solves}

-- The operations of a label: its `partition_align`, and the others of `base`.
unfoldable pub label_ops : Label → ChsGeometry → ChsGeometry → DiskOps → DiskOps
unfolding partition_align assigned is_extended
label_ops label hw_geom bios_geom base = record base {
  partition_align = λ disk part constraint.
      partition_align label hw_geom bios_geom disk.dev (is_extended part) part.geom constraint
      >>= λ r. done (assigned r);
}

module _ (label : Label) (hw bios : ChsGeometry) (dev : Geom.Device) (fits_hw : FitsInt hw)
    (fits_bios : FitsInt bios) (ready : (extended : Bool) → IsReady label hw dev extended) where
  -- Such a label aligns within the constraint that it is given.
  pub label_ops-AlignsWithin :
      (base : DiskOps) (type : PartitionType) → AlignsWithin dev type (label_ops label hw bios base)
  unfolding label_ops
  label_ops-AlignsWithin base type disk part p on same_type usable sd ed =
      let extended = is_extended part in
      let (r, run, mine, area) =
        partition_align_solves label hw bios disk.dev extended part.geom p usable (sd ∙ sym on)
          (ed ∙ sym on) fits_hw fits_bios
          (subst (λ d. IsReady label hw d extended) (sym on) (ready extended)) in
      (
        assigned r,
        rw run refl,
        λ g h.
            let solved = assigned-IsSolved part.geom (constraint_of p) r g mine h in
            (solved.valid, solution-InRanges p g solved.solves),
      )

-- On a disk with a GPT, Sun, Mac, BSD, PC98, Amiga, DVH, DASD or loop label whose variables are in
-- range, in update mode and with an ordered list, `ped_disk_add_partition` of an active partition
-- that is neither logical nor on the disk comes back, under a constraint on the same device with
-- grains below 2^31, if the disk is not being read and IGNORE is not answered. With status 0 the
-- list is as before. Otherwise it holds the partition and those that were there, in order and
-- without a common sector.
pub add_partition-label_ops :
    (label : Label) (hw bios : ChsGeometry) (base : DiskOps) (disk : Disk) (part : Entry)
    (p : Parts)
    → FitsInt hw
    → FitsInt bios
    → ((extended : Bool) → IsReady label hw disk.dev extended)
    → IsCall (label_ops label hw bios base) disk part p
    → Ordered geom_of (pos 0) disk.part_list
    → (r : Bool × Disk) × (add_partition
          (label_ops label hw bios base)
          disk
          part
          (some (constraint_of p))
        ≡ done r)
      × Outcome disk part r
add_partition-label_ops label hw bios base disk part p fits_hw fits_bios ready call ord =
    add_partition_lem call
      (label_ops-AlignsWithin label hw bios disk.dev fits_hw fits_bios ready base part.part.type)
      ord
