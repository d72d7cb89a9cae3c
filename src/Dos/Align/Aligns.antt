-- ===== src/Dos/Align/Aligns.antt =====
-- What `msdos_partition_align` does to a partition.
use uparted.Base.{Bool, arith, done, some, ◌*◌, ◌^◌, ◌≡◌, ◌≤◌}
use uparted.Geom.{Geometry}
use uparted.Constraint.Common.{AreTame, IsUsable, Parts, constraint_of}
use uparted.Disk.{Disk, Entry}
use uparted.Dos.Chs.{ChsGeometry}
use uparted.Dos.Align.{DosData, msdos_partition_align}
use uparted.Dos.Align.Search.{IsBios}
use uparted.Dos.Align.Solves.{CanAlign, IsDone, msdos_partition_align_solves}

-- The BIOS geometry has cylinders of 1 to 2^20 sectors, and the alignments of the caller are as
-- `ped_alignment_init` leaves them, with grains of at most 2^20 sectors, so that their intersections
-- with those of the label do not overflow (`init-NoOverflow` in Align/Exact/Init.antt).
pub record InBounds (bios : ChsGeometry) (a : Parts) : Type 0 where
  pub given : AreTame a
  pub heads : 1 ≤ bios.heads
  pub sectors : 1 ≤ bios.sectors
  pub cylinder : bios.sectors * bios.heads ≤ 2 ^ 20

-- For a constraint of the caller over the device, with alignments as `ped_alignment_init` leaves
-- them, grains of at most 2^20 sectors, offsets of at most 2^61, valid ranges from sector 0 on and
-- a positive smallest size, a BIOS geometry whose cylinders have 1 to 2^20 sectors, and a disk on
-- which the partition can be aligned: `msdos_partition_align` comes back. Where it returns 1 the
-- geometry of the partition is a solution of the constraint. A partition of a dynamic disk is left
-- on the sectors where it was. For any other one, a geometry that is assigned is valid and lies
-- behind the first sector on the device, or for a logical partition in the extended one behind the
-- sectors of the tables, and where it returns 0 the geometry is as it was.
pub msdos_partition_align_lem :
    (dos_data : DosData) (disk : Disk) (part : Entry) (bios : ChsGeometry) (a : Parts)
    → IsUsable a
    → a.sr.dev ≡ disk.dev
    → a.er.dev ≡ disk.dev
    → InBounds bios a
    → CanAlign disk part
    → (r : Bool × Geometry) × (msdos_partition_align dos_data disk part bios
          (some (constraint_of a))
        ≡ done r)
      × IsDone dos_data disk part (constraint_of a) r
msdos_partition_align_lem dos_data disk part bios a ok sd ed bounds can =
    let h = bounds.cylinder in
    let bios_ok : IsBios bios = record {
      heads = bounds.heads;
      sectors = bounds.sectors;
      fits = omega arith;
    } in
    msdos_partition_align_solves dos_data disk part bios a ok sd ed bios_ok can
