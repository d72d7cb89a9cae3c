-- ===== src/Label/Types.antt =====
-- The labels that align a partition by `_ped_partition_attempt_align`: apps/parted/libparted/labels,
-- gpt.c, mac.c, bsd.c, pc98.c, rdb.c (Amiga), sun.c, dvh.c, dasd.c, and loop.c, which calls the search
-- itself. The exception that each of them throws where it fails changes no partition.
pub mod Internal
pub mod Area
pub mod Sun
pub mod Aligns
pub mod Solves
pub mod Ops
use uparted.Base.{
  Bool, Option, Run, deref, done, if◌then◌else◌, negsuc, none, pos, some, suc, trap, true, zero, ℕ,
  ℤ, ◌*◌, ◌+ℤ◌, ◌+◌, ◌-ℤ◌, ◌/◌, ◌==◌, ◌>>=◌,
}
use uparted.Geom
use uparted.Geom.{Geometry}
use uparted.Align
use uparted.Align.{Alignment}
use uparted.Constraint
use uparted.Constraint.{Constraint}
use uparted.Dos.Chs.{ChsGeometry}
use uparted.Label.{accept_solution, attempt_align, new_over}

-- The type of a disk label, with what it reads of the data of the disk: the `data_area` of a GPT,
-- the `length` of a Sun label, and for a DASD label the `real_sector_size` and the `sector_size` of
-- the device and the `format_type`.
pub data Label : Type 0 where
  gpt : Geometry → Label
  sun : ℤ → Label
  dasd : ℕ → ℕ → ℕ → Label
  mac bsd pc98 amiga dvh loop : Label

-- `sectors * heads` of a geometry of the device.
unfoldable pub cylinder_size : ChsGeometry → ℤ
cylinder_size geom = pos (geom.sectors * geom.heads)

-- The constraints of mac.c, pc98.c, rdb.c, dasd.c and sun.c have one range for both ends.
unfoldable pub new_in :
    Option Alignment → Option Alignment → Option Geometry → ℤ → Option Constraint
unfolding new_over
new_in start_align end_align max_geom max_size =
    new_over start_align end_align max_geom max_geom max_size

-- `_non_metadata_constraint` of gpt.c
unfoldable pub non_metadata_constraint : Geometry → Constraint
non_metadata_constraint data_area = Constraint.new_from_max data_area

-- `_primary_constraint` of mac.c
unfoldable pub mac_constraint : Geom.Device → Option Constraint
unfolding new_in
mac_constraint dev =
    new_in (Align.init (pos 0) (pos 1)) (Align.init (negsuc 0) (pos 1))
      (Geom.init dev (pos 1) (dev.length -ℤ pos 1)) dev.length

-- `_get_constraint` of bsd.c, which does not look at the status of `ped_geometry_init`.
unfoldable pub bsd_constraint : Geom.Device → Run Constraint
bsd_constraint dev = deref (Geom.init dev (pos 1) (dev.length -ℤ pos 1)) >>= λ max.
    done (Constraint.new_from_max max)

-- `_primary_constraint` of pc98.c
unfoldable pub pc98_constraint : ChsGeometry → Geom.Device → Option Constraint
unfolding new_in cylinder_size
pc98_constraint hw_geom dev =
    let size = cylinder_size hw_geom in
    new_in (Align.init (pos 0) size) (Align.init (negsuc 0) size)
      (Geom.init dev size (dev.length -ℤ size)) dev.length

-- `MAX_RDB_BLOCK` of rdb.c
abbrev pub max_rdb_block : ℤ
max_rdb_block = pos (16 + 2 * 128 + 2)

-- `_amiga_get_constraint` of rdb.c
unfoldable pub amiga_constraint : ChsGeometry → Geom.Device → Option Constraint
unfolding new_in cylinder_size
amiga_constraint hw_geom dev =
    let size = cylinder_size hw_geom in
    new_in (Align.init (pos 0) size) (Align.init (negsuc 0) size)
      (Geom.init dev (max_rdb_block +ℤ pos 1) (dev.length -ℤ max_rdb_block -ℤ pos 1)) dev.length

-- `_get_strict_constraint` and `_get_lax_constraint` of sun.c
unfoldable pub strict_constraint : ChsGeometry → Geom.Device → ℤ → Option Constraint
unfolding new_in cylinder_size
strict_constraint bios_geom dev length =
    let block = cylinder_size bios_geom in
    new_in (Align.init (pos 0) block) (Align.init (negsuc 0) block) (Geom.init dev (pos 0) length)
      dev.length

unfoldable pub lax_constraint : ChsGeometry → Geom.Device → ℤ → Option Constraint
unfolding new_in cylinder_size
lax_constraint bios_geom dev length =
    new_in (Align.init (pos 0) (cylinder_size bios_geom)) (some Align.any)
      (Geom.init dev (pos 0) length) dev.length

-- `_get_extended_constraint` and `_get_primary_constraint` of dvh.c
unfoldable pub dvh_extended_constraint : Geom.Device → Run (Option Constraint)
dvh_extended_constraint dev = elim (Geom.init dev (pos 0) (pos 1)) [
  | none ↦ done none
  | some min_geom ↦ Constraint.new_from_min min_geom >>= λ c. done (some c)
]

unfoldable pub dvh_primary_constraint : Geom.Device → Option Constraint
dvh_primary_constraint dev = elim (Geom.init dev (pos 1) (dev.length -ℤ pos 1)) [
  | none ↦ none
  | some max_geom ↦ some (Constraint.new_from_max max_geom)
]

-- `_primary_constraint` of dasd.c. A zero sector size stops the program.
unfoldable pub dasd_constraint : ChsGeometry → ℕ → ℕ → Geom.Device → Run (Option Constraint)
unfolding new_in
dasd_constraint hw_geom real_sector_size zero dev = trap
dasd_constraint hw_geom real_sector_size (suc n) dev =
    let size = pos (hw_geom.sectors * (real_sector_size / suc n)) in
    let start = pos (2 * hw_geom.sectors * real_sector_size / suc n) in
    done (
      new_in (Align.init (pos 0) size) (Align.init (negsuc 0) size) (Geom.init dev start dev.length)
        dev.length)

-- `dasd_partition_align`: a disk formatted in LDL takes any region.
unfoldable pub dasd_partition_align :
    ChsGeometry → ℕ → ℕ → ℕ → Geom.Device → Geometry → Option Constraint → Run (Bool × Geometry)
unfolding attempt_align dasd_constraint
dasd_partition_align hw_geom real_sector_size sector_size format_type dev geom constraint =
    if format_type == 1
    then done (true, geom)
    else dasd_constraint hw_geom real_sector_size sector_size dev >>= λ c.
        attempt_align geom constraint c

-- `sun_partition_align`: the lax constraint is tried where the strict one fails.
unfoldable pub sun_partition_align :
    ChsGeometry → Geom.Device → ℤ → Geometry → Option Constraint → Run (Bool × Geometry)
unfolding attempt_align strict_constraint lax_constraint
sun_partition_align bios_geom dev length geom constraint =
    attempt_align geom constraint (strict_constraint bios_geom dev length) >>= λ (status, changed).
    if status
    then done (true, changed)
    else attempt_align changed constraint (lax_constraint bios_geom dev length)

-- `loop_partition_align`
unfoldable pub loop_partition_align : Geometry → Option Constraint → Run (Bool × Geometry)
unfolding accept_solution
loop_partition_align geom constraint =
    Constraint.solve_nearest constraint geom >>= λ solution. done (accept_solution geom solution)

-- The call of `partition_align` through `disk->type->ops` in `_partition_align`, with the two
-- geometries of the device, and whether the type of the partition is PED_PARTITION_EXTENDED.
unfoldable pub partition_align :
    Label
    → ChsGeometry
    → ChsGeometry
    → Geom.Device
    → Bool
    → Geometry
    → Option Constraint
    → Run (Bool × Geometry)
unfolding attempt_align non_metadata_constraint mac_constraint bsd_constraint pc98_constraint
    amiga_constraint dvh_extended_constraint dvh_primary_constraint sun_partition_align
    loop_partition_align dasd_partition_align
partition_align (gpt data_area) hw bios dev extended geom constraint =
    attempt_align geom constraint (some (non_metadata_constraint data_area))
partition_align (sun length) hw bios dev extended geom constraint =
    sun_partition_align bios dev length geom constraint
partition_align (dasd real_sector_size sector_size format_type) hw bios dev extended geom
      constraint =
    dasd_partition_align hw real_sector_size sector_size format_type dev geom constraint
partition_align mac hw bios dev extended geom constraint =
    attempt_align geom constraint (mac_constraint dev)
partition_align bsd hw bios dev extended geom constraint =
    bsd_constraint dev >>= λ c. attempt_align geom constraint (some c)
partition_align pc98 hw bios dev extended geom constraint =
    attempt_align geom constraint (pc98_constraint hw dev)
partition_align amiga hw bios dev extended geom constraint =
    attempt_align geom constraint (amiga_constraint hw dev)
partition_align dvh hw bios dev extended geom constraint =
    (if extended then dvh_extended_constraint dev else done (dvh_primary_constraint dev)) >>= λ c.
    attempt_align geom constraint c
partition_align loop hw bios dev extended geom constraint = loop_partition_align geom constraint
