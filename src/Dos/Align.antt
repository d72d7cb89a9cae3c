-- ===== src/Dos/Align.antt =====
-- labels/dos.c: `msdos_partition_align`.
pub mod Search
pub mod OnDisk
pub mod Primary
pub mod Range
pub mod Logical
pub mod Dynamic
pub mod Aligns
pub mod Solves
use uparted.Base.{
  Bool, Option, Run, abs_ℤ, deref, done, eqb_ℤ, false, if◌then◌else◌, leb_ℤ, ltb_ℤ, min_ℤ, none,
  pos, pos_part, some, suc, trap, true, zero, ℕ, ℤ, ◌%ℤ◌, ◌*ℤ◌, ◌+ℤ◌, ◌-ℤ◌, ◌/ℤ◌, ◌==◌, ◌>>=◌,
}
use uparted.Geom
use uparted.Geom.{Geometry}
use uparted.Rounding.{round_down_to}
use uparted.Euclid.{to_int}
use uparted.Constraint
use uparted.Constraint.{Constraint}
use uparted.Disk.{Disk, Entry, Partition, extended_partition, is_extended}
use uparted.Disk.Add.{is_logical}
use uparted.Dos.Chs.{ChsGeometry}
use uparted.Dos.Limits.{
  kept_or, log_meta_overlap_constraint, logical_constraint, min_extended_part_geom,
  no_geom_constraint, no_geom_extended_constraint, primary_constraint, primary_start_constraint,
}
use uparted.Label.{accept_solution, attempt_align, try_constraint}
use uparted.Label.Types.{cylinder_size}

-- The head on which a sector lies.
unfoldable pub head_of : ChsGeometry → ℤ → ℤ
head_of bios_geom sector = sector /ℤ pos bios_geom.sectors %ℤ pos bios_geom.heads

-- The choice of `_best_solution` between two solutions: whether it is the first. The cylinders are
-- numbers of type `int`.
unfoldable pub is_better : Geometry → ChsGeometry → Geometry → Geometry → Bool
unfolding head_of cylinder_size
is_better geom bios_geom a b =
    let size = cylinder_size bios_geom in
    if eqb_ℤ (to_int (a.start /ℤ size)) (to_int (b.start /ℤ size))
    then ltb_ℤ (head_of bios_geom a.start) (head_of bios_geom b.start)
    else ltb_ℤ (abs_ℤ (geom.start -ℤ a.start)) (abs_ℤ (geom.start -ℤ b.start))

-- `_best_solution`, which stops the program at a cylinder without sectors.
unfoldable pub best_solution :
    Geometry → ChsGeometry → Option Geometry → Option Geometry → Run (Option Geometry)
unfolding is_better cylinder_size
best_solution geom bios_geom none b = done b
best_solution geom bios_geom (some a) none = done (some a)
best_solution geom bios_geom (some a) (some b) =
    if eqb_ℤ (cylinder_size bios_geom) (pos 0)
    then trap
    else done (some (if is_better geom bios_geom a b then a else b))

-- `_align_primary`
unfoldable pub align_primary :
    Disk → Entry → ChsGeometry → Option Constraint → Run (Bool × Geometry)
unfolding is_extended min_extended_part_geom primary_start_constraint primary_constraint
    try_constraint best_solution accept_solution
align_primary disk part bios_geom constraint =
    let geom = part.part.geom in
    let min_geom =
      if is_extended part.part
      then min_extended_part_geom disk part (pos bios_geom.sectors)
      else none in
    try_constraint geom constraint (primary_start_constraint disk.dev geom bios_geom min_geom)
    >>= λ first. best_solution geom bios_geom none first >>= λ solution.
        try_constraint geom constraint (primary_constraint disk.dev bios_geom min_geom)
        >>= λ second. best_solution geom bios_geom solution second >>= λ best.
            done (accept_solution geom best)

-- `_logical_min_start_head`; the result is an `int`.
unfoldable pub logical_min_start_head : Partition → ChsGeometry → Geometry → Bool → ℤ
unfolding cylinder_size
logical_min_start_head part bios_geom ext is_start_ext_part =
    let base_head =
      if is_start_ext_part
      then pos 1 +ℤ ext.start %ℤ cylinder_size bios_geom /ℤ pos bios_geom.sectors
      else pos 0 in
    to_int (if eqb_ℤ part.num (pos 5) then base_head else base_head +ℤ pos 1)

-- The loop of `_align_logical`: the number of rounds that are left, the head and the solution so
-- far.
unfoldable pub try_heads :
    Disk
    → Partition
    → ChsGeometry
    → Geometry
    → Option Constraint
    → ℕ
    → ℤ
    → Option Geometry
    → Run (Option Geometry)
unfolding cylinder_size logical_min_start_head logical_constraint try_constraint best_solution
try_heads disk part bios_geom ext intersect zero head solution = done solution
try_heads disk part bios_geom ext intersect (suc rounds) head solution =
    let start_base = round_down_to part.geom.start (cylinder_size bios_geom) in
    let start = start_base +ℤ head *ℤ pos bios_geom.sectors in
    logical_constraint disk bios_geom start
      (leb_ℤ (logical_min_start_head part bios_geom ext true) head)
    >>= λ disk_constraint. try_constraint part.geom intersect disk_constraint >>= λ found.
        best_solution part.geom bios_geom solution found >>= λ best.
        try_heads disk part bios_geom ext intersect rounds (head +ℤ pos 1) best

-- `_align_logical`
unfoldable pub align_logical :
    Disk → Partition → ChsGeometry → Option Constraint → Run (Bool × Geometry)
unfolding extended_partition log_meta_overlap_constraint logical_min_start_head try_heads
    accept_solution cylinder_size
align_logical disk part bios_geom constraint =
    deref (extended_partition disk.part_list) >>= λ ext_part.
    log_meta_overlap_constraint disk part part.geom >>= λ log_meta_overlap.
    Constraint.intersect constraint log_meta_overlap >>= λ intersect.
    let ext = ext_part.part.geom in
    let first = logical_min_start_head part bios_geom ext false in
    let rounds = pos_part (min_ℤ (pos 5) (pos bios_geom.heads) -ℤ first) in
    elim intersect [
      | none ↦ done (false, part.geom)
      | some c ↦
          if eqb_ℤ (cylinder_size bios_geom) (pos 0)
          then trap
          else try_heads disk part bios_geom ext (some c) rounds first none >>= λ solution.
              done (accept_solution part.geom solution)
    ]

-- `_align`
unfoldable pub align_by_type :
    Disk → Entry → ChsGeometry → Option Constraint → Run (Bool × Geometry)
unfolding is_logical align_logical align_primary
align_by_type disk part bios_geom constraint =
    if is_logical part.part
    then align_logical disk part.part bios_geom constraint
    else align_primary disk part bios_geom constraint

-- `_align_primary_no_geom`
unfoldable pub align_primary_no_geom : Disk → Entry → Option Constraint → Run (Bool × Geometry)
unfolding is_extended no_geom_extended_constraint no_geom_constraint attempt_align try_constraint
    accept_solution
align_primary_no_geom disk part constraint =
    (if is_extended part.part
      then no_geom_extended_constraint disk part
      else no_geom_constraint disk.dev (pos 1) (disk.dev.length -ℤ pos 1))
    >>= λ c. try_constraint part.part.geom constraint (some c) >>= λ solution.
        done (accept_solution part.part.geom solution)

-- `_align_logical_no_geom`
unfoldable pub align_logical_no_geom : Disk → Partition → Option Constraint → Run (Bool × Geometry)
unfolding log_meta_overlap_constraint try_constraint accept_solution
align_logical_no_geom disk part constraint =
    log_meta_overlap_constraint disk part part.geom >>= λ c.
    try_constraint part.geom constraint c >>= λ solution. done (accept_solution part.geom solution)

-- `_align_no_geom`
unfoldable pub align_no_geom : Disk → Entry → Option Constraint → Run (Bool × Geometry)
unfolding is_logical align_logical_no_geom align_primary_no_geom
align_no_geom disk part constraint =
    if is_logical part.part
    then align_logical_no_geom disk part.part constraint
    else align_primary_no_geom disk part constraint

-- What `msdos_partition_align` reads of the `DosPartitionData` of the partition, where `orig` has
-- only the geometry of `OrigState`, and of the `DosDiskData` of the disk.
pub record DosData : Type 0 where
  pub system : ℕ
  pub orig : Option Geometry
  pub cylinder_alignment : Bool

-- `PARTITION_LDM`
abbrev pub partition_ldm : ℕ
partition_ldm = 66

-- The case of a dynamic disk: the partition must stay where it was.
unfoldable pub align_dynamic : Geometry → Geometry → Option Constraint → Run (Bool × Geometry)
align_dynamic geom orig_geom constraint =
    let put_back = kept_or geom (Geom.set geom orig_geom.start orig_geom.length) in
    if Geom.test_equal geom orig_geom
    then (deref constraint >>= λ c. Constraint.is_solution c geom >>= λ fine.
        done (if fine then (true, geom) else (false, put_back)))
    else done (false, put_back)

-- The two attempts of `msdos_partition_align`.
unfoldable pub align_twice :
    DosData → Disk → Entry → ChsGeometry → Option Constraint → Run (Bool × Geometry)
unfolding align_by_type align_no_geom
align_twice dos_data disk part bios_geom constraint =
    if dos_data.cylinder_alignment
    then (align_by_type disk part bios_geom constraint >>= λ (status, geom).
        if status
        then done (true, geom)
        else align_no_geom disk (record part { part = record part.part { geom = geom } })
            constraint)
    else align_no_geom disk part constraint

-- `msdos_partition_align`, with what `partition_probe_bios_geometry` found: the status, and the
-- geometry that the partition is left with.
unfoldable pub msdos_partition_align :
    DosData → Disk → Entry → ChsGeometry → Option Constraint → Run (Bool × Geometry)
unfolding align_dynamic align_twice
msdos_partition_align dos_data disk part bios_geom constraint = elim dos_data.orig [
  | none ↦ align_twice dos_data disk part bios_geom constraint
  | some orig_geom ↦
      if dos_data.system == partition_ldm
      then align_dynamic part.part.geom orig_geom constraint
      else align_twice dos_data disk part bios_geom constraint
]
