-- ===== src/Label.antt =====
-- What the disk labels of apps/parted/libparted/labels share: the search for the region of a
-- partition under the constraint of the caller and one of the label.
pub mod Attempt
pub mod Internal
pub mod Types
use uparted.Base.{Bool, Option, Run, done, false, none, pos, some, true, ℤ, ◌>>=◌}
use uparted.Geom
use uparted.Geom.{Geometry}
use uparted.Align.{Alignment}
use uparted.Constraint
use uparted.Constraint.{Constraint}

-- `_try_constraint` of dos.c, and the same search in `_ped_partition_attempt_align` of disk.c:
-- `none` is NULL.
unfoldable pub try_constraint :
    Geometry → Option Constraint → Option Constraint → Run (Option Geometry)
try_constraint geom external internal = Constraint.intersect external internal >>= λ intersection.
    Constraint.solve_nearest intersection geom

-- `ped_geometry_set` of a geometry to the sectors of a solution; the status is not looked at.
unfoldable pub assign : Geometry → Geometry → Geometry
assign geom solution = elim (Geom.set geom solution.start solution.length) [
  | none ↦ geom
  | some changed ↦ changed
]

-- The end of the functions that align a partition: their status, and the geometry that they leave.
unfoldable pub accept_solution : Geometry → Option Geometry → Bool × Geometry
unfolding assign
accept_solution geom none = (false, geom)
accept_solution geom (some solution) = (true, assign geom solution)

-- `_ped_partition_attempt_align`
unfoldable pub attempt_align :
    Geometry → Option Constraint → Option Constraint → Run (Bool × Geometry)
unfolding try_constraint accept_solution
attempt_align geom external internal =
    try_constraint geom external internal >>= λ solution. done (accept_solution geom solution)

-- The end of the functions that make a constraint of a label from two alignments and two ranges,
-- and return NULL where one of them is refused.
unfoldable pub new_over :
    Option Alignment → Option Alignment → Option Geometry → Option Geometry → ℤ → Option Constraint
new_over none end_align start_geom end_geom max_size = none
new_over (some s) none start_geom end_geom max_size = none
new_over (some s) (some e) none end_geom max_size = none
new_over (some s) (some e) (some start_geom) none max_size = none
new_over (some s) (some e) (some start_geom) (some end_geom) max_size =
    some (Constraint.new (some s) (some e) start_geom end_geom (pos 1) max_size)

-- The geometry that `partition_align` assigned, or none with status 0.
unfoldable pub assigned : Bool × Geometry → Option Geometry
assigned (true, geom) = some geom
assigned (false, geom) = none
