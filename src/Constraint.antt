-- ===== src/Constraint.antt =====
-- apps/parted/libparted/cs/constraint.c: what a region must satisfy, and the search for one. A
-- pointer that may be NULL is an option, a read through NULL stops the program, and so does the
-- use of a geometry on the stack that a failed `ped_geometry_init` left uninitialised.
pub mod Window
pub mod Solve
pub mod Build
pub mod Bounds
pub mod Common
pub mod Meet
pub mod Made
use uparted.Base.{
  Bool, Option, Run, deref, done, eqb_ℤ, false, if◌then◌else◌, leb_ℤ, ltb_ℤ, max_ℤ, min_ℤ, negsuc,
  none, pos, some, ℤ, ◌&&◌, ◌+ℤ◌, ◌-ℤ◌, ◌>>=◌, ◌||◌,
}
use uparted.Geom
use uparted.Geom.{Geometry}
use uparted.Align
use uparted.Align.{Alignment}
use mathlib.Core.Option

-- `struct _PedConstraint`
pub record Constraint : Type 0 where
  pub start_align : Option Alignment
  pub end_align : Option Alignment
  pub start_range : Option Geometry
  pub end_range : Option Geometry
  pub min_size : ℤ
  pub max_size : ℤ

-- `ped_constraint_init` and `ped_constraint_new`
unfoldable pub new : Option Alignment → Option Alignment → Geometry → Geometry → ℤ → ℤ → Constraint
new start_align end_align start_range end_range min_size max_size = record {
  start_align = Align.duplicate start_align;
  end_align = Align.duplicate end_align;
  start_range = Geom.duplicate start_range;
  end_range = Geom.duplicate end_range;
  min_size = min_size;
  max_size = max_size;
}

-- `ped_constraint_new_from_min_max`
unfoldable pub new_from_min_max : Geometry → Geometry → Run Constraint
new_from_min_max min max =
    deref (Geom.init min.dev max.start (min.start -ℤ max.start +ℤ pos 1)) >>= λ start_range.
    deref (Geom.init min.dev min.stop (max.stop -ℤ min.stop +ℤ pos 1)) >>= λ end_range.
    done (new (some Align.any) (some Align.any) start_range end_range min.length max.length)

-- `ped_constraint_new_from_min`
unfoldable pub new_from_min : Geometry → Run Constraint
new_from_min min =
    deref (Geom.init min.dev (pos 0) min.dev.length) >>= λ full_dev. new_from_min_max min full_dev

-- `ped_constraint_new_from_max`
unfoldable pub new_from_max : Geometry → Constraint
new_from_max max = new (some Align.any) (some Align.any) max max (pos 1) max.length

-- `ped_constraint_duplicate`
unfoldable pub duplicate : Constraint → Run Constraint
duplicate constraint = deref constraint.start_range >>= λ start_range.
    deref constraint.end_range >>= λ end_range. done (
      new constraint.start_align constraint.end_align start_range end_range constraint.min_size
        constraint.max_size)

-- The body of `ped_constraint_intersect` behind the tests on its four intersections.
unfoldable pub intersect_with :
    Constraint
    → Constraint
    → Option Alignment
    → Option Alignment
    → Option Geometry
    → Option Geometry
    → Option Constraint
intersect_with a b none end_align start_range end_range = none
intersect_with a b (some s) none start_range end_range = none
intersect_with a b (some s) (some e) none end_range = none
intersect_with a b (some s) (some e) (some start_range) none = none
intersect_with a b (some s) (some e) (some start_range) (some end_range) = some (
    new (some s) (some e) start_range end_range (max_ℤ a.min_size b.min_size)
      (min_ℤ a.max_size b.max_size))

-- `ped_constraint_intersect`
unfoldable pub intersect : Option Constraint → Option Constraint → Run (Option Constraint)
intersect none b = done none
intersect (some a) none = done none
intersect (some a) (some b) = Align.intersect a.start_align b.start_align >>= λ start_align.
    Align.intersect a.end_align b.end_align >>= λ end_align. done (
      intersect_with a b start_align end_align (Geom.intersect a.start_range b.start_range)
        (Geom.intersect a.end_range b.end_range))

-- The end of `_constraint_get_canonical_start_range`: the first and the last start that leave room
-- for an end between the two solutions for the end.
unfoldable pub start_window : Constraint → ℤ → ℤ → Run (Option Geometry)
start_window c first_end_soln last_end_soln =
    let first = first_end_soln -ℤ c.max_size +ℤ pos 1 in
    let min_start = if ltb_ℤ first (pos 0) then pos 0 else first in
    let max_start = last_end_soln -ℤ c.min_size +ℤ pos 1 in
    if ltb_ℤ max_start (pos 0)
    then done none
    else deref c.start_range >>= λ start_range.
        deref (Geom.init start_range.dev min_start (max_start -ℤ min_start +ℤ pos 1)) >>= λ window.
        done (Geom.intersect (some window) (some start_range))

-- Its test of the two solutions.
unfoldable pub no_end : Constraint → ℤ → ℤ → Bool
no_end c first_end_soln last_end_soln =
    eqb_ℤ first_end_soln (negsuc 0)
    || (eqb_ℤ last_end_soln (negsuc 0)
        || (ltb_ℤ last_end_soln first_end_soln || ltb_ℤ last_end_soln c.min_size))

-- The part of `_constraint_get_canonical_start_range` behind the test of the sizes.
unfoldable pub start_range_for_ends : Constraint → Run (Option Geometry)
start_range_for_ends c = deref c.end_range >>= λ end_range. deref c.end_align >>= λ end_align.
    let first_end_soln = Align.align_down end_align (some end_range) end_range.start in
    let last_end_soln = Align.align_up end_align (some end_range) end_range.stop in
    if no_end c first_end_soln last_end_soln
    then done none
    else start_window c first_end_soln last_end_soln

-- `_constraint_get_canonical_start_range`
unfoldable pub canonical_start_range : Constraint → Run (Option Geometry)
canonical_start_range c = if ltb_ℤ c.max_size c.min_size then done none else start_range_for_ends c

-- The choice that `_constraint_get_nearest_start_soln` and `_constraint_get_nearest_end_soln`
-- make in the range that they computed: -1 for NULL.
unfoldable pub nearest_in : Option Alignment → Option Geometry → ℤ → Run ℤ
nearest_in align none sector = done (negsuc 0)
nearest_in align (some range) sector =
    deref align >>= λ a. done (Align.align_nearest a (some range) sector)

-- `_constraint_get_nearest_start_soln`
unfoldable pub nearest_start_soln : Constraint → ℤ → Run ℤ
nearest_start_soln c start =
    canonical_start_range c >>= λ range. nearest_in c.start_align range start

-- `_constraint_get_end_range`
unfoldable pub get_end_range : Constraint → ℤ → Run (Option Geometry)
get_end_range c start = deref c.end_range >>= λ end_range.
    let last_sector = end_range.dev.length -ℤ pos 1 in
    let first_min_max_end = start +ℤ c.min_size -ℤ pos 1 in
    let last = start +ℤ c.max_size -ℤ pos 1 in
    let last_min_max_end = if ltb_ℤ last_sector last then last_sector else last in
    if ltb_ℤ last_sector first_min_max_end
    then done none
    else deref
        (Geom.init end_range.dev first_min_max_end (last_min_max_end -ℤ first_min_max_end +ℤ pos 1))
      >>= λ window. done (Geom.intersect (some window) (some end_range))

-- `_constraint_get_nearest_end_soln`
unfoldable pub nearest_end_soln : Constraint → ℤ → ℤ → Run ℤ
nearest_end_soln c start stop = get_end_range c start >>= λ range. nearest_in c.end_align range stop

-- The part of `ped_constraint_solve_nearest` behind the choice of the start.
unfoldable pub solve_from : Constraint → Geometry → ℤ → Run (Option Geometry)
solve_from c geom start =
    if eqb_ℤ start (negsuc 0)
    then done none
    else nearest_end_soln c start geom.stop >>= λ stop.
        done
          (if eqb_ℤ stop (negsuc 0) then none else Geom.new geom.dev start (stop -ℤ start +ℤ pos 1))

-- `ped_constraint_solve_nearest`
unfoldable pub solve_nearest : Option Constraint → Geometry → Run (Option Geometry)
solve_nearest none geom = done none
solve_nearest (some c) geom = nearest_start_soln c geom.start >>= solve_from c geom

-- `ped_constraint_solve_max`
unfoldable pub solve_max : Option Constraint → Run (Option Geometry)
solve_max none = done none
solve_max (some c) = deref c.start_range >>= λ range.
    deref (Geom.init range.dev (pos 0) range.dev.length) >>= λ full_dev.
    solve_nearest (some c) full_dev

-- `ped_constraint_is_solution`
unfoldable pub is_solution : Constraint → Geometry → Run Bool
is_solution c geom =
    if Align.is_aligned_in c.start_align none geom.start
      && Align.is_aligned_in c.end_align none geom.stop
    then (deref c.start_range >>= λ start_range.
        if Geom.test_sector_inside start_range geom.start
        then (deref c.end_range >>= λ end_range. done (
            Geom.test_sector_inside end_range geom.stop
            && (leb_ℤ c.min_size geom.length && leb_ℤ geom.length c.max_size)))
        else done false)
    else done false

-- `ped_constraint_any`
unfoldable pub any : Geom.Device → Option Constraint
any dev =
    Option.map
      (λ full_dev. new (some Align.any) (some Align.any) full_dev full_dev (pos 1) dev.length)
      (Geom.init dev (pos 0) dev.length)

-- `ped_constraint_exact`
unfoldable pub exact : Geometry → Option Constraint
exact geom = elim (Geom.init geom.dev geom.start (pos 1)) [
  | none ↦ none
  | some start_sector ↦ elim (Geom.init geom.dev geom.stop (pos 1)) [
    | none ↦ none
    | some end_sector ↦ some (
        new (Align.init geom.start (pos 0)) (Align.init geom.stop (pos 0)) start_sector end_sector
          (pos 1) geom.dev.length)
  ]
]
