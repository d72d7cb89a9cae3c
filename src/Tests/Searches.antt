-- ===== src/Tests/Searches.antt =====
-- Which definitions a search under two constraints runs.
use uparted.Base.{max_ℤ, min_ℤ, ◌%ℤ◌, ◌*ℤ◌, ◌+ℤ◌, ◌-ℤ◌, ◌/ℤ◌}
use uparted.Geom
use uparted.Rounding.{abs_mod, round_down_to, round_up_to}
use uparted.Euclid.{combine, extended_euclid, to_int}
use uparted.Align
use uparted.Constraint
use uparted.Label.{accept_solution, assign, attempt_align, new_over, try_constraint}

unfoldable pub searching : Unit {0}
unfolding attempt_align try_constraint accept_solution assign new_over Constraint.solve_nearest
    Constraint.nearest_start_soln Constraint.canonical_start_range Constraint.start_range_for_ends
    Constraint.no_end Constraint.start_window Constraint.nearest_in Constraint.solve_from
    Constraint.nearest_end_soln Constraint.get_end_range Constraint.new_from_max Constraint.new
    Constraint.intersect Constraint.intersect_with Geom.set Geom.init Geom.new Geom.duplicate
    Geom.intersect Geom.intersect_defined Geom.test_sector_inside Align.align_nearest Align.align_up
    Align.align_down Align.confine Align.up Align.down Align.closest_inside_geometry Align.move_up
    Align.move_down Align.closest Align.is_aligned_in Align.is_aligned Align.intersect
    Align.intersect_ordered Align.solve Align.duplicate Align.new Align.init round_down_to
    round_up_to abs_mod extended_euclid combine to_int max_ℤ min_ℤ ◌+ℤ◌ ◌-ℤ◌ ◌*ℤ◌ ◌/ℤ◌ ◌%ℤ◌
searching = tt
