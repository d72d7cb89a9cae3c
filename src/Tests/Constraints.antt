-- ===== src/Tests/Constraints.antt =====
-- constraint.c on a disk of 10000 sectors.
use uparted.Base.{
  Option, arith, done, inr, int_laws, max_ℤ, min_ℤ, none, pos, refl, some, true, ℤ, ◌%ℤ◌, ◌+ℤ◌,
  ◌-ℤ◌, ◌↔◌, ◌≡◌,
}
use uparted.Geom
use uparted.Geom.{Geometry}
use uparted.Align
use uparted.Align.{Alignment}
use uparted.Rounding.{abs_mod, round_down_to, round_up_to}
use uparted.Constraint
use uparted.Constraint.{Constraint}
use uparted.Constraint.Solve.{solve_nearest_lem}
use uparted.Constraint.Window.{IsProper}
use uparted.Constraint.Common.{
  AreTame, Both, NoOverflows, Parts, constraint_of, intersect_solutions,
}
use uparted.Align.Exact.{IsTame}
use uparted.Constraint.Build.{new_from_max_lem}
use uparted.Constraint.Bounds.{new_from_min_max_lem}
use uparted.Geom.Laws.{Contains, IsValid}

abbrev disk : Geom.Device
disk = record { address = 1; length = pos 10000 }

abbrev whole : Geometry
whole = record { dev = disk; start = pos 0; length = pos 10000; stop = pos 9999 }

abbrev upper : Geometry
upper = record { dev = disk; start = pos 4000; length = pos 6000; stop = pos 9999 }

abbrev mebibyte : Alignment
mebibyte = record { offset = pos 0; grain_size = pos 2048 }

-- Starts on 2048 sectors, any end, 100 to 5000 sectors.
abbrev aligned : Constraint
aligned = record {
  start_align = some mebibyte;
  end_align = some Align.any;
  start_range = some upper;
  end_range = some whole;
  min_size = pos 100;
  max_size = pos 5000;
}

aligned-IsProper : IsProper aligned mebibyte Align.any upper whole
aligned-IsProper = record {
  start_align = refl;
  end_align = refl;
  start_range = refl;
  end_range = refl;
  start_grain = omega arith;
  end_grain = omega arith;
  start_first = omega arith;
  end_first = omega arith;
  smallest = omega arith;
}

solve_nearest_lem_example :
    (o : Option Geometry) × (Constraint.solve_nearest (some aligned) whole ≡ done o)
    × ((g : Geometry) → o ≡ some g → Constraint.is_solution aligned g ≡ done true)
solve_nearest_lem_example = solve_nearest_lem aligned-IsProper whole

program : Unit {0}
unfolding Constraint.solve_nearest Constraint.nearest_start_soln Constraint.canonical_start_range
    Constraint.start_range_for_ends Constraint.no_end Constraint.start_window Constraint.nearest_in
    Constraint.solve_from Constraint.nearest_end_soln Constraint.get_end_range Geom.init Geom.new
    Geom.intersect Geom.intersect_defined Geom.test_sector_inside Align.align_nearest Align.align_up
    Align.align_down Align.confine Align.up Align.down Align.closest_inside_geometry Align.move_up
    Align.move_down Align.closest Align.is_aligned_in Align.is_aligned round_down_to round_up_to
    abs_mod max_ℤ min_ℤ ◌+ℤ◌ ◌-ℤ◌ ◌%ℤ◌
program = tt

solve_runs :
    Constraint.solve_nearest (some aligned) whole
    ≡ done (some (record { dev = disk; start = pos 4096; length = pos 5000; stop = pos 9095 }))
unfolding program
solve_runs = refl

-- Ends on sectors 9, 19, 29 and so on: `ped_constraint_solve_nearest` chooses the start by
-- itself, and gives up although the region from 10 to 19 is a solution.
abbrev tens : Constraint
tens = record {
  start_align = some Align.any;
  end_align = some (record { offset = pos 9; grain_size = pos 10 });
  start_range = some whole;
  end_range = some whole;
  min_size = pos 10;
  max_size = pos 10;
}

gives_up :
    Constraint.solve_nearest
      (some tens)
      (record { dev = disk; start = pos 13; length = pos 10; stop = pos 22 })
    ≡ done none
unfolding program
gives_up = refl

missed :
    Constraint.is_solution tens
      (record { dev = disk; start = pos 10; length = pos 10; stop = pos 19 })
    ≡ done true
unfolding program Constraint.is_solution
missed = refl

whole-IsValid : IsValid whole
unfolding ◌+ℤ◌ ◌-ℤ◌
whole-IsValid = record { nonempty = omega arith; last = refl }

upper-IsValid : IsValid upper
unfolding ◌+ℤ◌ ◌-ℤ◌
upper-IsValid = record { nonempty = omega arith; last = refl }

new_from_max_lem_example :
    (Constraint.is_solution (Constraint.new_from_max whole) upper ≡ done true)
    ↔ ((s : ℤ) → Contains upper s → Contains whole s)
new_from_max_lem_example = new_from_max_lem whole upper whole-IsValid upper-IsValid

abbrev anywhere : Parts
anywhere = record {
  sa = Align.any;
  ea = Align.any;
  sr = whole;
  er = whole;
  lo = pos 1;
  hi = pos 10000;
  sa_small = record { nonneg = omega arith; fits = omega arith };
  ea_small = record { nonneg = omega arith; fits = omega arith };
  sr_valid = whole-IsValid;
  er_valid = whole-IsValid;
}

abbrev at_mebibytes : Parts
at_mebibytes = record {
  sa = mebibyte;
  ea = Align.any;
  sr = upper;
  er = whole;
  lo = pos 100;
  hi = pos 5000;
  sa_small = record { nonneg = omega arith; fits = omega arith };
  ea_small = record { nonneg = omega arith; fits = omega arith };
  sr_valid = upper-IsValid;
  er_valid = whole-IsValid;
}

any-IsTame : IsTame Align.any
any-IsTame = record {
  nonneg = omega arith;
  grain = omega arith;
  remainder = inr (omega arith);
  offset = omega arith;
}

anywhere-AreTame : AreTame anywhere
anywhere-AreTame = record { start = any-IsTame; end = any-IsTame }

at_mebibytes-AreTame : AreTame at_mebibytes
at_mebibytes-AreTame = record {
  start = record {
    nonneg = omega arith;
    grain = omega arith;
    remainder = inr (omega arith);
    offset = omega arith;
  };
  end = any-IsTame;
}

intersect_solutions_example :
    NoOverflows anywhere at_mebibytes
    × ((o : Option Constraint) × (Constraint.intersect
            (some (constraint_of anywhere))
            (some (constraint_of at_mebibytes))
          ≡ done o)
        × ((c : Constraint)
            → o ≡ some c
            → (g : Geometry)
            → (Constraint.is_solution c g ≡ done true) ↔ Both anywhere at_mebibytes g)
        × (o ≡ none → (g : Geometry) → ¬ Both anywhere at_mebibytes g))
intersect_solutions_example =
    intersect_solutions anywhere at_mebibytes anywhere-AreTame at_mebibytes-AreTame refl refl

abbrev middle : Geometry
middle = record { dev = disk; start = pos 5000; length = pos 1000; stop = pos 5999 }

middle-IsValid : IsValid middle
middle-IsValid = record { nonempty = omega arith; last = omega int_laws }

new_from_min_max_lem_example :
    (c : Constraint) × (Constraint.new_from_min_max middle upper ≡ done c)
    × ((Constraint.is_solution c upper ≡ done true) ↔ (
        ((s : ℤ) → Contains middle s → Contains upper s)
        × ((s : ℤ) → Contains upper s → Contains upper s)))
new_from_min_max_lem_example =
    new_from_min_max_lem middle upper upper middle-IsValid upper-IsValid upper-IsValid (omega arith)
      (omega arith)
