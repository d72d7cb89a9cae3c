-- ===== src/Tests/DosAligns.antt =====
-- Runs of `msdos_partition_align`.
use uparted.Base.{Bool, [], arith, done, false, none, pos, refl, some, trap, true, ◌∷◌, ◌≡◌}
use uparted.Geom
use uparted.Geom.{Geometry}
use uparted.Constraint.Common.{constraint_of}
use uparted.Disk.{Entry, extended_partition, is_extended}
use uparted.Disk.Add.{is_logical}
use uparted.Dos.Align.{DosData, msdos_partition_align}
use uparted.Dos.Align.Search.{IsBios}
use uparted.Dos.Align.Solves.{CanAlign, IsDone}
use uparted.Dos.Align.Aligns.{msdos_partition_align_lem}
use uparted.Tests.Alignings.{anywhere-AreTame, anywhere-IsUsable, hw}
use uparted.Tests.Sample.{anywhere, disk, extended, first_logical, fresh, region}
use uparted.Tests.Searches.{searching}

-- 10 sectors in a cylinder, 5 on a head.
abbrev pub cylinders : DosData
cylinders = record { system = 131; orig = none; cylinder_alignment = true }

abbrev anyhow : DosData
anyhow = record { system = 131; orig = none; cylinder_alignment = false }

-- A dynamic disk's partition, which was read at sectors 10 to 99.
abbrev dynamic : DosData
dynamic = record { system = 66; orig = some (region (pos 10) (pos 99)); cylinder_alignment = true }

unfoldable pub aligning : Unit {0}
unfolding searching msdos_partition_align Geom.test_equal Geom.set_start
aligning = tt

abbrev moved : Entry
moved = record fresh { part = record fresh.part { geom = region (pos 203) (pos 302) } }

-- A primary partition is moved to whole cylinders.
primary_run :
    msdos_partition_align cylinders disk moved hw (some (constraint_of anywhere))
    ≡ done (true, region (pos 200) (pos 299))
unfolding aligning
primary_run = refl

-- Without the alignment to cylinders it stays.
anyhow_run :
    msdos_partition_align anyhow disk moved hw (some (constraint_of anywhere))
    ≡ done (true, region (pos 203) (pos 302))
unfolding aligning
anyhow_run = refl

-- A partition of a dynamic disk is put back.
dynamic_run :
    msdos_partition_align dynamic disk moved hw (some (constraint_of anywhere))
    ≡ done (false, region (pos 10) (pos 99))
unfolding aligning
dynamic_run = refl

-- A second logical partition, which gets the number 6.
abbrev second : Entry
second = record {
  part = record first_logical { address = 6; num = pos 6; geom = region (pos 600) (pos 699) };
  part_list = [];
}

-- One head is left for its table.
logical_run :
    msdos_partition_align cylinders disk second hw (some (constraint_of anywhere))
    ≡ done (true, region (pos 605) (pos 699))
unfolding aligning
logical_run = refl

-- An extended partition from sector 1 on, with the fifth partition on sector 2: a range without
-- sectors is refused, and the variable for it is used all the same.
abbrev early : Entry
early = record {
  part = record extended.part { geom = region (pos 1) (pos 799) };
  part_list = record first_logical { num = pos 5; geom = region (pos 2) (pos 599) } ∷ [];
}

early_run :
    msdos_partition_align anyhow
      (record disk { part_list = early ∷ [] })
      early
      hw
      (some (constraint_of anywhere))
    ≡ trap
unfolding aligning
early_run = refl

pub hw-IsBios : IsBios hw
hw-IsBios = record { heads = omega arith; sectors = omega arith; fits = omega arith }

second-CanAlign : CanAlign disk second
unfolding extended_partition is_extended is_logical
second-CanAlign = record {
  room = omega arith;
  extended = λ e. (extended, refl, ((omega arith, omega arith), tt));
  fifth = λ e. cc;
  logicals = λ e. tt;
}

msdos_partition_align_lem_example :
    (r : Bool × Geometry) × (msdos_partition_align cylinders disk second hw
        (some (constraint_of anywhere))
      ≡ done r)
    × IsDone cylinders disk second (constraint_of anywhere) r
msdos_partition_align_lem_example =
    msdos_partition_align_lem cylinders disk second hw anywhere anywhere-IsUsable refl refl
      (record {
        given = anywhere-AreTame;
        heads = omega arith;
        sectors = omega arith;
        cylinder = omega arith;
      })
      second-CanAlign
