-- ===== src/Tests/Alignings.antt =====
-- Runs of `partition_align` of the labels.
use uparted.Base.{Bool, arith, deref, done, false, inr, pos, refl, some, true, ◌>>=◌, ◌≡◌}
use uparted.Geom.{Geometry}
use uparted.Constraint.{is_solution}
use uparted.Constraint.Common.{AreTame, IsUsable, NoOverflows, constraint_of}
use uparted.Align
use uparted.Align.Exact.{IsTame}
use uparted.Dos.Chs.{ChsGeometry}
use uparted.Label.{attempt_align}
use uparted.Label.Attempt.{IsAligned, attempt_align_lem}
use uparted.Label.Types.{
  amiga, amiga_constraint, cylinder_size, dasd_constraint, dvh, dvh_primary_constraint, new_in,
  partition_align,
}
use uparted.Label.Types.Area.{InArea}
use uparted.Label.Types.Aligns.{partition_align_lem}
use uparted.Tests.Sample.{anywhere, dev, region}
use uparted.Tests.Searches.{searching}

-- 10 sectors in a cylinder.
abbrev pub hw : ChsGeometry
hw = record { heads = 2; sectors = 5 }

pub anywhere-IsUsable : IsUsable anywhere
anywhere-IsUsable = record {
  start_first = omega arith;
  end_first = omega arith;
  smallest = omega arith;
}

any-IsTame : IsTame Align.any
any-IsTame = record {
  nonneg = omega arith;
  grain = omega arith;
  remainder = inr (omega arith);
  offset = omega arith;
}

pub anywhere-AreTame : AreTame anywhere
anywhere-AreTame = record { start = any-IsTame; end = any-IsTame }

-- An Amiga label moves both ends to the nearest cylinders.
amiga_run :
    partition_align amiga hw hw dev false
      (region (pos 293) (pos 402))
      (some (constraint_of anywhere))
    ≡ done (true, region (pos 290) (pos 399))
unfolding searching partition_align amiga_constraint new_in cylinder_size
amiga_run = refl

-- A DVH label keeps sector 0 for the volume header.
dvh_run :
    partition_align dvh hw hw dev false (region (pos 0) (pos 99)) (some (constraint_of anywhere))
    ≡ done (true, region (pos 1) (pos 99))
unfolding searching partition_align dvh_primary_constraint
dvh_run = refl

-- The range of a DASD label on a device of 1000 sectors, which starts at sector 10, ends at 1009.
dasd_run :
    (dasd_constraint hw 512 512 dev >>= λ o.
    deref o >>= λ c. is_solution c (region (pos 10) (pos 1009)))
    ≡ done true
unfolding searching dasd_constraint new_in is_solution
dasd_run = refl

partition_align_lem_example :
    (r : Bool × Geometry) × (partition_align amiga hw hw dev false
        (region (pos 293) (pos 402))
        (some (constraint_of anywhere))
      ≡ done r)
    × IsAligned (region (pos 293) (pos 402)) (constraint_of anywhere) r
    × (r.0 ≡ true → InArea amiga hw hw dev false r.1)
partition_align_lem_example =
    partition_align_lem amiga hw hw dev false (region (pos 293) (pos 402)) anywhere
      anywhere-IsUsable refl refl
      (record {
        given = anywhere-AreTame;
        cylinder = omega arith;
        bios_cylinder = omega arith;
        track = omega arith;
      })
      tt

attempt_align_lem_example :
    NoOverflows anywhere anywhere
    × ((r : Bool × Geometry) × (attempt_align
            (region (pos 293) (pos 402))
            (some (constraint_of anywhere))
            (some (constraint_of anywhere))
          ≡ done r)
        × IsAligned (region (pos 293) (pos 402)) (constraint_of anywhere) r
        × IsAligned (region (pos 293) (pos 402)) (constraint_of anywhere) r)
attempt_align_lem_example =
    attempt_align_lem (region (pos 293) (pos 402)) anywhere anywhere anywhere-IsUsable
      anywhere-AreTame anywhere-AreTame refl refl
