-- ===== src/Tests/Alignments.antt =====
-- natmath.c.
use uparted.Base.{
  arith, done, inr, neg_part, negsuc, pos, refl, some, ℤ, ◌%ℤ◌, ◌*ℤ◌, ◌+ℤ◌, ◌-ℤ◌, ◌/ℤ◌, ◌≡◌,
}
use uparted.Geom
use uparted.Geom.{Geometry}
use uparted.Rounding.{abs_mod, round_down_to, round_up_to}
use uparted.Rounding.Laws.{round_down_to_negative}
use uparted.Euclid.{EuclidTriple, combine, extended_euclid, greatest_common_divisor, to_int}
use uparted.Euclid.Laws.{IsBezout, IsGcd, extended_euclid_lem, greatest_common_divisor_lem}
use uparted.Align
use uparted.Align.{Alignment}
use uparted.Align.Intersect.{Meets}
use uparted.Align.Exact.{IsTame, NoOverflow, intersect_lem}
use uparted.Align.Candidates.{IsNearest}
use uparted.Align.Optimal.{IsNormal, align_nearest_lem}

-- -16 is rounded down to -24.
round_down_to_negative_example :
    (abs_mod (negsuc 15) (pos 8) ≡ pos 8) × (round_down_to (negsuc 15) (pos 8) ≡ negsuc 15 -ℤ pos 8)
unfolding ◌*ℤ◌
round_down_to_negative_example =
    round_down_to_negative (negsuc 15) 8 (omega arith) (omega arith) (negsuc 1, refl)

runs_below : round_down_to (negsuc 15) (pos 8) ≡ negsuc 23
unfolding round_down_to abs_mod ◌+ℤ◌ ◌-ℤ◌ ◌%ℤ◌
runs_below = refl

greatest_common_divisor_lem_example :
    (g : ℤ) × (greatest_common_divisor 40 (pos 12) (pos 18) ≡ some g) × IsGcd g (pos 12) (pos 18)
greatest_common_divisor_lem_example =
    greatest_common_divisor_lem 40 12 18 (omega arith) (omega arith)

gcd_runs : greatest_common_divisor 40 (pos 12) (pos 18) ≡ some (pos 6)
unfolding greatest_common_divisor ◌%ℤ◌
gcd_runs = refl

extended_euclid_lem_example :
    (r : EuclidTriple) × (extended_euclid 13 (pos 18) (pos 12) ≡ some r)
    × IsBezout (pos 18) (pos 12) r
extended_euclid_lem_example = extended_euclid_lem 13 18 12 (omega arith)

abbrev mebibyte : Alignment
mebibyte = record { offset = pos 0; grain_size = pos 2048 }

abbrev track : Alignment
track = record { offset = pos 32; grain_size = pos 63 }

pub mebibyte-IsTame : IsTame mebibyte
mebibyte-IsTame = record {
  nonneg = omega arith;
  grain = omega arith;
  remainder = inr (omega arith);
  offset = omega arith;
}

track-IsTame : IsTame track
track-IsTame = record {
  nonneg = omega arith;
  grain = omega arith;
  remainder = inr (omega arith);
  offset = omega arith;
}

intersect_lem_example :
    NoOverflow mebibyte track × Meets mebibyte track (Align.intersect (some mebibyte) (some track))
intersect_lem_example = intersect_lem mebibyte track mebibyte-IsTame track-IsTame

-- Beyond the bound: on grains of 4194303 and 4194301 sectors the product of the coefficient, the
-- distance and the grain is too large for a `long long`.
abbrev large : EuclidTriple
large = record { gcd = pos 1; x = negsuc 2097149; y = pos 2097151 }

large_runs : extended_euclid 8 (pos 4194303) (pos 4194301) ≡ some large
unfolding extended_euclid combine ◌+ℤ◌ ◌-ℤ◌ ◌*ℤ◌ ◌/ℤ◌ ◌%ℤ◌
large_runs = refl

large_overflows : neg_part (large.x *ℤ (pos 3000001 -ℤ pos 0) *ℤ pos 4194303) ≡ 26388256405432536450
unfolding ◌-ℤ◌ ◌*ℤ◌
large_overflows = refl

-- The first common sector: 2048 = 32 + 63 * 32.
intersect_runs :
    Align.intersect (some mebibyte) (some track)
    ≡ done (some (record { offset = pos 2048; grain_size = pos 129024 }))
unfolding Align.intersect Align.intersect_ordered Align.solve Align.new extended_euclid combine
    to_int abs_mod ◌+ℤ◌ ◌-ℤ◌ ◌*ℤ◌ ◌/ℤ◌ ◌%ℤ◌
intersect_runs = refl

abbrev region : Geometry
region = record {
  dev = record { address = 1; length = pos 10000 };
  start = pos 100;
  length = pos 5000;
  stop = pos 5099;
}

mebibyte-IsNormal : IsNormal mebibyte
mebibyte-IsNormal = record {
  grain_nonneg = omega arith;
  offset_nonneg = omega arith;
  offset_below = λ h. omega arith;
}

align_nearest_lem_example :
    IsNearest mebibyte region (pos 40) (Align.align_nearest mebibyte (some region) (pos 40))
align_nearest_lem_example =
    align_nearest_lem mebibyte region (pos 40) mebibyte-IsNormal (omega arith) (omega arith)

nearest_runs : Align.align_nearest mebibyte (some region) (pos 40) ≡ pos 2048
unfolding Align.align_nearest Align.align_up Align.align_down Align.confine Align.up Align.down
    Align.closest_inside_geometry Align.move_up Align.move_down Align.closest
    Geom.test_sector_inside round_down_to round_up_to abs_mod ◌+ℤ◌ ◌-ℤ◌ ◌%ℤ◌
nearest_runs = refl
