-- ===== src/Align.antt =====
-- apps/parted/libparted/cs/natmath.c: alignments, the sets of sectors `offset + X * grain_size`.
pub mod Aligned
pub mod Intersect
pub mod Exact
pub mod Inside
pub mod Nearest
pub mod Candidates
pub mod Optimal
pub mod Sound
use uparted.Base.{
  Bool, Option, Run, abs_ℤ, deref, done, eqb_ℤ, false, if◌then◌else◌, ltb_ℤ, nat_abs, negsuc, none,
  pos, some, suc, trap, ℤ, ◌%ℤ◌, ◌&&◌, ◌*ℤ◌, ◌+ℤ◌, ◌-ℤ◌, ◌/ℤ◌, ◌>>=◌,
}
use uparted.Geom
use uparted.Geom.{Geometry}
use uparted.Rounding.{abs_mod, round_down_to, round_up_to}
use uparted.Euclid.{EuclidTriple, extended_euclid, to_int}

-- `struct _PedAlignment`; NULL, the alignment without a solution, is `none`.
pub record Alignment : Type 0 where
  pub offset : ℤ
  pub grain_size : ℤ

-- `_any`, to which `ped_alignment_any` points.
abbrev pub any : Alignment
any = record { offset = pos 0; grain_size = pos 1 }

-- `ped_alignment_init`; `none` is the return of 0.
unfoldable pub init : ℤ → ℤ → Option Alignment
init offset grain_size =
    if ltb_ℤ grain_size (pos 0)
    then none
    else some (record {
      offset = if eqb_ℤ grain_size (pos 0) then offset else abs_mod offset grain_size;
      grain_size = grain_size;
    })

-- `ped_alignment_new`
unfoldable pub new : ℤ → ℤ → Option Alignment
unfolding init
new offset grain_size = init offset grain_size

-- `ped_alignment_duplicate`
unfoldable pub duplicate : Option Alignment → Option Alignment
duplicate none = none
duplicate (some align) = new align.offset align.grain_size

-- The general case of `ped_alignment_intersect`, with the result of `extended_euclid`. A zero
-- divisor stops the program. The products are exact here; those of the program are where they fit
-- into a `long long`, which is `NoOverflow` of Align/Exact.antt.
unfoldable pub solve : Alignment → Alignment → EuclidTriple → Run (Option Alignment)
solve a b gcd_factors =
    let delta_on_gcd = (b.offset -ℤ a.offset) /ℤ gcd_factors.gcd in
    let new_offset = a.offset +ℤ gcd_factors.x *ℤ delta_on_gcd *ℤ a.grain_size in
    let new_grain_size = a.grain_size *ℤ b.grain_size /ℤ gcd_factors.gcd in
    if eqb_ℤ gcd_factors.gcd (pos 0)
    then trap
    else if eqb_ℤ new_offset (b.offset -ℤ gcd_factors.y *ℤ delta_on_gcd *ℤ b.grain_size)
    then done (new new_offset new_grain_size)
    else done none

-- `ped_alignment_intersect` once the larger grain is that of `a`.
unfoldable pub intersect_ordered : Alignment → Alignment → Run (Option Alignment)
intersect_ordered a b =
    let ag = to_int a.grain_size in
    let bg = to_int b.grain_size in
    if eqb_ℤ a.grain_size (pos 0) && eqb_ℤ b.grain_size (pos 0)
    then if eqb_ℤ a.offset b.offset then done (duplicate (some a)) else done none
    else deref (extended_euclid (suc (nat_abs bg)) ag bg) >>= solve a b

-- `ped_alignment_intersect`
unfoldable pub intersect : Option Alignment → Option Alignment → Run (Option Alignment)
intersect none b = done none
intersect (some a) none = done none
intersect (some a) (some b) =
    if ltb_ℤ a.grain_size b.grain_size then intersect_ordered b a else intersect_ordered a b

-- `ped_alignment_is_aligned` behind the test for NULL, with no geometry.
unfoldable pub is_aligned : Alignment → ℤ → Bool
is_aligned align sector =
    if eqb_ℤ align.grain_size (pos 0)
    then eqb_ℤ sector align.offset
    else eqb_ℤ ((sector -ℤ align.offset) %ℤ align.grain_size) (pos 0)

-- `ped_alignment_is_aligned`
unfoldable pub is_aligned_in : Option Alignment → Option Geometry → ℤ → Bool
is_aligned_in none geom sector = false
is_aligned_in (some align) none sector = is_aligned align sector
is_aligned_in (some align) (some geom) sector =
    Geom.test_sector_inside geom sector && is_aligned align sector

-- The two moves of `_closest_inside_geometry` for a positive grain.
unfoldable pub move_up : Alignment → Geometry → ℤ → ℤ
move_up align geom sector =
    if ltb_ℤ sector geom.start
    then sector +ℤ round_up_to (geom.start -ℤ sector) align.grain_size
    else sector

unfoldable pub move_down : Alignment → Geometry → ℤ → ℤ
move_down align geom sector =
    if ltb_ℤ geom.stop sector
    then sector -ℤ round_up_to (sector -ℤ geom.stop) align.grain_size
    else sector

-- `_closest_inside_geometry`, which its callers reach with a geometry only.
unfoldable pub closest_inside_geometry : Alignment → Geometry → ℤ → ℤ
closest_inside_geometry align geom sector =
    let moved = move_down align geom (move_up align geom sector) in
    if eqb_ℤ align.grain_size (pos 0)
    then if is_aligned_in (some align) (some geom) sector && Geom.test_sector_inside geom sector
      then sector
      else negsuc 0
    else if Geom.test_sector_inside geom moved
    then moved
    else negsuc 0

-- `ped_alignment_align_up` and `ped_alignment_align_down` before the geometry is looked at.
unfoldable pub up : Alignment → ℤ → ℤ
up align sector =
    if eqb_ℤ align.grain_size (pos 0)
    then align.offset
    else round_up_to (sector -ℤ align.offset) align.grain_size +ℤ align.offset

unfoldable pub down : Alignment → ℤ → ℤ
down align sector =
    if eqb_ℤ align.grain_size (pos 0)
    then align.offset
    else round_down_to (sector -ℤ align.offset) align.grain_size +ℤ align.offset

-- The call on the geometry at their end.
unfoldable pub confine : Alignment → Option Geometry → ℤ → ℤ
confine align none result = result
confine align (some geom) result = closest_inside_geometry align geom result

-- `ped_alignment_align_up` and `ped_alignment_align_down`
unfoldable pub align_up : Alignment → Option Geometry → ℤ → ℤ
align_up align geom sector = confine align geom (up align sector)

unfoldable pub align_down : Alignment → Option Geometry → ℤ → ℤ
align_down align geom sector = confine align geom (down align sector)

-- `closest`
unfoldable pub closest : ℤ → ℤ → ℤ → ℤ
closest sector a b =
    if eqb_ℤ a (negsuc 0)
    then b
    else if eqb_ℤ b (negsuc 0)
    then a
    else if ltb_ℤ (abs_ℤ (sector -ℤ a)) (abs_ℤ (sector -ℤ b))
    then a
    else b

-- `ped_alignment_align_nearest`
unfoldable pub align_nearest : Alignment → Option Geometry → ℤ → ℤ
align_nearest align geom sector =
    closest sector (align_up align geom sector) (align_down align geom sector)
