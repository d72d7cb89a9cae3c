-- ===== src/Dos/Align/OnDisk.antt =====
-- The constraints of a primary partition keep it on the device, behind the partition table.
use uparted.Base.{
  Bool-cases, Option, arith, eqb_ℤ, inl, inr, int_laws, ltb_ℤ, negsuc, none, pos, some, ℕ, ℤ, ◌*◌,
  ◌+ℤ◌, ◌<ℤ◌, ◌<◌, ◌^◌, ◌≤ℤ◌,
}
use uparted.Geom
use uparted.Geom.{Geometry}
use uparted.Align
use uparted.Constraint.Made.{init-IsSmall}
use uparted.Dos.Chs.{ChsGeometry}
use uparted.Dos.Limits.{primary_constraint, primary_start_constraint, start_position}
use uparted.Dos.Align.Search.{IsBios, product_pos}
use uparted.Label.{new_over}
use uparted.Label.Internal.{AsksOver, Internal, Internal-map, new_over_lem}
use uparted.Label.Types.{cylinder_size}

-- Behind the sector of the partition table, and on the device.
abbrev pub OnDisk : Geom.Device → Geometry → Type 0
OnDisk dev g = (pos 1 ≤ℤ g.start) × (g.stop <ℤ dev.length)

over_lem :
    (dev : Geom.Device) (offset : ℤ) (m n : ℕ) (first length first_end length_end hi : ℤ)
    → m < 2 ^ 31
    → n < 2 ^ 31
    → pos 1 ≤ℤ first
    → first_end +ℤ length_end ≤ℤ dev.length
    → Internal dev (OnDisk dev) (
        new_over
          (Align.init offset (pos m))
          (Align.init (negsuc 0) (pos n))
          (Geom.init dev first length)
          (Geom.init dev first_end length_end)
          hi)
over_lem dev offset m n first length first_end length_end hi hm hn lo up =
    let (sa, s_made, ss, _) = init-IsSmall offset m hm in
    let (ea, e_made, es, _) = init-IsSmall (negsuc 0) n hn in
    rw (s_made, e_made)
      (Internal-map dev (AsksOver dev sa ea first length first_end length_end hi) (OnDisk dev) _
        (λ g (_, _, start, _, stop). (omega int_laws, omega int_laws))
        (new_over_lem dev sa ea first length first_end length_end hi ss es))

start_position-pos :
    (geom : Geometry) (bios : ChsGeometry) → IsBios bios → pos 1 ≤ℤ start_position geom bios
unfolding start_position
start_position-pos geom bios ok = elim (Bool-cases (eqb_ℤ geom.start (pos 2048))) [
  | inl e ↦ rw e (omega arith)
  | inr e ↦ rw e (let h = ok.sectors in omega arith)
]

pub primary_start-OnDisk :
    (dev : Geom.Device) (geom : Geometry) (bios : ChsGeometry) (min : Option Geometry)
    → IsBios bios
    → Internal dev (OnDisk dev) (primary_start_constraint dev geom bios min)
unfolding primary_start_constraint cylinder_size
primary_start-OnDisk dev geom bios none ok =
    over_lem dev _ 0 (bios.sectors * bios.heads) _ _ _ _ _ (omega arith) ok.fits
      (start_position-pos geom bios ok) (omega int_laws)
primary_start-OnDisk dev geom bios (some min) ok =
    over_lem dev _ 0 (bios.sectors * bios.heads) _ _ _ _ _ (omega arith) ok.fits
      (start_position-pos geom bios ok) (omega int_laws)

pub primary-OnDisk :
    (dev : Geom.Device) (bios : ChsGeometry) (min : Option Geometry)
    → IsBios bios
    → Internal dev (OnDisk dev) (primary_constraint dev bios min)
unfolding primary_constraint cylinder_size
primary-OnDisk dev bios none ok =
    let n = bios.sectors * bios.heads in
    let p = product_pos bios.sectors bios.heads ok.sectors ok.heads in
    over_lem dev (pos 0) n n _ _ _ _ _ ok.fits ok.fits
      (elim (Bool-cases (ltb_ℤ (pos n) dev.length)) [
        | inl e ↦ rw e (omega arith)
        | inr e ↦ rw e (omega arith)
      ])
      (omega int_laws)
primary-OnDisk dev bios (some min) ok =
    let n = bios.sectors * bios.heads in
    let p = product_pos bios.sectors bios.heads ok.sectors ok.heads in
    elim (Bool-cases (ltb_ℤ min.start (pos n))) [
      | inl e ↦ rw e tt
      | inr e ↦
          rw e (over_lem dev (pos 0) n n _ _ _ _ _ ok.fits ok.fits (omega arith) (omega int_laws))
    ]
