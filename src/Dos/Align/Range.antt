-- ===== src/Dos/Align/Range.antt =====
-- `_logical_constraint` comes back.
use uparted.Base.{
  Bool, Bool-cases, Option, done, false, inl, inr, leb_ℤ, negsuc, none, pos, refl, some, true, ℤ,
  ◌*◌, ◌+ℤ◌, ◌-ℤ◌, ◌≡◌,
}
use uparted.Geom
use uparted.Geom.{Geometry}
use uparted.Rounding.{round_up_to}
use uparted.Constraint.{Constraint}
use uparted.Constraint.Made.{init-IsSmall}
use uparted.Disk.{Disk, Entry, extended_partition}
use uparted.Dos.Chs.{ChsGeometry}
use uparted.Dos.Limits.{logical_constraint, logical_range}
use uparted.Dos.Align.Search.{IsBios, size-nonzero}
use uparted.Label.{new_over}
use uparted.Label.Internal.{
  AsksOver, Internal, Internal-map, MadeOr, init-MadeOr, new_over-Internal,
}
use uparted.Label.Types.{cylinder_size}

-- Any region.
abbrev pub Any : Geometry → Type 0
Any g = Unit

range_lem :
    (dev : Geom.Device) (bios : ChsGeometry) (ext : Geometry) (is_start_part : Bool)
    → IsBios bios
    → (o : Option Geometry) × (logical_range dev (cylinder_size bios) ext is_start_part ≡ done o)
      × ((first : ℤ) × (length : ℤ) × MadeOr dev first length o)
unfolding logical_range
range_lem dev bios ext true ok =
    (Geom.init dev ext.start ext.length, refl, (ext.start, ext.length, init-MadeOr dev _ _))
range_lem dev bios ext false ok =
    let min = round_up_to (ext.start +ℤ pos 1) (cylinder_size bios) in
    rw (size-nonzero bios ok) (elim (Bool-cases (leb_ℤ ext.stop min)) [
      | inl e ↦ (none, rw e refl, (pos 0, pos 0, tt))
      | inr e ↦ (
        Geom.init dev min (ext.stop -ℤ min +ℤ pos 1),
        rw e refl,
        (min, ext.stop -ℤ min +ℤ pos 1, init-MadeOr dev _ _),
      )
    ])

pub logical_constraint_lem :
    (disk : Disk) (bios : ChsGeometry) (offset : ℤ) (is_start_part : Bool) (ext : Entry)
    → IsBios bios
    → extended_partition disk.part_list ≡ some ext
    → (o : Option Constraint) × (logical_constraint disk bios offset is_start_part ≡ done o)
      × Internal disk.dev Any o
unfolding logical_constraint cylinder_size
logical_constraint_lem disk bios offset is_start_part ext ok found =
    let (max, run, (first, length, m)) = range_lem disk.dev bios ext.part.geom is_start_part ok in
    let n = bios.sectors * bios.heads in
    let (sa, s_made, ss, _) = init-IsSmall offset n ok.fits in
    let (ea, e_made, es, _) = init-IsSmall (negsuc 0) n ok.fits in
    (
      new_over (some sa) (some ea) max max disk.dev.length,
      rw (found, run, s_made, e_made) refl,
      Internal-map disk.dev (AsksOver disk.dev sa ea first length first length disk.dev.length) Any
          _ (λ g h. tt)
          (new_over-Internal disk.dev sa ea first length first length disk.dev.length max max m m ss
            es),
    )
