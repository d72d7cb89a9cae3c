-- ===== src/Label/Types/Sun.antt =====
-- `sun_partition_align`: the strict constraint, and then the lax one.
use uparted.Base.{
  Bool-cases, arith, false, inl, inr, int_laws, pos, refl, some, subst, true, ℕ, ℤ, ◌*◌, ◌<ℤ◌, ◌∣ℤ◌,
  ◌≡◌, ◌≤ℤ◌,
}
use uparted.Geom
use uparted.Geom.{Geometry}
use uparted.Align
use uparted.Align.Intersect.{IsSmall}
use uparted.Constraint.Common.{IsUsable, Parts, constraint_of}
use uparted.Constraint.Made.{init-IsSmall}
use uparted.Dos.Chs.{ChsGeometry}
use uparted.Label.Attempt.{IsAligned}
use uparted.Label.Types.{cylinder_size, lax_constraint, strict_constraint, sun, sun_partition_align}
use uparted.Label.Internal.{Internal, Internal-map}
use uparted.Label.Types.Internal.{Asks, new_in_lem}
use uparted.Label.Types.Area.{FitsInt, Gives, InArea, attempt_in, cylinders}

abbrev SunArea : ℕ → ℤ → Geometry → Type 0
SunArea n length g = (pos n ∣ℤ g.start) × (pos 0 ≤ℤ g.start) × (g.stop <ℤ length)

module _ (geom : Geometry) (a : Parts) (dev : Geom.Device) (ok : IsUsable a) (sd : a.sr.dev ≡ dev)
    (ed : a.er.dev ≡ dev) where
  strict_lem :
      (bios : ChsGeometry) (length : ℤ)
      → FitsInt bios
      → Internal dev
          (SunArea (bios.sectors * bios.heads) length)
          (strict_constraint bios dev length)
  unfolding strict_constraint cylinder_size
  strict_lem bios length h =
      cylinders geom a dev ok sd ed _ (bios.sectors * bios.heads) (pos 0) length dev.length h
        λ g ds de lo up. (ds, lo, omega int_laws)

  lax_lem :
      (bios : ChsGeometry) (length : ℤ)
      → FitsInt bios
      → Internal dev (SunArea (bios.sectors * bios.heads) length) (lax_constraint bios dev length)
  unfolding lax_constraint cylinder_size
  lax_lem bios length h =
      let n = bios.sectors * bios.heads in
      let (sa, s_made, ss, s_keeps) = init-IsSmall (pos 0) n h in
      let es : IsSmall Align.any = record { nonneg = omega arith; fits = omega arith } in
      rw s_made (
        Internal-map dev (Asks dev sa Align.any (pos 0) length dev.length) _ _
          (λ g (da, db, lo, up).
            (subst (λ x. pos n ∣ℤ x) (omega int_laws) (s_keeps g.start da), lo, omega int_laws))
          (new_in_lem dev sa Align.any (pos 0) length dev.length ss es))

-- The first attempt, and where it returns 0 the second.
pub sun_lem :
    (bios : ChsGeometry) (length : ℤ) (geom : Geometry) (a : Parts) (dev : Geom.Device)
    → IsUsable a
    → a.sr.dev ≡ dev
    → a.er.dev ≡ dev
    → FitsInt bios
    → Gives geom
        (constraint_of a)
        (λ g. InArea (sun length) bios bios dev false g)
        (sun_partition_align bios dev length geom (some (constraint_of a)))
unfolding sun_partition_align cylinder_size
sun_lem bios length geom a dev ok sd ed h =
    let ((status, changed), run, mine, area) =
      attempt_in geom a dev ok sd ed _ _ (strict_lem geom a dev ok sd ed bios length h) in
    rw run (elim (Bool-cases status) [
      | inl e ↦ (
        (true, changed),
        rw e refl,
        record { taken = λ f. mine.taken e; kept = λ f. cc },
        λ f. area e,
      )
      | inr e ↦
          let (r, run', mine', area') =
            attempt_in changed a dev ok sd ed _ _ (lax_lem changed a dev ok sd ed bios length h) in
          (r, rw e run', subst (λ g. IsAligned g (constraint_of a) r) (mine.kept e) mine', area')
    ])
