-- ===== src/Label/Types/Internal.antt =====
-- What the constraints of the labels ask for.
use uparted.Base.{arith, done, int_laws, pos, refl, some, ℤ, ◌+ℤ◌, ◌-ℤ◌, ◌<ℤ◌, ◌∙◌, ◌≡◌, ◌≤ℤ◌}
use uparted.Geom
use uparted.Geom.{Geometry}
use uparted.Geom.Laws.{Made, init-Made}
use uparted.Align
use uparted.Align.{Alignment}
use uparted.Align.Aligned.{Aligned}
use uparted.Align.Intersect.{IsSmall}
use uparted.Constraint
use uparted.Constraint.{Constraint}
use uparted.Constraint.Made.{new-Parts}
use uparted.Label.Types.{new_in}
use uparted.Label.Internal.{AsksOver, Internal, Internal-map, new_over_lem}

-- One range for both ends.
module _ (dev : Geom.Device) (sa ea : Alignment) (start length hi : ℤ) where
  abbrev pub Asks : Geometry → Type 0
  Asks g =
      Aligned sa g.start
      × Aligned ea g.stop
      × (start ≤ℤ g.start)
      × (g.stop ≤ℤ start +ℤ length -ℤ pos 1)

  pub new_in_lem :
      IsSmall sa
      → IsSmall ea
      → Internal dev Asks (new_in (some sa) (some ea) (Geom.init dev start length) hi)
  unfolding new_in
  new_in_lem ss es =
      Internal-map dev (AsksOver dev sa ea start length start length hi) Asks _
        (λ g (da, db, lo, lo', up). (da, db, lo, up))
        (new_over_lem dev sa ea start length start length hi ss es)

-- `ped_constraint_new_from_min` of the first sector, in `_get_extended_constraint` of dvh.c.
pub from_first_sector :
    (dev : Geom.Device) (min : Geometry)
    → pos 1 ≤ℤ dev.length
    → Made dev (pos 0) (pos 1) min
    → (c : Constraint) × (Constraint.new_from_min min ≡ done c)
      × Internal dev (λ g. (g.start ≡ pos 0) × (g.stop <ℤ dev.length)) (some c)
unfolding Constraint.new_from_min Constraint.new_from_min_max
from_first_sector dev min h m =
    let (full, f_made, f) = init-Made dev (pos 0) dev.length h in
    let (sr, s_made, sm) = init-Made dev (pos 0) (pos 1) (omega arith) in
    let (er, e_made, em) = init-Made dev (pos 0) dev.length h in
    let ms = m.start_eq in
    let ml = m.length_eq in
    let mb = m.valid.last in
    let fs = f.start_eq in
    let fl = f.length_eq in
    let fb = f.valid.last in
    let at : min.stop ≡ pos 0 = omega int_laws in
    let one : min.start -ℤ full.start +ℤ pos 1 ≡ pos 1 = omega int_laws in
    let all : full.stop -ℤ min.stop +ℤ pos 1 ≡ dev.length = omega int_laws in
    let (p, same, sd, ed, asks) =
      new-Parts Align.any Align.any sr er (pos 1) dev.length any-IsSmall any-IsSmall sm.valid
        em.valid in
    (
      Constraint.new (some Align.any) (some Align.any) sr er (pos 1) dev.length,
      rw (m.dev_eq, f_made, one, fs, s_made, all, at, e_made, ml, fl) refl,
      (
        p,
        same,
        sd ∙ sm.dev_eq,
        ed ∙ em.dev_eq,
        λ g v h.
            let ((_, ca), (_, cb), _, _) = asks g h in
            let s = sm.start_eq in
            let l = sm.length_eq in
            let e = em.start_eq in
            let k = em.length_eq in
            let a = sm.valid.last in let b = em.valid.last in (omega int_laws, omega int_laws),
      ),
    )
  where
    any-IsSmall : IsSmall Align.any
    any-IsSmall = record { nonneg = omega arith; fits = omega arith }
