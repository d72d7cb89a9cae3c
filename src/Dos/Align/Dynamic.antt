-- ===== src/Dos/Align/Dynamic.antt =====
-- A partition of a dynamic disk.
use uparted.Base.{
  Bool, Bool-cases, ap, arith, done, eqb_ℤ→eq, false, inl, inr, leb_ℤ, ltb_ℤ, none, pos, refl, some,
  sym, true, ◌&&◌, ◌∙◌, ◌≡◌,
}
use uparted.Geom
use uparted.Geom.{Geometry}
use uparted.Geom.Laws.{IsValid}
use uparted.Align
use uparted.Constraint.{Constraint, is_solution}
use uparted.Constraint.Common.{Parts, constraint_of}
use uparted.Dos.Limits.{kept_or}
use uparted.Dos.Align.{align_dynamic}

is_solution_runs :
    (a : Parts) (g : Geometry) → (b : Bool) × (is_solution (constraint_of a) g ≡ done b)
unfolding is_solution
is_solution_runs a g =
    elim (Bool-cases (
      Align.is_aligned_in (some a.sa) none g.start
      && Align.is_aligned_in (some a.ea) none g.stop)) [
        | inr e ↦ (false, rw e refl)
        | inl e ↦ elim (Bool-cases (Geom.test_sector_inside a.sr g.start)) [
          | inr f ↦ (false, rw (e, f) refl)
          | inl f ↦ (
            Geom.test_sector_inside a.er g.stop && (leb_ℤ a.lo g.length && leb_ℤ g.length a.hi),
            rw (e, f) refl,
          )
        ]
      ]

-- A partition of a dynamic disk is not moved: it stays where it is if that is where it was, or is
-- put back there.
pub record StaysPut (geom orig : Geometry) (c : Constraint) (r : Bool × Geometry) : Type 0 where
  pub solves : r.0 ≡ true → (r.1 ≡ geom) × (is_solution c geom ≡ done true)
  pub where_it_was : IsValid orig → (r.1.start ≡ orig.start) × (r.1.stop ≡ orig.stop)

put_back :
    (geom orig : Geometry)
    → IsValid orig
    → ((kept_or geom (Geom.set geom orig.start orig.length)).start ≡ orig.start)
      × ((kept_or geom (Geom.set geom orig.start orig.length)).stop ≡ orig.stop)
unfolding Geom.set
put_back geom orig v = rw long (refl, sym v.last)
  where
    long : ltb_ℤ orig.length (pos 1) ≡ false
    long = let n = v.nonempty in ground arith

pub align_dynamic_lem :
    (geom orig : Geometry) (a : Parts)
    → (r : Bool × Geometry) × (align_dynamic geom orig (some (constraint_of a)) ≡ done r)
      × StaysPut geom orig (constraint_of a) r
unfolding align_dynamic Geom.test_equal
align_dynamic_lem geom orig a = elim (Bool-cases (Geom.test_equal geom orig)) [
  | inr e ↦ (
    (false, kept_or geom (Geom.set geom orig.start orig.length)),
    rw e refl,
    record { solves = λ t. cc; where_it_was = put_back geom orig },
  )
  | inl e ↦
      let (b, run) = is_solution_runs a geom in
      elim (Bool-cases b) [
        | inl f ↦ (
          (true, geom),
          rw (e, run, f) refl,
          record { solves = λ t. (refl, run ∙ ap done f); where_it_was = λ v. ends e },
        )
        | inr f ↦ (
          (false, kept_or geom (Geom.set geom orig.start orig.length)),
          rw (e, run, f) refl,
          record { solves = λ t. cc; where_it_was = put_back geom orig },
        )
      ]
]
  where
    ends : Geom.test_equal geom orig ≡ true → (geom.start ≡ orig.start) × (geom.stop ≡ orig.stop)
    ends e =
        (eqb_ℤ→eq geom.start orig.start (ground arith), eqb_ℤ→eq geom.stop orig.stop (ground arith))
