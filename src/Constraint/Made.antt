-- ===== src/Constraint/Made.antt =====
-- The constraints that the labels make with `ped_alignment_init` and `ped_constraint_new`.
use uparted.Base.{
  ap, arith, done, pos, refl, some, some-injective, subst, sym, true, ℕ, ℤ, ◌-ℤ◌, ◌<◌, ◌^◌, ◌∙◌,
  ◌∣ℤ◌, ◌≡◌,
}
use uparted.Geom.{Geometry}
use uparted.Geom.Laws.{Contains, IsValid}
use uparted.Align
use uparted.Align.{Alignment}
use uparted.Align.Aligned.{Aligned}
use uparted.Align.Intersect.{IsSmall}
use uparted.Align.Intersect.Solve.{new-Aligned}
use uparted.Constraint
use uparted.Constraint.{Constraint, is_solution}
use uparted.Constraint.Build.{Satisfies, duplicate_align, new_lem}
use uparted.Constraint.Common.{Parts, constraint_of}
use uparted.Constraint.Meet.{Contains-Made, duplicate-Made, grain_le}

new_same : (offset grain : ℤ) → Align.init offset grain ≡ Align.new offset grain
unfolding Align.new
new_same offset grain = refl

-- `ped_alignment_init` on a grain below 2^31.
pub init-IsSmall :
    (offset : ℤ) (n : ℕ)
    → n < 2 ^ 31
    → (a : Alignment) × (Align.init offset (pos n) ≡ some a)
      × IsSmall a
      × ((t : ℤ) → Aligned a t → pos n ∣ℤ t -ℤ offset)
init-IsSmall offset n h =
    let (a, made, grain, keeps) = new-Aligned offset n in
    (
      a,
      new_same offset (pos n) ∙ made,
      record { nonneg = rw grain (omega arith); fits = rw grain (omega arith) },
      λ t. (keeps t).0,
    )

duplicate-IsSmall :
    (x : Alignment) → IsSmall x → (s : Alignment) × (Align.duplicate (some x) ≡ some s) × IsSmall s
duplicate-IsSmall x ok =
    let (s, made, n, same) = duplicate_align x ok.nonneg in
    (
      s,
      made,
      record {
        nonneg = n;
        fits = let h = grain_le x s ok.nonneg n same in let f = ok.fits in omega arith;
      },
    )

-- `ped_constraint_new` from members in range makes a constraint of the kind that
-- `ped_constraint_intersect` handles, and its solutions are those that the members ask for.
pub new-Parts :
    (sa ea : Alignment) (sr er : Geometry) (lo hi : ℤ)
    → IsSmall sa
    → IsSmall ea
    → IsValid sr
    → IsValid er
    → (p : Parts) × (Constraint.new (some sa) (some ea) sr er lo hi ≡ constraint_of p)
      × (p.sr.dev ≡ sr.dev)
      × (p.er.dev ≡ er.dev)
      × ((g : Geometry)
          → is_solution (constraint_of p) g ≡ done true
          → Satisfies sa ea sr er lo hi g)
unfolding Constraint.new
new-Parts sa ea sr er lo hi ss es sv ev =
    let (sa', a_made, a_small) = duplicate-IsSmall sa ss in
    let (ea', e_made, e_small) = duplicate-IsSmall ea es in
    let (sr', s_made, sm) = duplicate-Made sr sv in
    let (er', r_made, em) = duplicate-Made er ev in
    let p : Parts = record {
      sa = sa';
      ea = ea';
      sr = sr';
      er = er';
      lo = lo;
      hi = hi;
      sa_small = a_small;
      ea_small = e_small;
      sr_valid = sm.valid;
      er_valid = em.valid;
    } in
    let same : Constraint.new (some sa) (some ea) sr er lo hi ≡ constraint_of p =
      rw (a_made, e_made, s_made, r_made) refl in
    (
      p,
      same,
      sm.dev_eq,
      em.dev_eq,
      λ g h.
          (new_lem sa ea sr er lo hi g ss.nonneg es.nonneg sv ev).0
            (subst (λ c. is_solution c g ≡ done true) (sym same) h),
    )

-- The ranges of the constraint that `ped_constraint_new_from_max` makes are its region.
pub new_from_max-InRanges :
    (max : Geometry) (p : Parts)
    → IsValid max
    → Constraint.new_from_max max ≡ constraint_of p
    → (t : ℤ) → (Contains p.sr t → Contains max t) × (Contains p.er t → Contains max t)
unfolding Constraint.new_from_max Constraint.new
new_from_max-InRanges max p v same t =
    let (q, made, m) = duplicate-Made max v in
    let sr : q ≡ p.sr = some-injective _ _ (sym made ∙ ap (λ c. c.start_range) same) in
    let er : q ≡ p.er = some-injective _ _ (sym made ∙ ap (λ c. c.end_range) same) in
    (
      λ c. Contains-Made max q v m t (subst (λ r. Contains r t) (sym sr) c),
      λ c. Contains-Made max q v m t (subst (λ r. Contains r t) (sym er) c),
    )
