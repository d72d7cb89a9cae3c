-- ===== src/Constraint/Common.antt =====
-- `ped_constraint_exact` and `ped_constraint_intersect`, by the regions that
-- `ped_constraint_is_solution` lets through.
use uparted.Base.{
  Option, arith, done, int_laws, max_ℤ, max_ℤ_bounds, min_ℤ, min_ℤ_bounds, none, pos, refl, some,
  some-injective, subst, true, ℤ, ◌↔◌, ◌≡◌, ◌≤ℤ◌,
}
use uparted.Geom
use uparted.Geom.{Geometry}
use uparted.Geom.Laws.{Contains, IsValid, SameDev, init-Made, intersect-none, intersect_sound}
use uparted.Align
use uparted.Align.{Alignment}
use uparted.Align.Aligned.{Aligned, AlignedTo, GrainNonneg}
use uparted.Align.Intersect.{IsSmall}
use uparted.Align.Exact.{IsTame, NoOverflow, tame-NoOverflow}
use uparted.Rounding.{abs_mod}
use uparted.Constraint.{Constraint, intersect, intersect_with, is_solution, new, new_from_max}
use uparted.Constraint.Build.{Satisfies, new_lem, solution_iff}

-- A constraint as `ped_constraint_new` builds it from members that are present and in range.
pub record Parts : Type 0 where
  pub sa : Alignment
  pub ea : Alignment
  pub sr : Geometry
  pub er : Geometry
  pub lo : ℤ
  pub hi : ℤ
  pub sa_small : IsSmall sa
  pub ea_small : IsSmall ea
  pub sr_valid : IsValid sr
  pub er_valid : IsValid er

-- The ranges and the smallest size of a constraint are in range.
pub record IsUsable (p : Parts) : Type 0 where
  pub start_first : pos 0 ≤ℤ p.sr.start
  pub end_first : pos 0 ≤ℤ p.er.start
  pub smallest : pos 1 ≤ℤ p.lo

abbrev pub constraint_of : Parts → Constraint
constraint_of p = record {
  start_align = some p.sa;
  end_align = some p.ea;
  start_range = some p.sr;
  end_range = some p.er;
  min_size = p.lo;
  max_size = p.hi;
}

-- The region starts and ends in the ranges of the constraint.
abbrev pub InRanges : Parts → Geometry → Type 0
InRanges p g = Contains p.sr g.start × Contains p.er g.stop

pub solution-InRanges :
    (p : Parts) (g : Geometry) → is_solution (constraint_of p) g ≡ done true → InRanges p g
solution-InRanges p g h =
    let s =
      (solution_iff p.sa p.ea p.sr p.er p.lo p.hi g p.sa_small.nonneg p.ea_small.nonneg).0 h in
    (s.0.1, s.1.1)

-- The alignments of a constraint are as `ped_alignment_init` leaves them, and not too large.
pub record AreTame (p : Parts) : Type 0 where
  pub start : IsTame p.sa
  pub end : IsTame p.ea

-- The two intersections of alignments in `ped_constraint_intersect` do not overflow.
abbrev pub NoOverflows : Parts → Parts → Type 0
NoOverflows a b = NoOverflow a.sa b.sa × NoOverflow a.ea b.ea

pub tame-NoOverflows : (a b : Parts) → AreTame a → AreTame b → NoOverflows a b
tame-NoOverflows a b ta tb =
    (tame-NoOverflow a.sa b.sa ta.start tb.start, tame-NoOverflow a.ea b.ea ta.end tb.end)

module _ (a b : Parts) where
  -- A region lets both constraints through.
  abbrev pub Both : Geometry → Type 0
  Both g =
      (is_solution (constraint_of a) g ≡ done true) × (is_solution (constraint_of b) g ≡ done true)

  Both-iff :
      (g : Geometry)
      → Both g
        ↔ (Satisfies a.sa a.ea a.sr a.er a.lo a.hi g × Satisfies b.sa b.ea b.sr b.er b.lo b.hi g)
  Both-iff g =
      let p = solution_iff a.sa a.ea a.sr a.er a.lo a.hi g a.sa_small.nonneg a.ea_small.nonneg in
      let q = solution_iff b.sa b.ea b.sr b.er b.lo b.hi g b.sa_small.nonneg b.ea_small.nonneg in
      (λ h. (p.0 h.0, q.0 h.1), λ h. (p.1 h.0, q.1 h.1))

  -- What the four intersections return decides the result.
  cases_lem :
      (s e : Option Alignment) (sr er : Option Geometry)
      → ((t : ℤ) → AlignedTo s t ↔ (Aligned a.sa t × Aligned b.sa t))
      → ((t : ℤ) → AlignedTo e t ↔ (Aligned a.ea t × Aligned b.ea t))
      → GrainNonneg s
      → GrainNonneg e
      → Geom.intersect (some a.sr) (some b.sr) ≡ sr
      → Geom.intersect (some a.er) (some b.er) ≡ er
      → SameDev a.sr b.sr
      → SameDev a.er b.er
      → ((c : Constraint)
          → intersect_with (constraint_of a) (constraint_of b) s e sr er ≡ some c
          → (g : Geometry) → (is_solution c g ≡ done true) ↔ Both g)
        × (intersect_with (constraint_of a) (constraint_of b) s e sr er ≡ none
            → (g : Geometry) → ¬ Both g)
  unfolding intersect_with
  cases_lem none e sr er ps pe ns ne is ie ds de =
      (λ c h. cc, λ h g both. let (p, q) = (Both-iff g).0 both in (ps g.start).1 (p.0.0, q.0.0))
  cases_lem (some s) none sr er ps pe ns ne is ie ds de =
      (λ c h. cc, λ h g both. let (p, q) = (Both-iff g).0 both in (pe g.stop).1 (p.1.0, q.1.0))
  cases_lem (some s) (some e) none er ps pe ns ne is ie ds de = (
    λ c h. cc,
    λ h g both.
        let (p, q) = (Both-iff g).0 both in intersect-none a.sr b.sr ds is g.start p.0.1 q.0.1,
  )
  cases_lem (some s) (some e) (some sr) none ps pe ns ne is ie ds de = (
    λ c h. cc,
    λ h g both.
        let (p, q) = (Both-iff g).0 both in intersect-none a.er b.er de ie g.stop p.1.1 q.1.1,
  )
  cases_lem (some s) (some e) (some sr) (some er) ps pe ns ne is ie ds de = (
    λ c h g. subst (λ x. (is_solution x g ≡ done true) ↔ Both g) (some-injective _ c h) (whole g),
    λ h g both. cc,
  )
    where
      lo : ℤ
      lo = max_ℤ a.lo b.lo

      hi : ℤ
      hi = min_ℤ a.hi b.hi

      whole :
          (g : Geometry) → (is_solution (new (some s) (some e) sr er lo hi) g ≡ done true) ↔ Both g
      whole g =
          let (sv, _, _, in_start) = intersect_sound a.sr b.sr sr is in
          let (ev, _, _, in_end) = intersect_sound a.er b.er er ie in
          let (to, from) = new_lem s e sr er lo hi g ns ne sv ev in
          let most = max_ℤ_bounds a.lo b.lo in
          let least = min_ℤ_bounds a.hi b.hi in
          (
            λ h.
                let ((d, c), (d', c'), l, k) = to h in
                let (da, db) = (ps g.start).0 d in
                let (ca, cb) = (in_start g.start).0 c in
                let (da', db') = (pe g.stop).0 d' in
                let (ca', cb') = (in_end g.stop).0 c' in
                (Both-iff g).1 (
                  ((da, ca), (da', ca'), omega arith, omega arith),
                  ((db, cb), (db', cb'), omega arith, omega arith),
                ),
            λ both.
                let (((da, ca), (da', ca'), la, ka), ((db, cb), (db', cb'), lb, kb)) =
                  (Both-iff g).0 both in
                from (
                  ((ps g.start).1 (da, db), (in_start g.start).1 (ca, cb)),
                  ((pe g.stop).1 (da', db'), (in_end g.stop).1 (ca', cb')),
                  ground arith,
                  ground arith,
                ),
          )

  -- `intersect` in exact arithmetic, by the regions that it lets through.
  pub intersect_regions :
      SameDev a.sr b.sr
      → SameDev a.er b.er
      → (o : Option Constraint) × (intersect (some (constraint_of a)) (some (constraint_of b))
          ≡ done o)
        × ((c : Constraint) → o ≡ some c → (g : Geometry) → (is_solution c g ≡ done true) ↔ Both g)
        × (o ≡ none → (g : Geometry) → ¬ Both g)
  unfolding intersect
  intersect_regions ds de =
      let (s, s_run, s_grain, s_keeps) =
        Align.Intersect.intersect_common a.sa b.sa a.sa_small b.sa_small in
      let (e, e_run, e_grain, e_keeps) =
        Align.Intersect.intersect_common a.ea b.ea a.ea_small b.ea_small in
      let (made, empty) = cases_lem s e _ _ s_keeps e_keeps s_grain e_grain refl refl ds de in
      (_, rw (s_run, e_run), made, empty)

  -- `ped_constraint_intersect` on two constraints over one device, with valid ranges and with
  -- alignments as `ped_alignment_init` leaves them, their grains at most 2^20 sectors and their
  -- offsets at most 2^61: it comes back, and no number that is computed for the alignments
  -- overflows. A region passes the constraint that it returns if and only if it passes both of the
  -- originals, and NULL is returned only if no region passes both.
  pub intersect_solutions :
      AreTame a
      → AreTame b
      → SameDev a.sr b.sr
      → SameDev a.er b.er
      → NoOverflows a b
        × ((o : Option Constraint) × (intersect (some (constraint_of a)) (some (constraint_of b))
              ≡ done o)
            × ((c : Constraint)
                → o ≡ some c
                → (g : Geometry) → (is_solution c g ≡ done true) ↔ Both g)
            × (o ≡ none → (g : Geometry) → ¬ Both g))
  intersect_solutions ta tb ds de = (tame-NoOverflows a b ta tb, intersect_regions ds de)

-- `ped_constraint_new_from_max` makes such a constraint on the device of its region.
pub new_from_max-Parts :
    (max : Geometry)
    → IsValid max
    → (p : Parts) × (new_from_max max ≡ constraint_of p)
      × (p.sr.dev ≡ max.dev)
      × (p.er.dev ≡ max.dev)
      × (p.sa.grain_size ≡ pos 1)
      × (p.ea.grain_size ≡ pos 1)
      × (pos 0 ≤ℤ max.start → IsUsable p)
unfolding new_from_max new Align.duplicate Geom.duplicate Align.new Align.init abs_mod
new_from_max-Parts max v =
    let (q, made, m) = init-Made max.dev max.start max.length v.nonempty in
    (
      record {
        sa = record { offset = abs_mod (pos 0) (pos 1); grain_size = pos 1 };
        ea = record { offset = abs_mod (pos 0) (pos 1); grain_size = pos 1 };
        sr = q;
        er = q;
        lo = pos 1;
        hi = max.length;
        sa_small = record { nonneg = omega arith; fits = omega arith };
        ea_small = record { nonneg = omega arith; fits = omega arith };
        sr_valid = m.valid;
        er_valid = m.valid;
      },
      rw made refl,
      m.dev_eq,
      m.dev_eq,
      refl,
      refl,
      λ h.
          let s = m.start_eq in
          record {
            start_first = omega int_laws;
            end_first = omega int_laws;
            smallest = omega arith;
          },
    )
