-- ===== src/Label/Attempt.antt =====
-- A search under two constraints returns regions that satisfy both.
use uparted.Base.{
  >>=-eq-done, Bool, Bool-cases, Option, Run, ap, arith, done, eqb_ℤ, false, if◌then◌else◌, inl,
  inr, ltb_ℤ, negsuc, none, pos, refl, some, some-injective, subst, sym, true, ℤ, ◌+ℤ◌, ◌-ℤ◌, ◌↔◌,
  ◌∙◌, ◌≡◌,
}
use uparted.Geom
use uparted.Geom.{Geometry}
use uparted.Geom.Laws.{IsValid, new-some}
use uparted.Constraint.{
  Constraint, is_solution, nearest_end_soln, nearest_start_soln, solve_from, solve_nearest,
}
use uparted.Constraint.Solve.{solve_nearest_lem}
use uparted.Constraint.Common.{
  AreTame, IsUsable, NoOverflows, Parts, constraint_of, intersect_regions, tame-NoOverflows,
}
use uparted.Constraint.Meet.{IsMeet, meet-IsProper, meet_lem}
use uparted.Label.{accept_solution, assign, assigned, attempt_align, try_constraint}

pub done-injective : {A : Type 0} {a b : A} → done a ≡ done b → a ≡ b
done-injective h = cc

nothing_found : {A : Type 0} {a : A} (r : Run (Option A)) → r ≡ done none → r ≡ done (some a) → ⊥
nothing_found r g h = cc

-- `g` is a region that `ped_geometry_set` makes, on the device of `geom`.
solve_from-IsValid :
    (c : Constraint) (geom : Geometry) (start : ℤ) (g : Geometry)
    → solve_from c geom start ≡ done (some g)
    → IsValid g × (g.dev ≡ geom.dev)
unfolding solve_from
solve_from-IsValid c geom start g h = elim (Bool-cases (eqb_ℤ start (negsuc 0))) [
  | inl e ↦ let gone = rw e at h in absurd (nothing_found _ refl gone)
  | inr e ↦
      let (stop, found, rest) =
        >>=-eq-done (nearest_end_soln c start geom.stop)
          (λ x.
            done
              (if eqb_ℤ x (negsuc 0) then none else Geom.new geom.dev start (x -ℤ start +ℤ pos 1)))
          (rw e at h) in
      elim (Bool-cases (eqb_ℤ stop (negsuc 0))) [
        | inl f ↦ let gone = rw f at rest in absurd (nothing_found _ refl gone)
        | inr f ↦
            let made = done-injective (rw f at rest) in
            let m = new-some geom.dev start (stop -ℤ start +ℤ pos 1) made in (m.valid, m.dev_eq)
      ]
]

pub solve_nearest-IsValid :
    (o : Option Constraint) (geom g : Geometry)
    → solve_nearest o geom ≡ done (some g)
    → IsValid g × (g.dev ≡ geom.dev)
unfolding solve_nearest
solve_nearest-IsValid none geom g h = cc
solve_nearest-IsValid (some c) geom g h =
    let (start, found, rest) =
      >>=-eq-done (nearest_start_soln c geom.start) (solve_from c geom) h in
    solve_from-IsValid c geom start g rest

solve_nearest-none : (geom : Geometry) → solve_nearest none geom ≡ done none
unfolding solve_nearest
solve_nearest-none geom = refl

-- What a search that came back with `o` promises under the constraint of the caller.
pub record IsSolved (geom : Geometry) (c : Constraint) (g : Geometry) : Type 0 where
  pub valid : IsValid g
  pub dev_eq : g.dev ≡ geom.dev
  pub solves : is_solution c g ≡ done true

abbrev pub Solved : Geometry → Constraint → Option Geometry → Type 0
Solved geom c none = Unit
Solved geom c (some g) = IsSolved geom c g

-- The search comes back, and what it finds satisfies both constraints.
pub try_constraint_lem :
    (geom : Geometry) (a b : Parts)
    → IsUsable a
    → Geom.Laws.SameDev a.sr b.sr
    → Geom.Laws.SameDev a.er b.er
    → (o : Option Geometry) × (try_constraint geom (some (constraint_of a)) (some (constraint_of b))
        ≡ done o)
      × Solved geom (constraint_of a) o
      × Solved geom (constraint_of b) o
unfolding try_constraint
try_constraint_lem geom a b ok ds de =
    let (o, run, members) = meet_lem a b in
    let (o', run', both, empty) = intersect_regions a b ds de in
    rw run (search o members λ c h. both c (done-injective (sym run' ∙ run ∙ ap done h)))
  where
    search :
        (o : Option Constraint)
        → ((c : Constraint) → o ≡ some c → IsMeet a b c)
        → ((c : Constraint)
            → o ≡ some c
            → (g : Geometry)
            → (is_solution c g ≡ done true) ↔ (
                (is_solution (constraint_of a) g ≡ done true)
                × (is_solution (constraint_of b) g ≡ done true)))
        → (r : Option Geometry) × (solve_nearest o geom ≡ done r)
          × Solved geom (constraint_of a) r
          × Solved geom (constraint_of b) r
    search none members both = (none, solve_nearest-none geom, tt, tt)
    search (some c) members both =
        let (r, run, solves) = solve_nearest_lem (meet-IsProper (members c refl) ok) geom in
        let (p, q) = solved r run solves in (r, run, p, q)
      where
        solved :
            (r : Option Geometry)
            → solve_nearest (some c) geom ≡ done r
            → ((g : Geometry) → r ≡ some g → is_solution c g ≡ done true)
            → Solved geom (constraint_of a) r × Solved geom (constraint_of b) r
        solved none run solves = (tt, tt)
        solved (some g) run solves =
            let (v, d) = solve_nearest-IsValid (some c) geom g run in
            let (p, q) = (both c refl g).0 (solves g refl) in
            (
              record { valid = v; dev_eq = d; solves = p },
              record { valid = v; dev_eq = d; solves = q },
            )

set_same :
    (geom g : Geometry) → IsValid g → g.dev ≡ geom.dev → Geom.set geom g.start g.length ≡ some g
unfolding Geom.set
set_same geom g v d =
    rw not_short (λ i.
      some (record { dev = sym d i; start = g.start; length = g.length; stop = sym v.last i }))
  where
    not_short : ltb_ℤ g.length (pos 1) ≡ false
    not_short = let n = v.nonempty in ground arith

-- `ped_geometry_set` to the sectors of a solution makes that solution.
pub assign_lem :
    (geom : Geometry) (c : Constraint) (g : Geometry) → IsSolved geom c g → assign geom g ≡ g
unfolding assign
assign_lem geom c g ok = rw (assign, set_same geom g ok.valid ok.dev_eq) refl

-- The status and the geometry of a function that aligns a partition: a geometry that it assigns
-- is a solution of the constraint, and it keeps the geometry where it returns 0.
pub record IsAligned (geom : Geometry) (c : Constraint) (r : Bool × Geometry) : Type 0 where
  pub taken : r.0 ≡ true → IsSolved geom c r.1
  pub kept : r.0 ≡ false → r.1 ≡ geom

pub accept_solution_lem :
    (geom : Geometry) (c : Constraint) (o : Option Geometry)
    → Solved geom c o
    → IsAligned geom c (accept_solution geom o)
unfolding accept_solution
accept_solution_lem geom c none ok = record { taken = λ h. cc; kept = λ h. refl }
accept_solution_lem geom c (some g) ok = record {
  taken = λ h. subst (IsSolved geom c) (sym (assign_lem geom c g ok)) ok;
  kept = λ h. cc;
}

pub assigned-IsSolved :
    (geom : Geometry) (c : Constraint) (r : Bool × Geometry) (g : Geometry)
    → IsAligned geom c r
    → assigned r ≡ some g
    → IsSolved geom c g
unfolding assigned
assigned-IsSolved geom c (true, changed) g aligned h =
    subst (IsSolved geom c) (some-injective _ _ h) (aligned.taken refl)
assigned-IsSolved geom c (false, changed) g aligned h = cc

-- `attempt_align` in exact arithmetic.
pub attempt_align_solves :
    (geom : Geometry) (a b : Parts)
    → IsUsable a
    → Geom.Laws.SameDev a.sr b.sr
    → Geom.Laws.SameDev a.er b.er
    → (r : Bool × Geometry) × (attempt_align geom (some (constraint_of a)) (some (constraint_of b))
        ≡ done r)
      × IsAligned geom (constraint_of a) r
      × IsAligned geom (constraint_of b) r
unfolding attempt_align
attempt_align_solves geom a b ok ds de =
    let (o, run, p, q) = try_constraint_lem geom a b ok ds de in
    (
      accept_solution geom o,
      rw run refl,
      accept_solution_lem geom (constraint_of a) o p,
      accept_solution_lem geom (constraint_of b) o q,
    )

-- `_ped_partition_attempt_align` on two constraints over one device comes back, when their
-- alignments are as `ped_alignment_init` leaves them, with grains of at most 2^20 sectors and
-- offsets of at most 2^61, their ranges are valid, and those of the caller's constraint start at a
-- sector that is not negative, with a positive smallest size. No number that is computed for the
-- alignments overflows. A geometry that it assigns is valid and a solution of both constraints;
-- where it returns 0 the geometry is as it was.
pub attempt_align_lem :
    (geom : Geometry) (a b : Parts)
    → IsUsable a
    → AreTame a
    → AreTame b
    → Geom.Laws.SameDev a.sr b.sr
    → Geom.Laws.SameDev a.er b.er
    → NoOverflows a b
      × ((r : Bool × Geometry) × (attempt_align geom
              (some (constraint_of a))
              (some (constraint_of b))
            ≡ done r)
          × IsAligned geom (constraint_of a) r
          × IsAligned geom (constraint_of b) r)
attempt_align_lem geom a b ok ta tb ds de =
    (tame-NoOverflows a b ta tb, attempt_align_solves geom a b ok ds de)
