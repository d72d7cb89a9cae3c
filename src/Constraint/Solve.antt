-- ===== src/Constraint/Solve.antt =====
-- `ped_constraint_solve_nearest` returns solutions only, and does not stop the program.
use uparted.Base.{
  Bool-cases, Option, arith, done, eqb_ℤ, false, if◌then◌else◌, inl, inr, int_laws, ltb_ℤ, ltb_ℤ→le,
  negsuc, none, pos, refl, some, subst, sym, true, ℤ, ◌+ℤ◌, ◌-ℤ◌, ◌≡◌, ◌≤ℤ◌, ◌⊎◌,
}
use uparted.Geom
use uparted.Geom.{Geometry}
use uparted.Geom.Laws.{Contains, Made-stop, new-some}
use uparted.Align
use uparted.Align.{Alignment}
use uparted.Align.Aligned.{Aligned}
use uparted.Align.Inside.{is_aligned_iff}
use uparted.Align.Nearest.{Solves}
use uparted.Align.Sound.{align_nearest_sound}
use uparted.Constraint.{
  Constraint, canonical_start_range, is_solution, nearest_end_soln, nearest_in, nearest_start_soln,
  solve_from, solve_nearest,
}
use uparted.Constraint.Window.{IsProper, Window, canonical_lem, end_range_lem}

kept : {A : Type 0} (r : ℤ) → eqb_ℤ r (negsuc 0) ≡ false → (r ≡ negsuc 0) ⊎ A → A
kept r e (inl gone) = absurd (let p = gone in ground arith)
kept r e (inr a) = a

start_empty :
    (c : Constraint) (start : ℤ)
    → ltb_ℤ c.max_size c.min_size ≡ true
    → nearest_start_soln c start ≡ done (negsuc 0)
unfolding nearest_start_soln canonical_start_range nearest_in
start_empty c start e = rw e

solve_from-none : (c : Constraint) (geom : Geometry) → solve_from c geom (negsuc 0) ≡ done none
unfolding solve_from
solve_from-none c geom = refl

module _ {c : Constraint} {sa ea : Alignment} {sr er : Geometry} (ok : IsProper c sa ea sr er) where
  -- The nearest sector in a window, or -1.
  nearest_in_lem :
      (align : Option Alignment) (a : Alignment) (range : Geometry) (P : ℤ → Type 0)
      → align ≡ some a
      → pos 0 ≤ℤ a.grain_size
      → (o : Option Geometry) → Window range P o
      → (s : ℤ)
      → (r : ℤ) × (nearest_in align o s ≡ done r)
        × ((r ≡ negsuc 0) ⊎ (Aligned a r × (Contains range r × P r)))
  unfolding nearest_in
  nearest_in_lem align a range P e h none w s = (negsuc 0, refl, inl refl)
  nearest_in_lem align a range P e h (some window) w s = (
    Align.align_nearest a (some window) s,
    rw e,
    elim (align_nearest_sound a window s h w.0) [
      | inl gone ↦ inl gone
      | inr (d, inside) ↦ inr (d, w.1 _ inside)
    ],
  )

  -- A region whose ends solve their halves of the constraint is a solution.
  is_solution_lem :
      (g : Geometry)
      → Solves sa sr g.start
      → Solves ea er g.stop
      → c.min_size ≤ℤ g.length
      → g.length ≤ℤ c.max_size
      → is_solution c g ≡ done true
  unfolding is_solution Align.is_aligned_in
  is_solution_lem g (ds, cs) (de, ce) lo hi =
      simp
        (
          ok.start_align,
          ok.end_align,
          ok.start_range,
          ok.end_range,
          (is_aligned_iff sa g.start ok.start_grain).1 ds,
          (is_aligned_iff ea g.stop ok.end_grain).1 de,
          (Geom.Laws.test_sector_inside_iff sr g.start).1 cs,
          (Geom.Laws.test_sector_inside_iff er g.stop).1 ce,
        )
        (ground arith)

  made_solution :
      (dev : Geom.Device) (start stop : ℤ) (g : Geometry)
      → Solves sa sr start
      → Solves ea er stop
      → start +ℤ c.min_size -ℤ pos 1 ≤ℤ stop
      → stop ≤ℤ start +ℤ c.max_size -ℤ pos 1
      → Geom.new dev start (stop -ℤ start +ℤ pos 1) ≡ some g
      → is_solution c g ≡ done true
  made_solution dev start stop g from to lo hi h =
      let m = new-some dev start (stop -ℤ start +ℤ pos 1) h in
      is_solution_lem g (subst (Solves sa sr) (sym m.start_eq) from)
        (subst (Solves ea er) (sym (Made-stop dev start stop m)) to)
        (rw m.length_eq (omega int_laws)) (rw m.length_eq (omega int_laws))

  solve_from_lem :
      (geom : Geometry) (start : ℤ)
      → c.min_size ≤ℤ c.max_size
      → (start ≡ negsuc 0) ⊎ Solves sa sr start
      → (o : Option Geometry) × (solve_from c geom start ≡ done o)
        × ((g : Geometry) → o ≡ some g → is_solution c g ≡ done true)
  unfolding solve_from nearest_end_soln
  solve_from_lem geom start le from = elim (Bool-cases (eqb_ℤ start (negsuc 0))) [
    | inl e ↦ (none, rw e, λ g h. cc)
    | inr e ↦
        let (range, got, window) = end_range_lem ok start le in
        let (stop, found, sound) =
          nearest_in_lem c.end_align ea er _ ok.end_align ok.end_grain range window geom.stop in
        (
          if eqb_ℤ stop (negsuc 0) then none else Geom.new geom.dev start (stop -ℤ start +ℤ pos 1),
          rw (e, got, found),
          λ g h. elim (Bool-cases (eqb_ℤ stop (negsuc 0))) [
            | inl f ↦ let gone = rw f at h in cc
            | inr f ↦
                let (de, rest) = kept stop f sound in
                made_solution geom.dev start stop g (kept start e from) (de, rest.0) rest.1.0
                  rest.1.1 (rw f at h)
          ],
        )
  ]

  start_soln_lem :
      (s : ℤ)
      → (start : ℤ) × (nearest_start_soln c s ≡ done start)
        × ((start ≡ negsuc 0) ⊎ Solves sa sr start)
  unfolding nearest_start_soln
  start_soln_lem s =
      let (range, got, window) = canonical_lem ok in
      let (start, found, sound) =
        nearest_in_lem c.start_align sa sr _ ok.start_align ok.start_grain range window s in
      (start, rw (got, found), elim sound [ inl gone ↦ inl gone | inr (d, rest) ↦ inr (d, rest.0) ])

  -- With all members present and in range, `ped_constraint_solve_nearest` comes back, and a region
  -- that it returns passes `ped_constraint_is_solution`: the assertion at its end holds.
  pub solve_nearest_lem :
      (geom : Geometry)
      → (o : Option Geometry) × (solve_nearest (some c) geom ≡ done o)
        × ((g : Geometry) → o ≡ some g → is_solution c g ≡ done true)
  unfolding solve_nearest
  solve_nearest_lem geom = elim (Bool-cases (ltb_ℤ c.max_size c.min_size)) [
    | inl e ↦ (none, empty e, λ g h. cc)
    | inr e ↦
        let (start, found, from) = start_soln_lem geom.start in
        let (o, run, solves) = solve_from_lem geom start (ltb_ℤ→le c.max_size c.min_size e) from in
        (o, rw found run, solves)
  ]
    where
      empty : ltb_ℤ c.max_size c.min_size ≡ true → solve_nearest (some c) geom ≡ done none
      empty e = rw (start_empty c geom.start e) (solve_from-none c geom)
