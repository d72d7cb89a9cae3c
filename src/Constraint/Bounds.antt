-- ===== src/Constraint/Bounds.antt =====
-- The constraints that `ped_constraint_new_from_min_max` and `ped_constraint_exact` make.
use uparted.Base.{
  ap₂, arith, done, int_laws, pos, refl, some, subst, sym, true, ℤ, ◌*ℤ◌, ◌+ℤ◌, ◌-ℤ◌, ◌↔◌, ◌∙◌, ◌≡◌,
  ◌≤ℤ◌,
}
use uparted.Geom
use uparted.Geom.{Geometry}
use uparted.Geom.Laws.{Contains, IsValid, IsValid-le, Made-stop, init-Made}
use uparted.Align
use uparted.Align.{Alignment}
use uparted.Align.Aligned.{Aligned}
use uparted.Constraint.{Constraint, exact, is_solution, new, new_from_min_max}
use uparted.Constraint.Build.{Aligned-any, new_lem}

-- For valid regions, `min` inside of `max`, `ped_constraint_new_from_min_max` comes back. A valid
-- region passes its constraint if and only if it holds all sectors of `min`, and only sectors of
-- `max`.
pub new_from_min_max_lem :
    (min max g : Geometry)
    → IsValid min
    → IsValid max
    → IsValid g
    → max.start ≤ℤ min.start
    → min.stop ≤ℤ max.stop
    → (c : Constraint) × (new_from_min_max min max ≡ done c)
      × ((is_solution c g ≡ done true)
          ↔ (((s : ℤ) → Contains min s → Contains g s) × ((s : ℤ) → Contains g s → Contains max s)))
unfolding new_from_min_max
new_from_min_max_lem min max g vm vx vg first last =
    let (sr, s_made, s) =
      init-Made min.dev max.start (min.start -ℤ max.start +ℤ pos 1) (omega int_laws) in
    let (er, e_made, e) =
      init-Made min.dev min.stop (max.stop -ℤ min.stop +ℤ pos 1) (omega int_laws) in
    let s_stop = Made-stop min.dev max.start min.start s in
    let e_stop = Made-stop min.dev min.stop max.stop e in
    let (to, from) =
      new_lem Align.any Align.any sr er min.length max.length g (omega arith) (omega arith) s.valid
        e.valid in
    let s_start = s.start_eq in
    let e_start = e.start_eq in
    let min_last = vm.last in
    let max_last = vx.last in
    let g_last = vg.last in
    (
      new (some Align.any) (some Align.any) sr er min.length max.length,
      rw (s_made, e_made) refl,
      (
        λ h.
            let ((_, p), (_, q), _, _) = to h in
            let a = subst (λ x. x ≤ℤ g.start) s_start p.0 in
            let b = subst (λ x. g.start ≤ℤ x) s_stop p.1 in
            let c = subst (λ x. x ≤ℤ g.stop) e_start q.0 in
            let d = subst (λ x. g.stop ≤ℤ x) e_stop q.1 in
            (λ t i. (omega arith, omega arith), λ t i. (omega arith, omega arith)),
        λ (over, under).
            let low = over min.start (omega arith, IsValid-le vm) in
            let high = over min.stop (IsValid-le vm, omega arith) in
            let from_low = under g.start (omega arith, IsValid-le vg) in
            let to_high = under g.stop (IsValid-le vg, omega arith) in
            from (
              (
                Aligned-any g.start,
                (
                  subst (λ x. x ≤ℤ g.start) (sym s_start) from_low.0,
                  subst (λ x. g.start ≤ℤ x) (sym s_stop) low.0,
                ),
              ),
              (
                Aligned-any g.stop,
                (
                  subst (λ x. x ≤ℤ g.stop) (sym e_start) high.1,
                  subst (λ x. g.stop ≤ℤ x) (sym e_stop) to_high.1,
                ),
              ),
              omega int_laws,
              omega int_laws,
            ),
      ),
    )

abbrev at_sector : ℤ → Alignment
at_sector o = record { offset = o; grain_size = pos 0 }

single-Aligned : (o s : ℤ) → s ≡ o → Aligned (at_sector o) s
unfolding ◌-ℤ◌ ◌*ℤ◌
single-Aligned o s same = (pos 0, rw same (omega int_laws))

exact_run :
    (geom sr er : Geometry)
    → Geom.init geom.dev geom.start (pos 1) ≡ some sr
    → Geom.init geom.dev geom.stop (pos 1) ≡ some er
    → exact geom
      ≡ some (
          new
            (Align.init geom.start (pos 0))
            (Align.init geom.stop (pos 0))
            sr
            er
            (pos 1)
            geom.dev.length)
unfolding exact
exact_run geom sr er p q = rw (exact, p, q) refl

init_single : (o : ℤ) → Align.init o (pos 0) ≡ some (at_sector o)
unfolding Align.init
init_single o = refl

-- A valid region passes the constraint of `ped_constraint_exact` if and only if it starts and ends
-- as the given region does, and is no longer than the device.
pub exact_lem :
    (geom g : Geometry)
    → IsValid g
    → (c : Constraint) × (exact geom ≡ some c)
      × ((is_solution c g ≡ done true)
          ↔ ((g.start ≡ geom.start) × (g.stop ≡ geom.stop) × (g.length ≤ℤ geom.dev.length)))
exact_lem geom g vg =
    let (sr, s_made, s) = init-Made geom.dev geom.start (pos 1) (omega arith) in
    let (er, e_made, e) = init-Made geom.dev geom.stop (pos 1) (omega arith) in
    let s_last = s.valid.last in
    let e_last = e.valid.last in
    let s_start = s.start_eq in
    let e_start = e.start_eq in
    let s_length = s.length_eq in
    let e_length = e.length_eq in
    let (to, from) =
      new_lem (at_sector geom.start) (at_sector geom.stop) sr er (pos 1) geom.dev.length g
        (omega arith) (omega arith) s.valid e.valid in
    (
      new (some (at_sector geom.start)) (some (at_sector geom.stop)) sr er (pos 1) geom.dev.length,
      exact_run geom sr er s_made e_made
          ∙ ap₂ (λ a b. some (new a b sr er (pos 1) geom.dev.length)) (init_single geom.start)
              (init_single geom.stop),
      (
        λ h. let ((_, p), (_, q), _, k) = to h in (omega int_laws, omega int_laws, k),
        λ (same_start, same_stop, k). from (
          (single-Aligned geom.start g.start same_start, (omega int_laws, omega int_laws)),
          (single-Aligned geom.stop g.stop same_stop, (omega int_laws, omega int_laws)),
          vg.nonempty,
          k,
        ),
      ),
    )
