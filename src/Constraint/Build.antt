-- ===== src/Constraint/Build.antt =====
-- The constructors of constraints, by the regions that `ped_constraint_is_solution` lets through.
use uparted.Base.{
  *ℤ_comm, arith, done, int_laws, negsuc, one-*ℤ, pos, refl, some, subst, sym, true, ℤ, ◌↔◌, ◌≡◌,
  ◌≤ℤ◌,
}
use uparted.Geom
use uparted.Geom.{Geometry}
use uparted.Geom.Laws.{Contains, IsValid, IsValid-le, init-Made}
use uparted.Align
use uparted.Align.{Alignment}
use uparted.Align.Aligned.{Aligned}
use uparted.Align.Inside.{is_aligned_iff}
use uparted.Align.Nearest.{Solves}
use uparted.Align.Intersect.Solve.{l, new-Aligned}
use uparted.Constraint.{is_solution, new, new_from_max}

-- The region `g` starts and ends where it may, and has a length in the bounds.
abbrev pub Satisfies : Alignment → Alignment → Geometry → Geometry → ℤ → ℤ → Geometry → Type 0
Satisfies sa ea sr er lo hi g =
    Solves sa sr g.start × Solves ea er g.stop × (lo ≤ℤ g.length) × (g.length ≤ℤ hi)

-- The code's test, on a constraint with all members present.
pub solution_iff :
    (sa ea : Alignment) (sr er : Geometry) (lo hi : ℤ) (g : Geometry)
    → pos 0 ≤ℤ sa.grain_size
    → pos 0 ≤ℤ ea.grain_size
    → (is_solution
          (record {
            start_align = some sa;
            end_align = some ea;
            start_range = some sr;
            end_range = some er;
            min_size = lo;
            max_size = hi;
          })
          g
        ≡ done true)
      ↔ Satisfies sa ea sr er lo hi g
unfolding is_solution Align.is_aligned_in
solution_iff sa ea sr er lo hi g p q =
    let s = is_aligned_iff sa g.start p in
    let e = is_aligned_iff ea g.stop q in
    let r = Geom.Laws.test_sector_inside_iff sr g.start in
    let t = Geom.Laws.test_sector_inside_iff er g.stop in
    (
      λ h. (
        (s.0 (ground arith), r.0 (ground arith)),
        (e.0 (ground arith), t.0 (ground arith)),
        ground arith,
        ground arith,
      ),
      λ (ps, pe, l, u).
          let a = s.1 ps.0 in
          let b = r.1 ps.1 in let c = e.1 pe.0 in let d = t.1 pe.1 in ground arith,
    )

pub duplicate_align :
    (a : Alignment)
    → pos 0 ≤ℤ a.grain_size
    → (b : Alignment) × (Align.duplicate (some a) ≡ some b)
      × (pos 0 ≤ℤ b.grain_size)
      × ((s : ℤ) → Aligned b s ↔ Aligned a s)
unfolding Align.duplicate
duplicate_align a h = on_grain a.grain_size refl h
  where
    on_grain :
        (g : ℤ)
        → a.grain_size ≡ g
        → pos 0 ≤ℤ g
        → (b : Alignment) × (Align.new a.offset a.grain_size ≡ some b)
          × (pos 0 ≤ℤ b.grain_size)
          × ((s : ℤ) → Aligned b s ↔ Aligned a s)
    on_grain (negsuc n) e k = absurd (omega arith)
    on_grain (pos n) e k =
        let (b, made, grain, keeps) = new-Aligned a.offset n in
        (b, rw e made, rw grain (omega arith), λ s. rw e (keeps s))

duplicate_geom :
    (r : Geometry)
    → IsValid r
    → (q : Geometry) × (Geom.duplicate r ≡ some q) × (q.start ≡ r.start) × (q.stop ≡ r.stop)
unfolding Geom.duplicate
duplicate_geom r v =
    let (q, made, m) = init-Made r.dev r.start r.length v.nonempty in
    (q, made, m.start_eq, rw (m.valid.last, m.start_eq, m.length_eq) (sym v.last))

Contains-of :
    (q r : Geometry) (s : ℤ) → q.start ≡ r.start → q.stop ≡ r.stop → Contains q s → Contains r s
Contains-of q r s e f c = (subst (λ x. x ≤ℤ s) e c.0, subst (λ x. s ≤ℤ x) f c.1)

-- `ped_constraint_new` keeps what its arguments ask for.
pub new_lem :
    (sa ea : Alignment) (sr er : Geometry) (lo hi : ℤ) (g : Geometry)
    → pos 0 ≤ℤ sa.grain_size
    → pos 0 ≤ℤ ea.grain_size
    → IsValid sr
    → IsValid er
    → (is_solution (new (some sa) (some ea) sr er lo hi) g ≡ done true)
      ↔ Satisfies sa ea sr er lo hi g
unfolding new
new_lem sa ea sr er lo hi g p q u v =
    let (sa', a_made, a_grain, a_keeps) = duplicate_align sa p in
    let (ea', e_made, e_grain, e_keeps) = duplicate_align ea q in
    let (sr', s_made, s_start, s_stop) = duplicate_geom sr u in
    let (er', r_made, r_start, r_stop) = duplicate_geom er v in
    let (to, from) = solution_iff sa' ea' sr' er' lo hi g a_grain e_grain in
    rw (a_made, e_made, s_made, r_made)
      (
        λ h.
            let ((d, c), (d', c'), l, k) = to h in
            (
              ((a_keeps g.start).0 d, Contains-of sr' sr g.start s_start s_stop c),
              ((e_keeps g.stop).0 d', Contains-of er' er g.stop r_start r_stop c'),
              l,
              k,
            ),
        λ ((d, c), (d', c'), l, k). from (
          ((a_keeps g.start).1 d, Contains-of sr sr' g.start (sym s_start) (sym s_stop) c),
          ((e_keeps g.stop).1 d', Contains-of er er' g.stop (sym r_start) (sym r_stop) c'),
          l,
          k,
        ),
      )

pub Aligned-any : (s : ℤ) → Aligned Align.any s
Aligned-any s = (s, rw (*ℤ_comm s, one-*ℤ) (omega int_laws))

-- For valid regions, a region passes `ped_constraint_new_from_max (max)` if and only if all its
-- sectors are sectors of `max`.
pub new_from_max_lem :
    (max g : Geometry)
    → IsValid max
    → IsValid g
    → (is_solution (new_from_max max) g ≡ done true) ↔ ((s : ℤ) → Contains g s → Contains max s)
unfolding new_from_max
new_from_max_lem max g v u =
    let (to, from) =
      new_lem Align.any Align.any max max (pos 1) max.length g (omega arith) (omega arith) v v in
    (
      λ h s c. let ((_, p), (_, q), _, _) = to h in (omega arith, omega arith),
      λ all.
          let first = all g.start (omega arith, IsValid-le u) in
          let last = all g.stop (IsValid-le u, omega arith) in
          let start = v.last in
          let stop = u.last in
          from
            ((Aligned-any g.start, first), (Aligned-any g.stop, last), u.nonempty, omega int_laws),
    )
