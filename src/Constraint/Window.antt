-- ===== src/Constraint/Window.antt =====
-- The windows of sectors that `ped_constraint_solve_nearest` chooses from.
use uparted.Base.{
  Bool-cases, Option, Option-cases, arith, deref, done, false, inl, inr, int_laws, ltb_ℤ, ltb_ℤ→le,
  ltb_ℤ→lt, none, pos, some, ℤ, ◌+ℤ◌, ◌-ℤ◌, ◌>>=◌, ◌≡◌, ◌≤ℤ◌,
}
use uparted.Geom
use uparted.Geom.{Geometry}
use uparted.Geom.Laws.{Contains, IsValid-le, Made-stop, init-Made, intersect_sound}
use uparted.Align
use uparted.Align.{Alignment}
use uparted.Constraint.{
  Constraint, canonical_start_range, get_end_range, no_end, start_range_for_ends, start_window,
}

-- The members of a constraint, all present, with sizes, grains and sectors in range.
pub record IsProper (c : Constraint) (sa ea : Alignment) (sr er : Geometry) : Type 0 where
  pub start_align : c.start_align ≡ some sa
  pub end_align : c.end_align ≡ some ea
  pub start_range : c.start_range ≡ some sr
  pub end_range : c.end_range ≡ some er
  pub start_grain : pos 0 ≤ℤ sa.grain_size
  pub end_grain : pos 0 ≤ℤ ea.grain_size
  pub start_first : pos 0 ≤ℤ sr.start
  pub end_first : pos 0 ≤ℤ er.start
  pub smallest : pos 1 ≤ℤ c.min_size

-- A window that was computed, or NULL: its sectors are in the range and between the bounds.
abbrev pub Window : Geometry → (ℤ → Type 0) → Option Geometry → Type 0
Window range P none = Unit
Window range P (some w) = (pos 0 ≤ℤ w.start) × ((s : ℤ) → Contains w s → Contains range s × P s)

-- The window that two bounds make of a range.
Window-of :
    (range : Geometry) (P : ℤ → Type 0) (dev : Geom.Device) (lo hi : ℤ)
    → pos 0 ≤ℤ range.start
    → lo ≤ℤ hi
    → ((s : ℤ) → lo ≤ℤ s → s ≤ℤ hi → P s)
    → (o : Option Geometry) × ((deref (Geom.init dev lo (hi -ℤ lo +ℤ pos 1)) >>= λ window.
          done (Geom.intersect (some window) (some range)))
        ≡ done o)
      × Window range P o
Window-of range P dev lo hi h le p =
    let (window, made, m) = init-Made dev lo (hi -ℤ lo +ℤ pos 1) (omega int_laws) in
    elim (Option-cases (Geom.intersect (some window) (some range))) [
      | inl e ↦ (none, rw (made, e), tt)
      | inr (w, e) ↦
          let (valid, _, _, common) = intersect_sound window range w e in
          let first = ((common w.start).0 (omega arith, IsValid-le valid)).1 in
          (
            some w,
            rw (made, e),
            (
              omega arith,
              λ s inside.
                  let (in_window, in_range) = (common s).0 inside in
                  let stop = Made-stop dev lo hi m in
                  (in_range, p s (rw m.start_eq at in_window.0) (rw stop at in_window.1)),
            ),
          )
    ]

module _ {c : Constraint} {sa ea : Alignment} {sr er : Geometry} (ok : IsProper c sa ea sr er) where
  start_window_lem :
      (first last : ℤ)
      → no_end c first last ≡ false
      → c.min_size ≤ℤ c.max_size
      → (o : Option Geometry) × (start_window c first last ≡ done o) × Window sr (λ s. Unit {0}) o
  unfolding start_window no_end
  start_window_lem first last some_end le =
      elim (Bool-cases (ltb_ℤ (last -ℤ c.min_size +ℤ pos 1) (pos 0))) [
        | inl e ↦ (none, rw e, tt)
        | inr e ↦
            let ordered : first ≤ℤ last = ground arith in
            let nonneg = ltb_ℤ→le (last -ℤ c.min_size +ℤ pos 1) (pos 0) e in
            rw (e, ok.start_range)
              (Window-of sr (λ s. Unit {0}) sr.dev _ _ ok.start_first
                (elim (Bool-cases (ltb_ℤ (first -ℤ c.max_size +ℤ pos 1) (pos 0))) [
                  | inl f ↦ rw f nonneg
                  | inr f ↦ rw f (omega int_laws)
                ])
                (λ s p q. tt))
      ]

  ends_lem :
      c.min_size ≤ℤ c.max_size
      → (o : Option Geometry) × (start_range_for_ends c ≡ done o) × Window sr (λ s. Unit {0}) o
  unfolding start_range_for_ends
  ends_lem le =
      simp (ok.end_range, ok.end_align)
        (elim (Bool-cases (no_end c first last)) [
          | inl e ↦ (none, rw e, tt)
          | inr e ↦ rw e (start_window_lem first last e le)
        ])
    where
      first : ℤ
      first = Align.align_down ea (some er) er.start

      last : ℤ
      last = Align.align_up ea (some er) er.stop

  pub canonical_lem :
      (o : Option Geometry) × (canonical_start_range c ≡ done o) × Window sr (λ s. Unit {0}) o
  unfolding canonical_start_range
  canonical_lem = elim (Bool-cases (ltb_ℤ c.max_size c.min_size)) [
    | inl e ↦ (none, rw e, tt)
    | inr e ↦ rw e (ends_lem (ltb_ℤ→le c.max_size c.min_size e))
  ]

  pub end_range_lem :
      (start : ℤ)
      → c.min_size ≤ℤ c.max_size
      → (o : Option Geometry) × (get_end_range c start ≡ done o)
        × Window er
            (λ s. (start +ℤ c.min_size -ℤ pos 1 ≤ℤ s) × (s ≤ℤ start +ℤ c.max_size -ℤ pos 1))
            o
  unfolding get_end_range
  end_range_lem start le = rw ok.end_range (elim (Bool-cases (ltb_ℤ last_sector lo)) [
    | inl e ↦ (none, rw e, tt)
    | inr e ↦
        let room = ltb_ℤ→le last_sector lo e in
        rw e (elim (Bool-cases (ltb_ℤ last_sector hi)) [
          | inl f ↦
              let cut = ltb_ℤ→lt last_sector hi f in
              rw f
                (Window-of er _ er.dev lo last_sector ok.end_first room λ s p q. (p, omega arith))
          | inr f ↦ rw f (Window-of er _ er.dev lo hi ok.end_first (omega int_laws) λ s p q. (p, q))
        ])
  ])
    where
      last_sector : ℤ
      last_sector = er.dev.length -ℤ pos 1

      lo : ℤ
      lo = start +ℤ c.min_size -ℤ pos 1

      hi : ℤ
      hi = start +ℤ c.max_size -ℤ pos 1
