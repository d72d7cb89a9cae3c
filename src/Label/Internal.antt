-- ===== src/Label/Internal.antt =====
-- What a constraint of a label asks of a region.
use uparted.Base.{
  Bool-cases, Option, ap₂, arith, done, inl, inr, ltb_ℤ, ltb_ℤ→le, none, pos, refl, some, subst,
  sym, true, ℤ, ◌+ℤ◌, ◌-ℤ◌, ◌∙◌, ◌≡◌, ◌≤ℤ◌,
}
use uparted.Geom
use uparted.Geom.{Geometry}
use uparted.Geom.Laws.{IsValid, IsValid-le, Made, init-Made}
use uparted.Align.{Alignment}
use uparted.Align.Aligned.{Aligned}
use uparted.Align.Intersect.{IsSmall}
use uparted.Constraint
use uparted.Constraint.{Constraint, is_solution}
use uparted.Constraint.Build.{new_from_max_lem}
use uparted.Constraint.Common.{Parts, constraint_of, new_from_max-Parts}
use uparted.Constraint.Made.{new-Parts}
use uparted.Label.{new_over}

-- NULL, or a constraint over the device whose solutions satisfy `P`.
abbrev pub Internal : Geom.Device → (Geometry → Type 0) → Option Constraint → Type 0
Internal dev P none = Unit
Internal dev P (some c) =
    (p : Parts) × (c ≡ constraint_of p)
    × (p.sr.dev ≡ dev)
    × (p.er.dev ≡ dev)
    × ((g : Geometry) → IsValid g → is_solution (constraint_of p) g ≡ done true → P g)

pub Internal-map :
    (dev : Geom.Device) (P Q : Geometry → Type 0) (o : Option Constraint)
    → ((g : Geometry) → P g → Q g)
    → Internal dev P o
    → Internal dev Q o
Internal-map dev P Q none f h = h
Internal-map dev P Q (some c) f (p, same, sd, ed, asks) =
    (p, same, sd, ed, λ g v s. f g (asks g v s))

-- The region of `ped_geometry_init`, where it is not refused.
abbrev pub MadeOr : Geom.Device → ℤ → ℤ → Option Geometry → Type 0
MadeOr dev start length none = Unit
MadeOr dev start length (some g) = Made dev start length g

pub init-MadeOr :
    (dev : Geom.Device) (start length : ℤ) → MadeOr dev start length (Geom.init dev start length)
unfolding Geom.init
init-MadeOr dev start length = elim (Bool-cases (ltb_ℤ length (pos 1))) [
  | inl e ↦ subst (MadeOr dev start length) (sym (short e)) tt
  | inr e ↦
      let (g, made, m) = init-Made dev start length (ltb_ℤ→le length (pos 1) e) in
      subst (MadeOr dev start length) (sym made) m
]
  where
    short : ltb_ℤ length (pos 1) ≡ true → Geom.init dev start length ≡ none
    short e = rw (e) refl

-- `ped_constraint_new` on alignments and ranges of the label.
module _ (dev : Geom.Device) (sa ea : Alignment) (first length first_end length_end hi : ℤ) where
  abbrev pub AsksOver : Geometry → Type 0
  AsksOver g =
      Aligned sa g.start
      × Aligned ea g.stop
      × (first ≤ℤ g.start)
      × (first_end ≤ℤ g.stop)
      × (g.stop ≤ℤ first_end +ℤ length_end -ℤ pos 1)

  pub new_over-Internal :
      (o e : Option Geometry)
      → MadeOr dev first length o
      → MadeOr dev first_end length_end e
      → IsSmall sa
      → IsSmall ea
      → Internal dev AsksOver (new_over (some sa) (some ea) o e hi)
  unfolding new_over
  new_over-Internal none e m n ss es = tt
  new_over-Internal (some sr) none m n ss es = tt
  new_over-Internal (some sr) (some er) m n ss es =
      let (p, same, sd, ed, asks) = new-Parts sa ea sr er (pos 1) hi ss es m.valid n.valid in
      let stop = n.valid.last ∙ ap₂ (λ x y. x +ℤ y -ℤ pos 1) n.start_eq n.length_eq in
      (
        p,
        same,
        sd ∙ m.dev_eq,
        ed ∙ n.dev_eq,
        λ g v h.
            let ((da, ca), (db, cb), _, _) = asks g h in
            (
              da,
              db,
              subst (λ x. x ≤ℤ g.start) m.start_eq ca.0,
              subst (λ x. x ≤ℤ g.stop) n.start_eq cb.0,
              subst (λ x. g.stop ≤ℤ x) stop cb.1,
            ),
      )

  pub new_over_lem :
      IsSmall sa
      → IsSmall ea
      → Internal dev AsksOver (
          new_over
            (some sa)
            (some ea)
            (Geom.init dev first length)
            (Geom.init dev first_end length_end)
            hi)
  new_over_lem =
      new_over-Internal (Geom.init dev first length) (Geom.init dev first_end length_end)
        (init-MadeOr dev first length) (init-MadeOr dev first_end length_end)

-- `ped_constraint_new_from_max` on a range.
pub new_from_max-Internal :
    (dev : Geom.Device) (max : Geometry)
    → IsValid max
    → max.dev ≡ dev
    → Internal dev
        (λ g. (max.start ≤ℤ g.start) × (g.stop ≤ℤ max.stop))
        (some (Constraint.new_from_max max))
new_from_max-Internal dev max v d =
    let (p, same, sd, ed, _, _, _) = new_from_max-Parts max v in
    (
      p,
      same,
      sd ∙ d,
      ed ∙ d,
      λ g gv h.
          let within =
            (new_from_max_lem max g v gv).0
              (subst (λ c. is_solution c g ≡ done true) (sym same) h) in
          (
            (within g.start (omega arith, IsValid-le gv)).0,
            (within g.stop (IsValid-le gv, omega arith)).1,
          ),
    )
