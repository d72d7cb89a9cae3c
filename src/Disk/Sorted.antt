-- ===== src/Disk/Sorted.antt =====
-- The order of a list of partitions, and `_disk_raw_add` on it.
use uparted.Base.{
  Bool-cases, List, [], arith, inl, inr, int_laws, ltb_ℤ, ltb_ℤ→le, ltb_ℤ→lt, pos, ℤ, ◌+ℤ◌, ◌<ℤ◌,
  ◌∷◌, ◌≤ℤ◌, ◌⊎◌,
}
use uparted.Geom.{Geometry}
use uparted.Disk.{add_to}
use mathlib.Core.List.{Perm}
use mathlib.Core.List.Perm

-- What `P` says holds of every member.
abbrev pub All {ℓ κ} : {A : Type ℓ} → (A → Type κ) → List A → Type κ
All P [] = Unit
All P (a ∷ rest) = P a × All P rest

pub All-map {ℓ κ} :
    {A : Type ℓ} {P Q : A → Type κ} → ((a : A) → P a → Q a) → (l : List A) → All P l → All Q l
All-map f [] tt = tt
All-map f (a ∷ rest) (p, all) = (f a p, All-map f rest all)

-- The regions of the list follow each other from the sector `lo` on, none of them empty, and no
-- two share a sector.
abbrev pub Ordered : {A : Type 0} → (A → Geometry) → ℤ → List A → Type 0
Ordered geom lo [] = Unit
Ordered geom lo (walk ∷ rest) =
    (lo ≤ℤ (geom walk).start)
    × ((geom walk).start ≤ℤ (geom walk).stop)
    × Ordered geom ((geom walk).stop +ℤ pos 1) rest

-- The two regions share no sector.
abbrev pub Apart : Geometry → Geometry → Type 0
Apart a b = (a.stop <ℤ b.start) ⊎ (b.stop <ℤ a.start)

pub Ordered-weaken :
    {A : Type 0} (geom : A → Geometry) (lo hi : ℤ) (l : List A)
    → lo ≤ℤ hi
    → Ordered geom hi l
    → Ordered geom lo l
Ordered-weaken geom lo hi [] le ord = tt
Ordered-weaken geom lo hi (walk ∷ rest) le (a, b, ord) = (omega arith, b, ord)

-- The members of a list that is ordered start at `lo` or behind it.
pub Ordered-All :
    {A : Type 0} (geom : A → Geometry) (lo : ℤ) (l : List A)
    → Ordered geom lo l
    → All (λ walk. (lo ≤ℤ (geom walk).start) × ((geom walk).start ≤ℤ (geom walk).stop)) l
Ordered-All geom lo [] ord = tt
Ordered-All geom lo (walk ∷ rest) (a, b, ord) = (
  (a, b),
  All-map (λ w (p, q). (omega int_laws, q)) rest
      (Ordered-All geom ((geom walk).stop +ℤ pos 1) rest ord),
)

add_to-Ordered :
    {A : Type 0} (geom : A → Geometry) (part : A) (lo : ℤ) (l : List A)
    → Ordered geom lo l
    → lo ≤ℤ (geom part).start
    → (geom part).start ≤ℤ (geom part).stop
    → All (λ walk. Apart (geom part) (geom walk)) l
    → Ordered geom lo (add_to geom part l)
unfolding add_to
add_to-Ordered geom part lo [] ord le ne apart = (le, ne, tt)
add_to-Ordered geom part lo (walk ∷ rest) (a, b, ord) le ne (apart, others) =
    elim (Bool-cases (ltb_ℤ (geom part).stop (geom walk).start)) [
      | inl e ↦
          let lt = ltb_ℤ→lt (geom part).stop (geom walk).start e in
          rw e (le, ne, (omega int_laws, b, ord))
      | inr e ↦
          let ge = ltb_ℤ→le (geom part).stop (geom walk).start e in
          rw e (
            a,
            b,
            add_to-Ordered geom part ((geom walk).stop +ℤ pos 1) rest ord
                (elim apart [ inl before ↦ absurd (omega arith) | inr behind ↦ omega int_laws ]) ne
                others,
          )
    ]

add_to-Perm :
    {A : Type 0} (geom : A → Geometry) (part : A) (l : List A)
    → Perm (part ∷ l) (add_to geom part l)
unfolding add_to
add_to-Perm geom part [] = Perm.refl _
add_to-Perm geom part (walk ∷ rest) = elim (Bool-cases (ltb_ℤ (geom part).stop (geom walk).start)) [
  | inl e ↦ rw e (Perm.refl _)
  | inr e ↦
      rw e (Perm.trans (Perm.swap walk part rest) (Perm.cons walk (add_to-Perm geom part rest)))
]

-- `_disk_raw_add` puts a partition that shares no sector with those of an ordered list into the
-- list, keeps the others, and the list stays ordered.
pub add_to_lem :
    {A : Type 0} (geom : A → Geometry) (part : A) (lo : ℤ) (l : List A)
    → Ordered geom lo l
    → lo ≤ℤ (geom part).start
    → (geom part).start ≤ℤ (geom part).stop
    → All (λ walk. Apart (geom part) (geom walk)) l
    → Ordered geom lo (add_to geom part l) × Perm (part ∷ l) (add_to geom part l)
add_to_lem geom part lo l ord le ne apart =
    (add_to-Ordered geom part lo l ord le ne apart, add_to-Perm geom part l)
