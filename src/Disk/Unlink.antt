-- ===== src/Disk/Unlink.antt =====
-- `_disk_raw_remove` on an ordered list.
use uparted.Base.{
  Bool-cases, List, [], arith, false, inl, inr, int_laws, ltb_ℤ, pos, refl, true, ℕ, ℤ, ◌+ℤ◌, ◌==◌,
  ◌∷◌, ◌≡◌, ◌≢◌,
}
use uparted.Geom.{Geometry, new}
use uparted.Disk.{add_to}
use uparted.Disk.Sorted.{All, Ordered, Ordered-weaken}
use uparted.Disk.Update.{unlink}

unlink-Ordered :
    {A : Type 0} (geom : A → Geometry) (address : A → ℕ) (part : ℕ) (lo : ℤ) (l : List A)
    → Ordered geom lo l
    → Ordered geom lo (unlink address part l)
unfolding unlink
unlink-Ordered geom address part lo [] ord = tt
unlink-Ordered geom address part lo (walk ∷ rest) (a, b, ord) =
    elim (Bool-cases (address walk == part)) [
      | inl e ↦ rw e (Ordered-weaken geom lo ((geom walk).stop +ℤ pos 1) rest (omega int_laws) ord)
      | inr e ↦ rw e (a, b, unlink-Ordered geom address part ((geom walk).stop +ℤ pos 1) rest ord)
    ]

unlink-add_to :
    {A : Type 0} (geom : A → Geometry) (address : A → ℕ) (part : A) (l : List A)
    → All (λ walk. address walk ≢ address part) l
    → unlink address (address part) (add_to geom part l) ≡ l
unfolding unlink add_to
unlink-add_to geom address part [] new =
    let own : (address part == address part) ≡ true = ground arith in rw own refl
unlink-add_to geom address part (walk ∷ rest) (other, new) =
    let own : (address part == address part) ≡ true = ground arith in
    let foreign : (address walk == address part) ≡ false = ground arith in
    let later = unlink-add_to geom address part rest new in
    elim (Bool-cases (ltb_ℤ (geom part).stop (geom walk).start)) [
      | inl e ↦ rw (e, own) refl
      | inr e ↦ rw (e, foreign, later) refl
    ]

-- `_disk_raw_remove` keeps the order of a list, and undoes `_disk_raw_add` of a partition that was
-- not in the list.
pub unlink_lem :
    {A : Type 0} (geom : A → Geometry) (address : A → ℕ) (part : A) (lo : ℤ) (l : List A)
    → Ordered geom lo l
    → All (λ walk. address walk ≢ address part) l
    → ((n : ℕ) → Ordered geom lo (unlink address n l))
      × (unlink address (address part) (add_to geom part l) ≡ l)
unlink_lem geom address part lo l ord new =
    (λ n. unlink-Ordered geom address n lo l ord, unlink-add_to geom address part l new)
