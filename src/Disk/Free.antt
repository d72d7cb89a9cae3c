-- ===== src/Disk/Free.antt =====
-- The free space that fills the gaps of a list of partitions.
use uparted.Base.{
  Bool-cases, List, [], false, inl, inr, int_laws, ltb_ℤ, ltb_ℤ→le, ltb_ℤ→lt, pos, refl, true, ℤ,
  ◌+ℤ◌, ◌-ℤ◌, ◌∷◌, ◌≡◌, ◌≤ℤ◌,
}
use uparted.Geom.{Geometry}
use uparted.Disk.{Partition, fill, remove_free}
use uparted.Disk.Sorted.{All, Ordered}

-- The regions of the list cover the sectors from `first` to `last`, each of them once.
abbrev pub Tiles : {A : Type 0} → (A → Geometry) → ℤ → ℤ → List A → Type 0
Tiles geom first last [] = first ≡ last +ℤ pos 1
Tiles geom first last (walk ∷ rest) =
    ((geom walk).start ≡ first)
    × ((geom walk).start ≤ℤ (geom walk).stop)
    × Tiles geom ((geom walk).stop +ℤ pos 1) last rest

-- A new partition has the sectors that were asked for.
abbrev pub HasSectors : {A : Type 0} → (A → Geometry) → (ℤ → ℤ → A) → Type 0
HasSectors geom free =
    (start stop : ℤ)
    → ((geom (free start stop)).start ≡ start) × ((geom (free start stop)).stop ≡ stop)

pub fill-Tiles :
    {A : Type 0} (geom : A → Geometry) (free : ℤ → ℤ → A) (last_end limit : ℤ) (l : List A)
    → HasSectors geom free
    → Ordered geom (last_end +ℤ pos 1) l
    → last_end ≤ℤ limit
    → All (λ walk. (geom walk).stop ≤ℤ limit) l
    → Tiles geom (last_end +ℤ pos 1) limit (fill geom free last_end limit l)
unfolding fill
fill-Tiles geom free last_end limit [] has ord le all = elim (Bool-cases (ltb_ℤ last_end limit)) [
  | inl e ↦
      let lt = ltb_ℤ→lt last_end limit e in
      let (s, t) = has (last_end +ℤ pos 1) limit in rw e (s, rw (s, t) (omega int_laws), rw t refl)
  | inr e ↦ let ge = ltb_ℤ→le last_end limit e in rw e (omega int_laws)
]
fill-Tiles geom free last_end limit (walk ∷ rest) has (a, b, ord) le (ends, all) =
    let later = fill-Tiles geom free (geom walk).stop limit rest has ord ends all in
    elim (Bool-cases (ltb_ℤ (last_end +ℤ pos 1) (geom walk).start)) [
      | inl e ↦
          let lt = ltb_ℤ→lt (last_end +ℤ pos 1) (geom walk).start e in
          let (s, t) = has (last_end +ℤ pos 1) ((geom walk).start -ℤ pos 1) in
          rw e (s, rw (s, t) (omega int_laws), (rw t (omega int_laws), b, later))
      | inr e ↦
          let ge = ltb_ℤ→le (last_end +ℤ pos 1) (geom walk).start e in
          rw e (omega int_laws, b, later)
    ]

-- Removing the free space from a list whose gaps were filled with it gives the list back, if it
-- held no free space.
pub remove_free-fill :
    {A : Type 0} (geom : A → Geometry) (part : A → Partition) (free : ℤ → ℤ → A)
    (last_end limit : ℤ) (l : List A)
    → ((start stop : ℤ) → (part (free start stop)).type.freespace ≡ true)
    → All (λ walk. (part walk).type.freespace ≡ false) l
    → remove_free part (fill geom free last_end limit l) ≡ l
unfolding fill remove_free
remove_free-fill geom part free last_end limit [] is_free all =
    elim (Bool-cases (ltb_ℤ last_end limit)) [
      | inl e ↦ rw (e, is_free (last_end +ℤ pos 1) limit) refl
      | inr e ↦ rw e refl
    ]
remove_free-fill geom part free last_end limit (walk ∷ rest) is_free (used, all) =
    let later = remove_free-fill geom part free (geom walk).stop limit rest is_free all in
    elim (Bool-cases (ltb_ℤ (last_end +ℤ pos 1) (geom walk).start)) [
      | inl e ↦ rw (e, is_free (last_end +ℤ pos 1) ((geom walk).start -ℤ pos 1), used, later) refl
      | inr e ↦ rw (e, used, later) refl
    ]
