-- ===== src/Disk/Overlap.antt =====
-- The gap that `_partition_get_overlap_constraint` finds for a partition.
use uparted.Base.{
  Bool-cases, List, Option, [], arith, done, false, if◌then◌else◌, inl, inr, int_laws, leb_ℤ, ltb_ℤ,
  ltb_ℤ→le, none, pos, refl, some, subst, subst₂, sym, true, ℕ, ℤ, ◌+ℤ◌, ◌-ℤ◌, ◌==◌, ◌||◌, ◌∷◌, ◌≡◌,
  ◌≤ℤ◌, ◌⊎◌,
}
use uparted.Geom
use uparted.Geom.{Geometry}
use uparted.Geom.Laws.{IsValid, IsValid-le, Made-stop, init-Made}
use uparted.Constraint
use uparted.Constraint.{Constraint, is_solution}
use uparted.Constraint.Build.{new_from_max_lem}
use uparted.Disk.{
  Disk, Entry, Partition, address_of, extended_partition, find_gap, gap_end, geom_of, max_sector,
  overlap_constraint, overlap_in, partition_geom, skip_self,
}
use uparted.Disk.Sorted.{All, All-map, Apart, Ordered}
use uparted.Disk.Gap.{Outside, find_gap_lem}

module _ {A : Type 0} (geom : A → Geometry) (address : A → ℕ) (part : ℕ) where
  gap_end_le :
      (max_end : ℤ) (l : List A)
      → All (λ walk. (geom walk).start ≤ℤ max_end) l
      → gap_end geom max_end (skip_self address part l) ≤ℤ max_end
  unfolding skip_self gap_end
  gap_end_le max_end [] all = omega arith
  gap_end_le max_end (walk ∷ []) (p, all) = elim (Bool-cases (address walk == part)) [
    | inl e ↦ rw e (omega arith)
    | inr e ↦ rw e (omega int_laws)
  ]
  gap_end_le max_end (walk ∷ next ∷ rest) (p, (q, all)) = elim (Bool-cases (address walk == part)) [
    | inl e ↦ rw e (omega int_laws)
    | inr e ↦ rw e (omega int_laws)
  ]

  gap_rest :
      (start min_start max_end : ℤ) (l : List A)
      → All (λ walk. (geom walk).start ≤ℤ max_end) l
      → All (λ walk. (geom walk).start ≤ℤ max_end) (find_gap geom address part start min_start l).1
  unfolding find_gap
  gap_rest start min_start max_end [] all = tt
  gap_rest start min_start max_end (walk ∷ rest) (p, all) =
      elim (Bool-cases (ltb_ℤ (geom walk).start start || leb_ℤ (geom walk).start min_start)) [
        | inl e ↦ rw e (
            gap_rest start (if address walk == part then min_start else (geom walk).stop +ℤ pos 1)
              max_end rest all)
        | inr e ↦ rw e (p, all)
      ]

  -- The free space in the gap: it lies between the bounds, and the partitions outside of it.
  pub record IsGap (dev : Geom.Device) (lo hi : ℤ) (l : List A) (g : Geometry) : Type 0 where
    pub valid : IsValid g
    pub on_dev : g.dev ≡ dev
    pub low : lo ≤ℤ g.start
    pub high : g.stop ≤ℤ hi
    pub clear : All (Outside geom address part g.start g.stop) l

  pub overlap_space :
      (dev : Geom.Device) (start min_start max_end : ℤ) (l : List A)
      → Ordered geom min_start l
      → All (λ walk. (geom walk).start ≤ℤ max_end) l
      → (overlap_in geom address dev part start min_start max_end l ≡ done none)
        ⊎ ((space : Geometry) × IsGap dev min_start max_end l space
            × (overlap_in geom address dev part start min_start max_end l
                ≡ done (some (Constraint.new_from_max space))))
  unfolding overlap_in
  overlap_space dev start min_start max_end l ord ends =
      let gap = find_gap geom address part start min_start l in
      let first = gap.0 in
      let last = gap_end geom max_end (skip_self address part gap.1) in
      let (low, clear) =
        find_gap_lem geom address part start min_start max_end min_start l ord (omega arith) in
      let high = gap_end_le max_end gap.1 (gap_rest start min_start max_end l ends) in
      elim (Bool-cases (ltb_ℤ last first)) [
        | inl e ↦ inl (rw e refl)
        | inr e ↦
            let room = ltb_ℤ→le last first e in
            let (space, made, m) = init-Made dev first (last -ℤ first +ℤ pos 1) (omega int_laws) in
            let stops = Made-stop dev first last m in
            inr (
              space,
              record {
                valid = m.valid;
                on_dev = m.dev_eq;
                low = subst (λ x. min_start ≤ℤ x) (sym m.start_eq) low;
                high = subst (λ x. x ≤ℤ max_end) (sym stops) high;
                clear =
                    subst₂ (λ x y. All (Outside geom address part x y) l) (sym m.start_eq)
                      (sym stops) clear;
              },
              rw (e, made) refl,
            )
      ]

  -- A region inside the gap lies between the bounds, and shares no sector with a partition other
  -- than the one that is placed.
  pub in_gap :
      (dev : Geom.Device) (min_start max_end : ℤ) (l : List A) (space g : Geometry)
      → IsGap dev min_start max_end l space
      → IsValid g
      → is_solution (Constraint.new_from_max space) g ≡ done true
      → (min_start ≤ℤ g.start)
        × (g.stop ≤ℤ max_end)
        × All (λ walk. (address walk ≡ part) ⊎ Apart g (geom walk)) l
  in_gap dev min_start max_end l space g gap v solves =
      let inside = (new_from_max_lem space g gap.valid v).0 solves in
      let from = (inside g.start (omega arith, IsValid-le v)).0 in
      let to = (inside g.stop (IsValid-le v, omega arith)).1 in
      let low = gap.low in
      let high = gap.high in
      (
        omega arith,
        omega arith,
        All-map
            (λ walk out. elim out [
              | inl self ↦ inl self
              | inr (inl before) ↦ inr (inr (omega arith))
              | inr (inr behind) ↦ inr (inl (omega arith))
            ])
            l gap.clear,
      )

-- `_partition_get_overlap_constraint` for a partition that is not logical, on an ordered list whose
-- partitions start on sectors up to LLONG_MAX - 1, comes back. A valid region that passes the
-- constraint that it returns shares no sector with another partition of the list.
pub overlap_constraint_lem :
    (disk : Disk) (part : Partition) (geom : Geometry)
    → part.type.logical ≡ false
    → Ordered geom_of (pos 0) disk.part_list
    → All (λ walk. (geom_of walk).start ≤ℤ max_sector) disk.part_list
    → (o : Option Constraint) × (overlap_constraint disk part geom ≡ done o)
      × ((c : Constraint)
          → o ≡ some c
          → (g : Geometry) → IsValid g
          → is_solution c g ≡ done true
          → All (λ walk. (address_of walk ≡ part.address) ⊎ Apart g (geom_of walk)) disk.part_list)
unfolding overlap_constraint
overlap_constraint_lem disk part geom primary ord ends =
    rw primary
      (elim (overlap_space geom_of address_of part.address disk.dev geom.start (pos 0) max_sector
        disk.part_list ord ends) [
          | inl e ↦ (none, e, λ c h. cc)
          | inr (space, gap, e) ↦ (
            some (Constraint.new_from_max space),
            e,
            λ c h g v solves.
                let same : c ≡ Constraint.new_from_max space = cc in
                (in_gap geom_of address_of part.address disk.dev (pos 0) max_sector disk.part_list
                  space g gap v (subst (λ d. is_solution d g ≡ done true) same solves)).2,
          )
        ])

-- For a logical partition it comes back too, if the list of the extended partition is ordered and
-- starts within the extended partition. A valid region that passes the constraint lies in the
-- extended partition, and shares no sector with another logical partition.
pub overlap_constraint_logical :
    (disk : Disk) (part : Partition) (geom : Geometry) (ext : Entry)
    → part.type.logical ≡ true
    → extended_partition disk.part_list ≡ some ext
    → Ordered partition_geom ext.part.geom.start ext.part_list
    → All (λ walk. walk.geom.start ≤ℤ ext.part.geom.stop) ext.part_list
    → (o : Option Constraint) × (overlap_constraint disk part geom ≡ done o)
      × ((c : Constraint)
          → o ≡ some c
          → (g : Geometry) → IsValid g
          → is_solution c g ≡ done true
          → (ext.part.geom.start ≤ℤ g.start)
            × (g.stop ≤ℤ ext.part.geom.stop)
            × All (λ walk. (walk.address ≡ part.address) ⊎ Apart g walk.geom) ext.part_list)
unfolding overlap_constraint
overlap_constraint_logical disk part geom ext logical found ord ends =
    let start = ext.part.geom.start in
    let stop = ext.part.geom.stop in
    rw (logical, found)
      (elim (overlap_space partition_geom (λ walk. walk.address) part.address disk.dev geom.start
        start stop ext.part_list ord ends) [
          | inl e ↦ (none, e, λ c h. cc)
          | inr (space, gap, e) ↦ (
            some (Constraint.new_from_max space),
            e,
            λ c h g v solves.
                let same : c ≡ Constraint.new_from_max space = cc in
                in_gap partition_geom (λ walk. walk.address) part.address disk.dev start stop
                  ext.part_list space g gap v
                  (subst (λ d. is_solution d g ≡ done true) same solves),
          )
        ])
