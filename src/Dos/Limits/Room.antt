-- ===== src/Dos/Limits/Room.antt =====
-- The room between the logical partitions and their tables, which `_log_meta_overlap_constraint`
-- finds.
use uparted.Base.{
  Bool, Bool-cases, List, Option, [], arith, deref, done, eqb_ℤ, false, if◌then◌else◌, inl, inr,
  int_laws, leb_ℤ, ltb_ℤ, none, not, pos, refl, some, subst, sym, true, ℤ, ◌&&◌, ◌+ℤ◌, ◌-ℤ◌, ◌<ℤ◌,
  ◌==◌, ◌>>=◌, ◌||◌, ◌∙◌, ◌∷◌, ◌≡◌, ◌≤ℤ◌, ◌⊎◌,
}
use uparted.Geom
use uparted.Geom.{Geometry}
use uparted.Geom.Laws.{IsValid, IsValid-le, Made-stop, init-Made}
use uparted.Constraint
use uparted.Constraint.{Constraint, is_solution}
use uparted.Constraint.Common.{Parts, constraint_of, new_from_max-Parts}
use uparted.Constraint.Build.{new_from_max_lem}
use uparted.Constraint.Meet.{IsFree, one-IsFree}
use uparted.Disk.{Disk, Entry, Partition, extended_partition, is_active}
use uparted.Disk.Sorted.{All}
use uparted.Dos.Limits.{
  log_meta_overlap_constraint, meta_end, meta_gap, skip_inactive, table_sector,
}

-- A logical partition that lies in part in the extended one.
abbrev pub Meets : Geometry → Partition → Type 0
Meets ext walk = (ext.start ≤ℤ walk.geom.stop) × (walk.geom.start ≤ℤ ext.stop)

table_sector_cases : (part : Partition) → (table_sector part ≡ pos 0) ⊎ (table_sector part ≡ pos 1)
unfolding table_sector
table_sector_cases part = elim (Bool-cases (eqb_ℤ part.num (pos 5))) [
  | inl e ↦ inl (rw e refl)
  | inr e ↦ inr (rw e refl)
]

-- The first sector behind the table of the extended partition.
abbrev pub first_sector : Partition → Geometry → ℤ
first_sector part ext = ext.start +ℤ pos 1 +ℤ table_sector part

meta_gap_lem :
    (part : Partition) (geom ext : Geometry) (l : List Partition) (min : ℤ)
    → first_sector part ext ≤ℤ min
    → All (Meets ext) l
    → (first_sector part ext ≤ℤ (meta_gap part geom min l).0)
      × All (Meets ext) (meta_gap part geom min l).1
unfolding meta_gap
meta_gap_lem part geom ext [] min h all = (h, tt)
meta_gap_lem part geom ext (walk ∷ rest) min h (m, all) =
    elim (Bool-cases (
      ltb_ℤ (walk.geom.start -ℤ table_sector walk) (geom.start -ℤ table_sector part)
      || leb_ℤ (walk.geom.start -ℤ table_sector walk) min)) [
        | inr e ↦ rw e (h, (m, all))
        | inl e ↦ rw e (
            meta_gap_lem part geom ext rest _
              (behind (not (walk.address == part.address) && is_active walk)) all)
      ]
  where
    behind :
        (b : Bool)
        → first_sector part ext ≤ℤ (if b then walk.geom.stop +ℤ pos 1 +ℤ table_sector part else min)
    behind true = let s = m.0 in omega int_laws
    behind false = h

skip_inactive-All :
    (P : Partition → Type 0) (part : Partition) (l : List Partition)
    → All P l
    → All P (skip_inactive part l)
unfolding skip_inactive
skip_inactive-All P part [] all = tt
skip_inactive-All P part (walk ∷ rest) (p, all) =
    elim (Bool-cases (walk.address == part.address || not (is_active walk))) [
      | inl e ↦ rw e (skip_inactive-All P part rest all)
      | inr e ↦ rw e (p, all)
    ]

meta_end_lem :
    (ext : Geometry) (l : List Partition) → All (Meets ext) l → meta_end ext.stop l ≤ℤ ext.stop
unfolding meta_end
meta_end_lem ext [] all = omega arith
meta_end_lem ext (walk ∷ rest) (m, all) = elim (table_sector_cases walk) [
  | inl e ↦ let s = m.1 in omega int_laws
  | inr e ↦ let s = m.1 in omega int_laws
]

-- A region for a logical partition: behind the table of the extended one, and in front of its own
-- table where it is not the fifth, and inside of the extended partition.
abbrev pub InExtended : Partition → Geometry → Geometry → Type 0
InExtended part ext g = (first_sector part ext ≤ℤ g.start) × (g.stop ≤ℤ ext.stop)

-- NULL, or a constraint without alignment whose solutions are such regions.
abbrev pub Roomy : Geom.Device → Partition → Geometry → Option Constraint → Type 0
Roomy dev part ext none = Unit
Roomy dev part ext (some c) =
    (p : Parts) × (c ≡ constraint_of p)
    × (p.sr.dev ≡ dev)
    × (p.er.dev ≡ dev)
    × IsFree p.sa
    × IsFree p.ea
    × ((g : Geometry)
        → IsValid g
        → is_solution (constraint_of p) g ≡ done true
        → InExtended part ext g)

space_lem :
    (dev : Geom.Device) (part : Partition) (ext : Geometry) (first last : ℤ)
    → first <ℤ last
    → first_sector part ext ≤ℤ first
    → last ≤ℤ ext.stop
    → (o : Option Constraint) × ((deref (Geom.init dev first (last -ℤ first +ℤ pos 1))
          >>= λ safe_space. done (some (Constraint.new_from_max safe_space)))
        ≡ done o)
      × Roomy dev part ext o
space_lem dev part ext first last room low high =
    let (max, made, m) = init-Made dev first (last -ℤ first +ℤ pos 1) (omega int_laws) in
    let (p, same, sd, ed, fs, fe, _) = new_from_max-Parts max m.valid in
    let stop = Made-stop dev first last m in
    (
      some (Constraint.new_from_max max),
      rw made refl,
      (
        p,
        same,
        sd ∙ m.dev_eq,
        ed ∙ m.dev_eq,
        one-IsFree p.sa fs,
        one-IsFree p.ea fe,
        λ g v h.
            let within =
              (new_from_max_lem max g m.valid v).0
                (subst (λ c. is_solution c g ≡ done true) (sym same) h) in
            let lo =
              subst (λ x. x ≤ℤ g.start) m.start_eq (within g.start (omega arith, IsValid-le v)).0 in
            let up = subst (λ x. g.stop ≤ℤ x) stop (within g.stop (IsValid-le v, omega arith)).1 in
            (omega arith, omega arith),
      ),
    )

-- `_log_meta_overlap_constraint` comes back, where there is an extended partition.
pub log_meta_overlap_constraint_lem :
    (disk : Disk) (part : Partition) (geom : Geometry) (ext : Entry)
    → extended_partition disk.part_list ≡ some ext
    → All (Meets ext.part.geom) ext.part_list
    → (o : Option Constraint) × (log_meta_overlap_constraint disk part geom ≡ done o)
      × Roomy disk.dev part ext.part.geom o
unfolding log_meta_overlap_constraint
log_meta_overlap_constraint_lem disk part geom ext found all =
    rw found (elim (Bool-cases (leb_ℤ last gap.0)) [
      | inl e ↦ (none, rw e refl, tt)
      | inr e ↦
          rw e (space_lem disk.dev part ext.part.geom gap.0 last (above last gap.0 e) low.0 high)
    ])
  where
    start : ℤ
    start = first_sector part ext.part.geom

    gap : ℤ × List Partition
    gap = meta_gap part geom start ext.part_list

    last : ℤ
    last = meta_end ext.part.geom.stop (skip_inactive part gap.1)

    low : (start ≤ℤ gap.0) × All (Meets ext.part.geom) gap.1
    low = meta_gap_lem part geom ext.part.geom ext.part_list start (omega arith) all

    high : last ≤ℤ ext.part.geom.stop
    high =
        meta_end_lem ext.part.geom (skip_inactive part gap.1)
          (skip_inactive-All (Meets ext.part.geom) part gap.1 low.1)

    above : (a b : ℤ) → leb_ℤ a b ≡ false → b <ℤ a
    above a b e = ground arith
