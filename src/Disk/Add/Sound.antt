-- ===== src/Disk/Add/Sound.antt =====
-- The constraint, the numbering and the alignment in `ped_disk_add_partition`.
use uparted.Base.{
  Option, Option-cases, Run, ap, arith, done, false, inl, inr, none, pos, refl, some,
  some-injective, subst, true, ℤ, ◌∙◌, ◌≡◌, ◌≤ℤ◌, ◌⊎◌,
}
use uparted.Geom
use uparted.Geom.{Geometry}
use uparted.Geom.Laws.{Contains, IsValid}
use uparted.Constraint
use uparted.Constraint.{Constraint}
use uparted.Constraint.Made.{new_from_max-InRanges}
use uparted.Constraint.Build.{new_from_max_lem}
use uparted.Constraint.Meet.{IsMeet, meet-Parts_left, meet_lem, one-IsFree}
use uparted.Constraint.Common.{InRanges, IsUsable, Parts, constraint_of, new_from_max-Parts}
use uparted.Disk.{
  Disk, Entry, Partition, PartitionType, address_of, geom_of, is_active, max_sector,
  overlap_constraint, overlap_in,
}
use uparted.Disk.Sorted.{All, Apart, Ordered}
use uparted.Disk.Overlap.{IsGap, in_gap, overlap_space}
use uparted.Disk.Walk.{DiskOps, overlapping}
use uparted.Disk.Add.{align, choose, fit, number_and_align}

-- `partition_align` of the label on a device, for partitions of one type: under a constraint over the device, with grains below
-- 2^31, valid ranges from sector 0 on and a positive smallest size, it comes back, and a geometry
-- that it assigns is valid and starts and ends in the ranges of the constraint.
abbrev pub AlignsWithin : Geom.Device → PartitionType → DiskOps → Type 0
AlignsWithin dev type ops =
    (disk : Disk) (part : Partition) (p : Parts)
    → disk.dev ≡ dev
    → part.type ≡ type
    → IsUsable p
    → p.sr.dev ≡ dev
    → p.er.dev ≡ dev
    → (o : Option Geometry) × (ops.partition_align disk part (some (constraint_of p)) ≡ done o)
      × ((g : Geometry) → o ≡ some g → IsValid g × InRanges p g)

-- What a geometry must be to fit.
abbrev Fits : Disk → Entry → Geometry → Type 0
Fits disk part g =
    (pos 0 ≤ℤ g.start)
    × All (λ walk. (address_of walk ≡ part.part.address) ⊎ Apart g (geom_of walk)) disk.part_list

-- What is known of the entry that goes on the disk: its type, and that it fits between the others.
pub record IsFitting (disk : Disk) (part fitted : Entry) : Type 0 where
  pub same_address : fitted.part.address ≡ part.part.address
  pub same_type : fitted.part.type ≡ part.part.type
  pub valid : IsValid fitted.part.geom
  pub first : pos 0 ≤ℤ fitted.part.geom.start
  pub apart :
      All
        (λ walk. (address_of walk ≡ part.part.address) ⊎ Apart fitted.part.geom (geom_of walk))
        disk.part_list

-- An attempt comes back, with NULL or with an entry that fits.
abbrev pub FitsRun : Disk → Entry → Run (Option Entry) → Type 0
FitsRun disk part run =
    (o : Option Entry) × (run ≡ done o)
    × ((fitted : Entry) → o ≡ some fitted → IsFitting disk part fitted)

-- The numbering and the alignment, under a constraint whose solutions fit.
number_and_align_lem :
    (ops : DiskOps) (disk : Disk) (part : Entry) (p : Parts)
    → AlignsWithin disk.dev part.part.type ops
    → disk.needs_clobber ≡ false
    → IsUsable p
    → p.sr.dev ≡ disk.dev
    → p.er.dev ≡ disk.dev
    → ((g : Geometry) → IsValid g → InRanges p g → Fits disk part g)
    → FitsRun disk part (number_and_align ops disk part (some (some (constraint_of p))))
unfolding number_and_align align
number_and_align_lem ops disk part p sound ready usable sd ed fits =
    elim (Option-cases (ops.partition_enumerate disk part.part)) [
      | inl e ↦ (none, rw (number_and_align, e) refl, λ fitted h. cc)
      | inr (n, e) ↦
          let (o, run, within) = sound disk (numbered n) p refl refl usable sd ed in
          elim (Option-cases o) [
            | inl f ↦ (none, simp (number_and_align, align, e, ready, run, f), λ fitted h. cc)
            | inr (g, f) ↦ (
              some (placed n g),
              simp (number_and_align, align, e, ready, run, f),
              λ fitted h.
                  let (v, solves) = within g f in
                  let (low, apart) = fits g v solves in
                  subst (IsFitting disk part) (some-injective _ _ h) (record {
                    same_address = refl;
                    same_type = refl;
                    valid = v;
                    first = low;
                    apart = apart;
                  }),
            )
          ]
    ]
  where
    numbered : ℤ → Partition
    numbered n = record part.part { num = n }

    placed : ℤ → Geometry → Entry
    placed n g = record part { part = record (numbered n) { geom = g } }

no_constraint :
    (ops : DiskOps) (disk : Disk) (part : Entry) → number_and_align ops disk part none ≡ done none
unfolding number_and_align
no_constraint ops disk part = refl

-- NULL, or a constraint over the device whose solutions fit.
abbrev Admits : Disk → Entry → Option Constraint → Type 0
Admits disk part none = Unit
Admits disk part (some c) =
    (p : Parts) × (c ≡ constraint_of p)
    × IsUsable p
    × (p.sr.dev ≡ disk.dev)
    × (p.er.dev ≡ disk.dev)
    × ((g : Geometry) → IsValid g → InRanges p g → Fits disk part g)

chosen_lem :
    (ops : DiskOps) (disk : Disk) (part : Entry) (o : Option Constraint) (given : Constraint)
    → AlignsWithin disk.dev part.part.type ops
    → disk.needs_clobber ≡ false
    → ops.ignore overlapping ≡ false
    → Admits disk part o
    → FitsRun disk part (number_and_align ops disk part (choose ops o (some given)))
unfolding choose
chosen_lem ops disk part none given sound ready cancel admits =
    (none, rw cancel (no_constraint ops disk part), λ fitted h. cc)
chosen_lem ops disk part (some c) given sound ready cancel (p, same, usable, sd, ed, fits) =
    let (o, run, all) = number_and_align_lem ops disk part p sound ready usable sd ed fits in
    (o, ap (λ x. number_and_align ops disk part (some (some x))) same ∙ run, all)

no_overlap : (c : Constraint) → Constraint.intersect none (some c) ≡ done none
unfolding Constraint.intersect
no_overlap c = refl

primary_overlap :
    (disk : Disk) (part : Partition) (geom : Geometry)
    → part.type.logical ≡ false
    → overlap_constraint disk part geom
      ≡ overlap_in geom_of address_of disk.dev part.address geom.start
          (pos 0)
          max_sector
          disk.part_list
unfolding overlap_constraint
primary_overlap disk part geom primary = simp primary

fit_run :
    (ops : DiskOps) (disk : Disk) (part : Entry) (given : Constraint)
    (overlap o : Option Constraint)
    → is_active part.part ≡ true
    → overlap_constraint disk part.part part.part.geom ≡ done overlap
    → Constraint.intersect overlap (some given) ≡ done o
    → fit ops disk part (some given) ≡ number_and_align ops disk part (choose ops o (some given))
unfolding fit
fit_run ops disk part given overlap o active e run = rw (active, e, run) refl

-- The gap without the sectors that the caller refuses.
gap-Admits :
    (disk : Disk) (part : Entry) (p : Parts) (space : Geometry)
    → IsGap geom_of address_of part.part.address disk.dev (pos 0) max_sector disk.part_list space
    → p.sr.dev ≡ disk.dev
    → p.er.dev ≡ disk.dev
    → (o : Option Constraint) × (Constraint.intersect
          (some (Constraint.new_from_max space))
          (some (constraint_of p))
        ≡ done o)
      × Admits disk part o
gap-Admits disk part p space gap sd ed =
    let (q, same, qs, qe, fs, fe, usable) = new_from_max-Parts space gap.valid in
    let (o, run, members) = meet_lem q p in
    (
      o,
      ap (λ c. Constraint.intersect (some c) (some (constraint_of p))) same ∙ run,
      admitted q same qs qe fs fe (usable gap.low) o members,
    )
  where
    admitted :
        (q : Parts)
        → Constraint.new_from_max space ≡ constraint_of q
        → q.sr.dev ≡ space.dev
        → q.er.dev ≡ space.dev
        → q.sa.grain_size ≡ pos 1
        → q.ea.grain_size ≡ pos 1
        → IsUsable q
        → (o : Option Constraint) → ((c : Constraint) → o ≡ some c → IsMeet q p c)
        → Admits disk part o
    admitted q same qs qe fs fe usable none members = tt
    admitted q same qs qe fs fe usable (some c) members =
        let m = members c refl in
        let (r, whole, rs, re, keeps) =
          meet-Parts_left m (one-IsFree q.sa fs) (one-IsFree q.ea fe) in
        (
          r,
          whole,
          keeps usable,
          ap (λ x. x.dev) rs ∙ m.sr_dev ∙ qs ∙ gap.on_dev,
          ap (λ x. x.dev) re ∙ m.er_dev ∙ qe ∙ gap.on_dev,
          λ g v (first, last).
              let starts = (m.sr_in g.start (subst (λ x. Contains x g.start) rs first)).0 in
              let ends = (m.er_in g.stop (subst (λ x. Contains x g.stop) re last)).0 in
              let (at_start, _) = new_from_max-InRanges space q gap.valid same g.start in
              let (_, at_end) = new_from_max-InRanges space q gap.valid same g.stop in
              let (low, _) = at_start starts in
              let (_, high) = at_end ends in
              let within =
                in_gap geom_of address_of part.part.address disk.dev (pos 0) max_sector
                  disk.part_list space g gap v
                  ((new_from_max_lem space g gap.valid v).1
                    (λ t (a, b). (omega arith, omega arith))) in
              (within.0, within.2),
        )

-- The chosen constraint admits only regions that fit.
pub fit_lem :
    (ops : DiskOps) (disk : Disk) (part : Entry) (p : Parts)
    → AlignsWithin disk.dev part.part.type ops
    → disk.needs_clobber ≡ false
    → ops.ignore overlapping ≡ false
    → is_active part.part ≡ true
    → part.part.type.logical ≡ false
    → p.sr.dev ≡ disk.dev
    → p.er.dev ≡ disk.dev
    → Ordered geom_of (pos 0) disk.part_list
    → All (λ walk. (geom_of walk).start ≤ℤ max_sector) disk.part_list
    → FitsRun disk part (fit ops disk part (some (constraint_of p)))
fit_lem ops disk part p sound ready cancel active primary sd ed ord ends =
    let here = primary_overlap disk part.part part.part.geom primary in
    elim (overlap_space geom_of address_of part.part.address disk.dev part.part.geom.start (pos 0)
      max_sector disk.part_list ord ends) [
        | inl e ↦
            let (o, run, all) = chosen_lem ops disk part none given sound ready cancel tt in
            (
              o,
              fit_run ops disk part given none none active (here ∙ e) (no_overlap given) ∙ run,
              all,
            )
        | inr (space, gap, e) ↦
            let (c, meets, admits) = gap-Admits disk part p space gap sd ed in
            let (o, run, all) = chosen_lem ops disk part c given sound ready cancel admits in
            (
              o,
              fit_run ops disk part given (some (Constraint.new_from_max space)) c active (here ∙ e)
                    meets
                  ∙ run,
              all,
            )
      ]
  where
    given : Constraint
    given = constraint_of p
