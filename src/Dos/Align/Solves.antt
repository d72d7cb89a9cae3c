-- ===== src/Dos/Align/Solves.antt =====
-- What `msdos_partition_align` does to a partition, in exact arithmetic.
use uparted.Base.{
  Bool, Bool-cases, Option-cases, Run, ap, arith, done, false, inl, inr, pos, refl, some,
  some-injective, subst, sym, true, ◌==◌, ◌∙◌, ◌≡◌, ◌≤ℤ◌,
}
use uparted.Geom.{Geometry}
use uparted.Geom.Laws.{IsValid}
use uparted.Constraint.{Constraint, is_solution}
use uparted.Constraint.Common.{IsUsable, Parts, constraint_of}
use uparted.Disk.{Disk, Entry, Partition, extended_partition, is_extended}
use uparted.Disk.Add.{is_logical}
use uparted.Disk.Sorted.{All}
use uparted.Disk.Walk.{get_partition, partitions}
use uparted.Dos.Chs.{ChsGeometry}
use uparted.Dos.Limits.Extended.{IsRoomy, min_extended_part_geom-Between}
use uparted.Dos.Limits.Room.{InExtended, Meets}
use uparted.Dos.Align.{
  DosData, align_by_type, align_no_geom, align_twice, msdos_partition_align, partition_ldm,
}
use uparted.Dos.Align.OnDisk.{OnDisk}
use uparted.Dos.Align.Search.{Assigns, IsBios}
use uparted.Dos.Align.Primary.{align_primary_lem, align_primary_no_geom_lem}
use uparted.Dos.Align.Dynamic.{align_dynamic_lem}
use uparted.Dos.Align.Logical.{align_logical_lem, align_logical_no_geom_lem}
use uparted.Label.Attempt.{IsAligned}

-- What the disk must have for a partition to be aligned on it: two sectors, for a logical partition
-- an extended one that its logical partitions meet, and for an extended partition no logical one in
-- the first three sectors or behind the device.
pub record CanAlign (disk : Disk) (part : Entry) : Type 0 where
  pub room : pos 2 ≤ℤ disk.dev.length
  pub extended :
      is_logical part.part ≡ true
      → (ext : Entry) × (extended_partition disk.part_list ≡ some ext)
        × All (Meets ext.part.geom) ext.part_list
  pub fifth :
      is_extended part.part ≡ true
      → (walk : Partition) → get_partition (pos 5) (partitions disk.part_list) ≡ some walk
      → IsRoomy disk.dev.length walk
  pub logicals : is_extended part.part ≡ true → All (IsRoomy disk.dev.length) part.part_list

-- Where a partition may lie: a logical one in the extended partition, behind the tables, any other
-- one on the device behind the first sector.
pub record IsPlaced (disk : Disk) (part : Entry) (g : Geometry) : Type 0 where
  pub primary : is_logical part.part ≡ false → OnDisk disk.dev g
  pub logical :
      is_logical part.part ≡ true
      → (ext : Entry) → extended_partition disk.part_list ≡ some ext
      → InExtended part.part ext.part.geom g

module _ (disk : Disk) (a : Parts) (ok : IsUsable a) (sd : a.sr.dev ≡ disk.dev)
    (ed : a.er.dev ≡ disk.dev) where
  abbrev given : Constraint
  given = constraint_of a

  abbrev Places : Entry → Run (Bool × Geometry) → Type 0
  Places part run = Assigns part.part.geom given (IsPlaced disk part) run

  of_logical :
      (part : Entry) (ext : Entry) (run : Run (Bool × Geometry))
      → is_logical part.part ≡ true
      → extended_partition disk.part_list ≡ some ext
      → Assigns part.part.geom given (InExtended part.part ext.part.geom) run
      → Places part run
  of_logical part ext run e found (r, h, aligned, inside) = (
    r,
    h,
    aligned,
    λ t. record {
      primary = λ f. cc;
      logical = λ f other same.
          subst (λ x. InExtended part.part x.part.geom r.1) (some-injective _ _ (sym found ∙ same))
            (inside t);
    },
  )

  of_primary :
      (part : Entry) (run : Run (Bool × Geometry))
      → is_logical part.part ≡ false
      → Assigns part.part.geom given (OnDisk disk.dev) run
      → Places part run
  of_primary part run e (r, h, aligned, on_disk) =
      (r, h, aligned, λ t. record { primary = λ f. on_disk t; logical = λ f. cc })

  align_lem :
      (part : Entry) (bios : ChsGeometry)
      → IsBios bios
      → CanAlign disk part
      → Places part (align_by_type disk part bios (some given))
  unfolding align_by_type
  align_lem part bios b can = elim (Bool-cases (is_logical part.part)) [
    | inl e ↦
        let (ext, found, all) = can.extended e in
        rw e (
          of_logical part ext _ e found
            (align_logical_lem disk part.part ext a ok sd ed found all bios b))
    | inr e ↦ rw e (of_primary part _ e (align_primary_lem disk part a ok sd ed bios b))
  ]

  align_no_geom_lem :
      (part : Entry) → CanAlign disk part → Places part (align_no_geom disk part (some given))
  unfolding align_no_geom
  align_no_geom_lem part can = elim (Bool-cases (is_logical part.part)) [
    | inl e ↦
        let (ext, found, all) = can.extended e in
        rw e (
          of_logical part ext _ e found
            (align_logical_no_geom_lem disk part.part ext a ok sd ed found all))
    | inr e ↦ rw e (
        of_primary part _ e (
          align_primary_no_geom_lem disk part a ok sd ed can.room λ m x h.
            min_extended_part_geom-Between disk part disk.dev.length m (can.fifth x)
              (can.logicals x) h))
  ]

  twice_lem :
      (dos_data : DosData) (part : Entry) (bios : ChsGeometry)
      → IsBios bios
      → CanAlign disk part
      → Places part (align_twice dos_data disk part bios (some given))
  unfolding align_twice
  twice_lem dos_data part bios b can = elim (Bool-cases dos_data.cylinder_alignment) [
    | inr e ↦ rw e (align_no_geom_lem part can)
    | inl e ↦
        let ((status, geom), run, mine, placed) = align_lem part bios b can in
        elim (Bool-cases status) [
          | inl f ↦ (
            (true, geom),
            rw (e, run, f) refl,
            record { taken = λ t. mine.taken f; kept = λ t. cc },
            λ t. placed f,
          )
          | inr f ↦
              let same : record part { part = record part.part { geom = geom } } ≡ part =
                λ i. record part { part = record part.part { geom = mine.kept f i } } in
              let (r, again, aligned, rest) = align_no_geom_lem part can in
              (
                r,
                rw (e, run, f) (ap (λ x. align_no_geom disk x (some given)) same ∙ again),
                aligned,
                rest,
              )
        ]
  ]

-- Whether the partition belongs to a dynamic disk, by its type, and was read from the disk.
abbrev pub IsDynamic : DosData → Geometry → Type 0
IsDynamic dos_data orig = (dos_data.orig ≡ some orig) × (dos_data.system ≡ partition_ldm)

-- What `msdos_partition_align` promises.
pub record IsDone (dos_data : DosData) (disk : Disk) (part : Entry) (c : Constraint)
    (r : Bool × Geometry) : Type 0 where
  pub solves : r.0 ≡ true → is_solution c r.1 ≡ done true
  pub aligned :
      ((orig : Geometry) → ¬ IsDynamic dos_data orig)
      → IsAligned part.part.geom c r × (r.0 ≡ true → IsPlaced disk part r.1)
  pub dynamic :
      (orig : Geometry)
      → IsDynamic dos_data orig
      → IsValid orig
      → (r.1.start ≡ orig.start) × (r.1.stop ≡ orig.stop)

-- `msdos_partition_align` in exact arithmetic.
pub msdos_partition_align_solves :
    (dos_data : DosData) (disk : Disk) (part : Entry) (bios : ChsGeometry) (a : Parts)
    → IsUsable a
    → a.sr.dev ≡ disk.dev
    → a.er.dev ≡ disk.dev
    → IsBios bios
    → CanAlign disk part
    → (r : Bool × Geometry) × (msdos_partition_align dos_data disk part bios
          (some (constraint_of a))
        ≡ done r)
      × IsDone dos_data disk part (constraint_of a) r
unfolding msdos_partition_align
msdos_partition_align_solves dos_data disk part bios a ok sd ed b can =
    elim (Option-cases dos_data.orig) [
      | inl e ↦
          let (r, run, aligned, placed) = twice_lem disk a ok sd ed dos_data part bios b can in
          let opened : msdos_partition_align dos_data disk part bios (some (constraint_of a))
              ≡ align_twice dos_data disk part bios (some (constraint_of a)) =
            rw (msdos_partition_align, e) refl in
          (r, opened ∙ run, plain r aligned placed λ orig dyn. let same = dyn.0 in cc)
      | inr (orig, e) ↦ elim (Bool-cases (dos_data.system == partition_ldm)) [
        | inl f ↦
            let (r, run, stays) = align_dynamic_lem part.part.geom orig a in
            let dyn : IsDynamic dos_data orig = (e, ground arith) in
            (
              r,
              rw (msdos_partition_align, e, f) run,
              record {
                solves = λ t.
                    let (same, solved) = stays.solves t in
                    subst (λ g. is_solution (constraint_of a) g ≡ done true) (sym same) solved;
                aligned = λ other. absurd (other orig dyn);
                dynamic = λ o d v.
                    let same = some-injective _ _ (sym e ∙ d.0) in
                    subst (λ x. (r.1.start ≡ x.start) × (r.1.stop ≡ x.stop)) same
                      (stays.where_it_was (subst IsValid (sym same) v));
              },
            )
        | inr f ↦
            let (r, run, aligned, placed) = twice_lem disk a ok sd ed dos_data part bios b can in
            let opened : msdos_partition_align dos_data disk part bios (some (constraint_of a))
                ≡ align_twice dos_data disk part bios (some (constraint_of a)) =
              rw (msdos_partition_align, e, f) refl in
            (r, opened ∙ run, plain r aligned placed λ o dyn. let same = dyn.1 in ground arith)
      ]
    ]
  where
    plain :
        (r : Bool × Geometry)
        → IsAligned part.part.geom (constraint_of a) r
        → (r.0 ≡ true → IsPlaced disk part r.1)
        → ((orig : Geometry) → ¬ IsDynamic dos_data orig)
        → IsDone dos_data disk part (constraint_of a) r
    plain r aligned placed other = record {
      solves = λ t. (aligned.taken t).solves;
      aligned = λ n. (aligned, placed);
      dynamic = λ orig d. absurd (other orig d);
    }
