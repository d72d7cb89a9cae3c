-- ===== src/Tests/Disks.antt =====
-- The theorems on disk.c at the sample disk.
use uparted.Base.{
  Bool, Bool-cases, Option, Run, [], ap, arith, done, eqb_ℤ→eq, inl, inr, int_laws, none, pos, refl,
  some, some-injective, subst, sym, trap, true, ℕ, ◌-ℤ◌, ◌∷◌, ◌≡◌, ◌≤ℤ◌, ◌⊎◌,
}
use uparted.Geom.{Geometry}
use uparted.Geom.Laws.{IsValid}
use uparted.Constraint.{Constraint, is_solution}
use uparted.Constraint.Common.{InRanges, constraint_of, solution-InRanges}
use uparted.Disk
use uparted.Disk.{Disk}
use uparted.Disk.Sorted.{All, Apart, Ordered, add_to_lem}
use uparted.Disk.Free.{Tiles, remove_free-fill}
use uparted.Disk.Overlap.{overlap_constraint_lem, overlap_constraint_logical}
use uparted.Disk.Unlink.{unlink_lem}
use uparted.Disk.Lookup.{IsHolder, by_sector_lem}
use uparted.Disk.Tiled.{MakesSectors, alloc_freespace-Tiles}
use uparted.Disk.Update.{alloc_freespace}
use uparted.Disk.Add.{add_partition}
use uparted.Disk.Add.Sound.{AlignsWithin}
use uparted.Disk.Add.Result.{IsCall, Outcome, add_partition_lem}
use mathlib.Core.List.{Perm}
use uparted.Tests.Sample.{
  accepts, anywhere, dev, disk, extended, first_logical, fits, free, fresh, keep, ops, partition,
  program, region,
}

pub disk-Ordered : Ordered Disk.geom_of (pos 0) disk.part_list
disk-Ordered = (omega int_laws, omega int_laws, (omega int_laws, omega int_laws, tt))

pub disk-All : All (λ walk. (Disk.geom_of walk).start ≤ℤ Disk.max_sector) disk.part_list
disk-All = (omega arith, (omega arith, tt))

add_to_lem_example :
    Ordered Disk.geom_of (pos 0) (Disk.add_to Disk.geom_of fresh disk.part_list)
    × Perm (fresh ∷ disk.part_list) (Disk.add_to Disk.geom_of fresh disk.part_list)
add_to_lem_example =
    add_to_lem Disk.geom_of fresh (pos 0) disk.part_list disk-Ordered (omega arith) (omega arith)
      (inr (omega arith), (inl (omega arith), tt))

unlink_lem_example :
    ((n : ℕ) → Ordered Disk.geom_of (pos 0) (Disk.Update.unlink Disk.address_of n disk.part_list))
    × (Disk.Update.unlink Disk.address_of 5 (Disk.add_to Disk.geom_of fresh disk.part_list)
        ≡ disk.part_list)
unlink_lem_example =
    unlink_lem Disk.geom_of Disk.address_of fresh (pos 0) disk.part_list disk-Ordered
      (omega arith, (omega arith, tt))

overlap_constraint_lem_example :
    (o : Option Constraint) × (Disk.overlap_constraint disk fresh.part (region (pos 200) (pos 299))
      ≡ done o)
    × ((c : Constraint)
        → o ≡ some c
        → (g : Geometry) → IsValid g
        → is_solution c g ≡ done true
        → All (λ walk. (Disk.address_of walk ≡ 5) ⊎ Apart g (Disk.geom_of walk)) disk.part_list)
overlap_constraint_lem_example =
    overlap_constraint_lem disk fresh.part (region (pos 200) (pos 299)) refl disk-Ordered disk-All

found : Disk.extended_partition disk.part_list ≡ some extended
unfolding Disk.extended_partition
found = refl

overlap_constraint_logical_example :
    (o : Option Constraint) × (Disk.overlap_constraint disk
        (partition 6 first_logical.type (region (pos 700) (pos 799)))
        (region (pos 700) (pos 799))
      ≡ done o)
    × ((c : Constraint)
        → o ≡ some c
        → (g : Geometry) → IsValid g
        → is_solution c g ≡ done true
        → (pos 500 ≤ℤ g.start)
          × (g.stop ≤ℤ pos 799)
          × All (λ walk. (walk.address ≡ 6) ⊎ Apart g walk.geom) extended.part_list)
overlap_constraint_logical_example =
    overlap_constraint_logical disk (partition 6 first_logical.type (region (pos 700) (pos 799)))
      (region (pos 700) (pos 799)) extended refl found (omega arith, omega arith, tt)
      (omega arith, tt)

accepts-true : (r : Run Bool) → accepts r ≡ true → r ≡ done true
accepts-true (done fine) h = rw h refl
accepts-true trap h = cc

fits-IsValid :
    (g : Geometry) (c : Constraint) → fits g c ≡ true → IsValid g × (is_solution c g ≡ done true)
fits-IsValid g c h = (
  record { nonempty = ground arith; last = eqb_ℤ→eq _ _ (ground arith) },
  accepts-true (is_solution c g) (ground arith),
)

keep-AlignsWithin : AlignsWithin dev fresh.part.type ops
keep-AlignsWithin d part p on same usable sd ed =
    let c = constraint_of p in
    elim (Bool-cases (fits part.geom c)) [
      | inl e ↦
          let kept : keep part (some c) ≡ some part.geom = rw e refl in
          (
            some part.geom,
            ap done kept,
            λ g h.
                let (v, solves) = fits-IsValid part.geom c e in
                subst (λ x. IsValid x × InRanges p x) (some-injective _ _ h)
                  (v, solution-InRanges p part.geom solves),
          )
      | inr e ↦ let gone : keep part (some c) ≡ none = rw e refl in (none, ap done gone, λ g h. cc)
    ]

fresh_active : Disk.is_active fresh.part ≡ true
unfolding Disk.is_active
fresh_active = refl

call : IsCall ops disk fresh anywhere
call = record {
  ready = refl;
  cancel = refl;
  active = fresh_active;
  primary = refl;
  start_dev = refl;
  end_dev = refl;
  updating = omega arith;
  absent = (omega arith, (omega arith, tt));
  in_range = disk-All;
}

add_partition_lem_example :
    (r : Bool × Disk) × (add_partition ops disk fresh (some (constraint_of anywhere)) ≡ done r)
    × Outcome disk fresh r
add_partition_lem_example = add_partition_lem call keep-AlignsWithin disk-Ordered

cleared : (Disk.Update.remove_freespace disk).part_list ≡ disk.part_list
unfolding program
cleared = refl

cleared-Ordered : Ordered Disk.geom_of (pos 0) (Disk.Update.remove_freespace disk).part_list
cleared-Ordered = subst (Ordered Disk.geom_of (pos 0)) (sym cleared) disk-Ordered

cleared-All :
    All
      (λ walk. (Disk.geom_of walk).stop ≤ℤ pos 1000 -ℤ pos 1)
      (Disk.Update.remove_freespace disk).part_list
cleared-All =
    subst (All (λ walk. (Disk.geom_of walk).stop ≤ℤ pos 1000 -ℤ pos 1)) (sym cleared)
      (omega int_laws, (omega int_laws, tt))

ops-MakesSectors : MakesSectors ops
ops-MakesSectors d type start stop = (refl, refl)

alloc_freespace-Tiles_example :
    Tiles Disk.geom_of (pos 0) (pos 1000 -ℤ pos 1) (alloc_freespace ops disk).part_list
alloc_freespace-Tiles_example =
    alloc_freespace-Tiles ops disk ops-MakesSectors (omega arith) cleared-Ordered cleared-All

-- The free space behind the logical partition, and in front of it behind the first sector.
fill_runs :
    Disk.fill Disk.partition_geom free (pos 500) (pos 799) extended.part_list
    ≡ free (pos 501) (pos 519) ∷ first_logical ∷ free (pos 600) (pos 799) ∷ []
unfolding program
fill_runs = refl

remove_free-fill_example :
    Disk.remove_free
      (λ part. part)
      (Disk.fill Disk.partition_geom free (pos 500) (pos 799) extended.part_list)
    ≡ extended.part_list
remove_free-fill_example =
    remove_free-fill Disk.partition_geom (λ part. part) free (pos 500) (pos 799) extended.part_list
      (λ start stop. refl) (refl, tt)

by_sector_lem_example :
    IsHolder
      (pos 550)
      (Disk.Walk.partitions disk.part_list)
      (Disk.Walk.by_sector (pos 550) (Disk.Walk.partitions disk.part_list))
by_sector_lem_example = by_sector_lem (pos 550) (Disk.Walk.partitions disk.part_list)
