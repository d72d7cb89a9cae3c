-- ===== src/Disk/Add/Result.antt =====
-- `ped_disk_add_partition` in update mode: the disk that it leaves.
use uparted.Base.{
  Bool, Bool-cases, List, Option, Option-cases, Run, [], ap, arith, done, false, inl, inr, leb_ℤ,
  none, not, pos, refl, some, subst, suc, sym, trap, true, ◌&&◌, ◌-◌, ◌<◌, ◌==◌, ◌>>=◌, ◌||◌, ◌∙◌,
  ◌∷◌, ◌≡◌, ◌≢◌, ◌≤ℤ◌, ◌⊎◌,
}
use uparted.Geom.Laws.{IsValid-le}
use uparted.Constraint.Common.{Parts, constraint_of}
use uparted.Disk.{
  Disk, Entry, Partition, add_to, address_of, extended_partition, geom_of, is_active, is_extended,
  max_sector, raw_add,
}
use uparted.Disk.Sorted.{All, Apart, Ordered, add_to_lem}
use uparted.Disk.Walk.{DiskOps, outside_disk, overlapping}
use uparted.Disk.Update.{pop_update_mode, push_update_mode}
use uparted.Disk.Add.{
  add_partition, check_basic_sanity, check_extended_partition, check_logical, check_partition,
  check_primary, fit, insert,
}
use uparted.Disk.Add.Sound.{AlignsWithin, IsFitting, fit_lem}
use mathlib.Core.List.{Perm}

logical_skipped :
    (ops : DiskOps) (ext : Option Entry) (part : Partition)
    → part.type.logical ≡ false
    → check_logical ops ext part ≡ done true
unfolding check_logical
logical_skipped ops ext part primary = simp primary

check_partition-done :
    (ops : DiskOps) (disk : Disk) (part : Entry)
    → part.part.type.logical ≡ false
    → (b : Bool) × (check_partition ops disk part ≡ done b)
unfolding check_partition
check_partition-done ops disk part primary =
    elim (Bool-cases (is_extended part.part && not (check_extended_partition disk part))) [
      | inl e ↦ (false, rw e refl)
      | inr e ↦ (
        check_primary ops (extended_partition disk.part_list) part.part
            && ((not (leb_ℤ disk.dev.length part.part.geom.stop) || ops.ignore outside_disk)
                && (part.part.type.metadata || ops.partition_check disk part.part)),
        rw (e, logical_skipped ops (extended_partition disk.part_list) part.part primary) refl,
      )
    ]

-- A disk as the rest of `ped_disk_add_partition` leaves it: unchanged with status 0, or with the
-- partition among the others.
abbrev Inserted : Disk → Entry → Bool × Disk → Type 0
Inserted disk part (status, changed) =
    ((status ≡ false) × (changed ≡ disk))
    ⊎ ((status ≡ true) × (changed ≡ record disk { part_list = add_to geom_of part disk.part_list }))

raw_add-primary :
    (disk : Disk) (part : Entry)
    → part.part.type.logical ≡ false
    → raw_add disk part ≡ done (record disk { part_list = add_to geom_of part disk.part_list })
unfolding raw_add
raw_add-primary disk part primary = simp primary

insert_lem :
    (ops : DiskOps) (disk : Disk) (part : Entry)
    → part.part.type.logical ≡ false
    → (r : Bool × Disk) × (insert ops disk (some part) ≡ done r) × Inserted disk part r
unfolding insert
insert_lem ops disk part primary =
    let (b, run) = check_partition-done ops disk part primary in
    elim (Bool-cases b) [
      | inl e ↦ (
        (true, record disk { part_list = add_to geom_of part disk.part_list }),
        rw (run, e, raw_add-primary disk part primary) refl,
        inr (refl, refl),
      )
      | inr e ↦ ((false, disk), rw (run, e) refl, inl (refl, refl))
    ]

no_entry : (ops : DiskOps) (disk : Disk) → insert ops disk none ≡ done (false, disk)
unfolding insert
no_entry ops disk = refl

-- In update mode the two changes of the mode only count.
push_counts :
    (ops : DiskOps) (disk : Disk)
    → 0 < disk.update_mode
    → push_update_mode ops disk ≡ done (record disk { update_mode = suc disk.update_mode })
unfolding push_update_mode
push_counts ops disk h =
    let nested : (disk.update_mode == 0) ≡ false = ground arith in rw nested refl

pop_counts :
    (ops : DiskOps) (disk : Disk)
    → 1 < disk.update_mode
    → pop_update_mode ops disk ≡ record disk { update_mode = disk.update_mode - 1 }
unfolding pop_update_mode
pop_counts ops disk h =
    let nested : (disk.update_mode == 1) ≡ false = ground arith in rw nested refl

run_then :
    {A B C : Type 0} (m : Run A) (k : A → Run B) (f : B → C) {b : B}
    → (m >>= k) ≡ done b
    → (m >>= λ a. k a >>= λ r. done (f r)) ≡ done (f b)
run_then (done a) k f h = rw h refl
run_then trap k f h = cc

-- The partition is not on the disk yet, so it is apart from all that are.
All-Apart :
    (disk : Disk) (part fitted : Entry)
    → IsFitting disk part fitted
    → All (λ walk. address_of walk ≢ part.part.address) disk.part_list
    → All (λ walk. Apart fitted.part.geom (geom_of walk)) disk.part_list
All-Apart disk part fitted fits new = apart disk.part_list fits.apart new
  where
    apart :
        (l : List Entry)
        → All
            (λ walk. (address_of walk ≡ part.part.address) ⊎ Apart fitted.part.geom (geom_of walk))
            l
        → All (λ walk. address_of walk ≢ part.part.address) l
        → All (λ walk. Apart fitted.part.geom (geom_of walk)) l
    apart [] a n = tt
    apart (walk ∷ rest) (inl same, a) (other, n) = absurd (other same)
    apart (walk ∷ rest) (inr free, a) (other, n) = (free, apart rest a n)

-- The disk is as it was, or holds the new partition among the others, in order, on sectors of its
-- own.
abbrev pub Outcome : Disk → Entry → Bool × Disk → Type 0
Outcome disk part (status, changed) =
    ((status ≡ false) × (changed.part_list ≡ disk.part_list))
    ⊎ ((status ≡ true)
        × ((fitted : Entry) × (fitted.part.address ≡ part.part.address)
            × Ordered geom_of (pos 0) changed.part_list
            × Perm (fitted ∷ disk.part_list) changed.part_list))

-- What `ped_disk_add_partition` is called with: an active partition that is neither logical nor on
-- the disk, while the disk is in update mode and no longer read; IGNORE is not answered.
pub record IsCall (ops : DiskOps) (disk : Disk) (part : Entry) (p : Parts) : Type 0 where
  pub ready : disk.needs_clobber ≡ false
  pub cancel : ops.ignore overlapping ≡ false
  pub active : is_active part.part ≡ true
  pub primary : part.part.type.logical ≡ false
  pub start_dev : p.sr.dev ≡ disk.dev
  pub end_dev : p.er.dev ≡ disk.dev
  pub updating : 0 < disk.update_mode
  pub absent : All (λ walk. address_of walk ≢ part.part.address) disk.part_list
  pub in_range : All (λ walk. (geom_of walk).start ≤ℤ max_sector) disk.part_list

module _ {ops : DiskOps} {disk : Disk} {part : Entry} {p : Parts} (call : IsCall ops disk part p)
    (sound : AlignsWithin disk.dev part.part.type ops)
    (ord : Ordered geom_of (pos 0) disk.part_list) where
  abbrev counted : Disk
  counted = record disk { update_mode = suc disk.update_mode }

  -- Leaving update mode keeps the list, and the mode is as before.
  settle :
      (r : Bool × Disk) (fitted : Entry)
      → IsFitting counted part fitted
      → Inserted counted fitted r
      → Outcome disk part (r.0, pop_update_mode ops r.1)
  settle (status, changed) fitted fits (inl (failed, same)) = inl (
    failed,
    ap (λ d. (pop_update_mode ops d).part_list) same
        ∙ ap (λ d. d.part_list) (pop_counts ops counted counts),
  )
    where
      counts : 1 < suc disk.update_mode
      counts = let nested = call.updating in omega arith
  settle (status, changed) fitted fits (inr (worked, same)) =
      let apart = All-Apart counted part fitted fits call.absent in
      let low = fits.first in
      let (sorted, members) =
        add_to_lem geom_of fitted (pos 0) disk.part_list ord low (IsValid-le fits.valid) apart in
      inr (
        worked,
        (
          fitted,
          fits.same_address,
          subst (Ordered geom_of (pos 0)) (sym list) sorted,
          subst (Perm (fitted ∷ disk.part_list)) (sym list) members,
        ),
      )
    where
      added : Disk
      added = record counted { part_list = add_to geom_of fitted disk.part_list }

      counts : 1 < suc disk.update_mode
      counts = let nested = call.updating in omega arith

      list : (pop_update_mode ops changed).part_list ≡ add_to geom_of fitted disk.part_list
      list =
          ap (λ d. (pop_update_mode ops d).part_list) same
          ∙ ap (λ d. d.part_list) (pop_counts ops added counts)

  placed_lem :
      (r : Bool × Disk) × ((fit ops counted part (some (constraint_of p)) >>= insert ops counted)
        ≡ done r)
      × Outcome disk part (r.0, pop_update_mode ops r.1)
  placed_lem =
      let (o, run, fits) =
        fit_lem ops counted part p sound call.ready call.cancel call.active call.primary
          call.start_dev call.end_dev ord call.in_range in
      elim (Option-cases o) [
        | inl e ↦ ((false, counted), rw (run, e) (no_entry ops counted), refused)
        | inr (fitted, e) ↦
            let fitting = fits fitted e in
            let (r, inserted, cases) =
              insert_lem ops counted fitted
                (ap (λ t. t.logical) fitting.same_type ∙ call.primary) in
            (r, rw (run, e) inserted, settle r fitted fitting cases)
      ]
    where
      refused : Outcome disk part (false, pop_update_mode ops counted)
      refused = inl (
        refl,
        ap (λ d. d.part_list) (pop_counts ops counted (let nested = call.updating in omega arith)),
      )

  -- In update mode, on an ordered list, `ped_disk_add_partition` of an active partition that is
  -- neither logical nor on the disk comes back, under a constraint on the same device with grains
  -- below 2^31, if the label aligns within its ranges, the disk is not being read and IGNORE
  -- is not answered. With status 0 the list is as before. Otherwise it holds the partition and
  -- those that were there, in order and without a common sector.
  pub add_partition_lem :
      (r : Bool × Disk) × (add_partition ops disk part (some (constraint_of p)) ≡ done r)
      × Outcome disk part r
  unfolding add_partition
  add_partition_lem = elim (Bool-cases (check_basic_sanity ops disk part.part)) [
    | inl e ↦
        let (r, run, outcome) = placed_lem in
        (
          (r.0, pop_update_mode ops r.1),
          rw (e, push_counts ops disk call.updating)
              (run_then (fit ops counted part (some (constraint_of p))) (insert ops counted)
                (λ r. (r.0, pop_update_mode ops r.1)) run),
          outcome,
        )
    | inr e ↦ ((false, disk), rw e refl, inl (refl, refl))
  ]
