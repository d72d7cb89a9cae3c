-- ===== src/Disk/Resize.antt =====
-- disk.c: a new geometry for a partition on the disk.
use uparted.Base.{
  Bool, List, Option, Run, [], deref, done, false, if◌then◌else◌, none, pos, some, true, ℕ, ℤ, ◌+ℤ◌,
  ◌-ℤ◌, ◌==◌, ◌>>=◌, ◌∷◌,
}
use uparted.Geom
use uparted.Geom.{Geometry}
use uparted.Constraint
use uparted.Constraint.{Constraint}
use uparted.Disk.{
  Disk, Entry, Partition, address_of, extended_partition, geom_of, overlap_constraint,
  partition_geom, raw_add,
}
use uparted.Disk.Walk.{DiskOps, write}
use uparted.Disk.Update.{pop_update_mode, push_update_mode, raw_remove}
use uparted.Disk.Add.{align, check_partition}
use uparted.Disk.Delete.{delete_partition}

-- The partition at an address, as the disk has it now.
unfoldable pub find_logical : ℕ → List Partition → Option Entry
find_logical address [] = none
find_logical address (walk ∷ rest) =
    let later = find_logical address rest in
    if walk.address == address then some (record { part = walk; part_list = [] }) else later

unfoldable pub find_part : ℕ → List Entry → Option Entry
unfolding find_logical
find_part address [] = none
find_part address (walk ∷ rest) =
    let later = find_part address rest in
    if walk.part.address == address
    then some walk
    else elim (find_logical address walk.part_list) [ none ↦ later | some part ↦ some part ]

-- `part->geom = geom`
unfoldable pub set_geom : ℕ → Geometry → Disk → Disk
unfolding write
set_geom address geom disk = write address (λ part. record part { geom = geom }) disk

-- The jump to `error_pop_update_mode`: the old geometry comes back after update mode is left.
unfoldable pub give_up : DiskOps → Disk → ℕ → Geometry → Bool × Disk
unfolding set_geom pop_update_mode
give_up ops disk address old_geom = (false, set_geom address old_geom (pop_update_mode ops disk))

-- The test of the intersection: `none` is the jump to `error_pop_update_mode`.
unfoldable pub accept : Option Constraint → Option Constraint → Option (Option Constraint)
accept none none = some none
accept none (some c) = none
accept (some c) constraint = some (some c)

-- The part of `ped_disk_set_partition_geom` behind `_partition_align`.
unfoldable pub replace : DiskOps → Disk → ℕ → Geometry → Option Geometry → Run (Bool × Disk)
unfolding give_up set_geom find_part check_partition raw_remove raw_add pop_update_mode
replace ops disk address old_geom none = done (give_up ops disk address old_geom)
replace ops disk address old_geom (some geom) =
    let moved = set_geom address geom disk in
    deref (find_part address moved.part_list) >>= λ entry.
    check_partition ops moved entry >>= λ fine.
    if fine
    then (raw_remove moved entry.part >>= λ removed.
        raw_add removed entry >>= λ added. done (true, pop_update_mode ops added))
    else done (give_up ops moved address old_geom)

-- The part behind the test of the intersection.
unfoldable pub place :
    DiskOps → Disk → Partition → Geometry → Option (Option Constraint) → Run (Bool × Disk)
unfolding give_up set_geom align replace
place ops disk part new_geom none = done (give_up ops disk part.address part.geom)
place ops disk part new_geom (some constraints) =
    let moved = set_geom part.address new_geom disk in
    align ops moved (record part { geom = new_geom }) constraints >>= λ geom.
    replace ops moved part.address part.geom geom

-- `ped_disk_set_partition_geom`
unfoldable pub set_partition_geom :
    DiskOps → Disk → Partition → Option Constraint → ℤ → ℤ → Run (Bool × Disk)
unfolding push_update_mode overlap_constraint accept place
set_partition_geom ops disk part constraint start stop =
    elim (Geom.init part.geom.dev start (stop -ℤ start +ℤ pos 1)) [
      | none ↦ done (false, disk)
      | some new_geom ↦ push_update_mode ops disk >>= λ updating.
          overlap_constraint updating part new_geom >>= λ overlap.
          Constraint.intersect overlap constraint >>= λ constraints.
          place ops updating part new_geom (accept constraints constraint)
    ]

unfoldable pub head_geom : {A : Type 0} → (A → Geometry) → List A → Option Geometry
head_geom geom [] = none
head_geom geom (walk ∷ rest) = some (geom walk)

-- The regions in front of a member of a list and behind it, that `prev` and `next` reach.
unfoldable pub neighbours :
    {A : Type 0}
    → (A → Geometry)
    → (A → ℕ)
    → ℕ
    → Option Geometry
    → List A
    → Option Geometry × Option Geometry
unfolding head_geom
neighbours geom address part prev [] = (none, none)
neighbours geom address part prev (walk ∷ rest) =
    let later = neighbours geom address part (some (geom walk)) rest in
    if address walk == part then (prev, head_geom geom rest) else later

-- The new region of `ped_disk_maximize_partition`, between the neighbours or the bounds.
unfoldable pub room_between : Option Geometry × Option Geometry → ℤ → ℤ → ℤ × ℤ
room_between (prev, next) min_start max_end = (
  elim prev [ none ↦ min_start | some g ↦ g.stop +ℤ pos 1 ],
  elim next [ none ↦ max_end | some g ↦ g.start -ℤ pos 1 ],
)

unfoldable pub room_for : Disk → Partition → ℤ → ℤ → Run (ℤ × ℤ)
unfolding neighbours room_between extended_partition
room_for disk part min_start max_end =
    if part.type.logical
    then (deref (extended_partition disk.part_list) >>= λ ext_part. done (
        room_between
          (neighbours partition_geom (λ walk. walk.address) part.address none ext_part.part_list)
          min_start max_end))
    else done (
        room_between (neighbours geom_of address_of part.address none disk.part_list) min_start
          max_end)

-- Its bounds.
unfoldable pub bounds_for : Disk → Partition → Run (ℤ × ℤ)
unfolding extended_partition
bounds_for disk part =
    if part.type.logical
    then (deref (extended_partition disk.part_list) >>= λ ext_part.
        done (ext_part.part.geom.start, ext_part.part.geom.stop))
    else done (pos 0, disk.dev.length -ℤ pos 1)

-- The jump to `error` in it.
unfoldable pub restore : DiskOps → Partition → Bool × Disk → Run (Bool × Disk)
unfolding set_partition_geom pop_update_mode
restore ops part (true, changed) = done (true, pop_update_mode ops changed)
restore ops part (false, changed) =
    set_partition_geom ops changed part (Constraint.any changed.dev) part.geom.start part.geom.stop
    >>= λ r. done (false, pop_update_mode ops r.1)

-- `ped_disk_maximize_partition`
unfoldable pub maximize_partition :
    DiskOps → Disk → Partition → Option Constraint → Run (Bool × Disk)
unfolding bounds_for push_update_mode room_for set_partition_geom restore
maximize_partition ops disk part constraint = bounds_for disk part >>= λ bounds.
    push_update_mode ops disk >>= λ updating. room_for updating part bounds.0 bounds.1 >>= λ room.
    set_partition_geom ops updating part constraint room.0 room.1 >>= restore ops part

-- `ped_disk_get_max_partition_geometry` once the partition is maximized, as `part` on the disk.
unfoldable pub undo_maximize : DiskOps → Disk → Partition → Geometry → Run (Option Geometry × Disk)
unfolding set_partition_geom
undo_maximize ops disk part old_geom =
    set_partition_geom ops disk part (Constraint.exact old_geom) old_geom.start old_geom.stop
    >>= λ r. done (Geom.duplicate part.geom, r.1)

-- `ped_disk_get_max_partition_geometry`: the largest region that the partition may take, `none` if
-- it cannot be maximized.
unfoldable pub max_partition_geometry :
    DiskOps → Disk → Partition → Option Constraint → Run (Option Geometry × Disk)
unfolding maximize_partition undo_maximize find_part
max_partition_geometry ops disk part constraint =
    maximize_partition ops disk part constraint >>= λ (status, changed).
    let grown = deref (find_part part.address changed.part_list) in
    if status
    then (grown >>= λ entry. undo_maximize ops changed entry.part part.geom)
    else done (none, changed)

-- The last member of the list that starts with `first`.
unfoldable pub last_logical : Partition → List Partition → Partition
last_logical first [] = first
last_logical first (walk ∷ rest) = last_logical walk rest

-- `ped_disk_minimize_extended_partition` once there is an extended partition.
unfoldable pub shrink : DiskOps → Disk → Partition → List Partition → Run (Bool × Disk)
unfolding pop_update_mode delete_partition set_partition_geom last_logical
shrink ops disk ext_part [] =
    delete_partition ops (pop_update_mode ops disk) ext_part >>= λ deleted. done (true, deleted)
shrink ops disk ext_part (first ∷ rest) =
    set_partition_geom ops disk ext_part (Constraint.any disk.dev) first.geom.start
      (last_logical first rest).geom.stop
    >>= λ r. done (r.0, pop_update_mode ops r.1)

-- `ped_disk_minimize_extended_partition`
unfoldable pub minimize_extended_partition : DiskOps → Disk → Run (Bool × Disk)
unfolding push_update_mode extended_partition shrink
minimize_extended_partition ops disk = elim (extended_partition disk.part_list) [
  | none ↦ done (true, disk)
  | some entry ↦ push_update_mode ops disk >>= λ updating.
      deref (extended_partition updating.part_list) >>= λ ext_part.
      shrink ops updating ext_part.part ext_part.part_list
]
