-- ===== src/Disk/Update.antt =====
-- disk.c: update mode, in which a disk has neither free space nor metadata, and removal.
use uparted.Base.{
  List, Run, [], done, false, if◌then◌else◌, negsuc, pos, suc, true, ℕ, ℤ, ◌-ℤ◌, ◌-◌, ◌==◌, ◌>>=◌,
  ◌∷◌,
}
use uparted.Disk.{
  Disk, Entry, Partition, PartitionType, address_of, fill, geom_of, is_extended, partition_geom,
  remove_free, update_extended,
}
use uparted.Disk.Walk.{DiskOps, enumerate_partitions, partitions}
use mathlib.Core.List.{map}

abbrev part_of : Entry → Partition
part_of entry = entry.part

-- `_disk_remove_freespace`: from the list of the disk, and from those of extended partitions.
unfoldable pub remove_free_logical : Entry → Entry
unfolding is_extended remove_free
remove_free_logical entry = record entry {
  part_list =
      if is_extended entry.part
      then remove_free (λ part. part) entry.part_list
      else entry.part_list;
}

unfoldable pub remove_freespace : Disk → Disk
unfolding remove_free_logical
remove_freespace disk = record disk {
  part_list = map remove_free_logical (remove_free part_of disk.part_list);
}

-- The types of free space.
abbrev pub free_logical : PartitionType
free_logical = record {
  logical = true;
  extended = false;
  freespace = true;
  metadata = false;
  protected = false;
}

abbrev pub free_primary : PartitionType
free_primary = record free_logical { logical = false }

-- `_alloc_extended_freespace`: the first sector of the extended partition stays out.
unfoldable pub fill_extended : DiskOps → Disk → List Entry → List Entry
unfolding is_extended fill
fill_extended ops disk [] = []
fill_extended ops disk (walk ∷ rest) =
    let later = fill_extended ops disk rest in
    if is_extended walk.part
    then record walk {
      part_list =
          fill partition_geom (ops.partition_new disk free_logical) walk.part.geom.start
            walk.part.geom.stop walk.part_list;
    }
      ∷ rest
    else walk ∷ later

-- A new entry has no part_list.
abbrev pub new_entry : DiskOps → Disk → ℤ → ℤ → Entry
new_entry ops disk start stop = record {
  part = ops.partition_new disk free_primary start stop;
  part_list = [];
}

-- `_disk_alloc_freespace`
unfoldable pub alloc_freespace : DiskOps → Disk → Disk
unfolding remove_freespace fill_extended fill
alloc_freespace ops disk =
    let cleared = remove_freespace disk in
    let filled = fill_extended ops cleared cleared.part_list in
    let free = new_entry ops (record cleared { part_list = filled }) in
    record disk { part_list = fill geom_of free (negsuc 0) (disk.dev.length -ℤ pos 1) filled }

-- A list without the partition at an address.
unfoldable pub unlink : {A : Type 0} → (A → ℕ) → ℕ → List A → List A
unlink address part [] = []
unlink address part (walk ∷ rest) =
    let later = unlink address part rest in if address walk == part then rest else walk ∷ later

-- `_disk_raw_remove`
unfoldable pub raw_remove : Disk → Partition → Run Disk
unfolding unlink update_extended
raw_remove disk part =
    if part.type.logical
    then (update_extended (unlink (λ walk. walk.address) part.address) disk.part_list >>= λ list.
        done (record disk { part_list = list }))
    else done (record disk { part_list = unlink address_of part.address disk.part_list })

-- `ped_disk_delete_partition` on a metadata partition in update mode, where the two levels of
-- `_disk_push_update_mode` only count: `_disk_raw_remove`, and the numbers given anew.
unfoldable pub delete_metadata : DiskOps → Disk → Partition → Run Disk
unfolding raw_remove enumerate_partitions
delete_metadata ops disk part =
    raw_remove (record disk { update_mode = suc (suc disk.update_mode) }) part >>= λ removed.
    done
      (record (enumerate_partitions ops (record removed { update_mode = suc disk.update_mode })).1 {
        update_mode = disk.update_mode;
      })

-- `_disk_remove_metadata`: its loop goes from one metadata partition to the next.
unfoldable pub remove_each : DiskOps → List Partition → Disk → Run Disk
unfolding delete_metadata
remove_each ops [] disk = done disk
remove_each ops (walk ∷ rest) disk =
    let with_walk = delete_metadata ops disk walk >>= λ removed. remove_each ops rest removed in
    let later = remove_each ops rest disk in if walk.type.metadata then with_walk else later

unfoldable pub remove_metadata : DiskOps → Disk → Run Disk
unfolding remove_each partitions
remove_metadata ops disk = remove_each ops (partitions disk.part_list) disk

-- `_disk_push_update_mode`
unfoldable pub push_update_mode : DiskOps → Disk → Run Disk
unfolding remove_metadata remove_freespace
push_update_mode ops disk =
    if disk.update_mode == 0
    then remove_metadata ops (record (remove_freespace disk) { update_mode = 1 })
    else done (record disk { update_mode = suc disk.update_mode })

-- `_disk_pop_update_mode`
unfoldable pub pop_update_mode : DiskOps → Disk → Disk
unfolding alloc_freespace
pop_update_mode ops disk =
    let allocated = ops.alloc_metadata disk in
    if disk.update_mode == 1
    then alloc_freespace ops (record allocated { update_mode = allocated.update_mode - 1 })
    else record disk { update_mode = disk.update_mode - 1 }

-- `ped_disk_remove_partition`
unfoldable pub remove_partition : DiskOps → Disk → Partition → Run Disk
unfolding push_update_mode raw_remove pop_update_mode enumerate_partitions
remove_partition ops disk part = push_update_mode ops disk >>= λ updating.
    raw_remove updating part >>= λ removed.
    done (enumerate_partitions ops (pop_update_mode ops removed)).1
