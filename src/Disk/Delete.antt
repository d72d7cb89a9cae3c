-- ===== src/Disk/Delete.antt =====
-- disk.c: deletion of partitions.
use uparted.Base.{List, Run, [], deref, done, if◌then◌else◌, ◌>>=◌, ◌∷◌}
use uparted.Disk.{Disk, Entry, Partition, extended_partition, is_extended}
use uparted.Disk.Walk.{DiskOps}
use uparted.Disk.Update.{pop_update_mode, push_update_mode, remove_partition}

-- `ped_disk_delete_partition` on a partition that is not extended.
unfoldable pub delete_single : DiskOps → Disk → Partition → Run Disk
unfolding push_update_mode remove_partition pop_update_mode
delete_single ops disk part = push_update_mode ops disk >>= λ updating.
    remove_partition ops updating part >>= λ removed. done (pop_update_mode ops removed)

-- The loop of `ped_disk_delete_all_logical`; a logical partition is not extended.
unfoldable pub delete_each : DiskOps → List Partition → Disk → Run Disk
unfolding delete_single
delete_each ops [] disk = done disk
delete_each ops (walk ∷ rest) disk =
    delete_single ops disk walk >>= λ deleted. delete_each ops rest deleted

-- `ped_disk_delete_all_logical`
unfoldable pub delete_all_logical : DiskOps → Disk → Run Disk
unfolding delete_each extended_partition
delete_all_logical ops disk = deref (extended_partition disk.part_list) >>= λ ext_part.
    delete_each ops ext_part.part_list disk

-- `ped_disk_delete_partition`
unfoldable pub delete_partition : DiskOps → Disk → Partition → Run Disk
unfolding push_update_mode delete_all_logical is_extended remove_partition pop_update_mode
delete_partition ops disk part = push_update_mode ops disk >>= λ updating.
    let without_logical = delete_all_logical ops updating in
    (if is_extended part then without_logical else done updating) >>= λ emptied.
    remove_partition ops emptied part >>= λ removed. done (pop_update_mode ops removed)

-- The loop of `ped_disk_delete_all`; the status of a deletion is always 1.
unfoldable pub delete_entries : DiskOps → List Entry → Disk → Run Disk
unfolding delete_partition
delete_entries ops [] disk = done disk
delete_entries ops (walk ∷ rest) disk =
    delete_partition ops disk walk.part >>= λ deleted. delete_entries ops rest deleted

-- `ped_disk_delete_all`
unfoldable pub delete_all : DiskOps → Disk → Run Disk
unfolding push_update_mode delete_entries pop_update_mode
delete_all ops disk = push_update_mode ops disk >>= λ updating.
    delete_entries ops updating.part_list updating >>= λ emptied. done (pop_update_mode ops emptied)
