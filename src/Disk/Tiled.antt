-- ===== src/Disk/Tiled.antt =====
-- `_disk_alloc_freespace` on a disk.
use uparted.Base.{
  Bool-cases, List, [], inl, inr, int_laws, negsuc, pos, ℤ, ◌+ℤ◌, ◌-ℤ◌, ◌∷◌, ◌≡◌, ◌≤ℤ◌,
}
use uparted.Disk.{Disk, Entry, PartitionType, geom_of, is_extended}
use uparted.Disk.Sorted.{All, Ordered}
use uparted.Disk.Free.{Tiles, fill-Tiles}
use uparted.Disk.Walk.{DiskOps}
use uparted.Disk.Update.{alloc_freespace, fill_extended, free_primary, new_entry, remove_freespace}

-- `partition_new` of the label: the geometry runs from the first to the last sector asked for.
abbrev pub MakesSectors : DiskOps → Type 0
MakesSectors ops =
    (disk : Disk) (type : PartitionType) (start stop : ℤ)
    → ((ops.partition_new disk type start stop).geom.start ≡ start)
      × ((ops.partition_new disk type start stop).geom.stop ≡ stop)

-- The free space of the extended partition leaves the list of the disk in order.
fill_extended-Ordered :
    (ops : DiskOps) (disk : Disk) (lo limit : ℤ) (l : List Entry)
    → Ordered geom_of lo l
    → All (λ walk. (geom_of walk).stop ≤ℤ limit) l
    → Ordered geom_of lo (fill_extended ops disk l)
      × All (λ walk. (geom_of walk).stop ≤ℤ limit) (fill_extended ops disk l)
unfolding fill_extended
fill_extended-Ordered ops disk lo limit [] ord ends = (tt, tt)
fill_extended-Ordered ops disk lo limit (walk ∷ rest) (a, b, ord) (end, ends) =
    elim (Bool-cases (is_extended walk.part)) [
      | inl e ↦ rw e ((a, b, ord), (end, ends))
      | inr e ↦
          let (later, bounded) =
            fill_extended-Ordered ops disk ((geom_of walk).stop +ℤ pos 1) limit rest ord ends in
          rw e ((a, b, later), (end, bounded))
    ]

-- After `_disk_alloc_freespace` the partitions and the free space cover the sectors of the device,
-- each of them once, if the partitions were in order, without a common sector, and on the device,
-- and the label makes partitions of the sectors that are asked for.
pub alloc_freespace-Tiles :
    (ops : DiskOps) (disk : Disk)
    → MakesSectors ops
    → pos 0 ≤ℤ disk.dev.length
    → Ordered geom_of (pos 0) (remove_freespace disk).part_list
    → All
        (λ walk. (geom_of walk).stop ≤ℤ disk.dev.length -ℤ pos 1)
        (remove_freespace disk).part_list
    → Tiles geom_of (pos 0) (disk.dev.length -ℤ pos 1) (alloc_freespace ops disk).part_list
unfolding alloc_freespace ◌+ℤ◌
alloc_freespace-Tiles ops disk makes size ord ends =
    let cleared = remove_freespace disk in
    let filled = fill_extended ops cleared cleared.part_list in
    let (sorted, bounded) =
      fill_extended-Ordered ops cleared (pos 0) (disk.dev.length -ℤ pos 1) cleared.part_list ord
        ends in
    fill-Tiles geom_of (new_entry ops (record cleared { part_list = filled })) (negsuc 0)
      (disk.dev.length -ℤ pos 1) filled
      (λ start stop. makes (record cleared { part_list = filled }) free_primary start stop) sorted
      (omega int_laws) bounded
