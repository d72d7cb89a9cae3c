-- ===== src/Tests/DiskRuns.antt =====
-- Runs of disk.c on the sample disk.
use uparted.Base.{
  [], done, false, max_ℤ, min_ℤ, none, pos, refl, some, true, ℤ, ◌%ℤ◌, ◌*ℤ◌, ◌/ℤ◌, ◌∷◌, ◌≡◌,
}
use uparted.Geom
use uparted.Align
use uparted.Constraint
use uparted.Constraint.{Constraint}
use uparted.Constraint.Common.{constraint_of}
use uparted.Disk
use uparted.Disk.{Disk, Entry}
use uparted.Euclid.{combine, extended_euclid, to_int}
use uparted.Rounding.{abs_mod}
use uparted.Disk.Walk.{DiskOps}
use uparted.Disk.Add.{add_partition}
use uparted.Tests.Sample.{
  anywhere, boot, dev, disk, extended, first_logical, fresh, ops, partition, program, region,
}

abbrev numbered : Entry
numbered = record fresh { part = record fresh.part { num = pos 1 } }

unfoldable pub adding : Unit {0}
unfolding program add_partition Disk.Add.check_basic_sanity Disk.Add.is_logical Disk.Walk.partitions
    Disk.Walk.primary_count Disk.Update.push_update_mode Disk.Update.pop_update_mode Disk.Add.fit
    Disk.Add.insert Disk.Add.number_and_align Disk.Add.choose Disk.Add.align Disk.raw_add
    Disk.Add.check_partition Disk.Add.check_logical Disk.Add.check_primary Constraint.new_from_max
    Constraint.new Constraint.intersect Constraint.intersect_with Constraint.is_solution
    Align.intersect Align.intersect_ordered Align.solve Align.duplicate Align.new Align.init
    Align.is_aligned_in Align.is_aligned Geom.intersect Geom.intersect_defined
    Geom.test_sector_inside Geom.test_inside extended_euclid combine to_int abs_mod max_ℤ min_ℤ ◌*ℤ◌
    ◌/ℤ◌ ◌%ℤ◌
adding = tt

-- The partition is added between the two others.
add_runs :
    add_partition ops disk fresh (some (constraint_of anywhere))
    ≡ done (true, record disk { part_list = boot ∷ numbered ∷ extended ∷ [] })
unfolding adding
add_runs = refl

-- A partition on sectors of another one is refused by this label, which moves nothing.
abbrev clash : Entry
clash = record fresh { part = record fresh.part { geom = region (pos 50) (pos 299) } }

clash_refused : add_partition ops disk clash (some (constraint_of anywhere)) ≡ done (false, disk)
unfolding adding
clash_refused = refl

-- A label that aligns nothing, and a disk with the free space around its one partition.
abbrev strict : DiskOps
strict = record ops { partition_align = λ d part c. done none }

abbrev space : ℤ → ℤ → Entry
space start stop = record {
  part = partition 9 Disk.Update.free_primary (region start stop);
  part_list = [];
}

abbrev single : Disk
single = record {
  dev = dev;
  part_list = space (pos 0) (pos 9) ∷ boot ∷ space (pos 100) (pos 999) ∷ [];
  update_mode = 0;
  needs_clobber = false;
}

resizing : Unit {0}
unfolding adding Disk.Resize.set_partition_geom Disk.Resize.place Disk.Resize.accept
    Disk.Resize.replace Disk.Resize.give_up Disk.Resize.set_geom Disk.Walk.write
    Disk.Walk.write_entry Disk.Walk.write_part Disk.Update.remove_metadata Disk.Update.remove_each
    Disk.Resize.find_part Disk.Resize.find_logical Disk.raw_add Disk.Update.raw_remove
    Disk.Update.unlink Disk.Delete.delete_all Disk.Delete.delete_entries
    Disk.Delete.delete_partition Disk.Delete.delete_all_logical Disk.Delete.delete_each
    Disk.Delete.delete_single Disk.Update.remove_partition Disk.Walk.enumerate_partitions
    Disk.Walk.renumber Disk.Walk.number_new Disk.Walk.enumerate Disk.Walk.last_num
    Disk.Walk.get_partition Disk.update_extended
resizing = tt

-- A failed `ped_disk_set_partition_geom` puts the old region back after the free space was
-- computed from the new one: the sectors from 200 to 299 belong to nothing, and those of the
-- partition to the free space too.
failed_move :
    Disk.Resize.set_partition_geom strict single boot.part
      (some (constraint_of anywhere))
      (pos 200)
      (pos 299)
    ≡ done (
      false,
      record single { part_list = space (pos 0) (pos 199) ∷ boot ∷ space (pos 300) (pos 999) ∷ [] },
    )
unfolding resizing
failed_move = refl

-- A move that the label allows.
moved : Entry
moved = record boot { part = record boot.part { geom = region (pos 200) (pos 299) } }

good_move :
    Disk.Resize.set_partition_geom ops single boot.part
      (some (constraint_of anywhere))
      (pos 200)
      (pos 299)
    ≡ done (
      true,
      record single {
        part_list = space (pos 0) (pos 199) ∷ moved ∷ space (pos 300) (pos 999) ∷ [];
      },
    )
unfolding resizing moved
good_move = refl

-- The partition could take the whole disk, and is left as it was.
largest :
    Disk.Resize.max_partition_geometry ops single boot.part (some (constraint_of anywhere))
    ≡ done (
      some (region (pos 0) (pos 999)),
      record single { part_list = space (pos 0) (pos 9) ∷ boot ∷ space (pos 100) (pos 999) ∷ [] },
    )
unfolding resizing Disk.Resize.max_partition_geometry Disk.Resize.undo_maximize
    Disk.Resize.maximize_partition Disk.Resize.bounds_for Disk.Resize.room_for
    Disk.Resize.room_between Disk.Resize.neighbours Disk.Resize.head_geom Disk.Resize.restore
    Constraint.exact Geom.duplicate Geom.new Geom.init Geom.set
largest = refl

-- All partitions deleted, the logical one first.
all_deleted :
    Disk.Delete.delete_all ops (record disk { update_mode = 0 })
    ≡ done (record single { part_list = space (pos 0) (pos 999) ∷ [] })
unfolding resizing
all_deleted = refl

-- Inside of the extended partition the logical one is found.
by_sector_runs :
    Disk.Walk.by_sector (pos 550) (Disk.Walk.partitions disk.part_list) ≡ some first_logical
unfolding resizing Disk.Walk.by_sector
by_sector_runs = refl
