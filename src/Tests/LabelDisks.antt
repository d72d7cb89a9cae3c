-- ===== src/Tests/LabelDisks.antt =====
-- A partition is put on a disk with an Amiga label, and on one with a DOS label.
use uparted.Base.{Bool, [], arith, done, pos, refl, some, true, ◌∷◌, ◌≡◌}
use uparted.Constraint.Common.{constraint_of}
use uparted.Disk.{Disk, Entry, is_active}
use uparted.Disk.Add.{add_partition}
use uparted.Disk.Add.Result.{IsCall, Outcome}
use uparted.Disk.Walk.{DiskOps, get_partition, write, write_entry, write_part}
use uparted.Dos.Number.{next_from, next_primary}
use uparted.Dos.Ops.{add_partition-dos_ops, dos_ops}
use uparted.Tests.DosAligns.{aligning, cylinders, hw-IsBios}
use uparted.Label.Types.{amiga}
use uparted.Label.Types.Ops.{add_partition-label_ops, label_ops}
use uparted.Tests.Alignings.{hw}
use uparted.Tests.DiskRuns.{adding}
use uparted.Tests.Disks.{disk-All, disk-Ordered}
use uparted.Tests.Sample.{anywhere, boot, disk, extended, fresh, ops, region}
use uparted.Tests.Searches.{searching}

abbrev amiga_ops : DiskOps
amiga_ops = label_ops amiga hw hw ops

abbrev wanted : Entry
wanted = record fresh { part = record fresh.part { geom = region (pos 293) (pos 402) } }

abbrev taken : Entry
taken = record fresh { part = record fresh.part { num = pos 1; geom = region (pos 290) (pos 399) } }

-- It is moved to whole cylinders, between the two others.
add_runs :
    add_partition amiga_ops disk wanted (some (constraint_of anywhere))
    ≡ done (true, record disk { part_list = boot ∷ taken ∷ extended ∷ [] })
unfolding adding searching label_ops
add_runs = refl

wanted-IsCall : IsCall amiga_ops disk wanted anywhere
unfolding label_ops is_active
wanted-IsCall = record {
  ready = refl;
  cancel = refl;
  active = refl;
  primary = refl;
  start_dev = refl;
  end_dev = refl;
  updating = omega arith;
  absent = (omega arith, (omega arith, tt));
  in_range = disk-All;
}

add_partition-label_ops_example :
    (r : Bool × Disk) × (add_partition amiga_ops disk wanted (some (constraint_of anywhere))
      ≡ done r)
    × Outcome disk wanted r
add_partition-label_ops_example =
    add_partition-label_ops amiga hw hw ops disk wanted anywhere (omega arith) (omega arith)
      (λ extended. tt) wanted-IsCall disk-Ordered

-- The same partition on a disk with a DOS label.
abbrev dos : DiskOps
dos = dos_ops cylinders hw ops

dos_runs :
    add_partition dos disk wanted (some (constraint_of anywhere))
    ≡ done (true, record disk { part_list = boot ∷ taken ∷ extended ∷ [] })
unfolding adding aligning dos_ops next_primary next_from write write_entry write_part get_partition
dos_runs = refl

wanted-dos-IsCall : IsCall dos disk wanted anywhere
unfolding dos_ops is_active
wanted-dos-IsCall = record {
  ready = refl;
  cancel = refl;
  active = refl;
  primary = refl;
  start_dev = refl;
  end_dev = refl;
  updating = omega arith;
  absent = (omega arith, (omega arith, tt));
  in_range = disk-All;
}

add_partition-dos_ops_example :
    (r : Bool × Disk) × (add_partition dos disk wanted (some (constraint_of anywhere)) ≡ done r)
    × Outcome disk wanted r
add_partition-dos_ops_example =
    add_partition-dos_ops cylinders hw ops disk wanted anywhere refl hw-IsBios (omega arith) refl
      wanted-dos-IsCall disk-Ordered
