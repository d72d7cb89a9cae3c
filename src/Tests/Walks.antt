-- ===== src/Tests/Walks.antt =====
-- The traversal of the sample disk.
use uparted.Base.{[], arith, none, refl, some, ◌∷◌, ◌≡◌}
use uparted.Disk.{is_extended}
use uparted.Disk.Walk.{partitions}
use uparted.Disk.Next.{
  after_extended, first_of, head_logical, head_primary, next_or_leave, next_partition, visit,
}
use uparted.Disk.Next.Visits.{IsNested, visit_lem}
use uparted.Tests.Sample.{boot, disk, extended, first_logical}

disk-IsNested : IsNested disk.part_list
unfolding is_extended
disk-IsNested = (refl, λ h. absurd (ground arith), (refl, λ h. ((refl, tt), tt), tt))

-- The logical partition is behind the extended one, and nothing behind it.
walk_runs :
    visit 4 disk.part_list (next_partition disk.part_list none)
    ≡ some (boot.part ∷ extended.part ∷ first_logical ∷ [])
unfolding visit next_partition is_extended head_primary first_of next_or_leave after_extended
    head_logical
walk_runs = refl

visit_lem_example :
    visit 9 disk.part_list (next_partition disk.part_list none) ≡ some (partitions disk.part_list)
unfolding partitions is_extended
visit_lem_example = visit_lem disk.part_list 9 disk-IsNested (omega arith)
