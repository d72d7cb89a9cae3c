-- ===== src/Disk/Next.antt =====
-- disk.c: `ped_disk_next_partition`, and the loops over all partitions.
pub mod Visits
use uparted.Base.{List, Option, [], if◌then◌else◌, none, some, suc, zero, ℕ, ◌∷◌}
use uparted.Disk.{Entry, Partition, is_extended}

-- A pointer to a partition of the disk: the partition, with the list to which its `next` leads. A
-- logical partition has no part_list.
pub data Cursor : Type 0 where
  at_primary : Entry → List Entry → Cursor
  at_logical : Partition → List Partition → Cursor

-- The partition that the pointer leads to.
abbrev pub partition_at : Cursor → Partition
partition_at (at_primary walk next) = walk.part
partition_at (at_logical walk next) = walk

-- The first of a list, `NULL` if it is empty.
unfoldable pub head_primary : List Entry → Option Cursor
head_primary [] = none
head_primary (walk ∷ rest) = some (at_primary walk rest)

unfoldable pub head_logical : List Partition → Option Cursor
head_logical [] = none
head_logical (walk ∷ rest) = some (at_logical walk rest)

-- `ped_disk_extended_partition (disk)->next`, or `NULL` where there is no extended partition.
unfoldable pub after_extended : List Entry → Option Cursor
unfolding is_extended head_primary
after_extended [] = none
after_extended (walk ∷ rest) =
    let later = after_extended rest in if is_extended walk.part then head_primary rest else later

-- What `ped_disk_next_partition` does where `next` is followed: the extended partition is left
-- behind its last logical partition.
unfoldable pub next_or_leave : List Entry → Partition → Option Cursor → Option Cursor
next_or_leave list part (some next) = some next
next_or_leave list part none = if part.type.logical then after_extended list else none

unfoldable pub first_of : List Partition → Option Cursor → Option Cursor
unfolding head_logical
first_of [] next = next
first_of (walk ∷ rest) next = some (at_logical walk rest)

-- `ped_disk_next_partition` on the part_list of the disk.
unfoldable pub next_partition : List Entry → Option Cursor → Option Cursor
unfolding head_primary head_logical is_extended
next_partition list none = head_primary list
next_partition list (some (at_primary walk next)) =
    if is_extended walk.part
    then first_of walk.part_list (head_primary next)
    else next_or_leave list walk.part (head_primary next)
next_partition list (some (at_logical walk next)) =
    if is_extended walk then head_logical next else next_or_leave list walk (head_logical next)

-- The partitions that a loop `for (; walk; walk = ped_disk_next_partition (disk, walk))` visits;
-- `none` says that the fuel ran out.
unfoldable pub visit : ℕ → List Entry → Option Cursor → Option (List Partition)
visit zero list walk = none
visit (suc fuel) list none = some []
visit (suc fuel) list (some walk) = elim (visit fuel list (next_partition list (some walk))) [
  | none ↦ none
  | some rest ↦ some (partition_at walk ∷ rest)
]
