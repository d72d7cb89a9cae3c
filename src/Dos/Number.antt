-- ===== src/Dos/Number.antt =====
-- labels/dos.c: the numbers of the partitions.
pub mod Unused
use uparted.Base.{
  List, Option, eqb_ℤ, if◌then◌else◌, leb_ℤ, negsuc, none, not, pos, some, suc, zero, ℕ, ℤ, ◌&&◌,
  ◌+◌,
}
use uparted.Disk.{Disk, Partition}
use uparted.Disk.Walk.{get_partition, partitions, write}

-- The loops of `next_primary` and `next_logical` from the number `i` on, with the count of those
-- that are left; `none` is the return of -1.
unfoldable pub next_from : ℕ → ℕ → List Partition → Option ℤ
unfolding get_partition
next_from zero i parts = none
next_from (suc left) i parts =
    let rest = next_from left (i + 1) parts in
    elim (get_partition (pos i) parts) [ none ↦ some (pos i) | some part ↦ rest ]

-- `next_primary`, with `DOS_N_PRI_PARTITIONS`.
unfoldable pub next_primary : Disk → Option ℤ
unfolding next_from partitions
next_primary disk = next_from 4 1 (partitions disk.part_list)

-- `next_logical`, from 5 to `MAX_TOTAL_PART`.
unfoldable pub next_logical : Disk → Option ℤ
unfolding next_from partitions
next_logical disk = next_from 60 5 (partitions disk.part_list)

-- `msdos_partition_enumerate`: the number that is assigned. The partition has no number while one is
-- looked for.
unfoldable pub partition_enumerate : Disk → Partition → Option ℤ
unfolding next_primary next_logical write
partition_enumerate disk part =
    let cleared = write part.address (λ p. record p { num = negsuc 0 }) disk in
    if not (eqb_ℤ part.num (negsuc 0)) && leb_ℤ part.num (pos 4)
    then some part.num
    else if part.type.logical
    then next_logical cleared
    else next_primary cleared
