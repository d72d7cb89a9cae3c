-- ===== src/Disk/Lookup.antt =====
-- `ped_disk_get_partition_by_sector` on the partitions that it visits.
use uparted.Base.{
  Bool-cases, List, Option, [], arith, false, inl, inr, none, not, some, true, ℤ, ◌&&◌, ◌↔◌, ◌∷◌,
  ◌≡◌,
}
use uparted.Geom
use uparted.Geom.Laws.{Contains}
use uparted.Disk.{Partition, is_extended}
use uparted.Disk.Sorted.{All}
use uparted.Disk.Walk.{by_sector}
use mathlib.Core.List.{Mem, mem-cons_self, mem-cons_of_mem}

-- The partition has the sector and is not the extended one.
abbrev pub Holds : ℤ → Partition → Type 0
Holds sect part = Contains part.geom sect × (is_extended part ≡ false)

-- `NULL` if no partition holds the sector, and otherwise one that does.
abbrev pub IsHolder : ℤ → List Partition → Option Partition → Type 0
IsHolder sect l none = All (λ walk. ¬ Holds sect walk) l
IsHolder sect l (some part) = Mem part l × Holds sect part

Holds-iff :
    (sect : ℤ) (walk : Partition)
    → ((Geom.test_sector_inside walk.geom sect && not (is_extended walk)) ≡ true) ↔ Holds sect walk
Holds-iff sect walk =
    let (to, from) = Geom.Laws.test_sector_inside_iff walk.geom sect in
    (
      λ h. (to (ground arith), ground arith),
      λ (inside, other). let test = from inside in ground arith,
    )

later-IsHolder :
    (sect : ℤ) (walk : Partition) (l : List Partition) (o : Option Partition)
    → ¬ Holds sect walk
    → IsHolder sect l o
    → IsHolder sect (walk ∷ l) o
later-IsHolder sect walk l none miss all = (miss, all)
later-IsHolder sect walk l (some part) miss (member, holds) = (mem-cons_of_mem walk member, holds)

-- `ped_disk_get_partition_by_sector` returns a partition of the disk that has the sector and is
-- not the extended one, or NULL if there is none.
pub by_sector_lem : (sect : ℤ) (l : List Partition) → IsHolder sect l (by_sector sect l)
unfolding by_sector
by_sector_lem sect [] = tt
by_sector_lem sect (walk ∷ rest) =
    elim (Bool-cases (Geom.test_sector_inside walk.geom sect && not (is_extended walk))) [
      | inl e ↦ rw e (mem-cons_self, (Holds-iff sect walk).0 e)
      | inr e ↦ rw e (
          later-IsHolder sect walk rest (by_sector sect rest)
            (λ holds. let hit = (Holds-iff sect walk).1 holds in cc) (by_sector_lem sect rest))
    ]
